-- ===== src/Security/Envelope.antt =====
-- `encrypt_envelope` and `decrypt_envelope` of common/crypto.py.
use distributed_ai_networkin.Prelude.{
  ℕ, zero, suc, ◌≡◌, refl, ap, Option, none, some, [], ◌∷◌, ◌++◌, arith, length, take,
}
use distributed_ai_networkin.SupplyChain.Digest.{codes}
use distributed_ai_networkin.Interfaces.{Bytes}

-- AES-256-GCM of `cryptography`, with no associated data; `none` is an InvalidTag.
pub record Aead : Type 0 where
  pub encrypt : Bytes → Bytes → Bytes → Bytes
  pub decrypt : Bytes → Bytes → Bytes → Option Bytes

pub record AeadLaws (a : Aead) : Type 0 where
  pub decrypt-encrypt :
      (key nonce message : Bytes) → a.decrypt key nonce (a.encrypt key nonce message) ≡ some message

-- json.dumps(…).encode and json.loads(….decode) of a payload.
pub record PayloadCodec (P : Type 0) : Type 0 where
  pub dumps : P → Bytes
  pub loads : Bytes → Option P

pub record PayloadLaws {P : Type 0} (c : PayloadCodec P) : Type 0 where
  pub loads-dumps : (p : P) → c.loads (c.dumps p) ≡ some p

-- get_master_kek
abbrev pub master_kek : Bytes
master_kek = codes "master_kek_000000000000000000000"

-- the random key and nonces of one call
pub record Fresh : Type 0 where
  pub dek : Bytes
  pub nonce_dek : Bytes
  pub nonce_kek : Bytes

abbrev pub drop : ℕ → Bytes → Bytes
drop zero bs = bs
drop (suc n) [] = []
drop (suc n) (b ∷ bs) = drop n bs

module _ {P : Type 0} (a : Aead) (c : PayloadCodec P) where
  unfoldable pub encrypt_envelope : Fresh → P → Bytes → Bytes × Bytes
  encrypt_envelope fresh payload kek = (
    fresh.nonce_dek ++ a.encrypt fresh.dek fresh.nonce_dek (c.dumps payload),
    fresh.nonce_kek ++ a.encrypt kek fresh.nonce_kek fresh.dek,
  )

  abbrev unwrap : Bytes → Option Bytes → Option P
  unwrap encrypted_payload none = none
  unwrap encrypted_payload (some dek) =
      elim (a.decrypt dek (take 12 encrypted_payload) (drop 12 encrypted_payload)) [
        | none ↦ none
        | some payload_bytes ↦ c.loads payload_bytes
      ]

  -- `none` where it raises
  unfoldable pub decrypt_envelope : Bytes → Bytes → Bytes → Option P
  decrypt_envelope encrypted_payload wrapped_dek kek =
      unwrap encrypted_payload (a.decrypt kek (take 12 wrapped_dek) (drop 12 wrapped_dek))

take-append : (n : ℕ) (xs ys : Bytes) → length xs ≡ n → take n (xs ++ ys) ≡ xs
take-append zero [] ys h = refl
take-append zero (x ∷ xs) ys h = absurd (omega arith)
take-append (suc n) [] ys h = absurd (omega arith)
take-append (suc n) (x ∷ xs) ys h = ap (◌∷◌ x) (take-append n xs ys (omega arith))

drop-append : (n : ℕ) (xs ys : Bytes) → length xs ≡ n → drop n (xs ++ ys) ≡ ys
drop-append zero [] ys h = refl
drop-append zero (x ∷ xs) ys h = absurd (omega arith)
drop-append (suc n) [] ys h = absurd (omega arith)
drop-append (suc n) (x ∷ xs) ys h = drop-append n xs ys (omega arith)

module _ {P : Type 0} (a : Aead) (c : PayloadCodec P) (al : AeadLaws a) (pl : PayloadLaws c) where
  -- With nonces of twelve bytes, what is encrypted under a key is decrypted under it again.
  pub decrypt-encrypt_envelope :
      (fresh : Fresh) (payload : P) (kek : Bytes)
      → length fresh.nonce_dek ≡ 12
      → length fresh.nonce_kek ≡ 12
      → let (encrypted, wrapped) = encrypt_envelope a c fresh payload kek in
        decrypt_envelope a c encrypted wrapped kek ≡ some payload
  unfolding encrypt_envelope decrypt_envelope
  decrypt-encrypt_envelope fresh payload kek h k =
      rw (take-append 12 fresh.nonce_kek (a.encrypt kek fresh.nonce_kek fresh.dek) k) (
        rw (drop-append 12 fresh.nonce_kek (a.encrypt kek fresh.nonce_kek fresh.dek) k) (
          rw (al.decrypt-encrypt kek fresh.nonce_kek fresh.dek) (
            rw
              (
                take-append 12 fresh.nonce_dek
                    (a.encrypt fresh.dek fresh.nonce_dek (c.dumps payload)) h,
                unwrap,
              )
              (rw
                (drop-append 12 fresh.nonce_dek
                  (a.encrypt fresh.dek fresh.nonce_dek (c.dumps payload)) h)
                (rw (al.decrypt-encrypt fresh.dek fresh.nonce_dek (c.dumps payload))
                  (pl.loads-dumps payload))))))
