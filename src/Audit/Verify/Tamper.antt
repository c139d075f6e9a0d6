-- ===== src/Audit/Verify/Tamper.antt =====
-- No log but one has a given last hash, unless two messages with one SHA-256 digest are at hand.
use distributed_ai_networkin.Prelude.{
  suc, String, ◌≡◌, refl, sym, ap, ◌∙◌, ◌≢◌, ◌⊎◌, inl, inr, true, Option, none, some, List, [], ◌∷◌,
  ◌++◌, arith, Bool-cases, Option-cases, length,
}
use distributed_ai_networkin.Audit.Ledger.{lines_of, domain}
use distributed_ai_networkin.Audit.Verify.{
  start, verify_ledger, Line, check_reading, check_line, same_bytes_iff, invalid_hex, Progress,
  same_bytes, invalid_json, check_lines, event, Reading,
}
use mathlib.Core.Path.{ap₂}
use distributed_ai_networkin.Interfaces.{Bytes}

-- the digest of the chain after events with these canonical bytes
unfoldable pub hash_chain : (Bytes → Bytes) → Bytes → List Bytes → Bytes
hash_chain sha256 prev [] = prev
hash_chain sha256 prev (c ∷ cs) = hash_chain sha256 (sha256 (domain ++ (prev ++ c))) cs

abbrev canonical_of : Reading → List Bytes → List Bytes
canonical_of invalid_json cs = cs
canonical_of invalid_hex cs = cs
canonical_of (event e) cs = e.canonical ∷ cs

-- the canonical bytes of the events of a file
unfoldable pub canonicals : (String → Reading) → List String → List Bytes
canonicals read [] = []
canonicals read (line ∷ rest) = canonical_of (read line) (canonicals read rest)

-- Two different messages with one digest.
abbrev pub Collision : (Bytes → Bytes) → Type 0
Collision sha256 = (m : Bytes) × (m' : Bytes) × (m ≢ m') × (sha256 m ≡ sha256 m')

append_cancel : (p p' c c' : Bytes) → length p ≡ length p' → p ++ c ≡ p' ++ c' → (p ≡ p') × (c ≡ c')
append_cancel [] [] c c' same e = (refl, e)
append_cancel [] (b ∷ p') c c' same e = absurd (omega (arith, same))
append_cancel (a ∷ p) [] c c' same e = absurd (omega (arith, same))
append_cancel (a ∷ p) (b ∷ p') c c' same e =
    ground (arith, e, append_cancel p p' c c' (omega (arith, same)))

module _ (sha256 : Bytes → Bytes) (digest_size : (m : Bytes) → length (sha256 m) ≡ 32) where
  hash_chain_inj :
      (cs cs' : List Bytes) (p p' : Bytes)
      → length cs ≡ length cs'
      → length p ≡ length p'
      → hash_chain sha256 p cs ≡ hash_chain sha256 p' cs'
      → ((p ≡ p') × (cs ≡ cs')) ⊎ Collision sha256
  unfolding hash_chain
  hash_chain_inj [] [] p p' n l e = inl (e, refl)
  hash_chain_inj [] (c ∷ cs') p p' n l e = absurd (omega (arith, n))
  hash_chain_inj (c ∷ cs) [] p p' n l e = absurd (omega (arith, n))
  hash_chain_inj (c ∷ cs) (c' ∷ cs') p p' n l e =
      let m = domain ++ (p ++ c) in
      let m' = domain ++ (p' ++ c') in
      elim (hash_chain_inj cs cs' (sha256 m) (sha256 m') (omega (arith, n))
        (digest_size m ∙ sym (digest_size m')) e) [
          | inr found ↦ inr found
          | inl (heads, tails) ↦ elim (Bool-cases (same_bytes m m')) [
            | inr differ ↦
                inr (m, m', (λ same. ground (arith, differ, (same_bytes_iff m m').1 same)), heads)
            | inl same ↦
                let (d, rest) =
                  append_cancel domain domain (p ++ c) (p' ++ c') refl
                    ((same_bytes_iff m m').0 same) in
                let (first, second) = append_cancel p p' c c' l rest in
                inl (first, ap₂ ◌∷◌ second tails)
          ]
        ]

module _ (sha256 : Bytes → Bytes) (read : String → Reading) where
  clean-event :
      (r : Reading) (p q : Progress)
      → check_reading sha256 read p r ≡ some q
      → q.errors ≡ 0
      → (p.errors ≡ 0)
        × ((e : Line) × ((r ≡ event e)
              × (q.expected_prev_hash ≡ sha256 (domain ++ (p.expected_prev_hash ++ e.canonical)))))
  clean-event invalid_json p q h none_wrong = ground (arith, h, none_wrong)
  clean-event invalid_hex p q h none_wrong = ground (arith, h)
  clean-event (event e) p q h none_wrong =
      let calculated = sha256 (domain ++ (e.previous_event_hash ++ e.canonical)) in
      let linked : e.previous_event_hash ≡ p.expected_prev_hash =
        ground (arith, h, none_wrong, same_bytes_iff e.previous_event_hash p.expected_prev_hash) in
      let own : q.expected_prev_hash ≡ calculated =
        ground (arith, h, none_wrong, same_bytes_iff e.event_hash calculated) in
      (ground (arith, h, none_wrong), (e, (refl, rw (← linked) own)))

  -- A run of the tool without an error has followed the chain.
  clean-hash_chain :
      (lines : List String) (p q : Progress)
      → check_lines sha256 read p lines ≡ some q
      → q.errors ≡ 0
      → (p.errors ≡ 0)
        × (q.expected_prev_hash ≡ hash_chain sha256 p.expected_prev_hash (canonicals read lines))
        × (length (canonicals read lines) ≡ length lines)
  unfolding check_lines hash_chain canonicals check_line
  clean-hash_chain [] p q h none_wrong = ground (arith, h, none_wrong)
  clean-hash_chain (line ∷ rest) p q h none_wrong =
      elim (Option-cases (check_line sha256 read p line)) [
        | inl e ↦ ground (arith, e, h)
        | inr (p', e) ↦
            let (clean', chain, size) =
              clean-hash_chain rest p' q (ground (arith, e, h)) none_wrong in
            let (clean, (ev, (is_event, hash))) = clean-event (read line) p p' e clean' in
            let along = ap (λ h. hash_chain sha256 h (canonicals read rest)) hash in
            rw is_event (clean, chain ∙ along, ap suc size)
      ]

abbrev final_hash_of : Option Progress → Bytes
final_hash_of none = []
final_hash_of (some p) = p.expected_prev_hash

-- the hash of the chain that the tool has reached at the end of a file
unfoldable pub final_hash : (Bytes → Bytes) → (String → Reading) → List String → Bytes
final_hash sha256 read lines = final_hash_of (check_lines sha256 read start (lines_of (some lines)))

module _ (sha256 : Bytes → Bytes) (read : String → Reading) where
  accepted-hash_chain :
      (lines : List String)
      → verify_ledger sha256 read (some lines) ≡ some true
      → (final_hash sha256 read lines
          ≡ hash_chain sha256 [] (canonicals read (lines_of (some lines))))
        × (length (canonicals read (lines_of (some lines))) ≡ length (lines_of (some lines)))
  unfolding verify_ledger final_hash
  accepted-hash_chain lines h =
      elim (Option-cases (check_lines sha256 read start (lines_of (some lines)))) [
        | inl e ↦ ground (arith, e, h)
        | inr (q, e) ↦
            let clean =
              clean-hash_chain sha256 read (lines_of (some lines)) start q e
                (ground (arith, e, h)) in
            rw e (clean.1, clean.2)
      ]

  -- Two logs that the audit tool accepts, of the same number of lines and with the same last hash, have the same canonical events in the same order, or two different messages with the same SHA-256 digest are found; the digest is taken to have 32 bytes.
  pub verify_ledger-tamper :
      (digest_size : (m : Bytes) → length (sha256 m) ≡ 32) (xs ys : List String)
      → verify_ledger sha256 read (some xs) ≡ some true
      → verify_ledger sha256 read (some ys) ≡ some true
      → length (lines_of (some xs)) ≡ length (lines_of (some ys))
      → final_hash sha256 read xs ≡ final_hash sha256 read ys
      → (canonicals read (lines_of (some xs)) ≡ canonicals read (lines_of (some ys)))
        ⊎ Collision sha256
  verify_ledger-tamper digest_size xs ys hx hy n e =
      let (cx, nx) = accepted-hash_chain xs hx in
      let (cy, ny) = accepted-hash_chain ys hy in
      elim (hash_chain_inj sha256 digest_size _ _ [] [] (nx ∙ n ∙ sym ny) refl (sym cx ∙ e ∙ cy)) [
        | inl (_, same) ↦ inl same
        | inr found ↦ inr found
      ]
