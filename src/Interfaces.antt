-- ===== src/Interfaces.antt =====
-- What the program calls and does not implement: the serialisation of pydantic and of `json`, Ed25519
-- of `cryptography`, SHA-256 of `hashlib`. Each is a record of operations, which the model takes as an
-- argument, and a record of the documented laws, which a theorem takes where it needs them.
use distributed_ai_networkin.Prelude.{ℕ, String, ◌≡◌, Bool, true, false, Option, some, List, ◌==◌}

-- Byte strings.
abbrev pub Bytes : Type 0
Bytes = List ℕ

-- model_dump_json and model_validate_json of one model; `none` is a ValidationError.
pub record Codec (A : Type 0) : Type 0 where
  pub encode : A → String
  pub decode : String → Option A

-- What is dumped is read back, and no dump is the empty text.
pub record CodecLaws {A : Type 0} (c : Codec A) : Type 0 where
  pub decode-encode : (a : A) → c.decode (c.encode a) ≡ some a
  pub encode-ne-empty : (a : A) → (c.encode a == "") ≡ false

-- Ed25519 with private keys in `K`. A public key is the PEM text that `public_bytes` gives. `verify`
-- is `load_pem_public_key(pem).verify(signature, message)`, false where it raises.
pub record Signing (K : Type 0) : Type 0 where
  pub public_pem : K → String
  pub sign : K → Bytes → Bytes
  pub verify : String → Bytes → Bytes → Bool

pub record SigningLaws {K : Type 0} (s : Signing K) : Type 0 where
  pub verify-sign : (k : K) (m : Bytes) → s.verify (s.public_pem k) (s.sign k m) m ≡ true
  pub public_pem-ne-empty : (k : K) → (s.public_pem k == "") ≡ false

-- bytes.hex and bytes.fromhex; `none` is a ValueError.
pub record Hex : Type 0 where
  pub hex : Bytes → String
  pub fromhex : String → Option Bytes

pub record HexLaws (h : Hex) : Type 0 where
  pub fromhex-hex : (b : Bytes) → h.fromhex (h.hex b) ≡ some b
