-- ===== src/Audit/Verify.antt =====
-- tools/verify_audit.py: `verify_ledger`.
pub mod Written
pub mod Tamper
use distributed_ai_networkin.Prelude.{
  ℕ, ◌+◌, String, ◌≡◌, refl, ◌↔◌, Bool, true, false, ◌&&◌, Option, none, some, List, [], ◌∷◌, ◌++◌,
  arith, eqb, if◌then◌else◌,
}
use distributed_ai_networkin.Audit.Ledger.{domain, lines_of}
use distributed_ai_networkin.Interfaces.{Bytes, Hex}
use distributed_ai_networkin.Contracts.Json
use distributed_ai_networkin.Contracts.Json.{Json, Fields, text, null, bool, num, int, arr, obj}

-- What the tool reads of a line: the stated hashes, and the canonical bytes without the event's own.
pub record Line : Type 0 where
  pub previous_event_hash : Bytes
  pub event_hash : Bytes
  pub canonical : Bytes

-- How reading a line ends: `json.loads` raises, which is handled, what follows it raises, which is not,
-- or there is an event. What follows raises where the line is no object, or one of its hashes no text
-- or no hexadecimal one.
pub data Reading : Type 0 where
  invalid_json : Reading
  invalid_hex : Reading
  event : Line → Reading

-- What the tool calls: `json.loads`, the encoded `json.dumps` with these `sort_keys` and `separators`,
-- and `bytes.fromhex`.
pub record ToolLibraries (F : Type 0) : Type 0 where
  pub loads : String → Option (Json F)
  pub dumps : Bool → String × String → Fields F → Bytes
  pub hexes : Hex

module _ {F : Type 0} (tool : ToolLibraries F) where
  -- `bytes.fromhex(event.get(key, ""))`
  abbrev fromhex_json : Option (Json F) → Option Bytes
  fromhex_json none = tool.hexes.fromhex ""
  fromhex_json (some (text s)) = tool.hexes.fromhex s
  fromhex_json (some null) = none
  fromhex_json (some (bool b)) = none
  fromhex_json (some (num x)) = none
  fromhex_json (some (int n)) = none
  fromhex_json (some (arr xs)) = none
  fromhex_json (some (obj fs)) = none

  -- the canonical JSON of `_hash_event`, which takes the event's own hash out
  unfoldable pub canonical_dict : Fields F → Bytes
  canonical_dict fields = tool.dumps true (",", ":") (Json.pop fields "event_hash")

  abbrev with_hashes : Fields F → Option Bytes → Option Bytes → Reading
  with_hashes fields (some p) (some h) =
      event (record { previous_event_hash = p; event_hash = h; canonical = canonical_dict fields })
  with_hashes fields none h = invalid_hex
  with_hashes fields (some p) none = invalid_hex

  abbrev read_json : Option (Json F) → Reading
  read_json none = invalid_json
  read_json (some (obj fields)) =
      with_hashes fields (fromhex_json (Json.get fields "previous_event_hash"))
        (fromhex_json (Json.get fields "event_hash"))
  read_json (some null) = invalid_hex
  read_json (some (bool b)) = invalid_hex
  read_json (some (num x)) = invalid_hex
  read_json (some (int n)) = invalid_hex
  read_json (some (text s)) = invalid_hex
  read_json (some (arr xs)) = invalid_hex

  unfoldable pub read_line : String → Reading
  read_line line = read_json (tool.loads line)

-- ==, on byte strings
unfoldable pub same_bytes : Bytes → Bytes → Bool
same_bytes [] [] = true
same_bytes [] (b ∷ bs) = false
same_bytes (a ∷ as') [] = false
same_bytes (a ∷ as') (b ∷ bs) = eqb a b && same_bytes as' bs

sound : (a b : Bytes) → same_bytes a b ≡ true → a ≡ b
unfolding same_bytes
sound [] [] h = refl
sound [] (b ∷ bs) h = cc
sound (a ∷ as') [] h = cc
sound (a ∷ as') (b ∷ bs) h = ground (arith, sound as' bs)

pub same_bytes_refl : (a : Bytes) → same_bytes a a ≡ true
unfolding same_bytes
same_bytes_refl [] = refl
same_bytes_refl (a ∷ as') = ground (arith, same_bytes_refl as')

pub same_bytes_iff : (a b : Bytes) → (same_bytes a b ≡ true) ↔ (a ≡ b)
same_bytes_iff a b = (sound a b, λ e. rw e (same_bytes_refl b))

pub record Progress : Type 0 where
  pub expected_prev_hash : Bytes
  pub line_number : ℕ
  pub errors : ℕ

abbrev pub start : Progress
start = record { expected_prev_hash = []; line_number = 0; errors = 0 }

module _ (sha256 : Bytes → Bytes) (read : String → Reading) where
  -- the two checks of an event
  abbrev pub check_event : Progress → Line → Progress
  check_event p e =
      let link = if same_bytes e.previous_event_hash p.expected_prev_hash then 0 else 1 in
      let calculated = sha256 (domain ++ (e.previous_event_hash ++ e.canonical)) in
      let own = if same_bytes e.event_hash calculated then 0 else 1 in
      record {
        expected_prev_hash =
            if same_bytes e.event_hash calculated then e.event_hash else calculated;
        line_number = p.line_number + 1;
        errors = p.errors + link + own;
      }

  -- one line of the loop; `none` where it raises
  abbrev pub check_reading : Progress → Reading → Option Progress
  check_reading p invalid_json =
      some (record p { line_number = p.line_number + 1; errors = p.errors + 1 })
  check_reading p invalid_hex = none
  check_reading p (event e) = some (check_event p e)

  unfoldable pub check_line : Progress → String → Option Progress
  check_line p line = check_reading p (read line)

  unfoldable pub check_lines : Progress → List String → Option Progress
  check_lines p [] = some p
  check_lines p (line ∷ rest) = elim (check_line p line) [
    | none ↦ none
    | some p' ↦ check_lines p' rest
  ]

  -- false if there is no file; `none` where it raises
  unfoldable pub verify_ledger : Option (List String) → Option Bool
  verify_ledger none = some false
  verify_ledger (some lines) = elim (check_lines start (lines_of (some lines))) [
    | none ↦ none
    | some p ↦ some (eqb p.errors 0)
  ]
