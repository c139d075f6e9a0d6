-- ===== src/Tests/Log.antt =====
-- The audit log at concrete inputs. A line is the two hashes of its event.
use distributed_ai_networkin.Prelude.{
  ℕ, zero, suc, String, ◌≡◌, refl, ap, ◌≢◌, ◌⊎◌, true, false, Option, none, some, List, [], ◌∷◌,
  ◌++◌, arith, eq_iff, eqb, if◌then◌else◌, length,
}
use distributed_ai_networkin.Audit.Verify.Tamper.{
  verify_ledger-tamper, Collision, canonicals, final_hash,
}
use distributed_ai_networkin.Audit.Ledger.{
  lines_of, domain, TamperEvidentLedger, init, append, LedgerLibraries,
}
use distributed_ai_networkin.Audit.Verify.{
  same_bytes, check_line, check_lines, verify_ledger, Reading,
}
use distributed_ai_networkin.Audit.Verify.Written.{
  verify_ledger-append_all, append_all, EventLaws, read,
}
use distributed_ai_networkin.Audit.Aggregator.{audit_record}
use distributed_ai_networkin.Interfaces.{Bytes}
use distributed_ai_networkin.Audit.Ledger.Chain.{init-append, LedgerLaws}
use distributed_ai_networkin.State
use distributed_ai_networkin.Contracts.Json
use distributed_ai_networkin.Contracts.Json.{
  Json, Fields, field, end, text, null, bool, num, int, arr, obj, finite_json,
}
use Prim.Native.Char.{Char, code}
use distributed_ai_networkin.Tests.Execution.{decision, completed_result}
use distributed_ai_networkin.SupplyChain.Digest.{codes}
use distributed_ai_networkin.Contracts.Models.{AuditEvent}
use distributed_ai_networkin.Tests.Instances.{micros, signing, hexes, hexes_laws}

-- a text with each character marked, and an end, before another text
abbrev quote : String → String → String
quote String.[] rest = String.◌∷◌ "b" rest
quote (String.◌∷◌ c s) rest = String.◌∷◌ "a" (String.◌∷◌ c (quote s rest))

abbrev put_back : Char → Option (String × String) → Option (String × String)
put_back c none = none
put_back c (some (s, rest)) = some (String.◌∷◌ c s, rest)

abbrev unquote : String → Option (String × String)
unquote String.[] = none
unquote (String.◌∷◌ m String.[]) = some ("", "")
unquote (String.◌∷◌ m (String.◌∷◌ c s)) =
    let more = unquote s in if eqb (code m) 97 then put_back c more else some ("", String.◌∷◌ c s)

unquote-quote : (s rest : String) → unquote (quote s rest) ≡ some (s, rest)
unquote-quote String.[] String.[] = refl
unquote-quote String.[] (String.◌∷◌ c rest) = refl
unquote-quote (String.◌∷◌ c s) rest = rw (unquote-quote s rest) refl

abbrev dump : AuditEvent ℕ → String
dump e = quote e.previous_event_hash e.event_hash

abbrev second : Option (String × String) → Option String
second none = none
second (some (a, b)) = some b

-- a dictionary with the two hashes
abbrev model_dump : AuditEvent ℕ → Fields ℕ
model_dump e =
    field "previous_event_hash" (text e.previous_event_hash)
      (field "event_hash" (text e.event_hash) end)

abbrev text_codes : Option (Json ℕ) → Bytes
text_codes none = []
text_codes (some (text s)) = codes s
text_codes (some null) = []
text_codes (some (bool b)) = []
text_codes (some (num x)) = []
text_codes (some (int n)) = []
text_codes (some (arr xs)) = []
text_codes (some (obj fs)) = []

abbrev pub ledger_libraries : LedgerLibraries ℕ ℕ
ledger_libraries = record {
  sha256 = λ b. length b ∷ [];
  signing = signing;
  hexes = hexes;
  model_dump = model_dump;
  dumps = λ sort_keys separators fields. text_codes (Json.get fields "previous_event_hash");
  dump = dump;
  hash_of = λ line. second (unquote line);
  parse = λ line. none;
  checkpoint_json = λ root signature n. root;
  checkpoint_key = λ leaf. "checkpoint";
}

quote-ne-empty : (p h : String) → quote p h ≢ ""
quote-ne-empty String.[] h = λ e. cc
quote-ne-empty (String.◌∷◌ c p) h = λ e. cc

ledger_laws : LedgerLaws ledger_libraries
ledger_laws = record {
  hash_of-dump = λ e. rw (unquote-quote e.previous_event_hash e.event_hash) refl;
  dump-ne-empty =
      λ e. ground (arith, eq_iff (dump e) "", quote-ne-empty e.previous_event_hash e.event_hash);
}

abbrev event : AuditEvent ℕ
event = audit_record "e1" 1000000 decision completed_result false 1 none "t1"

abbrev pub ledger : TamperEvidentLedger ℕ
ledger = record {
  file = some [];
  checkpoint_interval = 2;
  signing_key = 1;
  last_hash = [];
  events_since_checkpoint = 0;
  current_merkle_leaves = [];
}

init-append_example :
    (init ledger_libraries
      (append ledger_libraries event ledger State.empty).0.file
      5
      3
      State.empty).0.last_hash
    ≡ (append ledger_libraries event ledger State.empty).0.last_hash
init-append_example =
    init-append ledger_libraries ledger_laws hexes_laws event ledger State.empty State.empty 5 3

abbrev hashes_json : Option (String × String) → Option (Json ℕ)
hashes_json none = none
hashes_json (some (p, h)) =
    some (obj (field "previous_event_hash" (text p) (field "event_hash" (text h) end)))

abbrev loads : String → Option (Json ℕ)
loads line = hashes_json (unquote line)

event_laws : EventLaws ledger_libraries loads
unfolding Json.put
event_laws = record {
  model_dump-previous_event_hash = λ e s. refl;
  model_dump-event_hash = λ e s. refl;
  loads-dump = λ e finite. rw (unquote-quote e.previous_event_hash e.event_hash) refl;
}

abbrev events : List (AuditEvent ℕ)
events = event ∷ event ∷ event ∷ []

verify_ledger-append_all_example :
    verify_ledger ledger_libraries.sha256
      (read ledger_libraries loads)
      (append_all ledger_libraries loads events
        (init ledger_libraries (some []) 2 1 State.empty)).0.file
    ≡ some true
unfolding finite_json
verify_ledger-append_all_example =
    verify_ledger-append_all ledger_libraries loads ledger_laws hexes_laws event_laws events 2 1
      State.empty (refl, (refl, (refl, tt)))

abbrev pad : ℕ → Bytes → Bytes
pad zero m = []
pad (suc n) [] = 0 ∷ pad n []
pad (suc n) (b ∷ m) = b ∷ pad n m

length-pad : (n : ℕ) (m : Bytes) → length (pad n m) ≡ n
length-pad zero m = refl
length-pad (suc n) [] = ap suc (length-pad n [])
length-pad (suc n) (b ∷ m) = ap suc (length-pad n m)

-- the first 32 bytes, as a digest
abbrev prefix : Bytes → Bytes
prefix m = pad 32 m

abbrev first_event : String → Reading
first_event line = Reading.event (record {
  previous_event_hash = [];
  event_hash = prefix (domain ++ codes line);
  canonical = codes line;
})

verify_ledger-tamper_example :
    (canonicals first_event (lines_of (some ("{}" ∷ [])))
      ≡ canonicals first_event (lines_of (some ("{}" ∷ "" ∷ []))))
    ⊎ Collision prefix
unfolding verify_ledger check_lines check_line final_hash same_bytes lines_of codes
verify_ledger-tamper_example =
    verify_ledger-tamper prefix first_event (length-pad 32) ("{}" ∷ []) ("{}" ∷ "" ∷ []) refl refl
      refl refl
