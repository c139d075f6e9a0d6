-- ===== src/Audit/Ledger.antt =====
-- results_aggregator/ledger.py: `TamperEvidentLedger`. Each method holds the lock for its whole body.
-- A file is the list of its lines, which hold no line break and are stripped when they are read.
pub mod Chain
pub mod Checkpoints
use distributed_ai_networkin.Prelude.{
  ℕ, ◌+◌, String, Bool, true, Option, none, some, List, [], ◌∷◌, ◌++◌, ◌==◌, leb, if◌then◌else◌,
  or_default, length,
}
use distributed_ai_networkin.Interfaces.{Hex, Signing, Bytes}
use distributed_ai_networkin.SupplyChain.Digest.{codes}
use distributed_ai_networkin.State.{Etcd}
use distributed_ai_networkin.Contracts.Models.{AuditEvent}
use distributed_ai_networkin.State
use distributed_ai_networkin.Contracts.Json
use distributed_ai_networkin.Contracts.Json.{Fields}

-- What the module calls. `model_dump` is the dictionary of an event in JSON mode, `dumps`
-- the encoded text of a dictionary with these `sort_keys` and `separators`, `dump` the line of an event and `hash_of` the event hash that `json.loads` finds in a line, which is what
-- `_recover_state` reads: `none` where it raises.
pub record LedgerLibraries (F K : Type 0) : Type 0 where
  pub sha256 : Bytes → Bytes
  pub signing : Signing K
  pub hexes : Hex
  pub model_dump : AuditEvent F → Fields F
  pub dumps : Bool → String × String → Fields F → Bytes
  pub dump : AuditEvent F → String
  pub hash_of : String → Option String
  pub parse : String → Option (AuditEvent F)
  -- the JSON of a checkpoint, from its root, signature and event count
  pub checkpoint_json : String → String → ℕ → String
  -- the key of a checkpoint, from the first four bytes of its last leaf
  pub checkpoint_key : Bytes → String

pub record TamperEvidentLedger (K : Type 0) : Type 0 where
  -- nothing, if there is no file
  pub file : Option (List String)
  pub checkpoint_interval : ℕ
  pub signing_key : K
  pub last_hash : Bytes
  pub events_since_checkpoint : ℕ
  pub current_merkle_leaves : List Bytes

-- b"DISTRIBUTED_AI_AUDIT_V1"
abbrev pub domain : Bytes
domain = codes "DISTRIBUTED_AI_AUDIT_V1"

-- the lines that are left when blank ones are skipped
unfoldable pub lines_of : Option (List String) → List String
lines_of none = []
lines_of (some []) = []
lines_of (some (line ∷ rest)) =
    let more = lines_of (some rest) in if line == "" then more else line ∷ more

unfoldable pub last_line : List String → Option String
last_line [] = none
last_line (line ∷ rest) = elim (last_line rest) [ none ↦ some line | some l ↦ some l ]

unfoldable pub concat : List Bytes → Bytes
concat [] = []
concat (b ∷ bs) = b ++ concat bs

-- `leaves[-1]`
abbrev pub last_leaf : Bytes → List Bytes → Bytes
last_leaf leaf [] = leaf
last_leaf leaf (l ∷ leaves) = last_leaf l leaves

-- `task_id is None or event.task_id == task_id`
abbrev pub wanted : {F : Type 0} → Option String → AuditEvent F → Bool
wanted none event = true
wanted (some t) event = event.task_id == t

module _ {F K : Type 0} (lib : LedgerLibraries F K) where
  -- the canonical JSON of an event, without its own hash
  unfoldable pub canonical : AuditEvent F → Bytes
  canonical event = lib.dumps true (",", ":") (Json.pop (lib.model_dump event) "event_hash")

  unfoldable pub hash_event : AuditEvent F → Bytes → Bytes
  hash_event event prev_hash = lib.sha256 (domain ++ (prev_hash ++ canonical event))

  -- the hash of the last line, or what was there if the line has none
  unfoldable pub recovered_hash : List String → Bytes → Bytes
  recovered_hash lines old = elim (last_line lines) [
    | none ↦ old
    | some line ↦ elim (lib.hash_of line) [
      | none ↦ old
      | some h ↦ or_default old (lib.hexes.fromhex h)
    ]
  ]

  -- `__init__`: the public key is published and the state recovered from the file, which is made if
  -- it is not there
  unfoldable pub init : Option (List String) → ℕ → K → Etcd F → TamperEvidentLedger K × Etcd F
  init file interval key etcd = (
    record {
      file = some (or_default [] file);
      checkpoint_interval = interval;
      signing_key = key;
      last_hash = recovered_hash (lines_of file) [];
      events_since_checkpoint = 0;
      current_merkle_leaves = [];
    },
    State.put "/distributed-ai/audit/identity" (lib.signing.public_pem key) etcd,
  )

  unfoldable pub create_checkpoint : TamperEvidentLedger K → Etcd F → TamperEvidentLedger K × Etcd F
  create_checkpoint l etcd = elim l.current_merkle_leaves [
    | [] ↦ (l, etcd)
    | leaf ∷ leaves ↦
        let root = lib.sha256 (concat (leaf ∷ leaves)) in
        (
          record l { events_since_checkpoint = 0; current_merkle_leaves = [] },
          State.put (lib.checkpoint_key (last_leaf leaf leaves))
              (lib.checkpoint_json (lib.hexes.hex root)
                (lib.hexes.hex (lib.signing.sign l.signing_key root)) (length (leaf ∷ leaves)))
              etcd,
        )
  ]

  -- the event with its links, as it is written
  unfoldable pub linked : AuditEvent F → Bytes → AuditEvent F
  linked event prev =
      let e = record event { previous_event_hash = lib.hexes.hex prev } in
      record e { event_hash = lib.hexes.hex (hash_event e prev) }

  -- the hash of an event that is appended after `prev`
  unfoldable pub next_hash : AuditEvent F → Bytes → Bytes
  next_hash event prev = hash_event (record event { previous_event_hash = lib.hexes.hex prev }) prev

  -- `append`, up to the test of the interval
  unfoldable pub write_event : AuditEvent F → TamperEvidentLedger K → TamperEvidentLedger K
  write_event event l = record l {
    last_hash = next_hash event l.last_hash;
    current_merkle_leaves = l.current_merkle_leaves ++ next_hash event l.last_hash ∷ [];
    file = some (or_default [] l.file ++ lib.dump (linked event l.last_hash) ∷ []);
    events_since_checkpoint = l.events_since_checkpoint + 1;
  }

  unfoldable pub append :
      AuditEvent F → TamperEvidentLedger K → Etcd F → TamperEvidentLedger K × Etcd F
  append event l etcd =
      let l' = write_event event l in
      if leb l.checkpoint_interval l'.events_since_checkpoint
      then create_checkpoint l' etcd
      else (l', etcd)

  -- the loop of `get_all`; `none` where a line does not parse
  unfoldable pub parse_lines : Option String → List String → Option (List (AuditEvent F))
  parse_lines task_id [] = some []
  parse_lines task_id (line ∷ rest) = elim (lib.parse line) [
    | none ↦ none
    | some event ↦ elim (parse_lines task_id rest) [
      | none ↦ none
      | some events ↦ some (if wanted task_id event then event ∷ events else events)
    ]
  ]

  unfoldable pub get_all : Option String → TamperEvidentLedger K → Option (List (AuditEvent F))
  get_all task_id l = parse_lines task_id (lines_of l.file)

  unfoldable pub clear : TamperEvidentLedger K → TamperEvidentLedger K
  clear l = record l {
    file = none;
    last_hash = [];
    events_since_checkpoint = 0;
    current_merkle_leaves = [];
  }
