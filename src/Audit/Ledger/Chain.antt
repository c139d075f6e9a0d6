-- ===== src/Audit/Ledger/Chain.antt =====
-- What a ledger that is opened again finds: the chain goes on where it stopped.
use distributed_ai_networkin.Prelude.{
  ℕ, String, ◌≡◌, refl, false, Option, none, some, List, [], ◌∷◌, ◌++◌, arith, ◌==◌, or_default,
}
use distributed_ai_networkin.State.{Etcd}
use distributed_ai_networkin.Interfaces.{Bytes, HexLaws}
use distributed_ai_networkin.Audit.Ledger.{
  next_hash, TamperEvidentLedger, create_checkpoint, write_event, linked, append, recovered_hash,
  init, last_line, lines_of, LedgerLibraries,
}
use distributed_ai_networkin.Contracts.Models.{AuditEvent}

-- The documented behaviour of the serialisation: a line is not blank and holds the event's hash.
pub record LedgerLaws {F K : Type 0} (lib : LedgerLibraries F K) : Type 0 where
  pub hash_of-dump : (e : AuditEvent F) → lib.hash_of (lib.dump e) ≡ some e.event_hash
  pub dump-ne-empty : (e : AuditEvent F) → (lib.dump e == "") ≡ false

pub lines_of-snoc :
    (lines : List String) (line : String)
    → (line == "") ≡ false
    → lines_of (some (lines ++ line ∷ [])) ≡ lines_of (some lines) ++ line ∷ []
unfolding lines_of
lines_of-snoc [] line h = ground (arith, h)
lines_of-snoc (l ∷ lines) line h = ground (arith, lines_of-snoc lines line h)

pub lines-snoc :
    (file : Option (List String)) (line : String)
    → (line == "") ≡ false
    → lines_of (some (or_default [] file ++ line ∷ [])) ≡ lines_of file ++ line ∷ []
unfolding lines_of
lines-snoc none line h = ground (arith, h)
lines-snoc (some lines) line h = lines_of-snoc lines line h

last_line-snoc : (lines : List String) (line : String) → last_line (lines ++ line ∷ []) ≡ some line
unfolding last_line
last_line-snoc [] line = refl
last_line-snoc (l ∷ lines) line = rw (last_line-snoc lines line) refl

module _ {F K : Type 0} (lib : LedgerLibraries F K) where
  -- A checkpoint leaves the file and the chain as they are.
  create_checkpoint-keeps :
      (l : TamperEvidentLedger K) (etcd : Etcd F)
      → ((create_checkpoint lib l etcd).0.file ≡ l.file)
        × ((create_checkpoint lib l etcd).0.last_hash ≡ l.last_hash)
  unfolding create_checkpoint
  create_checkpoint-keeps l etcd = ground arith

  pub append-keeps :
      (event : AuditEvent F) (l : TamperEvidentLedger K) (etcd : Etcd F)
      → ((append lib event l etcd).0.file ≡ (write_event lib event l).file)
        × ((append lib event l etcd).0.last_hash ≡ (write_event lib event l).last_hash)
  unfolding append
  append-keeps event l etcd = ground (arith, create_checkpoint-keeps (write_event lib event l) etcd)

module _ {F K : Type 0} (lib : LedgerLibraries F K) (ll : LedgerLaws lib)
    (hl : HexLaws lib.hexes) where
  recovered_hash-snoc :
      (lines : List String) (e : AuditEvent F) (h old : Bytes)
      → e.event_hash ≡ lib.hexes.hex h
      → recovered_hash lib (lines ++ lib.dump e ∷ []) old ≡ h
  unfolding recovered_hash
  recovered_hash-snoc lines e h old same =
      ground (arith, last_line-snoc lines (lib.dump e), ll.hash_of-dump e, same, hl.fromhex-hex h)

  event_hash-linked :
      (event : AuditEvent F) (prev : Bytes)
      → (linked lib event prev).event_hash ≡ lib.hexes.hex (next_hash lib event prev)
  unfolding linked next_hash
  event_hash-linked event prev = refl

  recovered-write_event :
      (event : AuditEvent F) (l : TamperEvidentLedger K) (old : Bytes)
      → recovered_hash lib (lines_of (write_event lib event l).file) old
        ≡ (write_event lib event l).last_hash
  unfolding write_event
  recovered-write_event event l old =
      rw
        (lines_of-snoc (or_default [] l.file) (lib.dump (linked lib event l.last_hash))
          (ll.dump-ne-empty (linked lib event l.last_hash)))
        (recovered_hash-snoc (lines_of (some (or_default [] l.file))) (linked lib event l.last_hash)
          (next_hash lib event l.last_hash) old (event_hash-linked event l.last_hash))

  -- A ledger that is opened on the file of another one, after any append to that one, with or
  -- without a checkpoint, goes on from that one's last hash, whatever key and interval it is given.
  pub init-append :
      (event : AuditEvent F) (l : TamperEvidentLedger K) (etcd etcd' : Etcd F) (interval : ℕ)
      (key : K)
      → (init lib (append lib event l etcd).0.file interval key etcd').0.last_hash
        ≡ (append lib event l etcd).0.last_hash
  unfolding init
  init-append event l etcd etcd' interval key =
      let (same_file, same_hash) = append-keeps lib event l etcd in
      rw same_file (rw same_hash (recovered-write_event event l []))
