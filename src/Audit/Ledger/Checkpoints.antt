-- ===== src/Audit/Ledger/Checkpoints.antt =====
-- When a ledger makes a checkpoint.
use distributed_ai_networkin.Audit.Ledger.{
  next_hash, write_event, create_checkpoint, TamperEvidentLedger, append, LedgerLibraries,
}
use distributed_ai_networkin.Contracts.Models.{AuditEvent}
use distributed_ai_networkin.State.{Etcd}
use distributed_ai_networkin.Prelude.{◌≤◌, ◌<◌, ◌≡◌, [], ◌∷◌, arith, length, length-append}

module _ {F K : Type 0} (lib : LedgerLibraries F K) where
  -- The hashes since the last checkpoint are as many as the ledger counts, and fewer than a
  -- checkpoint takes.
  abbrev pub IsCounted : TamperEvidentLedger K → Type 0
  IsCounted l =
      (l.events_since_checkpoint ≡ length l.current_merkle_leaves)
      × (l.events_since_checkpoint < l.checkpoint_interval)

  create_checkpoint-resets :
      (l : TamperEvidentLedger K) (etcd : Etcd F)
      → 1 ≤ length l.current_merkle_leaves
      → ((create_checkpoint lib l etcd).0.events_since_checkpoint ≡ 0)
        × (((create_checkpoint lib l etcd).0.current_merkle_leaves ≡ [])
            × ((create_checkpoint lib l etcd).0.checkpoint_interval ≡ l.checkpoint_interval))
  unfolding create_checkpoint
  create_checkpoint-resets l etcd h = ground (arith, h)

  -- Every append keeps the count, and leaves fewer hashes than a checkpoint takes.
  pub append-IsCounted :
      (event : AuditEvent F) (l : TamperEvidentLedger K) (etcd : Etcd F)
      → IsCounted l
      → IsCounted (append lib event l etcd).0
  unfolding append write_event
  append-IsCounted event l etcd (count, below) = ground (
    arith,
    count,
    below,
    length-append l.current_merkle_leaves (next_hash lib event l.last_hash ∷ []),
    create_checkpoint-resets (write_event lib event l) etcd,
  )
