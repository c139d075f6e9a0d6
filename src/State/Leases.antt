-- ===== src/State/Leases.antt =====
-- Leases: identifiers are never issued twice, and what has expired stays expired.
use distributed_ai_networkin.Prelude.Floats.{Floats, literal, ◌<ᶠ◌}
use distributed_ai_networkin.State.{
  Etcd, put, delete, revoke_lease, grant_lease, is_lease_valid, put_with_lease, compare_and_swap,
}
use distributed_ai_networkin.State.Ops.{
  Op, put_op, delete_op, grant_op, revoke_op, check_op, put_with_lease_op, swap_op, apply, run,
}
use distributed_ai_networkin.Prelude.{
  ℕ, ◌≤◌, ◌<◌, ◌≡◌, ◌≢◌, false, not, none, some, List, [], ◌∷◌, arith,
}

-- A lease that is not stored is invalid whenever it is looked at, and looking changes nothing.
abbrev pub IsDead : {F : Type 0} → ℕ → Etcd F → Type 0
IsDead id s = (s.leases id ≡ none) × (id < s.lease_id_counter)

module _ {F : Type 0} ⦃fl : Floats F⦄ where
  apply-IsDead : (id : ℕ) (op : Op F) (s : Etcd F) → IsDead id s → IsDead id (apply op s)
  unfolding apply put delete grant_lease revoke_lease is_lease_valid put_with_lease compare_and_swap
  apply-IsDead id (put_op k v) s h = h
  apply-IsDead id (delete_op k) s h = ground arith
  apply-IsDead id (grant_op now ttl) s h = ground arith
  apply-IsDead id (revoke_op j) s h = ground arith
  apply-IsDead id (check_op now j) s h = ground arith
  apply-IsDead id (put_with_lease_op now k v j) s h = ground arith
  apply-IsDead id (swap_op now k e v none) s h = ground arith
  apply-IsDead id (swap_op now k e v (some j)) s h = ground arith

  run-IsDead : (id : ℕ) (ops : List (Op F)) (s : Etcd F) → IsDead id s → IsDead id (run ops s)
  unfolding run
  run-IsDead id [] s h = h
  run-IsDead id (op ∷ ops) s h = run-IsDead id ops (apply op s) (apply-IsDead id op s h)

  dead_invalid :
      (now : F) (id : ℕ) (s : Etcd F) → s.leases id ≡ none → (is_lease_valid now id s).0 ≡ false
  unfolding is_lease_valid
  dead_invalid now id s h = ground arith

  checked-IsDead :
      (now : F) (id : ℕ) (s : Etcd F)
      → id < s.lease_id_counter
      → (is_lease_valid now id s).0 ≡ false
      → IsDead id (is_lease_valid now id s).1
  unfolding is_lease_valid
  checked-IsDead now id s fresh h = ground arith

  -- Once a check has found an issued lease invalid, every later check finds it invalid, at any time
  -- and whatever calls of the store (other than `clear`) were made by any part in between.
  pub is_lease_valid-run :
      (now later : F) (id : ℕ) (ops : List (Op F)) (s : Etcd F)
      → id < s.lease_id_counter
      → (is_lease_valid now id s).0 ≡ false
      → (is_lease_valid later id (run ops (is_lease_valid now id s).1)).0 ≡ false
  is_lease_valid-run now later id ops s fresh h =
      dead_invalid later id _ (run-IsDead id ops _ (checked-IsDead now id s fresh h)).0

  -- A lease just granted is valid exactly until its expiry time has passed, no other lease is
  -- touched by the grant, and the check changes the store only by dropping an expired lease.
  pub is_lease_valid-grant_lease :
      (now later : F) (ttl : ℕ) (s : Etcd F)
      → let (id, s') = grant_lease now ttl s in
        ((is_lease_valid later id s').0 ≡ not (fl.add now (literal ttl 0) <ᶠ later))
        × ((is_lease_valid later id s').1.kv ≡ s.kv)
        × ((j : ℕ) → j ≢ id → (is_lease_valid later id s').1.leases j ≡ s.leases j)
  unfolding grant_lease is_lease_valid
  is_lease_valid-grant_lease now later ttl s = (ground arith, ground arith, λ j ne. ground arith)

-- Every stored lease was issued by the counter.
pub record IsIssued {F : Type 0} (s : Etcd F) : Type 0 where
  pub issued : (id : ℕ) → s.lease_id_counter ≤ id → s.leases id ≡ none

module _ {F : Type 0} ⦃fl : Floats F⦄ where
  -- Every call keeps the invariant that the leases stored are ones that the counter has issued.
  apply-IsIssued : (op : Op F) (s : Etcd F) → IsIssued s → IsIssued (apply op s)
  unfolding apply put delete grant_lease revoke_lease is_lease_valid put_with_lease compare_and_swap
  apply-IsIssued (put_op k v) s h = record { issued = λ id le. h.issued id le }
  apply-IsIssued (delete_op k) s h = record { issued = λ id le. ground (arith, h.issued id) }
  apply-IsIssued (grant_op now ttl) s h = record { issued = λ id le. ground (arith, h.issued id) }
  apply-IsIssued (revoke_op j) s h = record { issued = λ id le. ground (arith, h.issued id) }
  apply-IsIssued (check_op now j) s h = record { issued = λ id le. ground (arith, h.issued id) }
  apply-IsIssued (put_with_lease_op now k v j) s h = record {
    issued = λ id le. ground (arith, h.issued id);
  }
  apply-IsIssued (swap_op now k e v none) s h = record {
    issued = λ id le. ground (arith, h.issued id);
  }
  apply-IsIssued (swap_op now k e v (some j)) s h = record {
    issued = λ id le. ground (arith, h.issued id);
  }

  run-IsIssued : (ops : List (Op F)) (s : Etcd F) → IsIssued s → IsIssued (run ops s)
  unfolding run
  run-IsIssued [] s h = h
  run-IsIssued (op ∷ ops) s h = run-IsIssued ops (apply op s) (apply-IsIssued op s h)

  -- From a store whose leases were all issued by its counter, after any calls, the identifier of a
  -- newly granted lease is not that of a lease still stored.
  pub grant_lease-fresh :
      (ops : List (Op F)) (s : Etcd F) (now : F) (ttl : ℕ)
      → IsIssued s
      → (run ops s).leases (grant_lease now ttl (run ops s)).0 ≡ none
  unfolding grant_lease
  grant_lease-fresh ops s now ttl h =
      (run-IsIssued ops s h).issued (run ops s).lease_id_counter (omega arith)
