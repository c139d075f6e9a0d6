-- ===== src/Scheduler/Dispatch.antt =====
-- scheduler/dispatcher.py: `TaskScheduler.dispatch`.
pub mod Laws
pub mod Returns
use distributed_ai_networkin.Prelude.{
  ℕ, ◌+◌, String, Bool, true, false, not, Option, none, some, List, [], ◌∷◌, ltb, if◌then◌else◌,
  is_empty,
}
use distributed_ai_networkin.Scheduler.Chain.{candidate_chain}
use distributed_ai_networkin.Scheduler.Attempt.{attempt, DispatchLibraries}
use distributed_ai_networkin.State.{Etcd}
use distributed_ai_networkin.Scheduler.{TaskScheduler}
use distributed_ai_networkin.Contracts.Models.{PlacementDecision, TaskRequest, ExecutionResult}
use distributed_ai_networkin.Prelude.Floats.{Floats}
use distributed_ai_networkin.State

-- What a call returns, or the exception that it raises.
pub data Dispatched (F : Type 0) : Type 0 where
  completed : ExecutionResult F → Bool → ℕ → Dispatched F
  not_leader : Dispatched F
  fallback_exhausted : List String → Dispatched F

module _ {F K W : Type 0} ⦃fl : Floats F⦄ (lib : DispatchLibraries F K W)
    (task : TaskRequest F) where
  -- the loop, from the given `attempts` and `fallback_activated` on
  unfoldable pub try_candidates :
      ℕ
      → Bool
      → List String
      → TaskScheduler K × (Etcd F × W)
      → Option (ExecutionResult F × (Bool × ℕ)) × (TaskScheduler K × (Etcd F × W))
  try_candidates attempts activated [] x = (none, x)
  try_candidates attempts activated (node ∷ rest) x =
      let attempts' = attempts + 1 in
      let activated' = if ltb 1 attempts' then true else activated in
      let (result, x') = attempt lib task node x in
      elim result [
        | some r ↦ (some (r, (activated', attempts')), x')
        | none ↦ try_candidates attempts' activated' rest x'
      ]

  abbrev pub finish :
      List String
      → Option (ExecutionResult F × (Bool × ℕ)) × (TaskScheduler K × (Etcd F × W))
      → Dispatched F × (TaskScheduler K × (Etcd F × W))
  finish chain (some (r, (activated, attempts)), x) = (completed r activated attempts, x)
  finish chain (none, x) = (fallback_exhausted chain, x)

  -- a leader looks its lease up, and steps down when it has run out
  unfoldable pub confirm_leader : TaskScheduler K × (Etcd F × W) → TaskScheduler K × (Etcd F × W)
  confirm_leader (s, (etcd, w)) =
      if s.is_leader
      then (let (valid, etcd') = State.is_lease_valid (lib.clock w) s.lease_id etcd in
          (if valid then s else record s { is_leader = false }, (etcd', w)))
      else (s, (etcd, w))

  abbrev pub dispatch_as :
      List String → TaskScheduler K × (Etcd F × W) → Dispatched F × (TaskScheduler K × (Etcd F × W))
  dispatch_as chain x =
      if not (x.0).is_leader
      then (not_leader, x)
      else if is_empty chain
      then (fallback_exhausted [], x)
      else finish chain (try_candidates 0 false chain x)

  unfoldable pub dispatch :
      PlacementDecision F
      → TaskScheduler K × (Etcd F × W)
      → Dispatched F × (TaskScheduler K × (Etcd F × W))
  dispatch decision x =
      dispatch_as (candidate_chain decision.chosen_node decision.fallback_chain) (confirm_leader x)
