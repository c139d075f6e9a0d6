-- ===== src/Scheduler/Dispatch/Laws.antt =====
-- `TaskScheduler.dispatch`: who may dispatch, and which candidate's result is returned.
use distributed_ai_networkin.Prelude.{
  ℕ, suc, ◌+◌, ◌≤◌, String, ◌≡◌, refl, ap, ◌∙◌, subst, Bool, true, false, ◌&&◌, ◌||◌, Option, none,
  some, List, [], ◌∷◌, arith, ltb, if◌then◌else◌, length,
}
use distributed_ai_networkin.Scheduler.Attempt.{attempt, DispatchLibraries}
use distributed_ai_networkin.Prelude.Floats.{Floats}
use distributed_ai_networkin.Contracts.Models.{PlacementDecision, ExecutionResult, TaskRequest}
use distributed_ai_networkin.Scheduler.{TaskScheduler}
use distributed_ai_networkin.Scheduler.Dispatch.{
  not_leader, dispatch_as, fallback_exhausted, finish, completed, dispatch, Dispatched,
  confirm_leader, try_candidates,
}
use distributed_ai_networkin.Scheduler.Chain.{candidate_chain}
use distributed_ai_networkin.State.{Etcd}
use distributed_ai_networkin.State

module _ {F K W : Type 0} ⦃fl : Floats F⦄ (lib : DispatchLibraries F K W)
    (task : TaskRequest F) where
  -- Each of the candidates, tried in their order, gives no result; the run ends in the second state.
  abbrev pub AllFail :
      List String → TaskScheduler K × (Etcd F × W) → TaskScheduler K × (Etcd F × W) → Type 0
  AllFail [] x y = x ≡ y
  AllFail (node ∷ rest) x y =
      ((attempt lib task node x).0 ≡ none) × AllFail rest (attempt lib task node x).1 y

  -- The candidate at a position, counted from 1, gives the result, after those before it, tried in
  -- their order, have given none; the run ends in the second state.
  pub data Succeeds
      : List String
        → TaskScheduler K × (Etcd F × W)
        → ExecutionResult F
        → ℕ
        → TaskScheduler K × (Etcd F × W)
        → Type 0 where
    here :
        {node : String} {rest : List String} {x y : TaskScheduler K × (Etcd F × W)}
        {r : ExecutionResult F}
        → attempt lib task node x ≡ (some r, y)
        → Succeeds (node ∷ rest) x r 1 y
    later :
        {node : String} {rest : List String} {x y : TaskScheduler K × (Etcd F × W)}
        {r : ExecutionResult F} {n : ℕ}
        → (attempt lib task node x).0 ≡ none
        → Succeeds rest (attempt lib task node x).1 r n y
        → Succeeds (node ∷ rest) x r (suc n) y

  pub Succeeds-bounds :
      {chain : List String} {x y : TaskScheduler K × (Etcd F × W)} {r : ExecutionResult F} {n : ℕ}
      → Succeeds chain x r n y
      → (1 ≤ n) × (n ≤ length chain)
  Succeeds-bounds (here e) = (omega arith, omega arith)
  Succeeds-bounds (later e h) =
      let (low, high) = Succeeds-bounds h in (omega (arith, low), omega (arith, high))

  -- What the loop gives, from `k` attempts on.
  abbrev Traced :
      List String
      → TaskScheduler K × (Etcd F × W)
      → ℕ
      → Bool
      → Option (ExecutionResult F × (Bool × ℕ)) × (TaskScheduler K × (Etcd F × W))
      → Type 0
  Traced chain x k activated (none, y) = AllFail chain x y
  Traced chain x k activated (some (r, (a, n)), y) =
      (m : ℕ) × ((n ≡ k + m) × ((a ≡ (activated || ltb 1 n)) × Succeeds chain x r m y))

  Traced-later :
      (node : String) (rest : List String) (x : TaskScheduler K × (Etcd F × W)) (k : ℕ)
      (activated : Bool)
      → (attempt lib task node x).0 ≡ none
      → (t : Option (ExecutionResult F × (Bool × ℕ)) × (TaskScheduler K × (Etcd F × W)))
      → Traced rest
          (attempt lib task node x).1
          (k + 1)
          (if ltb 1 (k + 1) then true else activated)
          t
      → Traced (node ∷ rest) x k activated t
  Traced-later node rest x k activated e (none, y) h = (e, h)
  Traced-later node rest x k activated e (some (r, (a, n)), y) (m, (count, (flag, found))) =
      (suc m, (omega (arith, count), (ground (arith, (Succeeds-bounds found).0), later e found)))

  try_candidates-Traced :
      (chain : List String) (x : TaskScheduler K × (Etcd F × W)) (k : ℕ) (activated : Bool)
      → Traced chain x k activated (try_candidates lib task k activated chain x)
  unfolding try_candidates
  try_candidates-Traced [] x k activated = refl
  try_candidates-Traced (node ∷ rest) x k activated = by_result (attempt lib task node x).0 refl (
      try_candidates-Traced rest (attempt lib task node x).1 (k + 1)
        (if ltb 1 (k + 1) then true else activated))
    where
      by_result :
          (o : Option (ExecutionResult F))
          → (attempt lib task node x).0 ≡ o
          → Traced rest
              (attempt lib task node x).1
              (k + 1)
              (if ltb 1 (k + 1) then true else activated)
              (try_candidates lib task
                (k + 1)
                (if ltb 1 (k + 1) then true else activated)
                rest
                (attempt lib task node x).1)
          → Traced (node ∷ rest) x k activated (elim o [
            | none ↦
                try_candidates lib task
                  (k + 1)
                  (if ltb 1 (k + 1) then true else activated)
                  rest
                  (attempt lib task node x).1
            | some r ↦ (
              some (r, (if ltb 1 (k + 1) then true else activated, k + 1)),
              (attempt lib task node x).1,
            )
          ])
      by_result none e later_traced = Traced-later node rest x k activated e _ later_traced
      by_result (some r) e later_traced =
          (1, (refl, (ground arith, here (ap (λ f. (f, (attempt lib task node x).1)) e))))

  -- The scheduler leads, and its lease is valid.
  abbrev pub leads : TaskScheduler K × (Etcd F × W) → Bool
  leads (s, (etcd, w)) = s.is_leader && (State.is_lease_valid (lib.clock w) s.lease_id etcd).0

  -- What a dispatch over a chain of candidates has done when it ends with an outcome.
  abbrev pub Explained :
      List String
      → TaskScheduler K × (Etcd F × W)
      → Dispatched F × (TaskScheduler K × (Etcd F × W))
      → Type 0
  Explained chain x (completed r activated n, y) =
      (leads x ≡ true) × ((activated ≡ ltb 1 n) × Succeeds chain (confirm_leader lib task x) r n y)
  Explained chain x (fallback_exhausted tried, y) =
      (leads x ≡ true) × ((tried ≡ chain) × AllFail chain (confirm_leader lib task x) y)
  Explained chain x (not_leader, (s, (etcd, w))) =
      (leads x ≡ false) × ((s.is_leader ≡ false) × ((etcd.kv ≡ ((x.1).0).kv) × (w ≡ (x.1).1)))

  confirmed :
      (x : TaskScheduler K × (Etcd F × W))
      → let (s, (etcd, w)) = confirm_leader lib task x in
        (s.is_leader ≡ leads x) × ((etcd.kv ≡ ((x.1).0).kv) × (w ≡ (x.1).1))
  unfolding confirm_leader State.is_lease_valid
  confirmed (s, (etcd, w)) = ground arith

  Explained-finish :
      (chain : List String) (x : TaskScheduler K × (Etcd F × W))
      → leads x ≡ true
      → (t : Option (ExecutionResult F × (Bool × ℕ)) × (TaskScheduler K × (Etcd F × W)))
      → Traced chain (confirm_leader lib task x) 0 false t
      → Explained chain x (finish lib task chain t)
  Explained-finish chain x l (none, y) h = (l, (refl, h))
  Explained-finish chain x l (some (r, (a, n)), y) (m, (count, (flag, found))) =
      let same : m ≡ n = omega (arith, count) in
      (l, (flag, subst (λ i. Succeeds chain (confirm_leader lib task x) r i y) same found))

  Explained-dispatch_as :
      (chain : List String) (x : TaskScheduler K × (Etcd F × W)) (leading : Bool)
      → leads x ≡ leading
      → Explained chain x (dispatch_as lib task chain (confirm_leader lib task x))
  unfolding confirm_leader
  Explained-dispatch_as chain x false l =
      let (flag, (same_kv, same_world)) = confirmed x in
      rw (flag ∙ l) (l, (flag ∙ l, (same_kv, same_world)))
  Explained-dispatch_as [] x true l = rw ((confirmed x).0 ∙ l) (l, (refl, refl))
  Explained-dispatch_as (node ∷ rest) x true l = rw ((confirmed x).0 ∙ l) (
      Explained-finish (node ∷ rest) x l _
        (try_candidates-Traced (node ∷ rest) (confirm_leader lib task x) 0 false))

  pub dispatch_lem :
      (decision : PlacementDecision F) (x : TaskScheduler K × (Etcd F × W))
      → Explained
          (candidate_chain decision.chosen_node decision.fallback_chain)
          x
          (dispatch lib task decision x)
  unfolding dispatch
  dispatch_lem decision x = Explained-dispatch_as _ x (leads x) refl
