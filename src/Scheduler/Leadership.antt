-- ===== src/Scheduler/Leadership.antt =====
-- At most one scheduler leads, and leadership is never passed on.
use distributed_ai_networkin.Prelude.{
  ℕ, ◌+◌, ◌≤◌, String, ◌≡◌, refl, ap, ◌≢◌, inl, inr, Bool, false, ◌&&◌, none, some, List, [], ◌∷◌,
  arith, ◌==◌, eq_iff, eq_refl, if◌then◌else◌, Bool-cases, is_some,
}
use distributed_ai_networkin.Prelude.Dict.{get-put, Dict}
use distributed_ai_networkin.State.Swap.{get-compare_and_swap}
use distributed_ai_networkin.Scheduler.{TaskScheduler, init, leader_key, identity_key}
use distributed_ai_networkin.Security.Algorithms.{PqcConfig}
use distributed_ai_networkin.State.{same_value, Etcd}
use distributed_ai_networkin.Interfaces.{Signing}
use distributed_ai_networkin.Prelude.Floats.{Floats}
use Prim.Native.String.{count, ◌++◌ as ◌&◌}
use text.Mathlib.TextLemmas.{append_cancel_left, length-append as count-append}
use distributed_ai_networkin.State

leader-ne-identity : (id : String) → (identity_key id == leader_key) ≡ false
unfolding leader_key identity_key
leader-ne-identity id = ground (
  arith,
  eq_iff ("/distributed-ai/scheduler/" & (id & "/identity")) "/distributed-ai/scheduler/leader",
  longer,
)
  where
    longer :
        ("/distributed-ai/scheduler/" & (id & "/identity")) ≢ "/distributed-ai/scheduler/leader"
    longer e =
        let tail = append_cancel_left "/distributed-ai/scheduler/" (id & "/identity") "leader" e in
        absurd (omega (arith, ap count tail, count-append id "/identity"))

-- What a scheduler is started with, and when.
pub record Start (F K : Type 0) : Type 0 where
  pub now : F
  pub targets : Dict String
  pub scheduler_id : String
  pub key : K
  pub config : PqcConfig
  pub oqs : Bool

abbrev pub count_true : List Bool → ℕ
count_true [] = 0
count_true (b ∷ bs) = (if b then 1 else 0) + count_true bs

module _ {F K : Type 0} ⦃fl : Floats F⦄ (signing : Signing K) where
  abbrev pub start : Start F K → Etcd F → TaskScheduler K × Etcd F
  start a etcd = init signing a.now a.targets a.scheduler_id a.key a.config a.oqs etcd

  -- Schedulers start one after another on the one store, at any times: who leads, and the store.
  abbrev pub start_all : List (Start F K) → Etcd F → List Bool × Etcd F
  start_all [] etcd = ([], etcd)
  start_all (a ∷ rest) etcd =
      let (s, etcd') = start a etcd in
      let (leaders, etcd'') = start_all rest etcd' in (s.is_leader ∷ leaders, etcd'')

  start_lem :
      (a : Start F K) (etcd : Etcd F)
      → (((start a etcd).0.is_leader && is_some (State.get etcd leader_key)) ≡ false)
        × (State.get (start a etcd).1 leader_key ≡ (
            if (start a etcd).0.is_leader then some a.scheduler_id else State.get etcd leader_key))
  unfolding init State.grant_lease State.put State.get
  start_lem a etcd =
      let (lease, etcd') = State.grant_lease a.now 30 etcd in
      let (done, reads) =
        get-compare_and_swap a.now leader_key none a.scheduler_id (some lease) etcd' in
      let (leads, etcd'') =
        State.compare_and_swap a.now leader_key none a.scheduler_id (some lease) etcd' in
      ground (
        arith,
        done,
        reads leader_key,
        eq_refl leader_key,
        leader-ne-identity a.scheduler_id,
        get-put etcd''.kv (identity_key a.scheduler_id) leader_key (signing.public_pem a.key),
      )

  -- Once the store names a leader, no scheduler that is started later leads, however much time has
  -- passed and whether or not the leader's lease has run out, and the leader key keeps its value.
  pub start_all-leader_kept :
      (starts : List (Start F K)) (etcd : Etcd F) (leader : String)
      → State.get etcd leader_key ≡ some leader
      → (count_true (start_all starts etcd).0 ≡ 0)
        × (State.get (start_all starts etcd).1 leader_key ≡ some leader)
  start_all-leader_kept [] etcd leader h = (refl, h)
  start_all-leader_kept (a ∷ rest) etcd leader h =
      let (alone, reads) = start_lem a etcd in
      let follows : (start a etcd).0.is_leader ≡ false = ground (arith, alone, h) in
      ground (
        arith,
        follows,
        start_all-leader_kept rest (start a etcd).1 leader (ground (arith, follows, reads, h)),
      )

  -- Of all schedulers that are started on one store, at most one leads.
  pub start_all-one_leader :
      (starts : List (Start F K)) (etcd : Etcd F) → count_true (start_all starts etcd).0 ≤ 1
  start_all-one_leader [] etcd = omega arith
  start_all-one_leader (a ∷ rest) etcd = elim (Bool-cases (start a etcd).0.is_leader) [
    | inl e ↦ ground (
      arith,
      e,
      (start_all-leader_kept rest (start a etcd).1 a.scheduler_id
          (ground (arith, e, (start_lem a etcd).1))).0,
    )
    | inr e ↦ ground (arith, e, start_all-one_leader rest (start a etcd).1)
  ]
