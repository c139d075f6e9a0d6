-- ===== src/Telemetry/Store/Laws.antt =====
-- What a reader of the telemetry store sees after each of its calls.
use mathlib.Core.Option
use distributed_ai_networkin.Prelude.Dict
use distributed_ai_networkin.Prelude.Dict.{Dict, get-put, keys-put-Distinct}
use distributed_ai_networkin.Prelude.Floats.{Floats}
use distributed_ai_networkin.Contracts.Models.{NodeTelemetrySnapshot}
use distributed_ai_networkin.Telemetry.Store.{
  TelemetryStore, record_snapshot, get_snapshot, aged, age_all, update_heartbeat_age,
}
use distributed_ai_networkin.Prelude.{
  String, ◌≡◌, refl, sym, ap, inl, inr, some, [], ◌∷◌, arith, ◌==◌, eq_iff, if◌then◌else◌,
  Bool-cases, All, Distinct,
}

-- Each snapshot stands under its own node, and no node has two.
pub record IsKeyed {F : Type 0} (s : TelemetryStore F) : Type 0 where
  pub named : All (λ e. e.1.node_id ≡ e.0) s.snapshots
  pub distinct : Distinct (Dict.keys s.snapshots)

module _ {F : Type 0} where
  put-named :
      (d : Dict (NodeTelemetrySnapshot F)) (snap : NodeTelemetrySnapshot F)
      → All (λ e. e.1.node_id ≡ e.0) d
      → All (λ e. e.1.node_id ≡ e.0) (Dict.put d snap.node_id snap)
  unfolding Dict.put
  put-named [] snap h = (refl, tt)
  put-named ((j, w) ∷ d) snap h = elim (Bool-cases (j == snap.node_id)) [
    | inl e ↦ rw e (sym ((eq_iff j snap.node_id).0 e), h.1)
    | inr e ↦ rw e (h.0, put-named d snap h.1)
  ]

module _ {F : Type 0} ⦃fl : Floats F⦄ where
  keys-age_all :
      (now : F) (d : Dict (NodeTelemetrySnapshot F)) → Dict.keys (age_all now d) ≡ Dict.keys d
  unfolding age_all
  keys-age_all now [] = refl
  keys-age_all now ((j, w) ∷ d) = ap (◌∷◌ j) (keys-age_all now d)

  age_all-named :
      (now : F) (d : Dict (NodeTelemetrySnapshot F))
      → All (λ e. e.1.node_id ≡ e.0) d
      → All (λ e. e.1.node_id ≡ e.0) (age_all now d)
  unfolding age_all aged
  age_all-named now [] h = tt
  age_all-named now ((j, w) ∷ d) h = (h.0, age_all-named now d h.1)

  pub get-age_all :
      (now : F) (d : Dict (NodeTelemetrySnapshot F)) (k : String)
      → Dict.get (age_all now d) k ≡ Option.map (aged now) (Dict.get d k)
  unfolding age_all Dict.get
  get-age_all now [] k = refl
  get-age_all now ((j, w) ∷ d) k = ground (arith, get-age_all now d k)

  -- Recording a snapshot and ageing the snapshots both keep the store keyed: each snapshot stands
  -- under its own node, and no node has two.
  pub store-IsKeyed :
      (snap : NodeTelemetrySnapshot F) (now : F) (s : TelemetryStore F)
      → IsKeyed s
      → IsKeyed (record_snapshot snap s) × IsKeyed (update_heartbeat_age now s)
  unfolding record_snapshot update_heartbeat_age
  store-IsKeyed snap now s h = (
    record {
      named = put-named s.snapshots snap h.named;
      distinct = keys-put-Distinct s.snapshots snap.node_id snap h.distinct;
    },
    record { named = age_all-named now s.snapshots h.named; distinct = rw keys-age_all h.distinct },
  )

  -- After a snapshot is recorded and the ages are advanced, a node reads as its snapshot with the
  -- age that its own time stamp gives: the new one for its node, the old one for all others.
  pub get_snapshot-record_snapshot :
      (snap : NodeTelemetrySnapshot F) (now : F) (s : TelemetryStore F) (k : String)
      → get_snapshot (update_heartbeat_age now (record_snapshot snap s)) k
        ≡ Option.map (aged now) (if snap.node_id == k then some snap else get_snapshot s k)
  unfolding get_snapshot record_snapshot update_heartbeat_age
  get_snapshot-record_snapshot snap now s k = rw get-age_all (rw get-put refl)
