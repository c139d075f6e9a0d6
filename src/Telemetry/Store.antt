-- ===== src/Telemetry/Store.antt =====
-- telemetry/store.py: `TelemetryStore`. Every method holds the lock for its whole body.
pub mod Laws
use distributed_ai_networkin.Prelude.Dict
use distributed_ai_networkin.Prelude.Dict.{Dict}
use distributed_ai_networkin.Prelude.Floats.{Floats, literal, max_float}
use distributed_ai_networkin.Contracts.Models.{NodeTelemetrySnapshot}
use distributed_ai_networkin.Prelude.{String, Option, List, [], ◌∷◌}

pub record TelemetryStore (F : Type 0) : Type 0 where
  pub snapshots : Dict (NodeTelemetrySnapshot F)
  pub staleness_threshold_ms : F

module _ {F : Type 0} where
  -- `__init__`
  abbrev pub init : F → TelemetryStore F
  init threshold = record { snapshots = []; staleness_threshold_ms = threshold }

  unfoldable pub set_staleness_threshold : F → TelemetryStore F → TelemetryStore F
  set_staleness_threshold v s = record s { staleness_threshold_ms = v }

  unfoldable pub record_snapshot : NodeTelemetrySnapshot F → TelemetryStore F → TelemetryStore F
  record_snapshot snap s = record s { snapshots = Dict.put s.snapshots snap.node_id snap }

  unfoldable pub get_snapshot : TelemetryStore F → String → Option (NodeTelemetrySnapshot F)
  get_snapshot s node_id = Dict.get s.snapshots node_id

  unfoldable pub get_all_snapshots : TelemetryStore F → List (NodeTelemetrySnapshot F)
  get_all_snapshots s = Dict.values s.snapshots

  unfoldable pub clear : TelemetryStore F → TelemetryStore F
  clear s = record s { snapshots = [] }

module _ {F : Type 0} ⦃fl : Floats F⦄ where
  unfoldable pub aged : F → NodeTelemetrySnapshot F → NodeTelemetrySnapshot F
  aged now snap =
      let elapsed_ms = fl.mul (fl.sub now snap.timestamp) (literal 1000 0) in
      record snap { last_heartbeat_age_ms = max_float (literal 0 0) elapsed_ms }

  -- the loop over `items()`; it assigns to the key that it stands at
  unfoldable pub age_all : F → Dict (NodeTelemetrySnapshot F) → Dict (NodeTelemetrySnapshot F)
  age_all now [] = []
  age_all now ((node_id, snap) ∷ rest) = (node_id, aged now snap) ∷ age_all now rest

  unfoldable pub update_heartbeat_age : F → TelemetryStore F → TelemetryStore F
  unfolding age_all
  update_heartbeat_age now s = record s { snapshots = age_all now s.snapshots }
