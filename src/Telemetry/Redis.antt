-- ===== src/Telemetry/Redis.antt =====
-- telemetry/redis_store.py: `RedisTelemetryStore`. The Redis server, and with it the commands that it
-- answers, is a parameter; a snapshot is stored as the JSON text that pydantic dumps. `none` is the
-- ValidationError of a text that is no snapshot, which no caller in the store catches.
pub mod Calls
pub mod Dumped
pub mod Refines
use distributed_ai_networkin.Prelude.{
  String, Option, none, some, List, [], ◌∷◌, map, ◌==◌, if◌then◌else◌,
}
use distributed_ai_networkin.Telemetry.Store.{aged}
use distributed_ai_networkin.Prelude.Floats.{Floats}
use distributed_ai_networkin.Contracts.Models.{NodeTelemetrySnapshot}
use distributed_ai_networkin.Interfaces.{Codec}
use distributed_ai_networkin.Prelude.Dict.{Dict}
use mathlib.Core.Option
use distributed_ai_networkin.Prelude.Dict

-- The commands that the store sends; a pipeline runs its commands in order.
pub record RedisServer (R : Type 0) : Type 0 where
  pub hset : String → String → String → R → R
  pub hget : String → String → R → Option String
  pub hgetall : String → R → Dict String
  pub delete : String → R → R

pub record RedisTelemetryStore (R F : Type 0) : Type 0 where
  pub redis : R
  pub staleness_threshold_ms : F

abbrev pub hash_key : String
hash_key = "telemetry:snapshots"

module _ {R F : Type 0} where
  unfoldable pub set_staleness_threshold : F → RedisTelemetryStore R F → RedisTelemetryStore R F
  set_staleness_threshold v s = record s { staleness_threshold_ms = v }

module _ {F : Type 0} (codec : Codec (NodeTelemetrySnapshot F)) where
  -- `none` where the text is no snapshot
  abbrev pub decoded : Option (NodeTelemetrySnapshot F) → Option (Option (NodeTelemetrySnapshot F))
  decoded none = none
  decoded (some snap) = some (some snap)

  abbrev pub read_data : Option String → Option (Option (NodeTelemetrySnapshot F))
  read_data none = some none
  read_data (some data_) = if data_ == "" then some none else decoded (codec.decode data_)

  -- the list comprehension of `get_all_snapshots`
  unfoldable pub validate_all : List String → Option (List (NodeTelemetrySnapshot F))
  validate_all [] = some []
  validate_all (v ∷ vs) = elim (codec.decode v) [
    | none ↦ none
    | some snap ↦ Option.map (◌∷◌ snap) (validate_all vs)
  ]

module _ {R F : Type 0} (server : RedisServer R) (codec : Codec (NodeTelemetrySnapshot F)) where
  -- `hset` of a snapshot under its node
  abbrev pub hset_snapshot : NodeTelemetrySnapshot F → R → R
  hset_snapshot snap r = server.hset hash_key snap.node_id (codec.encode snap) r

  unfoldable pub record_snapshot :
      NodeTelemetrySnapshot F → RedisTelemetryStore R F → RedisTelemetryStore R F
  record_snapshot snap s = record s { redis = hset_snapshot snap s.redis }

  unfoldable pub get_snapshot :
      RedisTelemetryStore R F → String → Option (Option (NodeTelemetrySnapshot F))
  get_snapshot s node_id = read_data codec (server.hget hash_key node_id s.redis)

  unfoldable pub get_all_snapshots :
      RedisTelemetryStore R F → Option (List (NodeTelemetrySnapshot F))
  get_all_snapshots s = validate_all codec (Dict.values (server.hgetall hash_key s.redis))

  unfoldable pub clear : RedisTelemetryStore R F → RedisTelemetryStore R F
  clear s = record s { redis = server.delete hash_key s.redis }

  module _ ⦃fl : Floats F⦄ where
    -- the pipeline of `update_heartbeat_age`, executed
    unfoldable pub hset_aged : F → List (NodeTelemetrySnapshot F) → R → R
    hset_aged now [] r = r
    hset_aged now (snap ∷ rest) r = hset_aged now rest (hset_snapshot (aged now snap) r)

    unfoldable pub update_heartbeat_age :
        F → RedisTelemetryStore R F → Option (RedisTelemetryStore R F)
    update_heartbeat_age now s =
        Option.map (λ snapshots. record s { redis = hset_aged now snapshots s.redis })
          (get_all_snapshots s)
