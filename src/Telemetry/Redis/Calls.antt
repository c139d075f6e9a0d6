-- ===== src/Telemetry/Redis/Calls.antt =====
-- Runs of calls on the Redis store and on the in-memory store, and what is documented of Redis.
use distributed_ai_networkin.Contracts.Models.{accepts_snapshot, NodeTelemetrySnapshot}
use distributed_ai_networkin.Prelude.{
  String, ◌≡◌, Bool, true, false, ◌&&◌, Option, none, some, List, [], ◌∷◌, map, ◌==◌, if◌then◌else◌,
  Distinct,
}
use distributed_ai_networkin.Telemetry.Redis.{hash_key, RedisTelemetryStore, RedisServer}
use distributed_ai_networkin.Telemetry.Store.{TelemetryStore}
use distributed_ai_networkin.Prelude.Dict.{Dict}
use distributed_ai_networkin.Interfaces.{Codec}
use distributed_ai_networkin.Prelude.Floats.{Floats}
use mathlib.Core.Option
use distributed_ai_networkin.Prelude.Dict
use distributed_ai_networkin.Telemetry.Store
use distributed_ai_networkin.Telemetry.Redis

-- What the Redis documentation says of the commands on one hash: a field reads as it was last set, a
-- deleted hash has no fields, and all fields are listed once, each with what it reads as.
pub record RedisLaws {R : Type 0} (server : RedisServer R) : Type 0 where
  pub hget-hset :
      (k f g v : String) (r : R)
      → server.hget k g (server.hset k f v r) ≡ (if f == g then some v else server.hget k g r)
  pub hget-delete : (k f : String) (r : R) → server.hget k f (server.delete k r) ≡ none
  pub get-hgetall : (k f : String) (r : R) → Dict.get (server.hgetall k r) f ≡ server.hget k f r
  pub hgetall-Distinct : (k : String) (r : R) → Distinct (Dict.keys (server.hgetall k r))

module _ {F : Type 0} ⦃fl : Floats F⦄ where
  abbrev finite_rtt : Option F → Bool
  finite_rtt none = true
  finite_rtt (some x) = fl.is_finite x

  -- no number of the snapshot is infinite or a NaN
  unfoldable pub finite_snapshot : NodeTelemetrySnapshot F → Bool
  finite_snapshot s =
      fl.is_finite s.timestamp
      && fl.is_finite s.rtt_ms
      && fl.is_finite s.bandwidth_available_mbps
      && fl.is_finite s.cpu_util_pct
      && fl.is_finite s.gpu_util_pct
      && fl.is_finite s.cost_per_1k_inferences_usd
      && fl.is_finite s.last_heartbeat_age_ms
      && finite_rtt s.gateway_observed_rtt_ms

  -- A snapshot within the bounds of its model, with finite numbers.
  abbrev pub IsDumpable : NodeTelemetrySnapshot F → Type 0
  IsDumpable snap = (accepts_snapshot snap ≡ true) × (finite_snapshot snap ≡ true)

-- What is documented of pydantic: the JSON of a snapshot is read back as that snapshot where it is within
-- the bounds of the model and its numbers are finite; an infinite number or a NaN is written as null.
pub record SnapshotLaws {F : Type 0} ⦃fl : Floats F⦄ (codec : Codec (NodeTelemetrySnapshot F))
    : Type 0 where
  pub decode-encode :
      (snap : NodeTelemetrySnapshot F)
      → IsDumpable snap
      → codec.decode (codec.encode snap) ≡ some snap
  pub encode-ne-empty : (snap : NodeTelemetrySnapshot F) → (codec.encode snap == "") ≡ false

-- A call that changes the store.
pub data Call (F : Type 0) : Type 0 where
  record_call : NodeTelemetrySnapshot F → Call F
  age_call : F → Call F
  clear_call : Call F
  threshold_call : F → Call F

module _ {F : Type 0} where
  -- Snapshots, each under its node.
  abbrev pub by_node : List (NodeTelemetrySnapshot F) → Dict (NodeTelemetrySnapshot F)
  by_node = map (λ snap. (snap.node_id, snap))

module _ {F : Type 0} ⦃fl : Floats F⦄ where
  abbrev pub step : Call F → TelemetryStore F → TelemetryStore F
  step (record_call snap) s = Store.record_snapshot snap s
  step (age_call now) s = Store.update_heartbeat_age now s
  step clear_call s = Store.clear s
  step (threshold_call v) s = Store.set_staleness_threshold v s

  unfoldable pub run : List (Call F) → TelemetryStore F → TelemetryStore F
  run [] s = s
  run (call ∷ calls) s = run calls (step call s)

  -- Every snapshot of the store can be dumped and read back.
  abbrev pub AllDumpable : TelemetryStore F → Type 0
  AllDumpable s =
      (k : String) (snap : NodeTelemetrySnapshot F)
      → Store.get_snapshot s k ≡ some snap
      → IsDumpable snap

  -- So can those after each call of a run.
  unfoldable pub StaysDumpable : List (Call F) → TelemetryStore F → Type 0
  StaysDumpable [] s = Unit
  StaysDumpable (call ∷ calls) s = AllDumpable (step call s) × StaysDumpable calls (step call s)

module _ {R F : Type 0} ⦃fl : Floats F⦄ (server : RedisServer R)
    (codec : Codec (NodeTelemetrySnapshot F)) where
  abbrev pub step_redis : Call F → RedisTelemetryStore R F → Option (RedisTelemetryStore R F)
  step_redis (record_call snap) s = some (Redis.record_snapshot server codec snap s)
  step_redis (age_call now) s = Redis.update_heartbeat_age server codec now s
  step_redis clear_call s = some (Redis.clear server codec s)
  step_redis (threshold_call v) s = some (Redis.set_staleness_threshold v s)

  abbrev pub step_from :
      Call F → Option (RedisTelemetryStore R F) → Option (RedisTelemetryStore R F)
  step_from call none = none
  step_from call (some s) = step_redis call s

  -- a run stops at the first call that raises
  unfoldable pub run_redis :
      List (Call F) → Option (RedisTelemetryStore R F) → Option (RedisTelemetryStore R F)
  run_redis [] s = s
  run_redis (call ∷ calls) s = run_redis calls (step_from call s)

  -- The server holds the snapshots of an in-memory store, dumped.
  pub record Holds (r : RedisTelemetryStore R F) (s : TelemetryStore F) : Type 0 where
    pub texts :
        (k : String)
        → server.hget hash_key k r.redis ≡ Option.map codec.encode (Store.get_snapshot s k)
    pub named :
        (k : String) (snap : NodeTelemetrySnapshot F)
        → Store.get_snapshot s k ≡ some snap
        → snap.node_id ≡ k
    pub dumpable : AllDumpable s
    pub threshold : r.staleness_threshold_ms ≡ s.staleness_threshold_ms
