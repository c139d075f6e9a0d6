-- ===== src/Tests/Snapshots.antt =====
-- The Redis store at concrete inputs: snapshots as texts, and a server of one hash.
use distributed_ai_networkin.Prelude.{
  ℕ, zero, suc, String, ◌≡◌, refl, Bool, true, false, Option, some, List, [], ◌∷◌, or_default,
  get_elem?, All, Distinct,
}
use distributed_ai_networkin.Telemetry.Store.{aged, TelemetryStore}
use distributed_ai_networkin.Contracts.Models.{
  accepts_snapshot, unreachable, cloud, degraded, high_assurance, standard, edge, healthy,
  HealthStatus, NodeClass, AssuranceLevel, NodeTelemetrySnapshot,
}
use distributed_ai_networkin.Telemetry.Redis.Calls.{
  AllDumpable, IsDumpable, finite_snapshot, SnapshotLaws, StaysDumpable, by_node, age_call,
  run_redis, record_call, run, RedisLaws, Call,
}
use distributed_ai_networkin.Tests.Instances.{micros}
use distributed_ai_networkin.Tests.Pickles.{
  codec_laws, codec, options, lists, numbers, bools, strings, pairs, through, Pickle,
}
use distributed_ai_networkin.Telemetry.Redis.Refines.{run_redis-run}
use distributed_ai_networkin.Tests.Stores.{cloud_1, edge_1}
use distributed_ai_networkin.Telemetry.Redis.{RedisTelemetryStore, RedisServer}
use distributed_ai_networkin.Prelude.Dict.{keys-put-Distinct, get-put, Dict}
use distributed_ai_networkin.Prelude.Dict
use distributed_ai_networkin.Telemetry.Store
use distributed_ai_networkin.Telemetry.Redis

abbrev class_number : NodeClass → ℕ
class_number edge = 0
class_number cloud = 1

abbrev number_class : ℕ → NodeClass
number_class zero = edge
number_class (suc n) = cloud

pub number_class-class_number : (c : NodeClass) → number_class (class_number c) ≡ c
number_class-class_number edge = refl
number_class-class_number cloud = refl

abbrev pub classes : Pickle NodeClass
classes = through class_number number_class number_class-class_number numbers

abbrev health_number : HealthStatus → ℕ
health_number healthy = 0
health_number degraded = 1
health_number unreachable = 2

abbrev number_health : ℕ → HealthStatus
number_health zero = healthy
number_health (suc zero) = degraded
number_health (suc (suc n)) = unreachable

pub number_health-health_number : (h : HealthStatus) → number_health (health_number h) ≡ h
number_health-health_number healthy = refl
number_health-health_number degraded = refl
number_health-health_number unreachable = refl

abbrev pub healths : Pickle HealthStatus
healths = through health_number number_health number_health-health_number numbers

abbrev level_bool : AssuranceLevel → Bool
level_bool standard = false
level_bool high_assurance = true

abbrev bool_level : Bool → AssuranceLevel
bool_level false = standard
bool_level true = high_assurance

pub bool_level-level_bool : (l : AssuranceLevel) → bool_level (level_bool l) ≡ l
bool_level-level_bool standard = refl
bool_level-level_bool high_assurance = refl

abbrev pub levels : Pickle AssuranceLevel
levels = through level_bool bool_level bool_level-level_bool bools

-- the fields of a snapshot in their order
abbrev pub Row : Type 0
Row =
    String
    × (NodeClass × (List ℕ × (ℕ × (HealthStatus × (List String × (Option ℕ × AssuranceLevel))))))

abbrev floats_of : NodeTelemetrySnapshot ℕ → List ℕ
floats_of s =
    s.timestamp ∷ s.rtt_ms ∷ s.bandwidth_available_mbps ∷ s.cpu_util_pct ∷ s.gpu_util_pct
    ∷ s.cost_per_1k_inferences_usd ∷ s.last_heartbeat_age_ms ∷ []

abbrev to_row : NodeTelemetrySnapshot ℕ → Row
to_row s = (
  s.node_id,
  (
    s.node_class,
    (
      floats_of s,
      (
        s.queue_depth,
        (s.health, (s.data_residency_zones, (s.gateway_observed_rtt_ms, s.assurance_level))),
      ),
    ),
  ),
)

abbrev at : List ℕ → ℕ → ℕ
at xs i = or_default 0 (get_elem? xs i)

abbrev from_row : Row → NodeTelemetrySnapshot ℕ
from_row (id, (class, (xs, (queue, (health, (zones, (rtt, level))))))) = record {
  node_id = id;
  node_class = class;
  timestamp = at xs 0;
  rtt_ms = at xs 1;
  bandwidth_available_mbps = at xs 2;
  cpu_util_pct = at xs 3;
  gpu_util_pct = at xs 4;
  queue_depth = queue;
  cost_per_1k_inferences_usd = at xs 5;
  health = health;
  last_heartbeat_age_ms = at xs 6;
  data_residency_zones = zones;
  gateway_observed_rtt_ms = rtt;
  assurance_level = level;
}

abbrev rows : Pickle Row
rows = pairs strings (
    pairs classes (
      pairs (lists numbers)
        (pairs numbers (pairs healths (pairs (lists strings) (pairs (options numbers) levels))))))

abbrev pub snapshots : Pickle (NodeTelemetrySnapshot ℕ)
snapshots = through to_row from_row (λ s. refl) rows

-- a hash, whose fields are listed once
abbrev Hash : Type 0
Hash = (d : Dict String) × Distinct (Dict.keys d)

abbrev server : RedisServer Hash
server = record {
  hset = λ k f v h. (Dict.put h.0 f v, keys-put-Distinct h.0 f v h.1);
  hget = λ k f h. Dict.get h.0 f;
  hgetall = λ k h. h.0;
  delete = λ k h. ([], tt);
}

server_laws : RedisLaws server
unfolding Dict.get
server_laws = record {
  hget-hset = λ k f g v h. get-put h.0 f g v;
  hget-delete = λ k f h. refl;
  get-hgetall = λ k f h. refl;
  hgetall-Distinct = λ k h. h.1;
}

abbrev calls : List (Call ℕ)
calls = record_call edge_1 ∷ record_call cloud_1 ∷ age_call 3000000 ∷ record_call edge_1 ∷ []

snapshot_laws : SnapshotLaws (codec snapshots)
snapshot_laws = record {
  decode-encode = λ snap h. (codec_laws snapshots).decode-encode snap;
  encode-ne-empty = (codec_laws snapshots).encode-ne-empty;
}

-- the snapshots of a store, one by one
values-AllDumpable :
    (s : TelemetryStore ℕ) → All IsDumpable (Dict.values s.snapshots) → AllDumpable s
unfolding Store.get_snapshot
values-AllDumpable s h k snap e = Dict.get-All IsDumpable s.snapshots k snap h e

stays : StaysDumpable calls (Store.init 3000000000)
unfolding StaysDumpable finite_snapshot accepts_snapshot micros Store.record_snapshot
    Store.update_heartbeat_age Store.age_all aged Dict.put
stays = (
  values-AllDumpable _ ((refl, refl), tt),
  (
    values-AllDumpable _ ((refl, refl), ((refl, refl), tt)),
    (
      values-AllDumpable _ ((refl, refl), ((refl, refl), tt)),
      (values-AllDumpable _ ((refl, refl), ((refl, refl), tt)), tt),
    ),
  ),
)

run_redis-run_example :
    let s' = run calls (Store.init 3000000000) in
    (r' : RedisTelemetryStore Hash ℕ) × ((run_redis server
          (codec snapshots)
          calls
          (some (record { redis = ([], tt); staleness_threshold_ms = 3000000000 }))
        ≡ some r')
      × (((k : String)
            → Redis.get_snapshot server (codec snapshots) r' k ≡ some (Store.get_snapshot s' k))
          × ((l : List (NodeTelemetrySnapshot ℕ)) × ((Redis.get_all_snapshots server
                    (codec snapshots)
                    r'
                  ≡ some l)
                × (Distinct (Dict.keys (by_node l))
                    × ((k : String) → Dict.get (by_node l) k ≡ Store.get_snapshot s' k))))))
unfolding Dict.get
run_redis-run_example =
    run_redis-run server server_laws (codec snapshots) snapshot_laws calls ([], tt) 3000000000
      (λ k. refl) stays
