-- ===== src/Tests/Streams.antt =====
-- The telemetry streamer at concrete inputs.
use distributed_ai_networkin.Prelude.{
  ℕ, ◌+◌, ◌≤◌, String, ◌≡◌, refl, ap, true, false, Option, none, some, List, [], ◌∷◌, or_default,
  length, get_elem?,
}
use distributed_ai_networkin.NodeAgent.Streamer.{
  snapshot_at, telemetry_generator, registration_request, channel_identity, Sample,
  TelemetryStreamer, StreamerLibraries,
}
use distributed_ai_networkin.Gateway.Ingest.{
  values_at, store_all, at_times, IsTimely, SameLibraries, Reception, received,
}
use distributed_ai_networkin.Contracts.Models.{
  NodeTelemetrySnapshot, standard, healthy, accepts_snapshot, edge,
}
use distributed_ai_networkin.NodeAgent.Node.{snapshot_values, emit_snapshot, SimulatedNode}
use distributed_ai_networkin.Gateway.Ingest.Stream.{register-stream_telemetry, IsReady}
use distributed_ai_networkin.NodeAgent.Streamer.Client.{
  turns, is_registered, enters, yields, starts, own, here, OwnStep, further, Reaches-IsChained,
  Reaches, is_alive, yielding, yield_message, created, start, Client, stop, IsChained,
}
use distributed_ai_networkin.Gateway.ControlPlane.{
  registered, stream_telemetry, register_node, TelemetryLibraries, Ack,
}
use distributed_ai_networkin.Tests.Pickles.{
  numbers, lists, strings, options, pairs, through, Pickle,
}
use distributed_ai_networkin.NodeAgent.Streamer.Stopped.{rests, goes, stop-returns}
use distributed_ai_networkin.Tests.Ingress.{scheduler, service}
use distributed_ai_networkin.Tests.Instances.{signing_laws, signing, micros}
use distributed_ai_networkin.Interfaces.{Bytes}
use distributed_ai_networkin.Tests.Stores.{classical}
use distributed_ai_networkin.Contracts.Messages.{TelemetryPayload}
use distributed_ai_networkin.Prelude.Dict
use distributed_ai_networkin.State
use distributed_ai_networkin.NodeAgent.Streamer

abbrev PayloadRow : Type 0
PayloadRow = Option String × (List (Option ℕ) × (Option String × Option (List String)))

abbrev to_row : TelemetryPayload ℕ → PayloadRow
to_row p = (
  p.node_class,
  (
    p.timestamp ∷ p.rtt_ms ∷ p.bandwidth_available_mbps ∷ p.cpu_util_pct ∷ p.gpu_util_pct
        ∷ p.queue_depth ∷ p.cost_per_1k_inferences_usd ∷ [],
    (p.health, p.data_residency_zones),
  ),
)

abbrev at : List (Option ℕ) → ℕ → Option ℕ
at xs i = or_default none (get_elem? xs i)

abbrev from_row : PayloadRow → TelemetryPayload ℕ
from_row (class, (xs, (health, zones))) = record {
  node_class = class;
  timestamp = at xs 0;
  rtt_ms = at xs 1;
  bandwidth_available_mbps = at xs 2;
  cpu_util_pct = at xs 3;
  gpu_util_pct = at xs 4;
  queue_depth = at xs 5;
  cost_per_1k_inferences_usd = at xs 6;
  health = health;
  data_residency_zones = zones;
}

abbrev payloads : Pickle (TelemetryPayload ℕ)
payloads =
    through to_row from_row (λ p. refl)
      (pairs (options strings)
        (pairs (lists (options numbers)) (pairs (options strings) (options (lists strings)))))

abbrev streamer_libraries : StreamerLibraries ℕ ℕ
streamer_libraries = record {
  signing = signing;
  sha256 = λ m. length m ∷ [];
  dump_payload = λ p. payloads.put p [];
  str = λ n. n ∷ [];
  pq_sign = λ m. m;
}

abbrev payload_of_pair : Option (TelemetryPayload ℕ × Bytes) → Option (TelemetryPayload ℕ)
payload_of_pair none = none
payload_of_pair (some (p, rest)) = some p

abbrev gateway_libraries : TelemetryLibraries ℕ
gateway_libraries = record {
  loads_pem = λ pem. true;
  verify = signing.verify;
  load_payload = λ b. payload_of_pair (payloads.take_off b);
}

same_libraries : SameLibraries streamer_libraries gateway_libraries
same_libraries = record {
  loads-public_pem = λ k. refl;
  public_pem-ne-empty = signing_laws.public_pem-ne-empty;
  verify-sign = signing_laws.verify-sign;
  load-dump = λ p. ap payload_of_pair (payloads.take_off-put p []);
}

abbrev node : SimulatedNode ℕ
node = record {
  node_id = "edge-1";
  node_class = edge;
  base_rtt_ms = 5000000;
  bandwidth_mbps = 100000000;
  cost_per_1k_usd = 100000;
  data_residency_zones = "eu" ∷ [];
  cpu_util_pct = 20000000;
  gpu_util_pct = 30000000;
  queue_depth = 1;
  health = healthy;
  assurance_level = standard;
  last_heartbeat_time = 1000000;
  is_offline = false;
  fail_execution = false;
}

abbrev first : Sample ℕ
first = record { node = node; emitted_at = 1000000; signed_at = 1000000; nonce = "n1" }

abbrev next : Sample ℕ
next = record { node = node; emitted_at = 2000000; signed_at = 2000000; nonce = "n2" }

abbrev first_values : NodeTelemetrySnapshot ℕ
first_values = values_at first

first_emitted : snapshot_at first ≡ some first_values
unfolding emit_snapshot micros snapshot_values accepts_snapshot
first_emitted = refl

abbrev receptions : List (Reception ℕ)
receptions =
    record { sample = first; arrives_at = 1500000 }
    ∷ record { sample = next; arrives_at = 2500000 }
    ∷ []

abbrev streamer : TelemetryStreamer ℕ
streamer = record {
  use_tls = true;
  sequence_number = 0;
  previous_hash = [];
  signing_key = 1;
  pqc_config = classical;
  has_pq_signer = false;
}

first-IsTimely : IsTimely "edge-1" 5000000 (record { sample = first; arrives_at = 1500000 })
unfolding micros received snapshot_values accepts_snapshot
first-IsTimely = record {
  of_node = refl;
  unexpired = refl;
  within_skew = refl;
  emitted = refl;
  in_bounds = refl;
}

next-IsTimely : IsTimely "edge-1" 5000000 (record { sample = next; arrives_at = 2500000 })
unfolding micros received snapshot_values accepts_snapshot
next-IsTimely = record {
  of_node = refl;
  unexpired = refl;
  within_skew = refl;
  emitted = refl;
  in_bounds = refl;
}

ready :
    IsReady streamer_libraries gateway_libraries same_libraries "edge-1" service streamer receptions
unfolding Dict.get
ready = record {
  above = refl;
  unseen = (refl, (refl, tt));
  timely = (first-IsTimely, (next-IsTimely, tt));
  distinct = (refl, (refl, tt));
}

register-stream_telemetry_example :
    let (result, (etcd', sched')) =
      register_node
        (channel_identity streamer node)
        (registration_request streamer_libraries streamer node)
        (State.empty, scheduler) in
    let (ack, sv') =
      stream_telemetry gateway_libraries
        (channel_identity streamer node)
        (at_times receptions
          (telemetry_generator streamer_libraries (first ∷ next ∷ []) streamer).0)
        etcd'
        service in
    (result ≡ registered) × (ack ≡ Ack.success) × (sv'.store ≡ store_all receptions service.store)
register-stream_telemetry_example =
    register-stream_telemetry streamer_libraries gateway_libraries same_libraries node State.empty
      scheduler service streamer receptions refl ready

abbrev client : Client ℕ ℕ
client = created (Streamer.init true 1 classical false)

abbrev streaming_client : Client ℕ ℕ
streaming_client = record {
  phase = yielding;
  stop_event = false;
  streamer = Streamer.init true 1 classical false;
  sent = [];
}

streams : Reaches streamer_libraries client streaming_client
unfolding start
streams =
    further
      (further (further (further here starts) (own (enters refl refl))) (own (is_registered refl)))
      (own (turns refl refl))

Reaches-IsChained_example :
    IsChained streamer_libraries 1
      (yield_message streamer_libraries first first_values streaming_client)
Reaches-IsChained_example =
    Reaches-IsChained streamer_libraries signing_laws 1 true classical false
      (further streams (own (yields first first_values refl first_emitted)))

stop-returns_example :
    (1 ≤ 3)
    × (length (yield_message streamer_libraries first first_values (stop streaming_client)).sent
        ≤ length streaming_client.sent + 1)
    × (is_alive (yield_message streamer_libraries first first_values (stop streaming_client)).phase
          ≡ true
        → (e : Client ℕ ℕ) × OwnStep streamer_libraries
            (yield_message streamer_libraries first first_values (stop streaming_client))
            e)
unfolding stop
stop-returns_example =
    stop-returns streamer_libraries next streaming_client
      (goes rests (yields first first_values refl first_emitted))
