-- ===== src/Cluster/Simulated.antt =====
-- `create_simulated_cluster` of common/cluster.py, with the constructors of the nodes' workers and the
-- start of their servers (`serve` of node_agent/grpc_server.py). What the starts read and generate is
-- an argument, and `none` is an exception; a server is its credentials, its port and its worker.
pub mod Reachable
use distributed_ai_networkin.Prelude.{
  ℕ, ◌+◌, String, Bool, false, Option, none, some, List, [], ◌∷◌, ◌++◌, map, if◌then◌else◌,
}
use distributed_ai_networkin.Contracts.Models.{
  cloud, standard, healthy, edge, NodeTelemetrySnapshot,
}
use distributed_ai_networkin.Cluster.Bootstrap.{bootstrap_supply_chain}
use distributed_ai_networkin.Audit.Ledger.{TamperEvidentLedger, LedgerLibraries}
use distributed_ai_networkin.Prelude.Floats.{literal, Floats}
use distributed_ai_networkin.State.{Etcd}
use distributed_ai_networkin.NodeAgent.Node.{emit_snapshot, SimulatedNode}
use distributed_ai_networkin.Scheduler.{TaskScheduler}
use distributed_ai_networkin.SupplyChain.{Libraries}
use distributed_ai_networkin.Prelude.Dict.{Dict}
use distributed_ai_networkin.Decision.Engine.{DecisionEngine, StaticPolicy}
use distributed_ai_networkin.Telemetry.Store.{TelemetryStore}
use distributed_ai_networkin.Security.Algorithms.{PqcConfig}
use distributed_ai_networkin.NodeAgent.Worker.{InferenceWorker}
use mathlib.Core.Option
use distributed_ai_networkin.State
use distributed_ai_networkin.Security.Authority.{
  CaLibraries, SecretFiles, ServerCredentials, get_server_credentials,
}
use distributed_ai_networkin.Interfaces.{Bytes}
use distributed_ai_networkin.NodeAgent.Streamer.{spiffe_of}
use distributed_ai_networkin.Prelude.Dict
use distributed_ai_networkin.Telemetry.Store
use distributed_ai_networkin.Scheduler
use distributed_ai_networkin.Audit.Ledger
use distributed_ai_networkin.Decision.Engine
use Prim.Native.String.{◌++◌ as ◌&◌}

pub record ExecutionServer (F : Type 0) : Type 0 where
  pub credentials : ServerCredentials F
  pub port : ℕ
  pub worker : InferenceWorker F

-- What the start of servers meets: `cryptography`, the pairs that are generated if there is no authority,
-- the keys of the servers, and whether a port can be bound.
pub record Host (F : Type 0) : Type 0 where
  pub ca : CaLibraries
  pub new_authority : ℕ → Bytes × Bytes
  pub server_key : ℕ → Bytes
  pub binds : ℕ → Bool
  pub served_at : ℕ → F

-- The readings of the clock, `str` of numbers, the generated keys and the loaded configuration.
pub record Start (F K : Type 0) : Type 0 where
  pub clock : ℕ → F
  pub str : ℕ → String
  pub ci_key : K
  pub ledger_key : K
  pub scheduler_key : K
  pub pqc_config : PqcConfig
  pub oqs_available : Bool
  pub static_policy : StaticPolicy
  -- audit_ledger.jsonl, and the files of the authority
  pub ledger_file : Option (List String)
  pub files : SecretFiles
  pub host : Host F

-- What the loop over the nodes fills.
pub record Started (F : Type 0) : Type 0 where
  pub store : TelemetryStore F
  pub node_targets : Dict String
  pub grpc_servers : List (ExecutionServer F)
  pub files : SecretFiles

pub record Cluster (F K : Type 0) : Type 0 where
  pub telemetry_store : TelemetryStore F
  pub decision_engine : DecisionEngine F
  pub scheduler : TaskScheduler K
  pub ledger : TamperEvidentLedger K
  pub nodes : Dict (SimulatedNode F)
  pub grpc_servers : List (ExecutionServer F)
  pub etcd : Etcd F
  pub files : SecretFiles

abbrev pub base_port : ℕ
base_port = 50051

module _ {F : Type 0} ⦃fl : Floats F⦄ where
  -- `nodes`, of which the i-th is made at the i-th reading of the clock
  unfoldable pub simulated_nodes : (ℕ → F) → Dict (SimulatedNode F)
  simulated_nodes clock =
      (
        "edge-frankfurt-1",
        record {
          node_id = "edge-frankfurt-1";
          node_class = edge;
          base_rtt_ms = literal 142 1;
          bandwidth_mbps = literal 120 0;
          cost_per_1k_usd = literal 3 3;
          data_residency_zones = "eu-only" ∷ "eu-central-1" ∷ [];
          cpu_util_pct = literal 42 0;
          gpu_util_pct = literal 38 0;
          queue_depth = 2;
          health = healthy;
          assurance_level = standard;
          last_heartbeat_time = clock 0;
          is_offline = false;
          fail_execution = false;
        },
      )
      ∷ (
        "edge-london-1",
        record {
          node_id = "edge-london-1";
          node_class = edge;
          base_rtt_ms = literal 185 1;
          bandwidth_mbps = literal 90 0;
          cost_per_1k_usd = literal 4 3;
          data_residency_zones = "uk-only" ∷ "eu-west-2" ∷ [];
          cpu_util_pct = literal 60 0;
          gpu_util_pct = literal 52 0;
          queue_depth = 5;
          health = healthy;
          assurance_level = standard;
          last_heartbeat_time = clock 1;
          is_offline = false;
          fail_execution = false;
        },
      )
      ∷ (
        "cloud-aws-eu-central",
        record {
          node_id = "cloud-aws-eu-central";
          node_class = cloud;
          base_rtt_ms = literal 45 0;
          bandwidth_mbps = literal 1000 0;
          cost_per_1k_usd = literal 24 3;
          data_residency_zones = "eu-only" ∷ "eu-central-1" ∷ [];
          cpu_util_pct = literal 25 0;
          gpu_util_pct = literal 18 0;
          queue_depth = 1;
          health = healthy;
          assurance_level = standard;
          last_heartbeat_time = clock 2;
          is_offline = false;
          fail_execution = false;
        },
      )
      ∷ (
        "cloud-aws-us-east",
        record {
          node_id = "cloud-aws-us-east";
          node_class = cloud;
          base_rtt_ms = literal 115 0;
          bandwidth_mbps = literal 2500 0;
          cost_per_1k_usd = literal 18 3;
          data_residency_zones = "us-only" ∷ "us-east-1" ∷ [];
          cpu_util_pct = literal 15 0;
          gpu_util_pct = literal 10 0;
          queue_depth = 0;
          health = healthy;
          assurance_level = standard;
          last_heartbeat_time = clock 3;
          is_offline = false;
          fail_execution = false;
        },
      )
      ∷ []

  -- `serve`, over TLS: the server and the files of the authority after it
  unfoldable pub serve :
      Host F → ℕ → InferenceWorker F → ℕ → SecretFiles → Option (ExecutionServer F × SecretFiles)
  serve h i worker port files =
      let (creds, files') =
        get_server_credentials h.ca (h.served_at i) (h.new_authority i) (h.server_key i)
          (spiffe_of worker.node.node_id) files in
      elim creds [
        | none ↦ none
        | some c ↦
            if h.binds port
            then some (record { credentials = c; port = port; worker = worker }, files')
            else none
      ]

  -- the worker of a node, which has answered no request
  abbrev pub fresh_worker : SimulatedNode F → InferenceWorker F
  fresh_worker node = record { node = node; processed_idempotency_keys = [] }

  -- one turn of the loop, with the server and the snapshot
  unfoldable pub started_with :
      (ℕ → String)
      → ℕ
      → String
      → ExecutionServer F × SecretFiles
      → NodeTelemetrySnapshot F
      → Started F
      → Started F
  started_with str i node_id (server, files) snapshot st = record {
    store = Store.record_snapshot snapshot st.store;
    node_targets = Dict.put st.node_targets node_id ("localhost:" & str (base_port + i));
    grpc_servers = st.grpc_servers ++ (server ∷ []);
    files = files;
  }

  unfoldable pub start_node :
      Host F → (ℕ → String) → F → ℕ → String → SimulatedNode F → Started F → Option (Started F)
  start_node h str now i node_id node st =
      elim (serve h i (fresh_worker node) (base_port + i) st.files) [
        | none ↦ none
        | some served ↦
            Option.map (λ snapshot. started_with str i node_id served snapshot st)
              (emit_snapshot now none node)
      ]

  -- the loop over `enumerate(nodes.items())`, from the i-th on; the i-th snapshot is taken after all
  -- nodes are made
  unfoldable pub start_nodes :
      Host F → (ℕ → String) → (ℕ → F) → ℕ → Dict (SimulatedNode F) → Started F → Option (Started F)
  start_nodes h str clock i [] st = some st
  start_nodes h str clock i ((node_id, node) ∷ rest) st =
      elim (start_node h str (clock (i + 4)) i node_id node st) [
        | none ↦ none
        | some st' ↦ start_nodes h str clock (i + 1) rest st'
      ]

module _ {F K : Type 0} ⦃fl : Floats F⦄ (lib : Libraries F K)
    (ledger_lib : LedgerLibraries F K) where
  -- the state before the loop
  abbrev pub unstarted : Start F K → Started F
  unstarted t = record {
    store = Store.init (literal 3000 0);
    node_targets = [];
    grpc_servers = [];
    files = t.files;
  }

  -- the rest of the function, on the bootstrapped store and with the nodes started; the last two
  -- readings are the scheduler's and those of the bootstrap
  unfoldable pub wired_cluster : Start F K → Etcd F → Started F → Cluster F K
  wired_cluster t etcd st =
      let (ledger, etcd') = Ledger.init ledger_lib t.ledger_file 10 t.ledger_key etcd in
      let (scheduler, etcd'') =
        Scheduler.init lib.signing (t.clock 8) st.node_targets "scheduler-1" t.scheduler_key
          t.pqc_config t.oqs_available etcd' in
      record {
        telemetry_store = st.store;
        decision_engine = Engine.init t.static_policy;
        scheduler = scheduler;
        ledger = ledger;
        nodes = simulated_nodes t.clock;
        grpc_servers = st.grpc_servers;
        etcd = etcd'';
        files = st.files;
      }

  -- the nodes are started once the store is bootstrapped
  unfoldable pub create_simulated_cluster : Start F K → Etcd F → Option (Cluster F K)
  create_simulated_cluster t etcd =
      elim (bootstrap_supply_chain lib t.ci_key (t.clock 9) (t.clock 10) etcd) [
        | none ↦ none
        | some etcd' ↦
            Option.map (wired_cluster t etcd')
              (start_nodes t.host t.str t.clock 0 (simulated_nodes t.clock) (unstarted t))
      ]
