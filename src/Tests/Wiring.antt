-- ===== src/Tests/Wiring.antt =====
-- The simulated cluster and the change of weights at concrete inputs.
use distributed_ai_networkin.Contracts.Models.{accepts_snapshot, SlaClass, interactive}
use distributed_ai_networkin.NodeAgent.Node.{snapshot_values}
use distributed_ai_networkin.Cluster.Simulated.{
  simulated_nodes, Start, create_simulated_cluster, Cluster,
}
use distributed_ai_networkin.Cluster.Simulated.Reachable.{
  HasAuthority, AllCanStart, create_simulated_cluster-AllServed, reach, AllServed,
}
use distributed_ai_networkin.Security.Authority.{get_or_create_shared_ca, SecretFiles}
use distributed_ai_networkin.Prelude.{
  ℕ, zero, suc, ◌+◌, ◌*◌, String, ◌≡◌, refl, ◌⊎◌, true, false, ◌&&◌, Option, none, some, [], ◌∷◌,
  ◌==◌, if◌then◌else◌,
}
use distributed_ai_networkin.Startup.{
  CannotStart, start_server_lem, IsSecured, Server, start_server, tls_enabled, Process,
  in_production,
}
use distributed_ai_networkin.Tests.Handover.{authority}
use distributed_ai_networkin.Startup
use distributed_ai_networkin.Tests.Instances.{signing, micros}
use distributed_ai_networkin.Security.Algorithms.{Environment}
use distributed_ai_networkin.Contracts.Weights.{
  same_class, SlaWeights, get_sla_weights, accepts_weights,
}
use distributed_ai_networkin.Gateway.Endpoints.{
  update_sla_weights_lem, is_granted, update_sla_weights,
}
use distributed_ai_networkin.Gateway.App.{verify_gateway_token}
use distributed_ai_networkin.Tests.Placement.{engine, static_policy}
use distributed_ai_networkin.Tests.Clusters.{policies, pickled_laws, pickled}
use distributed_ai_networkin.Tests.Pickles.{codec_laws}
use distributed_ai_networkin.Tests.Log.{ledger_libraries}
use distributed_ai_networkin.Tests.Stores.{classical}
use distributed_ai_networkin.Prelude.Dict
use distributed_ai_networkin.State

-- a number as a text of as many letters
abbrev tally : ℕ → String
tally zero = ""
tally (suc n) = String.◌∷◌ "a" (tally n)

abbrev no_files : SecretFiles
no_files = record { key_file = none; cert_file = none }

abbrev cluster_start : Start ℕ ℕ
cluster_start = record {
  clock = λ n. (n + 1) * 1000000;
  str = tally;
  ci_key = 1;
  ledger_key = 2;
  scheduler_key = 3;
  pqc_config = classical;
  oqs_available = false;
  static_policy = static_policy;
  ledger_file = none;
  files = no_files;
  host = record {
    ca = authority;
    new_authority = λ i. (i ∷ [], (i + 1) ∷ []);
    server_key = λ i. i ∷ [];
    binds = λ port. true;
    served_at = λ i. (i + 20) * 1000000;
  };
}

host_authority : HasAuthority tally cluster_start.clock cluster_start.host 0 cluster_start.files
unfolding get_or_create_shared_ca
host_authority = record { subject = "ca"; key_loads = refl; cert_loads = refl; belongs = refl }

simulated_nodes-AllCanStart :
    AllCanStart tally cluster_start.clock cluster_start.host 0 (simulated_nodes cluster_start.clock)
unfolding AllCanStart simulated_nodes snapshot_values accepts_snapshot micros
simulated_nodes-AllCanStart = (
  record { binds = refl; named = refl; emits = refl },
  (
    record { binds = refl; named = refl; emits = refl },
    (
      record { binds = refl; named = refl; emits = refl },
      (record { binds = refl; named = refl; emits = refl }, tt),
    ),
  ),
)

create_simulated_cluster-AllServed_example :
    (c : Cluster ℕ ℕ) × (create_simulated_cluster pickled ledger_libraries cluster_start State.empty
      ≡ some c)
    × (Dict.keys c.nodes
        ≡ "edge-frankfurt-1" ∷ "edge-london-1" ∷ "cloud-aws-eu-central" ∷ "cloud-aws-us-east" ∷ [])
    × AllServed tally cluster_start.clock
        (reach pickled ledger_libraries pickled_laws (codec_laws policies) c)
        0
        c.nodes
create_simulated_cluster-AllServed_example =
    create_simulated_cluster-AllServed pickled ledger_libraries pickled_laws (codec_laws policies)
      cluster_start State.empty host_authority simulated_nodes-AllCanStart

abbrev weights : SlaWeights ℕ
weights = record {
  w_lat = 200000;
  w_bw = 200000;
  w_cmp = 200000;
  w_queue = 200000;
  w_cost = 200000;
}

abbrev expected : Option String
expected = some "token"

update_sla_weights_lem_example :
    let e' = (update_sla_weights expected "token" interactive weights engine).1 in
    let ok = is_granted (verify_gateway_token expected "token") && accepts_weights weights in
    ((d : SlaClass)
      → get_sla_weights d e'.custom_sla_profiles ≡ (
          if ok && same_class interactive d
          then weights
          else get_sla_weights d engine.custom_sla_profiles))
    × (((ok ≡ true) × (expected ≡ some "token") × (("token" == "") ≡ false)) ⊎ (e' ≡ engine))
update_sla_weights_lem_example = update_sla_weights_lem expected "token" interactive weights engine

abbrev process : Process ℕ ℕ
process = record {
  now = 1000000;
  ledger_key = 2;
  ledger_file = none;
  scheduler_key = 3;
  pqc_config = classical;
  oqs_available = false;
  static_policy = static_policy;
  new_authority = (1 ∷ [], 2 ∷ []);
  server_key = 3 ∷ [];
  binds = true;
}

-- mutual TLS is switched off, and nothing says that it is no production
abbrev without_mtls : Environment
without_mtls key = if key == "ENABLE_MTLS" then some "False" else none

-- the state of a server of Redis
abbrev redis : Option ℕ
redis = some 7

start_server_lem_example :
    let out =
      start_server signing ledger_libraries authority without_mtls process redis State.empty
        no_files in
    ((in_production without_mtls ≡ true)
      × (tls_enabled without_mtls ≡ false)
      × (out ≡ Startup.refused))
    ⊎ (((out ≡ Startup.failed)
          × CannotStart signing ledger_libraries authority
              (tls_enabled without_mtls)
              process
              redis
              no_files)
        ⊎ ((s : Server ℕ ℕ ℕ) × (out ≡ Startup.started s)
            × (IsSecured signing ledger_libraries authority s
                ⊎ ((in_production without_mtls ≡ false) × (tls_enabled without_mtls ≡ false)))))
start_server_lem_example =
    start_server_lem signing ledger_libraries authority without_mtls process redis State.empty
      no_files
