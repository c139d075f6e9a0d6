-- ===== src/Cluster/Simulated/Reachable.antt =====
-- The scheduler of the simulated cluster reaches every node at the port where its server listens.
use distributed_ai_networkin.Prelude.{
  ℕ, ◌+◌, ◌<◌, String, ◌≡◌, refl, ap, ◌∙◌, true, false, Option, none, some, List, [], ◌∷◌, ◌++◌,
  arith, ◌==◌, eq_refl, eqb, if◌then◌else◌, contains, All, All-append, All-map, Distinct,
}
use distributed_ai_networkin.Cluster.Bootstrap.Verified.{
  bootstrap_supply_chain-store, bootstrapped_store,
}
use distributed_ai_networkin.Prelude.Floats.{Floats}
use distributed_ai_networkin.State.{Etcd}
use distributed_ai_networkin.Cluster.Bootstrap.{bootstrap_supply_chain}
use distributed_ai_networkin.Security.Authority.{
  SecretFiles, ServerCredentials, get_or_create_shared_ca, shared_ca_again,
  get_server_credentials-IsUsable, IsUsable,
}
use distributed_ai_networkin.NodeAgent.Streamer.{spiffe_of}
use distributed_ai_networkin.Contracts.Models.{accepts_snapshot}
use distributed_ai_networkin.Cluster.Simulated.{
  Host, started_with, fresh_worker, unstarted, Start, simulated_nodes, Cluster, wired_cluster,
  create_simulated_cluster, serve, start_nodes, Started, base_port, start_node, ExecutionServer,
}
use distributed_ai_networkin.Interfaces.{CodecLaws}
use distributed_ai_networkin.SupplyChain.Lifecycle.{LibraryLaws}
use distributed_ai_networkin.Audit.Ledger.{LedgerLibraries}
use distributed_ai_networkin.SupplyChain.{Libraries}
use distributed_ai_networkin.Scheduler
use distributed_ai_networkin.Prelude.Dict.{get-put, Dict}
use distributed_ai_networkin.NodeAgent.Node.{emit_snapshot, snapshot_values, SimulatedNode}
use distributed_ai_networkin.NodeAgent.Worker.{InferenceWorker}
use distributed_ai_networkin.Prelude.Dict
use distributed_ai_networkin.Telemetry.Store
use Prim.Native.String.{◌++◌ as ◌&◌}

module _ {F : Type 0} where
  -- the worker of the first server that listens at a port
  unfoldable pub worker_at : ℕ → List (ExecutionServer F) → Option (InferenceWorker F)
  worker_at port [] = none
  worker_at port (s ∷ servers) = if eqb s.port port then some s.worker else worker_at port servers

  -- No server listens at a port from the `n`-th on.
  abbrev Below : ℕ → List (ExecutionServer F) → Type 0
  Below n = All (λ s. s.port < base_port + n)

  worker_at-append :
      (port : ℕ) (servers more : List (ExecutionServer F))
      → worker_at port (servers ++ more)
        ≡ elim (worker_at port servers) [ none ↦ worker_at port more | some w ↦ some w ]
  unfolding worker_at
  worker_at-append port [] more = refl
  worker_at-append port (s ∷ servers) more = ground (arith, worker_at-append port servers more)

  worker_at-Below :
      (n : ℕ) (servers : List (ExecutionServer F))
      → Below n servers
      → worker_at (base_port + n) servers ≡ none
  unfolding worker_at
  worker_at-Below n [] h = refl
  worker_at-Below n (s ∷ servers) h = ground (arith, h.0, worker_at-Below n servers h.1)

module _ {F : Type 0} ⦃fl : Floats F⦄ (str : ℕ → String) (clock : ℕ → F) where
  -- A node is known to the scheduler under its own port, its server listens there, and its snapshot
  -- is stored.
  pub record IsServed (st : Started F) (i : ℕ) (node_id : String) (node : SimulatedNode F)
      : Type 0 where
    pub target : Dict.get st.node_targets node_id ≡ some ("localhost:" & str (base_port + i))
    pub server :
        worker_at (base_port + i) st.grpc_servers
        ≡ some (record { node = node; processed_idempotency_keys = [] })
    pub snapshot :
        Store.get_snapshot st.store node_id ≡ some (snapshot_values (clock (i + 4)) none node)

  -- every node of a list, counted from `i`
  unfoldable pub AllServed : Started F → ℕ → Dict (SimulatedNode F) → Type 0
  AllServed st i [] = Unit
  AllServed st i ((node_id, node) ∷ rest) = IsServed st i node_id node × AllServed st (i + 1) rest

  -- each node stands under its own name
  abbrev Named : Dict (SimulatedNode F) → Type 0
  Named = All (λ e. e.1.node_id ≡ e.0)

  -- the server of the i-th node, and the state with it
  abbrev server_of : ServerCredentials F → ℕ → SimulatedNode F → ExecutionServer F
  server_of c i node = record { credentials = c; port = base_port + i; worker = fresh_worker node }

  abbrev next_state :
      ServerCredentials F → SecretFiles → ℕ → String → SimulatedNode F → Started F → Started F
  next_state c files i node_id node st =
      started_with str i node_id (server_of c i node, files)
        (snapshot_values (clock (i + 4)) none node) st

  next_state-Below :
      (c : ServerCredentials F) (files : SecretFiles) (i : ℕ) (node_id : String)
      (node : SimulatedNode F) (st : Started F)
      → Below i st.grpc_servers
      → Below (i + 1) (next_state c files i node_id node st).grpc_servers
  unfolding started_with
  next_state-Below c files i node_id node st below =
      All-append (λ s. s.port < base_port + (i + 1)) st.grpc_servers (server_of c i node ∷ [])
        (All-map (λ s h. omega (arith, h)) st.grpc_servers below) (omega arith, tt)

  next_state-IsServed :
      (c : ServerCredentials F) (files : SecretFiles) (i : ℕ) (node_id : String)
      (node : SimulatedNode F) (st : Started F)
      → node.node_id ≡ node_id
      → Below i st.grpc_servers
      → IsServed (next_state c files i node_id node st) i node_id node
  unfolding started_with Store.record_snapshot Store.get_snapshot snapshot_values worker_at
  next_state-IsServed c files i node_id node st mine below = record {
    target =
        get-put st.node_targets node_id node_id ("localhost:" & str (base_port + i))
        ∙ rw (eq_refl node_id) refl;
    server =
        worker_at-append (base_port + i) st.grpc_servers (server_of c i node ∷ [])
        ∙ ground (arith, worker_at-Below i st.grpc_servers below);
    snapshot =
        get-put st.store.snapshots node.node_id node_id (snapshot_values (clock (i + 4)) none node)
        ∙ rw mine (rw (eq_refl node_id) refl);
  }

  -- the start of another node changes nothing for one that is served
  next_state-kept :
      (c : ServerCredentials F) (files : SecretFiles) (i j : ℕ) (id other : String)
      (node node' : SimulatedNode F) (st : Started F)
      → node'.node_id ≡ other
      → (other == id) ≡ false
      → IsServed st i id node
      → IsServed (next_state c files j other node' st) i id node
  unfolding started_with Store.record_snapshot Store.get_snapshot snapshot_values
  next_state-kept c files i j id other node node' st mine differ h = record {
    target =
        get-put st.node_targets other id ("localhost:" & str (base_port + j)) ∙ rw differ h.target;
    server =
        worker_at-append (base_port + i) st.grpc_servers (server_of c j node' ∷ [])
        ∙ ground (arith, h.server);
    snapshot =
        get-put st.store.snapshots node'.node_id id (snapshot_values (clock (j + 4)) none node')
        ∙ rw mine (rw differ h.snapshot);
  }

  module _ (h : Host F) where
    -- Nothing that the start of a node calls raises: its port can be bound, its name be certified, and
    -- its snapshot is within the bounds of the model.
    pub record CanStart (i : ℕ) (node : SimulatedNode F) : Type 0 where
      pub binds : h.binds (base_port + i) ≡ true
      pub named : h.ca.accepts_name (spiffe_of node.node_id) ≡ true
      pub emits : accepts_snapshot (snapshot_values (clock (i + 4)) none node) ≡ true

    unfoldable pub AllCanStart : ℕ → Dict (SimulatedNode F) → Type 0
    AllCanStart i [] = Unit
    AllCanStart i ((node_id, node) ∷ rest) = CanStart i node × AllCanStart (i + 1) rest

    -- The authority that the i-th start finds or makes is usable.
    abbrev pub HasAuthority : ℕ → SecretFiles → Type 0
    HasAuthority i files = IsUsable h.ca (get_or_create_shared_ca (h.new_authority i) files).0

    abbrev files_after : ℕ → SecretFiles → SecretFiles
    files_after i files = (get_or_create_shared_ca (h.new_authority i) files).1

    next-HasAuthority :
        (i : ℕ) (files : SecretFiles)
        → HasAuthority i files
        → HasAuthority (i + 1) (files_after i files)
    next-HasAuthority i files usable =
        rw (shared_ca_again (h.new_authority i) (h.new_authority (i + 1)) files) usable

    serve-some :
        (i : ℕ) (node : SimulatedNode F) (files : SecretFiles)
        → CanStart i node
        → HasAuthority i files
        → (c : ServerCredentials F) × (serve h i (fresh_worker node) (base_port + i) files
            ≡ some (server_of c i node, files_after i files))
    unfolding serve
    serve-some i node files can usable =
        let (c, made) =
          get_server_credentials-IsUsable h.ca (h.served_at i) (h.new_authority i) (h.server_key i)
            (spiffe_of node.node_id) files usable can.named in
        (c, rw (serve, made, can.binds) (ap (λ x. some (server_of c i node, x.1)) made))

    emit_snapshot-some :
        (i : ℕ) (node : SimulatedNode F)
        → CanStart i node
        → emit_snapshot (clock (i + 4)) none node ≡ some (snapshot_values (clock (i + 4)) none node)
    unfolding emit_snapshot
    emit_snapshot-some i node can = rw can.emits refl

    start_node-some :
        (i : ℕ) (node_id : String) (node : SimulatedNode F) (st : Started F)
        → CanStart i node
        → HasAuthority i st.files
        → (c : ServerCredentials F) × (start_node h str (clock (i + 4)) i node_id node st
            ≡ some (next_state c (files_after i st.files) i node_id node st))
    unfolding start_node
    start_node-some i node_id node st can usable =
        let (c, served) = serve-some i node st.files can usable in
        (c, rw (start_node, served, emit_snapshot-some i node can) refl)

    -- The nodes of a list are started, each is served, and so are those that were.
    pub start_nodes-AllServed :
        (i : ℕ) (nodes : Dict (SimulatedNode F)) (st : Started F)
        → Named nodes
        → Distinct (Dict.keys nodes)
        → Below i st.grpc_servers
        → AllCanStart i nodes
        → HasAuthority i st.files
        → (st' : Started F) × (start_nodes h str clock i nodes st ≡ some st')
          × AllServed st' i nodes
          × ((j : ℕ) (id : String) (node : SimulatedNode F)
              → contains id (Dict.keys nodes) ≡ false
              → IsServed st j id node
              → IsServed st' j id node)
    unfolding start_nodes AllServed AllCanStart started_with
    start_nodes-AllServed i [] st named distinct below can usable =
        (st, refl, tt, λ j id node absent served. served)
    start_nodes-AllServed i ((id, node) ∷ rest) st named distinct below can usable =
        let (c, first) = start_node-some i id node st can.0 usable in
        let files = files_after i st.files in
        let st1 = next_state c files i id node st in
        let (st', later, all, kept) =
          start_nodes-AllServed (i + 1) rest st1 named.1 distinct.1
            (next_state-Below c files i id node st below) can.1
            (next-HasAuthority i st.files usable) in
        (
          st',
          rw (start_nodes, first) later,
          (kept i id node distinct.0 (next_state-IsServed c files i id node st named.0 below), all),
          λ j other node' absent served. kept j other node' (ground (arith, absent)) (
              next_state-kept c files j i other id node' node st named.0 (ground (arith, absent))
                served),
        )

module _ {F K : Type 0} ⦃fl : Floats F⦄ (lib : Libraries F K) (ledger_lib : LedgerLibraries F K)
    (laws : LibraryLaws lib) (policies : CodecLaws lib.policies) where
  -- what a cluster offers for reaching its nodes
  abbrev pub reach : Cluster F K → Started F
  reach c = record {
    store = c.telemetry_store;
    node_targets = c.scheduler.node_targets;
    grpc_servers = c.grpc_servers;
    files = c.files;
  }

  create_simulated_cluster-some :
      (t : Start F K) (etcd etcd' : Etcd F) (st : Started F)
      → bootstrap_supply_chain lib t.ci_key (t.clock 9) (t.clock 10) etcd ≡ some etcd'
      → start_nodes t.host t.str t.clock 0 (simulated_nodes t.clock) (unstarted lib ledger_lib t)
        ≡ some st
      → create_simulated_cluster lib ledger_lib t etcd
        ≡ some (wired_cluster lib ledger_lib t etcd' st)
  unfolding create_simulated_cluster
  create_simulated_cluster-some t etcd etcd' st booted started =
      rw (create_simulated_cluster, booted, started) refl

  -- Where the authority is usable, every port can be bound, the names of the nodes can be certified and their snapshots are within the bounds of the model, a simulated cluster is made on any store, and each of its four nodes is then reachable: the scheduler has the target of its own port, the server that listens there runs a fresh worker of that node, and the telemetry store has the snapshot that the node emitted.
  pub create_simulated_cluster-AllServed :
      (t : Start F K) (etcd : Etcd F)
      → HasAuthority t.str t.clock t.host 0 t.files
      → AllCanStart t.str t.clock t.host 0 (simulated_nodes t.clock)
      → (c : Cluster F K) × (create_simulated_cluster lib ledger_lib t etcd ≡ some c)
        × (Dict.keys c.nodes
            ≡ "edge-frankfurt-1" ∷ "edge-london-1" ∷ "cloud-aws-eu-central" ∷ "cloud-aws-us-east"
              ∷ [])
        × AllServed t.str t.clock (reach c) 0 c.nodes
  unfolding wired_cluster simulated_nodes Scheduler.init
  create_simulated_cluster-AllServed t etcd usable can =
      let etcd' = bootstrapped_store lib laws policies t.ci_key (t.clock 9) (t.clock 10) etcd in
      let (st, started, all, kept) =
        start_nodes-AllServed t.str t.clock t.host 0 (simulated_nodes t.clock)
          (unstarted lib ledger_lib t) (refl, (refl, (refl, (refl, tt))))
          (refl, (refl, (refl, (refl, tt)))) tt can usable in
      (
        wired_cluster lib ledger_lib t etcd' st,
        create_simulated_cluster-some t etcd etcd' st
            (bootstrap_supply_chain-store lib laws policies t.ci_key (t.clock 9) (t.clock 10) etcd)
            started,
        refl,
        all,
      )
