-- ===== src/Lib.antt =====
-- A verification of the orchestrator of AI workloads over edge and cloud nodes: a gateway takes
-- inference tasks, a decision engine places each on a node, a scheduler dispatches it along a chain
-- of candidates, nodes verify the model and execute, and an audit ledger records the outcome.
--
-- The parts, by file of the repository:
--
--   common/state.py                  State: the shared store of keys and leases. Every operation takes
--                                    the store, and the time where the code reads the clock.
--   contracts/*.py, *.proto          Contracts: records and enums with the field bounds of pydantic;
--                                    Errors, the exceptions of common/errors.py; Uuid, the
--                                    identifiers of tasks.
--   telemetry/{store,validator,replay_state,redis_store}.py
--                                    Telemetry: snapshots of nodes, cross validation, replay protection,
--                                    and Redis, the store over a Redis server.
--   decision_engine/*.py             Decision: Filter (hard constraints), Normalizer, Scorer (the
--                                    ranking) and Engine (evaluate_placement, hysteresis, averages); Loading, the
--                                    loaders of profiles and static routes in common/config.py.
--   common/supply_chain.py           SupplyChain: registration, revocation, verify_artifact_for_execution.
--   common/{crypto,config,identity,authorization,tls}.py
--                                    Security: algorithm allowlists, envelopes, SPIFFE identities, and
--                                    Authority, the certificates and credentials.
--   scheduler/dispatcher.py          Scheduler: init is __init__, Chain the list of candidates, Attempt
--                                    one turn of the loop of dispatch, Dispatch the method.
--   node_agent/{node,worker,grpc_server,grpc_client}.py
--                                    NodeAgent: Node, Worker (execute), Server (ExecuteTask), Streamer
--                                    (the telemetry client; Client is its thread as a step relation).
--   results_aggregator/*.py, tools/verify_audit.py
--                                    Audit: Ledger, Aggregator, and Verify, the offline check.
--   gateway/{app,grpc_server}.py     Gateway: App (submit_inference_task), Endpoints (the others),
--                                    ControlPlane (RegisterNode, StreamTelemetry), and Ingest, where the
--                                    streamer of a node meets the control plane.
--   common/cluster.py                Cluster: Bootstrap (models and policy) and Simulated (the nodes, their
--                                    servers and the wiring).
--   server.py                        Startup: the start of the gateway's process.
--   tools/verify_supply_chain.py, tools/generate_sbom.py
--                                    Tools: Inspect and Sbom.
--
-- Parameters. Floating-point numbers are a type with operations (Prelude.Floats); only theorems on
-- orders and ranges take laws of them. Signatures, hexadecimal text, JSON, the AEAD, SHA-256, the
-- workers behind gRPC, the Redis server, clocks and random bytes are records of operations, with
-- their documented behaviour in records of laws (Interfaces, Security.Envelope, Audit.Ledger.Chain,
-- Audit.Verify.Written, Telemetry.Redis.Calls, Security.Authority, Gateway.Ingest). Where a library
-- may refuse its input (pydantic, JSON, `cryptography`, a port that is taken) the model has an
-- outcome for the exception, and a theorem that needs success says what has to hold. Counters are
-- unbounded as in Python. All loops are structural recursion on the lists that the code walks, so
-- no fuel is needed, but for the digits of a number in Uuid, whose fuel is the number; the endless
-- loop of the telemetry client is a relation between its states. Methods that hold a lock are
-- single steps; a run of the store is a list of calls (State.Ops).
--
-- Not modelled: logging, tracing and metrics, the encoding of certificates, the parsing of YAML,
-- the start of the node agent's process (node_agent/main.py) and of uvicorn, the reading and
-- writing of files by the tools, the demos, and the generated protocol code. The telemetry client's
-- sequence number is unbounded, its message field has 63 bits.
pub mod Prelude
pub mod Contracts
pub mod Interfaces
pub mod State
pub mod Telemetry
pub mod Decision
pub mod SupplyChain
pub mod Security
pub mod Scheduler
pub mod NodeAgent
pub mod Audit
pub mod Gateway
pub mod Cluster
pub mod Startup
pub mod Tools
pub mod Tests
