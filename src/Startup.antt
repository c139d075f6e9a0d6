-- ===== src/Startup.antt =====
-- server.py: the start of the gateway process up to the application, and `serve_control_plane` of
-- gateway/grpc_server.py. What the constructors read and generate is an argument.
use distributed_ai_networkin.Prelude.{
  String, ◌≡◌, refl, ◌⊎◌, inl, inr, Bool, true, false, ◌&&◌, not, Option, none, some, List, [], ◌∷◌,
  arith, ◌==◌, if◌then◌else◌, Bool-cases, Option-cases,
}
use distributed_ai_networkin.Security.Authority.{
  get_server_credentials-identity, CaLibraries, get_server_credentials, ServerCredentials,
  SecretFiles,
}
use distributed_ai_networkin.Prelude.Floats.{literal, Floats}
use distributed_ai_networkin.State.{Etcd}
use distributed_ai_networkin.Scheduler.{TaskScheduler}
use distributed_ai_networkin.Audit.Ledger.{TamperEvidentLedger, LedgerLibraries}
use distributed_ai_networkin.Interfaces.{Bytes, Signing}
use distributed_ai_networkin.Decision.Engine.{StaticPolicy, DecisionEngine}
use distributed_ai_networkin.Security.Algorithms.{getenv, PqcConfig, Environment}
use distributed_ai_networkin.Prelude.Text.{lower}
use distributed_ai_networkin.Telemetry.Redis.{RedisTelemetryStore}
use distributed_ai_networkin.Scheduler
use distributed_ai_networkin.Audit.Ledger
use distributed_ai_networkin.Decision.Engine

-- The keys and readings of the clock, the loaded configuration and audit_ledger.jsonl.
pub record Process (F K : Type 0) : Type 0 where
  pub now : F
  pub ledger_key : K
  pub ledger_file : Option (List String)
  pub scheduler_key : K
  pub pqc_config : PqcConfig
  pub oqs_available : Bool
  pub static_policy : StaticPolicy
  -- a key and a certificate for a new authority, and the key of the server
  pub new_authority : Bytes × Bytes
  pub server_key : Bytes
  -- whether the port 50050 can be bound
  pub binds : Bool

-- The running process; `control_plane` has the credentials of the port 50050, none if it is insecure.
pub record Server (R F K : Type 0) : Type 0 where
  pub telemetry_store : RedisTelemetryStore R F
  pub decision_engine : DecisionEngine F
  pub ledger : TamperEvidentLedger K
  pub scheduler : TaskScheduler K
  pub control_plane : Option (ServerCredentials F)
  pub etcd : Etcd F
  pub files : SecretFiles

unfoldable pub tls_enabled : Environment → Bool
tls_enabled env = lower (getenv env "ENABLE_MTLS" "true") == "true"

unfoldable pub in_production : Environment → Bool
in_production env = getenv env "APP_ENV" "production" == "production"

abbrev pub gateway_id : String
gateway_id = "spiffe://distributed-ai.local/gateway/master"

-- How a start ends: with the ValueError of the module itself, with an exception of what it calls, or
-- with a running process.
pub data Outcome (R F K : Type 0) : Type 0 where
  refused : Outcome R F K
  failed : Outcome R F K
  started : Server R F K → Outcome R F K

module _ {F : Type 0} where
  -- with credentials, if they were made
  abbrev bound_secure : Bool → Option (ServerCredentials F) → Option (Option (ServerCredentials F))
  bound_secure binds none = none
  bound_secure binds (some creds) = if binds then some (some creds) else none

module _ {F K : Type 0} ⦃fl : Floats F⦄ (ca : CaLibraries) where
  -- `get_server_credentials` as the process calls it
  abbrev pub credentials : Process F K → SecretFiles → Option (ServerCredentials F) × SecretFiles
  credentials p files =
      get_server_credentials ca p.now p.new_authority p.server_key gateway_id files

  -- the credentials of the server that it starts, if any; `none` is an exception
  unfoldable pub serve_control_plane :
      Process F K → Bool → SecretFiles → Option (Option (ServerCredentials F)) × SecretFiles
  serve_control_plane p use_tls files =
      let (creds, files') = credentials p files in
      if use_tls
      then (bound_secure p.binds creds, files')
      else (if p.binds then some none else none, files)

module _ {R F K : Type 0} ⦃fl : Floats F⦄ (signing : Signing K) (ledger_lib : LedgerLibraries F K)
    (ca : CaLibraries) where
  -- the process with the credentials of its control plane
  unfoldable pub started_server :
      Process F K → R → Etcd F → SecretFiles → Option (ServerCredentials F) → Server R F K
  started_server p redis etcd files creds =
      let (ledger, etcd') = Ledger.init ledger_lib p.ledger_file 10 p.ledger_key etcd in
      let (scheduler, etcd'') =
        Scheduler.init signing p.now [] "scheduler-1" p.scheduler_key p.pqc_config p.oqs_available
          etcd' in
      record {
        telemetry_store = record { redis = redis; staleness_threshold_ms = literal 3000 0 };
        decision_engine = Engine.init p.static_policy;
        ledger = ledger;
        scheduler = scheduler;
        control_plane = creds;
        etcd = etcd'';
        files = files;
      }

  abbrev outcome :
      Process F K → R → Etcd F → Option (Option (ServerCredentials F)) × SecretFiles → Outcome R F K
  outcome p redis etcd (none, files) = failed
  outcome p redis etcd (some creds, files) = started (started_server p redis etcd files creds)

  -- after the test of the environment
  abbrev after_test : Bool → Process F K → Option R → Etcd F → SecretFiles → Outcome R F K
  after_test use_tls p none etcd files = failed
  after_test use_tls p (some redis) etcd files =
      outcome p redis etcd (serve_control_plane ca p use_tls files)

  -- `redis` is what `redis.from_url` gives of REDIS_URL
  unfoldable pub start_server :
      Environment → Process F K → Option R → Etcd F → SecretFiles → Outcome R F K
  start_server env p redis etcd files =
      if not (tls_enabled env) && in_production env
      then refused
      else after_test (tls_enabled env) p redis etcd files

  -- The port demands a certificate of the client and shows that of the gateway.
  abbrev pub IsSecured : Server R F K → Type 0
  IsSecured s =
      (c : ServerCredentials F) × (s.control_plane ≡ some c)
      × (c.require_client_auth ≡ true)
      × (c.svid.certificate.uris ≡ gateway_id ∷ [])
      × (ca.subject_of c.root_certificates ≡ some c.svid.certificate.issuer)

  -- What the process calls raises: the URL of Redis is not one, the port cannot be bound, or the
  -- credentials cannot be made.
  abbrev pub CannotStart : Bool → Process F K → Option R → SecretFiles → Type 0
  CannotStart use_tls p redis files =
      (redis ≡ none)
      ⊎ ((p.binds ≡ false) ⊎ ((use_tls ≡ true) × ((credentials ca p files).0 ≡ none)))

  after_test_lem :
      (use_tls : Bool) (p : Process F K) (redis : Option R) (etcd : Etcd F) (files : SecretFiles)
      → ((after_test use_tls p redis etcd files ≡ failed) × CannotStart use_tls p redis files)
        ⊎ ((s : Server R F K) × (after_test use_tls p redis etcd files ≡ started s)
            × (IsSecured s ⊎ (use_tls ≡ false)))
  unfolding serve_control_plane started_server
  after_test_lem use_tls p none etcd files = inl (refl, inl refl)
  after_test_lem false p (some redis) etcd files = elim (Bool-cases p.binds) [
    | inl e ↦ inr (started_server p redis etcd files none, rw e refl, inr refl)
    | inr e ↦ inl (rw e refl, inr (inl e))
  ]
  after_test_lem true p (some redis) etcd files = elim (Option-cases (credentials ca p files).0) [
    | inl e ↦ inl (rw e refl, inr (inr (refl, e)))
    | inr (c, e) ↦ elim (Bool-cases p.binds) [
      | inl b ↦ inr (
        started_server p redis etcd (credentials ca p files).1 (some c),
        rw (e, b) refl,
        inl (
          c,
          refl,
          (get_server_credentials-identity ca p.now p.new_authority p.server_key gateway_id files c
              e).0,
          (get_server_credentials-identity ca p.now p.new_authority p.server_key gateway_id files c
              e).1,
          (get_server_credentials-identity ca p.now p.new_authority p.server_key gateway_id files c
              e).2,
        ),
      )
      | inr b ↦ inl (rw (e, b) refl, inr (inl b))
    ]
  ]

  -- The process refuses to start exactly if it is in production, which it is unless APP_ENV names another environment, and ENABLE_MTLS is not "true" in some case; otherwise it starts, unless the URL of Redis is not one, the port cannot be bound or the credentials cannot be made; and when it starts its control plane demands certificates of its clients, issued by the authority that it trusts, and shows the gateway's own, unless it is outside production.
  pub start_server_lem :
      (env : Environment) (p : Process F K) (redis : Option R) (etcd : Etcd F) (files : SecretFiles)
      → ((in_production env ≡ true)
          × (tls_enabled env ≡ false)
          × (start_server env p redis etcd files ≡ refused))
        ⊎ (((start_server env p redis etcd files ≡ failed)
              × CannotStart (tls_enabled env) p redis files)
            ⊎ ((s : Server R F K) × (start_server env p redis etcd files ≡ started s)
                × (IsSecured s ⊎ ((in_production env ≡ false) × (tls_enabled env ≡ false)))))
  unfolding start_server
  start_server_lem env p redis etcd files =
      elim (Bool-cases (not (tls_enabled env) && in_production env)) [
        | inl e ↦ inl (ground (arith, e), ground (arith, e), rw e refl)
        | inr e ↦ elim (after_test_lem (tls_enabled env) p redis etcd files) [
          | inl (f, why) ↦ inr (inl (rw e f, why))
          | inr (s, is_started, how) ↦ elim how [
            | inl secured ↦ inr (inr (s, rw e is_started, inl secured))
            | inr off ↦ inr (inr (s, rw e is_started, inr (ground (arith, e, off), off)))
          ]
        ]
      ]
