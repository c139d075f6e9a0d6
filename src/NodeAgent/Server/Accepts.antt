-- ===== src/NodeAgent/Server/Accepts.antt =====
-- The scheduler and the node together: an envelope of `TaskScheduler.dispatch` at `ExecuteTask`.
use distributed_ai_networkin.NodeAgent.Server.{
  result_payload, signed_reply, replied, execution_request, NodeKeys, Readings, execute_task,
  verify_envelope, ServerLibraries,
}
use distributed_ai_networkin.NodeAgent.Worker.{execute, InferenceWorker}
use distributed_ai_networkin.Security.Algorithms.{
  load, Environment, dual_required, PqcConfig, validate_signature_algorithm,
}
use distributed_ai_networkin.Security.Identity.{authorize_scheduler}
use distributed_ai_networkin.Prelude.{
  String, ◌≡◌, refl, Bool, true, false, Option, some, ◌++◌, arith, length,
}
use distributed_ai_networkin.Security.Envelope.{
  encrypt_envelope, decrypt-encrypt_envelope, master_kek, decrypt_envelope, PayloadLaws, AeadLaws,
}
use distributed_ai_networkin.Scheduler.{identity_key, TaskScheduler}
use distributed_ai_networkin.Scheduler.Attempt.{task_payload, task_envelope, DispatchLibraries}
use distributed_ai_networkin.State.{Etcd}
use distributed_ai_networkin.Contracts.Models.{TaskRequest}
use distributed_ai_networkin.Interfaces.{SigningLaws}
use distributed_ai_networkin.Prelude.Floats.{Floats, ◌<ᶠ◌}
use distributed_ai_networkin.State

module _ {F K W : Type 0} ⦃fl : Floats F⦄ (d : DispatchLibraries F K W)
    (lib : ServerLibraries F K) where
  -- Both sides use the same libraries.
  pub record SameLibraries : Type 0 where
    pub same_signing : d.signing ≡ lib.libraries.signing
    pub same_aead : d.aead ≡ lib.aead
    pub same_tasks : d.tasks ≡ lib.tasks

  module _ (sl : SigningLaws lib.libraries.signing) (al : AeadLaws lib.aead)
      (pl : PayloadLaws lib.tasks) (same : SameLibraries) where
    decrypt-task_envelope :
        (s : TaskScheduler K) (task : TaskRequest F) (node : String) (digest : Option String)
        (w : W)
        → length (d.fresh w).nonce_dek ≡ 12
        → length (d.fresh w).nonce_kek ≡ 12
        → decrypt_envelope lib.aead lib.tasks
            (task_envelope d s task node digest w).encrypted_payload
            (task_envelope d s task node digest w).encrypted_dek
            master_kek
          ≡ some (task_payload d task digest)
    unfolding task_envelope task_payload
    decrypt-task_envelope s task node digest w h k = rw same.same_aead (
        rw same.same_tasks (
          decrypt-encrypt_envelope lib.aead lib.tasks al pl (d.fresh w) (task_payload d task digest)
            master_kek h k))

    verify-task_envelope :
        (config : PqcConfig) (oqs : Bool) (s : TaskScheduler K) (task : TaskRequest F)
        (node : String) (digest : Option String) (w : W) (etcd : Etcd F)
        → State.get etcd (identity_key s.scheduler_id) ≡ some (d.signing.public_pem s.signing_key)
        → dual_required config ≡ false
        → verify_envelope lib config oqs (task_envelope d s task node digest w) etcd ≡ true
    unfolding task_envelope verify_envelope validate_signature_algorithm
    verify-task_envelope config oqs s task node digest w etcd published classical = rw published (
        rw same.same_signing (
          rw classical (
            ground (
              arith,
              sl.public_pem-ne-empty s.signing_key,
              sl.verify-sign s.signing_key (
                  (encrypt_envelope d.aead d.tasks (d.fresh w) (task_payload d task digest)
                    master_kek).0
                  ++ (encrypt_envelope d.aead d.tasks (d.fresh w) (task_payload d task digest)
                      master_kek).1),
            ))))

    leader_lease_id-task_envelope :
        (s : TaskScheduler K) (task : TaskRequest F) (node : String) (digest : Option String)
        (world : W)
        → (task_envelope d s task node digest world).leader_lease_id ≡ s.lease_id
    unfolding task_envelope
    leader_lease_id-task_envelope s task node digest world = refl

    -- The scheduler and the node agree. When the store holds the scheduler's key, the lease of the
    -- envelope is valid at the node, the envelope has not expired, one signature is enough and the
    -- nonces have twelve bytes, the node executes the request that the scheduler dispatched, with the
    -- digest that the scheduler resolved, and replies with its signed outcome.
    pub execute_task-task_envelope :
        (spiffe_id : Option String) (env : Environment) (oqs : Bool) (t : Readings F)
        (keys : NodeKeys K) (s : TaskScheduler K) (task : TaskRequest F) (node : String)
        (digest : Option String) (world : W) (etcd : Etcd F) (w : InferenceWorker F)
        → authorize_scheduler spiffe_id ≡ true
        → State.get etcd (identity_key s.scheduler_id) ≡ some (d.signing.public_pem s.signing_key)
        → dual_required (load env) ≡ false
        → ((task_envelope d s task node digest world).expires_at <ᶠ t.now) ≡ false
        → (State.is_lease_valid t.now s.lease_id etcd).0 ≡ true
        → length (d.fresh world).nonce_dek ≡ 12
        → length (d.fresh world).nonce_kek ≡ 12
        → let envelope = task_envelope d s task node digest world in
          let etcd' = (State.is_lease_valid t.now s.lease_id etcd).1 in
          let request = execution_request envelope (task_payload d task digest) in
          let (outcome, w') = execute lib.libraries t.start t.finish request etcd' w in
          execute_task lib spiffe_id env oqs t keys envelope (etcd, w) ≡ (
            replied (
                signed_reply lib
                  (load env)
                  t
                  keys
                  w.node.node_id
                  envelope
                  (result_payload lib request w.node.node_class outcome)),
            (etcd', w'),
          )
    unfolding execute_task
    execute_task-task_envelope spiffe_id env oqs t keys s task node digest world etcd w authorized
          published classical fresh leased h k =
        let verified =
          verify-task_envelope (load env) oqs s task node digest world etcd published classical in
        let decrypted = decrypt-task_envelope s task node digest world h k in
        rw authorized (
          rw verified (
            rw fresh (
              rw (leader_lease_id-task_envelope s task node digest world)
                (rw leased (rw decrypted refl)))))
