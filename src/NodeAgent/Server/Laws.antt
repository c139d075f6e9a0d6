-- ===== src/NodeAgent/Server/Laws.antt =====
-- `ExecuteTask`: which envelopes are executed, and that those of the scheduler are.
use distributed_ai_networkin.Security.Envelope.{master_kek, decrypt_envelope}
use distributed_ai_networkin.Security.Algorithms.{load, Environment}
use distributed_ai_networkin.NodeAgent.Server.{
  verify_envelope, NodeKeys, Readings, execute_task, replied, ServerLibraries, aborted, Reply,
}
use distributed_ai_networkin.Security.Identity.{authorize_scheduler}
use distributed_ai_networkin.NodeAgent.Worker.{InferenceWorker}
use distributed_ai_networkin.State.{Etcd}
use distributed_ai_networkin.Contracts.Messages.{SignedTaskEnvelope}
use distributed_ai_networkin.Prelude.Floats.{Floats, ◌<ᶠ◌}
use distributed_ai_networkin.Prelude.{
  String, ◌≡◌, ◌⊎◌, inl, inr, Bool, true, false, ◌&&◌, not, Option, arith, Option-cases, is_some,
}
use distributed_ai_networkin.State

abbrev pub is_replied : {F : Type 0} → Reply F → Bool
is_replied (aborted why) = false
is_replied (replied r) = true

module _ {F K : Type 0} ⦃fl : Floats F⦄ (lib : ServerLibraries F K) where
  -- A node replies exactly if the caller is the scheduler, the envelope is signed as the
  -- configuration requires under the key that the store holds for its sender, it has not expired,
  -- its lease is valid, and its payload can be decrypted. Otherwise the call is aborted, and the
  -- worker has executed nothing and is as it was.
  pub execute_task_lem :
      (spiffe_id : Option String) (env : Environment) (oqs : Bool) (t : Readings F)
      (keys : NodeKeys K) (envelope : SignedTaskEnvelope F) (etcd : Etcd F) (w : InferenceWorker F)
      → let (reply, (etcd', w')) = execute_task lib spiffe_id env oqs t keys envelope (etcd, w) in
        (is_replied reply ≡ (
          authorize_scheduler spiffe_id
          && verify_envelope lib (load env) oqs envelope etcd
          && not (envelope.expires_at <ᶠ t.now)
          && (State.is_lease_valid t.now envelope.leader_lease_id etcd).0
          && is_some (
              decrypt_envelope lib.aead lib.tasks envelope.encrypted_payload envelope.encrypted_dek
                master_kek)))
        × ((is_replied reply ≡ true) ⊎ (w' ≡ w))
  unfolding execute_task
  execute_task_lem spiffe_id env oqs t keys envelope etcd w =
      elim (Option-cases (
        decrypt_envelope lib.aead lib.tasks envelope.encrypted_payload envelope.encrypted_dek
          master_kek)) [ inl e ↦ rw e (ground arith) | inr (p, e) ↦ rw e (ground arith) ]
