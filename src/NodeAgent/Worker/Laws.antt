-- ===== src/NodeAgent/Worker/Laws.antt =====
-- Idempotency, and what has to hold before a model runs.
use distributed_ai_networkin.Prelude.{
  ◌≡◌, refl, ap, ◌∙◌, subst, inl, inr, true, false, ◌||◌, none, some, arith, eq_refl, Bool-cases,
}
use distributed_ai_networkin.SupplyChain.{
  refuse, get_supply_chain_policy, ok, verify_artifact_for_execution, Result, Libraries,
}
use distributed_ai_networkin.SupplyChain.Laws.{verify-Approved, Approved}
use distributed_ai_networkin.Prelude.Dict.{get-put}
use distributed_ai_networkin.Contracts.Models.{
  ApprovedArtifactRecord, ExecutionResult, ExecutionRequest,
}
use distributed_ai_networkin.State.{Etcd}
use distributed_ai_networkin.Prelude.Floats.{Floats}
use distributed_ai_networkin.Prelude.Dict
use distributed_ai_networkin.NodeAgent.Worker.{InferenceWorker, done, executed, run_model, execute}

module _ {F : Type 0} ⦃fl : Floats F⦄ {K : Type 0} (lib : Libraries F K) where
  run_model-done :
      (start finish : F) (request : ExecutionRequest F) (w : InferenceWorker F)
      (v : Result (ApprovedArtifactRecord F)) (r : ExecutionResult F)
      → (run_model lib start finish request w v).0 ≡ done r
      → (a : ApprovedArtifactRecord F) × (v ≡ ok a)
        × (r ≡ executed start finish w.node request a.digest)
        × (Dict.get
              (run_model lib start finish request w v).1.processed_idempotency_keys
              request.idempotency_key
            ≡ some r)
  run_model-done start finish request w (ok a) r h = (
    a,
    refl,
    cc,
    get-put w.processed_idempotency_keys request.idempotency_key request.idempotency_key _
        ∙ rw (eq_refl request.idempotency_key) (cc),
  )
  run_model-done start finish request w (refuse why) r h = cc

  -- A result that is not from the cache was computed by a node that is up, from a model whose record
  -- met every condition of the supply-chain policy, and carries the approved digest; it is kept under
  -- the key of the request.
  pub execute_verified :
      (start finish : F) (request : ExecutionRequest F) (etcd : Etcd F) (w : InferenceWorker F)
      (r : ExecutionResult F)
      → Dict.get w.processed_idempotency_keys request.idempotency_key ≡ none
      → (execute lib start finish request etcd w).0 ≡ done r
      → (a : ApprovedArtifactRecord F) × Approved lib
          (get_supply_chain_policy lib etcd)
          request.model_id
          request.model_digest
          etcd
          a
        × (r ≡ executed start finish w.node request a.digest)
        × ((w.node.is_offline || w.node.fail_execution) ≡ false)
        × (Dict.get
              (execute lib start finish request etcd w).1.processed_idempotency_keys
              request.idempotency_key
            ≡ some r)
  unfolding execute
  execute_verified start finish request etcd w r new h =
      elim (Bool-cases (w.node.is_offline || w.node.fail_execution)) [
        | inl down ↦ absurd (ground arith)
        | inr up ↦
            let v = verify_artifact_for_execution lib request.model_id request.model_digest etcd in
            let h' : (run_model lib start finish request w v).0 ≡ done r =
              rw (new, execute, up) at h in
            let (a, verified, result, kept) = run_model-done start finish request w v r h' in
            (
              a,
              verify-Approved lib request.model_id request.model_digest etcd a verified,
              result,
              up,
              rw (new, execute) (rw up kept),
            )
      ]

  -- A request whose key has been answered is answered by the same result again, marked as cached,
  -- and changes nothing: whatever the store says by then of the model, and though the node be offline.
  pub execute_again :
      (start finish start' finish' : F) (request request' : ExecutionRequest F)
      (etcd etcd' : Etcd F) (w w' : InferenceWorker F) (r : ExecutionResult F)
      → Dict.get w.processed_idempotency_keys request.idempotency_key ≡ none
      → execute lib start finish request etcd w ≡ (done r, w')
      → request'.idempotency_key ≡ request.idempotency_key
      → execute lib start' finish' request' etcd' w' ≡ (done (record r { cached = true }), w')
  unfolding execute
  execute_again start finish start' finish' request request' etcd etcd' w w' r new h same =
      let v = verify_artifact_for_execution lib request.model_id request.model_digest etcd in
      let (a, _, _, _, kept) =
        execute_verified start finish request etcd w r new (ap (λ p. p.0) h) in
      let kept' : Dict.get w'.processed_idempotency_keys request.idempotency_key ≡ some r =
        subst (λ p. Dict.get p.1.processed_idempotency_keys request.idempotency_key ≡ some r) h
          kept in
      rw same (rw (kept', execute) refl)
