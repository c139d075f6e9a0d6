-- ===== src/Scheduler/Dispatch/Returns.antt =====
-- `TaskScheduler.dispatch`: what a call that returns guarantees.
use distributed_ai_networkin.Prelude.{
  ℕ, ◌≤◌, String, ◌≡◌, ap, inl, inr, Bool, true, false, ◌||◌, Option, none, some, List, arith, ◌==◌,
  ltb, Option-cases, or_default, length,
}
use distributed_ai_networkin.Scheduler.Dispatch.Laws.{
  here, later, dispatch_lem, Succeeds-bounds, Explained, leads, Succeeds,
}
use distributed_ai_networkin.Scheduler.Dispatch.{
  not_leader, fallback_exhausted, completed, Dispatched, dispatch,
}
use distributed_ai_networkin.Scheduler.Chain.{candidate_chain}
use distributed_ai_networkin.Scheduler.Attempt.{
  resolve_digest, task_envelope, output_of, build_result, call_worker, attempt, read_reply,
  read_payload, DispatchLibraries,
}
use distributed_ai_networkin.Security.Envelope.{master_kek, decrypt_envelope}
use distributed_ai_networkin.Contracts.Json.{Fields}
use distributed_ai_networkin.Prelude.Floats.{literal, Floats}
use distributed_ai_networkin.Scheduler.{get_stub, TaskScheduler}
use distributed_ai_networkin.Contracts.Models.{
  node_class_of, NodeClass, success, ExecutionResult, ExecutionStatus, PlacementDecision, status_of,
  TaskRequest,
}
use distributed_ai_networkin.Contracts.Messages.{ResultPayload, SignedResultEnvelope}
use distributed_ai_networkin.State.{Etcd}

module _ {F K W : Type 0} ⦃fl : Floats F⦄ (lib : DispatchLibraries F K W)
    (task : TaskRequest F) where
  status-success :
      (raw : String) (status : ExecutionStatus)
      → ((raw == "failed") || (raw == "rejected")) ≡ false
      → status_of raw ≡ some status
      → status ≡ success
  unfolding status_of
  status-success raw status h e = ground arith

  build_result-status :
      (reply : SignedResultEnvelope F) (p : ResultPayload F) (digest : Option String)
      (class : Option NodeClass) (status : Option ExecutionStatus)
      (output : Option (Option (Fields F))) (r : ExecutionResult F)
      → build_result lib reply p digest class status output ≡ some r
      → status ≡ some r.status
  build_result-status reply p digest (some class) (some status) (some output) r e = ground arith
  build_result-status reply p digest none status output r e = ground arith
  build_result-status reply p digest (some class) none output r e = ground arith
  build_result-status reply p digest (some class) (some status) none r e = ground arith

  read_payload-success :
      (reply : SignedResultEnvelope F) (digest : Option String) (p : ResultPayload F)
      (r : ExecutionResult F)
      → read_payload lib reply digest p ≡ some r
      → r.status ≡ success
  unfolding read_payload
  read_payload-success reply digest p r h =
      let class = node_class_of (or_default "edge" p.node_class) in
      let status = status_of (or_default "success" p.status) in
      let output = output_of lib p.output_json in
      ground (
        arith,
        build_result-status reply p digest class status output r,
        status-success (or_default "success" p.status) r.status,
      )

  read_reply-success :
      (s : TaskScheduler K) (digest : Option String) (reply : SignedResultEnvelope F)
      (r : ExecutionResult F)
      → read_reply lib s digest reply ≡ some r
      → r.status ≡ success
  unfolding read_reply
  read_reply-success s digest reply r h =
      elim (Option-cases (
        decrypt_envelope lib.aead lib.results reply.encrypted_result reply.encrypted_dek
          master_kek)) [
            | inl e ↦ ground (arith, e)
            | inr (p, e) ↦ ground (arith, e, read_payload-success reply digest p r)
          ]

  call_worker-success :
      (node : String) (target : Option String) (s : TaskScheduler K) (world : Etcd F × W)
      (r : ExecutionResult F)
      → (call_worker lib task node target s world).0 ≡ some r
      → r.status ≡ success
  call_worker-success node none s world r h = ground arith
  call_worker-success node (some target) s world r h =
      let reply =
        (lib.execute_task target (fl.div task.max_latency_ms (literal 1000 0))
          (task_envelope lib s task node (resolve_digest lib task world.0) world.1) world).0 in
      elim (Option-cases reply) [
        | inl e ↦ ground (arith, e)
        | inr (p, e) ↦ ground (arith, e, read_reply-success s (resolve_digest lib task world.0) p r)
      ]

  attempt-success :
      (node : String) (x y : TaskScheduler K × (Etcd F × W)) (r : ExecutionResult F)
      → attempt lib task node x ≡ (some r, y)
      → r.status ≡ success
  unfolding attempt
  attempt-success node (s, world) y r h =
      call_worker-success node (get_stub node s).0 (get_stub node s).1 world r (ap (λ t. t.0) h)

  Succeeds-success :
      {chain : List String} {x y : TaskScheduler K × (Etcd F × W)} {r : ExecutionResult F} {n : ℕ}
      → Succeeds lib task chain x r n y
      → r.status ≡ success
  Succeeds-success {x = x} {y = y} {r = r} (here {node = node} e) = attempt-success node x y r e
  Succeeds-success (later e h) = Succeeds-success h

  -- A dispatch that returns was made by the leader under a valid lease; its result is a success,
  -- whatever the workers reply; the attempts are at least one and at most the candidates of the
  -- chain; and the fallback flag is set exactly when there was more than one.
  pub dispatch-completed :
      (decision : PlacementDecision F) (x : TaskScheduler K × (Etcd F × W)) (r : ExecutionResult F)
      (activated : Bool) (attempts : ℕ)
      → (dispatch lib task decision x).0 ≡ completed r activated attempts
      → (leads lib task x ≡ true)
        × ((r.status ≡ success)
            × ((1 ≤ attempts)
                × ((attempts
                      ≤ length (candidate_chain decision.chosen_node decision.fallback_chain))
                    × (activated ≡ ltb 1 attempts))))
  dispatch-completed decision x r activated attempts h = from _ (dispatch_lem lib task decision x) h
    where
      from :
          (t : Dispatched F × (TaskScheduler K × (Etcd F × W)))
          → Explained lib task (candidate_chain decision.chosen_node decision.fallback_chain) x t
          → t.0 ≡ completed r activated attempts
          → (leads lib task x ≡ true)
            × ((r.status ≡ success)
                × ((1 ≤ attempts)
                    × ((attempts
                          ≤ length (candidate_chain decision.chosen_node decision.fallback_chain))
                        × (activated ≡ ltb 1 attempts))))
      from (completed r' a n, y) (l, (flag, found)) e =
          let (low, high) = Succeeds-bounds lib task found in
          ground (arith, l, flag, Succeeds-success found, low, high, e)
      from (not_leader, y) h e = ground (arith, e)
      from (fallback_exhausted c, y) h e = ground (arith, e)
