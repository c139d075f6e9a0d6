-- ===== src/Tools/Inspect.antt =====
-- tools/verify_supply_chain.py, without what it prints.
pub mod Bootstrapped
use distributed_ai_networkin.Prelude.{
  ℕ, String, ◌≡◌, refl, Bool, true, false, ◌&&◌, not, Option, none, some, arith, ◌==◌,
  if◌then◌else◌, or_default,
}
use distributed_ai_networkin.SupplyChain.{
  refuse, ok, verify_artifact_for_execution, names_immutable, model_key, Result, Libraries,
}
use distributed_ai_networkin.Contracts.Models.{ApprovedArtifactRecord}
use distributed_ai_networkin.Cluster.Bootstrap.{bootstrap_supply_chain}
use distributed_ai_networkin.State.{Etcd}
use distributed_ai_networkin.State

-- `json.loads(raw).get("digest")`: `none` where it raises, `some none` where there is no such key
pub record RecordFields : Type 0 where
  pub digest_field : String → Option (Option String)

abbrev pub is_given : Option String → Bool
is_given none = false
is_given (some d) = not (d == "")

module _ {F K : Type 0} (lib : Libraries F K) (fields : RecordFields) where
  -- the digest of the stored record, where it can be read
  abbrev pub resolved : Option String → Option String → Option String
  resolved none digest = digest
  resolved (some raw) digest =
      if raw == "" then digest else or_default digest (fields.digest_field raw)

  abbrev pub target_digest : String → Option String → Etcd F → Option String
  target_digest model_id digest etcd =
      if is_given digest then digest else resolved (State.get etcd (model_key model_id)) digest

  abbrev pub passes : Result (ApprovedArtifactRecord F) → Bool
  passes (ok r) = true
  passes (refuse why) = false

  unfoldable pub inspect_and_verify_model : String → Option String → Etcd F → Bool
  inspect_and_verify_model model_id digest etcd =
      let target = target_digest model_id digest etcd in
      if is_given target && not (names_immutable target)
      then false
      else passes (verify_artifact_for_execution lib model_id target etcd)

  abbrev pub exit_of : String → Option String → Option (Etcd F) → ℕ
  exit_of model_id digest none = 1
  exit_of model_id digest (some etcd) =
      if inspect_and_verify_model model_id digest etcd then 0 else 1

  -- the exit status; an exception of the bootstrap is one too
  unfoldable pub main : K → F → F → String → Option String → Etcd F → ℕ
  main key first second model_id digest etcd =
      exit_of model_id digest (bootstrap_supply_chain lib key first second etcd)

  pub passes_ok :
      (o : Result (ApprovedArtifactRecord F))
      → passes o ≡ true
      → (r : ApprovedArtifactRecord F) × (o ≡ ok r)
  passes_ok (ok r) h = (r, refl)
  passes_ok (refuse why) h = ground (arith, h)
