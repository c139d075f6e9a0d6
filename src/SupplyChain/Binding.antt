-- ===== src/SupplyChain/Binding.antt =====
-- What the signature of a record covers: the provenance, and not the digest that is executed.
use distributed_ai_networkin.Prelude.Text.{lower}
use distributed_ai_networkin.SupplyChain.{is_digest_revoked, ok, Libraries, verify_record}
use distributed_ai_networkin.Contracts.Models.{ApprovedArtifactRecord, SupplyChainPolicy}
use distributed_ai_networkin.State.{Etcd}
use distributed_ai_networkin.Prelude.{String, ◌≡◌, false, Option, some, arith, eq_refl}

module _ {F K : Type 0} (lib : Libraries F K) where
  -- The digest of an approved record is bound neither to its signature nor to the digest of its
  -- provenance: if a record passes the checks, so does the same record with any other digest that is
  -- not revoked, when it is requested by that digest.
  pub verify_record_rebound :
      (policy : SupplyChainPolicy) (request : Option String) (etcd : Etcd F)
      (r r' : ApprovedArtifactRecord F) (digest : String)
      → verify_record lib policy request etcd r ≡ ok r'
      → is_digest_revoked lib etcd digest ≡ false
      → verify_record lib policy (some digest) etcd (record r { digest = digest })
        ≡ ok (record r { digest = digest })
  unfolding verify_record
  verify_record_rebound policy request etcd r r' digest h clear =
      ground (arith, eq_refl (lower digest))
