-- ===== src/State/Ops.antt =====
-- The calls of the store as data, so that an interleaving of the parts is a list of them.
use distributed_ai_networkin.Prelude.Floats.{Floats}
use distributed_ai_networkin.State.{
  Etcd, put, delete, revoke_lease, grant_lease, is_lease_valid, put_with_lease, compare_and_swap,
}
use distributed_ai_networkin.Prelude.{ℕ, String, Option, List, [], ◌∷◌}

pub data Op (F : Type 0) : Type 0 where
  put_op : String → String → Op F
  delete_op : String → Op F
  grant_op : F → ℕ → Op F
  revoke_op : ℕ → Op F
  check_op : F → ℕ → Op F
  put_with_lease_op : F → String → String → ℕ → Op F
  swap_op : F → String → Option String → String → Option ℕ → Op F

module _ {F : Type 0} ⦃fl : Floats F⦄ where
  unfoldable pub apply : Op F → Etcd F → Etcd F
  apply (put_op k v) s = put k v s
  apply (delete_op k) s = delete k s
  apply (grant_op now ttl) s = (grant_lease now ttl s).1
  apply (revoke_op id) s = revoke_lease id s
  apply (check_op now id) s = (is_lease_valid now id s).1
  apply (put_with_lease_op now k v id) s = (put_with_lease now k v id s).1
  apply (swap_op now k expected v id) s = (compare_and_swap now k expected v id s).1

  unfoldable pub run : List (Op F) → Etcd F → Etcd F
  run [] s = s
  run (op ∷ ops) s = run ops (apply op s)
