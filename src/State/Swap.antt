-- ===== src/State/Swap.antt =====
-- Compare-and-swap: when it writes, and what it writes.
use distributed_ai_networkin.Prelude.Dict.{get-put}
use distributed_ai_networkin.Prelude.Floats.{Floats}
use distributed_ai_networkin.State.{Etcd, get, same_value, is_lease_valid, compare_and_swap}
use distributed_ai_networkin.Prelude.{
  ℕ, String, ◌≡◌, Bool, true, ◌&&◌, Option, none, some, arith, ◌==◌, if◌then◌else◌,
}

-- The lease of a call, if it names one, is valid.
abbrev pub lease_passes : {F : Type 0} ⦃fl : Floats F⦄ → F → Option ℕ → Etcd F → Bool
lease_passes now none s = true
lease_passes now (some id) s = (is_lease_valid now id s).0

module _ {F : Type 0} ⦃fl : Floats F⦄ where
  -- Compare-and-swap succeeds exactly when its lease (if it names one) is valid and the key holds
  -- the expected value, absence included. Every key then reads as before, but for the swapped key
  -- after a success, which reads the new value.
  pub get-compare_and_swap :
      (now : F) (key : String) (expected : Option String) (value : String) (id : Option ℕ)
      (s : Etcd F)
      → let (done, s') = compare_and_swap now key expected value id s in
        (done ≡ (lease_passes now id s && same_value (get s key) expected))
        × ((j : String) → get s' j ≡ (if done && (key == j) then some value else get s j))
  unfolding compare_and_swap get
  get-compare_and_swap now key expected value none s =
      (ground arith, λ j. ground (arith, get-put s.kv key j value))
  get-compare_and_swap now key expected value (some id) s =
      (ground arith, λ j. ground (arith, get-put s.kv key j value))
