-- ===== src/State.antt =====
-- common/state.py: `SimulatedEtcdProvider`, the one store that all parts share. A method takes the
-- store, and the time where it reads the clock, and returns the new store. Each method holds the
-- lock from its first line to its last, so a run of the system is a sequence of these calls.
pub mod Ops
pub mod Leases
pub mod Swap
use distributed_ai_networkin.Prelude.Dict
use distributed_ai_networkin.Prelude.Dict.{Dict}
use distributed_ai_networkin.Prelude.Floats.{Floats, literal, ◌<ᶠ◌}
use distributed_ai_networkin.Prelude.{
  ℕ, ◌+◌, String, Bool, true, false, not, Option, none, some, [], ◌==◌, eqb, if◌then◌else◌, is_some,
}

pub record Etcd (F : Type 0) : Type 0 where
  pub kv : Dict String
  -- the expiry of each lease
  pub leases : ℕ → Option F
  pub lease_id_counter : ℕ

module _ {F : Type 0} where
  -- `__new__`, at its first call
  abbrev pub empty : Etcd F
  empty = record { kv = []; leases = λ id. none; lease_id_counter = 1 }

  abbrev pub set_lease : (ℕ → Option F) → ℕ → Option F → ℕ → Option F
  set_lease leases id v j = if eqb j id then v else leases j

  unfoldable pub clear : Etcd F → Etcd F
  clear s = empty

  unfoldable pub put : String → String → Etcd F → Etcd F
  put key value s = record s { kv = Dict.put s.kv key value }

  unfoldable pub get : Etcd F → String → Option String
  get s key = Dict.get s.kv key

  unfoldable pub delete : String → Etcd F → Etcd F
  delete key s = if Dict.has s.kv key then record s { kv = Dict.remove s.kv key } else s

  unfoldable pub revoke_lease : ℕ → Etcd F → Etcd F
  revoke_lease id s =
      if is_some (s.leases id) then record s { leases = set_lease s.leases id none } else s

-- `current_value == expected_value`
abbrev pub same_value : Option String → Option String → Bool
same_value none none = true
same_value none (some b) = false
same_value (some a) none = false
same_value (some a) (some b) = a == b

module _ {F : Type 0} ⦃fl : Floats F⦄ where
  unfoldable pub grant_lease : F → ℕ → Etcd F → ℕ × Etcd F
  grant_lease now ttl s =
      let id = s.lease_id_counter in
      (
        id,
        record s {
          lease_id_counter = s.lease_id_counter + 1;
          leases = set_lease s.leases id (some (fl.add now (literal ttl 0)));
        },
      )

  -- an expired lease is deleted when it is looked at
  unfoldable pub is_lease_valid : F → ℕ → Etcd F → Bool × Etcd F
  is_lease_valid now id s = elim (s.leases id) [
    | none ↦ (false, s)
    | some expiry ↦
        if expiry <ᶠ now
        then (false, record s { leases = set_lease s.leases id none })
        else (true, s)
  ]

  unfoldable pub put_with_lease : F → String → String → ℕ → Etcd F → Bool × Etcd F
  unfolding is_lease_valid
  put_with_lease now key value id s =
      let (valid, s') = is_lease_valid now id s in
      if not valid then (false, s') else (true, record s' { kv = Dict.put s'.kv key value })

  abbrev pub swap : String → Option String → String → Etcd F → Bool × Etcd F
  swap key expected value s =
      if same_value (Dict.get s.kv key) expected
      then (true, record s { kv = Dict.put s.kv key value })
      else (false, s)

  unfoldable pub compare_and_swap :
      F → String → Option String → String → Option ℕ → Etcd F → Bool × Etcd F
  unfolding is_lease_valid
  compare_and_swap now key expected value none s = swap key expected value s
  compare_and_swap now key expected value (some id) s =
      let (valid, s') = is_lease_valid now id s in
      if not valid then (false, s') else swap key expected value s'
