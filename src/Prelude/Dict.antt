-- ===== src/Prelude/Dict.antt =====
-- Python's `dict` with text keys, in its order of insertion: an assignment to a key that is there
-- keeps its place, and a new key goes to the end.
use mathlib.Core.Path.{◌≡◌, refl, subst}
use mathlib.Core.Logic.{inl, inr}
use mathlib.Core.Bool.{Bool, true}
use mathlib.Core.Option.{Option, none, some}
use mathlib.Core.List.{List, [], ◌∷◌, map}
use Prim.Native.String.{String}
use native.Mathlib.Omega.{arith}
use text.Mathlib.Text.{◌==◌}
use text.Mathlib.TextEquality.{eq_iff}
use distributed_ai_networkin.Prelude.Tests.{if◌then◌else◌, is_some, Bool-cases}
use distributed_ai_networkin.Prelude.Lists.{contains, Distinct, All}

abbrev pub Dict {ℓ} : Type ℓ → Type ℓ
Dict V = List (String × V)

module _ {ℓ} {V : Type ℓ} where
  -- d.get(k)
  unfoldable pub get : Dict V → String → Option V
  get [] k = none
  get ((j, v) ∷ d) k = if j == k then some v else get d k

  -- d[k] = v
  unfoldable pub put : Dict V → String → V → Dict V
  put [] k v = (k, v) ∷ []
  put ((j, w) ∷ d) k v = if j == k then (j, v) ∷ d else (j, w) ∷ put d k v

  -- del d[k], d.pop(k, None)
  unfoldable pub remove : Dict V → String → Dict V
  remove [] k = []
  remove ((j, w) ∷ d) k = let rest = remove d k in if j == k then rest else (j, w) ∷ rest

  -- k in d
  abbrev pub has : Dict V → String → Bool
  has d k = is_some (get d k)

  abbrev pub keys : Dict V → List String
  keys = map (λ e. e.0)

  abbrev pub values : Dict V → List V
  values = map (λ e. e.1)

  pub get-put :
      (d : Dict V) (k j : String) (v : V) → get (put d k v) j ≡ (if k == j then some v else get d j)
  unfolding get put
  get-put [] k j v = refl
  get-put ((i, w) ∷ d) k j v = ground (arith, eq_iff k j, eq_iff i k, eq_iff i j, get-put d k j v)

  pub get-remove :
      (d : Dict V) (k j : String) → get (remove d k) j ≡ (if k == j then none else get d j)
  unfolding get remove
  get-remove [] k j = ground arith
  get-remove ((i, w) ∷ d) k j = ground (arith, eq_iff k j, eq_iff i k, eq_iff i j, get-remove d k j)

  pub contains-keys : (d : Dict V) (k : String) → contains k (keys d) ≡ has d k
  unfolding get
  contains-keys [] k = refl
  contains-keys ((j, w) ∷ d) k = ground (arith, contains-keys d k)

  pub contains-keys-put :
      (d : Dict V) (k j : String) (v : V)
      → contains j (keys (put d k v)) ≡ (if k == j then true else contains j (keys d))
  unfolding put
  contains-keys-put [] k j v = ground (arith, eq_iff k j)
  contains-keys-put ((i, w) ∷ d) k j v =
      ground (arith, eq_iff k j, eq_iff i k, eq_iff i j, contains-keys-put d k j v)

  -- A dict never holds a key twice.
  pub keys-put-Distinct :
      (d : Dict V) (k : String) (v : V) → Distinct (keys d) → Distinct (keys (put d k v))
  unfolding put
  keys-put-Distinct [] k v h = ground arith
  keys-put-Distinct ((j, w) ∷ d) k v h =
      ground (arith, eq_iff j k, eq_iff k j, contains-keys-put d k j v, keys-put-Distinct d k v)

  -- A predicate of all values, kept by an assignment and given to what is found.
  pub put-All :
      (P : V → Type ℓ) (d : Dict V) (k : String) (v : V)
      → All P (values d)
      → P v
      → All P (values (put d k v))
  unfolding put
  put-All P [] k v h pv = (pv, tt)
  put-All P ((j, w) ∷ d) k v h pv = elim (Bool-cases (j == k)) [
    | inl e ↦ rw e (pv, h.1)
    | inr e ↦ rw e (h.0, put-All P d k v h.1 pv)
  ]

  pub get-All :
      (P : V → Type ℓ) (d : Dict V) (k : String) (v : V) → All P (values d) → get d k ≡ some v → P v
  unfolding get
  get-All P [] k v h e = ground (arith, e)
  get-All P ((j, w) ∷ d) k v h e = elim (Bool-cases (j == k)) [
    | inl t ↦ subst P (ground (arith, e, t)) h.0
    | inr t ↦ get-All P d k v h.1 (ground (arith, e, t))
  ]

pub ruleset dict_laws = (get-put, get-remove)
