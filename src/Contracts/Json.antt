-- ===== src/Contracts/Json.antt =====
-- The values of `Dict[str, Any]` fields and of JSON messages.
use distributed_ai_networkin.Prelude.{
  ℕ, String, ◌≡◌, refl, Bool, true, ◌&&◌, Option, none, some, List, [], ◌∷◌, arith, ◌==◌, eq_iff,
  eq_refl, if◌then◌else◌,
}
use distributed_ai_networkin.Prelude.Floats.{Floats}

mutual
  pub data Json (F : Type 0) : Type 0 where
    null : Json F
    bool : Bool → Json F
    num : F → Json F
    int : ℕ → Json F
    text : String → Json F
    arr : Items F → Json F
    obj : Fields F → Json F

  pub data Items (F : Type 0) : Type 0 where
    nil : Items F
    cons : Json F → Items F → Items F

  pub data Fields (F : Type 0) : Type 0 where
    end : Fields F
    field : String → Json F → Fields F → Fields F

module _ {F : Type 0} where
  -- d.get(k)
  unfoldable pub get : Fields F → String → Option (Json F)
  get end k = none
  get (field j v fs) k = if j == k then some v else get fs k

  -- A list of texts as a JSON array.
  unfoldable pub texts : List String → Items F
  texts [] = nil
  texts (s ∷ ss) = cons (text s) (texts ss)

  -- d[k] = v
  unfoldable pub put : Fields F → String → Json F → Fields F
  put end k v = field k v end
  put (field j w fs) k v = if j == k then field j v fs else field j w (put fs k v)

  pub get-put :
      (fs : Fields F) (k j : String) (v : Json F)
      → get (put fs k v) j ≡ (if k == j then some v else get fs j)
  unfolding get put
  get-put end k j v = refl
  get-put (field i w fs) k j v =
      ground (arith, eq_iff k j, eq_iff i k, eq_iff i j, get-put fs k j v)

  -- d.pop(k, None)
  unfoldable pub pop : Fields F → String → Fields F
  pop end k = end
  pop (field j v fs) k = let rest = pop fs k in if j == k then fs else field j v rest

  pub pop-put : (fs : Fields F) (k : String) (v : Json F) → pop (put fs k v) k ≡ pop fs k
  unfolding pop put
  pop-put end k v = rw eq_refl refl
  pop-put (field i w fs) k v = ground (arith, eq_iff i k, pop-put fs k v)

module _ {F : Type 0} ⦃fl : Floats F⦄ where
  -- No number of the value is infinite or a NaN.
  unfoldable mutual
    pub finite_json : Json F → Bool
    finite_json null = true
    finite_json (bool b) = true
    finite_json (num x) = fl.is_finite x
    finite_json (int n) = true
    finite_json (text s) = true
    finite_json (arr xs) = finite_items xs
    finite_json (obj fs) = finite_fields fs

    pub finite_items : Items F → Bool
    finite_items nil = true
    finite_items (cons x xs) = finite_json x && finite_items xs

    pub finite_fields : Fields F → Bool
    finite_fields end = true
    finite_fields (field k v fs) = finite_json v && finite_fields fs

  pub finite_fields-put :
      (fs : Fields F) (k s : String)
      → finite_fields fs ≡ true
      → finite_fields (put fs k (text s)) ≡ true
  unfolding finite_fields finite_json put
  finite_fields-put end k s h = refl
  finite_fields-put (field j v fs) k s h = ground (arith, h, finite_fields-put fs k s)
