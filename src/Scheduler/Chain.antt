-- ===== src/Scheduler/Chain.antt =====
-- The chain of candidates of `dispatch`: the chosen node, then those of the fallback chain that are
-- not in it yet.
use distributed_ai_networkin.Prelude.{
  String, ◌≡◌, refl, ◌∙◌, subst, inl, inr, Bool, true, false, ◌&&◌, ◌||◌, not, List, [], ◌∷◌, ◌++◌,
  arith, ◌==◌, eq_iff, if◌then◌else◌, Bool-cases, contains, contains-append, Distinct,
}

unfoldable pub add_missing : List String → List String → List String
add_missing chain [] = chain
add_missing chain (node ∷ rest) =
    add_missing (if contains node chain then chain else chain ++ node ∷ []) rest

unfoldable pub candidate_chain : String → List String → List String
candidate_chain chosen fallback = add_missing (if chosen == "" then [] else chosen ∷ []) fallback

Distinct-snoc :
    (xs : List String) (x : String) → Distinct xs → contains x xs ≡ false → Distinct (xs ++ x ∷ [])
Distinct-snoc [] x d h = (refl, tt)
Distinct-snoc (y ∷ ys) x d h = (
  contains-append y ys (x ∷ []) ∙ ground (arith, eq_iff x y, eq_iff y x),
  Distinct-snoc ys x d.1 (ground arith),
)

add_missing-Distinct :
    (chain rest : List String) → Distinct chain → Distinct (add_missing chain rest)
unfolding add_missing
add_missing-Distinct chain [] d = d
add_missing-Distinct chain (node ∷ rest) d = elim (Bool-cases (contains node chain)) [
  | inl e ↦ rw e (add_missing-Distinct chain rest d)
  | inr e ↦ rw e (add_missing-Distinct (chain ++ node ∷ []) rest (Distinct-snoc chain node d e))
]

contains-add_missing :
    (chain rest : List String) (k : String)
    → contains k (add_missing chain rest) ≡ (contains k chain || contains k rest)
unfolding add_missing
contains-add_missing chain [] k = ground arith
contains-add_missing chain (node ∷ rest) k = elim (Bool-cases (contains node chain)) [
  | inl e ↦ rw e (
      contains-add_missing chain rest k
      ∙ absorbed (node == k) (contains k chain) (contains k rest)
          (λ same. subst (λ n. contains n chain ≡ true) ((eq_iff node k).0 same) e))
  | inr e ↦ rw e (
      contains-add_missing (chain ++ node ∷ []) rest k
      ∙ rw (contains-append k chain (node ∷ [])) (regroup (contains k chain) (node == k) _))
]
  where
    absorbed : (a b c : Bool) → (a ≡ true → b ≡ true) → (b || c) ≡ (b || (a || c))
    absorbed a b c h = ground arith

    regroup : (a b c : Bool) → ((a || (b || false)) || c) ≡ (a || (b || c))
    regroup a b c = ground arith

-- No candidate is tried twice, and the candidates are exactly the chosen node, if it is named, and
-- the nodes of the fallback chain.
pub candidate_chain_lem :
    (chosen : String) (fallback : List String)
    → Distinct (candidate_chain chosen fallback)
      × ((k : String)
          → contains k (candidate_chain chosen fallback)
            ≡ ((not (chosen == "") && (chosen == k)) || contains k fallback))
unfolding candidate_chain
candidate_chain_lem chosen fallback = elim (Bool-cases (chosen == "")) [
  | inl e ↦ rw e (add_missing-Distinct [] fallback tt, λ k. contains-add_missing [] fallback k)
  | inr e ↦ rw e (
    add_missing-Distinct (chosen ∷ []) fallback (refl, tt),
    λ k. contains-add_missing (chosen ∷ []) fallback k ∙ ground arith,
  )
]
