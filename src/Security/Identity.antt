-- ===== src/Security/Identity.antt =====
-- SPIFFE identities: common/authorization.py, and `extract_spiffe_id` of common/identity.py, on the
-- decoded names of the peer's certificate.
use distributed_ai_networkin.Prelude.{
  String, ◌≡◌, refl, sym, ◌∙◌, subst, ◌↔◌, inl, inr, Bool, true, false, ◌&&◌, not, Option, none,
  some, List, [], ◌∷◌, arith, ◌==◌, eq_iff, eq_refl, if◌then◌else◌, Bool-cases,
}
use distributed_ai_networkin.Prelude.Text.Keys.{prefixes_differ}
use Prim.Native.String.{◌++◌ as ◌&◌}
use text.Mathlib.Text.{starts_with}
use text.Mathlib.TextPositions.{starts_with-append}
use text.Mathlib.TextLemmas.{append_cancel_left}

-- the first name of the trust domain
unfoldable pub first_trusted : List String → Option String
first_trusted [] = none
first_trusted (uri ∷ rest) =
    if starts_with uri "spiffe://distributed-ai.local/" then some uri else first_trusted rest

-- `auth_context`: the URIs of the certificate and its common names
unfoldable pub extract_spiffe_id : List String → List String → Option String
extract_spiffe_id uris common_names = elim (first_trusted uris) [
  | some id ↦ some id
  | none ↦ first_trusted common_names
]

unfoldable pub authorize_node : Option String → String → Bool
authorize_node none expected = false
authorize_node (some id) expected =
    not (id == "") && (id == ("spiffe://distributed-ai.local/node/" & expected))

unfoldable pub authorize_scheduler : Option String → Bool
authorize_scheduler none = false
authorize_scheduler (some id) =
    not (id == "") && (id == "spiffe://distributed-ai.local/scheduler/master")

unfoldable pub authorize_gateway : Option String → Bool
authorize_gateway none = false
authorize_gateway (some id) =
    not (id == "") && starts_with id "spiffe://distributed-ai.local/gateway/"

-- `_authenticate_node` of gateway/grpc_server.py: false where it aborts
unfoldable pub authenticate_node : Option String → Bool
authenticate_node none = false
authenticate_node (some id) = not (id == "") && starts_with id "spiffe://distributed-ai.local/node/"

-- An identity authorises at most one node, that node's stream is authenticated, and the identity is
-- not the scheduler's.
pub authorize_node_lem :
    (id : Option String) (node : String)
    → authorize_node id node ≡ true
    → ((other : String) → (authorize_node id other ≡ true) ↔ (other ≡ node))
      × (authenticate_node id ≡ true)
      × (authorize_scheduler id ≡ false)
unfolding authorize_node authenticate_node authorize_scheduler
authorize_node_lem none node h = cc
authorize_node_lem (some id) node h = (
  λ other. (
    λ k. sym (append_cancel_left prefix node other (sym (mine node h) ∙ mine other k)),
    λ e. rw e h,
  ),
  ground (arith, eq_iff id (prefix & node), starts),
  ground (arith, eq_iff id (prefix & node), not_scheduler),
)
  where
    prefix : String
    prefix = "spiffe://distributed-ai.local/node/"

    mine :
        (n : String)
        → (not (id == "") && (id == ("spiffe://distributed-ai.local/node/" & n))) ≡ true
        → id ≡ ("spiffe://distributed-ai.local/node/" & n)
    mine n k = ground (arith, eq_iff id ("spiffe://distributed-ai.local/node/" & n))

    starts : starts_with id "spiffe://distributed-ai.local/node/" ≡ true
    starts = rw (mine node h) (starts_with-append "spiffe://distributed-ai.local/node/" node)

    not_scheduler : (id == "spiffe://distributed-ai.local/scheduler/master") ≡ false
    not_scheduler = rw (mine node h) (
        prefixes_differ "spiffe://distributed-ai.local/n" "ode/" "spiffe://distributed-ai.local/s"
          "cheduler/master" node "" refl refl)

-- A node is authorised by the identity that names it.
pub authorize_node-named :
    (node : String)
    → authorize_node (some ("spiffe://distributed-ai.local/node/" & node)) node ≡ true
unfolding authorize_node
authorize_node-named node =
    let prefix : String = "spiffe://distributed-ai.local/node/" in
    let starts = starts_with-append prefix node in
    elim (Bool-cases ((prefix & node) == "")) [
      | inr e ↦ rw e (rw (eq_refl (prefix & node)) refl)
      | inl e ↦ absurd (
          ground (
            arith,
            starts,
            subst (λ t. starts_with t prefix ≡ true) ((eq_iff (prefix & node) "").0 e) starts,
          ))
    ]
