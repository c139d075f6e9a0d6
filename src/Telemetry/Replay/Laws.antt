-- ===== src/Telemetry/Replay/Laws.antt =====
-- No message is accepted twice.
use distributed_ai_networkin.Prelude.Dict
use distributed_ai_networkin.Prelude.Dict.{get-put}
use distributed_ai_networkin.Prelude.Int.{ℤ, negsuc, ◌≤ℤ◌, ≤ℤ_trans, ≤ℤ_refl}
use distributed_ai_networkin.Prelude.Floats.{Floats, ◌<ᶠ◌}
use distributed_ai_networkin.Telemetry.Replay.{
  ReplayProtectionState, not_above, add_nonce, nonces_of, with_set, validate_and_record,
}
use distributed_ai_networkin.Prelude.{
  ◌≤◌, String, ◌≡◌, Bool, true, false, ◌&&◌, not, Option, some, List, [], ◌∷◌, arith, ◌==◌, eq_iff,
  eq_refl, if◌then◌else◌, or_default, length, contains,
}

pub record Message (F : Type 0) : Type 0 where
  pub node_id : String
  pub sequence_number : ℤ
  pub nonce : String
  pub timestamp : F
  pub expires_at : F

add_nonce-le : (nonce : String) (seen : List String) → length (add_nonce nonce seen) ≤ 1000
unfolding add_nonce
add_nonce-le nonce seen = ground arith

module _ {F : Type 0} ⦃fl : Floats F⦄ where
  abbrev pub validate : F → Message F → ReplayProtectionState F → Bool × ReplayProtectionState F
  validate now m s =
      validate_and_record now m.node_id m.sequence_number m.nonce m.timestamp m.expires_at s

  -- The answers to a run of messages, each with the time at which it comes.
  unfoldable pub validate_all :
      List (F × Message F) → ReplayProtectionState F → List Bool × ReplayProtectionState F
  validate_all [] s = ([], s)
  validate_all ((now, m) ∷ rest) s =
      let (b, s') = validate now m s in let (bs, s'') = validate_all rest s' in (b ∷ bs, s'')

  abbrev pub highest : ReplayProtectionState F → String → Option ℤ
  highest s node = Dict.get s.highest_sequence node

  -- A message is accepted exactly if it has not expired, is not from beyond the allowed skew, and
  -- has a sequence number above the node's highest and a nonce that the node's set does not hold.
  -- The highest number of a node changes only by an acceptance, to the accepted number.
  pub validate_and_record_lem :
      (now : F) (m : Message F) (s : ReplayProtectionState F)
      → ((validate now m s).0 ≡ (
          not (m.expires_at <ᶠ now)
          && not (fl.add now s.max_clock_skew_seconds <ᶠ m.timestamp)
          && not (not_above m.sequence_number (highest s m.node_id))
          && not (contains m.nonce (nonces_of s m.node_id))))
        × ((j : String)
            → highest (validate now m s).1 j ≡ (
                if (validate now m s).0 && (m.node_id == j)
                then some m.sequence_number
                else highest s j))
  unfolding validate_and_record
  validate_and_record_lem now m s = (
    ground (arith, get-put s.seen_nonces m.node_id m.node_id [], eq_refl m.node_id),
    λ j. ground (arith, get-put s.highest_sequence m.node_id j m.sequence_number),
  )

  -- The highest number of a node is at least `n`.
  abbrev pub Reached : ℤ → String → ReplayProtectionState F → Type 0
  Reached n node s = not_above n (highest s node) ≡ true

  accepted-Reached :
      (now : F) (m : Message F) (s : ReplayProtectionState F)
      → (validate now m s).0 ≡ true
      → Reached m.sequence_number m.node_id (validate now m s).1
  accepted-Reached now m s h =
      rw (validate_and_record_lem now m s).1 (rw (h, eq_refl) (≤ℤ_refl m.sequence_number))

  validate-Reached :
      (n : ℤ) (node : String) (now : F) (m : Message F) (s : ReplayProtectionState F)
      → Reached n node s
      → Reached n node (validate now m s).1
  validate-Reached n node now m s h =
      let (accepted, after) = validate_and_record_lem now m s in
      ground (arith, accepted, after node, eq_iff m.node_id node)

  validate_all-Reached :
      (n : ℤ) (node : String) (ms : List (F × Message F)) (s : ReplayProtectionState F)
      → Reached n node s
      → Reached n node (validate_all ms s).1
  unfolding validate_all
  validate_all-Reached n node [] s h = h
  validate_all-Reached n node ((now, m) ∷ rest) s h =
      validate_all-Reached n node rest (validate now m s).1 (validate-Reached n node now m s h)

  Reached-rejected :
      (now : F) (m : Message F) (s : ReplayProtectionState F)
      → Reached m.sequence_number m.node_id s
      → (validate now m s).0 ≡ false
  Reached-rejected now m s h = ground (arith, (validate_and_record_lem now m s).0)

  Reached-le :
      (k n : ℤ) (node : String) (s : ReplayProtectionState F)
      → k ≤ℤ n
      → Reached n node s
      → Reached k node s
  Reached-le k n node s le h = ≤ℤ_trans k n (or_default (negsuc 0) (highest s node)) le h

  -- Once a message is accepted, no message of its node with the same or a lower sequence number is
  -- ever accepted again, whatever messages come in between and although the nonces of a node are
  -- cleared from time to time.
  pub validate_all-replay :
      (now later : F) (m m' : Message F) (between : List (F × Message F))
      (s : ReplayProtectionState F)
      → (validate now m s).0 ≡ true
      → m'.node_id ≡ m.node_id
      → m'.sequence_number ≤ℤ m.sequence_number
      → (validate later m' (validate_all between (validate now m s).1).1).0 ≡ false
  validate_all-replay now later m m' between s h same le =
      let t = (validate_all between (validate now m s).1).1 in
      Reached-rejected later m' t (
        Reached-le m'.sequence_number m.sequence_number m'.node_id t le (
          validate_all-Reached m.sequence_number m'.node_id between (validate now m s).1
            (rw same (accepted-Reached now m s h))))

  -- No call lets the set of any node grow past 1000 nonces.
  pub nonces_bounded :
      (now : F) (m : Message F) (s : ReplayProtectionState F)
      → ((j : String) → length (nonces_of s j) ≤ 1000)
      → (j : String) → length (nonces_of (validate now m s).1 j) ≤ 1000
  unfolding validate_and_record
  nonces_bounded now m s h j = ground (
    arith,
    h j,
    get-put s.seen_nonces m.node_id j [],
    get-put s.seen_nonces m.node_id j (add_nonce m.nonce (nonces_of s m.node_id)),
    get-put (with_set s m.node_id).seen_nonces m.node_id j
        (add_nonce m.nonce (nonces_of (with_set s m.node_id) m.node_id)),
    add_nonce-le m.nonce (nonces_of (with_set s m.node_id) m.node_id),
  )
