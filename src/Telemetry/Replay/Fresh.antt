-- ===== src/Telemetry/Replay/Fresh.antt =====
-- What a message has to be to be accepted, and what it leaves for the next one.
use distributed_ai_networkin.Prelude.{
  String, ◌≡◌, refl, ◌∙◌, true, false, some, List, [], arith, ◌==◌, eq_refl, contains,
}
use distributed_ai_networkin.Telemetry.Replay.Laws.{
  highest, validate_and_record_lem, validate, Message,
}
use distributed_ai_networkin.Telemetry.Replay.{
  not_above, with_set, nonces_of, ReplayProtectionState, add_nonce, validate_and_record,
}
use distributed_ai_networkin.Prelude.Dict.{get-put}
use distributed_ai_networkin.Prelude.Floats.{Floats, ◌<ᶠ◌}

contains-add_nonce :
    (n m : String) (seen : List String)
    → contains n seen ≡ false
    → (m == n) ≡ false
    → contains n (add_nonce m seen) ≡ false
unfolding add_nonce
contains-add_nonce n m seen h k = ground arith

module _ {F : Type 0} ⦃fl : Floats F⦄ where
  -- A message in time, with a number above its node's highest and a nonce not seen of it.
  pub record IsFresh (now : F) (m : Message F) (s : ReplayProtectionState F) : Type 0 where
    pub unexpired : (m.expires_at <ᶠ now) ≡ false
    pub within_skew : (fl.add now s.max_clock_skew_seconds <ᶠ m.timestamp) ≡ false
    pub above : not_above m.sequence_number (highest s m.node_id) ≡ false
    pub unseen : contains m.nonce (nonces_of s m.node_id) ≡ false

  pub validate-IsFresh :
      (now : F) (m : Message F) (s : ReplayProtectionState F)
      → IsFresh now m s
      → (validate now m s).0 ≡ true
  validate-IsFresh now m s h =
      (validate_and_record_lem now m s).0 ∙ rw (h.unexpired, h.within_skew, h.above, h.unseen) refl

  pub highest-validate :
      (now : F) (m : Message F) (s : ReplayProtectionState F)
      → (validate now m s).0 ≡ true
      → highest (validate now m s).1 m.node_id ≡ some m.sequence_number
  highest-validate now m s h =
      (validate_and_record_lem now m s).1 m.node_id ∙ rw (h, eq_refl m.node_id) refl

  pub validate-max_clock_skew_seconds :
      (now : F) (m : Message F) (s : ReplayProtectionState F)
      → (validate now m s).1.max_clock_skew_seconds ≡ s.max_clock_skew_seconds
  unfolding validate_and_record
  validate-max_clock_skew_seconds now m s = ground arith

  -- A nonce that is not seen and not the message's is not seen after the message.
  pub validate-unseen :
      (now : F) (m : Message F) (s : ReplayProtectionState F) (n : String)
      → contains n (nonces_of s m.node_id) ≡ false
      → (m.nonce == n) ≡ false
      → contains n (nonces_of (validate now m s).1 m.node_id) ≡ false
  unfolding validate_and_record
  validate-unseen now m s n h k = ground (
    arith,
    get-put s.seen_nonces m.node_id m.node_id [],
    get-put (with_set s m.node_id).seen_nonces m.node_id m.node_id
        (add_nonce m.nonce (nonces_of (with_set s m.node_id) m.node_id)),
    contains-add_nonce n m.nonce (nonces_of (with_set s m.node_id) m.node_id),
    eq_refl m.node_id,
  )
