-- ===== src/Telemetry/Replay.antt =====
-- telemetry/replay_state.py: `ReplayProtectionState`. Sequence numbers are
-- signed, and a node starts at -1.
pub mod Laws
pub mod Fresh
use distributed_ai_networkin.Prelude.Dict
use distributed_ai_networkin.Prelude.Dict.{Dict}
use distributed_ai_networkin.Prelude.Int.{ℤ, negsuc, leb_ℤ}
use distributed_ai_networkin.Prelude.Floats.{Floats, ◌<ᶠ◌}
use distributed_ai_networkin.Prelude.{
  ◌+◌, String, Bool, true, false, Option, List, [], ◌∷◌, ltb, if◌then◌else◌, or_default, length,
  contains,
}

pub record ReplayProtectionState (F : Type 0) : Type 0 where
  pub max_clock_skew_seconds : F
  pub highest_sequence : Dict ℤ
  pub seen_nonces : Dict (List String)

-- `sequence_number <= self._highest_sequence.get(node_id, -1)`
abbrev pub not_above : ℤ → Option ℤ → Bool
not_above n highest = leb_ℤ n (or_default (negsuc 0) highest)

-- The set of a node with the nonce added; a set of more than 1000 is cleared first.
unfoldable pub add_nonce : String → List String → List String
add_nonce nonce seen = if ltb 1000 (length seen + 1) then nonce ∷ [] else nonce ∷ seen

module _ {F : Type 0} where
  abbrev pub nonces_of : ReplayProtectionState F → String → List String
  nonces_of s node_id = or_default [] (Dict.get s.seen_nonces node_id)

  -- the set of a node is made before its nonce is looked up
  abbrev pub with_set : ReplayProtectionState F → String → ReplayProtectionState F
  with_set s node_id =
      if Dict.has s.seen_nonces node_id
      then s
      else record s { seen_nonces = Dict.put s.seen_nonces node_id [] }

  abbrev pub recorded : ReplayProtectionState F → String → ℤ → String → ReplayProtectionState F
  recorded s node_id n nonce = record s {
    highest_sequence = Dict.put s.highest_sequence node_id n;
    seen_nonces = Dict.put s.seen_nonces node_id (add_nonce nonce (nonces_of s node_id));
  }

module _ {F : Type 0} ⦃fl : Floats F⦄ where
  unfoldable pub validate_and_record :
      F → String → ℤ → String → F → F → ReplayProtectionState F → Bool × ReplayProtectionState F
  validate_and_record now node_id n nonce timestamp expires_at s =
      if expires_at <ᶠ now
      then (false, s)
      else if fl.add now s.max_clock_skew_seconds <ᶠ timestamp
      then (false, s)
      else if not_above n (Dict.get s.highest_sequence node_id)
      then (false, s)
      else (let t = with_set s node_id in
          if contains nonce (nonces_of t node_id)
          then (false, t)
          else (true, recorded t node_id n nonce))
