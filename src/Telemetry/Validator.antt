-- ===== src/Telemetry/Validator.antt =====
-- telemetry/validator.py: staleness, and the check of a node's round trip time.
use distributed_ai_networkin.Prelude.Floats.{Floats, literal, max_float, ◌<ᶠ◌, ◌≤ᶠ◌}
use distributed_ai_networkin.Contracts.Models.{
  NodeTelemetrySnapshot, RttReason, no_gateway_measurement, invalid_reported_rtt,
  divergence_exceeded, validated,
}
use distributed_ai_networkin.Prelude.{Bool, true, false, none, some, if◌then◌else◌}

pub record TelemetryValidator (F : Type 0) : Type 0 where
  pub max_allowed_divergence_pct : F

module _ {F : Type 0} ⦃fl : Floats F⦄ where
  -- `__init__`'s default
  abbrev pub default_validator : TelemetryValidator F
  default_validator = record { max_allowed_divergence_pct = literal 50 0 }

  unfoldable pub is_stale : NodeTelemetrySnapshot F → F → Bool
  is_stale snapshot threshold_ms = threshold_ms <ᶠ snapshot.last_heartbeat_age_ms

  unfoldable pub divergence : F → F → F
  divergence observed reported =
      fl.mul (fl.div (fl.abs (fl.sub observed reported)) (max_float reported (literal 1 0)))
        (literal 100 0)

  -- the body below the test for a missing measurement
  cross_check : TelemetryValidator F → F → F → Bool × RttReason F
  cross_check v observed reported =
      if reported ≤ᶠ literal 0 0
      then (false, invalid_reported_rtt)
      else if v.max_allowed_divergence_pct <ᶠ divergence observed reported
      then (false, divergence_exceeded (divergence observed reported))
      else (true, validated)

  unfoldable pub cross_validate_rtt :
      TelemetryValidator F → NodeTelemetrySnapshot F → Bool × RttReason F
  unfolding cross_check
  cross_validate_rtt v snapshot = elim snapshot.gateway_observed_rtt_ms [
    | none ↦ (true, no_gateway_measurement)
    | some observed ↦ cross_check v observed snapshot.rtt_ms
  ]
