-- ===== src/Payment/Lifecycle.antt =====
-- backend/internal/payment/domain/lifecycle.go: the states of a payment and the allowed transitions.
use banking_go.Prelude.{Bool, true, false, Text, if◌then◌else◌}
use banking_go.Errors.{Result, ok, err, Error}

-- `type Status string`: the declared states, and any other text.
pub data Status : Type 0 where
  draft awaiting_confirmation scheduled processing booked failed cancelled : Status
  undeclared : Text → Status

-- The map of maps; a missing key reads as false.
unfoldable pub allowed_transitions : Status → Status → Bool
allowed_transitions draft cancelled = true
allowed_transitions awaiting_confirmation scheduled = true
allowed_transitions awaiting_confirmation processing = true
allowed_transitions awaiting_confirmation cancelled = true
allowed_transitions scheduled processing = true
allowed_transitions scheduled cancelled = true
allowed_transitions processing scheduled = true
allowed_transitions processing booked = true
allowed_transitions processing failed = true
allowed_transitions _ _ = false

unfoldable pub validate_transition : Status → Status → Result (Unit {0})
validate_transition from to =
    if allowed_transitions from to then ok tt else err Error.invalid_payment_state

abbrev pub is_draft : Status → Bool
is_draft draft = true
is_draft _ = false

abbrev pub is_awaiting : Status → Bool
is_awaiting awaiting_confirmation = true
is_awaiting _ = false

abbrev pub is_scheduled : Status → Bool
is_scheduled scheduled = true
is_scheduled _ = false

abbrev pub is_processing : Status → Bool
is_processing processing = true
is_processing _ = false
