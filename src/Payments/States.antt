-- ===== src/Payments/States.antt =====
-- apps/payments/state_machine.py: the states of payments and of refunds, and their transitions.
pub mod Graph
use decisionos.Common.{String, Bool, true, false, Option, none, some, if◌then◌else◌}

pub data PaymentState : Type 0 where
  created requires_action authorized captured settled canceled charge_failed : PaymentState

pub data RefundState : Type 0 where
  refund_pending refunded refund_failed : RefundState

-- The sets of `allowed` in `transition_payment`, as a test.
unfoldable pub payment_allowed : PaymentState → PaymentState → Bool
payment_allowed created authorized = true
payment_allowed created requires_action = true
payment_allowed created canceled = true
payment_allowed created charge_failed = true
payment_allowed requires_action authorized = true
payment_allowed requires_action canceled = true
payment_allowed requires_action charge_failed = true
payment_allowed authorized captured = true
payment_allowed authorized canceled = true
payment_allowed authorized charge_failed = true
payment_allowed captured settled = true
payment_allowed _ _ = false

unfoldable pub refund_allowed : RefundState → RefundState → Bool
refund_allowed refund_pending refunded = true
refund_allowed refund_pending refund_failed = true
refund_allowed _ _ = false

-- `none` is `InvalidTransition`.
unfoldable pub transition_payment : PaymentState → PaymentState → Option PaymentState
transition_payment current target = if payment_allowed current target then some target else none

unfoldable pub transition_refund : RefundState → RefundState → Option RefundState
transition_refund current target = if refund_allowed current target then some target else none
