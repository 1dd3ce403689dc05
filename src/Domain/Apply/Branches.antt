-- ===== src/Domain/Apply/Branches.antt =====
-- Each kind of operation in `Apply` of internal/domain/apply.go ends in an outcome.
use desafio_jungle_go.Prelude.{◌≡◌, ◌≢◌, inl, inr, arith, true, some, Option-cases}
use desafio_jungle_go.Prelude.Str.{str_eq_iff}
use desafio_jungle_go.Domain.Errors.{FailureCode}
use desafio_jungle_go.Domain.Types.{Kind, requires_reference}
use desafio_jungle_go.Domain.Wallet.{Wallet}
use desafio_jungle_go.Domain.Wallet.Movement.{IsAmount}
use desafio_jungle_go.Domain.Transaction.{WagerTransaction, mark_processed}
use desafio_jungle_go.Domain.Reference.{
  ApplyInput, by_status, by_status_optional, looked_up, require_reference,
  resolve_optional_reference,
}
use desafio_jungle_go.Domain.Apply.{
  apply_bet, apply_win, apply_loss, refund_of, apply_refund, rollback_of, apply_rollback, apply,
  by_kind,
}
use desafio_jungle_go.Domain.Apply.Outcome.{
  IsReady, Ends, EndsChecked, reject_op-Ends, wait_op-Ends, credit_resolved-Ends,
  debit_resolved-Ends, reverse_movement-Ends,
}

pub ready-IsAmount :
    (inp : ApplyInput) (w : Wallet)
    → IsReady inp w
    → inp.operation.money.currency ≡ w.currency
    → inp.operation.kind ≢ Kind.loss
    → IsAmount w inp.operation.money
ready-IsAmount inp w k c h = ground arith

by_status-Ends :
    (inp : ApplyInput) (w : Wallet) (ref : WagerTransaction)
    → IsReady inp w
    → EndsChecked inp w (by_status inp w ref ref.status)
by_status-Ends inp w ref k =
    ground (arith, wait_op-Ends inp w, reject_op-Ends inp w FailureCode.reference_unsuccessful)

by_status_optional-Ends :
    (inp : ApplyInput) (w : Wallet) (want : Kind) (ref : WagerTransaction)
    → IsReady inp w
    → EndsChecked inp w (by_status_optional inp w want ref ref.status)
by_status_optional-Ends inp w want ref k = ground (
  arith,
  wait_op-Ends inp w,
  reject_op-Ends inp w FailureCode.reference_unsuccessful,
  reject_op-Ends inp w FailureCode.reference_kind_invalid,
  reject_op-Ends inp w FailureCode.reference_mismatch,
)

require_reference-Ends :
    (inp : ApplyInput) (w : Wallet)
    → IsReady inp w
    → requires_reference inp.operation.kind ≡ true
    → EndsChecked inp w (require_reference inp w)
unfolding require_reference
require_reference-Ends inp w k h = elim (Option-cases (looked_up inp)) [
  | inl e ↦ ground (arith, wait_op-Ends inp w)
  | inr (ref, e) ↦ ground (arith, by_status-Ends inp w ref)
]

resolve_optional_reference-Ends :
    (inp : ApplyInput) (w : Wallet) (want : Kind)
    → IsReady inp w
    → EndsChecked inp w (resolve_optional_reference inp w want)
unfolding resolve_optional_reference
resolve_optional_reference-Ends inp w want k = elim (Option-cases (looked_up inp)) [
  | inl e ↦ ground (arith, wait_op-Ends inp w)
  | inr (ref, e) ↦ ground (arith, by_status_optional-Ends inp w want ref)
]

apply_win-Ends :
    (inp : ApplyInput) (w : Wallet)
    → IsReady inp w
    → IsAmount w inp.operation.money
    → Ends inp w (apply_win inp w)
unfolding apply_win
apply_win-Ends inp w k a =
    grind (arith, resolve_optional_reference-Ends inp w Kind.bet, credit_resolved-Ends inp w)

apply_loss-Ends : (inp : ApplyInput) (w : Wallet) → IsReady inp w → Ends inp w (apply_loss inp w)
unfolding apply_loss mark_processed
apply_loss-Ends inp w k = ground arith

refund_of-Ends :
    (inp : ApplyInput) (w : Wallet) (ref : WagerTransaction)
    → IsReady inp w
    → IsAmount w inp.operation.money
    → Ends inp w (refund_of inp w ref)
unfolding refund_of
refund_of-Ends inp w ref k a = ground (
  arith,
  reject_op-Ends inp w FailureCode.reference_kind_invalid,
  reject_op-Ends inp w FailureCode.reference_mismatch,
  reject_op-Ends inp w FailureCode.duplicate_reversal,
  credit_resolved-Ends inp w ref.id,
)

rollback_of-Ends :
    (inp : ApplyInput) (w : Wallet) (ref : WagerTransaction)
    → IsReady inp w
    → IsAmount w inp.operation.money
    → Ends inp w (rollback_of inp w ref)
unfolding rollback_of
rollback_of-Ends inp w ref k a = ground (
  arith,
  reject_op-Ends inp w FailureCode.reference_kind_invalid,
  reject_op-Ends inp w FailureCode.reference_mismatch,
  reject_op-Ends inp w FailureCode.duplicate_reversal,
  reverse_movement-Ends inp w ref,
)

apply_refund-Ends :
    (inp : ApplyInput) (w : Wallet)
    → IsReady inp w
    → IsAmount w inp.operation.money
    → inp.operation.kind ≡ Kind.refund
    → Ends inp w (apply_refund inp w)
unfolding apply_refund
apply_refund-Ends inp w k a h = grind (arith, require_reference-Ends inp w, refund_of-Ends inp w)

apply_rollback-Ends :
    (inp : ApplyInput) (w : Wallet)
    → IsReady inp w
    → IsAmount w inp.operation.money
    → inp.operation.kind ≡ Kind.rollback
    → Ends inp w (apply_rollback inp w)
unfolding apply_rollback
apply_rollback-Ends inp w k a h =
    grind (arith, require_reference-Ends inp w, rollback_of-Ends inp w)

by_kind-Ends :
    (inp : ApplyInput) (w : Wallet)
    → IsReady inp w
    → inp.operation.money.currency ≡ w.currency
    → Ends inp w (by_kind inp w inp.operation.kind)
unfolding apply_bet
by_kind-Ends inp w k c = ground (
  arith,
  ready-IsAmount inp w,
  debit_resolved-Ends inp w FailureCode.insufficient_funds,
  apply_win-Ends inp w,
  apply_loss-Ends inp w,
  apply_refund-Ends inp w,
  apply_rollback-Ends inp w,
)

-- On a ready input `Apply` settles the operation as processed, rejected or waiting, and its only
-- error is an overflow of the balance. A result keeps what the operation moves; without an entry
-- the wallet is as it was; with one the operation is processed, the wallet is valid, its balance
-- has moved by exactly the amount in the direction of the entry and its version by one; and the
-- events are those of the status and of the entry.
pub apply-Ends :
    (inp : ApplyInput) (w : Wallet) → inp.wallet ≡ some w → IsReady inp w → Ends inp w (apply inp)
unfolding apply
apply-Ends inp w e k = ground (
  arith,
  by_kind-Ends inp w,
  reject_op-Ends inp w FailureCode.incompatible_currency,
  str_eq_iff inp.operation.money.currency w.currency,
)
