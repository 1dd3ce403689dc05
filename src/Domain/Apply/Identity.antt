-- ===== src/Domain/Apply/Identity.antt =====
-- No branch of `Apply` of internal/domain/apply.go changes what identifies the operation.
use desafio_jungle_go.Prelude.{ok, err, arith, Option-cases, inl, inr}
use desafio_jungle_go.Prelude.Str.{Str}
use desafio_jungle_go.Domain.Errors.{Res, FailureCode}
use desafio_jungle_go.Domain.Types.{Kind}
use desafio_jungle_go.Domain.Ledger.{WalletLedgerEntry}
use desafio_jungle_go.Domain.Wallet.{Wallet}
use desafio_jungle_go.Domain.Transaction.{
  WagerTransaction, mark_processed, mark_rejected, mark_pending_reference,
}
use desafio_jungle_go.Domain.Transaction.Machine.{SameIdentity}
use desafio_jungle_go.Domain.Reference.{
  ApplyInput, ApplyResult, Checked, usable, settled, reject_op, wait_op, process_with_ledger,
  require_reference, resolve_optional_reference,
}
use desafio_jungle_go.Domain.Apply.{
  credit_resolved, or_reject, apply_bet, apply_win, apply_loss, refund_of, apply_refund,
  rollback_of, apply_rollback, apply, reverse_movement, by_kind,
}

abbrev pub Keeps : ApplyInput → Res ApplyResult → Type 0
Keeps inp (ok r) = SameIdentity inp.operation r.operation
Keeps inp (err e) = Unit

abbrev KeepsChecked : ApplyInput → Res Checked → Type 0
KeepsChecked inp (ok (settled r)) = SameIdentity inp.operation r.operation
KeepsChecked inp (ok (usable ref)) = Unit
KeepsChecked inp (err e) = Unit

reject_op-Keeps :
    (inp : ApplyInput) (w : Wallet) (code : FailureCode) → Keeps inp (reject_op inp w code)
unfolding reject_op mark_rejected
reject_op-Keeps inp w code = ground arith

wait_op-Keeps : (inp : ApplyInput) (w : Wallet) → Keeps inp (wait_op inp w)
unfolding wait_op mark_pending_reference
wait_op-Keeps inp w = ground arith

process-Keeps :
    (inp : ApplyInput) (m : WalletLedgerEntry × Wallet) → Keeps inp (process_with_ledger inp m)
unfolding process_with_ledger mark_processed
process-Keeps inp m = ground arith

credit_resolved-Keeps :
    (inp : ApplyInput) (w : Wallet) (id : Str) → Keeps inp (credit_resolved inp w id)
unfolding process_with_ledger mark_processed
credit_resolved-Keeps inp w id = ground arith

or_reject-Keeps :
    (inp : ApplyInput) (w : Wallet) (code : FailureCode) (m : Res (WalletLedgerEntry × Wallet))
    → Keeps inp (or_reject inp w code m (process_with_ledger inp))
or_reject-Keeps inp w code (ok m) = process-Keeps inp m
or_reject-Keeps inp w code (err e) = ground (arith, reject_op-Keeps inp w code)

reverse_movement-Keeps :
    (inp : ApplyInput) (w : Wallet) (ref : WagerTransaction)
    → Keeps inp (reverse_movement inp w ref)
unfolding process_with_ledger mark_processed
reverse_movement-Keeps inp w ref = ground (
  arith,
  credit_resolved-Keeps inp w ref.id,
  reject_op-Keeps inp w FailureCode.insufficient_funds_reversal,
)

require_reference-Keeps :
    (inp : ApplyInput) (w : Wallet) → KeepsChecked inp (require_reference inp w)
unfolding require_reference
require_reference-Keeps inp w =
    ground (arith, wait_op-Keeps inp w, reject_op-Keeps inp w FailureCode.reference_unsuccessful)

resolve_optional_reference-Keeps :
    (inp : ApplyInput) (w : Wallet) (want : Kind)
    → KeepsChecked inp (resolve_optional_reference inp w want)
unfolding resolve_optional_reference
resolve_optional_reference-Keeps inp w want = ground (
  arith,
  wait_op-Keeps inp w,
  reject_op-Keeps inp w FailureCode.reference_unsuccessful,
  reject_op-Keeps inp w FailureCode.reference_kind_invalid,
  reject_op-Keeps inp w FailureCode.reference_mismatch,
)

apply_win-Keeps : (inp : ApplyInput) (w : Wallet) → Keeps inp (apply_win inp w)
unfolding apply_win
apply_win-Keeps inp w =
    grind (arith, resolve_optional_reference-Keeps inp w Kind.bet, credit_resolved-Keeps inp w)

refund_of-Keeps :
    (inp : ApplyInput) (w : Wallet) (ref : WagerTransaction) → Keeps inp (refund_of inp w ref)
unfolding refund_of
refund_of-Keeps inp w ref = ground (
  arith,
  reject_op-Keeps inp w FailureCode.reference_kind_invalid,
  reject_op-Keeps inp w FailureCode.reference_mismatch,
  reject_op-Keeps inp w FailureCode.duplicate_reversal,
  credit_resolved-Keeps inp w ref.id,
)

rollback_of-Keeps :
    (inp : ApplyInput) (w : Wallet) (ref : WagerTransaction) → Keeps inp (rollback_of inp w ref)
unfolding rollback_of
rollback_of-Keeps inp w ref = ground (
  arith,
  reject_op-Keeps inp w FailureCode.reference_kind_invalid,
  reject_op-Keeps inp w FailureCode.reference_mismatch,
  reject_op-Keeps inp w FailureCode.duplicate_reversal,
  reverse_movement-Keeps inp w ref,
)

apply_refund-Keeps : (inp : ApplyInput) (w : Wallet) → Keeps inp (apply_refund inp w)
unfolding apply_refund
apply_refund-Keeps inp w = grind (arith, require_reference-Keeps inp w, refund_of-Keeps inp w)

apply_rollback-Keeps : (inp : ApplyInput) (w : Wallet) → Keeps inp (apply_rollback inp w)
unfolding apply_rollback
apply_rollback-Keeps inp w = grind (arith, require_reference-Keeps inp w, rollback_of-Keeps inp w)

by_kind-Keeps : (inp : ApplyInput) (w : Wallet) (kind : Kind) → Keeps inp (by_kind inp w kind)
unfolding apply_bet apply_loss mark_processed
by_kind-Keeps inp w Kind.opening = tt
by_kind-Keeps inp w Kind.bet = or_reject-Keeps inp w FailureCode.insufficient_funds _
by_kind-Keeps inp w Kind.win = apply_win-Keeps inp w
by_kind-Keeps inp w Kind.loss = ground arith
by_kind-Keeps inp w Kind.refund = apply_refund-Keeps inp w
by_kind-Keeps inp w Kind.rollback = apply_rollback-Keeps inp w

-- Whatever the input, a result of `Apply` has the operation under its own identity, with its
-- provider, keys, payload hash, kind, amount and reference unchanged.
pub apply-Keeps : (inp : ApplyInput) → Keeps inp (apply inp)
unfolding apply
apply-Keeps inp = elim (Option-cases inp.wallet) [
  | inl e ↦ rw e tt
  | inr (w, e) ↦ rw e (
      ground (
        arith,
        by_kind-Keeps inp w inp.operation.kind,
        reject_op-Keeps inp w FailureCode.incompatible_currency,
      ))
]
