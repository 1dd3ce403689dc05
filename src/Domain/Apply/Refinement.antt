-- ===== src/Domain/Apply/Refinement.antt =====
-- `Apply` of internal/domain/apply.go carries out the decision of Domain/Apply/Verdict.antt.
use desafio_jungle_go.Prelude.{
  ◌≡◌, refl, ◌≢◌, inl, inr, ok, err, arith, true, false, ◌&&◌, List, [], ◌∷◌, Option, none, some,
  if◌then◌else◌, Bool-cases, Option-cases,
}
use desafio_jungle_go.Prelude.Str.{Str, str_eq, str_eq_iff}
use desafio_jungle_go.Domain.Errors.{FailureCode, Sentinel}
use desafio_jungle_go.Domain.Types.{Kind, Direction}
use desafio_jungle_go.Domain.Money.Sums.{IsMoney, equal_lem}
use desafio_jungle_go.Domain.Wallet.{Wallet}
use desafio_jungle_go.Domain.Wallet.Movement.{IsAmount, debit_lem, credit_lem}
use desafio_jungle_go.Domain.Transaction.{
  WagerTransaction, mark_processed, mark_rejected, mark_pending_reference,
}
use desafio_jungle_go.Domain.Reference.{
  ApplyInput, has_processed, reject_op, wait_op, process_with_ledger, match_reference,
  require_reference, resolve_optional_reference,
}
use desafio_jungle_go.Domain.Apply.{
  credit_resolved, apply_bet, apply_win, apply_loss, refund_of, apply_refund, rollback_of,
  apply_rollback, apply, reverse_movement, by_kind,
}
use desafio_jungle_go.Domain.Apply.Outcome.{IsReady}
use desafio_jungle_go.Domain.Apply.Branches.{ready-IsAmount}
use desafio_jungle_go.Domain.Apply.Verdict.{
  refuse, hold, accept, post, Reference, same_parties, same_amount, take, kind_verdict, verdict,
  refund_verdict, rollback_verdict, is_reversed, Carries,
}

reject_op-Carries :
    (inp : ApplyInput) (w : Wallet) (code : FailureCode)
    → IsReady inp w
    → code ≢ FailureCode.empty
    → Carries inp w (refuse code) (reject_op inp w code)
unfolding reject_op mark_rejected
reject_op-Carries inp w code k h = ground arith

wait_op-Carries :
    (inp : ApplyInput) (w : Wallet) → IsReady inp w → Carries inp w hold (wait_op inp w)
unfolding wait_op mark_pending_reference
wait_op-Carries inp w k = ground arith

credit_resolved-Carries :
    (inp : ApplyInput) (w : Wallet) (id : Str)
    → IsReady inp w
    → IsAmount w inp.operation.money
    → Carries inp w (post Direction.credit id) (credit_resolved inp w id)
unfolding process_with_ledger mark_processed
credit_resolved-Carries inp w id k a =
    ground (arith, credit_lem w inp.ledger_id inp.operation.id inp.operation.money inp.now)

apply_bet-Carries :
    (inp : ApplyInput) (w : Wallet)
    → IsReady inp w
    → IsAmount w inp.operation.money
    → Carries inp w
        (take w inp.operation FailureCode.insufficient_funds inp.operation.resolved_reference_id)
        (apply_bet inp w)
unfolding apply_bet process_with_ledger mark_processed
apply_bet-Carries inp w k a = ground (
  arith,
  debit_lem w inp.ledger_id inp.operation.id inp.operation.money inp.now,
  reject_op-Carries inp w FailureCode.insufficient_funds,
)

apply_loss-Carries :
    (inp : ApplyInput) (w : Wallet) → IsReady inp w → Carries inp w accept (apply_loss inp w)
unfolding apply_loss mark_processed
apply_loss-Carries inp w k = ground arith

-- `matchReference` without amounts is the test for the same parties.
match_reference_parties :
    (op ref : WagerTransaction)
    → match_reference op ref false
      ≡ (if same_parties op ref then ok tt else err (inl Sentinel.reference_mismatch))
unfolding match_reference
match_reference_parties op ref = ground arith

-- With amounts it passes exactly for the same parties and amount.
match_reference_amount :
    (op ref : WagerTransaction)
    → IsMoney op.money
    → IsMoney ref.money
    → match_reference op ref true ≡ (
        if same_parties op ref && same_amount op ref
        then ok tt
        else err (inl Sentinel.reference_mismatch))
unfolding match_reference
match_reference_amount op ref h k =
    ground (arith, equal_lem op.money ref.money, str_eq_iff op.money.currency ref.money.currency)

apply_win-Carries :
    (inp : ApplyInput) (w : Wallet)
    → IsReady inp w
    → IsAmount w inp.operation.money
    → Carries inp w (kind_verdict inp w Kind.win) (apply_win inp w)
unfolding apply_win resolve_optional_reference
apply_win-Carries inp w k a = elim (Option-cases inp.reference) [
  | inl e ↦ ground (arith, wait_op-Carries inp w, credit_resolved-Carries inp w [])
  | inr (ref, e) ↦ ground (
    arith,
    wait_op-Carries inp w,
    reject_op-Carries inp w FailureCode.reference_unsuccessful,
    reject_op-Carries inp w FailureCode.reference_kind_invalid,
    reject_op-Carries inp w FailureCode.reference_mismatch,
    match_reference_parties inp.operation ref,
    credit_resolved-Carries inp w [],
    credit_resolved-Carries inp w ref.id,
  )
]

-- The amount of a reference that is there is well-formed.
abbrev pub HasAmount : Option WagerTransaction → Type 0
HasAmount none = Unit
HasAmount (some ref) = IsMoney ref.money

-- The code's test for a reversal.
has_processed-is_reversed :
    (rs : List WagerTransaction) (kind : Kind) (id : Str)
    → has_processed rs kind id ≡ is_reversed rs kind id
unfolding has_processed is_reversed
has_processed-is_reversed [] kind id = refl
has_processed-is_reversed (r ∷ rs) kind id = ground (
  arith,
  str_eq_iff id r.resolved_reference_id,
  str_eq_iff r.resolved_reference_id id,
  has_processed-is_reversed rs kind id,
)

refund_of-Carries :
    (inp : ApplyInput) (w : Wallet) (ref : WagerTransaction)
    → IsReady inp w
    → IsAmount w inp.operation.money
    → IsMoney ref.money
    → Carries inp w (refund_verdict inp (Reference.processed ref)) (refund_of inp w ref)
unfolding refund_of
refund_of-Carries inp w ref k a m = ground (
  arith,
  reject_op-Carries inp w FailureCode.reference_kind_invalid,
  reject_op-Carries inp w FailureCode.reference_mismatch,
  reject_op-Carries inp w FailureCode.duplicate_reversal,
  has_processed-is_reversed inp.processed_reversals Kind.refund ref.id,
  has_processed-is_reversed inp.processed_reversals Kind.rollback ref.id,
  match_reference_amount inp.operation ref,
  credit_resolved-Carries inp w ref.id,
)

debit_resolved-Carries :
    (inp : ApplyInput) (w : Wallet) (ref : WagerTransaction)
    → IsReady inp w
    → IsAmount w inp.operation.money
    → ref.kind ≢ Kind.bet
    → Carries inp w
        (take w inp.operation FailureCode.insufficient_funds_reversal ref.id)
        (reverse_movement inp w ref)
unfolding process_with_ledger mark_processed
debit_resolved-Carries inp w ref k a h = ground (
  arith,
  debit_lem w inp.ledger_id inp.operation.id inp.operation.money inp.now,
  reject_op-Carries inp w FailureCode.insufficient_funds_reversal,
)

rollback_of-Carries :
    (inp : ApplyInput) (w : Wallet) (ref : WagerTransaction)
    → IsReady inp w
    → IsAmount w inp.operation.money
    → IsMoney ref.money
    → Carries inp w (rollback_verdict inp w (Reference.processed ref)) (rollback_of inp w ref)
unfolding rollback_of
rollback_of-Carries inp w ref k a m = ground (
  arith,
  reject_op-Carries inp w FailureCode.reference_kind_invalid,
  reject_op-Carries inp w FailureCode.reference_mismatch,
  reject_op-Carries inp w FailureCode.duplicate_reversal,
  has_processed-is_reversed inp.processed_reversals Kind.refund ref.id,
  has_processed-is_reversed inp.processed_reversals Kind.rollback ref.id,
  match_reference_amount inp.operation ref,
  credit_resolved-Carries inp w ref.id,
  debit_resolved-Carries inp w ref,
)

apply_refund-Carries :
    (inp : ApplyInput) (w : Wallet)
    → IsReady inp w
    → IsAmount w inp.operation.money
    → inp.operation.kind ≡ Kind.refund
    → HasAmount inp.reference
    → Carries inp w (kind_verdict inp w Kind.refund) (apply_refund inp w)
unfolding apply_refund require_reference
apply_refund-Carries inp w k a h m = elim (Option-cases inp.reference) [
  | inl e ↦ ground (arith, wait_op-Carries inp w)
  | inr (ref, e) ↦ ground (
    arith,
    wait_op-Carries inp w,
    reject_op-Carries inp w FailureCode.reference_unsuccessful,
    refund_of-Carries inp w ref,
  )
]

apply_rollback-Carries :
    (inp : ApplyInput) (w : Wallet)
    → IsReady inp w
    → IsAmount w inp.operation.money
    → inp.operation.kind ≡ Kind.rollback
    → HasAmount inp.reference
    → Carries inp w (kind_verdict inp w Kind.rollback) (apply_rollback inp w)
unfolding apply_rollback require_reference
apply_rollback-Carries inp w k a h m = elim (Option-cases inp.reference) [
  | inl e ↦ ground (arith, wait_op-Carries inp w)
  | inr (ref, e) ↦ ground (
    arith,
    wait_op-Carries inp w,
    reject_op-Carries inp w FailureCode.reference_unsuccessful,
    rollback_of-Carries inp w ref,
  )
]

by_kind-Carries :
    (inp : ApplyInput) (w : Wallet)
    → IsReady inp w
    → inp.operation.money.currency ≡ w.currency
    → HasAmount inp.reference
    → Carries inp w (kind_verdict inp w inp.operation.kind) (by_kind inp w inp.operation.kind)
by_kind-Carries inp w k c m = go inp.operation.kind refl
  where
    go :
        (kind : Kind)
        → inp.operation.kind ≡ kind
        → Carries inp w (kind_verdict inp w kind) (by_kind inp w kind)
    go Kind.opening e = absurd (k.applicable.kind_external e)
    go Kind.bet e = apply_bet-Carries inp w k (ready-IsAmount inp w k c (λ h. cc))
    go Kind.win e = apply_win-Carries inp w k (ready-IsAmount inp w k c (λ h. cc))
    go Kind.loss e = apply_loss-Carries inp w k
    go Kind.refund e = apply_refund-Carries inp w k (ready-IsAmount inp w k c (λ h. cc)) e m
    go Kind.rollback e = apply_rollback-Carries inp w k (ready-IsAmount inp w k c (λ h. cc)) e m

-- On a ready input whose reference, if there is one, has a well-formed amount, `Apply` carries out
-- the verdict on the input: it rejects with the code of the verdict and leaves the wallet alone,
-- holds the operation, accepts it, or moves the balance in the direction of the verdict and
-- records the reference. The one way to fail is a credit whose sum does not fit an `int64`.
pub apply-Carries :
    (inp : ApplyInput) (w : Wallet)
    → inp.wallet ≡ some w
    → IsReady inp w
    → HasAmount inp.reference
    → Carries inp w (verdict inp w) (apply inp)
unfolding apply
apply-Carries inp w e k m = elim (Bool-cases (str_eq inp.operation.money.currency w.currency)) [
  | inl same ↦ ground (
    arith,
    by_kind-Carries inp w k ((str_eq_iff inp.operation.money.currency w.currency).0 same) m,
  )
  | inr other ↦ ground (arith, reject_op-Carries inp w FailureCode.incompatible_currency)
]
