-- ===== src/Domain/Apply.antt =====
-- internal/domain/apply.go: the effect of an external operation on a wallet copy. `in.Wallet`,
-- once it is known not to be nil, is passed on as `w`.
pub mod Outcome
pub mod Branches
pub mod Verdict
pub mod Refinement
pub mod Identity
use desafio_jungle_go.Domain.Reference.{
  ApplyInput, ApplyResult, Checked, by_status, by_status_optional, check_optional, has_processed,
  looked_up, match_reference, process_with_ledger, reject_op, require_reference,
  resolve_optional_reference, set_resolved, settle, settled, usable, wait_op,
}
use desafio_jungle_go.Prelude.{
  Bool, true, false, not, ◌&&◌, ◌||◌, List, [], ◌∷◌, Option, none, some, Result, ok, err, ◌>>=◌,
  ◌>>◌, guard, if◌then◌else◌, ◌⊎◌, inl, inr,
}
use desafio_jungle_go.Prelude.Str.{Str, str_eq, is_empty}
use desafio_jungle_go.Prelude.Time.{Time, utc}
use desafio_jungle_go.Domain.Errors.{
  Res, ClassifiedError, FailureCode, Sentinel, validation, rejection, is_coded,
}
use desafio_jungle_go.Domain.Types.{Kind, Status, Origin, kind_eq, status_eq}
use desafio_jungle_go.Domain.Money.{require_initialized, equal}
use desafio_jungle_go.Domain.Ledger.{WalletLedgerEntry}
use desafio_jungle_go.Domain.Wallet.{Wallet, debit, credit}
use desafio_jungle_go.Domain.Transaction.{
  WagerTransaction, validate_kind_amount, mark_processed, mark_rejected, mark_pending_reference,
}
use desafio_jungle_go.Domain.Event.{
  Event, new_wager_transaction_processed, new_wager_transaction_rejected,
  new_wallet_balance_changed, new_wager_transaction_pending_reference,
}

-- A movement whose lack of funds rejects the operation with `code`.
abbrev or_reject :
    ApplyInput
    → Wallet
    → FailureCode
    → Res (WalletLedgerEntry × Wallet)
    → (WalletLedgerEntry × Wallet → Res ApplyResult)
    → Res ApplyResult
or_reject inp w code (ok m) next = next m
or_reject inp w code (err e) next =
    if is_coded e FailureCode.insufficient_funds then reject_op inp w code else err e

-- `applyBet`
unfoldable pub apply_bet : ApplyInput → Wallet → Res ApplyResult
apply_bet inp w =
    or_reject inp w FailureCode.insufficient_funds
      (debit w inp.ledger_id inp.operation.id inp.operation.money inp.now) (process_with_ledger inp)

-- The credit of `applyWin` and `applyRefund`, and the reference that it resolved.
abbrev credit_resolved : ApplyInput → Wallet → Str → Res ApplyResult
credit_resolved inp w resolved_id = do
  m ← credit w inp.ledger_id inp.operation.id inp.operation.money inp.now
  out ← process_with_ledger inp m
  ok (set_resolved resolved_id out)

-- `applyWin`
unfoldable pub apply_win : ApplyInput → Wallet → Res ApplyResult
apply_win inp w =
    if is_empty inp.operation.reference_external_id then credit_resolved inp w [] else do
      checked ← resolve_optional_reference inp w Kind.bet
      elim checked [ settled res ↦ ok res | usable ref ↦ credit_resolved inp w ref.id ]

-- `applyLoss`
unfoldable pub apply_loss : ApplyInput → Wallet → Res ApplyResult
apply_loss inp w = do
  op ← mark_processed inp.operation w.balance (utc inp.now)
  ok (record {
    wallet = w;
    operation = op;
    ledger = none;
    events = new_wager_transaction_processed op (utc inp.now) ∷ [];
  })

-- `applyRefund` once the reference is processed.
unfoldable pub refund_of : ApplyInput → Wallet → WagerTransaction → Res ApplyResult
refund_of inp w ref =
    if not (kind_eq ref.kind Kind.bet)
    then reject_op inp w FailureCode.reference_kind_invalid
    else elim (match_reference inp.operation ref true) [
      | err e ↦ reject_op inp w FailureCode.reference_mismatch
      | ok _ ↦
          if has_processed inp.processed_reversals Kind.refund ref.id
            || has_processed inp.processed_reversals Kind.rollback ref.id
          then reject_op inp w FailureCode.duplicate_reversal
          else credit_resolved inp w ref.id
    ]

-- `applyRefund`
unfoldable pub apply_refund : ApplyInput → Wallet → Res ApplyResult
unfolding refund_of
apply_refund inp w = do
  checked ← require_reference inp w
  elim checked [ settled res ↦ ok res | usable ref ↦ refund_of inp w ref ]

-- The kinds that a rollback reverses.
abbrev reversible : Kind → Bool
reversible Kind.bet = true
reversible Kind.win = true
reversible Kind.refund = true
reversible _ = false

-- The last `switch` of `applyRollback`: the movement against that of the reference.
abbrev reverse_movement : ApplyInput → Wallet → WagerTransaction → Res ApplyResult
reverse_movement inp w ref =
    if kind_eq ref.kind Kind.bet
    then credit_resolved inp w ref.id
    else or_reject inp w FailureCode.insufficient_funds_reversal
        (debit w inp.ledger_id inp.operation.id inp.operation.money inp.now)
        (λ m. do out ← process_with_ledger inp m; ok (set_resolved ref.id out))

-- `applyRollback` once the reference is processed.
unfoldable pub rollback_of : ApplyInput → Wallet → WagerTransaction → Res ApplyResult
rollback_of inp w ref =
    if not (reversible ref.kind)
    then reject_op inp w FailureCode.reference_kind_invalid
    else elim (match_reference inp.operation ref true) [
      | err e ↦ reject_op inp w FailureCode.reference_mismatch
      | ok _ ↦
          if has_processed inp.processed_reversals Kind.rollback ref.id
          then reject_op inp w FailureCode.duplicate_reversal
          else if kind_eq ref.kind Kind.bet
              && has_processed inp.processed_reversals Kind.refund ref.id
          then reject_op inp w FailureCode.duplicate_reversal
          else reverse_movement inp w ref
    ]

-- `applyRollback`
unfoldable pub apply_rollback : ApplyInput → Wallet → Res ApplyResult
unfolding rollback_of
apply_rollback inp w = do
  checked ← require_reference inp w
  elim checked [ settled res ↦ ok res | usable ref ↦ rollback_of inp w ref ]

-- The last `switch` of `Apply`; an opening does not get here.
abbrev by_kind : ApplyInput → Wallet → Kind → Res ApplyResult
by_kind inp w Kind.bet = apply_bet inp w
by_kind inp w Kind.win = apply_win inp w
by_kind inp w Kind.loss = apply_loss inp w
by_kind inp w Kind.refund = apply_refund inp w
by_kind inp w Kind.rollback = apply_rollback inp w
by_kind inp w Kind.opening = err (validation FailureCode.invalid_kind Sentinel.invalid_kind)

abbrev is_origin_external : Origin → Bool
is_origin_external Origin.external = true
is_origin_external Origin.internal = false

-- `Apply` with a wallet.
unfoldable pub apply_to : ApplyInput → Wallet → Res ApplyResult
apply_to inp w = do
  guard (is_origin_external inp.operation.origin)
      (validation FailureCode.opening_not_allowed Sentinel.opening_not_allowed)
  guard (not (kind_eq inp.operation.kind Kind.opening))
      (validation FailureCode.opening_not_allowed Sentinel.opening_not_allowed)
  guard
      (status_eq inp.operation.status Status.pending
        || status_eq inp.operation.status Status.pending_reference)
      (rejection FailureCode.invalid_transition Sentinel.terminal_state)
  require_initialized inp.operation.money
  if not (str_eq inp.operation.money.currency w.currency)
      then reject_op inp w FailureCode.incompatible_currency
      else do
        validate_kind_amount inp.operation.kind inp.operation.money
        by_kind inp w inp.operation.kind

-- `Apply`
unfoldable pub apply : ApplyInput → Res ApplyResult
unfolding apply_to
apply inp = elim inp.wallet [
  | none ↦ err (validation FailureCode.missing_identity Sentinel.missing_identity)
  | some w ↦ apply_to inp w
]
