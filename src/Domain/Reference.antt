-- ===== src/Domain/Reference.antt =====
-- internal/domain/apply.go: the input and the result of `Apply`, the three ways in which it ends,
-- and what it asks of the reference of an operation.
use desafio_jungle_go.Prelude.{
  Bool, false, not, ◌&&◌, ◌||◌, List, [], ◌∷◌, Option, none, some, Result, ok, err, ◌>>=◌, ◌>>◌,
  guard, if◌then◌else◌, ◌⊎◌, inl, inr,
}
use desafio_jungle_go.Prelude.Str.{Str, str_eq, is_empty}
use desafio_jungle_go.Prelude.Time.{Time, utc}
use desafio_jungle_go.Domain.Errors.{Res, ClassifiedError, FailureCode, Sentinel, validation}
use desafio_jungle_go.Domain.Types.{Kind, Status, kind_eq, status_eq}
use desafio_jungle_go.Domain.Money.{equal}
use desafio_jungle_go.Domain.Ledger.{WalletLedgerEntry}
use desafio_jungle_go.Domain.Wallet.{Wallet}
use desafio_jungle_go.Domain.Transaction.{
  WagerTransaction, mark_processed, mark_rejected, mark_pending_reference,
}
use desafio_jungle_go.Domain.Event.{
  Event, new_wager_transaction_processed, new_wager_transaction_rejected,
  new_wallet_balance_changed, new_wager_transaction_pending_reference,
}

pub record ApplyInput : Type 0 where
  pub wallet : Option Wallet
  pub operation : WagerTransaction
  pub reference : Option WagerTransaction
  pub reference_looked_up : Bool
  pub processed_reversals : List WagerTransaction
  pub ledger_id : Str
  pub now : Time

pub record ApplyResult : Type 0 where
  pub wallet : Wallet
  pub operation : WagerTransaction
  pub ledger : Option WalletLedgerEntry
  pub events : List Event

-- `rejectOp`
unfoldable pub reject_op : ApplyInput → Wallet → FailureCode → Res ApplyResult
reject_op inp w code = do
  op ← mark_rejected inp.operation code (utc inp.now)
  ok (record {
    wallet = w;
    operation = op;
    ledger = none;
    events = new_wager_transaction_rejected op (utc inp.now) ∷ [];
  })

-- `waitOp`
unfoldable pub wait_op : ApplyInput → Wallet → Res ApplyResult
wait_op inp w = do
  op ← mark_pending_reference inp.operation [] (utc inp.now)
  ok (record {
    wallet = w;
    operation = op;
    ledger = none;
    events =
        (if status_eq inp.operation.status Status.pending_reference
          then []
          else new_wager_transaction_pending_reference op (utc inp.now) ∷ []);
  })

-- `processWithLedger`
unfoldable pub process_with_ledger : ApplyInput → WalletLedgerEntry × Wallet → Res ApplyResult
process_with_ledger inp (entry, w) = do
  op ← mark_processed inp.operation w.balance inp.now
  ok (record {
    wallet = w;
    operation = op;
    ledger = some entry;
    events =
        new_wager_transaction_processed op inp.now
        ∷ new_wallet_balance_changed (record {
          wallet_id = w.id;
          transaction_id = op.id;
          direction = entry.direction;
          money = entry.money;
          balance_before = entry.balance_before;
          balance_after = entry.balance_after;
          wallet_version = w.version;
          occurred_at_utc = inp.now;
        })
        ∷ [];
  })

-- `out.Operation.resolvedReferenceID = id`
abbrev pub set_resolved : Str → ApplyResult → ApplyResult
set_resolved id out =
    let op = out.operation in record out { operation = record op { resolved_reference_id = id } }

-- `matchReference`: its error is a plain sentinel, or that of `Money.Equal`.
unfoldable pub match_reference :
    WagerTransaction → WagerTransaction → Bool → Result (Sentinel ⊎ ClassifiedError) (Unit {0})
match_reference op ref require_equal_amount = do
  guard
      (str_eq op.provider_id ref.provider_id
        && str_eq op.player_id ref.player_id
        && str_eq op.wallet_id ref.wallet_id
        && str_eq op.round_id ref.round_id)
      (inl Sentinel.reference_mismatch)
  guard (str_eq op.money.currency ref.money.currency) (inl Sentinel.reference_mismatch)
  if require_equal_amount
      then elim (equal op.money ref.money) [
        | err e ↦ err (inr e)
        | ok eq ↦ guard eq (inl Sentinel.reference_mismatch)
      ]
      else ok tt

-- `hasProcessed`
unfoldable pub has_processed : List WagerTransaction → Kind → Str → Bool
has_processed [] kind referenced_id = false
has_processed (r ∷ rs) kind referenced_id =
    (status_eq r.status Status.processed
      && kind_eq r.kind kind
      && str_eq r.resolved_reference_id referenced_id)
    || has_processed rs kind referenced_id

-- What a look at the reference ends in: a reference to go on with, or the result to return.
pub data Checked : Type 0 where
  usable : WagerTransaction → Checked
  settled : ApplyResult → Checked

abbrev pub settle : Res ApplyResult → Res Checked
settle r = do res ← r; ok (settled res)

-- The `switch` over `ref.status` of `requireReference`.
abbrev pub by_status : ApplyInput → Wallet → WagerTransaction → Status → Res Checked
by_status inp w ref Status.pending = settle (wait_op inp w)
by_status inp w ref Status.pending_reference = settle (wait_op inp w)
by_status inp w ref Status.rejected = settle (reject_op inp w FailureCode.reference_unsuccessful)
by_status inp w ref Status.failed = settle (reject_op inp w FailureCode.reference_unsuccessful)
by_status inp w ref Status.processed = ok (usable ref)

abbrev pub looked_up : ApplyInput → Option WagerTransaction
looked_up inp = if inp.reference_looked_up then inp.reference else none

-- `requireReference`
unfoldable pub require_reference : ApplyInput → Wallet → Res Checked
require_reference inp w = do
  guard (not (is_empty inp.operation.reference_external_id))
      (validation FailureCode.missing_reference Sentinel.missing_reference)
  elim (looked_up inp) [ none ↦ settle (wait_op inp w) | some ref ↦ by_status inp w ref ref.status ]

-- The tests of `resolveOptionalReference` on a processed reference.
abbrev pub check_optional : ApplyInput → Wallet → Kind → WagerTransaction → Res Checked
check_optional inp w want ref =
    if not (kind_eq ref.kind want)
    then settle (reject_op inp w FailureCode.reference_kind_invalid)
    else elim (match_reference inp.operation ref false) [
      | err e ↦ settle (reject_op inp w FailureCode.reference_mismatch)
      | ok _ ↦ ok (usable ref)
    ]

abbrev pub by_status_optional : ApplyInput → Wallet → Kind → WagerTransaction → Status → Res Checked
by_status_optional inp w want ref Status.pending = settle (wait_op inp w)
by_status_optional inp w want ref Status.pending_reference = settle (wait_op inp w)
by_status_optional inp w want ref Status.rejected =
    settle (reject_op inp w FailureCode.reference_unsuccessful)
by_status_optional inp w want ref Status.failed =
    settle (reject_op inp w FailureCode.reference_unsuccessful)
by_status_optional inp w want ref Status.processed = check_optional inp w want ref

-- `resolveOptionalReference`
unfoldable pub resolve_optional_reference : ApplyInput → Wallet → Kind → Res Checked
resolve_optional_reference inp w want = elim (looked_up inp) [
  | none ↦ settle (wait_op inp w)
  | some ref ↦ by_status_optional inp w want ref ref.status
]
