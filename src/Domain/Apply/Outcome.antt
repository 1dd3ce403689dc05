-- ===== src/Domain/Apply/Outcome.antt =====
-- What `Apply` of internal/domain/apply.go leaves behind, on every branch.
use desafio_jungle_go.Prelude.{
  ◌≡◌, ◌≢◌, ok, err, arith, true, false, Option, none, some, List, [], ◌∷◌, if◌then◌else◌,
}
use desafio_jungle_go.Prelude.Int.{pos, ◌+ℤ◌, ◌-ℤ◌, ◌<ℤ◌, +ℤ_parts, -ℤ_parts}
use desafio_jungle_go.Prelude.Int64.{max_int64}
use desafio_jungle_go.Prelude.Str.{Str}
use desafio_jungle_go.Domain.Errors.{Res, FailureCode, Sentinel, validation}
use desafio_jungle_go.Domain.Types.{Status, status_eq}
use desafio_jungle_go.Domain.Ledger.{WalletLedgerEntry, is_blank}
use desafio_jungle_go.Domain.Ledger.Posting.{posted}
use desafio_jungle_go.Domain.Wallet.{Wallet, debit}
use desafio_jungle_go.Domain.Wallet.Invariant.{IsValid}
use desafio_jungle_go.Domain.Wallet.Movement.{IsAmount, moved-IsValid, debit_lem, credit_lem}
use desafio_jungle_go.Domain.Transaction.{
  WagerTransaction, mark_processed, mark_rejected, mark_pending_reference,
}
use desafio_jungle_go.Domain.Transaction.Machine.{IsConsistent}
use desafio_jungle_go.Domain.Transaction.Creation.{IsApplicable}
use desafio_jungle_go.Domain.Event.{
  Event, new_wager_transaction_processed, new_wager_transaction_rejected,
  new_wallet_balance_changed, new_wager_transaction_pending_reference,
}
use desafio_jungle_go.Domain.Reference.{
  ApplyInput, ApplyResult, reject_op, wait_op, process_with_ledger, Checked, usable, settled,
}
use desafio_jungle_go.Domain.Apply.{credit_resolved, or_reject, reverse_movement}

-- An input that `Apply` can work on: a valid wallet whose version can grow, an applicable and
-- consistent operation, and an identifier for the entry.
pub record IsReady (inp : ApplyInput) (w : Wallet) : Type 0 where
  pub wallet_valid : IsValid w
  pub version_room : w.version <ℤ max_int64
  pub ledger_set : is_blank inp.ledger_id ≡ false
  pub applicable : IsApplicable inp.operation
  pub consistent : IsConsistent inp.operation

-- The wallet and the entry that a result has, by the status of the operation.
abbrev pub Moves : Wallet → WagerTransaction → Wallet → Option WalletLedgerEntry → Type 0
Moves w op w' none = w' ≡ w
Moves w op w' (some e) =
    IsValid w'
    × (op.status ≡ Status.processed)
    × (e.transaction_id ≡ op.id)
    × (e.wallet_id ≡ w.id)
    × (e.money ≡ op.money)
    × (e.balance_before ≡ w.balance)
    × (e.balance_after ≡ w'.balance)
    × (w'.balance.minor ≡ posted e.direction w.balance.minor op.money.minor)
    × (w'.version ≡ w.version +ℤ pos 1)
    × (w'.id ≡ w.id)
    × (w'.currency ≡ w.currency)

-- The event of a changed balance, if there is an entry.
abbrev pub balance_events : ApplyInput → Wallet → Option WalletLedgerEntry → List Event
balance_events inp w none = []
balance_events inp w (some e) =
    new_wallet_balance_changed (record {
      wallet_id = w.id;
      transaction_id = inp.operation.id;
      direction = e.direction;
      money = inp.operation.money;
      balance_before = e.balance_before;
      balance_after = w.balance;
      wallet_version = w.version;
      occurred_at_utc = inp.now;
    })
    ∷ []

-- The events that fit a result: one for the status, unless the operation was waiting already, and
-- one for the balance where an entry changed it.
abbrev pub events_for :
    ApplyInput → Wallet → WagerTransaction → Option WalletLedgerEntry → Status → List Event
events_for inp w op entry Status.processed =
    new_wager_transaction_processed op inp.now ∷ balance_events inp w entry
events_for inp w op entry Status.rejected = new_wager_transaction_rejected op inp.now ∷ []
events_for inp w op entry Status.pending_reference =
    if status_eq inp.operation.status Status.pending_reference
    then []
    else new_wager_transaction_pending_reference op inp.now ∷ []
events_for inp w op entry Status.pending = []
events_for inp w op entry Status.failed = []

-- What a result records by its status: a processed operation the balance that the wallet is left
-- with, a rejected one its failure code, a waiting one neither; it is not left pending, and does not fail.
abbrev pub Settles : Status → WagerTransaction → Wallet → Type 0
Settles Status.processed op w = (op.has_result ≡ true) × (op.result_balance ≡ w.balance)
Settles Status.rejected op w = op.failure_code ≢ FailureCode.empty
Settles Status.pending_reference op w =
    (op.has_result ≡ false) × (op.failure_code ≡ FailureCode.empty)
Settles Status.pending op w = ⊥
Settles Status.failed op w = ⊥

-- The outcome of an operation: it is settled as processed, rejected or waiting; it keeps what it
-- moves; a processed one records the balance that the wallet is left with; and the wallet either
-- is as it was, with no entry, or has moved by the entry. The events are those that fit.
pub record IsOutcome (inp : ApplyInput) (w : Wallet) (r : ApplyResult) : Type 0 where
  pub same_id : r.operation.id ≡ inp.operation.id
  pub same_kind : r.operation.kind ≡ inp.operation.kind
  pub same_money : r.operation.money ≡ inp.operation.money
  pub settlement : Settles r.operation.status r.operation r.wallet
  pub moves : Moves w r.operation r.wallet r.ledger
  pub announced : r.events ≡ events_for inp r.wallet r.operation r.ledger r.operation.status

-- A call ends in an outcome, or in the overflow error.
abbrev pub Ends : ApplyInput → Wallet → Res ApplyResult → Type 0
Ends inp w (ok r) = IsOutcome inp w r
Ends inp w (err e) = e ≡ validation FailureCode.overflow Sentinel.overflow

-- A check ends so too, or in a processed reference.
abbrev pub EndsChecked : ApplyInput → Wallet → Res Checked → Type 0
EndsChecked inp w (ok (usable ref)) = ref.status ≡ Status.processed
EndsChecked inp w (ok (settled r)) = IsOutcome inp w r
EndsChecked inp w (err e) = e ≡ validation FailureCode.overflow Sentinel.overflow

pub reject_op-Ends :
    (inp : ApplyInput) (w : Wallet) (code : FailureCode)
    → IsReady inp w
    → code ≢ FailureCode.empty
    → Ends inp w (reject_op inp w code)
unfolding reject_op mark_rejected
reject_op-Ends inp w code k h = ground arith

pub wait_op-Ends : (inp : ApplyInput) (w : Wallet) → IsReady inp w → Ends inp w (wait_op inp w)
unfolding wait_op mark_pending_reference
wait_op-Ends inp w k = ground arith

pub credit_resolved-Ends :
    (inp : ApplyInput) (w : Wallet) (id : Str)
    → IsReady inp w
    → IsAmount w inp.operation.money
    → Ends inp w (credit_resolved inp w id)
unfolding process_with_ledger mark_processed
credit_resolved-Ends inp w id k a = ground (
  arith,
  credit_lem w inp.ledger_id inp.operation.id inp.operation.money inp.now,
  +ℤ_parts w.balance.minor inp.operation.money.minor,
  moved-IsValid w (w.balance.minor +ℤ inp.operation.money.minor) inp.now,
)

-- Taking the amount ends in the new balance, or in a rejection with the code given.
pub debit_resolved-Ends :
    (inp : ApplyInput) (w : Wallet) (code : FailureCode)
    → IsReady inp w
    → IsAmount w inp.operation.money
    → code ≢ FailureCode.empty
    → Ends inp w (
        or_reject inp w code
          (debit w inp.ledger_id inp.operation.id inp.operation.money inp.now)
          (process_with_ledger inp))
unfolding process_with_ledger mark_processed
debit_resolved-Ends inp w code k a c = ground (
  arith,
  debit_lem w inp.ledger_id inp.operation.id inp.operation.money inp.now,
  -ℤ_parts w.balance.minor inp.operation.money.minor,
  moved-IsValid w (w.balance.minor -ℤ inp.operation.money.minor) inp.now,
  reject_op-Ends inp w code,
)

pub reverse_movement-Ends :
    (inp : ApplyInput) (w : Wallet) (ref : WagerTransaction)
    → IsReady inp w
    → IsAmount w inp.operation.money
    → Ends inp w (reverse_movement inp w ref)
unfolding process_with_ledger mark_processed
reverse_movement-Ends inp w ref k a = ground (
  arith,
  credit_resolved-Ends inp w ref.id,
  debit_lem w inp.ledger_id inp.operation.id inp.operation.money inp.now,
  -ℤ_parts w.balance.minor inp.operation.money.minor,
  moved-IsValid w (w.balance.minor -ℤ inp.operation.money.minor) inp.now,
  reject_op-Ends inp w FailureCode.insufficient_funds_reversal,
)
