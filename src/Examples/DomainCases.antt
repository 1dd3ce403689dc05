-- ===== src/Examples/DomainCases.antt =====
-- The theorems on internal/domain at concrete inputs.
use desafio_jungle_go.Prelude.{[], ◌∷◌, ◌≡◌, ◌↔◌, refl, ok, err, arith, if◌then◌else◌}
use desafio_jungle_go.Prelude.Int.{pos, negsuc, ◌+ℤ◌, ◌-ℤ◌, ltb_ℤ}
use desafio_jungle_go.Prelude.Int64.{in_int64, max_int64}
use desafio_jungle_go.Prelude.Str.{codes, trim_space, str_eq}
use desafio_jungle_go.Domain.Errors.{FailureCode, Sentinel, validation, rejection}
use desafio_jungle_go.Domain.Types.{
  Direction, Kind, Status, kind_str, status_str, parse_status, parse_kind, direction_str,
  Kind-discrete, Status-discrete,
}
use desafio_jungle_go.Domain.Money.{money, add_int64, sub_int64, parse_currency}
use desafio_jungle_go.Domain.Money.Overflow.{add_int64_lem, sub_int64_lem}
use desafio_jungle_go.Domain.Ledger.{is_blank, new_ledger_entry, WalletLedgerEntry}
use desafio_jungle_go.Domain.Ledger.Posting.{
  IsPosting, entry_of, new_ledger_entry-IsPosting, new_ledger_entry_lem,
}
use desafio_jungle_go.Domain.Wallet.{debit, credit, rehydrate_wallet}
use desafio_jungle_go.Domain.Wallet.Invariant.{IsValid, rehydrate_wallet-IsValid}
use desafio_jungle_go.Domain.Wallet.Movement.{moved, debit_lem, credit_lem}
use desafio_jungle_go.Domain.Transaction.{
  new_external_transaction, mark_processed, mark_pending_reference,
}
use desafio_jungle_go.Domain.Transaction.Machine.{
  Change, Reach, here, next, change, IsConsistent, SameIdentity, Reach-IsConsistent, Reach-terminal,
  Reach-SameIdentity,
}
use desafio_jungle_go.Domain.Transaction.Creation.{
  IsApplicable, new_external_transaction-IsApplicable,
}
use desafio_jungle_go.Domain.Apply.{apply}
use desafio_jungle_go.Domain.Apply.Outcome.{Ends}
use desafio_jungle_go.Domain.Apply.Branches.{apply-Ends}
use desafio_jungle_go.Domain.Apply.Verdict.{Carries, verdict}
use desafio_jungle_go.Domain.Apply.Refinement.{apply-Carries}
use desafio_jungle_go.Domain.Apply.Identity.{Keeps, apply-Keeps}
use desafio_jungle_go.Domain.Types.Printing.{parse_kind_lem, parse_status_lem}
use desafio_jungle_go.Domain.Opening.{open_wallet}
use desafio_jungle_go.Domain.Opening.Creation.{opened_funded, open_wallet_lem, opened_entry}
use desafio_jungle_go.Domain.History.{History, opened, applied, IsReconciled, History-IsReconciled}
use desafio_jungle_go.Examples.Samples.{
  brl, brl_parsed, hundred, stake, wallet, wallet-IsValid, stake-IsAmount, bet, processed_bet,
  bet_params, bet_input, bet_result, apply-bet_input, refund_input, opening_params,
  opening_params-IsOpenable, bet-IsApplicable, bet_input-IsReady, refund_input-IsReady,
}

apply-Carries_example :
    Carries refund_input wallet (verdict refund_input wallet) (apply refund_input)
apply-Carries_example = apply-Carries refund_input wallet refl refund_input-IsReady (ground arith)

apply-Ends_example : Ends bet_input wallet (apply bet_input)
apply-Ends_example = apply-Ends bet_input wallet refl bet_input-IsReady

life : History bet_result.wallet (
    entry_of
      (codes "l1")
      (codes "w1")
      (codes "t1")
      Direction.debit
      stake
      hundred
      (money (pos 7500) brl)
      9
    ∷ opened_entry opening_params
    ∷ [])
unfolding is_blank trim_space
life =
    applied bet_input bet_result
      (opened opening_params (opened_funded opening_params) opening_params-IsOpenable
        (open_wallet_lem opening_params opening_params-IsOpenable))
      refl (omega arith) refl bet-IsApplicable (refl, refl) apply-bet_input

History-IsReconciled_example : IsReconciled bet_result.wallet (
    entry_of
      (codes "l1")
      (codes "w1")
      (codes "t1")
      Direction.debit
      stake
      hundred
      (money (pos 7500) brl)
      9
    ∷ opened_entry opening_params
    ∷ [])
History-IsReconciled_example = History-IsReconciled life

debit_lem_example : debit wallet (codes "l1") (codes "t1") stake 9 ≡ (
    if ltb_ℤ (pos 10000) (pos 2500)
    then err (rejection FailureCode.insufficient_funds Sentinel.insufficient_funds)
    else ok (
      entry_of
          (codes "l1")
          (codes "w1")
          (codes "t1")
          Direction.debit
          stake
          hundred
          (money (pos 10000 -ℤ pos 2500) brl)
          9,
      moved wallet (pos 10000 -ℤ pos 2500) 9,
    ))
unfolding is_blank trim_space
debit_lem_example =
    debit_lem wallet (codes "l1") (codes "t1") stake 9 wallet-IsValid stake-IsAmount (omega arith)
      refl refl

credit_lem_example : credit wallet (codes "l1") (codes "t1") stake 9 ≡ (
    if ltb_ℤ max_int64 (pos 10000 +ℤ pos 2500)
    then err (validation FailureCode.overflow Sentinel.overflow)
    else ok (
      entry_of
          (codes "l1")
          (codes "w1")
          (codes "t1")
          Direction.credit
          stake
          hundred
          (money (pos 10000 +ℤ pos 2500) brl)
          9,
      moved wallet (pos 10000 +ℤ pos 2500) 9,
    ))
unfolding is_blank trim_space
credit_lem_example =
    credit_lem wallet (codes "l1") (codes "t1") stake 9 wallet-IsValid stake-IsAmount (omega arith)
      refl refl

new_ledger_entry_lem_example :
    new_ledger_entry
      (codes "l1")
      (codes "w1")
      (codes "t1")
      (direction_str Direction.debit)
      stake
      hundred
      (money (pos 7500) brl)
      9
    ≡ ok (
        entry_of
          (codes "l1")
          (codes "w1")
          (codes "t1")
          Direction.debit
          stake
          hundred
          (money (pos 7500) brl)
          9)
unfolding is_blank trim_space ◌-ℤ◌
new_ledger_entry_lem_example =
    new_ledger_entry_lem (codes "l1") (codes "w1") (codes "t1") Direction.debit stake hundred
      (money (pos 7500) brl) 9 (ground arith) (ground arith) (ground arith) refl refl refl
      (record {
        positive = omega arith;
        before_nonneg = omega arith;
        after_nonneg = omega arith;
        before_currency = refl;
        after_currency = refl;
        balanced = refl;
      })

abbrev debit_entry : WalletLedgerEntry
debit_entry =
    entry_of (codes "l1") (codes "w1") (codes "t1") Direction.debit stake hundred
      (money (pos 7500) brl) 9

new_ledger_entry-IsPosting_example :
    (debit_entry
      ≡ entry_of
          (codes "l1")
          (codes "w1")
          (codes "t1")
          Direction.debit
          stake
          hundred
          (money (pos 7500) brl)
          9)
    × IsPosting debit_entry
new_ledger_entry-IsPosting_example =
    new_ledger_entry-IsPosting (codes "l1") (codes "w1") (codes "t1") Direction.debit stake hundred
      (money (pos 7500) brl) 9 (ground arith) (ground arith) (ground arith)
      new_ledger_entry_lem_example

bet_reaches : Reach bet (record processed_bet { updated_at = 9 })
unfolding change mark_pending_reference mark_processed Status-discrete
bet_reaches =
    next (Change.processed (money (pos 7500) brl) 9) (next (Change.waiting [] 8) here refl) refl

Reach-IsConsistent_example : IsConsistent (record processed_bet { updated_at = 9 })
Reach-IsConsistent_example = Reach-IsConsistent (refl, refl) bet_reaches

Reach-SameIdentity_example : SameIdentity bet (record processed_bet { updated_at = 9 })
Reach-SameIdentity_example = Reach-SameIdentity bet_reaches

Reach-terminal_example : processed_bet ≡ processed_bet
Reach-terminal_example = Reach-terminal refl here

new_external_transaction-IsApplicable_example :
    IsApplicable bet × IsConsistent bet × (bet.status ≡ Status.pending)
unfolding new_external_transaction parse_kind str_eq is_blank trim_space Kind-discrete
new_external_transaction-IsApplicable_example =
    new_external_transaction-IsApplicable bet_params (ground arith) refl

open_wallet_lem_example : open_wallet opening_params ≡ ok (opened_funded opening_params)
open_wallet_lem_example = open_wallet_lem opening_params opening_params-IsOpenable

rehydrate_wallet-IsValid_example :
    IsValid wallet × (wallet.balance ≡ hundred) × (wallet.version ≡ pos 1)
unfolding rehydrate_wallet is_blank trim_space parse_currency
rehydrate_wallet-IsValid_example =
    rehydrate_wallet-IsValid (codes "w1") (codes "p1") hundred (pos 1) 5 5 (ground arith) brl_parsed
      (omega arith) refl

-- The largest and the smallest `int64`.
add_int64_lem_example : add_int64 max_int64 (pos 1) ≡ (
    if in_int64 (max_int64 +ℤ pos 1)
    then ok (max_int64 +ℤ pos 1)
    else err (validation FailureCode.overflow Sentinel.overflow))
add_int64_lem_example = add_int64_lem max_int64 (pos 1) (omega arith) (omega arith)

sub_int64_lem_example : sub_int64 (negsuc 0) (negsuc 9223372036854775807) ≡ (
    if in_int64 (negsuc 0 -ℤ negsuc 9223372036854775807)
    then ok (negsuc 0 -ℤ negsuc 9223372036854775807)
    else err (validation FailureCode.overflow Sentinel.overflow))
sub_int64_lem_example =
    sub_int64_lem (negsuc 0) (negsuc 9223372036854775807) (omega arith) (omega arith)

apply-Keeps_example : Keeps refund_input (apply refund_input)
apply-Keeps_example = apply-Keeps refund_input

parse_kind_lem_example :
    (parse_kind (codes "BET") ≡ ok Kind.bet) ↔ (codes "BET" ≡ kind_str Kind.bet)
parse_kind_lem_example = parse_kind_lem (codes "BET") Kind.bet

parse_status_lem_example :
    (parse_status (codes "FAILED") ≡ ok Status.failed) ↔ (codes "FAILED" ≡ status_str Status.failed)
parse_status_lem_example = parse_status_lem (codes "FAILED") Status.failed
