-- ===== src/Domain/Wallet/Movement.antt =====
-- `Wallet.Debit` and `Wallet.Credit` of internal/domain/wallet.go, on every valid wallet.
use desafio_jungle_go.Prelude.{◌≡◌, ok, err, if◌then◌else◌, arith, false}
use desafio_jungle_go.Prelude.Int.{ℤ, pos, ◌+ℤ◌, ◌-ℤ◌, ◌<ℤ◌, ◌≤ℤ◌, -ℤ_parts, +ℤ_parts, ltb_ℤ}
use desafio_jungle_go.Prelude.Int64.{max_int64, +₆₄_exact}
use desafio_jungle_go.Prelude.Str.{Str, str_eq_iff}
use desafio_jungle_go.Prelude.Time.{Time}
use desafio_jungle_go.Domain.Errors.{FailureCode, Sentinel, validation, rejection}
use desafio_jungle_go.Domain.Types.{Direction}
use desafio_jungle_go.Domain.Money.{Money, money}
use desafio_jungle_go.Domain.Money.Sums.{IsMoney, add_lem, sub_lem}
use desafio_jungle_go.Domain.Ledger.{is_blank}
use desafio_jungle_go.Domain.Ledger.Posting.{entry_of, new_ledger_entry_lem}
use desafio_jungle_go.Domain.Wallet.{Wallet, move, debit, credit}
use desafio_jungle_go.Domain.Wallet.Invariant.{IsValid}

-- An amount that may be moved on a wallet: positive, in its currency.
pub record IsAmount (w : Wallet) (amount : Money) : Type 0 where
  pub amount_money : IsMoney amount
  pub amount_pos : pos 0 <ℤ amount.minor
  pub amount_currency : amount.currency ≡ w.currency

-- The wallet after a movement to the balance `minor`.
abbrev pub moved : Wallet → ℤ → Time → Wallet
moved w minor now = record w {
  balance = money minor w.currency;
  version = w.version +ℤ pos 1;
  updated_at = now;
}

-- On a valid wallet whose version can grow, a debit of an amount in its currency takes exactly the
-- amount from the balance, raises the version by one and returns the entry of the movement; it
-- fails if and only if the balance is less than the amount, with the rejection for lack of funds.
pub debit_lem :
    (w : Wallet) (ledger_id transaction_id : Str) (amount : Money) (now : Time)
    → IsValid w
    → IsAmount w amount
    → w.version <ℤ max_int64
    → is_blank ledger_id ≡ false
    → is_blank transaction_id ≡ false
    → debit w ledger_id transaction_id amount now ≡ (
        if ltb_ℤ w.balance.minor amount.minor
        then err (rejection FailureCode.insufficient_funds Sentinel.insufficient_funds)
        else ok (
          entry_of ledger_id w.id transaction_id Direction.debit amount w.balance
              (money (w.balance.minor -ℤ amount.minor) w.currency)
              now,
          moved w (w.balance.minor -ℤ amount.minor) now,
        ))
unfolding debit move
debit_lem w ledger_id transaction_id amount now v a h l t = ground (
  arith,
  str_eq_iff amount.currency w.currency,
  sub_lem w.balance amount,
  -ℤ_parts w.balance.minor amount.minor,
  +₆₄_exact w.version (pos 1),
  +ℤ_parts w.version (pos 1),
  new_ledger_entry_lem ledger_id w.id transaction_id Direction.debit amount w.balance
      (money (w.balance.minor -ℤ amount.minor) w.currency) now,
)

-- On a valid wallet whose version can grow, a credit of an amount in its currency adds exactly the
-- amount to the balance, raises the version by one and returns the entry of the movement; it
-- fails if and only if the sum does not fit an `int64`, with the overflow error.
pub credit_lem :
    (w : Wallet) (ledger_id transaction_id : Str) (amount : Money) (now : Time)
    → IsValid w
    → IsAmount w amount
    → w.version <ℤ max_int64
    → is_blank ledger_id ≡ false
    → is_blank transaction_id ≡ false
    → credit w ledger_id transaction_id amount now ≡ (
        if ltb_ℤ max_int64 (w.balance.minor +ℤ amount.minor)
        then err (validation FailureCode.overflow Sentinel.overflow)
        else ok (
          entry_of ledger_id w.id transaction_id Direction.credit amount w.balance
              (money (w.balance.minor +ℤ amount.minor) w.currency)
              now,
          moved w (w.balance.minor +ℤ amount.minor) now,
        ))
unfolding credit move
credit_lem w ledger_id transaction_id amount now v a h l t = ground (
  arith,
  str_eq_iff amount.currency w.currency,
  add_lem w.balance amount,
  +ℤ_parts w.balance.minor amount.minor,
  +₆₄_exact w.version (pos 1),
  +ℤ_parts w.version (pos 1),
  new_ledger_entry_lem ledger_id w.id transaction_id Direction.credit amount w.balance
      (money (w.balance.minor +ℤ amount.minor) w.currency) now,
)

-- A wallet that a movement leaves at a balance from 0 up to the largest `int64` is valid.
pub moved-IsValid :
    (w : Wallet) (minor : ℤ) (now : Time)
    → IsValid w
    → w.version <ℤ max_int64
    → pos 0 ≤ℤ minor
    → minor ≤ℤ max_int64
    → IsValid (moved w minor now)
moved-IsValid w minor now v h lo hi = ground (arith, +ℤ_parts w.version (pos 1))
