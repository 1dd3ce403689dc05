-- ===== src/Domain/Wallet.antt =====
-- internal/domain/wallet.go: the wallet and its movements. A method with a pointer receiver
-- returns the new wallet beside its result; on an error the receiver is as it was.
pub mod Invariant
pub mod Movement
use desafio_jungle_go.Prelude.{Bool, not, ok, err, ◌>>=◌, ◌>>◌, guard}
use desafio_jungle_go.Prelude.Int.{ℤ, pos, ltb_ℤ}
use desafio_jungle_go.Prelude.Int64.{◌+₆₄◌}
use desafio_jungle_go.Prelude.Str.{Str, str_eq}
use desafio_jungle_go.Prelude.Time.{Time, utc}
use desafio_jungle_go.Domain.Errors.{Res, FailureCode, Sentinel, validation, rejection}
use desafio_jungle_go.Domain.Types.{Direction, direction_str}
use desafio_jungle_go.Domain.Money.{
  Money, parse_currency, require_initialized, is_positive, is_negative, add, sub,
}
use desafio_jungle_go.Domain.Ledger.{WalletLedgerEntry, new_ledger_entry, require_id}

abbrev pub initial_wallet_version : ℤ
initial_wallet_version = pos 1

pub record Wallet : Type 0 where
  pub id : Str
  pub player_id : Str
  pub currency : Str
  pub balance : Money
  pub version : ℤ
  pub created_at : Time
  pub updated_at : Time

-- `RehydrateWallet`
unfoldable pub rehydrate_wallet : Str → Str → Money → ℤ → Time → Time → Res Wallet
rehydrate_wallet id player_id balance version created_at updated_at = do
  require_id id
  require_id player_id
  require_initialized balance
  guard (not (is_negative balance))
      (validation FailureCode.ledger_invariant Sentinel.ledger_invariant)
  guard (not (ltb_ℤ version initial_wallet_version))
      (validation FailureCode.missing_identity Sentinel.missing_identity)
  cur ← parse_currency balance.currency
  ok (record {
    id = id;
    player_id = player_id;
    currency = cur;
    balance = balance;
    version = version;
    created_at = utc created_at;
    updated_at = utc updated_at;
  })

-- `Wallet.requireCurrency`
abbrev require_currency : Wallet → Money → Res (Unit {0})
require_currency w amount = do
  require_initialized amount
  guard (str_eq amount.currency w.currency)
      (validation FailureCode.incompatible_currency Sentinel.incompatible_currency)

-- The balance after a movement, as the `switch` of `move` computes it.
abbrev moved_balance : Direction → Money → Money → Res Money
moved_balance Direction.debit before amount = do
  after ← sub before amount
  guard (not (is_negative after))
      (rejection FailureCode.insufficient_funds Sentinel.insufficient_funds)
  ok after
moved_balance Direction.credit before amount = add before amount

-- `Wallet.move`
unfoldable pub move :
    Wallet → Str → Str → Money → Direction → Time → Res (WalletLedgerEntry × Wallet)
move w ledger_id transaction_id amount dir now = do
  require_currency w amount
  guard (is_positive amount)
      (validation FailureCode.positive_amount_required Sentinel.positive_amount_required)
  after ← moved_balance dir w.balance amount
  entry ←
      new_ledger_entry ledger_id w.id transaction_id (direction_str dir) amount w.balance after now
  ok (entry, record w { balance = after; version = w.version +₆₄ pos 1; updated_at = utc now })

-- `Wallet.Debit`
unfoldable pub debit : Wallet → Str → Str → Money → Time → Res (WalletLedgerEntry × Wallet)
debit w ledger_id transaction_id amount now =
    move w ledger_id transaction_id amount Direction.debit now

-- `Wallet.Credit`
unfoldable pub credit : Wallet → Str → Str → Money → Time → Res (WalletLedgerEntry × Wallet)
credit w ledger_id transaction_id amount now =
    move w ledger_id transaction_id amount Direction.credit now
