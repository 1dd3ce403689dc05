-- ===== src/Domain/Opening.antt =====
-- internal/domain/opening.go: a new wallet and its opening credit.
pub mod Creation
use desafio_jungle_go.Prelude.{
  not, List, [], ◌∷◌, Option, none, some, ok, ◌>>=◌, ◌>>◌, guard, if◌then◌else◌,
}
use desafio_jungle_go.Prelude.Str.{Str}
use desafio_jungle_go.Prelude.Time.{Time, utc}
use desafio_jungle_go.Domain.Errors.{Res, FailureCode, Sentinel, validation}
use desafio_jungle_go.Domain.Types.{Direction, direction_str}
use desafio_jungle_go.Domain.Money.{Money, require_initialized, is_negative, is_zero, zero_money}
use desafio_jungle_go.Domain.Ledger.{WalletLedgerEntry, new_ledger_entry, require_id}
use desafio_jungle_go.Domain.Wallet.{Wallet, rehydrate_wallet, initial_wallet_version}
use desafio_jungle_go.Domain.Transaction.{WagerTransaction, new_opening_transaction, mark_processed}
use desafio_jungle_go.Domain.Event.{
  Event, new_wager_transaction_processed, new_wallet_balance_changed,
}

pub record Opening : Type 0 where
  pub wallet : Wallet
  pub transaction : Option WagerTransaction
  pub ledger : Option WalletLedgerEntry
  pub events : List Event

pub record OpenWalletParams : Type 0 where
  pub wallet_id : Str
  pub player_id : Str
  pub opening_tx_id : Str
  pub ledger_id : Str
  pub initial : Money
  pub now : Time

-- The part of `OpenWallet` for an initial amount that is not zero.
open_credit : OpenWalletParams → Wallet → Res Opening
open_credit p w = do
  require_id p.opening_tx_id
  require_id p.ledger_id
  zero ← zero_money p.initial.currency
  entry ←
      new_ledger_entry p.ledger_id p.wallet_id p.opening_tx_id (direction_str Direction.credit)
        p.initial zero p.initial (utc p.now)
  tx ← new_opening_transaction (record {
    id = p.opening_tx_id;
    wallet_id = p.wallet_id;
    player_id = p.player_id;
    money = p.initial;
    now = utc p.now;
  })
  tx' ← mark_processed tx p.initial (utc p.now)
  ok (record {
    wallet = w;
    transaction = some tx';
    ledger = some entry;
    events =
        new_wager_transaction_processed tx' (utc p.now)
        ∷ new_wallet_balance_changed (record {
          wallet_id = w.id;
          transaction_id = tx'.id;
          direction = Direction.credit;
          money = p.initial;
          balance_before = zero;
          balance_after = p.initial;
          wallet_version = w.version;
          occurred_at_utc = utc p.now;
        })
        ∷ [];
  })

-- `OpenWallet`
unfoldable pub open_wallet : OpenWalletParams → Res Opening
unfolding open_credit
open_wallet p = do
  require_id p.wallet_id
  require_id p.player_id
  require_initialized p.initial
  guard (not (is_negative p.initial))
      (validation FailureCode.invalid_amount Sentinel.invalid_amount)
  w ←
      rehydrate_wallet p.wallet_id p.player_id p.initial initial_wallet_version (utc p.now)
        (utc p.now)
  if is_zero p.initial
      then ok (record { wallet = w; transaction = none; ledger = none; events = [] })
      else open_credit p w
