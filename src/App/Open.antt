-- ===== src/App/Open.antt =====
-- internal/app/open.go: a wallet is opened and persisted. The domain part is in Domain.Opening.
pub mod Opened
pub mod Keeping
use desafio_jungle_go.Prelude.{List, [], Option, none, some}
use desafio_jungle_go.Prelude.Str.{Str}
use desafio_jungle_go.Prelude.Time.{Time}
use desafio_jungle_go.Domain.Money.{Money}
use desafio_jungle_go.Domain.Ledger.{WalletLedgerEntry}
use desafio_jungle_go.Domain.Wallet.{Wallet}
use desafio_jungle_go.Domain.Transaction.{WagerTransaction}
use desafio_jungle_go.Domain.Opening.{Opening, OpenWalletParams, open_wallet as open_domain_wallet}
use desafio_jungle_go.App.Ports.{OutboxRecord, insert_wallet, insert_transaction, insert_entry}
use desafio_jungle_go.App.Tx.{Env, Tx, ◌>>=◌, ◌>>◌, pure, domain, write, new_id, now, within}
use desafio_jungle_go.App.Service.{records_from_events, persist_outbox, persist_ledger}

pub record OpenWalletCommand : Type 0 where
  pub player_id : Str
  pub initial_balance : Money
  pub correlation_id : Str

abbrev pub opening_params : OpenWalletCommand → Str → Str → Str → Time → OpenWalletParams
opening_params cmd wallet_id tx_id ledger_id time = record {
  wallet_id = wallet_id;
  player_id = cmd.player_id;
  opening_tx_id = tx_id;
  ledger_id = ledger_id;
  initial = cmd.initial_balance;
  now = time;
}

-- The transaction that caused the events.
abbrev pub causation : Opening → Str
causation o = elim o.transaction [ none ↦ [] | some t ↦ t.id ]

abbrev pub persist_transaction : Option WagerTransaction → Tx (Unit {0})
persist_transaction none = pure tt
persist_transaction (some t) = write (insert_transaction t)

-- The body of the unit of work.
abbrev pub open_in_tx : Opening → List OutboxRecord → Tx (Unit {0})
open_in_tx o recs = do
  write (insert_wallet o.wallet)
  persist_transaction o.transaction
  persist_ledger o.ledger
  persist_outbox recs

abbrev pub persist_opening : Env → OpenWalletCommand → Opening → Tx Wallet
persist_opening env cmd o = do
  recs ← records_from_events env o.events cmd.correlation_id (causation o)
  within (open_in_tx o recs)
  pure o.wallet

-- `Service.OpenWallet`
unfoldable pub open_wallet : Env → OpenWalletCommand → Tx Wallet
open_wallet env cmd = do
  wallet_id ← new_id env
  tx_id ← new_id env
  ledger_id ← new_id env
  time ← now env
  o ← domain (open_domain_wallet (opening_params cmd wallet_id tx_id ledger_id time))
  persist_opening env cmd o
