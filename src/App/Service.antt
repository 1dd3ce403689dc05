-- ===== src/App/Service.antt =====
-- internal/app/service.go and outbox.go: what a use case persists.
pub mod Persist
use desafio_jungle_go.Prelude.{
  Bool, true, false, List, [], ◌∷◌, Option, none, some, Result, ok, err, not, if◌then◌else◌,
}
use desafio_jungle_go.Prelude.Int.{eqb_ℤ}
use desafio_jungle_go.Prelude.Str.{Str, is_empty}
use desafio_jungle_go.Domain.Ledger.{WalletLedgerEntry}
use desafio_jungle_go.Domain.Wallet.{Wallet}
use desafio_jungle_go.Domain.Event.{Event, event_type, event_version, aggregate_id, occurred_at}
use desafio_jungle_go.Domain.Reference.{ApplyResult}
use desafio_jungle_go.App.Ports.{
  OutboxRecord, insert_outbox, insert_transaction, update_transaction, insert_entry, update_wallet,
}
use desafio_jungle_go.App.Tx.{Env, Tx, ◌>>=◌, ◌>>◌, pure, write, new_id}

-- The loop of `RecordsFromEvents`; the encoding of a modelled event does not fail.
unfoldable pub records_loop : Env → List Event → Str → Str → Tx (List OutboxRecord)
records_loop env [] correlation causation = pure []
records_loop env (e ∷ es) correlation causation = do
  id ← new_id env
  rest ← records_loop env es correlation causation
  pure (
      record {
        event_id = id;
        event_type = event_type e;
        event_version = event_version e;
        aggregate_id = aggregate_id e;
        correlation_id = correlation;
        causation_id = causation;
        occurred_at = occurred_at e;
        payload = env.marshal e;
        attempts = 0;
      }
      ∷ rest)

-- `RecordsFromEvents`
unfoldable pub records_from_events : Env → List Event → Str → Str → Tx (List OutboxRecord)
records_from_events env events correlation causation =
    if is_empty correlation
    then (new_id env >>= λ id. records_loop env events id causation)
    else records_loop env events correlation causation

-- `persistOutbox`
unfoldable pub persist_outbox : List OutboxRecord → Tx (Unit {0})
persist_outbox [] = pure tt
persist_outbox (r ∷ rs) = do write (insert_outbox r); persist_outbox rs

abbrev pub persist_ledger : Option WalletLedgerEntry → Tx (Unit {0})
persist_ledger none = pure tt
persist_ledger (some e) = write (insert_entry e)

-- `persistApply`
unfoldable pub persist_apply : Wallet → ApplyResult → List OutboxRecord → Bool → Tx (Unit {0})
persist_apply loaded res recs existing = do
  if existing
      then write (update_transaction res.operation)
      else write (insert_transaction res.operation)
  persist_ledger res.ledger
  if not (eqb_ℤ res.wallet.version loaded.version)
      then write (update_wallet res.wallet)
      else pure tt
  persist_outbox recs
