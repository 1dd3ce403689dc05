-- ===== src/Domain/Event.antt =====
-- internal/domain/event.go: the domain events, their types and their constructors.
use desafio_jungle_go.Prelude.{ℕ}
use desafio_jungle_go.Prelude.Int.{ℤ}
use desafio_jungle_go.Prelude.Str.{Str, codes}
use desafio_jungle_go.Prelude.Time.{Time, utc}
use desafio_jungle_go.Domain.Errors.{FailureCode}
use desafio_jungle_go.Domain.Types.{Kind, Origin, Direction}
use desafio_jungle_go.Domain.Money.{Money}
use desafio_jungle_go.Domain.Transaction.{WagerTransaction}

pub record WagerTransactionProcessed : Type 0 where
  pub transaction_id : Str
  pub wallet_id : Str
  pub player_id : Str
  pub origin : Origin
  pub provider_id : Str
  pub external_transaction_id : Str
  pub kind : Kind
  pub money : Money
  pub occurred_at_utc : Time

pub record WagerTransactionRejected : Type 0 where
  pub transaction_id : Str
  pub wallet_id : Str
  pub player_id : Str
  pub origin : Origin
  pub provider_id : Str
  pub external_transaction_id : Str
  pub kind : Kind
  pub money : Money
  pub failure_code : FailureCode
  pub occurred_at_utc : Time

-- Also the parameters of its constructor, which have the same fields.
pub record WalletBalanceChanged : Type 0 where
  pub wallet_id : Str
  pub transaction_id : Str
  pub direction : Direction
  pub money : Money
  pub balance_before : Money
  pub balance_after : Money
  pub wallet_version : ℤ
  pub occurred_at_utc : Time

pub record WagerTransactionPendingReference : Type 0 where
  pub transaction_id : Str
  pub wallet_id : Str
  pub provider_id : Str
  pub reference_external_id : Str
  pub occurred_at_utc : Time

-- The types that implement the interface `Event`.
pub data Event : Type 0 where
  processed : WagerTransactionProcessed → Event
  rejected : WagerTransactionRejected → Event
  balance_changed : WalletBalanceChanged → Event
  waiting : WagerTransactionPendingReference → Event

abbrev pub new_wager_transaction_processed : WagerTransaction → Time → Event
new_wager_transaction_processed tx occurred_at = Event.processed (record {
  transaction_id = tx.id;
  wallet_id = tx.wallet_id;
  player_id = tx.player_id;
  origin = tx.origin;
  provider_id = tx.provider_id;
  external_transaction_id = tx.external_id;
  kind = tx.kind;
  money = tx.money;
  occurred_at_utc = utc occurred_at;
})

abbrev pub new_wager_transaction_rejected : WagerTransaction → Time → Event
new_wager_transaction_rejected tx occurred_at = Event.rejected (record {
  transaction_id = tx.id;
  wallet_id = tx.wallet_id;
  player_id = tx.player_id;
  origin = tx.origin;
  provider_id = tx.provider_id;
  external_transaction_id = tx.external_id;
  kind = tx.kind;
  money = tx.money;
  failure_code = tx.failure_code;
  occurred_at_utc = utc occurred_at;
})

abbrev pub new_wallet_balance_changed : WalletBalanceChanged → Event
new_wallet_balance_changed p =
    Event.balance_changed (record p { occurred_at_utc = utc p.occurred_at_utc })

abbrev pub new_wager_transaction_pending_reference : WagerTransaction → Time → Event
new_wager_transaction_pending_reference tx occurred_at = Event.waiting (record {
  transaction_id = tx.id;
  wallet_id = tx.wallet_id;
  provider_id = tx.provider_id;
  reference_external_id = tx.reference_external_id;
  occurred_at_utc = utc occurred_at;
})

-- `EventType()`
unfoldable pub event_type : Event → Str
event_type (Event.processed e) = codes "WagerTransactionProcessed"
event_type (Event.rejected e) = codes "WagerTransactionRejected"
event_type (Event.balance_changed e) = codes "WalletBalanceChanged"
event_type (Event.waiting e) = codes "WagerTransactionPendingReference"

-- `EventVersion()`
unfoldable pub event_version : Event → ℕ
event_version e = 1

-- `AggregateID()`
unfoldable pub aggregate_id : Event → Str
aggregate_id (Event.processed e) = e.transaction_id
aggregate_id (Event.rejected e) = e.transaction_id
aggregate_id (Event.balance_changed e) = e.wallet_id
aggregate_id (Event.waiting e) = e.transaction_id

-- `OccurredAt()`
unfoldable pub occurred_at : Event → Time
occurred_at (Event.processed e) = e.occurred_at_utc
occurred_at (Event.rejected e) = e.occurred_at_utc
occurred_at (Event.balance_changed e) = e.occurred_at_utc
occurred_at (Event.waiting e) = e.occurred_at_utc
