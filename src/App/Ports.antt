-- ===== src/App/Ports.antt =====
-- The ports of internal/app/ports.go with the meaning that internal/adapter/postgres and the
-- schema in migrations/ give them: a table is the list of its rows, and a row is kept as the
-- domain value that it is scanned to. CHECK and foreign-key failures and lost connections are not
-- modelled.
use desafio_jungle_go.Prelude.{
  ℕ, Bool, true, false, not, ◌&&◌, ◌||◌, List, [], ◌∷◌, Option, none, some, Result, ok, err,
  if◌then◌else◌,
}
use desafio_jungle_go.Prelude.Int.{pos, eqb_ℤ}
use desafio_jungle_go.Prelude.Int64.{◌-₆₄◌}
use desafio_jungle_go.Prelude.Str.{Str, str_eq, is_empty}
use desafio_jungle_go.Prelude.Time.{Time}
use desafio_jungle_go.Domain.Errors.{ClassifiedError}
use desafio_jungle_go.Domain.Types.{Kind, Status, Origin, kind_eq, status_eq}
use desafio_jungle_go.Domain.Money.{money}
use desafio_jungle_go.Domain.Ledger.{WalletLedgerEntry}
use desafio_jungle_go.Domain.Wallet.{Wallet}
use desafio_jungle_go.Domain.Transaction.{WagerTransaction}

-- The errors of a use case: the sentinels of ports.go and submit.go, or one of the domain.
pub data AppError : Type 0 where
  not_found conflict optimistic_lock unavailable inbox_hash_mismatch forbidden : AppError
  -- Errors of the database without a sentinel: a cast that overflows, a commit that rolled back.
  out_of_range rolled_back : AppError
  -- `pending: wallet mismatch`
  wallet_mismatch : AppError
  of_domain : ClassifiedError → AppError

pub record OutboxRecord : Type 0 where
  pub event_id : Str
  pub event_type : Str
  pub event_version : ℕ
  pub aggregate_id : Str
  pub correlation_id : Str
  pub causation_id : Str
  pub occurred_at : Time
  pub payload : Str
  pub attempts : ℕ

pub record InboxRecord : Type 0 where
  pub consumer_name : Str
  pub message_id : Str
  pub payload_hash : Str
  pub received_at : Time
  pub completed_at : Time

-- The tables that a unit of work reads and writes.
pub record Db : Type 0 where
  pub wallets : List Wallet
  pub transactions : List WagerTransaction
  pub ledger : List WalletLedgerEntry
  pub outbox : List OutboxRecord
  pub inbox : List InboxRecord

-- The first row that passes a test.
unfoldable pub find {ℓ} : {A : Type ℓ} → (A → Bool) → List A → Option A
find p [] = none
find p (x ∷ xs) = if p x then some x else find p xs

unfoldable pub any {ℓ} : {A : Type ℓ} → (A → Bool) → List A → Bool
any p [] = false
any p (x ∷ xs) = p x || any p xs

unfoldable pub select {ℓ} : {A : Type ℓ} → (A → Bool) → List A → List A
select p [] = []
select p (x ∷ xs) = let rest = select p xs in if p x then x ∷ rest else rest

-- `UPDATE … SET f WHERE p`
unfoldable pub update {ℓ} : {A : Type ℓ} → (A → Bool) → (A → A) → List A → List A
update p f [] = []
update p f (x ∷ xs) = (if p x then f x else x) ∷ update p f xs

abbrev pub or_not_found {ℓ} : {A : Type ℓ} → Option A → Result AppError A
or_not_found none = err not_found
or_not_found (some a) = ok a

-- `column = $1` where the empty string is stored as NULL, which equals nothing.
abbrev pub column_eq : Str → Str → Bool
column_eq stored param = not (is_empty stored) && str_eq stored param

abbrev is_external_origin : Origin → Bool
is_external_origin Origin.external = true
is_external_origin Origin.internal = false

-- `walletRepo.GetByID` and `GetByIDForUpdate`
abbrev pub get_wallet : Str → Db → Result AppError Wallet
get_wallet id db = or_not_found (find (λ w. str_eq w.id id) db.wallets)

-- `transactionRepo.GetByID` and `GetByIDForUpdate`
abbrev pub get_transaction : Str → Db → Result AppError WagerTransaction
get_transaction id db = or_not_found (find (λ t. str_eq t.id id) db.transactions)

abbrev pub has_external_id : Str → Str → WagerTransaction → Bool
has_external_id provider external t =
    column_eq t.provider_id provider && column_eq t.external_id external

-- `transactionRepo.GetByProviderExternalID`
abbrev pub get_by_external_id : Str → Str → Db → Result AppError WagerTransaction
get_by_external_id provider external db =
    or_not_found (find (has_external_id provider external) db.transactions)

abbrev pub has_key : Str → Str → WagerTransaction → Bool
has_key provider key t = column_eq t.provider_id provider && column_eq t.idempotency_key key

-- `transactionRepo.GetByProviderIdempotencyKey`
abbrev pub get_by_key : Str → Str → Db → Result AppError WagerTransaction
get_by_key provider key db = or_not_found (find (has_key provider key) db.transactions)

abbrev pub is_reversal_of : Str → WagerTransaction → Bool
is_reversal_of id t =
    column_eq t.resolved_reference_id id
    && status_eq t.status Status.processed
    && (kind_eq t.kind Kind.refund || kind_eq t.kind Kind.rollback)

-- `transactionRepo.ListProcessedReversals`
abbrev pub list_processed_reversals : Str → Db → List WagerTransaction
list_processed_reversals id db = select (is_reversal_of id) db.transactions

-- Two rows that one of the unique indexes of the transactions keeps apart.
abbrev pub clashes : WagerTransaction → WagerTransaction → Bool
clashes t u =
    str_eq t.id u.id
    || (is_external_origin t.origin
        && is_external_origin u.origin
        && has_external_id t.provider_id t.external_id u)
    || (is_external_origin t.origin
        && is_external_origin u.origin
        && has_key t.provider_id t.idempotency_key u)
    || (kind_eq t.kind Kind.opening
        && kind_eq u.kind Kind.opening
        && str_eq t.wallet_id u.wallet_id)
    || (is_reversal_of u.resolved_reference_id t
        && is_reversal_of t.resolved_reference_id u
        && kind_eq t.kind u.kind)

-- `transactionRepo.Insert`
abbrev pub insert_transaction : WagerTransaction → Db → Result AppError Db
insert_transaction t db =
    if any (clashes t) db.transactions
    then err conflict
    else ok (record db { transactions = t ∷ db.transactions })

-- `transactionRepo.Update`: the row with the identifier is written anew, unless another row
-- clashes with it.
abbrev pub update_transaction : WagerTransaction → Db → Result AppError Db
update_transaction t db =
    if not (any (λ u. str_eq u.id t.id) db.transactions)
    then err not_found
    else if any (λ u. not (str_eq u.id t.id) && clashes t u) db.transactions
    then err conflict
    else ok (record db { transactions = update (λ u. str_eq u.id t.id) (λ u. t) db.transactions })

-- `walletRepo.Insert`
abbrev pub insert_wallet : Wallet → Db → Result AppError Db
insert_wallet w db =
    if any
      (λ v. str_eq v.id w.id || (str_eq v.player_id w.player_id && str_eq v.currency w.currency))
      db.wallets
    then err conflict
    else ok (record db { wallets = w ∷ db.wallets })

-- The row that `walletRepo.Update` writes: that of the wallet, at the version before.
abbrev pub is_version_before : Wallet → Wallet → Bool
is_version_before w v = str_eq v.id w.id && eqb_ℤ v.version (w.version -₆₄ pos 1)

-- The columns that `walletRepo.Update` sets.
abbrev pub set_wallet : Wallet → Wallet → Wallet
set_wallet w v = record v {
  balance = money w.balance.minor v.currency;
  version = w.version;
  updated_at = w.updated_at;
}

-- `walletRepo.Update`
abbrev pub update_wallet : Wallet → Db → Result AppError Db
update_wallet w db =
    if any (is_version_before w) db.wallets
    then ok (record db { wallets = update (is_version_before w) (set_wallet w) db.wallets })
    else err optimistic_lock

-- `ledgerRepo.Insert`
abbrev pub insert_entry : WalletLedgerEntry → Db → Result AppError Db
insert_entry e db =
    if any
      (λ f.
        str_eq f.id e.id
        || (str_eq f.wallet_id e.wallet_id && str_eq f.transaction_id e.transaction_id))
      db.ledger
    then err conflict
    else ok (record db { ledger = e ∷ db.ledger })

-- `outboxRepo.Insert`
abbrev pub insert_outbox : OutboxRecord → Db → Result AppError Db
insert_outbox r db =
    if any (λ s. str_eq s.event_id r.event_id) db.outbox
    then err conflict
    else ok (record db { outbox = record r { attempts = 0 } ∷ db.outbox })

-- `inboxRepo.Get`
abbrev pub get_inbox : Str → Str → Db → Result AppError InboxRecord
get_inbox consumer message db =
    or_not_found
      (find (λ r. str_eq r.consumer_name consumer && str_eq r.message_id message) db.inbox)

-- `inboxRepo.Insert`
abbrev pub insert_inbox : InboxRecord → Db → Result AppError Db
insert_inbox r db =
    if any (λ s. str_eq s.consumer_name r.consumer_name && str_eq s.message_id r.message_id)
      db.inbox
    then err conflict
    else ok (record db { inbox = r ∷ db.inbox })
