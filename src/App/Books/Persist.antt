-- ===== src/App/Books/Persist.antt =====
-- `persistApply` of internal/app/service.go keeps the books.
use desafio_jungle_go.Prelude.{
  ◌≡◌, refl, sym, subst, Bool, true, false, not, List, [], ◌∷◌, All, Option, none, some, arith, ok,
  if◌then◌else◌, Bool-cases, inl, inr,
}
use desafio_jungle_go.Prelude.Int.{eqb_ℤ, pos, +ℤ_parts}
use desafio_jungle_go.Prelude.Str.{Str, str_eq}
use desafio_jungle_go.Domain.Ledger.{WalletLedgerEntry}
use desafio_jungle_go.Domain.Wallet.{Wallet}
use desafio_jungle_go.Domain.Transaction.{WagerTransaction}
use desafio_jungle_go.Domain.Reference.{ApplyResult}
use desafio_jungle_go.Domain.Apply.Outcome.{Moves}
use desafio_jungle_go.App.Ports.{
  Db, OutboxRecord, any, find, update, is_version_before, set_wallet, get_wallet,
  insert_transaction, update_transaction, insert_entry, update_wallet, insert_outbox,
}
use desafio_jungle_go.App.Tx.{World, Tx, ◌>>◌, write, pure}
use desafio_jungle_go.App.Tx.Runs.{Within, Ran, Ran-mono, bind-Ran, write-Ran}
use desafio_jungle_go.App.Service.{persist_outbox, persist_apply, persist_ledger}
use desafio_jungle_go.App.Books.{
  IsBalanced, HasDistinctIds, has_id, HasWallet, IsOperation, IsBooked,
}
use desafio_jungle_go.App.Books.Rows.{
  IsOnly, find-IsOnly, find-All, find-any, update-IsBalanced, update-HasDistinctIds,
  update-HasWallet, update-All, any-update,
}

-- Booked tables where the wallet is the row with its identifier.
pub record IsLoaded (w : Wallet) (db : Db) : Type 0 where
  pub booked : IsBooked db
  pub only : All (IsOnly w) db.wallets
  pub balance : IsBalanced db.ledger w
  pub present : any (has_id w.id) db.wallets ≡ true

pub get_wallet-IsLoaded :
    (id : Str) (db : Db) (w : Wallet) → IsBooked db → get_wallet id db ≡ ok w → IsLoaded w db
get_wallet-IsLoaded id db w b h =
    let hit : find (has_id id) db.wallets ≡ some w = ground arith in
    let (same, only) = find-IsOnly id db.wallets w b.ids hit in
    record {
      booked = b;
      only = only;
      balance = find-All (IsBalanced db.ledger) (has_id id) db.wallets w b.balances hit;
      present =
          subst (λ i. any (has_id i) db.wallets ≡ true) (sym same)
            (find-any (has_id id) db.wallets w hit);
    }

-- What is found has the identifier.
pub get_wallet_id :
    (id : Str) (db : Db) (w : Wallet) → IsBooked db → get_wallet id db ≡ ok w → w.id ≡ id
get_wallet_id id db w b h = (find-IsOnly id db.wallets w b.ids (ground arith)).0

-- The tables apart from the operations and the outbox.
pub record Holds (ws : List Wallet) (es : List WalletLedgerEntry) (w : World) : Type 0 where
  pub wallets : w.mine.wallets ≡ ws
  pub ledger : w.mine.ledger ≡ es
  pub operations : All IsOperation w.mine.transactions

module _ (v : World) where
  pub write_operation-Ran :
      (t : WagerTransaction) (existing : Bool) (ws : List Wallet) (es : List WalletLedgerEntry)
      (x : World)
      → IsOperation t
      → Within v x
      → Holds ws es x
      → Ran v
          (λ _ y. Holds ws es y)
          ((if existing then write (update_transaction t) else write (insert_transaction t)) x)
  write_operation-Ran t true ws es x o k h =
      write-Ran v x k (λ _ y. Holds ws es y) (update_transaction t)
        (λ d e. ground (
          arith,
          update-All IsOperation (λ u. str_eq u.id t.id) (λ _. t) x.mine.transactions (λ _. o)
              h.operations,
        ))
  write_operation-Ran t false ws es x o k h =
      write-Ran v x k (λ _ y. Holds ws es y) (insert_transaction t) (λ d e. ground (arith, o))

  pub persist_outbox-Ran :
      (ws : List Wallet) (es : List WalletLedgerEntry) (rs : List OutboxRecord) (x : World)
      → Within v x
      → Holds ws es x
      → Ran v (λ _ y. Holds ws es y) (persist_outbox rs x)
  unfolding persist_outbox
  persist_outbox-Ran ws es [] x k h = (k, h)
  persist_outbox-Ran ws es (r ∷ rs) x k h =
      bind-Ran v (λ _ y. Holds ws es y) (λ _ y. Holds ws es y) (write (insert_outbox r))
        (λ _. persist_outbox rs) x
        (write-Ran v x k (λ _ y. Holds ws es y) (insert_outbox r) (λ d e. ground arith))
        (λ _ y k' h'. persist_outbox-Ran ws es rs y k' h')

  update_wallet-Ran :
      (ws : List Wallet) (es : List WalletLedgerEntry) (old new : Wallet) (x : World)
      → Within v x
      → Holds ws es x
      → Ran v
          (λ _ y.
            Holds
              (if not (eqb_ℤ new.version old.version)
                then update (is_version_before new) (set_wallet new) ws
                else ws)
              es
              y)
          ((if not (eqb_ℤ new.version old.version) then write (update_wallet new) else pure tt) x)
  update_wallet-Ran ws es old new x k h = elim (Bool-cases (eqb_ℤ new.version old.version)) [
    | inl e ↦ rw e (k, h)
    | inr e ↦ rw e (
        write-Ran v x k (λ _ y. Holds (update (is_version_before new) (set_wallet new) ws) es y)
          (update_wallet new) (λ d e. ground arith))
  ]

  pub entry-Ran :
      (ws : List Wallet) (es : List WalletLedgerEntry) (e : WalletLedgerEntry) (x : World)
      → Within v x
      → Holds ws es x
      → Ran v (λ _ y. Holds ws (e ∷ es) y) (persist_ledger (some e) x)
  entry-Ran ws es e x k h =
      write-Ran v x k (λ _ y. Holds ws (e ∷ es) y) (insert_entry e) (λ d i. ground arith)

-- The wallets and the entries after a result.
abbrev moved_wallets : Wallet → Wallet → List Wallet → List Wallet
moved_wallets old new ws =
    if not (eqb_ℤ new.version old.version)
    then update (is_version_before new) (set_wallet new) ws
    else ws

abbrev moved_ledger : Option WalletLedgerEntry → List WalletLedgerEntry → List WalletLedgerEntry
moved_ledger none es = es
moved_ledger (some e) es = e ∷ es

pub books_of :
    (ws : List Wallet) (es : List WalletLedgerEntry) (x : World)
    → Holds ws es x
    → All (IsBalanced es) ws
    → HasDistinctIds ws
    → All (HasWallet ws) es
    → IsBooked x.mine
books_of ws es x h b i o = record {
  balances = rw (h.wallets, h.ledger) b;
  ids = rw h.wallets i;
  owners = rw (h.wallets, h.ledger) o;
  operations = h.operations;
}

Holds-IsBooked :
    (w w' : Wallet) (op : WagerTransaction) (entry : Option WalletLedgerEntry) (db : Db) (x : World)
    → IsLoaded w db
    → Moves w op w' entry
    → Holds (moved_wallets w w' db.wallets) (moved_ledger entry db.ledger) x
    → IsBooked x.mine
Holds-IsBooked w w' op none db x l m h =
    let same : moved_wallets w w' db.wallets ≡ db.wallets = ground (arith, m) in
    books_of db.wallets db.ledger x (subst (λ ws. Holds ws db.ledger x) same h) l.booked.balances
      l.booked.ids l.booked.owners
Holds-IsBooked w w' op (some e) db x l m h =
    let ws : List Wallet = update (is_version_before w') (set_wallet w') db.wallets in
    let same : moved_wallets w w' db.wallets ≡ ws = ground (arith, m, +ℤ_parts w.version (pos 1)) in
    let keeps : (v : Wallet) → (set_wallet w' v).id ≡ v.id = λ v. refl in
    let rows =
      update-HasWallet (is_version_before w') (set_wallet w') keeps db.wallets db.ledger
        l.booked.owners in
    let owner : HasWallet ws e = ground (
      arith,
      m,
      l.present,
      any-update (is_version_before w') (set_wallet w') keeps e.wallet_id db.wallets,
    ) in
    books_of ws (e ∷ db.ledger) x (subst (λ us. Holds us (e ∷ db.ledger) x) same h)
      (update-IsBalanced db.ledger op w w' db.wallets e l.balance m l.booked.balances l.only)
      (update-HasDistinctIds (is_version_before w') (set_wallet w') keeps db.wallets l.booked.ids)
      (owner, rows)

-- Whatever is persisted of a result that moves a loaded wallet by its entry, the books balance.
pub persist_apply-Ran :
    (v : World) (w : Wallet) (res : ApplyResult) (recs : List OutboxRecord) (existing : Bool)
    (x : World)
    → Within v x
    → IsLoaded w x.mine
    → IsOperation res.operation
    → Moves w res.operation res.wallet res.ledger
    → Ran v (λ _ y. IsBooked y.mine) (persist_apply w res recs existing x)
unfolding persist_apply
persist_apply-Ran v w res recs existing x k l o m =
    let ws : List Wallet = x.mine.wallets in
    let es : List WalletLedgerEntry = x.mine.ledger in
    let es' : List WalletLedgerEntry = moved_ledger res.ledger es in
    let ws' : List Wallet = moved_wallets w res.wallet ws in
    let update_step : Tx (Unit {0}) =
      (if not (eqb_ℤ res.wallet.version w.version)
        then write (update_wallet res.wallet)
        else pure tt) in
    bind-Ran v (λ _ y. Holds ws es y) (λ _ y. IsBooked y.mine)
      (if existing
        then write (update_transaction res.operation)
        else write (insert_transaction res.operation))
      (λ _. persist_ledger res.ledger >> (update_step >> persist_outbox recs)) x
      (write_operation-Ran v res.operation existing ws es x o k
        (record { wallets = refl; ledger = refl; operations = l.booked.operations }))
      (λ _ y k1 h1.
        bind-Ran v (λ _ z. Holds ws es' z) (λ _ z. IsBooked z.mine) (persist_ledger res.ledger)
          (λ _. update_step >> persist_outbox recs) y (ledger_step res.ledger y k1 h1)
          (λ _ z k2 h2.
            bind-Ran v (λ _ a. Holds ws' es' a) (λ _ a. IsBooked a.mine) update_step
              (λ _. persist_outbox recs) z (update_wallet-Ran v ws es' w res.wallet z k2 h2)
              (λ _ a k3 h3.
                Ran-mono v (λ _ b. Holds ws' es' b) (λ _ b. IsBooked b.mine) (persist_outbox recs a)
                  (persist_outbox-Ran v ws' es' recs a k3 h3)
                  (λ _ b h4.
                    Holds-IsBooked w res.wallet res.operation res.ledger x.mine b l m h4))))
  where
    ledger_step :
        (entry : Option WalletLedgerEntry) (y : World)
        → Within v y
        → Holds x.mine.wallets x.mine.ledger y
        → Ran v
            (λ _ z. Holds x.mine.wallets (moved_ledger entry x.mine.ledger) z)
            (persist_ledger entry y)
    ledger_step none y k1 h1 = (k1, h1)
    ledger_step (some e) y k1 h1 = entry-Ran v x.mine.wallets x.mine.ledger e y k1 h1
