-- ===== src/App/Open/Keeping.antt =====
-- `OpenWallet` of internal/app/open.go keeps the books.
use desafio_jungle_go.Prelude.{
  suc, ◌≡◌, refl, sym, subst, ok, err, Result, List, [], ◌∷◌, ◌++◌, Option, none, some, arith, inl,
  false, Bool, ◌||◌, ◌&&◌,
}
use desafio_jungle_go.Prelude.Str.{str_eq}
use desafio_jungle_go.Domain.Errors.{Res}
use desafio_jungle_go.Domain.Money.{parse_currency}
use desafio_jungle_go.Domain.Money.Sums.{IsMoney}
use desafio_jungle_go.Domain.Ledger.{WalletLedgerEntry}
use desafio_jungle_go.Domain.Wallet.{Wallet}
use desafio_jungle_go.Domain.Transaction.{WagerTransaction}
use desafio_jungle_go.Domain.Opening.{Opening, OpenWalletParams, open_wallet as open_domain_wallet}
use desafio_jungle_go.Domain.History.{entries_of}
use desafio_jungle_go.App.Ports.{AppError, Db, OutboxRecord, any, insert_wallet}
use desafio_jungle_go.App.Tx.{Env, World, ◌>>=◌, ◌>>◌, pure, domain, write, within}
use desafio_jungle_go.App.Tx.Steps.{IsQuiet, SameTables}
use desafio_jungle_go.App.Tx.Runs.{Within, Ran, Ran-mono, bind-Ran, write-Ran, Ended, within-Ended}
use desafio_jungle_go.App.Service.{records_from_events, persist_outbox, persist_ledger}
use desafio_jungle_go.App.Service.Persist.{records_from_events-SameTables}
use desafio_jungle_go.App.Books.{IsBooked, Absent, has_id}
use desafio_jungle_go.App.Books.Persist.{Holds, write_operation-Ran, entry-Ran, persist_outbox-Ran}
use desafio_jungle_go.App.Books.Applying.{IssuesIds}
use desafio_jungle_go.App.Open.{
  OpenWalletCommand, opening_params, causation, persist_transaction, open_in_tx, persist_opening,
  open_wallet,
}
use desafio_jungle_go.App.Open.Opened.{
  IsDone, IsOpening, opening-IsOpenable, open_domain-IsOpening, has_id-Absent, Holds-IsBooked,
}

any_left :
    (p q : Wallet → Bool) (ws : List Wallet) → any (λ w. p w || q w) ws ≡ false → any p ws ≡ false
unfolding any
any_left p q [] h = refl
any_left p q (w ∷ ws) h = ground (arith, any_left p q ws)

-- A wallet that is inserted was not there.
insert_wallet-Absent :
    (w : Wallet) (db d : Db)
    → insert_wallet w db ≡ ok d
    → Absent w.id db.wallets × (d ≡ record db { wallets = w ∷ db.wallets })
insert_wallet-Absent w db d h = (
  has_id-Absent w.id db.wallets (
      any_left (has_id w.id) (λ v. str_eq v.player_id w.player_id && str_eq v.currency w.currency)
        db.wallets (ground arith)),
  ground arith,
)

module _ (v : World) where
  persist_transaction-Ran :
      (o : Option WagerTransaction) (ws : List Wallet) (es : List WalletLedgerEntry) (x : World)
      → IsDone o
      → Within v x
      → Holds ws es x
      → Ran v (λ _ y. Holds ws es y) (persist_transaction o x)
  persist_transaction-Ran none ws es x d k h = (k, h)
  persist_transaction-Ran (some t) ws es x d k h = write_operation-Ran v t false ws es x (inl d) k h

  ledger-Ran :
      (o : Option WalletLedgerEntry) (ws : List Wallet) (es : List WalletLedgerEntry) (x : World)
      → Within v x
      → Holds ws es x
      → Ran v (λ _ y. Holds ws (entries_of o ++ es) y) (persist_ledger o x)
  ledger-Ran none ws es x k h = (k, h)
  ledger-Ran (some e) ws es x k h = entry-Ran v ws es e x k h

  open_in_tx-Ran :
      (o : Opening) (recs : List OutboxRecord) (x : World)
      → IsOpening o
      → Within v x
      → IsBooked x.mine
      → Ran v (λ _ y. IsBooked y.mine) (open_in_tx o recs x)
  open_in_tx-Ran o recs x g k b =
      let ws : List Wallet = x.mine.wallets in
      let es : List WalletLedgerEntry = x.mine.ledger in
      let es' : List WalletLedgerEntry = entries_of o.ledger ++ es in
      bind-Ran v (λ _ y. Absent o.wallet.id ws × Holds (o.wallet ∷ ws) es y)
        (λ _ y. IsBooked y.mine) (write (insert_wallet o.wallet))
        (λ _. persist_transaction o.transaction >> (persist_ledger o.ledger >> persist_outbox recs))
        x
        (write-Ran v x k (λ _ y. Absent o.wallet.id ws × Holds (o.wallet ∷ ws) es y)
          (insert_wallet o.wallet)
          (λ d e.
            let (a, made) = insert_wallet-Absent o.wallet x.mine d e in
            (
              a,
              subst (λ db. Holds (o.wallet ∷ ws) es (record x { mine = db })) (sym made)
                  (record { wallets = refl; ledger = refl; operations = b.operations }),
            )))
        (λ _ y k1 (a, h1).
          bind-Ran v (λ _ z. Holds (o.wallet ∷ ws) es z) (λ _ z. IsBooked z.mine)
            (persist_transaction o.transaction)
            (λ _. persist_ledger o.ledger >> persist_outbox recs) y
            (persist_transaction-Ran o.transaction (o.wallet ∷ ws) es y g.transaction k1 h1)
            (λ _ z k2 h2.
              bind-Ran v (λ _ t. Holds (o.wallet ∷ ws) es' t) (λ _ t. IsBooked t.mine)
                (persist_ledger o.ledger) (λ _. persist_outbox recs) z
                (ledger-Ran o.ledger (o.wallet ∷ ws) es z k2 h2)
                (λ _ t k3 h3.
                  Ran-mono v (λ _ u. Holds (o.wallet ∷ ws) es' u) (λ _ u. IsBooked u.mine)
                    (persist_outbox recs t) (persist_outbox-Ran v (o.wallet ∷ ws) es' recs t k3 h3)
                    (λ _ u h4. Holds-IsBooked o x.mine u g b a h4))))

persist_opening-Ended :
    (env : Env) (cmd : OpenWalletCommand) (o : Opening) (w : World)
    → IsOpening o
    → IsQuiet w
    → IsBooked w.committed
    → Ended IsBooked (persist_opening env cmd o w).1
persist_opening-Ended env cmd o w g q b =
    recorded (records_from_events env o.events cmd.correlation_id (causation o) w)
      (records_from_events-SameTables env o.events cmd.correlation_id (causation o) w q)
  where
    finished :
        (p : Result AppError (Unit {0}) × World)
        → Ended IsBooked p.1
        → Ended IsBooked
            (let y : Result AppError Wallet × World = elim p.0 [
              | ok _ ↦ (ok o.wallet, p.1)
              | err e ↦ (err e, p.1)
            ] in
              y).1
    finished (ok _, x) e = e
    finished (err y, x) e = e

    recorded :
        (p : Result AppError (List OutboxRecord) × World)
        → SameTables w p.1
        → Ended IsBooked
            (let y : Result AppError Wallet × World = elim p.0 [
              | ok recs ↦ (within (open_in_tx o recs) >> pure o.wallet) p.1
              | err e ↦ (err e, p.1)
            ] in
              y).1
    recorded (ok recs, x) s =
        let b' : IsBooked x.committed = subst IsBooked (sym s.same_committed) b in
        finished (within (open_in_tx o recs) x) (
          within-Ended IsBooked (λ _ y. IsBooked y.mine) (open_in_tx o recs) x b'
            (open_in_tx-Ran x o recs (record x { mine = x.committed }) g
              (record { quiet = s.quiet; committed_kept = refl }) b')
            (λ _ y k. k))
    recorded (err e, x) s = record {
      quiet = s.quiet;
      holds = subst IsBooked (sym s.same_committed) b;
    }

-- With identifiers that are never blank, from tables whose books balance, and while no other
-- transaction commits, `OpenWallet` with a well-formed amount in a currency of three capital letters
-- leaves tables whose books balance, whatever it returns.
pub open_wallet-IsBooked :
    (env : Env) (cmd : OpenWalletCommand) (w : World)
    → IssuesIds env
    → IsMoney cmd.initial_balance
    → parse_currency cmd.initial_balance.currency ≡ ok cmd.initial_balance.currency
    → IsQuiet w
    → IsBooked w.committed
    → Ended IsBooked (open_wallet env cmd w).1
unfolding open_wallet
open_wallet-IsBooked env cmd w ids m c q b = made (open_domain_wallet p) refl
  where
    p : OpenWalletParams
    p =
        opening_params cmd (env.new_id w.calls) (env.new_id (suc w.calls))
          (env.new_id (suc (suc w.calls))) (env.now (suc (suc (suc w.calls))))

    x : World
    x = record w { calls = suc (suc (suc (suc w.calls))) }

    made :
        (r : Res Opening)
        → open_domain_wallet p ≡ r
        → Ended IsBooked ((domain r >>= persist_opening env cmd) x).1
    made (ok o) h =
        persist_opening-Ended env cmd o x
          (open_domain-IsOpening p
            (opening-IsOpenable p (ids (suc w.calls)) (ids (suc (suc w.calls))) m c h) h)
          q b
    made (err e) h = record { quiet = q; holds = b }
