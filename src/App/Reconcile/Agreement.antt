-- ===== src/App/Reconcile/Agreement.antt =====
-- `ReconcileWallet` of internal/app/reconcile.go on tables whose books balance.
use desafio_jungle_go.Prelude.{ℕ, ◌≡◌, subst, ap, ◌∙◌, true, length, ◌≤◌, Result, ok, arith}
use desafio_jungle_go.Prelude.Int.{pos, ◌-ℤ◌, -ℤ_parts, eq_of_parts}
use desafio_jungle_go.Prelude.Str.{Str}
use desafio_jungle_go.Domain.Money.{Money, money, money_from_minor, sub, equal}
use desafio_jungle_go.Domain.Money.Sums.{sub_lem, equal_lem}
use desafio_jungle_go.Domain.Wallet.{Wallet}
use desafio_jungle_go.App.Ports.{AppError, Db, get_wallet}
use desafio_jungle_go.App.Tx.{World, ◌>>=◌, pure, get, domain, within, settle}
use desafio_jungle_go.App.Tx.Steps.{IsQuiet, bind-eq, pause-IsQuiet}
use desafio_jungle_go.App.Books.{IsBooked, IsBalanced, entries_for}
use desafio_jungle_go.App.Books.Persist.{IsLoaded, get_wallet-IsLoaded, get_wallet_id}
use desafio_jungle_go.App.Reconcile.{
  Reconciliation, sum_by_wallet, report, compare_sum, reconcile_loaded, reconcile_wallet,
}

-- The report on a wallet without divergence.
abbrev pub agreed : Db → Wallet → Reconciliation
agreed db w = record {
  wallet_id = w.id;
  stored_balance = w.balance;
  calculated_balance = w.balance;
  difference = money (pos 0) w.balance.currency;
  consistent = true;
  checked_entries = length (entries_for w.id db.ledger);
}

sum_of_balanced :
    (db : Db) (w : Wallet)
    → IsBalanced db.ledger w
    → length (entries_for w.id db.ledger) ≤ 2147483647
    → sum_by_wallet w.id w.currency db ≡ ok (w.balance, length (entries_for w.id db.ledger))
unfolding money_from_minor
sum_of_balanced db w b n = ground arith

get-eq :
    {A : Type 0} (f : Db → Result AppError A) (w : World) (a : A)
    → IsQuiet w
    → f w.mine ≡ ok a
    → get f w ≡ (ok a, w)
get-eq {A} f w a q h =
    ap (λ y. let r : Result AppError A × World = (f y.mine, y) in r) (pause-IsQuiet w q)
    ∙ ap (λ r. (r, w)) h

compare_sum-eq :
    (db : Db) (w : Wallet) (x : World)
    → IsBalanced db.ledger w
    → compare_sum w (w.balance, length (entries_for w.id db.ledger)) x ≡ (ok (agreed db w), x)
compare_sum-eq db w x b =
    let m : Money = w.balance in
    let n : ℕ = length (entries_for w.id db.ledger) in
    let diff : Money = money (pos 0) m.currency in
    let zero : sub m m ≡ ok diff =
      ground
        (arith, sub_lem m m, -ℤ_parts m.minor m.minor, eq_of_parts (m.minor -ℤ m.minor) (pos 0)) in
    let same : equal m m ≡ ok true = ground (arith, equal_lem m m) in
    bind-eq (domain (sub m m)) (λ d. domain (equal m m) >>= λ eq. pure (report w (m, n) d eq)) x
      diff x (ap (λ r. domain r x) zero)
    ∙ bind-eq (domain (equal m m)) (λ eq. pure (report w (m, n) diff eq)) x true x
        (ap (λ r. domain r x) same)

-- While no other transaction commits, reconciling a wallet of tables whose books balance reports
-- the stored balance as the sum of the entries, a difference of zero, and no divergence, and
-- changes nothing; its entries are at most 2147483647, the largest `int` of the database.
pub reconcile_wallet_lem :
    (id : Str) (w : Wallet) (v : World)
    → IsQuiet v
    → IsBooked v.committed
    → get_wallet id v.committed ≡ ok w
    → length (entries_for w.id v.committed.ledger) ≤ 2147483647
    → reconcile_wallet id v ≡ (ok (agreed v.committed w), record v { mine = v.committed })
unfolding reconcile_wallet within
reconcile_wallet_lem id w v q b h n =
    let db : Db = v.committed in
    let x : World = record v { mine = db } in
    let l : IsLoaded w db = get_wallet-IsLoaded id db w b h in
    let counted : Money × ℕ = (w.balance, length (entries_for w.id db.ledger)) in
    let sums : sum_by_wallet id w.currency db ≡ ok counted =
      subst (λ i. sum_by_wallet i w.currency db ≡ ok counted) (get_wallet_id id db w b h)
        (sum_of_balanced db w l.balance n) in
    ap (λ p. settle p.0 p.1)
      (bind-eq (get (get_wallet id)) (reconcile_loaded id) x w x (get-eq (get_wallet id) x w q h)
        ∙ bind-eq (get (sum_by_wallet id w.currency)) (compare_sum w) x counted x
            (get-eq (sum_by_wallet id w.currency) x counted q sums)
        ∙ compare_sum-eq db w x l.balance)
