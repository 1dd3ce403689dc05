-- ===== src/App/Read/Keeping.antt =====
-- The use cases of internal/app/read.go and reconcile.go keep whatever holds of the tables.
use desafio_jungle_go.Prelude.{ℕ, suc, refl, Bool, true, false, Result, ok, err}
use desafio_jungle_go.Prelude.Int.{ℤ}
use desafio_jungle_go.Prelude.Str.{Str}
use desafio_jungle_go.Domain.Errors.{Res}
use desafio_jungle_go.Domain.Money.{sub, equal}
use desafio_jungle_go.Domain.Transaction.{WagerTransaction}
use desafio_jungle_go.Prelude.Time.{Time}
use desafio_jungle_go.App.Identity.{Actor, can_access_provider, can_read_transaction}
use desafio_jungle_go.App.Ports.{
  AppError, not_found, forbidden, Db, get_wallet, get_transaction, get_by_external_id,
}
use desafio_jungle_go.App.Tx.{World, Tx, ◌>>=◌, ◌>>◌, pure, require, domain, get, read, within}
use desafio_jungle_go.App.Tx.Runs.{
  Within, Ran, bind-Ran, domain-Ran, require-Ran, read-Ran, get-Ran, Ended, within-Ended,
}
use desafio_jungle_go.App.Reconcile.{
  report, sum_by_wallet, compare_sum, reconcile_loaded, reconcile_in_tx, reconcile_wallet,
}
use desafio_jungle_go.App.Read.{
  CursorCodec, readable, load_wallet, load_transaction, load_by_external_id, decode_ledger_cursor,
  clamp_limit, list_by_wallet, page_of, list_page, list_from, list_ledger,
}

-- A step that leaves the tables alone.
abbrev pub Reads : {A : Type 0} → (Db → Type 0) → Tx A → Type 0
Reads {A} I m = (v x : World) → Within v x → I x.mine → Ran v (λ (_ : A) y. I y.mine) (m x)

module _ (I : Db → Type 0) where
  bind-Reads :
      {A B : Type 0} (m : Tx A) (f : A → Tx B)
      → Reads I m
      → ((a : A) → Reads I (f a))
      → Reads I (m >>= f)
  bind-Reads {A} {B} m f h g v x k i =
      bind-Ran v (λ _ y. I y.mine) (λ _ y. I y.mine) m f x (h v x k i) (λ a y l j. g a v y l j)

  pure-Reads : {A : Type 0} (a : A) → Reads I (pure a)
  pure-Reads a v x k i = (k, i)

  get-Reads : {A : Type 0} (f : Db → Result AppError A) → Reads I (get f)
  get-Reads f v x k i = get-Ran v x k (λ _ y. I y.mine) f (λ _ _. i)

  read-Reads : {A : Type 0} (f : Db → A) → Reads I (read f)
  read-Reads f v x k i = read-Ran v x k (λ _ y. I y.mine) f i

  domain-Reads : {A : Type 0} (r : Res A) → Reads I (domain r)
  domain-Reads r v x k i = domain-Ran v x k (λ _ y. I y.mine) r (λ _ _. i)

  require-Reads : (b : Bool) (e : AppError) → Reads I (require b e)
  require-Reads b e v x k i = require-Ran v x k (λ _ y. I y.mine) b e (λ _. i)

  within-Reads :
      {A : Type 0} (m : Tx A) (w : World) → Reads I m → Ended I w → Ended I (within m w).1
  within-Reads m w h e =
      within-Ended I (λ _ y. I y.mine) m w e.holds
        (h w (record w { mine = w.committed }) (record { quiet = e.quiet; committed_kept = refl })
          e.holds)
        (λ _ _ i. i)

  pub load_wallet-Ended : (id : Str) (w : World) → Ended I w → Ended I (load_wallet id w).1
  unfolding load_wallet
  load_wallet-Ended id w = within-Reads (get (get_wallet id)) w (get-Reads (get_wallet id))

  pub load_transaction-Ended :
      (actor : Actor) (id : Str) (w : World) → Ended I w → Ended I (load_transaction actor id w).1
  unfolding load_transaction
  load_transaction-Ended actor id w = within-Reads (get (get_transaction id) >>= readable actor) w (
      bind-Reads (get (get_transaction id)) (readable actor) (get-Reads (get_transaction id)) (λ t.
        bind-Reads (require (can_read_transaction actor t) not_found) (λ _. pure t)
          (require-Reads (can_read_transaction actor t) not_found) (λ _. pure-Reads t)))

  pub load_by_external_id-Ended :
      (actor : Actor) (provider_id external_id : Str) (w : World)
      → Ended I w
      → Ended I (load_by_external_id actor provider_id external_id w).1
  unfolding load_by_external_id
  load_by_external_id-Ended actor provider_id external_id w e =
      go (can_access_provider actor provider_id)
    where
      body : Tx WagerTransaction
      body = get (get_by_external_id provider_id external_id)

      go : (b : Bool) → Ended I ((require b forbidden >> within body) w).1
      go true = within-Reads body w (get-Reads (get_by_external_id provider_id external_id)) e
      go false = e

  pub list_ledger-Ended :
      (c : CursorCodec) (wallet_id cursor : Str) (limit : ℤ) (w : World)
      → Ended I w
      → Ended I (list_ledger c wallet_id cursor limit w).1
  unfolding list_ledger
  list_ledger-Ended c wallet_id cursor limit w e = go (decode_ledger_cursor c cursor)
    where
      n : ℕ
      n = clamp_limit limit

      go : (r : Res (Time × Str)) → Ended I ((domain r >>= list_from c wallet_id n) w).1
      go (err x) = e
      go (ok start) =
          within-Reads (get (get_wallet wallet_id) >>= list_page c wallet_id n start) w
            (bind-Reads (get (get_wallet wallet_id)) (list_page c wallet_id n start)
              (get-Reads (get_wallet wallet_id))
              (λ u.
                bind-Reads (read (list_by_wallet wallet_id start.0 start.1 (suc n)))
                  (λ items. pure (page_of c n items))
                  (read-Reads (list_by_wallet wallet_id start.0 start.1 (suc n)))
                  (λ items. pure-Reads (page_of c n items))))
            e

  pub reconcile_wallet-Ended :
      (id : Str) (w : World) → Ended I w → Ended I (reconcile_wallet id w).1
  unfolding reconcile_wallet
  reconcile_wallet-Ended id w = within-Reads (reconcile_in_tx id) w (
      bind-Reads (get (get_wallet id)) (reconcile_loaded id) (get-Reads (get_wallet id)) (λ u.
        bind-Reads (get (sum_by_wallet id u.currency)) (compare_sum u)
          (get-Reads (sum_by_wallet id u.currency))
          (λ s.
            bind-Reads (domain (sub u.balance s.0))
              (λ d. domain (equal u.balance s.0) >>= λ q. pure (report u s d q))
              (domain-Reads (sub u.balance s.0))
              (λ d.
                bind-Reads (domain (equal u.balance s.0)) (λ q. pure (report u s d q))
                  (domain-Reads (equal u.balance s.0)) (λ q. pure-Reads (report u s d q))))))
