-- ===== src/App/Reconcile.antt =====
-- internal/app/reconcile.go, and `ledgerRepo.SumByWallet` of internal/adapter/postgres/ledger.go. The
-- counter of divergences is left out.
pub mod Agreement
use desafio_jungle_go.Prelude.{ℕ, ◌&&◌, Bool, length, leb, List, Result, ok, err, if◌then◌else◌}
use desafio_jungle_go.Prelude.Int.{ℤ}
use desafio_jungle_go.Prelude.Int64.{in_int64}
use desafio_jungle_go.Prelude.Str.{Str}
use desafio_jungle_go.Domain.Errors.{Res}
use desafio_jungle_go.Domain.Ledger.{WalletLedgerEntry}
use desafio_jungle_go.Domain.Money.{Money, money_from_minor, sub, equal}
use desafio_jungle_go.Domain.Wallet.{Wallet}
use desafio_jungle_go.Domain.History.{net}
use desafio_jungle_go.App.Ports.{AppError, of_domain, out_of_range, Db, get_wallet}
use desafio_jungle_go.App.Tx.{World, Tx, ◌>>=◌, pure, get, domain, within}
use desafio_jungle_go.App.Books.{entries_for}

pub record Reconciliation : Type 0 where
  pub wallet_id : Str
  pub stored_balance : Money
  pub calculated_balance : Money
  pub difference : Money
  pub consistent : Bool
  pub checked_entries : ℕ

-- `domain.MoneyFromMinor` at the end of `SumByWallet`.
abbrev pub summed : ℕ → Res Money → Result AppError (Money × ℕ)
summed n (ok m) = ok (m, n)
summed n (err e) = err (of_domain e)

-- `ledgerRepo.SumByWallet`: the exact sum, cast to `bigint`, and the count, cast to `int`.
abbrev pub sum_by_wallet : Str → Str → Db → Result AppError (Money × ℕ)
sum_by_wallet id currency db =
    let es : List WalletLedgerEntry = entries_for id db.ledger in
    if in_int64 (net es) && leb (length es) 2147483647
    then summed (length es) (money_from_minor (net es) currency)
    else err out_of_range

abbrev pub report : Wallet → Money × ℕ → Money → Bool → Reconciliation
report w counted diff eq = record {
  wallet_id = w.id;
  stored_balance = w.balance;
  calculated_balance = counted.0;
  difference = diff;
  consistent = eq;
  checked_entries = counted.1;
}

abbrev pub compare_sum : Wallet → Money × ℕ → Tx Reconciliation
compare_sum w counted = do
  diff ← domain (sub w.balance counted.0)
  eq ← domain (equal w.balance counted.0)
  pure (report w counted diff eq)

abbrev pub reconcile_loaded : Str → Wallet → Tx Reconciliation
reconcile_loaded wallet_id w = get (sum_by_wallet wallet_id w.currency) >>= compare_sum w

-- The body of `ReconcileWallet`.
abbrev pub reconcile_in_tx : Str → Tx Reconciliation
reconcile_in_tx wallet_id = get (get_wallet wallet_id) >>= reconcile_loaded wallet_id

-- `ReconcileWallet`
unfoldable pub reconcile_wallet : Str → Tx Reconciliation
reconcile_wallet wallet_id = within (reconcile_in_tx wallet_id)
