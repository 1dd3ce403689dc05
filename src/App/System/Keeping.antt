-- ===== src/App/System/Keeping.antt =====
-- The use cases of internal/app keep the books of a database, whatever sequence of them is called.
use desafio_jungle_go.Prelude.{◌≡◌, sym, subst, [], ok, length, ◌≤◌}
use desafio_jungle_go.Prelude.Str.{Str}
use desafio_jungle_go.Domain.Wallet.{Wallet}
use desafio_jungle_go.App.Ports.{Db, get_wallet}
use desafio_jungle_go.App.Tx.{Env, World}
use desafio_jungle_go.App.Tx.Steps.{IsQuiet}
use desafio_jungle_go.App.Tx.Runs.{Ended}
use desafio_jungle_go.App.Books.{IsBooked, entries_for}
use desafio_jungle_go.App.Books.Applying.{IssuesIds}
use desafio_jungle_go.App.Books.Submitting.{HasRoom, submit-IsBooked}
use desafio_jungle_go.App.Open.Keeping.{open_wallet-IsBooked}
use desafio_jungle_go.App.Inbound.Keeping.{handle_inbound-IsBooked}
use desafio_jungle_go.App.Pending.Keeping.{resume_one-IsBooked}
use desafio_jungle_go.App.Reconcile.{reconcile_wallet}
use desafio_jungle_go.App.Reconcile.Agreement.{agreed, reconcile_wallet_lem}
use desafio_jungle_go.App.System.{
  Call, submitting, receiving, opening, resuming, serve, HasAmounts, Serves, idle, served,
}

serve-IsBooked :
    (env : Env) (c : Call) (w : World)
    → IssuesIds env
    → HasAmounts c
    → HasRoom w.committed
    → Ended IsBooked w
    → Ended IsBooked (serve env c w)
unfolding serve
serve-IsBooked env (submitting cmd) w ids m r e =
    submit-IsBooked env cmd w ids m e.quiet (record { booked = e.holds; room = r })
serve-IsBooked env (receiving cmd) w ids m r e =
    handle_inbound-IsBooked env cmd w ids m e.quiet (record { booked = e.holds; room = r })
serve-IsBooked env (opening cmd) w ids m r e =
    open_wallet-IsBooked env cmd w ids m.0 m.1 e.quiet e.holds
serve-IsBooked env (resuming work p) w ids m r e =
    resume_one-IsBooked env work p w ids e.quiet (record { booked = e.holds; room = r })

-- With identifiers that are never blank, from tables whose books balance, any sequence of
-- `Submit`, `HandleInbound`, `OpenWallet` and `resumeOne`, of well-formed amounts, each called
-- while the versions of the wallets are below the largest `int64`, none interrupted by another
-- transaction, and each ending in success or failure, leaves tables whose books balance.
pub Serves-IsBooked :
    (env : Env) (v w : World)
    → IssuesIds env
    → IsQuiet v
    → IsBooked v.committed
    → Serves env v w
    → Ended IsBooked w
Serves-IsBooked env v w ids q b idle = record { quiet = q; holds = b }
Serves-IsBooked env v w ids q b (served c s m r) =
    serve-IsBooked env c _ ids m r (Serves-IsBooked env v _ ids q b s)

-- The tables of a new database.
abbrev pub empty_db : Db
empty_db = record { wallets = []; transactions = []; ledger = []; outbox = []; inbox = [] }

pub empty_db-IsBooked : IsBooked empty_db
empty_db-IsBooked = record { balances = tt; ids = tt; owners = tt; operations = tt }

-- On a new database, with identifiers that are never blank, and after any sequence of `Submit`,
-- `HandleInbound`, `OpenWallet` and `resumeOne`, of well-formed amounts, each called while the
-- versions of the wallets are below the largest `int64`, none interrupted by another transaction,
-- and each ending in success or failure, `ReconcileWallet` of any stored wallet with at most
-- 2147483647 entries reports no divergence: the stored balance is the sum of the entries.
pub reconcile_wallet-Serves :
    (env : Env) (v w : World) (id : Str) (u : Wallet)
    → IssuesIds env
    → IsQuiet v
    → v.committed ≡ empty_db
    → Serves env v w
    → get_wallet id w.committed ≡ ok u
    → length (entries_for u.id w.committed.ledger) ≤ 2147483647
    → reconcile_wallet id w ≡ (ok (agreed w.committed u), record w { mine = w.committed })
reconcile_wallet-Serves env v w id u ids q e s h n =
    let b : Ended IsBooked w =
      Serves-IsBooked env v w ids q (subst IsBooked (sym e) empty_db-IsBooked) s in
    reconcile_wallet_lem id u w b.quiet b.holds h n
