-- ===== src/App/System.antt =====
-- internal/app: the use cases that write, called one after another on the same database: `Submit`,
-- `HandleInbound`, `OpenWallet` and `resumeOne`.
pub mod Keeping
use desafio_jungle_go.Prelude.{◌≡◌, ok}
use desafio_jungle_go.Domain.Money.Sums.{IsMoney}
use desafio_jungle_go.Domain.Money.{parse_currency}
use desafio_jungle_go.App.Tx.{Env, World}
use desafio_jungle_go.App.Lookup.{SubmitCommand}
use desafio_jungle_go.App.Submit.{submit}
use desafio_jungle_go.App.Books.Submitting.{HasRoom}
use desafio_jungle_go.App.Open.{OpenWalletCommand, open_wallet}
use desafio_jungle_go.App.Inbound.{InboundCommand, handle_inbound}
use desafio_jungle_go.App.Pending.{PendingWork, ResumeParams, resume_one}

-- A call of a use case.
pub data Call : Type 0 where
  submitting : SubmitCommand → Call
  receiving : InboundCommand → Call
  opening : OpenWalletCommand → Call
  resuming : PendingWork → ResumeParams → Call

-- The world that a call leaves, whatever it returns.
unfoldable pub serve : Env → Call → World → World
serve env (submitting cmd) w = (submit env cmd w).1
serve env (receiving cmd) w = (handle_inbound env cmd w).1
serve env (opening cmd) w = (open_wallet env cmd w).1
serve env (resuming work p) w = (resume_one env work p w).1

-- The amounts of a call fit `int64`, and the currency of a wallet to open is one of the known.
abbrev pub HasAmounts : Call → Type 0
HasAmounts (submitting cmd) = IsMoney cmd.money
HasAmounts (receiving cmd) = IsMoney cmd.submit.money
HasAmounts (opening cmd) =
    IsMoney cmd.initial_balance
    × (parse_currency cmd.initial_balance.currency ≡ ok cmd.initial_balance.currency)
HasAmounts (resuming work p) = Unit

-- One world is left by calls on another, each while the wallets can still change.
pub data Serves (env : Env) (v : World) : World → Type 0 where
  idle : Serves env v v
  served :
      {w : World} (c : Call)
      → Serves env v w
      → HasAmounts c
      → HasRoom w.committed
      → Serves env v (serve env c w)
