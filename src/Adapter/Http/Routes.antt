-- ===== src/Adapter/Http/Routes.antt =====
-- internal/adapter/http/wallets.go and the routes of server.go: the handlers of the wallets, and
-- which handler answers a request, after which checks.
pub mod Keeping
pub mod Access
use desafio_jungle_go.Prelude.{Result, ok, err, if◌then◌else◌, Bool, true, false}
use desafio_jungle_go.Prelude.Int.{ℤ}
use desafio_jungle_go.Prelude.Str.{Str}
use desafio_jungle_go.Domain.Errors.{Res, FailureCode, Sentinel, validation}
use desafio_jungle_go.Domain.Ledger.{is_blank}
use desafio_jungle_go.App.Ports.{of_domain}
use desafio_jungle_go.App.Identity.{Actor}
use desafio_jungle_go.App.Open.{OpenWalletCommand, open_wallet}
use desafio_jungle_go.App.Read.{load_wallet, list_ledger, parse_limit}
use desafio_jungle_go.App.Reconcile.{reconcile_wallet}
use desafio_jungle_go.Adapter.Http.{
  Response, respond, wallet_body, ledger_page, reconciliation, write_use_case_error, Handler,
  answer, written, for_decoded, authenticate, require_internal,
}
use desafio_jungle_go.Adapter.Http.Wagering.{
  Server, Request, OpenWalletRequest, correlation_id, post_wagering, get_transaction,
  get_provider_transaction,
}

abbrev pub opening_command : Request → OpenWalletRequest → OpenWalletCommand
opening_command r req = record {
  player_id = req.player_id;
  initial_balance = req.initial_balance;
  correlation_id = correlation_id r;
}

abbrev pub post_opening : Server → Request → OpenWalletRequest → Handler
post_opening s r req =
    if is_blank req.player_id
    then answer (
        write_use_case_error
          (of_domain (validation FailureCode.missing_identity Sentinel.missing_identity)))
    else λ w.
        written (λ o. respond 201 (wallet_body o)) (open_wallet s.env (opening_command r req) w)

-- `handleOpenWallet`
unfoldable pub post_wallet : Server → Request → Handler
post_wallet s r = for_decoded (post_opening s r) (s.decode_wallet r.body)

-- `handleGetWallet`
unfoldable pub get_wallet : Str → Handler
get_wallet id = λ w. written (λ u. respond 200 (wallet_body u)) (load_wallet id w)

abbrev pub list_limited : Server → Str → Str → Res ℤ → Handler
list_limited s id cursor (err e) = answer (write_use_case_error (of_domain e))
list_limited s id cursor (ok limit) =
    λ w. written (λ page. respond 200 (ledger_page page)) (list_ledger s.cursors id cursor limit w)

-- `handleListLedger`
unfoldable pub get_ledger : Server → Str → Str → Str → Handler
get_ledger s id cursor limit = list_limited s id cursor (parse_limit s.atoi limit)

-- `handleReconcile`
unfoldable pub post_reconciliation : Str → Handler
post_reconciliation id = λ w. written (λ r. respond 200 (reconciliation r)) (reconcile_wallet id w)

-- The routes of `NewServer` that need a token.
pub data Route : Type 0 where
  wallets : Route
  wallet : Str → Route
  ledger : Str → Str → Str → Route
  reconciliations : Str → Route
  transactions : Route
  transaction_by_id : Str → Route
  transaction_of : Str → Str → Route

-- The handler of a route, for an actor.
abbrev pub handler : Server → Request → Route → Actor → Handler
handler s r wallets actor = require_internal actor (post_wallet s r)
handler s r (wallet id) actor = require_internal actor (get_wallet id)
handler s r (ledger id cursor limit) actor = require_internal actor (get_ledger s id cursor limit)
handler s r (reconciliations id) actor = require_internal actor (post_reconciliation id)
handler s r transactions actor = post_wagering s r actor
handler s r (transaction_by_id id) actor = get_transaction id actor
handler s r (transaction_of provider_id external_id) actor =
    get_provider_transaction provider_id external_id actor

-- A request to a route.
unfoldable pub serve : Server → Request → Route → Handler
serve s r route = authenticate s.verify r.authorization (handler s r route)
