-- ===== src/Examples/HttpCases.antt =====
-- The theorems on the HTTP server at concrete inputs.
use desafio_jungle_go.Prelude.{[], ◌∷◌, ◌≡◌, refl, subst, arith, none, ◌⊎◌, inr, if◌then◌else◌}
use desafio_jungle_go.Prelude.Str.{codes, str_eq, trim_space}
use desafio_jungle_go.App.Tx.{World}
use desafio_jungle_go.App.Tx.Runs.{Ended}
use desafio_jungle_go.App.Books.{IsBooked}
use desafio_jungle_go.App.Ports.{Db, find, get_transaction as lookup_transaction}
use desafio_jungle_go.Adapter.Http.{known, unknown, value, write_error, bearer_token, after_scheme}
use desafio_jungle_go.Adapter.Http.Wagering.{
  Server, Request, WageringRequest, OpenWalletRequest, post_wagering, get_transaction,
}
use desafio_jungle_go.Adapter.Http.Routes.{wallets, transactions, serve}
use desafio_jungle_go.Adapter.Http.Routes.Keeping.{IsDecoded, DecodesAmounts, serve-Ended}
use desafio_jungle_go.Adapter.Http.Routes.Access.{
  actor_of, SubmitsFor, IsForeign, serve-unauthenticated, post_wagering-SubmitsFor,
  get_transaction-hidden,
}
use desafio_jungle_go.Examples.Samples.{hundred, stake, bet}
use desafio_jungle_go.Examples.AppCases.{actor, tables}
use desafio_jungle_go.Examples.AdapterCases.{cursors}
use desafio_jungle_go.Examples.BookCases.{
  named_env, opened, opened_wallet, opened-IsBooked, opened-IsOpen, named_env-IssuesIds,
  stake-IsMoney, hundred-IsMoney, hundred-currency,
}

abbrev bet_request : WageringRequest
bet_request = record {
  provider_id = [];
  external_id = codes "e1";
  player_id = codes "p1";
  wallet_id = opened_wallet.id;
  round_id = codes "r1";
  game_id = codes "g1";
  kind = codes "BET";
  money = stake;
  reference_external_id = [];
}

abbrev opening_request : OpenWalletRequest
opening_request = record { player_id = codes "p2"; initial_balance = hundred }

-- A server that knows one token, and decodes every body to the same request.
abbrev server : Server
server = record {
  env = named_env;
  verify = λ t. if str_eq t (codes "t1") then known actor else unknown;
  decode_wagering = λ b. value bet_request;
  decode_wallet = λ b. value opening_request;
  atoi = λ s. none;
  cursors = cursors;
}

abbrev request : Request
request = record {
  authorization = codes "Bearer t1";
  idempotency_key = codes "k1";
  correlation = codes "x1";
  body = codes "{}";
}

server-DecodesAmounts : DecodesAmounts server
server-DecodesAmounts = record {
  wagering = λ b req h.
      let s : stake ≡ req.money = ground (arith, h) in
      subst IsDecoded s (λ e. (stake-IsMoney.fits, hundred-currency));
  wallet = λ b req h.
      let s : hundred ≡ req.initial_balance = ground (arith, h) in
      subst IsDecoded s (λ e. (hundred-IsMoney.fits, hundred-currency));
}

serve-Ended_example : Ended IsBooked (serve server request transactions opened).1
serve-Ended_example =
    serve-Ended server request transactions opened named_env-IssuesIds server-DecodesAmounts
      opened-IsBooked.quiet opened-IsOpen

-- A request with a token that is not known.
abbrev stranger : Request
stranger = record request { authorization = codes "Bearer t2" }

stranger_unknown : actor_of server stranger ≡ none
unfolding bearer_token after_scheme trim_space str_eq
stranger_unknown = refl

serve-unauthenticated_example : (serve server stranger wallets opened).1 ≡ opened
serve-unauthenticated_example =
    serve-unauthenticated server stranger wallets opened stranger_unknown

post_wagering-SubmitsFor_example :
    ((post_wagering server request actor opened).1 ≡ opened)
    ⊎ SubmitsFor server actor.provider_id opened (post_wagering server request actor opened).1
post_wagering-SubmitsFor_example = post_wagering-SubmitsFor server request actor opened

-- A transaction of another provider.
abbrev other_tables : Db
other_tables = record tables { transactions = record bet { provider_id = codes "other" } ∷ [] }

abbrev other_world : World
other_world = record { committed = other_tables; mine = other_tables; others = []; calls = 0 }

bet-IsForeign : IsForeign actor (lookup_transaction (codes "t1") other_tables)
unfolding find str_eq
bet-IsForeign = inr (λ h. ground (arith, h))

get_transaction-hidden_example :
    get_transaction (codes "t1") actor other_world
    ≡ (write_error 404 (codes "not_found"), record other_world { mine = other_tables })
get_transaction-hidden_example =
    get_transaction-hidden actor (codes "t1") other_world refl refl bet-IsForeign
