-- ===== src/Adapter/Http/Routes/Keeping.antt =====
-- The routes of internal/adapter/http/server.go keep the books.
use desafio_jungle_go.Prelude.{
  ◌≡◌, refl, sym, subst, Bool, true, false, not, ◌||◌, Option, none, some, Result, ok, err,
  Bool-cases, inl, inr, arith, suc, if◌then◌else◌,
}
use desafio_jungle_go.Prelude.Int.{ℤ}
use desafio_jungle_go.Prelude.Int64.{IsInt64}
use desafio_jungle_go.Prelude.Str.{Str, codes, str_eq, is_empty}
use desafio_jungle_go.Domain.Errors.{Res, FailureCode, Sentinel, validation}
use desafio_jungle_go.Domain.Types.{Kind, parse_kind}
use desafio_jungle_go.Domain.Money.{Money, parse_currency}
use desafio_jungle_go.Domain.Ledger.{is_blank}
use desafio_jungle_go.Domain.Canonical.{hash_canonical_payload}
use desafio_jungle_go.Domain.Opening.{OpenWalletParams, Opening}
use desafio_jungle_go.Domain.Opening.{open_wallet as open_domain_wallet}
use desafio_jungle_go.App.Identity.{Actor, authorize_submit, can_access_provider}
use desafio_jungle_go.App.Ports.{AppError, forbidden, of_domain}
use desafio_jungle_go.App.Tx.{Env, World, ◌>>=◌, ◌>>◌, domain, require}
use desafio_jungle_go.App.Tx.Runs.{Ended}
use desafio_jungle_go.App.Tx.Steps.{IsQuiet}
use desafio_jungle_go.App.Lookup.{SubmitCommand, canonical_from_submit}
use desafio_jungle_go.App.Submit.{submit, submit_hashed}
use desafio_jungle_go.App.Books.{IsBooked}
use desafio_jungle_go.App.Books.Applying.{IssuesIds}
use desafio_jungle_go.App.Books.Submitting.{IsOpen, submit-IsBooked}
use desafio_jungle_go.App.Open.{OpenWalletCommand, open_wallet, opening_params, persist_opening}
use desafio_jungle_go.App.Open.Keeping.{open_wallet-IsBooked}
use desafio_jungle_go.App.Read.Keeping.{
  load_wallet-Ended, load_transaction-Ended, load_by_external_id-Ended, list_ledger-Ended,
  reconcile_wallet-Ended,
}
use desafio_jungle_go.App.Read.{parse_limit, load_by_external_id}
use desafio_jungle_go.Adapter.Http.{
  Response, respond, wallet_body, transaction, write_failure, write_use_case_error, Verified, known,
  unknown, unreachable, Handler, answer, written, Decoded, value, bad_amount, malformed,
  for_decoded, for_verified, for_token, bearer_token, require_internal, authenticate,
  write_forbidden,
}
use desafio_jungle_go.Adapter.Http.Wagering.{
  Server, Request, WageringRequest, OpenWalletRequest, command_of, post_kind, post_decoded,
  post_wagering, get_transaction, get_provider_transaction,
}
use desafio_jungle_go.Adapter.Http.Routes.{
  opening_command, post_opening, post_wallet, get_wallet, list_limited, get_ledger,
  post_reconciliation, Route, wallets, wallet, ledger, reconciliations, transactions,
  transaction_by_id, transaction_of, handler, serve,
}

-- An amount that a decoder has set fits `int64`, and its currency is one of the known; one that the
-- body has left out is not set.
abbrev pub IsDecoded : Money → Type 0
IsDecoded m = m.initialized ≡ true → IsInt64 m.minor × (parse_currency m.currency ≡ ok m.currency)

-- What the amounts of the decoded bodies are.
pub record DecodesAmounts (s : Server) : Type 0 where
  pub wagering :
      (b : Str) (req : WageringRequest) → s.decode_wagering b ≡ value req → IsDecoded req.money
  pub wallet :
      (b : Str) (req : OpenWalletRequest)
      → s.decode_wallet b ≡ value req
      → IsDecoded req.initial_balance

submit-uninitialized :
    (env : Env) (cmd : SubmitCommand) (w : World)
    → cmd.money.initialized ≡ false
    → (submit env cmd w).1 ≡ w
unfolding submit hash_canonical_payload
submit-uninitialized env cmd w h = allowed (authorize_submit cmd.actor cmd.provider_id)
  where
    hashed :
        (r : Res Str)
        → r ≡ hash_canonical_payload env.digest (canonical_from_submit cmd)
        → ((domain r >>= submit_hashed env cmd) w).1 ≡ w
    hashed (err e) k = refl
    hashed (ok x) k = ground (arith, k, h)

    allowed :
        (b : Bool)
        → ((require b forbidden
              >> (domain (hash_canonical_payload env.digest (canonical_from_submit cmd))
                  >>= submit_hashed env cmd))
            w).1
          ≡ w
    allowed true = hashed (hash_canonical_payload env.digest (canonical_from_submit cmd)) refl
    allowed false = refl

opened_initialized :
    (p : OpenWalletParams) (o : Opening)
    → open_domain_wallet p ≡ ok o
    → p.initial.initialized ≡ true
unfolding open_domain_wallet
opened_initialized p o h = ground (arith, h)

submit-Ended :
    (env : Env) (cmd : SubmitCommand) (w : World)
    → IssuesIds env
    → IsDecoded cmd.money
    → IsQuiet w
    → IsOpen w.committed
    → Ended IsBooked (submit env cmd w).1
submit-Ended env cmd w ids m q i = elim (Bool-cases cmd.money.initialized) [
  | inl e ↦ submit-IsBooked env cmd w ids (record { is_initialized = e; fits = (m e).0 }) q i
  | inr e ↦
      subst (Ended IsBooked) (sym (submit-uninitialized env cmd w e))
        (record { quiet = q; holds = i.booked })
]

open_wallet-Ended :
    (env : Env) (cmd : OpenWalletCommand) (w : World)
    → IssuesIds env
    → IsDecoded cmd.initial_balance
    → IsQuiet w
    → IsBooked w.committed
    → Ended IsBooked (open_wallet env cmd w).1
unfolding open_wallet
open_wallet-Ended env cmd w ids m q b = elim (Bool-cases cmd.initial_balance.initialized) [
  | inl e ↦
      open_wallet-IsBooked env cmd w ids (record { is_initialized = e; fits = (m e).0 }) (m e).1 q b
  | inr e ↦ failed e (open_domain_wallet p) refl
]
  where
    p : OpenWalletParams
    p =
        opening_params cmd (env.new_id w.calls) (env.new_id (suc w.calls))
          (env.new_id (suc (suc w.calls))) (env.now (suc (suc (suc w.calls))))

    x : World
    x = record w { calls = suc (suc (suc (suc w.calls))) }

    failed :
        cmd.initial_balance.initialized ≡ false
        → (r : Res Opening) → open_domain_wallet p ≡ r
        → Ended IsBooked ((domain r >>= persist_opening env cmd) x).1
    failed e (ok o) h =
        let s : cmd.initial_balance.initialized ≡ true = opened_initialized p o h in
        ground (arith, s, e)
    failed e (err y) h = record { quiet = q; holds = b }

written-Ended :
    {A : Type 0} (f : A → Response) (p : Result AppError A × World)
    → Ended IsBooked p.1
    → Ended IsBooked (written f p).1
written-Ended f (ok a, w) e = e
written-Ended f (err x, w) e = e

-- A handler that keeps the books from a world.
abbrev Keeps : World → Handler → Type 0
Keeps w h = Ended IsBooked (h w).1

if-Keeps :
    (w : World) (b : Bool) (h k : Handler) → Keeps w h → Keeps w k → Keeps w (if b then h else k)
if-Keeps w true h k x y = x
if-Keeps w false h k x y = y

for_decoded-Keeps :
    {A : Type 0} (w : World) (next : A → Handler) (d : Decoded A)
    → Ended IsBooked w
    → ((a : A) → d ≡ value a → Keeps w (next a))
    → Keeps w (for_decoded next d)
for_decoded-Keeps w next (value a) e h = h a refl
for_decoded-Keeps w next (bad_amount x) e h = e
for_decoded-Keeps w next malformed e h = e

module _ (s : Server) (r : Request) (w : World) (ids : IssuesIds s.env) (amounts : DecodesAmounts s)
    (q : IsQuiet w) (i : IsOpen w.committed) where
  start : Ended IsBooked w
  start = record { quiet = q; holds = i.booked }

  post_kind-Keeps :
      (actor : Actor) (provider_id : Str) (req : WageringRequest) (k : Res Kind)
      → IsDecoded req.money
      → Keeps w (post_kind s actor r provider_id req k)
  post_kind-Keeps actor provider_id req (err e) m = start
  post_kind-Keeps actor provider_id req (ok kind) m =
      written-Ended _ (submit s.env (command_of actor r provider_id req kind) w)
        (submit-Ended s.env (command_of actor r provider_id req kind) w ids m q i)

  post_decoded-Keeps :
      (actor : Actor) (req : WageringRequest)
      → IsDecoded req.money
      → Keeps w (post_decoded s actor r req)
  post_decoded-Keeps actor req m =
      let provider_id = (if is_empty req.provider_id then actor.provider_id else req.provider_id) in
      let post : Handler = post_kind s actor r provider_id req (parse_kind req.kind) in
      let missing : Handler =
        answer (write_failure 400 (codes "invalid") FailureCode.missing_identity) in
      if-Keeps w (not (str_eq provider_id actor.provider_id)) (answer write_forbidden)
        (if is_empty r.idempotency_key then missing else post) start
        (if-Keeps w (is_empty r.idempotency_key) missing post start
          (post_kind-Keeps actor provider_id req (parse_kind req.kind) m))

  post_wagering-Keeps : (actor : Actor) → Keeps w (post_wagering s r actor)
  unfolding post_wagering
  post_wagering-Keeps actor =
      let post : Handler = for_decoded (post_decoded s actor r) (s.decode_wagering r.body) in
      if-Keeps w (actor.internal || is_empty actor.provider_id) (answer write_forbidden) post start
        (for_decoded-Keeps w (post_decoded s actor r) (s.decode_wagering r.body) start
          (λ req h. post_decoded-Keeps actor req (amounts.wagering r.body req h)))

  post_opening-Keeps :
      (req : OpenWalletRequest) → IsDecoded req.initial_balance → Keeps w (post_opening s r req)
  post_opening-Keeps req m =
      let missing : Handler = answer (
        write_use_case_error
          (of_domain (validation FailureCode.missing_identity Sentinel.missing_identity))) in
      let make : Handler = λ x.
        written (λ o. respond 201 (wallet_body o)) (open_wallet s.env (opening_command r req) x) in
      if-Keeps w (is_blank req.player_id) missing make start (
        written-Ended _ (open_wallet s.env (opening_command r req) w)
          (open_wallet-Ended s.env (opening_command r req) w ids m q i.booked))

  require_internal-Keeps :
      (actor : Actor) (h : Handler) → Keeps w h → Keeps w (require_internal actor h)
  require_internal-Keeps actor h k = if-Keeps w actor.internal h (answer write_forbidden) k start

  list_limited-Keeps : (id cursor : Str) (k : Res ℤ) → Keeps w (list_limited s id cursor k)
  list_limited-Keeps id cursor (err e) = start
  list_limited-Keeps id cursor (ok limit) =
      written-Ended _ _ (list_ledger-Ended IsBooked s.cursors id cursor limit w start)

  handler-Keeps : (route : Route) (actor : Actor) → Keeps w (handler s r route actor)
  unfolding post_wallet get_wallet get_ledger post_reconciliation get_transaction
      get_provider_transaction
  handler-Keeps wallets actor = require_internal-Keeps actor (post_wallet s r) (
      for_decoded-Keeps w (post_opening s r) (s.decode_wallet r.body) start
        (λ req h. post_opening-Keeps req (amounts.wallet r.body req h)))
  handler-Keeps (wallet id) actor =
      require_internal-Keeps actor (get_wallet id)
        (written-Ended _ _ (load_wallet-Ended IsBooked id w start))
  handler-Keeps (ledger id cursor limit) actor =
      require_internal-Keeps actor (get_ledger s id cursor limit)
        (list_limited-Keeps id cursor (parse_limit s.atoi limit))
  handler-Keeps (reconciliations id) actor =
      require_internal-Keeps actor (post_reconciliation id)
        (written-Ended _ _ (reconcile_wallet-Ended IsBooked id w start))
  handler-Keeps transactions actor = post_wagering-Keeps actor
  handler-Keeps (transaction_by_id id) actor =
      written-Ended _ _ (load_transaction-Ended IsBooked actor id w start)
  handler-Keeps (transaction_of provider_id external_id) actor =
      let load : Handler = λ x.
        written (λ tx. respond 200 (transaction tx))
          (load_by_external_id actor provider_id external_id x) in
      if-Keeps w (not (can_access_provider actor provider_id)) (answer write_forbidden) load start (
        written-Ended _ _
          (load_by_external_id-Ended IsBooked actor provider_id external_id w start))

  verified-Keeps : (route : Route) (v : Verified) → Keeps w (for_verified (handler s r route) v)
  verified-Keeps route (known actor) = handler-Keeps route actor
  verified-Keeps route unknown = start
  verified-Keeps route unreachable = start

  token-Keeps :
      (route : Route) (t : Option Str) → Keeps w (for_token s.verify (handler s r route) t)
  token-Keeps route none = start
  token-Keeps route (some raw) = verified-Keeps route (s.verify raw)

-- With identifiers that are never blank, from tables whose books balance and whose wallets can
-- still change, and while no other transaction commits, a request to any route leaves tables
-- whose books balance, whatever its headers and body are and whatever the response is, if every
-- amount that the decoder sets fits `int64` and has a known currency.
pub serve-Ended :
    (s : Server) (r : Request) (route : Route) (w : World)
    → IssuesIds s.env
    → DecodesAmounts s
    → IsQuiet w
    → IsOpen w.committed
    → Ended IsBooked (serve s r route w).1
unfolding serve authenticate
serve-Ended s r route w ids amounts q i =
    token-Keeps s r w ids amounts q i route (bearer_token r.authorization)
