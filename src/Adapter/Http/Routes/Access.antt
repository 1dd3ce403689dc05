-- ===== src/Adapter/Http/Routes/Access.antt =====
-- Who can do what over the routes of internal/adapter/http/server.go.
use desafio_jungle_go.Prelude.{
  ◌≢◌, ◌≡◌, refl, sym, ap, ◌∙◌, Bool, true, false, not, ◌||◌, Option, none, some, Result, ok, err,
  inl, inr, ◌⊎◌, arith, if◌then◌else◌,
}
use desafio_jungle_go.Prelude.Str.{Str, codes, str_eq, str_eq_iff, is_empty}
use desafio_jungle_go.Domain.Errors.{Res, FailureCode}
use desafio_jungle_go.Domain.Types.{Kind, parse_kind}
use desafio_jungle_go.Domain.Transaction.{WagerTransaction}
use desafio_jungle_go.App.Identity.{Actor, can_access_provider, can_read_transaction}
use desafio_jungle_go.App.Ports.{
  AppError, not_found, Db, find, or_not_found, get_transaction as lookup_transaction,
}
use desafio_jungle_go.App.Read.{load_transaction, readable}
use desafio_jungle_go.App.Tx.{World, ◌>>=◌, ◌>>◌, pure, require, within, settle}
use desafio_jungle_go.App.Tx.Steps.{IsQuiet, pause-IsQuiet}
use desafio_jungle_go.App.Lookup.{SubmitCommand}
use desafio_jungle_go.App.Submit.{submit}
use desafio_jungle_go.Adapter.Http.{
  Response, Verified, known, unknown, unreachable, Handler, answer, written, Decoded, value,
  bad_amount, malformed, for_decoded, for_verified, for_token, bearer_token, authenticate,
  write_error, write_forbidden, write_failure, write_use_case_error, respond, transaction,
}
use desafio_jungle_go.Adapter.Http.Wagering.{
  Server, Request, WageringRequest, write_operation, command_of, post_kind, post_decoded,
  post_wagering, get_transaction,
}
use desafio_jungle_go.Adapter.Http.Routes.{Route, handler, serve}

abbrev pub verified_actor : Verified → Option Actor
verified_actor (known actor) = some actor
verified_actor unknown = none
verified_actor unreachable = none

abbrev pub token_actor : (Str → Verified) → Option Str → Option Actor
token_actor verify none = none
token_actor verify (some raw) = verified_actor (verify raw)

-- The actor of a request, if its token is good.
abbrev pub actor_of : Server → Request → Option Actor
actor_of s r = token_actor s.verify (bearer_token r.authorization)

-- A request without a good token changes nothing, on any route.
pub serve-unauthenticated :
    (s : Server) (r : Request) (route : Route) (w : World)
    → actor_of s r ≡ none
    → (serve s r route w).1 ≡ w
unfolding serve authenticate
serve-unauthenticated s r route w h = token (bearer_token r.authorization) h
  where
    good : (v : Verified) → verified_actor v ≡ none → (for_verified (handler s r route) v w).1 ≡ w
    good (known actor) e = ground (arith, e)
    good unknown e = refl
    good unreachable e = refl

    token :
        (t : Option Str)
        → token_actor s.verify t ≡ none
        → (for_token s.verify (handler s r route) t w).1 ≡ w
    token none e = refl
    token (some raw) e = good (s.verify raw) e

-- A call of `Submit` for a provider.
pub record SubmitsFor (s : Server) (provider_id : Str) (w x : World) : Type 0 where
  pub command : SubmitCommand
  pub own : command.provider_id ≡ provider_id
  pub external : command.actor.internal ≡ false
  pub run : x ≡ (submit s.env command w).1

written_world :
    {A : Type 0} (f : A → Response) (p : Result AppError A × World) → (written f p).1 ≡ p.1
written_world f (ok a, x) = refl
written_world f (err e, x) = refl

-- A handler that changes nothing, or calls `Submit` once for the provider.
abbrev Own : Server → Str → World → Handler → Type 0
Own s provider_id w h = ((h w).1 ≡ w) ⊎ SubmitsFor s provider_id w (h w).1

if-Own :
    (s : Server) (provider_id : Str) (w : World) (b : Bool) (h k : Handler)
    → Own s provider_id w h
    → (b ≡ false → Own s provider_id w k)
    → Own s provider_id w (if b then h else k)
if-Own s provider_id w true h k x y = x
if-Own s provider_id w false h k x y = y refl

module _ (s : Server) (r : Request) (actor : Actor) (w : World)
    (external : actor.internal ≡ false) where
  post_kind-Own :
      (provider_id : Str) (req : WageringRequest) (k : Res Kind)
      → provider_id ≡ actor.provider_id
      → Own s actor.provider_id w (post_kind s actor r provider_id req k)
  post_kind-Own provider_id req (err e) own = inl refl
  post_kind-Own provider_id req (ok kind) own =
      let cmd : SubmitCommand = command_of actor r provider_id req kind in
      inr (record {
        command = cmd;
        own = own;
        external = external;
        run = written_world write_operation (submit s.env cmd w);
      })

  post_decoded-Own :
      (req : WageringRequest) → Own s actor.provider_id w (post_decoded s actor r req)
  post_decoded-Own req =
      let id : Str = if is_empty req.provider_id then actor.provider_id else req.provider_id in
      let post : Handler = post_kind s actor r id req (parse_kind req.kind) in
      let missing : Handler =
        answer (write_failure 400 (codes "invalid") FailureCode.missing_identity) in
      if-Own s actor.provider_id w (not (str_eq id actor.provider_id)) (answer write_forbidden)
        (if is_empty r.idempotency_key then missing else post) (inl refl)
        (λ e.
          if-Own s actor.provider_id w (is_empty r.idempotency_key) missing post (inl refl) (λ _.
            post_kind-Own id req (parse_kind req.kind)
              ((str_eq_iff id actor.provider_id).0 (not_false (str_eq id actor.provider_id) e))))
    where
      not_false : (b : Bool) → not b ≡ false → b ≡ true
      not_false true e = refl
      not_false false e = sym e

  for_decoded-Own :
      (d : Decoded WageringRequest)
      → Own s actor.provider_id w (for_decoded (post_decoded s actor r) d)
  for_decoded-Own (value req) = post_decoded-Own req
  for_decoded-Own (bad_amount e) = inl refl
  for_decoded-Own malformed = inl refl

-- `handlePostWagering` changes nothing, or it calls `Submit` once, for the provider of the actor,
-- which is not internal.
pub post_wagering-SubmitsFor :
    (s : Server) (r : Request) (actor : Actor) (w : World)
    → ((post_wagering s r actor w).1 ≡ w)
      ⊎ SubmitsFor s actor.provider_id w (post_wagering s r actor w).1
unfolding post_wagering
post_wagering-SubmitsFor s r actor w =
    if-Own s actor.provider_id w (actor.internal || is_empty actor.provider_id)
      (answer write_forbidden) (for_decoded (post_decoded s actor r) (s.decode_wagering r.body))
      (inl refl)
      (λ e.
        for_decoded-Own s r actor w (left_false actor.internal (is_empty actor.provider_id) e)
          (s.decode_wagering r.body))
  where
    left_false : (a b : Bool) → (a || b) ≡ false → a ≡ false
    left_false true b e = e
    left_false false b e = refl

-- What a lookup finds is not there, is of no provider, or is of a provider other than the actor's.
abbrev pub IsForeign : Actor → Result AppError WagerTransaction → Type 0
IsForeign actor (ok t) = (is_empty t.provider_id ≡ true) ⊎ (t.provider_id ≢ actor.provider_id)
IsForeign actor (err e) = Unit

foreign_unreadable :
    (actor : Actor) (t : WagerTransaction)
    → actor.internal ≡ false
    → IsForeign actor (ok t)
    → can_read_transaction actor t ≡ false
unfolding can_read_transaction can_access_provider
foreign_unreadable actor t i f = ground (arith, i, f, str_eq_iff actor.provider_id t.provider_id)

-- The only error of a lookup.
lookup_error :
    (id : Str) (db : Db) (e : AppError) → lookup_transaction id db ≡ err e → e ≡ not_found
lookup_error id db e h = go (find (λ t. str_eq t.id id) db.transactions) h
  where
    go : (o : Option WagerTransaction) → or_not_found o ≡ err e → e ≡ not_found
    go none k = ground (arith, k)
    go (some t) k = ground (arith, k)

-- While no other transaction commits, an actor that is not internal gets the same answer for a
-- transaction of another provider, for one of no provider, and for one that does not exist: 404
-- with the same body, and the committed tables unchanged.
pub get_transaction-hidden :
    (actor : Actor) (id : Str) (w : World)
    → IsQuiet w
    → actor.internal ≡ false
    → IsForeign actor (lookup_transaction id w.committed)
    → get_transaction id actor w
      ≡ (write_error 404 (codes "not_found"), record w { mine = w.committed })
unfolding get_transaction load_transaction within write_use_case_error
get_transaction-hidden actor id w q i h =
    ap (λ y. after (lookup_transaction id y.mine, y)) (pause-IsQuiet x q)
    ∙ found (lookup_transaction id w.committed) (lookup_error id w.committed) h
  where
    x : World
    x = record w { mine = w.committed }

    after : Result AppError WagerTransaction × World → Response × World
    after p =
        let r = ((λ (_ : World). p) >>= readable actor) x in
        written (λ tx. respond 200 (transaction tx)) (settle r.0 r.1)

    found :
        (r : Result AppError WagerTransaction)
        → ((e : AppError) → r ≡ err e → e ≡ not_found)
        → IsForeign actor r
        → after (r, x) ≡ (write_error 404 (codes "not_found"), x)
    found (err e) only k = ap (λ y. (write_use_case_error y, x)) (only e refl)
    found (ok t) only k =
        ap
          (λ b.
            let r = (require b not_found >> pure t) x in
            written (λ tx. respond 200 (transaction tx)) (settle r.0 r.1))
          (foreign_unreadable actor t i k)
