-- ===== src/Adapter/Http/Wagering.antt =====
-- internal/adapter/http/wagering.go: the handlers of the operations.
use desafio_jungle_go.Prelude.{ℕ, not, ◌||◌, Option, ok, err, if◌then◌else◌}
use desafio_jungle_go.Prelude.Int.{ℤ}
use desafio_jungle_go.Prelude.Str.{Str, codes, str_eq, is_empty, trim_space}
use desafio_jungle_go.Domain.Errors.{Res, FailureCode}
use desafio_jungle_go.Domain.Types.{Kind, Status, parse_kind}
use desafio_jungle_go.Domain.Money.{Money}
use desafio_jungle_go.App.Ports.{of_domain}
use desafio_jungle_go.App.Identity.{Actor, can_access_provider}
use desafio_jungle_go.App.Tx.{Env}
use desafio_jungle_go.App.Lookup.{SubmitCommand, SubmitResult}
use desafio_jungle_go.App.Submit.{submit}
use desafio_jungle_go.App.Read.{CursorCodec, load_transaction, load_by_external_id}
use desafio_jungle_go.Adapter.Http.{
  Response, respond, operation, transaction, write_failure, write_forbidden, write_use_case_error,
  Verified, Handler, answer, written, Decoded, for_decoded,
}

pub record WageringRequest : Type 0 where
  pub provider_id : Str
  pub external_id : Str
  pub player_id : Str
  pub wallet_id : Str
  pub round_id : Str
  pub game_id : Str
  pub kind : Str
  pub money : Money
  pub reference_external_id : Str

pub record OpenWalletRequest : Type 0 where
  pub player_id : Str
  pub initial_balance : Money

-- The service, and what the server takes from other packages: the verification of a token, and
-- `encoding/json`, `strconv.Atoi` and the encodings of the cursors from the standard library.
pub record Server : Type 0 where
  pub env : Env
  pub verify : Str → Verified
  pub decode_wagering : Str → Decoded WageringRequest
  pub decode_wallet : Str → Decoded OpenWalletRequest
  pub atoi : Str → Option ℤ
  pub cursors : CursorCodec

-- The headers `Authorization`, `Idempotency-Key` and the one of the correlation, and the body.
pub record Request : Type 0 where
  pub authorization : Str
  pub idempotency_key : Str
  pub correlation : Str
  pub body : Str

-- `correlationID`
abbrev pub correlation_id : Request → Str
correlation_id r = trim_space r.correlation

-- The status of the response to an operation.
abbrev pub operation_status : Status → ℕ
operation_status Status.rejected = 422
operation_status Status.pending_reference = 202
operation_status _ = 200

-- `writeOperation`
abbrev pub write_operation : SubmitResult → Response
write_operation out = respond (operation_status out.0.status) (operation out)

abbrev pub command_of : Actor → Request → Str → WageringRequest → Kind → SubmitCommand
command_of actor r provider_id req kind = record {
  actor = actor;
  idempotency_key = r.idempotency_key;
  provider_id = provider_id;
  external_id = req.external_id;
  player_id = req.player_id;
  wallet_id = req.wallet_id;
  round_id = req.round_id;
  game_id = req.game_id;
  kind = kind;
  money = req.money;
  reference_external_id = req.reference_external_id;
  correlation_id = correlation_id r;
}

abbrev pub post_kind : Server → Actor → Request → Str → WageringRequest → Res Kind → Handler
post_kind s actor r provider_id req (err e) = answer (write_use_case_error (of_domain e))
post_kind s actor r provider_id req (ok kind) =
    λ w. written write_operation (submit s.env (command_of actor r provider_id req kind) w)

-- `handlePostWagering` once the body is decoded.
abbrev pub post_decoded : Server → Actor → Request → WageringRequest → Handler
post_decoded s actor r req =
    let provider_id = (if is_empty req.provider_id then actor.provider_id else req.provider_id) in
    if not (str_eq provider_id actor.provider_id)
    then answer write_forbidden
    else if is_empty r.idempotency_key
    then answer (write_failure 400 (codes "invalid") FailureCode.missing_identity)
    else post_kind s actor r provider_id req (parse_kind req.kind)

-- `handlePostWagering`
unfoldable pub post_wagering : Server → Request → Actor → Handler
post_wagering s r actor =
    if actor.internal || is_empty actor.provider_id
    then answer write_forbidden
    else for_decoded (post_decoded s actor r) (s.decode_wagering r.body)

-- `handleGetTransaction`
unfoldable pub get_transaction : Str → Actor → Handler
get_transaction id actor =
    λ w. written (λ tx. respond 200 (transaction tx)) (load_transaction actor id w)

-- `handleProviderTransaction`
unfoldable pub get_provider_transaction : Str → Str → Actor → Handler
get_provider_transaction provider_id external_id actor =
    if not (can_access_provider actor provider_id) then answer write_forbidden else λ w.
    written (λ tx. respond 200 (transaction tx))
      (load_by_external_id actor provider_id external_id w)
