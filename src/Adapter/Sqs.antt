-- ===== src/Adapter/Sqs.antt =====
-- internal/adapter/sqs/inbound.go and disposition.go: a message body becomes a command, and an
-- error becomes what is done with the message. `encoding/json` and SHA-256 are parameters.
pub mod Parsing
pub mod Consumer
use desafio_jungle_go.Prelude.{
  Bool, true, false, not, ◌&&◌, ◌||◌, List, [], ◌∷◌, Option, none, some, Result, ok, err,
  if◌then◌else◌,
}
use desafio_jungle_go.Prelude.Str.{Str, codes, str_eq, is_empty}
use desafio_jungle_go.Domain.Errors.{
  Res, FailureClass, FailureCode, Sentinel, ClassifiedError, validation,
}
use desafio_jungle_go.Domain.Types.{Kind, kind_eq, parse_kind}
use desafio_jungle_go.Domain.Money.{Money, require_initialized}
use desafio_jungle_go.Domain.Ledger.{is_blank}
use desafio_jungle_go.App.Ports.{
  AppError, not_found, conflict, optimistic_lock, unavailable, inbox_hash_mismatch, forbidden,
  out_of_range, rolled_back, wallet_mismatch, of_domain,
}
use desafio_jungle_go.App.Identity.{Actor}
use desafio_jungle_go.App.Lookup.{SubmitCommand}
use desafio_jungle_go.App.Inbound.{InboundCommand}

pub data Disposition : Type 0 where
  ack retry dead_letter : Disposition

-- `errInvalidMessage`, or an error of the application.
pub data MessageError : Type 0 where
  invalid_message : MessageError
  of_app : AppError → MessageError

abbrev pub by_class : FailureClass → Disposition
by_class FailureClass.validation_class = Disposition.dead_letter
by_class FailureClass.rejection_class = Disposition.dead_letter
by_class FailureClass.permanent_class = Disposition.dead_letter
by_class FailureClass.transient_class = Disposition.retry
by_class FailureClass.wait_class = Disposition.retry

-- `DispositionOf`, of an error.
unfoldable pub disposition_of : MessageError → Disposition
disposition_of invalid_message = Disposition.dead_letter
disposition_of (of_app inbox_hash_mismatch) = Disposition.dead_letter
disposition_of (of_app unavailable) = Disposition.retry
disposition_of (of_app not_found) = Disposition.retry
disposition_of (of_app forbidden) = Disposition.dead_letter
disposition_of (of_app (of_domain e)) = by_class e.class
disposition_of (of_app conflict) = Disposition.retry
disposition_of (of_app optimistic_lock) = Disposition.retry
disposition_of (of_app out_of_range) = Disposition.retry
disposition_of (of_app rolled_back) = Disposition.retry
disposition_of (of_app wallet_mismatch) = Disposition.retry

pub record WireEnvelope : Type 0 where
  pub message_id : Str
  pub type : Str
  pub raw_data : Str

pub record WireData : Type 0 where
  pub provider_id : Str
  pub external_id : Str
  pub idempotency_key : Str
  pub player_id : Str
  pub wallet_id : Str
  pub round_id : Str
  pub game_id : Str
  pub kind : Str
  pub money : Money
  pub reference_external_id : Str

-- Decoding the data fails with the error of an amount, or with one of the syntax.
pub data DataError : Type 0 where
  syntax : DataError
  amount : ClassifiedError → DataError

-- What the adapter takes from the standard library.
pub record Codec : Type 0 where
  pub envelope : Str → Option WireEnvelope
  pub wire_data : Str → Result DataError WireData
  pub hash_body : Str → Str

abbrev pub Parsed : Type 0 → Type 0
Parsed A = Result MessageError A

abbrev pub envelope_type : Str
envelope_type = codes "WagerTransactionRequested"

abbrev pub inbox_consumer : Str
inbox_consumer = codes "wager-transactions"

-- The client of an actor that comes from the queue.
abbrev pub sqs_client : Str
sqs_client = codes "sqs"

abbrev pub has_required : WireData → Bool
has_required d = not (
    is_blank d.provider_id
    || is_blank d.external_id
    || is_blank d.idempotency_key
    || is_blank d.player_id
    || is_blank d.wallet_id
    || is_blank d.round_id
    || is_blank d.game_id)

abbrev pub command_of : Codec → Str → WireEnvelope → WireData → Kind → InboundCommand
command_of c body env d kind = record {
  consumer_name = inbox_consumer;
  message_id = env.message_id;
  payload_hash = c.hash_body body;
  submit = record {
    actor = record {
      subject = [];
      client_id = sqs_client;
      provider_id = d.provider_id;
      internal = false;
    };
    idempotency_key = d.idempotency_key;
    provider_id = d.provider_id;
    external_id = d.external_id;
    player_id = d.player_id;
    wallet_id = d.wallet_id;
    round_id = d.round_id;
    game_id = d.game_id;
    kind = kind;
    money = d.money;
    reference_external_id = d.reference_external_id;
    correlation_id = env.message_id;
  };
}

-- The end of `ParseInbound`: an opening is refused, and so is an amount that is not set.
abbrev pub parse_amount : Codec → Str → WireEnvelope → WireData → Res Kind → Parsed InboundCommand
parse_amount c body env d (err e) = err (of_app (of_domain e))
parse_amount c body env d (ok kind) =
    if kind_eq kind Kind.opening
    then err (
        of_app
          (of_domain (validation FailureCode.opening_not_allowed Sentinel.opening_not_allowed)))
    else elim (require_initialized d.money) [
      | ok _ ↦ ok (command_of c body env d kind)
      | err e ↦ err (of_app (of_domain e))
    ]

abbrev pub parse_data :
    Codec → Str → WireEnvelope → Result DataError WireData → Parsed InboundCommand
parse_data c body env (err syntax) = err invalid_message
parse_data c body env (err (amount e)) = err (of_app (of_domain e))
parse_data c body env (ok d) =
    if has_required d then parse_amount c body env d (parse_kind d.kind) else err invalid_message

abbrev pub parse_envelope : Codec → Str → Option WireEnvelope → Parsed InboundCommand
parse_envelope c body none = err invalid_message
parse_envelope c body (some env) =
    if is_blank env.message_id || not (str_eq env.type envelope_type) || is_empty env.raw_data
    then err invalid_message
    else parse_data c body env (c.wire_data env.raw_data)

-- `ParseInbound`
unfoldable pub parse_inbound : Codec → Str → Parsed InboundCommand
parse_inbound c body =
    if is_empty body then err invalid_message else parse_envelope c body (c.envelope body)
