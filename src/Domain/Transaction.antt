-- ===== src/Domain/Transaction.antt =====
-- internal/domain/transaction.go: an operation and its status machine. The constructors take the
-- strings of kind, origin and status, which they parse.
pub mod Machine
pub mod Creation
use desafio_jungle_go.Prelude.{
  Bool, true, false, not, ◌&&◌, ◌||◌, [], ok, err, ◌>>=◌, ◌>>◌, guard, if◌then◌else◌,
}
use desafio_jungle_go.Prelude.Int.{pos}
use desafio_jungle_go.Prelude.Str.{Str, is_empty}
use desafio_jungle_go.Prelude.Time.{Time, utc}
use desafio_jungle_go.Domain.Errors.{Res, FailureCode, Sentinel, validation, rejection, code_eq}
use desafio_jungle_go.Domain.Types.{
  Kind, Status, Origin, parse_kind, parse_status, parse_origin, kind_eq, status_eq, terminal,
  is_external, requires_zero_amount, requires_positive_amount, requires_reference,
}
use desafio_jungle_go.Domain.Money.{Money, require_initialized, is_zero, is_positive}
use desafio_jungle_go.Domain.Ledger.{require_id}

pub record WagerTransaction : Type 0 where
  pub id : Str
  pub origin : Origin
  pub provider_id : Str
  pub external_id : Str
  pub idempotency_key : Str
  pub payload_hash : Str
  pub wallet_id : Str
  pub player_id : Str
  pub round_id : Str
  pub game_id : Str
  pub kind : Kind
  pub money : Money
  pub reference_external_id : Str
  pub resolved_reference_id : Str
  pub status : Status
  pub failure_code : FailureCode
  pub result_balance : Money
  pub has_result : Bool
  pub created_at : Time
  pub updated_at : Time

pub record ExternalTxParams : Type 0 where
  pub id : Str
  pub provider_id : Str
  pub external_id : Str
  pub idempotency_key : Str
  pub payload_hash : Str
  pub wallet_id : Str
  pub player_id : Str
  pub round_id : Str
  pub game_id : Str
  pub kind : Str
  pub money : Money
  pub reference_external_id : Str
  pub now : Time

pub record OpeningTxParams : Type 0 where
  pub id : Str
  pub wallet_id : Str
  pub player_id : Str
  pub money : Money
  pub now : Time

-- The zero value of Go's `Money`.
abbrev pub no_money : Money
no_money = record { minor = pos 0; currency = []; initialized = false }

-- `validateKindAmount`
abbrev pub validate_kind_amount : Kind → Money → Res (Unit {0})
validate_kind_amount kind money =
    if requires_zero_amount kind
    then guard (is_zero money)
        (validation FailureCode.zero_amount_required Sentinel.zero_amount_required)
    else if requires_positive_amount kind
    then guard (is_positive money)
        (validation FailureCode.positive_amount_required Sentinel.positive_amount_required)
    else ok tt

-- `NewExternalTransaction`
unfoldable pub new_external_transaction : ExternalTxParams → Res WagerTransaction
new_external_transaction p = do
  kind ← parse_kind p.kind
  guard (not (kind_eq kind Kind.opening || not (is_external kind)))
      (validation FailureCode.opening_not_allowed Sentinel.opening_not_allowed)
  require_id p.id
  require_id p.provider_id
  require_id p.external_id
  require_id p.idempotency_key
  require_id p.payload_hash
  require_id p.wallet_id
  require_id p.player_id
  require_id p.round_id
  require_id p.game_id
  require_initialized p.money
  validate_kind_amount kind p.money
  guard (not (requires_reference kind && is_empty p.reference_external_id))
      (validation FailureCode.missing_reference Sentinel.missing_reference)
  ok (record {
    id = p.id;
    origin = Origin.external;
    provider_id = p.provider_id;
    external_id = p.external_id;
    idempotency_key = p.idempotency_key;
    payload_hash = p.payload_hash;
    wallet_id = p.wallet_id;
    player_id = p.player_id;
    round_id = p.round_id;
    game_id = p.game_id;
    kind = kind;
    money = p.money;
    reference_external_id = p.reference_external_id;
    resolved_reference_id = [];
    status = Status.pending;
    failure_code = FailureCode.empty;
    result_balance = no_money;
    has_result = false;
    created_at = utc p.now;
    updated_at = utc p.now;
  })

-- `NewOpeningTransaction`
unfoldable pub new_opening_transaction : OpeningTxParams → Res WagerTransaction
new_opening_transaction p = do
  require_id p.id
  require_id p.wallet_id
  require_id p.player_id
  require_initialized p.money
  guard (is_positive p.money)
      (validation FailureCode.positive_amount_required Sentinel.positive_amount_required)
  ok (record {
    id = p.id;
    origin = Origin.internal;
    provider_id = [];
    external_id = [];
    idempotency_key = [];
    payload_hash = [];
    wallet_id = p.wallet_id;
    player_id = p.player_id;
    round_id = [];
    game_id = [];
    kind = Kind.opening;
    money = p.money;
    reference_external_id = [];
    resolved_reference_id = [];
    status = Status.pending;
    failure_code = FailureCode.empty;
    result_balance = no_money;
    has_result = false;
    created_at = utc p.now;
    updated_at = utc p.now;
  })

-- The `switch` of `transition`: which status may follow a status that is not terminal.
abbrev allowed : Status → Status → Bool
allowed Status.pending to =
    status_eq to Status.processed
    || status_eq to Status.rejected
    || status_eq to Status.failed
    || status_eq to Status.pending_reference
allowed Status.pending_reference to =
    status_eq to Status.processed
    || status_eq to Status.rejected
    || status_eq to Status.failed
    || status_eq to Status.pending_reference
allowed _ to = false

-- `WagerTransaction.transition`
unfoldable pub transition : WagerTransaction → Status → Time → Res WagerTransaction
transition t to now = do
  guard (not (terminal t.status)) (rejection FailureCode.invalid_transition Sentinel.terminal_state)
  guard (allowed t.status to) (rejection FailureCode.invalid_transition Sentinel.invalid_transition)
  ok (record t { status = to; updated_at = utc now })

-- `WagerTransaction.MarkProcessed`
unfoldable pub mark_processed : WagerTransaction → Money → Time → Res WagerTransaction
unfolding transition
mark_processed t result now = do
  require_initialized result
  t' ← transition t Status.processed now
  ok (record t' { result_balance = result; has_result = true; failure_code = FailureCode.empty })

-- `WagerTransaction.MarkRejected`
unfoldable pub mark_rejected : WagerTransaction → FailureCode → Time → Res WagerTransaction
unfolding transition
mark_rejected t code now = do
  guard (not (code_eq code FailureCode.empty))
      (validation FailureCode.invalid_transition Sentinel.invalid_transition)
  t' ← transition t Status.rejected now
  ok (record t' { failure_code = code; has_result = false })

-- `WagerTransaction.MarkPendingReference`
unfoldable pub mark_pending_reference : WagerTransaction → Str → Time → Res WagerTransaction
unfolding transition
mark_pending_reference t resolved_reference_id now = do
  t' ← transition t Status.pending_reference now
  ok (
      if is_empty resolved_reference_id
      then t'
      else record t' { resolved_reference_id = resolved_reference_id })

-- `WagerTransaction.MarkFailed`
unfoldable pub mark_failed : WagerTransaction → FailureCode → Time → Res WagerTransaction
unfolding transition
mark_failed t code now = do
  guard (not (code_eq code FailureCode.empty))
      (validation FailureCode.invalid_transition Sentinel.invalid_transition)
  t' ← transition t Status.failed now
  ok (record t' { failure_code = code; has_result = false })

-- `WagerTransaction.ResolveReference`
unfoldable pub resolve_reference : WagerTransaction → Str → Res WagerTransaction
resolve_reference t internal_id = do
  require_id internal_id
  guard (not (terminal t.status)) (rejection FailureCode.invalid_transition Sentinel.terminal_state)
  ok (record t { resolved_reference_id = internal_id })
