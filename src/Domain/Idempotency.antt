-- ===== src/Domain/Idempotency.antt =====
-- internal/domain/idempotency.go: replay and conflict checks on stored identities.
use desafio_jungle_go.Prelude.{Bool, true, not, ◌||◌, ok, ◌>>◌, guard}
use desafio_jungle_go.Prelude.Str.{Str, str_eq, is_empty}
use desafio_jungle_go.Domain.Errors.{Res, FailureCode, Sentinel, validation, rejection}

-- `CheckIdempotencyReplay`
unfoldable pub check_idempotency_replay : Str → Str → Str → Str → Res Bool
check_idempotency_replay stored_key stored_hash incoming_key incoming_hash = do
  guard (not (is_empty stored_key || is_empty incoming_key))
      (validation FailureCode.missing_identity Sentinel.missing_identity)
  guard (str_eq stored_key incoming_key)
      (validation FailureCode.missing_identity Sentinel.missing_identity)
  guard (str_eq stored_hash incoming_hash)
      (rejection FailureCode.idempotency_payload_conflict Sentinel.idempotency_payload_conflict)
  ok true

-- `CheckExternalIdentity`
unfoldable pub check_external_identity : Str → Str → Res (Unit {0})
check_external_identity stored_key incoming_key = do
  guard (not (is_empty stored_key || is_empty incoming_key))
      (validation FailureCode.missing_identity Sentinel.missing_identity)
  guard (str_eq stored_key incoming_key)
      (rejection FailureCode.duplicate_external_transaction Sentinel.duplicate_external_transaction)
