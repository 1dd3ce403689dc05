-- ===== src/Adapter/Http.antt =====
-- internal/adapter/http/auth.go: the bearer token, and the status of a response to an error.
pub mod Wagering
pub mod Routes
use desafio_jungle_go.Prelude.{
  ℕ, suc, ◌+◌, Bool, true, false, not, ◌&&◌, ◌||◌, List, [], ◌∷◌, Option, none, some, Result, ok,
  err, ltb, leb, length, if◌then◌else◌,
}
use desafio_jungle_go.Prelude.Str.{Str, codes, str_eq, is_empty, trim_space}
use desafio_jungle_go.Domain.Errors.{FailureClass, FailureCode, ClassifiedError, code_eq}
use desafio_jungle_go.Domain.Wallet.{Wallet}
use desafio_jungle_go.Domain.Transaction.{WagerTransaction}
use desafio_jungle_go.App.Ports.{
  AppError, not_found, conflict, optimistic_lock, unavailable, inbox_hash_mismatch, forbidden,
  out_of_range, rolled_back, wallet_mismatch, of_domain,
}
use desafio_jungle_go.App.Identity.{Actor}
use desafio_jungle_go.App.Tx.{World}
use desafio_jungle_go.App.Lookup.{SubmitResult}
use desafio_jungle_go.App.Read.{LedgerPage}
use desafio_jungle_go.App.Reconcile.{Reconciliation}

-- The bodies of the responses: an error with its word and its failure code, which is `empty` where
-- it is left out, or what a handler writes. Messages and the format of JSON are left out.
pub data Body : Type 0 where
  error_body : Str → FailureCode → Body
  operation : SubmitResult → Body
  transaction : WagerTransaction → Body
  wallet_body : Wallet → Body
  ledger_page : LedgerPage → Body
  reconciliation : Reconciliation → Body

pub record Response : Type 0 where
  pub status : ℕ
  pub body : Body

abbrev pub respond : ℕ → Body → Response
respond status body = record { status = status; body = body }

-- `writeError`
abbrev pub write_error : ℕ → Str → Response
write_error status code = respond status (error_body code FailureCode.empty)

-- `writeFailure`
abbrev pub write_failure : ℕ → Str → FailureCode → Response
write_failure status code failure = respond status (error_body code failure)

abbrev pub write_unavailable : Response
write_unavailable = write_error 503 (codes "unavailable")

abbrev pub write_forbidden : Response
write_forbidden = write_error 403 (codes "forbidden")

abbrev pub write_unauthenticated : Response
write_unauthenticated = write_error 401 (codes "unauthenticated")

abbrev pub is_conflict : FailureCode → Bool
is_conflict code =
    code_eq code FailureCode.idempotency_payload_conflict
    || code_eq code FailureCode.duplicate_external_transaction

abbrev pub write_classified : FailureClass → FailureCode → Response
write_classified FailureClass.validation_class code = write_failure 400 (codes "invalid") code
write_classified FailureClass.rejection_class code =
    if is_conflict code
    then write_failure 409 (codes "conflict") code
    else write_failure 422 (codes "rejected") code
write_classified FailureClass.wait_class code = write_unavailable
write_classified FailureClass.transient_class code = write_unavailable
write_classified FailureClass.permanent_class code = write_unavailable

-- `writeUseCaseError`, of an error.
unfoldable pub write_use_case_error : AppError → Response
write_use_case_error forbidden = write_forbidden
write_use_case_error not_found = write_error 404 (codes "not_found")
write_use_case_error unavailable = write_unavailable
write_use_case_error conflict = write_error 409 (codes "conflict")
write_use_case_error (of_domain e) = write_classified e.class e.code
write_use_case_error optimistic_lock = write_unavailable
write_use_case_error inbox_hash_mismatch = write_unavailable
write_use_case_error out_of_range = write_unavailable
write_use_case_error rolled_back = write_unavailable
write_use_case_error wallet_mismatch = write_unavailable

abbrev pub lower : ℕ → ℕ
lower b = if leb 65 b && leb b 90 then b + 32 else b

-- What is left of a header after the scheme; `strings.EqualFold` on the letters of "bearer", which
-- have no other form than the two of ASCII.
unfoldable pub after_scheme : Str → Str → Option Str
after_scheme [] header = some header
after_scheme (p ∷ ps) [] = none
after_scheme (p ∷ ps) (b ∷ header) =
    let rest = after_scheme ps header in if str_eq (p ∷ []) (lower b ∷ []) then rest else none

abbrev pub token_of : Str → Option Str
token_of token = if is_empty token then none else some token

-- `bearerToken`
unfoldable pub bearer_token : Str → Option Str
bearer_token header = elim (after_scheme (codes "bearer ") header) [
  | none ↦ none
  | some raw ↦ token_of (trim_space raw)
]

-- What `TokenVerifier.Verify` returns: an actor, `auth.ErrUnavailable`, or another error.
pub data Verified : Type 0 where
  known : Actor → Verified
  unknown unreachable : Verified

-- A handler, on the world of the service.
abbrev pub Handler : Type 0
Handler = World → Response × World

abbrev pub answer : Response → Handler
answer r w = (r, w)

abbrev pub for_verified : (Actor → Handler) → Verified → Handler
for_verified next (known actor) = next actor
for_verified next unknown = answer write_unauthenticated
for_verified next unreachable = answer write_unavailable

abbrev pub for_token : (Str → Verified) → (Actor → Handler) → Option Str → Handler
for_token verify next none = answer write_unauthenticated
for_token verify next (some raw) = for_verified next (verify raw)

-- `authenticate`, with the header `Authorization`.
unfoldable pub authenticate : (Str → Verified) → Str → (Actor → Handler) → Handler
authenticate verify header next = for_token verify next (bearer_token header)

-- `requireInternal`
abbrev pub require_internal : Actor → Handler → Handler
require_internal actor next = if actor.internal then next else answer write_forbidden

-- The end of a handler: the error of the use case, or its result.
abbrev pub written : {A : Type 0} → (A → Response) → Result AppError A × World → Response × World
written f (ok a, w) = (f a, w)
written f (err e, w) = (write_use_case_error e, w)

-- What `decodeJSON` returns: a value, an error of an amount, or `errMalformedJSON`.
pub data Decoded (A : Type 0) : Type 0 where
  value : A → Decoded A
  bad_amount : ClassifiedError → Decoded A
  malformed : Decoded A

-- `malformedOrDomain`
abbrev pub for_decoded : {A : Type 0} → (A → Handler) → Decoded A → Handler
for_decoded next (value a) = next a
for_decoded next (bad_amount e) = answer (write_use_case_error (of_domain e))
for_decoded next malformed = answer (write_error 400 (codes "invalid"))
