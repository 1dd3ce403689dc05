-- ===== src/Domain/Errors.antt =====
-- internal/domain/errors.go: failure classes and codes, the sentinel errors, and the classified
-- error that pairs them. The text that `fmt.Errorf` adds to a sentinel is left out.
use desafio_jungle_go.Prelude.{Bool, true, false, Result}
use mathlib.Core.Logic.{ite}

pub data FailureClass : Type 0 where
  validation_class rejection_class wait_class transient_class permanent_class : FailureClass

-- `empty` is the code "".
pub data FailureCode : Type 0 where
  empty invalid_amount invalid_currency incompatible_currency uninitialized overflow : FailureCode
  insufficient_funds insufficient_funds_reversal positive_amount_required : FailureCode
  zero_amount_required opening_not_allowed missing_reference reference_mismatch : FailureCode
  reference_kind_invalid reference_unsuccessful reference_not_found : FailureCode
  duplicate_reversal invalid_transition invalid_kind invalid_status invalid_direction : FailureCode
  invalid_origin ledger_invariant idempotency_payload_conflict : FailureCode
  duplicate_external_transaction missing_identity json_amount_not_string : FailureCode

unfoldable pub FailureCode-discrete : Discrete FailureCode
FailureCode-discrete = hlevel

-- `c == d`
abbrev pub code_eq : FailureCode → FailureCode → Bool
code_eq c d = ite (FailureCode-discrete c d) true false

-- `FailureCode.IsCorrectable`
pub is_correctable : FailureCode → Bool
is_correctable FailureCode.invalid_amount = true
is_correctable FailureCode.invalid_currency = true
is_correctable FailureCode.incompatible_currency = true
is_correctable FailureCode.uninitialized = true
is_correctable FailureCode.positive_amount_required = true
is_correctable FailureCode.zero_amount_required = true
is_correctable FailureCode.opening_not_allowed = true
is_correctable FailureCode.missing_reference = true
is_correctable FailureCode.invalid_kind = true
is_correctable FailureCode.invalid_status = true
is_correctable FailureCode.invalid_direction = true
is_correctable FailureCode.invalid_origin = true
is_correctable FailureCode.json_amount_not_string = true
is_correctable FailureCode.missing_identity = true
is_correctable _ = false

-- The `Err…` variables.
pub data Sentinel : Type 0 where
  uninitialized_money invalid_amount invalid_currency incompatible_currency overflow : Sentinel
  insufficient_funds insufficient_funds_reversal positive_amount_required : Sentinel
  zero_amount_required opening_not_allowed missing_reference reference_mismatch : Sentinel
  reference_kind_invalid reference_unsuccessful reference_not_found reference_pending : Sentinel
  duplicate_reversal invalid_transition terminal_state invalid_kind invalid_status : Sentinel
  invalid_direction invalid_origin ledger_invariant idempotency_payload_conflict : Sentinel
  duplicate_external_transaction missing_identity json_amount_not_string : Sentinel
  -- Errors of internal/app/read.go that are made where they are returned.
  invalid_cursor invalid_limit : Sentinel

pub record ClassifiedError : Type 0 where
  pub code : FailureCode
  pub class : FailureClass
  pub error : Sentinel

-- The `(T, error)` results of the domain.
abbrev pub Res {ℓ} : Type ℓ → Type ℓ
Res A = Result ClassifiedError A

abbrev pub classified : FailureCode → FailureClass → Sentinel → ClassifiedError
classified code class error = record { code = code; class = class; error = error }

abbrev pub validation : FailureCode → Sentinel → ClassifiedError
validation code error = classified code FailureClass.validation_class error

abbrev pub rejection : FailureCode → Sentinel → ClassifiedError
rejection code error = classified code FailureClass.rejection_class error

-- `isCoded` of apply.go, on an error that is classified.
abbrev pub is_coded : ClassifiedError → FailureCode → Bool
is_coded e code = code_eq e.code code
