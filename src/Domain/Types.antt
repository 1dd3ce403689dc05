-- ===== src/Domain/Types.antt =====
-- internal/domain/types.go: the kinds, statuses, directions and origins. Go has them as strings;
-- here a parsed value is a constructor, and `…_str` is its string.
pub mod Printing
use desafio_jungle_go.Prelude.{Bool, true, false, ◌≡◌, refl, ok, err, if◌then◌else◌}
use desafio_jungle_go.Prelude.Str.{Str, codes, str_eq}
use desafio_jungle_go.Domain.Errors.{Res, FailureCode, Sentinel, validation}
use mathlib.Core.Logic.{ite}

pub data Kind : Type 0 where
  opening bet win loss refund rollback : Kind

unfoldable pub Kind-discrete : Discrete Kind
Kind-discrete = hlevel

abbrev pub kind_eq : Kind → Kind → Bool
kind_eq a b = ite (Kind-discrete a b) true false

unfoldable pub kind_str : Kind → Str
kind_str Kind.opening = codes "OPENING"
kind_str Kind.bet = codes "BET"
kind_str Kind.win = codes "WIN"
kind_str Kind.loss = codes "LOSS"
kind_str Kind.refund = codes "REFUND"
kind_str Kind.rollback = codes "ROLLBACK"

unfoldable pub parse_kind : Str → Res Kind
unfolding kind_str
parse_kind s =
    if str_eq s (kind_str Kind.opening)
    then ok Kind.opening
    else if str_eq s (kind_str Kind.bet)
    then ok Kind.bet
    else if str_eq s (kind_str Kind.win)
    then ok Kind.win
    else if str_eq s (kind_str Kind.loss)
    then ok Kind.loss
    else if str_eq s (kind_str Kind.refund)
    then ok Kind.refund
    else if str_eq s (kind_str Kind.rollback)
    then ok Kind.rollback
    else err (validation FailureCode.invalid_kind Sentinel.invalid_kind)

abbrev pub requires_positive_amount : Kind → Bool
requires_positive_amount Kind.loss = false
requires_positive_amount _ = true

abbrev pub requires_zero_amount : Kind → Bool
requires_zero_amount k = kind_eq k Kind.loss

abbrev pub requires_reference : Kind → Bool
requires_reference Kind.refund = true
requires_reference Kind.rollback = true
requires_reference _ = false

abbrev pub moves_balance : Kind → Bool
moves_balance Kind.loss = false
moves_balance _ = true

abbrev pub is_external : Kind → Bool
is_external Kind.opening = false
is_external _ = true

pub data Status : Type 0 where
  pending pending_reference processed rejected failed : Status

unfoldable pub Status-discrete : Discrete Status
Status-discrete = hlevel

abbrev pub status_eq : Status → Status → Bool
status_eq a b = ite (Status-discrete a b) true false

unfoldable pub status_str : Status → Str
status_str Status.pending = codes "PENDING"
status_str Status.pending_reference = codes "PENDING_REFERENCE"
status_str Status.processed = codes "PROCESSED"
status_str Status.rejected = codes "REJECTED"
status_str Status.failed = codes "FAILED"

unfoldable pub parse_status : Str → Res Status
unfolding status_str
parse_status s =
    if str_eq s (status_str Status.pending)
    then ok Status.pending
    else if str_eq s (status_str Status.pending_reference)
    then ok Status.pending_reference
    else if str_eq s (status_str Status.processed)
    then ok Status.processed
    else if str_eq s (status_str Status.rejected)
    then ok Status.rejected
    else if str_eq s (status_str Status.failed)
    then ok Status.failed
    else err (validation FailureCode.invalid_status Sentinel.invalid_status)

-- `Status.Terminal`
abbrev pub terminal : Status → Bool
terminal Status.processed = true
terminal Status.rejected = true
terminal Status.failed = true
terminal _ = false

pub data Direction : Type 0 where
  debit credit : Direction

unfoldable pub direction_str : Direction → Str
direction_str Direction.debit = codes "DEBIT"
direction_str Direction.credit = codes "CREDIT"

unfoldable pub parse_direction : Str → Res Direction
unfolding direction_str
parse_direction s =
    if str_eq s (direction_str Direction.debit)
    then ok Direction.debit
    else if str_eq s (direction_str Direction.credit)
    then ok Direction.credit
    else err (validation FailureCode.invalid_direction Sentinel.invalid_direction)

pub data Origin : Type 0 where
  internal external : Origin

unfoldable pub origin_str : Origin → Str
origin_str Origin.internal = codes "INTERNAL"
origin_str Origin.external = codes "EXTERNAL"

unfoldable pub parse_origin : Str → Res Origin
unfolding origin_str
parse_origin s =
    if str_eq s (origin_str Origin.internal)
    then ok Origin.internal
    else if str_eq s (origin_str Origin.external)
    then ok Origin.external
    else err (validation FailureCode.invalid_origin Sentinel.invalid_origin)

-- Parsing undoes printing.
pub parse_direction-str : (d : Direction) → parse_direction (direction_str d) ≡ ok d
unfolding parse_direction str_eq
parse_direction-str Direction.debit = refl
parse_direction-str Direction.credit = refl
