-- ===== src/Domain/Money/Overflow.antt =====
-- `addInt64` and `subInt64` of internal/domain/money.go against the integers.
use desafio_jungle_go.Prelude.{◌≡◌, ok, err, if◌then◌else◌, arith}
use desafio_jungle_go.Prelude.Int.{ℤ, pos, negsuc, ◌+ℤ◌, ◌-ℤ◌}
use desafio_jungle_go.Prelude.Int64.{max_int64, min_int64, IsInt64, in_int64, +₆₄_exact, -₆₄_exact}
use desafio_jungle_go.Domain.Errors.{FailureCode, Sentinel, validation}
use desafio_jungle_go.Domain.Money.{add_int64, sub_int64}

-- For two values of `int64`, `addInt64` returns their exact sum if it fits an `int64`, and the
-- overflow error if it does not.
pub add_int64_lem :
    (a b : ℤ)
    → IsInt64 a
    → IsInt64 b
    → add_int64 a b ≡ (
        if in_int64 (a +ℤ b)
        then ok (a +ℤ b)
        else err (validation FailureCode.overflow Sentinel.overflow))
unfolding add_int64 ◌+ℤ◌ ◌-ℤ◌
add_int64_lem a (pos n) ha hb = ground (arith, -₆₄_exact max_int64 (pos n), +₆₄_exact a (pos n))
add_int64_lem a (negsuc n) ha hb =
    ground (arith, -₆₄_exact min_int64 (negsuc n), +₆₄_exact a (negsuc n))

-- For two values of `int64`, `subInt64` returns their exact difference if it fits an `int64`, and
-- the overflow error if it does not.
pub sub_int64_lem :
    (a b : ℤ)
    → IsInt64 a
    → IsInt64 b
    → sub_int64 a b ≡ (
        if in_int64 (a -ℤ b)
        then ok (a -ℤ b)
        else err (validation FailureCode.overflow Sentinel.overflow))
unfolding sub_int64 ◌+ℤ◌ ◌-ℤ◌
sub_int64_lem a (pos n) ha hb = ground (arith, +₆₄_exact min_int64 (pos n), -₆₄_exact a (pos n))
sub_int64_lem a (negsuc n) ha hb =
    ground (arith, +₆₄_exact max_int64 (negsuc n), -₆₄_exact a (negsuc n))
