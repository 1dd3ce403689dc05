-- ===== src/Domain/Money/Sums.antt =====
-- `Money.Add`, `Money.Sub` and `Money.Equal` of internal/domain/money.go on well-formed amounts.
use desafio_jungle_go.Prelude.{◌≡◌, ok, err, if◌then◌else◌, arith, true}
use desafio_jungle_go.Prelude.Int.{◌+ℤ◌, ◌-ℤ◌, eqb_ℤ}
use desafio_jungle_go.Prelude.Int64.{IsInt64, in_int64}
use desafio_jungle_go.Prelude.Str.{str_eq_iff}
use desafio_jungle_go.Domain.Errors.{FailureCode, Sentinel, validation}
use desafio_jungle_go.Domain.Money.{Money, money, add, sub, equal}
use desafio_jungle_go.Domain.Money.Overflow.{add_int64_lem, sub_int64_lem}

-- An amount that a constructor has validated: initialized, and its units fit an `int64`.
pub record IsMoney (m : Money) : Type 0 where
  pub is_initialized : m.initialized ≡ true
  pub fits : IsInt64 m.minor

-- Two well-formed amounts of one currency add up exactly, or overflow.
pub add_lem :
    (m n : Money)
    → IsMoney m
    → IsMoney n
    → m.currency ≡ n.currency
    → add m n ≡ (
        if in_int64 (m.minor +ℤ n.minor)
        then ok (money (m.minor +ℤ n.minor) m.currency)
        else err (validation FailureCode.overflow Sentinel.overflow))
unfolding add
add_lem m n hm hn c =
    ground (arith, str_eq_iff m.currency n.currency, add_int64_lem m.minor n.minor)

-- Two well-formed amounts of one currency subtract exactly, or overflow.
pub sub_lem :
    (m n : Money)
    → IsMoney m
    → IsMoney n
    → m.currency ≡ n.currency
    → sub m n ≡ (
        if in_int64 (m.minor -ℤ n.minor)
        then ok (money (m.minor -ℤ n.minor) m.currency)
        else err (validation FailureCode.overflow Sentinel.overflow))
unfolding sub
sub_lem m n hm hn c =
    ground (arith, str_eq_iff m.currency n.currency, sub_int64_lem m.minor n.minor)

-- Amounts of one currency are equal if their units are.
pub equal_lem :
    (m n : Money)
    → IsMoney m
    → IsMoney n
    → m.currency ≡ n.currency
    → equal m n ≡ ok (eqb_ℤ m.minor n.minor)
unfolding equal
equal_lem m n hm hn c = ground (arith, str_eq_iff m.currency n.currency)
