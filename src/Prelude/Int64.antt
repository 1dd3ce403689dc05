-- ===== src/Prelude/Int64.antt =====
-- Go's `int64`: an integer with its wrap-around at 64 bits written out.
use desafio_jungle_go.Prelude.{ℕ, ◌-◌, ◌%◌, ◌≡◌, Bool, not, ◌&&◌, arith, ltb, if◌then◌else◌}
use desafio_jungle_go.Prelude.Int.{ℤ, pos, negsuc, ◌+ℤ◌, ◌-ℤ◌, ◌≤ℤ◌, ltb_ℤ}

abbrev pub max_int64 : ℤ
max_int64 = pos 9223372036854775807

abbrev pub min_int64 : ℤ
min_int64 = negsuc 9223372036854775807

-- The 64 low bits, as `uint64(z)`.
unfoldable pub to_uint64 : ℤ → ℕ
to_uint64 (pos n) = n % 18446744073709551616
to_uint64 (negsuc n) = 18446744073709551615 - n % 18446744073709551616

-- The value that `int64` arithmetic leaves of an integer result.
unfoldable pub wrap64 : ℤ → ℤ
wrap64 z =
    if ltb (to_uint64 z) 9223372036854775808
    then pos (to_uint64 z)
    else negsuc (18446744073709551615 - to_uint64 z)

infixl 65 ◌+₆₄◌ ◌-₆₄◌
unfoldable pub ◌+₆₄◌ : ℤ → ℤ → ℤ
a +₆₄ b = wrap64 (a +ℤ b)

unfoldable pub ◌-₆₄◌ : ℤ → ℤ → ℤ
a -₆₄ b = wrap64 (a -ℤ b)

-- The integers that an `int64` holds.
abbrev pub IsInt64 : ℤ → Type 0
IsInt64 z = (min_int64 ≤ℤ z) × (z ≤ℤ max_int64)

-- Whether an integer fits an `int64`.
abbrev pub in_int64 : ℤ → Bool
in_int64 z = not (ltb_ℤ z min_int64) && not (ltb_ℤ max_int64 z)

pub wrap64_self : (z : ℤ) → IsInt64 z → wrap64 z ≡ z
unfolding wrap64 to_uint64
wrap64_self (pos n) h = ground arith
wrap64_self (negsuc n) h = ground arith

pub wrap64-IsInt64 : (z : ℤ) → IsInt64 (wrap64 z)
unfolding wrap64 to_uint64
wrap64-IsInt64 (pos n) = ground arith
wrap64-IsInt64 (negsuc n) = ground arith

pub +₆₄_exact : (a b : ℤ) → IsInt64 (a +ℤ b) → a +₆₄ b ≡ a +ℤ b
unfolding ◌+₆₄◌
+₆₄_exact a b h = wrap64_self (a +ℤ b) h

pub -₆₄_exact : (a b : ℤ) → IsInt64 (a -ℤ b) → a -₆₄ b ≡ a -ℤ b
unfolding ◌-₆₄◌
-₆₄_exact a b h = wrap64_self (a -ℤ b) h
