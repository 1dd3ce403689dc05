-- ===== src/Domain/Money.antt =====
-- internal/domain/money.go: amounts in minor units with a currency.
pub mod Decimal
pub mod Overflow
pub mod Sums
use desafio_jungle_go.Prelude.{
  ℕ, ◌+◌, ◌*◌, ◌/◌, ◌%◌, Bool, true, false, not, ◌&&◌, ◌||◌, List, [], ◌∷◌, ◌++◌, Option, none,
  some, ok, err, ◌>>=◌, ◌>>◌, guard, if◌then◌else◌, ltb, leb, ◌==◌, length, ◌≡◌, refl,
}
use desafio_jungle_go.Prelude.Int.{ℤ, pos, negsuc, pos_part, ltb_ℤ, eqb_ℤ, ◌+ℤ◌, ◌-ℤ◌}
use desafio_jungle_go.Prelude.Int64.{max_int64, min_int64, to_uint64, wrap64, ◌+₆₄◌, ◌-₆₄◌}
use desafio_jungle_go.Prelude.Str.{Str, codes, str_eq, trim_space, is_empty}
use desafio_jungle_go.Domain.Errors.{Res, FailureCode, Sentinel, validation, ClassifiedError}
use Decimal.{fmt_d, fmt_02d, all_digits, parse_int, contains, contains_any, to_lower, cut_dot}

pub record Money : Type 0 where
  pub minor : ℤ
  pub currency : Str
  pub initialized : Bool

-- `addInt64`
unfoldable pub add_int64 : ℤ → ℤ → Res ℤ
add_int64 a b =
    if ltb_ℤ (pos 0) b && ltb_ℤ (max_int64 -₆₄ b) a
    then err (validation FailureCode.overflow Sentinel.overflow)
    else if ltb_ℤ b (pos 0) && ltb_ℤ a (min_int64 -₆₄ b)
    then err (validation FailureCode.overflow Sentinel.overflow)
    else ok (a +₆₄ b)

-- `subInt64`
unfoldable pub sub_int64 : ℤ → ℤ → Res ℤ
sub_int64 a b =
    if ltb_ℤ b (pos 0) && ltb_ℤ (max_int64 +₆₄ b) a
    then err (validation FailureCode.overflow Sentinel.overflow)
    else if ltb_ℤ (pos 0) b && ltb_ℤ a (min_int64 +₆₄ b)
    then err (validation FailureCode.overflow Sentinel.overflow)
    else ok (a -₆₄ b)

-- Every byte is an upper-case letter. A rune beyond ASCII has bytes above 'Z', so a walk over
-- the bytes rejects what Go's walk over the runes does.
unfoldable pub all_upper : Str → Bool
all_upper [] = true
all_upper (b ∷ s) = leb b'A' b && leb b b'Z' && all_upper s

-- `ParseCurrency`
unfoldable pub parse_currency : Str → Res Str
unfolding all_upper
parse_currency raw =
    let code = trim_space raw in
    if length code == 3 && all_upper code
    then ok code
    else err (validation FailureCode.invalid_currency Sentinel.invalid_currency)

invalid_amount : ClassifiedError
invalid_amount = validation FailureCode.invalid_amount Sentinel.invalid_amount

overflow : ClassifiedError
overflow = validation FailureCode.overflow Sentinel.overflow

abbrev or_err : Option ℕ → ClassifiedError → Res ℕ
or_err none e = err e
or_err (some n) e = ok n

abbrev starts_with_byte : ℕ → Str → Bool
starts_with_byte c [] = false
starts_with_byte c (b ∷ s) = b == c

-- The part of `parseExternalAmount` after the split at the dot.
parse_parts : Str → Str → Res ℤ
unfolding invalid_amount overflow
parse_parts ip_str fp_str = do
  guard (length fp_str == 2) invalid_amount
  guard (not (is_empty ip_str || is_empty fp_str)) invalid_amount
  guard (all_digits ip_str && all_digits fp_str) invalid_amount
  guard (not (ltb 1 (length ip_str) && starts_with_byte b'0' ip_str)) invalid_amount
  ip ← or_err (parse_int ip_str) overflow
  fp ← or_err (parse_int fp_str) invalid_amount
  guard (not (ltb 92233720368547758 ip || (ip == 92233720368547758 && ltb 7 fp))) overflow
  ok (wrap64 (pos (ip * 100 + fp)))

-- `parseExternalAmount`. Go lowers runes beyond ASCII too; a string with such a rune fails here
-- at the test for digits, with the same error.
unfoldable pub parse_external_amount : Str → Res ℤ
unfolding parse_parts invalid_amount
parse_external_amount raw =
    let s = trim_space raw in
    do
      guard (not (is_empty s)) invalid_amount
      guard (not (contains (codes "nan") (to_lower s) || contains (codes "inf") (to_lower s)))
          invalid_amount
      guard (not (contains_any (codes "eE+") s)) invalid_amount
      guard (not (starts_with_byte b'-' s)) invalid_amount
      elim (cut_dot s) [
        | none ↦ err invalid_amount
        | some (ip_str, fp_str) ↦ parse_parts ip_str fp_str
      ]

abbrev pub money : ℤ → Str → Money
money minor currency = record { minor = minor; currency = currency; initialized = true }

-- `ParseMoney`
unfoldable pub parse_money : Str → Str → Res Money
parse_money amount currency = do
  cur ← parse_currency currency
  minor ← parse_external_amount amount
  ok (money minor cur)

-- `MoneyFromMinor`
unfoldable pub money_from_minor : ℤ → Str → Res Money
money_from_minor minor currency = do cur ← parse_currency currency; ok (money minor cur)

-- `Zero`
unfoldable pub zero_money : Str → Res Money
unfolding money_from_minor
zero_money currency = money_from_minor (pos 0) currency

-- `Money.AmountString`. After the negation `minor` is not negative, where Go's `/` and `%` are
-- those of the numbers.
unfoldable pub amount_string : Money → Str
amount_string m =
    if not m.initialized
    then []
    else if ltb_ℤ m.minor (pos 0)
    then (if eqb_ℤ m.minor min_int64
        then b'-' ∷ (fmt_d (to_uint64 m.minor / 100) ++ b'.' ∷ fmt_02d (to_uint64 m.minor % 100))
        else let minor = pos_part (pos 0 -₆₄ m.minor) in
          b'-' ∷ (fmt_d (minor / 100) ++ b'.' ∷ fmt_02d (minor % 100)))
    else fmt_d (pos_part m.minor / 100) ++ b'.' ∷ fmt_02d (pos_part m.minor % 100)

abbrev pub is_zero : Money → Bool
is_zero m = m.initialized && eqb_ℤ m.minor (pos 0)

abbrev pub is_positive : Money → Bool
is_positive m = m.initialized && ltb_ℤ (pos 0) m.minor

abbrev pub is_negative : Money → Bool
is_negative m = m.initialized && ltb_ℤ m.minor (pos 0)

-- `Money.RequireInitialized`
abbrev pub require_initialized : Money → Res (Unit {0})
require_initialized m =
    guard m.initialized (validation FailureCode.uninitialized Sentinel.uninitialized_money)

-- `Money.requireCompatible`
abbrev pub require_compatible : Money → Money → Res (Unit {0})
require_compatible m other = do
  require_initialized m
  require_initialized other
  guard (str_eq m.currency other.currency)
      (validation FailureCode.incompatible_currency Sentinel.incompatible_currency)

-- `Money.Add`
unfoldable pub add : Money → Money → Res Money
add m other = do
  require_compatible m other
  sum ← add_int64 m.minor other.minor
  ok (money sum m.currency)

-- `Money.Sub`
unfoldable pub sub : Money → Money → Res Money
sub m other = do
  require_compatible m other
  diff ← sub_int64 m.minor other.minor
  ok (money diff m.currency)

-- `Money.Negate`
unfoldable pub negate : Money → Res Money
negate m = do
  require_initialized m
  guard (not (eqb_ℤ m.minor min_int64)) (validation FailureCode.overflow Sentinel.overflow)
  ok (money (pos 0 -₆₄ m.minor) m.currency)

-- `Money.Cmp`: -1, 0 or 1.
unfoldable pub cmp : Money → Money → Res ℤ
cmp m other = do
  require_compatible m other
  ok (
      if ltb_ℤ m.minor other.minor
      then negsuc 0
      else if ltb_ℤ other.minor m.minor
      then pos 1
      else pos 0)

-- `Money.Equal`
unfoldable pub equal : Money → Money → Res Bool
unfolding cmp
equal m other = do c ← cmp m other; ok (eqb_ℤ c (pos 0))
