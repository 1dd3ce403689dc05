-- ===== src/Domain/Money/Decimal.antt =====
-- What money.go uses of `fmt`, `strconv` and `strings`: decimal digits, and the search for bytes.
use desafio_jungle_go.Prelude.{
  ℕ, zero, suc, ◌+◌, ◌-◌, ◌*◌, ◌/◌, ◌%◌, Bool, true, false, not, ◌&&◌, ◌||◌, [], ◌∷◌, ◌++◌, Option,
  none, some, ap, ◌<◌, arith, inl, inr, Bool-cases, if◌then◌else◌, ltb, leb, ◌==◌, ◌≡◌, refl,
}
use desafio_jungle_go.Prelude.Str.{Str, is_empty, codes}

-- The decimal digits of a number; the first argument bounds the rounds.
unfoldable pub digits : ℕ → ℕ → Str
digits zero n = []
digits (suc f) n =
    let rest = digits f (n / 10) in if ltb n 10 then (n + 48) ∷ [] else rest ++ (n % 10 + 48) ∷ []

-- `%d` of a number that is not negative.
unfoldable pub fmt_d : ℕ → Str
unfolding digits
fmt_d n = digits (suc n) n

-- More rounds than the number change nothing, so that `fmt_d` gives enough.
digits_enough : (f g n : ℕ) → n < f → n < g → digits f n ≡ digits g n
unfolding digits
digits_enough zero g n p q = ground (arith, p)
digits_enough (suc f) zero n p q = ground (arith, q)
digits_enough (suc f) (suc g) n p q = elim (Bool-cases (ltb n 10)) [
  | inl e ↦ rw e refl
  | inr e ↦
      ap (λ r. if ltb n 10 then (n + 48) ∷ [] else r ++ (n % 10 + 48) ∷ [])
        (digits_enough f g (n / 10) (ground (arith, e, p)) (ground (arith, e, q)))
]

-- `%02d` of a number that is not negative.
unfoldable pub fmt_02d : ℕ → Str
unfolding fmt_d
fmt_02d n = if ltb n 10 then b'0' ∷ fmt_d n else fmt_d n

abbrev pub is_digit : ℕ → Bool
is_digit b = leb b'0' b && leb b b'9'

-- `allDigits`: a rune beyond ASCII has no byte that is a digit.
unfoldable pub all_digits : Str → Bool
all_digits [] = true
all_digits (b ∷ s) = is_digit b && all_digits s

unfoldable pub value : ℕ → Str → ℕ
value acc [] = acc
value acc (b ∷ s) = value (acc * 10 + (b - 48)) s

-- `strconv.ParseInt(s, 10, 64)` on a string with no sign.
unfoldable pub parse_int : Str → Option ℕ
unfolding all_digits value
parse_int s =
    if is_empty s || not (all_digits s)
    then none
    else if leb (value 0 s) 9223372036854775807
    then some (value 0 s)
    else none

-- The ASCII letters of `strings.ToLower`.
unfoldable pub to_lower : Str → Str
to_lower [] = []
to_lower (b ∷ s) = (if leb b'A' b && leb b b'Z' then b + 32 else b) ∷ to_lower s

abbrev is_prefix : Str → Str → Bool
is_prefix [] s = true
is_prefix (c ∷ p) [] = false
is_prefix (c ∷ p) (b ∷ s) = b == c && is_prefix p s

-- `strings.Contains(s, p)`
unfoldable pub contains : Str → Str → Bool
contains p [] = is_prefix p []
contains p (b ∷ s) = is_prefix p (b ∷ s) || contains p s

abbrev has_byte : ℕ → Str → Bool
has_byte b [] = false
has_byte b (c ∷ s) = b == c || has_byte b s

-- `strings.ContainsAny(s, chars)` for ASCII characters.
unfoldable pub contains_any : Str → Str → Bool
contains_any chars [] = false
contains_any chars (b ∷ s) = has_byte b chars || contains_any chars s

abbrev cons_fst : ℕ → Option (Str × Str) → Option (Str × Str)
cons_fst b none = none
cons_fst b (some (p, r)) = some (b ∷ p, r)

-- `s[:dot]` and `s[dot+1:]` for `dot = strings.IndexByte(s, '.')`; `none` if there is no dot.
unfoldable pub cut_dot : Str → Option (Str × Str)
cut_dot [] = none
cut_dot (b ∷ s) = if b == b'.' then some ([], s) else cons_fst b (cut_dot s)

fmt_test : fmt_d 1205 ++ fmt_02d 7 ≡ codes "120507"
unfolding fmt_02d
fmt_test = refl
