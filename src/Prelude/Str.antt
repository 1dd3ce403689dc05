-- ===== src/Prelude/Str.antt =====
-- Go strings as lists of bytes, and what the program uses of the package `strings`.
use Prim.Native.Char.{code}
use Prim.Native.String.{String}
use desafio_jungle_go.Prelude.{
  ℕ, zero, suc, ◌≡◌, refl, ◌↔◌, Bool, true, false, ◌&&◌, ◌||◌, List, [], ◌∷◌, reverse, arith, leb,
  ◌==◌, if◌then◌else◌,
}

-- A string is its bytes.
abbrev pub Str : Type 0
Str = List ℕ

-- The bytes of an ASCII literal.
abbrev pub codes : String → Str
codes String.[] = []
codes (String.◌∷◌ c s) = code c ∷ codes s

-- `s == t`
unfoldable pub str_eq : Str → Str → Bool
str_eq [] [] = true
str_eq [] (d ∷ t) = false
str_eq (c ∷ s) [] = false
str_eq (c ∷ s) (d ∷ t) = c == d && str_eq s t

pub str_eq_iff : (s t : Str) → (str_eq s t ≡ true) ↔ (s ≡ t)
unfolding str_eq
str_eq_iff [] [] = (λ _. refl, λ _. refl)
str_eq_iff [] (d ∷ t) = (λ h. cc, λ h. cc)
str_eq_iff (c ∷ s) [] = (λ h. cc, λ h. cc)
str_eq_iff (c ∷ s) (d ∷ t) = ground (arith, str_eq_iff s t)

-- `s == ""`
abbrev pub is_empty : Str → Bool
is_empty [] = true
is_empty (c ∷ s) = false

-- ASCII white space, as `unicode.IsSpace` has it.
abbrev pub is_ascii_space : ℕ → Bool
is_ascii_space b = b == 32 || (leb 9 b && leb b 13)

-- The last byte of a three-byte space that begins with 0xE2 0x80.
abbrev is_e2_80_space : ℕ → Bool
is_e2_80_space b = (leb 0x80 b && leb b 0x8a) || b == 0xa8 || b == 0xa9 || b == 0xaf

-- How many bytes the white-space rune takes that the string begins with; 0 if there is none.
unfoldable pub space_width : Str → ℕ
space_width [] = 0
space_width (a ∷ []) = if is_ascii_space a then 1 else 0
space_width (a ∷ b ∷ []) =
    if is_ascii_space a then 1 else if a == 0xc2 && (b == 0x85 || b == 0xa0) then 2 else 0
space_width (a ∷ b ∷ c ∷ s) =
    if is_ascii_space a
    then 1
    else if a == 0xc2 && (b == 0x85 || b == 0xa0)
    then 2
    else if (a == 0xe1 && b == 0x9a && c == 0x80)
        || (a == 0xe2 && b == 0x80 && is_e2_80_space c)
        || (a == 0xe2 && b == 0x81 && c == 0x9f)
        || (a == 0xe3 && b == 0x80 && c == 0x80)
    then 3
    else 0

-- The same at the end of a string that is given reversed.
unfoldable pub space_width_end : Str → ℕ
space_width_end [] = 0
space_width_end (a ∷ []) = if is_ascii_space a then 1 else 0
space_width_end (b ∷ a ∷ []) =
    if is_ascii_space b then 1 else if a == 0xc2 && (b == 0x85 || b == 0xa0) then 2 else 0
space_width_end (c ∷ b ∷ a ∷ s) =
    if is_ascii_space c
    then 1
    else if b == 0xc2 && (c == 0x85 || c == 0xa0)
    then 2
    else if (a == 0xe1 && b == 0x9a && c == 0x80)
        || (a == 0xe2 && b == 0x80 && is_e2_80_space c)
        || (a == 0xe2 && b == 0x81 && c == 0x9f)
        || (a == 0xe3 && b == 0x80 && c == 0x80)
    then 3
    else 0

-- Drops white-space runes from the front; the first argument counts the bytes of a rune that
-- are still to go.
unfoldable pub drop_spaces : (Str → ℕ) → ℕ → Str → Str
drop_spaces width k [] = []
drop_spaces width (suc k) (b ∷ s) = drop_spaces width k s
drop_spaces width zero (b ∷ s) = elim (width (b ∷ s)) [
  | zero ↦ b ∷ s
  | suc k ↦ drop_spaces width k s
]

-- `strings.TrimSpace`
unfoldable pub trim_space : Str → Str
unfolding drop_spaces space_width space_width_end
trim_space s = reverse (drop_spaces space_width_end 0 (reverse (drop_spaces space_width 0 s)))

trim_space_test : trim_space (codes " \t12.50  ") ≡ codes "12.50"
unfolding trim_space
trim_space_test = refl
