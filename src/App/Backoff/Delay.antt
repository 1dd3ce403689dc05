-- ===== src/App/Backoff/Delay.antt =====
-- How long `Backoff` of internal/app/envelope.go waits.
use desafio_jungle_go.Prelude.{ℕ, suc, ◌*◌, ◌^◌, ◌≤◌, ◌≡◌, not, ◌||◌, if◌then◌else◌, arith, ap, ◌∙◌}
use desafio_jungle_go.Prelude.Int.{ℤ, pos, pos_part, ◌-ℤ◌, ltb_ℤ, ◌≤ℤ◌, ◌<ℤ◌}
use desafio_jungle_go.Prelude.Int64.{wrap64, IsInt64, wrap64_self}
use native.Mathlib.Nat.{one-le-pow, pow-le-pow_right}
use desafio_jungle_go.Prelude.Time.{Duration}
use desafio_jungle_go.App.Backoff.{second, cap_of, backoff}

-- What `Backoff` does with the doubled second.
abbrev capped : ℤ → ℤ → ℤ → ℤ
capped exp cap d =
    if ltb_ℤ (pos 20) exp then cap else if ltb_ℤ cap d || not (ltb_ℤ (pos 0) d) then cap else d

capped-IsBounded :
    (exp cap d : ℤ) → pos 0 <ℤ cap → (pos 0 <ℤ capped exp cap d) × (capped exp cap d ≤ℤ cap)
capped-IsBounded exp cap d h = ground arith

cap_of_pos : (m : ℤ) → pos 0 <ℤ cap_of m
cap_of_pos m = ground arith

-- Whatever the number of attempts, the delay is positive and at most the cap: the maximum, or a
-- minute where the maximum is not positive.
pub backoff-IsBounded :
    (attempts : ℤ) (max : Duration)
    → (pos 0 <ℤ backoff attempts max) × (backoff attempts max ≤ℤ cap_of max)
unfolding backoff
backoff-IsBounded attempts max = capped-IsBounded _ (cap_of max) _ (cap_of_pos max)

-- The delay doubles from one second up to the cap.
abbrev pub doubled : ℕ → Duration → Duration
doubled n cap = if ltb_ℤ cap (pos (second * 2 ^ n)) then cap else pos (second * 2 ^ n)

exp_eq : (n : ℕ) → (if ltb_ℤ (pos (suc n)) (pos 1) then pos 0 else pos (suc n) -ℤ pos 1) ≡ pos n
unfolding ◌-ℤ◌
exp_eq n = ground arith

-- The shift does not leave an `int64`.
shift_fits : (n : ℕ) → n ≤ 20 → IsInt64 (pos (second * 2 ^ n))
shift_fits n h = omega (arith, pow-le-pow_right {n = 2} (omega arith) {i = n} {j = 20} h)

capped-doubled :
    (n : ℕ) (cap : ℤ) (k : ℕ)
    → n ≤ 20
    → 1 ≤ k
    → capped (pos n) cap (pos k) ≡ (if ltb_ℤ cap (pos k) then cap else pos k)
capped-doubled n cap k h one = ground arith

-- From the first to the 21st attempt the delay is a second, doubled with every attempt after the
-- first, or the cap where that is more.
pub backoff_lem :
    (n : ℕ) (max : Duration) → n ≤ 20 → backoff (pos (suc n)) max ≡ doubled n (cap_of max)
unfolding backoff
backoff_lem n max h =
    ap (λ e. capped e (cap_of max) (wrap64 (pos (second * 2 ^ pos_part e)))) (exp_eq n)
    ∙ ap (capped (pos n) (cap_of max)) (wrap64_self _ (shift_fits n h))
    ∙ capped-doubled n (cap_of max) (second * 2 ^ n) h (omega (arith, one-le-pow n 2 (omega arith)))
