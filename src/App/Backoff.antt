-- ===== src/App/Backoff.antt =====
-- `Backoff` of internal/app/envelope.go.
pub mod Delay
use desafio_jungle_go.Prelude.{
  ℕ, zero, suc, ◌+◌, ◌-◌, ◌*◌, ◌^◌, ◌≤◌, ◌≡◌, refl, Bool, not, ◌||◌, if◌then◌else◌, ltb, arith, ◌<◌,
}
use desafio_jungle_go.Prelude.Int.{ℤ, pos, negsuc, pos_part, ◌-ℤ◌, ltb_ℤ, ◌≤ℤ◌, ◌<ℤ◌}
use desafio_jungle_go.Prelude.Int64.{wrap64, max_int64}
use desafio_jungle_go.Prelude.Time.{Duration}

abbrev pub second : ℕ
second = 1000000000

-- `max`, or a minute where it is not positive.
abbrev pub cap_of : Duration → Duration
cap_of max = if ltb_ℤ (pos 0) max then max else pos 60000000000

-- `Backoff`; `attempts` is an `int` of 64 bits.
unfoldable pub backoff : ℤ → Duration → Duration
backoff attempts max =
    let cap = cap_of max in
    let exp = (if ltb_ℤ attempts (pos 1) then pos 0 else attempts -ℤ pos 1) in
    if ltb_ℤ (pos 20) exp
    then cap
    else let d = wrap64 (pos (second * 2 ^ pos_part exp)) in
      if ltb_ℤ cap d || not (ltb_ℤ (pos 0) d) then cap else d
