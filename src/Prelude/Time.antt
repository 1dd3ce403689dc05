-- ===== src/Prelude/Time.antt =====
-- Go's `time`: an instant and a duration, in nanoseconds. The location of a `time.Time`, which
-- `UTC()` sets, is not part of the instant.
use desafio_jungle_go.Prelude.{ℕ, ◌+◌, ◌-◌}
use desafio_jungle_go.Prelude.Int.{ℤ, pos_part, neg_part}

-- Nanoseconds since the zero `time.Time`.
abbrev pub Time : Type 0
Time = ℕ

-- `t.UTC()`
abbrev pub utc : Time → Time
utc t = t

-- `time.Duration`
abbrev pub Duration : Type 0
Duration = ℤ

-- `t.Add(d)`; an instant does not go below zero.
abbrev pub add_duration : Time → Duration → Time
add_duration t d = t + pos_part d - neg_part d
