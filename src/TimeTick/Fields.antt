-- ===== src/TimeTick/Fields.antt =====
-- The fields of a time that `ToString` prints.
use common_cc.Prelude.{ℕ, suc, ◌+◌, ◌*◌, ◌/◌, ◌%◌, ◌<◌, ◌≡◌, arith, refl}
use common_cc.Prelude.Int.{ℤ, pos, negsuc, quot, pos_part, neg_part}
use common_cc.TimeTick.{
  TimeTick, rem, get_days, get_hours, get_minutes, get_seconds, get_milli_seconds,
  get_micro_seconds,
}

quot-pos_part : (a : ℤ) (d : ℕ) → pos_part (quot a (suc d)) ≡ pos_part a / suc d
unfolding quot
quot-pos_part (pos n) d = refl
quot-pos_part (negsuc n) d = ground arith

quot-neg_part : (a : ℤ) (d : ℕ) → neg_part (quot a (suc d)) ≡ neg_part a / suc d
unfolding quot
quot-neg_part (pos n) d = ground arith
quot-neg_part (negsuc n) d = ground arith

rem-pos_part : (a : ℤ) (d : ℕ) → pos_part (rem a (suc d)) ≡ pos_part a % suc d
unfolding rem
rem-pos_part (pos n) d = ground arith
rem-pos_part (negsuc n) d = ground arith

rem-neg_part : (a : ℤ) (d : ℕ) → neg_part (rem a (suc d)) ≡ neg_part a % suc d
unfolding rem
rem-neg_part (pos n) d = ground arith
rem-neg_part (negsuc n) d = ground arith

-- One part of a time, the positive or the negative one, is made of the same part of its fields.
abbrev pub MadeOf : (ℤ → ℕ) → TimeTick → Type 0
MadeOf part t =
    (part (t.m_sec)
      ≡ part (get_days t) * 86400
        + part (get_hours t) * 3600
        + part (get_minutes t) * 60
        + part (get_seconds t))
    × (part (t.m_usec) ≡ part (get_milli_seconds t) * 1000 + part (get_micro_seconds t))
    × (part (get_hours t) < 24)
    × (part (get_minutes t) < 60)
    × (part (get_seconds t) < 60)
    × (part (get_micro_seconds t) < 1000)

by_parts :
    (s u : ℤ) (part : ℤ → ℕ)
    → ((a : ℤ) (d : ℕ) → part (quot a (suc d)) ≡ part a / suc d)
    → ((a : ℤ) (d : ℕ) → part (rem a (suc d)) ≡ part a % suc d)
    → MadeOf part (record { m_sec = s; m_usec = u })
unfolding get_days get_hours get_minutes get_seconds get_milli_seconds get_micro_seconds
by_parts s u part by_quot by_rem =
    let days = by_quot s 86399 in
    let day = by_rem s 86399 in
    let hours = by_quot (rem s 86400) 3599 in
    let hour = by_rem s 3599 in
    let minutes = by_quot (rem s 3600) 59 in
    let seconds = by_rem s 59 in
    let milli = by_quot u 999 in
    let micro = by_rem u 999 in
    (omega arith, omega arith, omega arith, omega arith, omega arith, omega arith)

-- The fields make up the time, and each but the days and the milliseconds is below the next unit,
-- for the positive and the negative part alike.
fields_lem : (t : TimeTick) → MadeOf pos_part t × MadeOf neg_part t
unfolding get_days get_hours get_minutes get_seconds get_milli_seconds get_micro_seconds
fields_lem t = (
  by_parts (t.m_sec) (t.m_usec) pos_part quot-pos_part rem-pos_part,
  by_parts (t.m_sec) (t.m_usec) neg_part quot-neg_part rem-neg_part,
)
