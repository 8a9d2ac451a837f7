-- ===== src/Session/Clock.antt =====
-- The test of `CheckExpire` against the time that has really passed.
use common_cc.Prelude.{ℕ, ◌+◌, ◌*◌, ◌≤◌, ◌<◌, ◌≡◌, true, arith}
use common_cc.Session.{Timeval, Session, time_diff_ms, is_expired}

-- A time in microseconds.
abbrev pub micros : Timeval → ℕ
micros t = t.tv_sec * 1000000 + t.tv_usec

abbrev pub IsTime : Timeval → Type 0
IsTime t = t.tv_usec < 1000000

-- No session is over before its time: more than `gap` milliseconds have passed.
is_expired_late :
    (now : Timeval) (s : Session)
    → IsTime now
    → IsTime s.last_time
    → is_expired now s ≡ true
    → micros s.last_time + s.gap * 1000 < micros now
unfolding is_expired time_diff_ms
is_expired_late now s hn hl e = ground arith

-- A session is over as soon as one millisecond more than `gap` has passed.
is_expired_soon :
    (now : Timeval) (s : Session)
    → IsTime now
    → IsTime s.last_time
    → micros s.last_time + (s.gap + 1) * 1000 ≤ micros now
    → is_expired now s ≡ true
unfolding is_expired time_diff_ms
is_expired_soon now s hn hl e = ground arith
