-- ===== src/BoundedQueue/Deadline.antt =====
-- The time at which the timed calls give up.
use common_cc.Prelude.{ℕ, ◌+◌, ◌*◌, ◌≤◌, ◌<◌, ◌≡◌, arith}
use common_cc.BoundedQueue.{deadline}

-- The nanoseconds are below one second, as `sem_timedwait` demands, and no microsecond is lost.
pub deadline_lem :
    (now usec : ℕ)
    → ((deadline now usec).1 < 1000000000)
      × ((deadline now usec).0 * 1000000000 + (deadline now usec).1
          ≡ now * 1000000000 + usec * 1000)
unfolding deadline
deadline_lem now usec = ground arith

-- `time(NULL)` gives whole seconds: at a time that is `nanos` behind the second `now`, the deadline
-- is past already unless more than that was asked for.
deadline_past :
    (now nanos usec : ℕ)
    → usec * 1000 ≤ nanos
    → (deadline now usec).0 * 1000000000 + (deadline now usec).1 ≤ now * 1000000000 + nanos
unfolding deadline
deadline_past now nanos usec h = ground arith
