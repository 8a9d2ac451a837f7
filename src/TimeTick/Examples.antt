-- ===== src/TimeTick/Examples.antt =====
-- Runs of the operations on times, and their theorems at concrete times.
use common_cc.Prelude.{arith, ◌≡◌, refl, true, ◌+◌, ◌<◌, ◌≤◌, ◌↔◌}
use common_cc.Prelude.Int.{pos, negsuc, ◌+ℤ◌, ◌-ℤ◌, quot}
use common_cc.TimeTick.{
  wrap, TimeTick, normalize, normalize_up, carry_down, borrow, neg, rem, is_normalized, add, sub,
  lt, le, gt, ge, eq,
}
use common_cc.TimeTick.Exact.{plus_usec, minus_usec, SameTime}
use common_cc.TimeTick.Normal.{normalize_lem, add-sub_lem}
use common_cc.TimeTick.Order.{order_lem}

abbrev early : TimeTick
early = record { m_sec = pos 5; m_usec = negsuc 2499999 }

abbrev whole : TimeTick
whole = record { m_sec = pos 90061; m_usec = pos 2003 }

abbrev late : TimeTick
late = record { m_sec = pos 90061; m_usec = pos 2004 }

normalize-early : normalize early ≡ record { m_sec = pos 2; m_usec = pos 500000 }
unfolding wrap normalize is_normalized normalize_up carry_down borrow neg rem quot ◌+ℤ◌ ◌-ℤ◌
normalize-early = refl

normalize_lem_example : (is_normalized (normalize early) ≡ true) × SameTime (normalize early) early
normalize_lem_example = normalize_lem early ((omega arith, omega arith), (omega arith, omega arith))

add-sub_lem_example :
    (is_normalized (add early whole) ≡ true)
    × (plus_usec (add early whole) + minus_usec early + minus_usec whole
        ≡ minus_usec (add early whole) + plus_usec early + plus_usec whole)
    × (is_normalized (sub early whole) ≡ true)
    × (plus_usec (sub early whole) + minus_usec early + plus_usec whole
        ≡ minus_usec (sub early whole) + plus_usec early + minus_usec whole)
add-sub_lem_example =
    add-sub_lem early whole (omega arith, omega arith) (omega arith, omega arith)
      (omega arith, omega arith) (omega arith, omega arith)

is_normalized-whole : is_normalized whole ≡ true
unfolding is_normalized neg
is_normalized-whole = refl

is_normalized-late : is_normalized late ≡ true
unfolding is_normalized neg
is_normalized-late = refl

order_lem_example :
    ((lt whole late ≡ true)
      ↔ (plus_usec whole + minus_usec late < plus_usec late + minus_usec whole))
    × ((le whole late ≡ true)
        ↔ (plus_usec whole + minus_usec late ≤ plus_usec late + minus_usec whole))
    × ((eq whole late ≡ true)
        ↔ (plus_usec whole + minus_usec late ≡ plus_usec late + minus_usec whole))
    × (gt late whole ≡ lt whole late)
    × (ge late whole ≡ le whole late)
order_lem_example = order_lem whole late is_normalized-whole is_normalized-late
