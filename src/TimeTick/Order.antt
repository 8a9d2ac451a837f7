-- ===== src/TimeTick/Order.antt =====
-- The comparisons of normalized times.
use common_cc.Prelude.{◌≡◌, true, false, arith, ◌↔◌, ◌⊎◌, ◌<◌, ◌≤◌, ◌+◌, ap}
use common_cc.Prelude.Int.{pos_part, neg_part}
use common_cc.TimeTick.{TimeTick, is_normalized, neg, lt, gt, le, ge, eq, ne}
use common_cc.TimeTick.Exact.{plus_usec, minus_usec}

-- The microseconds of a normalized time are fewer than a second, and have the sign of the seconds.
record Bounded (t : TimeTick) : Type 0 where
  up_in : pos_part (t.m_usec) < 1000000
  down_in : neg_part (t.m_usec) < 1000000
  one_sign :
      (neg_part (t.m_sec) ≡ 0) × (neg_part (t.m_usec) ≡ 0)
      ⊎ (pos_part (t.m_sec) ≡ 0) × (pos_part (t.m_usec) ≡ 0)

normalized-Bounded : (t : TimeTick) → is_normalized t ≡ true → Bounded t
unfolding is_normalized neg
normalized-Bounded t h = record {
  up_in = ground arith;
  down_in = ground arith;
  one_sign = ground arith;
}

module _ (a b : TimeTick) (h : is_normalized a ≡ true) (k : is_normalized b ≡ true) where
  lt_iff : (lt a b ≡ true) ↔ (plus_usec a + minus_usec b < plus_usec b + minus_usec a)
  unfolding lt
  lt_iff =
      let record { up_in = p; down_in = q; one_sign = r } = normalized-Bounded a h in
      let record { up_in = s; down_in = t; one_sign = u } = normalized-Bounded b k in
      ((λ e. ground arith), (λ e. ground arith))

  le_iff : (le a b ≡ true) ↔ (plus_usec a + minus_usec b ≤ plus_usec b + minus_usec a)
  unfolding le
  le_iff =
      let record { up_in = p; down_in = q; one_sign = r } = normalized-Bounded a h in
      let record { up_in = s; down_in = t; one_sign = u } = normalized-Bounded b k in
      ((λ e. ground arith), (λ e. ground arith))

  eq_iff : (eq a b ≡ true) ↔ (plus_usec a + minus_usec b ≡ plus_usec b + minus_usec a)
  unfolding eq
  eq_iff =
      let record { up_in = p; down_in = q; one_sign = r } = normalized-Bounded a h in
      let record { up_in = s; down_in = t; one_sign = u } = normalized-Bounded b k in
      ((λ e. ground arith), (λ e. ground arith))

-- Each comparison of two normalized times, but `operator!=`, is the comparison of the numbers of
-- microseconds that they stand for; `operator>` and `operator>=` are the other two turned round.
pub order_lem :
    (a b : TimeTick)
    → is_normalized a ≡ true
    → is_normalized b ≡ true
    → ((lt a b ≡ true) ↔ (plus_usec a + minus_usec b < plus_usec b + minus_usec a))
      × ((le a b ≡ true) ↔ (plus_usec a + minus_usec b ≤ plus_usec b + minus_usec a))
      × ((eq a b ≡ true) ↔ (plus_usec a + minus_usec b ≡ plus_usec b + minus_usec a))
      × (gt b a ≡ lt a b)
      × (ge b a ≡ le a b)
unfolding gt ge lt le
order_lem a b h k = (lt_iff a b h k, le_iff a b h k, eq_iff a b h k, ground arith, ground arith)

-- `operator!=` denies that two different times differ where their seconds are the same: then
-- neither `operator==` nor `operator!=` holds.
ne_same_second :
    (a b : TimeTick)
    → a.m_sec ≡ b.m_sec
    → plus_usec a + minus_usec b < plus_usec b + minus_usec a
    → (eq a b ≡ false) × (ne a b ≡ false)
unfolding eq ne
ne_same_second a b e h =
    let p : pos_part (a.m_sec) ≡ pos_part (b.m_sec) = ap pos_part e in
    let n : neg_part (a.m_sec) ≡ neg_part (b.m_sec) = ap neg_part e in (ground arith, ground arith)
