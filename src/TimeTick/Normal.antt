-- ===== src/TimeTick/Normal.antt =====
-- `Normalize`, `operator+` and `operator-` keep the time they stand for, and normalize it, where the
-- numbers fit their types.
use native.Mathlib.Nat.{mod-eq_of_lt}
use common_cc.Prelude.{
  lt→ltb, ℕ, ◌%◌, ◌^◌, ◌<◌, ◌≤◌, ◌+◌, ◌*◌, ◌≡◌, ◌∙◌, ap, inl, inr, refl, true, arith, Bool-cases,
  ltb, ◌&&◌,
}
use common_cc.Prelude.Int.{
  ℤ, pos, negsuc, ◌+ℤ◌, ◌-ℤ◌, quot, ltb_ℤ, pos_part, neg_part, +ℤ_parts, -ℤ_parts,
}
use common_cc.TimeTick.{
  TimeTick, wrap, int, time, rem, neg, borrow, lend, carry_up, carry_down, leb_ℤ, is_normalized,
  normalize_up, normalize_down, normalize, add, sub,
}
use common_cc.TimeTick.Exact.{plus_usec, minus_usec, SameTime, exact_lem}
use common_cc.TimeTick.Exact

-- A number below a bound, and above its opposite.
abbrev pub Within : ℕ → ℤ → Type 0
Within n a = (pos_part a < n) × (neg_part a < n)

wrap_small : (half : ℕ) (a : ℤ) → Within half a → wrap half a ≡ a
unfolding wrap
wrap_small half (pos n) h =
    let same : n % (2 * half) ≡ n = mod-eq_of_lt (omega arith) in
    let small : ltb n half ≡ true = lt→ltb _ _ h.0 in rw (same, small) refl
wrap_small half (negsuc n) h =
    let same : n % (2 * half) ≡ n = mod-eq_of_lt (omega (arith, h.1)) in
    let small : ltb n half ≡ true = lt→ltb _ _ (omega (arith, h.1)) in rw (same, small) refl

Within-+ℤ : (m n : ℕ) (a b : ℤ) → Within m a → Within n b → Within (m + n) (a +ℤ b)
unfolding ◌+ℤ◌
Within-+ℤ m n a b h k = (ground (arith, h, k), ground (arith, h, k))

Within--ℤ : (m n : ℕ) (a b : ℤ) → Within m a → Within n b → Within (m + n) (a -ℤ b)
unfolding ◌-ℤ◌
Within--ℤ m n a b h k = (ground (arith, h, k), ground (arith, h, k))

Within-quot : (n : ℕ) (a : ℤ) → Within n a → Within n (quot a 1000000)
unfolding quot
Within-quot n (pos m) h = (ground (arith, h), ground (arith, h))
Within-quot n (negsuc m) h = (ground (arith, h), ground (arith, h))

Within-rem : (a : ℤ) → Within 1000000 (rem a 1000000)
unfolding rem
Within-rem a = (ground arith, ground arith)

Within-neg : (n : ℕ) (a : ℤ) → Within n a → Within n (neg a)
unfolding neg
Within-neg n a h = (ground (arith, h), ground (arith, h))

Within-le : (m n : ℕ) (a : ℤ) → m ≤ n → Within m a → Within n a
Within-le m n a l h = (omega (arith, h.0, l), omega (arith, h.1, l))

int_small : (n : ℕ) (a : ℤ) → n ≤ 2 ^ 31 → Within n a → int a ≡ a
int_small n a l h = wrap_small (2 ^ 31) a (Within-le n (2 ^ 31) a l h)

time_small : (n : ℕ) (a : ℤ) → n ≤ 2 ^ 63 → Within n a → time a ≡ a
time_small n a l h = wrap_small (2 ^ 63) a (Within-le n (2 ^ 63) a l h)

-- A time that the sums of `Normalize` keep in range.
abbrev pub InRange : TimeTick → Type 0
InRange t = Within (2 ^ 62) t.m_sec × Within (2 ^ 31) t.m_usec

borrow-exact :
    (s u : ℤ) → Within (2 ^ 62 + 2 ^ 31) s → Within 1000000 u → borrow s u ≡ Exact.borrow s u
unfolding borrow Exact.borrow
borrow-exact s u h k = elim (Bool-cases (ltb_ℤ (pos 0) s && ltb_ℤ u (pos 0))) [
  | inl e ↦
      let sec =
        time_small (2 ^ 62 + 2 ^ 31 + 2) (s -ℤ pos 1) (omega arith)
          (Within--ℤ (2 ^ 62 + 2 ^ 31) 2 s (pos 1) h (omega arith, omega arith)) in
      let usec =
        int_small (1000001 + 1000000) (pos 1000000 +ℤ u) (omega arith)
          (Within-+ℤ 1000001 1000000 (pos 1000000) u (omega arith, omega arith) k) in
      rw (e, sec, usec) refl
  | inr e ↦ rw e refl
]

lend-exact : (s u : ℤ) → Within (2 ^ 62 + 2 ^ 31) s → Within 1000000 u → lend s u ≡ Exact.lend s u
unfolding lend Exact.lend
lend-exact s u h k = elim (Bool-cases (ltb_ℤ s (pos 0) && ltb_ℤ (pos 0) u)) [
  | inl e ↦
      let sec =
        time_small (2 ^ 62 + 2 ^ 31 + 2) (s +ℤ pos 1) (omega arith)
          (Within-+ℤ (2 ^ 62 + 2 ^ 31) 2 s (pos 1) h (omega arith, omega arith)) in
      let usec =
        int_small (1000000 + 1000001) (u -ℤ pos 1000000) (omega arith)
          (Within--ℤ 1000000 1000001 u (pos 1000000) k (omega arith, omega arith)) in
      rw (e, sec, usec) refl
  | inr e ↦ rw e refl
]

-- What a carry leaves, in range.
abbrev Carried : TimeTick → TimeTick → Type 0
Carried c exact = (c ≡ exact) × Within (2 ^ 62 + 2 ^ 31) c.m_sec × Within 1000000 c.m_usec

carry_up-exact : (t : TimeTick) → InRange t → Carried (carry_up t) (Exact.carry_up t)
unfolding carry_up Exact.carry_up
carry_up-exact t h =
    let sum =
      Within-+ℤ (2 ^ 62) (2 ^ 31) t.m_sec (quot t.m_usec 1000000) h.0
        (Within-quot (2 ^ 31) t.m_usec h.1) in
    rw (time_small (2 ^ 62 + 2 ^ 31) (t.m_sec +ℤ quot t.m_usec 1000000) (omega arith) sum)
      (refl, sum, Within-rem t.m_usec)

carry_down-exact : (t : TimeTick) → InRange t → Carried (carry_down t) (Exact.carry_down t)
unfolding carry_down Exact.carry_down
carry_down-exact t h =
    let u : ℤ = neg t.m_usec in
    let turned = Within-neg (2 ^ 31) t.m_usec h.1 in
    let left = Within-neg 1000000 (rem u 1000000) (Within-rem u) in
    let diff =
      Within--ℤ (2 ^ 62) (2 ^ 31) t.m_sec (quot u 1000000) h.0 (Within-quot (2 ^ 31) u turned) in
    rw
      (
        int_small (2 ^ 31) u (omega arith) turned,
        int_small 1000000 (neg (rem u 1000000)) (omega arith) left,
        time_small (2 ^ 62 + 2 ^ 31) (t.m_sec -ℤ quot u 1000000) (omega arith) diff,
      )
      (refl, diff, left)

normalize_up-exact : (t : TimeTick) → InRange t → normalize_up t ≡ Exact.normalize_up t
unfolding normalize_up Exact.normalize_up
normalize_up-exact t h = elim (Bool-cases (leb_ℤ (pos 0) (t.m_usec))) [
  | inl e ↦ rw e ((carry_up-exact t h).0)
  | inr e ↦
      let (same, sec, usec) = carry_down-exact t h in
      rw e (
        borrow-exact (carry_down t).m_sec (carry_down t).m_usec sec usec
        ∙ ap (λ (c : TimeTick). Exact.borrow c.m_sec c.m_usec) same)
]

normalize_down-exact : (t : TimeTick) → InRange t → normalize_down t ≡ Exact.normalize_down t
unfolding normalize_down Exact.normalize_down
normalize_down-exact t h = elim (Bool-cases (leb_ℤ (pos 0) (t.m_usec))) [
  | inl e ↦
      let (same, sec, usec) = carry_up-exact t h in
      rw e (
        lend-exact (carry_up t).m_sec (carry_up t).m_usec sec usec
        ∙ ap (λ (c : TimeTick). Exact.lend c.m_sec c.m_usec) same)
  | inr e ↦ rw e ((carry_down-exact t h).0)
]

normalize-exact : (t : TimeTick) → InRange t → normalize t ≡ Exact.normalize t
unfolding normalize Exact.normalize
normalize-exact t h = elim (Bool-cases (is_normalized t)) [
  | inl e ↦ rw e refl
  | inr e ↦ elim (Bool-cases (leb_ℤ (pos 0) (t.m_sec))) [
    | inl f ↦ rw (e, f) (normalize_up-exact t h)
    | inr f ↦ rw (e, f) (normalize_down-exact t h)
  ]
]

-- `Normalize` makes every time normalized whose seconds are within 2 ^ 62 and whose microseconds are
-- an `int` above the least, and it stands for the same time as before.
pub normalize_lem :
    (t : TimeTick) → InRange t → (is_normalized (normalize t) ≡ true) × SameTime (normalize t) t
normalize_lem t h = rw (normalize-exact t h) (exact_lem t)

-- For two times whose seconds are within 2 ^ 61 and whose microseconds are within 2 ^ 30: a sum is
-- normalized, and its microseconds are the sum of those of the two times; so it is with a
-- difference.
pub add-sub_lem :
    (a b : TimeTick)
    → Within (2 ^ 61) a.m_sec
    → Within (2 ^ 61) b.m_sec
    → Within (2 ^ 30) a.m_usec
    → Within (2 ^ 30) b.m_usec
    → (is_normalized (add a b) ≡ true)
      × (plus_usec (add a b) + minus_usec a + minus_usec b
          ≡ minus_usec (add a b) + plus_usec a + plus_usec b)
      × (is_normalized (sub a b) ≡ true)
      × (plus_usec (sub a b) + minus_usec a + plus_usec b
          ≡ minus_usec (sub a b) + plus_usec a + minus_usec b)
unfolding add sub
add-sub_lem a b h k v w =
    let sum : TimeTick = record { m_sec = a.m_sec +ℤ b.m_sec; m_usec = a.m_usec +ℤ b.m_usec } in
    let diff : TimeTick = record { m_sec = a.m_sec -ℤ b.m_sec; m_usec = a.m_usec -ℤ b.m_usec } in
    let sum_sec = Within-+ℤ (2 ^ 61) (2 ^ 61) a.m_sec b.m_sec h k in
    let sum_usec = Within-+ℤ (2 ^ 30) (2 ^ 30) a.m_usec b.m_usec v w in
    let diff_sec = Within--ℤ (2 ^ 61) (2 ^ 61) a.m_sec b.m_sec h k in
    let diff_usec = Within--ℤ (2 ^ 30) (2 ^ 30) a.m_usec b.m_usec v w in
    let (n, e) = normalize_lem sum (sum_sec, sum_usec) in
    let (m, d) = normalize_lem diff (diff_sec, diff_usec) in
    rw
      (
        time_small (2 ^ 62) (a.m_sec +ℤ b.m_sec) (omega arith) sum_sec,
        int_small (2 ^ 31) (a.m_usec +ℤ b.m_usec) (omega arith) sum_usec,
        time_small (2 ^ 62) (a.m_sec -ℤ b.m_sec) (omega arith) diff_sec,
        int_small (2 ^ 31) (a.m_usec -ℤ b.m_usec) (omega arith) diff_usec,
      )
      (n, omega (arith, e, +ℤ_parts), m, omega (arith, d, -ℤ_parts))
