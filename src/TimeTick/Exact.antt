-- ===== src/TimeTick/Exact.antt =====
-- `Normalize` on integers with no bound: it keeps the time that it is given, and normalizes it.
use common_cc.Prelude.{
  ℕ, suc, ◌%◌, ◌<◌, ◌+◌, ◌*◌, ◌/◌, if◌then◌else◌, ◌&&◌, ◌≡◌, inl, inr, refl, true, false, arith,
  Bool-cases,
}
use common_cc.Prelude.Int.{
  ℤ, pos, negsuc, ◌+ℤ◌, ◌-ℤ◌, quot, ltb_ℤ, pos_part, neg_part, +ℤ_parts, -ℤ_parts,
}
use common_cc.TimeTick.{TimeTick, microseconds_per_second, rem, neg, leb_ℤ, is_normalized}

-- `Normalize`: one second less makes up for microseconds below 0.
unfoldable pub borrow : ℤ → ℤ → TimeTick
borrow sec usec =
    if ltb_ℤ (pos 0) sec && ltb_ℤ usec (pos 0)
    then record { m_sec = sec -ℤ pos 1; m_usec = pos microseconds_per_second +ℤ usec }
    else record { m_sec = sec; m_usec = usec }

-- `Normalize`: one second more makes up for microseconds above 0.
unfoldable pub lend : ℤ → ℤ → TimeTick
lend sec usec =
    if ltb_ℤ sec (pos 0) && ltb_ℤ (pos 0) usec
    then record { m_sec = sec +ℤ pos 1; m_usec = usec -ℤ pos microseconds_per_second }
    else record { m_sec = sec; m_usec = usec }

-- The two lines that carry whole seconds over, for microseconds that are negative or not.
unfoldable pub carry_down : TimeTick → TimeTick
carry_down t = record {
  m_sec = t.m_sec -ℤ quot (neg (t.m_usec)) microseconds_per_second;
  m_usec = neg (rem (neg (t.m_usec)) microseconds_per_second);
}

unfoldable pub carry_up : TimeTick → TimeTick
carry_up t = record {
  m_sec = t.m_sec +ℤ quot (t.m_usec) microseconds_per_second;
  m_usec = rem (t.m_usec) microseconds_per_second;
}

-- `Normalize` where the seconds are not negative.
unfoldable pub normalize_up : TimeTick → TimeTick
normalize_up t =
    if leb_ℤ (pos 0) (t.m_usec)
    then carry_up t
    else (let c = carry_down t in borrow (c.m_sec) (c.m_usec))

-- `Normalize` where they are.
unfoldable pub normalize_down : TimeTick → TimeTick
normalize_down t =
    if leb_ℤ (pos 0) (t.m_usec)
    then (let c = carry_up t in lend (c.m_sec) (c.m_usec))
    else carry_down t

-- `Normalize`.
unfoldable pub normalize : TimeTick → TimeTick
normalize t =
    if is_normalized t
    then t
    else if leb_ℤ (pos 0) (t.m_sec)
    then normalize_up t
    else normalize_down t

-- The microseconds that a time stands for, as a difference of two numbers.
abbrev pub plus_usec : TimeTick → ℕ
plus_usec t = pos_part (t.m_sec) * 1000000 + pos_part (t.m_usec)

abbrev pub minus_usec : TimeTick → ℕ
minus_usec t = neg_part (t.m_sec) * 1000000 + neg_part (t.m_usec)

-- Two times stand for the same number of microseconds.
abbrev pub SameTime : TimeTick → TimeTick → Type 0
SameTime a b = plus_usec a + minus_usec b ≡ plus_usec b + minus_usec a

quot-parts :
    (u : ℤ)
    → pos_part (quot u 1000000) * 1000000 + pos_part (rem u 1000000) + neg_part u
      ≡ neg_part (quot u 1000000) * 1000000 + neg_part (rem u 1000000) + pos_part u
unfolding quot rem
quot-parts (pos m) = ground arith
quot-parts (negsuc m) = ground arith

neg_pos : (a : ℤ) → pos_part (neg a) ≡ neg_part a
unfolding neg
neg_pos a = ground arith

neg-neg : (a : ℤ) → neg_part (neg a) ≡ pos_part a
unfolding neg
neg-neg a = ground arith

carry_up-SameTime : (t : TimeTick) → SameTime (carry_up t) t
unfolding carry_up
carry_up-SameTime t = omega (arith, +ℤ_parts, quot-parts (t.m_usec))

carry_down-SameTime : (t : TimeTick) → SameTime (carry_down t) t
unfolding carry_down
carry_down-SameTime t = omega (arith, -ℤ_parts, neg_pos, neg-neg, quot-parts (neg (t.m_usec)))

borrow-SameTime : (s u : ℤ) → SameTime (borrow s u) (record { m_sec = s; m_usec = u })
unfolding borrow
borrow-SameTime s u = ground (arith, -ℤ_parts s (pos 1), +ℤ_parts (pos 1000000) u)

lend-SameTime : (s u : ℤ) → SameTime (lend s u) (record { m_sec = s; m_usec = u })
unfolding lend
lend-SameTime s u = ground (arith, +ℤ_parts s (pos 1), -ℤ_parts u (pos 1000000))

SameTime-trans : (a b c : TimeTick) → SameTime a b → SameTime b c → SameTime a c
SameTime-trans a b c h k = omega arith

normalize_up-SameTime : (t : TimeTick) → SameTime (normalize_up t) t
unfolding normalize_up
normalize_up-SameTime t = elim (Bool-cases (leb_ℤ (pos 0) (t.m_usec))) [
  | inl e ↦ rw e (carry_up-SameTime t)
  | inr e ↦ rw e (
      SameTime-trans (borrow ((carry_down t).m_sec) ((carry_down t).m_usec)) (carry_down t) t
        (borrow-SameTime ((carry_down t).m_sec) ((carry_down t).m_usec)) (carry_down-SameTime t))
]

normalize_down-SameTime : (t : TimeTick) → SameTime (normalize_down t) t
unfolding normalize_down
normalize_down-SameTime t = elim (Bool-cases (leb_ℤ (pos 0) (t.m_usec))) [
  | inl e ↦ rw e (
      SameTime-trans (lend ((carry_up t).m_sec) ((carry_up t).m_usec)) (carry_up t) t
        (lend-SameTime ((carry_up t).m_sec) ((carry_up t).m_usec)) (carry_up-SameTime t))
  | inr e ↦ rw e (carry_down-SameTime t)
]

borrow-normalized : (s : ℤ) (r : ℕ) → r < 1000000 → is_normalized (borrow s (neg (pos r))) ≡ true
unfolding borrow is_normalized neg ◌+ℤ◌ ◌-ℤ◌
borrow-normalized s r h = ground arith

lend-normalized : (s : ℤ) (r : ℕ) → r < 1000000 → is_normalized (lend s (pos r)) ≡ true
unfolding lend is_normalized neg ◌+ℤ◌ ◌-ℤ◌
lend-normalized s r h = ground arith

rem-pos : (m : ℕ) → rem (pos m) 1000000 ≡ pos (m % 1000000)
unfolding rem
rem-pos m = ground arith

neg-negsuc : (m : ℕ) → neg (negsuc m) ≡ pos (suc m)
unfolding neg
neg-negsuc m = ground arith

leb_ℤ-pos : (m : ℕ) → leb_ℤ (pos 0) (pos m) ≡ true
leb_ℤ-pos m = ground arith

leb_ℤ-negsuc : (m : ℕ) → leb_ℤ (pos 0) (negsuc m) ≡ false
leb_ℤ-negsuc m = ground arith

up_normalized :
    (n q r : ℕ)
    → r < 1000000
    → is_normalized (record { m_sec = pos n +ℤ pos q; m_usec = pos r }) ≡ true
unfolding is_normalized neg ◌+ℤ◌
up_normalized n q r h = ground arith

down_normalized :
    (n q r : ℕ)
    → r < 1000000
    → is_normalized (record { m_sec = negsuc n -ℤ pos q; m_usec = neg (pos r) }) ≡ true
unfolding is_normalized neg ◌-ℤ◌
down_normalized n q r h = ground arith

normalize_up-normalized :
    (n : ℕ) (u : ℤ) → is_normalized (normalize_up (record { m_sec = pos n; m_usec = u })) ≡ true
unfolding normalize_up carry_up carry_down
normalize_up-normalized n (pos m) =
    rw (leb_ℤ-pos m, rem-pos m)
      (unfold quot in up_normalized n (m / 1000000) (m % 1000000) (omega arith))
normalize_up-normalized n (negsuc m) =
    rw (leb_ℤ-negsuc m, neg-negsuc m, rem-pos (suc m))
      (borrow-normalized (pos n -ℤ quot (pos (suc m)) 1000000) (suc m % 1000000) (omega arith))

normalize_down-normalized :
    (n : ℕ) (u : ℤ)
    → is_normalized (normalize_down (record { m_sec = negsuc n; m_usec = u })) ≡ true
unfolding normalize_down carry_up carry_down
normalize_down-normalized n (pos m) =
    rw (leb_ℤ-pos m, rem-pos m)
      (lend-normalized (negsuc n +ℤ quot (pos m) 1000000) (m % 1000000) (omega arith))
normalize_down-normalized n (negsuc m) =
    rw (leb_ℤ-negsuc m, neg-negsuc m, rem-pos (suc m))
      (unfold quot in down_normalized n (suc m / 1000000) (suc m % 1000000) (omega arith))

by_sign :
    (s u : ℤ)
    → let v : TimeTick = record { m_sec = s; m_usec = u } in
      let r : TimeTick = if leb_ℤ (pos 0) s then normalize_up v else normalize_down v in
      (is_normalized r ≡ true) × SameTime r v
by_sign (pos n) u =
    rw (leb_ℤ-pos n)
      (normalize_up-normalized n u, normalize_up-SameTime (record { m_sec = pos n; m_usec = u }))
by_sign (negsuc n) u =
    let negative : leb_ℤ (pos 0) (negsuc n) ≡ false = leb_ℤ-negsuc n in
    rw negative (
      normalize_down-normalized n u,
      normalize_down-SameTime (record { m_sec = negsuc n; m_usec = u }),
    )

-- It makes every time normalized, and it stands for the same time as before.
pub exact_lem : (t : TimeTick) → (is_normalized (normalize t) ≡ true) × SameTime (normalize t) t
unfolding normalize
exact_lem t = elim (Bool-cases (is_normalized t)) [
  | inl e ↦ rw e (e, refl)
  | inr e ↦ rw e (by_sign (t.m_sec) (t.m_usec))
]
