-- ===== src/TimeTick.antt =====
-- `TimeTick` of utils/datetime.h and utils/datetime.cpp: a span or a point of time in seconds, a
-- `time_t` of 64 bits, and microseconds, an `int`. A sum or a difference outside of its type wraps
-- around.
use common_cc.Prelude.{ℕ, ◌%◌, ◌+◌, ◌*◌, ◌-◌, ◌^◌, Bool, ◌&&◌, ◌||◌, not, ◌==◌, if◌then◌else◌}
use common_cc.Prelude.Int.{ℤ, pos, negsuc, ◌+ℤ◌, ◌-ℤ◌, quot, ltb_ℤ, pos_part, neg_part, sub_ℕ}
use common_cc.Prelude.{ltb}
pub mod Exact
pub mod Normal
pub mod Order
pub mod Fields
mod Examples

pub record TimeTick : Type 0 where
  pub m_sec : ℤ
  pub m_usec : ℤ

abbrev pub microseconds_per_second : ℕ
microseconds_per_second = 1000000

-- The remainder of C: it has the sign of the dividend.
unfoldable pub rem : ℤ → ℕ → ℤ
rem a d = sub_ℕ (pos_part a % d) (neg_part a % d)

unfoldable pub neg : ℤ → ℤ
neg a = sub_ℕ (neg_part a) (pos_part a)

abbrev pub eq_ℤ : ℤ → ℤ → Bool
eq_ℤ a b = pos_part a + neg_part b == pos_part b + neg_part a

abbrev pub leb_ℤ : ℤ → ℤ → Bool
leb_ℤ a b = not (ltb_ℤ b a)

-- `IsNormalized`.
unfoldable pub is_normalized : TimeTick → Bool
is_normalized t =
    leb_ℤ (pos 0) (t.m_sec)
      && leb_ℤ (pos 0) (t.m_usec)
      && ltb_ℤ (t.m_usec) (pos microseconds_per_second)
    || leb_ℤ (t.m_sec) (pos 0)
      && leb_ℤ (t.m_usec) (pos 0)
      && ltb_ℤ (neg (pos microseconds_per_second)) (t.m_usec)

-- A number in a signed type of which `half` is the least number behind it.
unfoldable pub wrap : ℕ → ℤ → ℤ
wrap half (pos n) =
    let r = n % (2 * half) in if ltb r half then pos r else negsuc (2 * half - r - 1)
wrap half (negsuc n) =
    let r = n % (2 * half) in if ltb r half then negsuc r else pos (2 * half - r - 1)

abbrev pub int : ℤ → ℤ
int a = wrap (2 ^ 31) a

abbrev pub time : ℤ → ℤ
time a = wrap (2 ^ 63) a

-- `Normalize`: one second less makes up for microseconds below 0.
unfoldable pub borrow : ℤ → ℤ → TimeTick
borrow sec usec =
    if ltb_ℤ (pos 0) sec && ltb_ℤ usec (pos 0)
    then record { m_sec = time (sec -ℤ pos 1); m_usec = int (pos microseconds_per_second +ℤ usec) }
    else record { m_sec = sec; m_usec = usec }

-- `Normalize`: one second more makes up for microseconds above 0.
unfoldable pub lend : ℤ → ℤ → TimeTick
lend sec usec =
    if ltb_ℤ sec (pos 0) && ltb_ℤ (pos 0) usec
    then record { m_sec = time (sec +ℤ pos 1); m_usec = int (usec -ℤ pos microseconds_per_second) }
    else record { m_sec = sec; m_usec = usec }

-- The two lines that carry whole seconds over, for microseconds that are negative or not.
unfoldable pub carry_down : TimeTick → TimeTick
carry_down t = record {
  m_sec = time (t.m_sec -ℤ quot (int (neg (t.m_usec))) microseconds_per_second);
  m_usec = int (neg (rem (int (neg (t.m_usec))) microseconds_per_second));
}

unfoldable pub carry_up : TimeTick → TimeTick
carry_up t = record {
  m_sec = time (t.m_sec +ℤ quot (t.m_usec) microseconds_per_second);
  m_usec = rem (t.m_usec) microseconds_per_second;
}

-- `Normalize` where the seconds are not negative.
unfoldable pub normalize_up : TimeTick → TimeTick
normalize_up t =
    if leb_ℤ (pos 0) (t.m_usec)
    then carry_up t
    else (let c = carry_down t in borrow (c.m_sec) (c.m_usec))

-- `Normalize` where they are.
unfoldable pub normalize_down : TimeTick → TimeTick
normalize_down t =
    if leb_ℤ (pos 0) (t.m_usec)
    then (let c = carry_up t in lend (c.m_sec) (c.m_usec))
    else carry_down t

-- `Normalize`.
unfoldable pub normalize : TimeTick → TimeTick
normalize t =
    if is_normalized t
    then t
    else if leb_ℤ (pos 0) (t.m_sec)
    then normalize_up t
    else normalize_down t

-- `operator+` and `operator+=`.
unfoldable pub add : TimeTick → TimeTick → TimeTick
add a b =
    normalize (record { m_sec = time (a.m_sec +ℤ b.m_sec); m_usec = int (a.m_usec +ℤ b.m_usec) })

-- `operator-` and `operator-=`.
unfoldable pub sub : TimeTick → TimeTick → TimeTick
sub a b =
    normalize (record { m_sec = time (a.m_sec -ℤ b.m_sec); m_usec = int (a.m_usec -ℤ b.m_usec) })

-- The unary `operator-`.
unfoldable pub opposite : TimeTick → TimeTick
opposite a = record { m_sec = time (neg (a.m_sec)); m_usec = int (neg (a.m_usec)) }

-- The comparisons, without their assertions: the theorems take it that both sides are normalized.
unfoldable pub gt : TimeTick → TimeTick → Bool
gt a b = ltb_ℤ (b.m_sec) (a.m_sec) || eq_ℤ (a.m_sec) (b.m_sec) && ltb_ℤ (b.m_usec) (a.m_usec)

unfoldable pub lt : TimeTick → TimeTick → Bool
lt a b = ltb_ℤ (a.m_sec) (b.m_sec) || eq_ℤ (a.m_sec) (b.m_sec) && ltb_ℤ (a.m_usec) (b.m_usec)

unfoldable pub ge : TimeTick → TimeTick → Bool
ge a b = ltb_ℤ (b.m_sec) (a.m_sec) || eq_ℤ (a.m_sec) (b.m_sec) && leb_ℤ (b.m_usec) (a.m_usec)

unfoldable pub le : TimeTick → TimeTick → Bool
le a b = ltb_ℤ (a.m_sec) (b.m_sec) || eq_ℤ (a.m_sec) (b.m_sec) && leb_ℤ (a.m_usec) (b.m_usec)

unfoldable pub eq : TimeTick → TimeTick → Bool
eq a b = eq_ℤ (a.m_sec) (b.m_sec) && eq_ℤ (a.m_usec) (b.m_usec)

unfoldable pub ne : TimeTick → TimeTick → Bool
ne a b = not (eq_ℤ (a.m_sec) (b.m_sec)) && not (eq_ℤ (a.m_usec) (b.m_usec))

-- The fields that `ToString` prints.
unfoldable pub get_days : TimeTick → ℤ
get_days t = quot (t.m_sec) 86400

unfoldable pub get_hours : TimeTick → ℤ
get_hours t = quot (rem (t.m_sec) 86400) 3600

unfoldable pub get_minutes : TimeTick → ℤ
get_minutes t = quot (rem (t.m_sec) 3600) 60

unfoldable pub get_seconds : TimeTick → ℤ
get_seconds t = rem (t.m_sec) 60

unfoldable pub get_milli_seconds : TimeTick → ℤ
get_milli_seconds t = quot (t.m_usec) 1000

unfoldable pub get_micro_seconds : TimeTick → ℤ
get_micro_seconds t = rem (t.m_usec) 1000
