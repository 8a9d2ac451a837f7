-- ===== src/Strings/Numbers.antt =====
-- The conversions of `StringUtility` between texts and unsigned numbers, and its hash.
use common_cc.Prelude.{
  ℕ, zero, suc, ◌+◌, ◌-◌, ◌*◌, ◌/◌, ◌%◌, ◌^◌, ◌≤◌, ◌<◌, ◌≡◌, refl, false, ◌&&◌, [], ◌∷◌, ◌++◌, ltb,
  leb, ◌==◌, if◌then◌else◌, Bytes, All, arith, drop, Bool-cases, inl, inr,
}
use common_cc.Prelude.Word.{u32}

-- A `char` added to an `unsigned int`: it is signed, so that a byte of 128 or more counts as
-- 256 less.
abbrev pub char32 : ℕ → ℕ
char32 c = if ltb c 128 then c else c + 2 ^ 32 - 256

-- One round of `Str2UInt`.
unfoldable pub uint_step : ℕ → ℕ → ℕ
uint_step n c = u32 (n * 10 + char32 c + 2 ^ 32 - b'0')

-- `Str2UInt`, from the number read so far.
unfoldable pub uint_from : ℕ → Bytes → ℕ
uint_from n [] = n
uint_from n (c ∷ s) = uint_from (uint_step n c) s

unfoldable pub str_to_uint : Bytes → ℕ
str_to_uint s = uint_from 0 s

-- `Int2Str`: `sprintf` with `%u`. Ten digits are enough for an `unsigned int`; the fuel is the
-- number of digits still allowed.
unfoldable pub print_decimal : ℕ → ℕ → Bytes
print_decimal zero n = []
print_decimal (suc fuel) n =
    let more = print_decimal fuel (n / 10) ++ ((b'0' + n % 10) ∷ []) in
    if ltb n 10 then (b'0' + n) ∷ [] else more

unfoldable pub int_to_str : ℕ → Bytes
int_to_str n = print_decimal 10 n

-- `Char2Hex`.
unfoldable pub hex_digit : ℕ → ℕ
hex_digit x = if ltb 9 x then b'A' + x - 10 else b'0' + x

unfoldable pub char_to_hex : ℕ → Bytes
unfolding hex_digit
char_to_hex ch = b'%' ∷ hex_digit (ch / 16) ∷ hex_digit (ch % 16) ∷ []

-- `HexStr2long`, as the bits of its `int`.
unfoldable pub hex_value : ℕ → ℕ
hex_value c =
    if leb b'A' c && leb c b'F'
    then c - b'A' + 10
    else if leb b'a' c && leb c b'f'
    then c - b'a' + 10
    else u32 (char32 c + 2 ^ 32 - b'0')

unfoldable pub hex_from : ℕ → Bytes → ℕ
unfolding hex_value
hex_from n [] = n
hex_from n (c ∷ s) = hex_from (u32 (n * 16 + hex_value c)) s

unfoldable pub hex_str_to_long : Bytes → ℕ
hex_str_to_long s = hex_from 0 s

-- `GetStrHashValue`, up to the first zero byte, from the hash so far.
unfoldable pub hash_from : ℕ → Bytes → ℕ
hash_from h [] = h
hash_from h (c ∷ s) = let more = hash_from (u32 (h * 31 + c)) s in if c == 0 then h else more

unfoldable pub get_str_hash_value : Bytes → ℕ
get_str_hash_value s = hash_from 0 s

abbrev pub IsDecimal : ℕ → Type 0
IsDecimal c = (b'0' ≤ c) × (c ≤ b'9')

-- The number that digits spell behind `n`, with no bound.
unfoldable pub decimal : ℕ → Bytes → ℕ
decimal n [] = n
decimal n (c ∷ s) = decimal (n * 10 + (c - b'0')) s

-- What is read is congruent to the number that the digits spell.
uint_from-decimal :
    (s : Bytes) (n m : ℕ) → All IsDecimal s → n ≡ m % 2 ^ 32 → uint_from n s ≡ decimal m s % 2 ^ 32
unfolding uint_from decimal
uint_from-decimal [] n m h e = e
uint_from-decimal (c ∷ s) n m h e =
    uint_from-decimal s (uint_step n c) (m * 10 + (c - b'0')) h.1
      (unfold uint_step in ground (arith, h.0))

-- `Str2UInt` of decimal digits is the number that they spell, modulo 2 ^ 32.
str_to_uint-decimal : (s : Bytes) → All IsDecimal s → str_to_uint s ≡ decimal 0 s % 2 ^ 32
unfolding str_to_uint
str_to_uint-decimal s h = uint_from-decimal s 0 0 h refl

decimal-append : (s : Bytes) (n c : ℕ) → decimal n (s ++ (c ∷ [])) ≡ decimal n s * 10 + (c - b'0')
unfolding decimal
decimal-append [] n c = refl
decimal-append (d ∷ s) n c = decimal-append s (n * 10 + (d - b'0')) c

pow-suc : (n : ℕ) → 10 ^ suc n ≡ 10 * 10 ^ n
pow-suc n = omega arith

-- With enough digits allowed, what is printed spells the number.
decimal-print : (fuel n : ℕ) → n < 10 ^ fuel → decimal 0 (print_decimal fuel n) ≡ n
unfolding print_decimal
decimal-print zero n h = unfold decimal in ground arith
decimal-print (suc fuel) n h = elim (Bool-cases (ltb n 10)) [
  | inl e ↦ unfold decimal in rw e (omega arith)
  | inr e ↦
      let shorter : n / 10 < 10 ^ fuel = omega (arith, pow-suc fuel, h) in
      rw
        (
          e,
          decimal-append (print_decimal fuel (n / 10)) 0 (b'0' + n % 10),
          decimal-print fuel (n / 10) shorter,
        )
        (omega arith)
]

All-snoc : (s : Bytes) (c : ℕ) → All IsDecimal s → IsDecimal c → All IsDecimal (s ++ (c ∷ []))
All-snoc [] c h p = (p, tt)
All-snoc (d ∷ s) c h p = (h.0, All-snoc s c h.1 p)

print_decimal-All : (fuel n : ℕ) → All IsDecimal (print_decimal fuel n)
unfolding print_decimal
print_decimal-All zero n = tt
print_decimal-All (suc fuel) n = elim (Bool-cases (ltb n 10)) [
  | inl e ↦ rw e ((omega arith, ground arith), tt)
  | inr e ↦ rw e (
      All-snoc (print_decimal fuel (n / 10)) (b'0' + n % 10) (print_decimal-All fuel (n / 10))
        (omega arith, omega arith))
]

-- `Str2UInt` reads back every `unsigned int` that `Int2Str` prints.
pub str_to_uint-int_to_str : (n : ℕ) → n < 2 ^ 32 → str_to_uint (int_to_str n) ≡ n
unfolding int_to_str
str_to_uint-int_to_str n h =
    rw
      (
        str_to_uint-decimal (print_decimal 10 n) (print_decimal-All 10 n),
        decimal-print 10 n (omega arith),
      )
      (omega arith)

-- The value of a digit of `Char2Hex` in `HexStr2long`.
hex_value-hex_digit : (x : ℕ) → x < 16 → hex_value (hex_digit x) ≡ x
unfolding hex_value hex_digit
hex_value-hex_digit x h = ground arith

-- `HexStr2long` reads back the two digits that `Char2Hex` writes behind its `%`.
hex_str_to_long-char_to_hex : (ch : ℕ) → ch < 256 → hex_str_to_long (drop 1 (char_to_hex ch)) ≡ ch
unfolding hex_str_to_long hex_from char_to_hex
hex_str_to_long-char_to_hex ch h =
    rw (hex_value-hex_digit (ch / 16) (omega arith), hex_value-hex_digit (ch % 16) (omega arith))
      (omega arith)

-- What is hashed before a text only shifts: the hash of a text behind another continues the hash of the first.
pub hash_from-append :
    (s t : Bytes) (h : ℕ) → All (λ c. 0 < c) s → hash_from h (s ++ t) ≡ hash_from (hash_from h s) t
unfolding hash_from
hash_from-append [] t h p = refl
hash_from-append (c ∷ s) t h p =
    let more : (c == 0) ≡ false = ground (arith, p.0) in
    rw (more, hash_from-append s t (u32 (h * 31 + c)) p.1)
