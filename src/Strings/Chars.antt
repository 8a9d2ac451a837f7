-- ===== src/Strings/Chars.antt =====
-- The classes of characters of `StringUtility`, and the change of case.
use common_cc.Prelude.{
  ℕ, suc, ◌+◌, ◌-◌, ◌≡◌, refl, Bool, true, false, ◌&&◌, ◌||◌, [], ◌∷◌, leb, ◌==◌, if◌then◌else◌,
  Bytes, codes, length, arith, Bool-cases, inl, inr, ◌⊎◌,
}
use common_cc.Prelude.Text.{contains}

-- `IsGbk`: the two bytes of a character of GBK.
unfoldable pub is_gbk : ℕ → ℕ → Bool
is_gbk high low =
    leb 0x81 high && leb high 0xfe && (leb 0x40 low && leb low 0x7e || leb 0x80 low && leb low 0xfe)

-- `CharToLower` and `CharToUpper`.
unfoldable pub char_to_lower : ℕ → ℕ
char_to_lower c = if leb b'A' c && leb c b'Z' then c + 32 else c

unfoldable pub char_to_upper : ℕ → ℕ
char_to_upper c = if leb b'a' c && leb c b'z' then c - 32 else c

-- `IsSpace`.
unfoldable pub is_space : ℕ → Bool
is_space c = c == 32 || c == 9 || c == 13 || c == 10

-- `IsAlnum`.
unfoldable pub is_alnum : ℕ → Bool
is_alnum c = leb b'a' c && leb c b'z' || leb b'A' c && leb c b'Z' || leb b'0' c && leb c b'9'

-- `IsDigit`.
unfoldable pub is_digit : ℕ → Bool
is_digit c = leb b'0' c && leb c b'9'

-- `IsAlpha`.
unfoldable pub is_alpha : ℕ → Bool
is_alpha c = leb b'a' c && leb c b'z' || leb b'A' c && leb c b'Z'

-- `IsSeparator`.
unfoldable pub is_separator : ℕ → Bool
unfolding contains
is_separator c = contains (32 ∷ 9 ∷ 13 ∷ 10 ∷ codes "-_[](){}:.,=*&^%$#@!~?<>/|'\"") c

-- `ToLower`: the characters of GBK are copied whole.
unfoldable pub to_lower : Bytes → Bytes
unfolding char_to_lower is_gbk
to_lower [] = []
to_lower (c ∷ []) = char_to_lower c ∷ []
to_lower (c ∷ d ∷ s) =
    let pair = c ∷ d ∷ to_lower s in
    let single = char_to_lower c ∷ to_lower (d ∷ s) in if is_gbk c d then pair else single

-- `ToUpper`.
unfoldable pub to_upper : Bytes → Bytes
unfolding char_to_upper is_gbk
to_upper [] = []
to_upper (c ∷ []) = char_to_upper c ∷ []
to_upper (c ∷ d ∷ s) =
    let pair = c ∷ d ∷ to_upper s in
    let single = char_to_upper c ∷ to_upper (d ∷ s) in if is_gbk c d then pair else single

-- `IsEnglishString`, up to the first zero byte.
unfoldable pub is_english_string : Bytes → Bool → Bool
unfolding is_alpha
is_english_string [] low_line = true
is_english_string (c ∷ s) low_line =
    let rest = is_english_string s low_line in
    if c == 0 then true else if is_alpha c || low_line && c == b'_' then rest else false

-- `IsDigitString`, up to the first zero byte.
unfoldable pub is_digit_string : Bytes → Bool
unfolding is_digit
is_digit_string [] = true
is_digit_string (c ∷ s) =
    let rest = is_digit_string s in if c == 0 then true else if is_digit c then rest else false

-- `IsEnglishOrDigitString`, up to the first zero byte.
unfoldable pub is_english_or_digit_string : Bytes → Bool
unfolding is_digit is_alnum
is_english_or_digit_string [] = true
is_english_or_digit_string (c ∷ s) =
    let rest = is_english_or_digit_string s in
    if c == 0 then true else if is_digit c || is_alnum c then rest else false

-- `GetCharCount`: a byte of 128 or more and the byte behind it count once.
unfoldable pub get_char_count : Bytes → ℕ
get_char_count [] = 0
get_char_count (c ∷ []) = 1
get_char_count (c ∷ d ∷ s) =
    let pair = suc (get_char_count s) in
    let single = suc (get_char_count (d ∷ s)) in if leb 128 c then pair else single

-- Lower case is stable, byte by byte.
char_to_lower_twice : (c : ℕ) → char_to_lower (char_to_lower c) ≡ char_to_lower c
unfolding char_to_lower
char_to_lower_twice c = ground arith

-- A letter changes neither of the two tests of `IsGbk` on its first byte.
gbk_first : (c d : ℕ) → is_gbk (char_to_lower c) d ≡ is_gbk c d
unfolding is_gbk char_to_lower
gbk_first c d = ground arith

gbk_second : (c d : ℕ) → is_gbk c d ≡ false → is_gbk c (char_to_lower d) ≡ false
unfolding is_gbk char_to_lower
gbk_second c d h = ground arith

-- What a text in lower case begins with.
head_lem :
    (d : ℕ) (s : Bytes)
    → (h : ℕ) × (t : Bytes) × (to_lower (d ∷ s) ≡ h ∷ t) × ((h ≡ d) ⊎ (h ≡ char_to_lower d))
unfolding to_lower
head_lem d [] = (char_to_lower d, [], refl, inr refl)
head_lem d (e ∷ s) = elim (Bool-cases (is_gbk d e)) [
  | inl g ↦ (d, e ∷ to_lower s, rw g, inl refl)
  | inr g ↦ (char_to_lower d, to_lower (e ∷ s), rw g, inr refl)
]

-- One character in front of a text in lower case.
lower_cons :
    (c d : ℕ) (s : Bytes)
    → is_gbk c d ≡ false
    → to_lower (char_to_lower c ∷ to_lower (d ∷ s)) ≡ char_to_lower c ∷ to_lower (to_lower (d ∷ s))
unfolding to_lower
lower_cons c d s g =
    let (h, t, e, w) = head_lem d s in
    let no_pair : is_gbk (char_to_lower c) h ≡ false = elim w [
      | inl same ↦ rw (same, gbk_first c d) g
      | inr low ↦ rw (low, gbk_first c (char_to_lower d)) (gbk_second c d g)
    ] in
    rw (e, no_pair, char_to_lower_twice c)

-- Putting a text into lower case twice is the same as once, also where it has characters of GBK.
to_lower_twice : (s : Bytes) → to_lower (to_lower s) ≡ to_lower s
unfolding to_lower
to_lower_twice [] = refl
to_lower_twice (c ∷ []) = rw char_to_lower_twice
to_lower_twice (c ∷ d ∷ s) = elim (Bool-cases (is_gbk c d)) [
  | inl g ↦ rw (g, g, to_lower_twice s)
  | inr g ↦ rw (g, lower_cons c d s g, to_lower_twice (d ∷ s))
]

pub length-to_lower : (s : Bytes) → length (to_lower s) ≡ length s
unfolding to_lower
length-to_lower [] = refl
length-to_lower (c ∷ []) = refl
length-to_lower (c ∷ d ∷ s) = elim (Bool-cases (is_gbk c d)) [
  | inl g ↦ rw (g, length-to_lower s)
  | inr g ↦ rw (g, length-to_lower (d ∷ s))
]
