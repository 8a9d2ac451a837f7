-- ===== src/Strings/Content.antt =====
-- Functions of `StringUtility` on the content of a text: its blanks, its comments, the characters of
-- GB2312, addresses in digits.
use common_cc.Prelude.{
  ℕ, zero, suc, ◌+◌, ◌*◌, ◌%◌, Bool, true, false, ◌&&◌, ◌||◌, not, Option, some, List, [], ◌∷◌,
  length, take, drop, get_or, leb, ltb, ◌==◌, if◌then◌else◌, Bytes, codes,
}
use common_cc.Prelude.Ascii
use common_cc.Prelude.Text.{starts_with}
use common_cc.Strings.Chars.{is_digit}
use common_cc.Strings.Numbers.{str_to_uint}
use common_cc.Strings.Replace.{split_by}

-- `isspace` on a `char` above 0.
unfoldable pub is_blank : ℕ → Bool
is_blank c = ltb 0 c && ltb c 128 && Ascii.is_space c

-- The blanks at the start of a C string.
unfoldable pub skip_blanks : Bytes → Bytes
skip_blanks [] = []
skip_blanks (c ∷ s) = if is_blank c then skip_blanks s else c ∷ s

-- The loop of `SingleBlank`, up to the first zero byte: whether the next blank is the first of its run.
unfoldable pub squeeze : Bool → Bytes → Bytes
squeeze first [] = []
squeeze first (c ∷ s) =
    let after_blank = squeeze false s in
    let after_other = squeeze true s in
    if c == 0
    then []
    else if is_blank c
    then (if first then 32 ∷ after_blank else after_blank)
    else c ∷ after_other

-- Without the blanks at the end.
unfoldable pub cut_end : Bytes → Bytes
cut_end [] = []
cut_end (c ∷ s) = let rest = cut_end s in if length rest == 0 && c == 32 then [] else c ∷ rest

-- `SingleBlank`.
unfoldable pub single_blank : Bytes → Bytes
single_blank s = cut_end (squeeze true (skip_blanks s))

unfoldable pub opens_comment : Bytes → Bool
opens_comment s = ltb 4 (length s) && starts_with s (codes "<!--") && Ascii.is_space (get_or s 4 0)

unfoldable pub closes_comment : Bytes → Bool
closes_comment s = ltb 2 (length s) && starts_with s (codes "-->")

-- What a round of `StripComments` writes, and the rounds after it.
abbrev pub emit : Bool → Bytes → (Bytes → Bytes) → Bytes
emit inside [] next = []
emit true (c ∷ s) next = next s
emit false (c ∷ s) next = c ∷ next s

-- The loop of `StripComments`, inside or outside of a comment, with fuel for its rounds. A round that
-- closes a comment goes on to the byte behind it.
unfoldable pub strip_from : ℕ → Bool → Bytes → Bytes
strip_from zero inside s = []
strip_from (suc fuel) false s = let now = opens_comment s in emit now s (strip_from fuel now)
strip_from (suc fuel) true s =
    let now = not (closes_comment s) in emit now (if now then s else drop 3 s) (strip_from fuel now)

-- `StripComments`. Each round takes a byte at least.
unfoldable pub strip_comments : Bytes → Bytes
strip_comments s = strip_from (suc (length s)) false s

-- `IsWhiteString`. The byte behind the end is the zero byte.
unfoldable pub is_white_string : Bytes → Bool
is_white_string [] = true
is_white_string (c ∷ s) = if c == 32 || c == 9 then is_white_string s else false

-- `GetNextChar`: two bytes where a `char` is below 0.
unfoldable pub get_next_char : Bytes → ℕ → Bytes
get_next_char s at =
    if ltb (length s) (at + 1)
    then []
    else if leb 128 (get_or s at 0)
    then take 2 (drop at s)
    else take 1 (drop at s)

-- `IsGB2312Hanzi`: the index of the character, which `GetGB2312HanziIndex` computes from the first two
-- bytes, is from 0 and below 6768; both sides of the test are raised by its offset.
unfoldable pub is_gb_2312_hanzi : Bytes → Bool
is_gb_2312_hanzi s =
    let raised = get_or s 0 0 * 94 + get_or s 1 0 in
    if ltb (length s) 2
    then false
    else leb (176 * 94 + 161) raised && ltb raised (176 * 94 + 161 + 6768)

-- The rounds of `IsOnlyComposedOfGB2312Hanzi`, two bytes each.
unfoldable pub all_hanzi : Bytes → Bool
all_hanzi [] = true
all_hanzi (a ∷ []) = true
all_hanzi (a ∷ b ∷ s) = is_gb_2312_hanzi (a ∷ b ∷ s) && all_hanzi s

unfoldable pub is_only_composed_of_gb_2312_hanzi : Bytes → Bool
is_only_composed_of_gb_2312_hanzi s = if length s % 2 == 0 then all_hanzi s else false

unfoldable pub all_digits : Bytes → Bool
all_digits [] = true
all_digits (c ∷ s) = is_digit c && all_digits s

-- A part of an address. At most three digits come to `Str2Int`, which reads them as `Str2UInt` does.
unfoldable pub is_ip_part : Bytes → Bool
is_ip_part s =
    if ltb 3 (length s) || length s == 0 then false else all_digits s && leb (str_to_uint s) 255

unfoldable pub are_ip_parts : Option (List Bytes) → Bool
are_ip_parts (some (a ∷ b ∷ c ∷ d ∷ [])) =
    is_ip_part a && (is_ip_part b && (is_ip_part c && is_ip_part d))
are_ip_parts parts = false

-- `IsDigitIp`.
unfoldable pub is_digit_ip : Bytes → Bool
is_digit_ip s = are_ip_parts (split_by s (codes "."))
