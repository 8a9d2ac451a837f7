-- ===== src/Strings/Examples.antt =====
-- Runs of the functions on texts, and their theorems at concrete texts.
use common_cc.Prelude.{ℕ, ◌≡◌, ◌⊎◌, ◌<◌, refl, true, codes, arith, [], ◌∷◌, ◌++◌, length}
use common_cc.Prelude.Text.{contains}
use common_cc.Strings.Chars.{is_separator, get_char_count}
use common_cc.Strings.Trim.{
  trim_both_sides, begin_pos, end_pos, trims, Trimmed, trim_both_sides_lem,
}
use common_cc.Strings.Split.{
  split_string, split_from, separators, word_length, Cut, concat, kept, split_string_lem,
}
use common_cc.Strings.Numbers.{
  int_to_str, print_decimal, str_to_uint, hex_str_to_long, hex_from, str_to_uint-int_to_str,
}

trim_words : trim_both_sides (codes "  a b ") (codes " ") ≡ codes "a b"
unfolding trim_both_sides begin_pos end_pos contains
trim_words = refl

print_number : int_to_str 4294967295 ≡ codes "4294967295"
unfolding int_to_str print_decimal
print_number = refl

read_byte : hex_str_to_long (codes "fF") ≡ 255
unfolding hex_str_to_long hex_from
read_byte = refl

count_characters : get_char_count (codes "a" ++ (0xb0 ∷ 0xa1 ∷ codes "b")) ≡ 3
unfolding get_char_count
count_characters = refl

str_to_uint-int_to_str_example : str_to_uint (int_to_str 4294967295) ≡ 4294967295
str_to_uint-int_to_str_example = str_to_uint-int_to_str 4294967295 (omega arith)

trim_both_sides_lem_example :
    (trim_both_sides (codes " a ") (codes " ") ≡ [])
      × ((k : ℕ) → k < length (codes " a ") → trims (codes " ") (codes " a ") k ≡ true)
    ⊎ Trimmed (codes " ") (codes " a ") (trim_both_sides (codes " a ") (codes " "))
trim_both_sides_lem_example = trim_both_sides_lem (codes " a ") (codes " ")

split_words : split_string (codes " ab, c") ≡ codes "ab" ∷ codes "c" ∷ []
unfolding split_string split_from separators word_length is_separator
split_words = refl

split_string_lem_example :
    Cut (codes " ab, c") (split_string (codes " ab, c"))
    × (concat (split_string (codes " ab, c")) ≡ kept (codes " ab, c"))
split_string_lem_example = split_string_lem (codes " ab, c")
