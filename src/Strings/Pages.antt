-- ===== src/Strings/Pages.antt =====
-- Runs of the functions on the content of a text.
use common_cc.Prelude.{◌≡◌, refl, true, false, [], ◌∷◌, codes}
use common_cc.Prelude.Ascii
use common_cc.Prelude.Text.{find, starts_with, contains}
use common_cc.Strings.Chars.{is_digit}
use common_cc.Strings.Numbers.{str_to_uint, uint_from, uint_step}
use common_cc.Strings.Replace.{split_by, split_by_from}
use common_cc.Strings.Trim.{trim_both_sides, begin_pos, end_pos}
use common_cc.Strings.Content.{
  single_blank, squeeze, skip_blanks, cut_end, is_blank, strip_comments, strip_from, opens_comment,
  closes_comment, is_digit_ip, are_ip_parts, is_ip_part, all_digits, is_gb_2312_hanzi,
}

runs_become_one : single_blank (codes "  a   b ") ≡ codes "a b"
unfolding single_blank squeeze skip_blanks cut_end is_blank Ascii.is_space
runs_become_one = refl

comment_is_stripped : strip_comments (codes "a<!-- b -->c") ≡ codes "ac"
unfolding strip_comments strip_from opens_comment closes_comment starts_with Ascii.is_space
comment_is_stripped = refl

-- The byte behind a comment is not looked at, so a comment that starts there stays.
next_comment_stays : strip_comments (codes "<!-- a --><!-- b -->") ≡ codes "<!-- b -->"
unfolding strip_comments strip_from opens_comment closes_comment starts_with Ascii.is_space
next_comment_stays = refl

first_hanzi : is_gb_2312_hanzi (176 ∷ 161 ∷ []) ≡ true
unfolding is_gb_2312_hanzi
first_hanzi = refl

address : is_digit_ip (codes "10.0.0.255") ≡ true
unfolding is_digit_ip are_ip_parts is_ip_part all_digits is_digit split_by split_by_from
    trim_both_sides begin_pos end_pos contains find starts_with str_to_uint uint_from uint_step
address = refl

-- The parts behind the first are trimmed, so an address may have blanks behind its points.
blanks_pass : is_digit_ip (codes "10. 0.0.255") ≡ true
unfolding is_digit_ip are_ip_parts is_ip_part all_digits is_digit split_by split_by_from
    trim_both_sides begin_pos end_pos contains find starts_with str_to_uint uint_from uint_step
blanks_pass = refl

above_a_byte : is_digit_ip (codes "10.0.0.256") ≡ false
unfolding is_digit_ip are_ip_parts is_ip_part all_digits is_digit split_by split_by_from
    trim_both_sides begin_pos end_pos contains find starts_with str_to_uint uint_from uint_step
above_a_byte = refl
