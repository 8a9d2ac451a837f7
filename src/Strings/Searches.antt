-- ===== src/Strings/Searches.antt =====
-- Runs of the functions that replace, remove and split, and their theorems at concrete texts.
use common_cc.Prelude.{arith, ◌≡◌, refl, true, false, none, some, [], ◌∷◌, Bytes, codes}
use common_cc.Prelude.Text.{find, starts_with, contains}
use common_cc.Strings.Chars.{is_separator}
use common_cc.Strings.Trim.{trim_both_sides, begin_pos, end_pos}
use common_cc.Strings.Replace.{
  replace_from, replace_str, kept_length, has_separators, remove_from, remove_str, delete_from,
  int_pos, delete_substr, split_by, split_by_from,
}
use common_cc.Strings.Substitute.{Replaced, replace_str_lem, remove_str_lem}

ab_to_ba : replace_str (codes "abxab") (codes "ab") (codes "ba") ≡ some (codes "baxba")
unfolding replace_str replace_from find starts_with
ab_to_ba = refl

-- To replace the empty text has no end.
no_end : replace_str (codes "ab") [] (codes "c") ≡ none
unfolding replace_str replace_from find starts_with
no_end = refl

-- The second letter follows the first, which is no separator, and is removed all the same.
follows_a_letter : remove_str (codes "aa") (codes "a") true ≡ some (codes "a")
unfolding remove_str remove_from int_pos kept_length has_separators is_separator find starts_with
follows_a_letter = refl

comment_is_deleted : delete_substr (codes "x<!y>z") (codes "<!") (codes ">") ≡ some (codes "xz")
unfolding delete_substr delete_from int_pos find starts_with
comment_is_deleted = refl

-- An end before the begin stops the search.
stray_end_stops : delete_substr (codes ">x<!y>z") (codes "<!") (codes ">") ≡ some (codes ">x<!y>z")
unfolding delete_substr delete_from int_pos find starts_with
stray_end_stops = refl

comma_splits : split_by (codes " a , b,,") (codes ",") ≡ some (codes "a " ∷ codes "b" ∷ [] ∷ [])
unfolding split_by split_by_from trim_both_sides begin_pos end_pos contains find starts_with
comma_splits = refl

replace_str_lem_example :
    (r : Bytes) × (replace_str (codes "abc") (codes "b") (codes "d") ≡ some r)
    × Replaced (codes "b") (codes "d") (codes "abc") r
replace_str_lem_example = replace_str_lem b'b' [] (codes "d") (codes "abc")

remove_str_lem_example :
    (remove_str (codes "abc") (codes "b") false ≡ replace_str (codes "abc") (codes "b") [])
    × ((r : Bytes) × (remove_str (codes "abc") (codes "b") false ≡ some r)
        × Replaced (codes "b") [] (codes "abc") r)
remove_str_lem_example = remove_str_lem b'b' [] (codes "abc") (omega arith)
