-- ===== src/Strings/Matches.antt =====
-- Runs of `MatchWildcard`, `QuoteWild` and `AbstractString`, and the theorem at a concrete pattern.
use common_cc.Prelude.{◌≡◌, refl, true, false, none, some, [], ◌∷◌, ◌++◌, codes}
use common_cc.Prelude.Text.{starts_with, contains}
use common_cc.Strings.Chars.{is_alnum}
use common_cc.Strings.Wild.{
  match_wildcard, match_remainder, match_star, close_set, match_set, set_chars, erase_last,
  char_range, bytes_from, signed_rank, quote_wild, quoted, quote_byte, abstract_string, offset_from,
  word_length,
}
use common_cc.Strings.Patterns.{match_wildcard-prefix}

-- The examples of the header.
match_wildcard_samples :
    (match_wildcard (codes "he*o") (codes "hello") ≡ some true)
    × (match_wildcard (codes "he*p") (codes "hello") ≡ some false)
    × (match_wildcard (codes "he??o") (codes "hello") ≡ some true)
    × (match_wildcard (codes "he?o") (codes "hello") ≡ some false)
    × (match_wildcard (codes "[a-z][0-9]") (codes "h7") ≡ some true)
    × (match_wildcard (codes "172.16.*") (codes "172.16.68.29") ≡ some true)
unfolding match_wildcard match_remainder match_star close_set match_set set_chars erase_last
    char_range bytes_from signed_rank contains
match_wildcard_samples = (refl, refl, refl, refl, refl, refl)

-- A text whose bytes are all escaped leaves no room for the terminator.
no_room : quote_wild (codes "\"'") ≡ none
unfolding quote_wild quoted quote_byte
no_room = refl

short_form : abstract_string (codes "one two three") 9 ≡ some (codes "one two ")
unfolding abstract_string offset_from word_length is_alnum
short_form = refl

-- A star for one byte at the end.
match_wildcard-prefix_example :
    match_wildcard (codes "he" ++ (b'*' ∷ [])) (codes "hel") ≡ some false
unfolding starts_with
match_wildcard-prefix_example = match_wildcard-prefix (codes "he") (codes "hel") (refl, (refl, tt))
