-- ===== src/Json/Examples.antt =====
-- Runs of the parser and the printer, and their theorems at a concrete value.
use common_cc.Prelude.{ℕ, ◌+◌, ◌-◌, ◌≡◌, refl, ◌⊎◌, true, false, [], ◌∷◌, Bytes, codes, ◌==◌}
use common_cc.Prelude.Text.{starts_with, contains}
use common_cc.Prelude.Ascii.{is_digit}
use common_cc.Prelude.Dict.{same_text, text_less}
use common_cc.Json.Value.{
  ok, thrown, out_of_bounds, Json, unknown, integer, real, string, boolean, array, object, nil,
  cons, end, field, push_back, set_field, at, find_field, add,
}
use common_cc.Json.Escape.{encode, decode, escape, unescape}
use common_cc.Json.Token.{
  skip_spaces, number_length, scan, read_number, read_string, read_word, read_token, token,
}
use common_cc.Json.Parse.{parse_text, parse, parsed, reply_of, is_byte, field_step}
use common_cc.Json.Print.{to_string, quoted}
use common_cc.Json.Tokens.{IsPlain}
use common_cc.Json.RoundTrip.{Readable, parse_text-to_string}
use common_cc.Json.Ends.{parse_text-Yields}

-- Numbers of one digit, and doubles of one digit with a zero behind the dot.
abbrev digit : Bytes → ℕ
digit [] = 0
digit (c ∷ s) = c - 48

abbrev print_digit : ℕ → Bytes
print_digit n = (48 + n) ∷ []

abbrev print_tenths : ℕ → Bytes
print_tenths n = (48 + n) ∷ codes ".0"

abbrev sample : Json ℕ ℕ
sample = object (
    field (codes "a") (array (cons (integer 1) (cons (string (10 ∷ 34 ∷ [])) nil))) (
      field (codes "b") (real 2)
        (field (codes "c") (boolean true) (field (codes "d") unknown end))))

sample_text :
    to_string print_digit print_tenths true sample
    ≡ codes "{\"a\":[1,\"\\n\\\"\"],\"b\":2.0,\"c\":true,\"d\":null}"
unfolding to_string quoted encode escape
sample_text = refl

blanks_are_skipped :
    parse_text digit digit (codes " { \"k\" : [ 1 , -2 ] } ")
    ≡ ok (object (field (codes "k") (array (cons (integer 1) (cons (integer 0) nil))) end))
unfolding parse_text parse parsed reply_of is_byte field_step token read_token read_number
    read_string read_word scan skip_spaces number_length starts_with contains is_digit decode
    unescape push_back set_field
blanks_are_skipped = refl

-- Commas are not counted.
commas_pass : parse_text digit digit (codes "[,1,,]") ≡ ok (array (cons (integer 1) nil))
unfolding parse_text parse parsed reply_of is_byte field_step token read_token read_number
    read_string read_word scan skip_spaces number_length starts_with contains is_digit decode
    unescape push_back set_field
commas_pass = refl

-- An array that is not closed is read behind the terminator.
open_array : parse_text digit digit (codes "[1") ≡ out_of_bounds
unfolding parse_text parse parsed reply_of is_byte field_step token read_token read_number
    read_string read_word scan skip_spaces number_length starts_with contains is_digit decode
    unescape push_back set_field
open_array = refl

-- A byte that is -1 as a `char` is taken for the type of a null value.
high_byte : parse_text digit digit (255 ∷ codes "x") ≡ ok unknown
unfolding parse_text parse parsed reply_of is_byte field_step token read_token read_number
    read_string read_word scan skip_spaces number_length starts_with contains is_digit decode
    unescape push_back set_field
high_byte = refl

-- A backslash and an `n` come back as a backslash and a line feed.
slash_is_lost : decode (encode (codes "\\n")) ≡ 92 ∷ 10 ∷ []
unfolding decode encode escape unescape
slash_is_lost = refl

missing_key : at (codes "z") sample ≡ thrown
unfolding at find_field same_text
missing_key = refl

no_list : add sample (integer 1) ≡ thrown
unfolding add
no_list = refl

sample-Readable : Readable digit digit print_digit print_tenths sample
unfolding Readable is_digit contains text_less
sample-Readable = (
  (
    letter b'a' refl refl,
    (
      ((refl, tt, refl), refl),
      (record { no_slash = (refl, (refl, tt)); no_zero = (refl, (refl, tt)) }, tt),
    ),
    (
      letter b'b' refl refl,
      ((refl, (refl, (refl, tt)), refl), refl),
      (letter b'c' refl refl, tt, (letter b'd' refl refl, tt, tt)),
    ),
  ),
  ((refl, (refl, (refl, tt))), ((refl, (refl, tt)), ((refl, tt), (tt, tt)))),
)
  where
    letter : (b : ℕ) → (b == 92) ≡ false → (b == 0) ≡ false → IsPlain (b ∷ [])
    letter b h k = record { no_slash = (h, tt); no_zero = (k, tt) }

parse_text-to_string_example :
    parse_text digit digit (to_string print_digit print_tenths true sample) ≡ ok sample
parse_text-to_string_example =
    parse_text-to_string digit digit print_digit print_tenths sample sample-Readable

parse_text-Yields_example :
    ((j : Json ℕ ℕ) × (parse_text digit digit (codes "[1") ≡ ok j))
    ⊎ (parse_text digit digit (codes "[1") ≡ thrown)
    ⊎ (parse_text digit digit (codes "[1") ≡ out_of_bounds)
parse_text-Yields_example = parse_text-Yields digit digit (codes "[1")
