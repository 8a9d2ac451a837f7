-- ===== src/Json/Token.antt =====
-- `Token` of utils/json.cpp. A position in the text is what is left of it; `none` is the place behind
-- the terminator, where a read is out of bounds.
use common_cc.Prelude.{
  ℕ, suc, Bool, true, false, not, ◌&&◌, ◌||◌, Option, none, some, [], ◌∷◌, take, drop, ◌==◌,
  if◌then◌else◌, Bytes, codes,
}
use common_cc.Prelude.Text.{starts_with, contains}
use common_cc.Prelude.Ascii.{is_digit}
use common_cc.Json.Value.{Outcome, ok, out_of_bounds}
use common_cc.Json.Escape.{decode}

-- What a token is: a number with its text and whether it has a dot, a string, `null`, a Boolean, or a
-- byte with the place behind it.
pub data Token : Type 0 where
  number : Bool → Bytes → Token
  text : Bytes → Token
  null : Token
  bool : Bool → Token
  byte : ℕ → Token
  terminator : Token

unfoldable pub skip_spaces : Bytes → Bytes
skip_spaces [] = []
skip_spaces (c ∷ s) = if c == 32 || c == 9 || (c == 13 || c == 10) then skip_spaces s else c ∷ s

-- How many digits and dots stand in front.
unfoldable pub number_length : Bytes → ℕ
number_length [] = 0
number_length (c ∷ s) =
    let rest = number_length s in if is_digit c || c == b'.' then suc rest else 0

-- The loop over the bytes of a string, after a backslash or not: what is before its end, and the place
-- behind the end. The string ends at a quote, at a zero byte, or at the terminator.
unfoldable pub scan : Bool → Bytes → Bytes × Option Bytes
scan ign [] = ([], none)
scan ign (c ∷ s) =
    let rest = scan (if ign then false else c == 92) s in
    if c == 0 || (not ign && c == 34) then ([], some s) else (c ∷ rest.0, rest.1)

-- A number, from its first byte on.
unfoldable pub read_number : Bytes → Token × Option Bytes
read_number [] = (number false [], some [])
read_number (c ∷ s) =
    let size = if c == b'-' then suc (number_length s) else number_length (c ∷ s) in
    let ord = take size (c ∷ s) in (number (contains ord b'.') ord, some (drop size (c ∷ s)))

-- A string, from the byte behind its quote on.
unfoldable pub read_string : Bytes → Token × Option Bytes
read_string s = let (ord, rest) = scan false s in (text (decode ord), rest)

-- What is neither a number nor a string.
unfoldable pub read_word : Bytes → Token × Option Bytes
read_word [] = (terminator, none)
read_word (c ∷ s) =
    if starts_with (c ∷ s) (codes "null")
    then (null, some (drop 4 (c ∷ s)))
    else if starts_with (c ∷ s) (codes "true")
    then (bool true, some (drop 4 (c ∷ s)))
    else if starts_with (c ∷ s) (codes "false")
    then (bool false, some (drop 5 (c ∷ s)))
    else (byte c, some s)

unfoldable pub read_token : Bytes → Token × Option Bytes
read_token [] = (terminator, none)
read_token (c ∷ s) =
    if c == b'-' || is_digit c
    then read_number (c ∷ s)
    else if c == 34
    then read_string s
    else read_word (c ∷ s)

-- `Token`.
unfoldable pub token : Option Bytes → Outcome (Token × Option Bytes)
token none = out_of_bounds
token (some s) = ok (read_token (skip_spaces s))
