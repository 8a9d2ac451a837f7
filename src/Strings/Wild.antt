-- ===== src/Strings/Wild.antt =====
-- `MatchWildcard` of `StringUtility`, its escapes, and the short form of a text. `none` is a call that
-- does not come back or writes outside of a buffer.
use common_cc.Prelude.{
  ℕ, zero, suc, ◌+◌, ◌-◌, ◌*◌, ◌%◌, Bool, true, false, ◌||◌, Option, none, some, [], ◌∷◌, ◌++◌,
  length, take, drop, ltb, leb, ◌==◌, if◌then◌else◌, ◌>>=◌, Bytes, codes, get_or,
}
use common_cc.Prelude.Text.{contains}
use common_cc.Strings.Chars.{is_alnum}

-- A `char` by its place among the values of the signed type.
unfoldable pub signed_rank : ℕ → ℕ
signed_rank c = (c + 128) % 256

-- So many bytes from one on.
unfoldable pub bytes_from : ℕ → ℕ → Bytes
bytes_from zero c = []
bytes_from (suc count) c = c ∷ bytes_from count ((c + 1) % 256)

-- The loop from `*(i-2)` to `last`, which has no end where `last` is the greatest `char`.
unfoldable pub char_range : ℕ → ℕ → Option Bytes
char_range from last =
    if last == 127 then none else some (bytes_from (suc (signed_rank last) - signed_rank from) from)

-- The last byte is erased, of which there must be one.
unfoldable pub erase_last : Bytes → Option Bytes
erase_last [] = none
erase_last (c ∷ s) = some (take (length s) (c ∷ s))

-- The loop of `_MatchSet` behind the bytes of the pattern up to `before`: the set, or `none` inside
-- where the pattern does not match anything.
unfoldable pub set_chars : Option ℕ → Bytes → Bytes → Option (Option Bytes)
set_chars before acc [] = some (some acc)
set_chars before acc (c ∷ []) = if c == b'\\' then some none else elim before [
  | none ↦ some (some (acc ++ (c ∷ [])))
  | some p ↦ if c == b'-' then some none else some (some (acc ++ (c ∷ [])))
]
set_chars before acc (c ∷ (d ∷ s)) =
    let plain = set_chars (some c) (acc ++ (c ∷ [])) (d ∷ s) in
    let escaped = set_chars (some d) (acc ++ (d ∷ [])) s in
    if c == b'\\' then escaped else elim before [
      | none ↦ plain
      | some p ↦
          let ranged = do
            kept ← erase_last acc
            range ← char_range p d
            set_chars (some d) (kept ++ range) s
          in if c == b'-' then ranged else plain
    ]

-- `_MatchSet`.
unfoldable pub match_set : Bytes → ℕ → Option Bool
match_set pattern c = do
  found ← set_chars none [] pattern
  elim found [ none ↦ some false | some set ↦ some (contains set c) ]

-- The end of a set: its text, behind what was read of it, and what follows the bracket.
unfoldable pub close_set : Bytes → Bytes → Option (Bytes × Bytes)
close_set acc [] = none
close_set acc (c ∷ []) = if c == b']' then some (acc, []) else none
close_set acc (c ∷ (d ∷ s)) =
    let plain = close_set (acc ++ (c ∷ [])) (d ∷ s) in
    let escaped = close_set (acc ++ (c ∷ (d ∷ []))) s in
    if c == b']' then some (acc, d ∷ s) else if c == b'\\' then escaped else plain

-- The loop behind a star, over the rests of the text.
unfoldable pub match_star : (Bytes → Option Bool) → Bool → Bytes → Option Bool
match_star try at_end [] = some false
match_star try at_end (c ∷ text) =
    let rest = match_star try at_end text in
    let tried = do b ← try (c ∷ text); if b then some true else rest
    in if at_end then (if length text == 0 then some true else rest) else tried

-- `_MatchRemainder`, with fuel for its rounds, each of which takes a byte of the pattern.
unfoldable pub match_remainder : ℕ → Bytes → Bytes → Option Bool
match_remainder zero wild text = none
match_remainder (suc fuel) [] [] = some true
match_remainder (suc fuel) [] (c ∷ text) = some false
match_remainder (suc fuel) (w ∷ wild) [] = some false
match_remainder (suc fuel) (w ∷ wild) (c ∷ text) =
    let next = match_remainder fuel wild text in
    let star = match_star (λ t. match_remainder fuel wild t) (length wild == 0) text in
    let in_set : Option Bool = elim (close_set [] wild) [
      | none ↦ some false
      | some (set, rest) ↦ do
        b ← match_set set c
        let behind = match_remainder fuel rest text
        if b then behind else some false
    ] in
    let escaped : Option Bool = elim wild [
      | [] ↦ some false
      | d ∷ rest ↦
          let behind = match_remainder fuel rest text in if d == c then behind else some false
    ] in
    if w == b'*'
    then star
    else if w == b'['
    then in_set
    else if w == b'?'
    then next
    else if w == b'\\'
    then escaped
    else if w == c
    then next
    else some false

-- `MatchWildcard`.
unfoldable pub match_wildcard : Bytes → Bytes → Option Bool
match_wildcard wild text = match_remainder (suc (length wild)) wild text

-- A byte as `QuoteWild` writes it.
unfoldable pub quote_byte : ℕ → Bytes
quote_byte c =
    if c == 10
    then codes "\\n"
    else if c == 9
    then codes "\\t"
    else if c == 13
    then codes "\\r"
    else if c == 8
    then codes "\\b"
    else if (c == b'\'') || (c == b'"') || (c == b'\\')
    then b'\\' ∷ c ∷ []
    else if leb 32 c
    then c ∷ []
    else 32 ∷ []

-- The loop of `QuoteWild`, up to a zero byte.
unfoldable pub quoted : Bytes → Bytes
quoted [] = []
quoted (c ∷ s) = let rest = quoted s in if c == 0 then [] else quote_byte c ++ rest

-- `QuoteWild`. Its buffer must have room for the terminator too.
unfoldable pub quote_wild : Bytes → Option Bytes
quote_wild [] = some []
quote_wild (c ∷ s) =
    if ltb (length (quoted (c ∷ s))) (length (c ∷ s) * 2) then some (quoted (c ∷ s)) else none

-- The letters and digits at the start of a text.
unfoldable pub word_length : Bytes → ℕ
word_length [] = 0
word_length (c ∷ s) = let rest = word_length s in if is_alnum c then suc rest else 0

-- The loop of `AbstractString` from an offset, with fuel for its rounds, each of which takes a byte.
unfoldable pub offset_from : ℕ → Bytes → ℕ → ℕ → Option ℕ
offset_from zero s len offset = none
offset_from (suc fuel) s len offset =
    let c = get_or s offset 0 in
    let word = word_length (drop offset s) in
    let two = offset_from fuel s len (offset + 2) in
    let over = offset_from fuel s len (offset + word) in
    let one = offset_from fuel s len (offset + 1) in
    if leb offset len
    then (if leb 128 c
        then (if leb (offset + 2) len then two else some offset)
        else if is_alnum c
        then (if ltb len word
            then some len
            else if leb (offset + word) len
            then over
            else some offset)
        else if leb (offset + 1) len
        then one
        else some offset)
    else some offset

-- `AbstractString` to a length of 0 at least.
unfoldable pub abstract_string : Bytes → ℕ → Option Bytes
abstract_string s len =
    let cut = do offset ← offset_from (len + 2) s len 0; some (take offset s)
    in if len == 0 then some [] else if leb (length s) len then some s else cut
