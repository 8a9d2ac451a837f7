-- ===== src/Http/Wire.antt =====
-- What the parsers of requests and responses in net/http_message.cc have in common. A position in a
-- text is the rest of the text from there.
use common_cc.Prelude.{
  ℕ, zero, suc, ◌+◌, ◌-◌, Option, none, some, List, [], ◌∷◌, ◌++◌, length, take, drop, leb, ltb,
  if◌then◌else◌, Bytes,
}
use common_cc.Prelude.Dict.{insert}
use common_cc.Prelude.Text.{find, find_byte, substr}

-- What a call ends with: a value, the exception of `substr`, or no fuel.
pub data Outcome {ℓ} (A : Type ℓ) : Type ℓ where
  ok : A → Outcome A
  out_of_range : Outcome A
  out_of_fuel : Outcome A

infixl 5 ◌>>=◌
abbrev pub ◌>>=◌ {ℓ κ} : {A : Type ℓ} {B : Type κ} → Outcome A → (A → Outcome B) → Outcome B
ok a >>= f = f a
out_of_range >>= f = out_of_range
out_of_fuel >>= f = out_of_fuel

abbrev pub Map : Type 0
Map = List (Bytes × Bytes)

abbrev pub crlf : Bytes
crlf = 13 ∷ 10 ∷ []

abbrev pub lf : Bytes
lf = 10 ∷ []

-- The loops over the pieces between separators: what a round does with a piece, and what the last
-- round does.
module _ (round last : Map → Bytes → Outcome Map) (split : Bytes) where
  unfoldable pub pieces : ℕ → Map → Bytes → Outcome Map
  pieces zero m rest = out_of_fuel
  pieces (suc fuel) m rest = elim (find rest split) [
    | none ↦ last m rest
    | some at ↦ do next ← round m (take at rest); pieces fuel next (drop (at + length split) rest)
  ]

-- `m[line.substr(0, p)] = line.substr(p + 2)`, where `p` is the place of a colon.
unfoldable pub put_field : Map → Bytes → ℕ → Outcome Map
put_field m line p =
    if leb (p + 2) (length line)
    then ok (insert (take p line) (drop (p + 2) line) m)
    else out_of_range

-- A line without a colon is left out.
unfoldable pub field_line : Map → Bytes → Outcome Map
field_line m line = elim (find_byte line b':') [ none ↦ ok m | some p ↦ put_field m line p ]

-- The lines of a header. They end as the first of them does.
unfoldable pub header_split : Bytes → Bytes
header_split headers = elim (find headers crlf) [ none ↦ lf | some p ↦ crlf ]

-- The end of the first line, and the length of the mark there.
unfoldable pub first_end : Bytes → Option (ℕ × ℕ)
first_end content = elim (find content crlf) [
  | some p ↦ some (p, 2)
  | none ↦ elim (find content lf) [ none ↦ none | some p ↦ some (p, 1) ]
]

-- The body, and the end of the header before it. Without an empty line `npos + 2` is 1, and the
-- header has no end: the test that was meant to return looks at the other variable.
unfoldable pub body_at : Bytes → Bytes × Option ℕ
body_at content = elim (find content (13 ∷ 10 ∷ 13 ∷ 10 ∷ [])) [
  | some p ↦ (drop (p + 4) content, some p)
  | none ↦ elim (find content (10 ∷ 10 ∷ [])) [
    | some p ↦ (drop (p + 2) content, some p)
    | none ↦ (drop 1 content, none)
  ]
]

-- `content.substr(pos, pos1 - pos)`: with an end that is not there, or is before the start, the
-- difference is more than any text holds.
unfoldable pub header_at : Bytes → ℕ → Option ℕ → Bytes
header_at content start none = drop start content
header_at content start (some end) =
    if ltb end start then drop start content else substr content start (end - start)

-- The lines of a header as they are printed.
unfoldable pub print_fields : Map → Bytes
print_fields [] = []
print_fields ((k, v) ∷ m) = k ++ (b':' ∷ b' ' ∷ (v ++ (crlf ++ print_fields m)))
