-- ===== src/Ini/RoundTrip.antt =====
-- A configuration that is written out line by line is read back: each key of each section has the
-- value that was written last.
use common_cc.Prelude.{
  ◌≡◌, ◌∙◌, refl, ap, ◌&&◌, Option, none, some, List, [], ◌∷◌, ◌++◌, append_assoc, All,
  if◌then◌else◌, Bytes, arith,
}
use common_cc.Prelude.Dict.{same_text, insert, lookup, lookup-insert}
use common_cc.Ini.{Ini, map_key, read_line, read_lines, get_value, open_ini_file}
use common_cc.Prelude.Search.{Free, Free-append}
use common_cc.Ini.Lines.{
  text_of, get_lines-text_of, header_line, pair_line, read_line-header, IsPair, read_line-pair,
}

pub record Section : Type 0 where
  pub name : Bytes
  pub pairs : List (Bytes × Bytes)

abbrev pub pair_lines : List (Bytes × Bytes) → List Bytes
pair_lines [] = []
pair_lines ((k, v) ∷ ps) = pair_line k v ∷ pair_lines ps

abbrev pub lines_of : List Section → List Bytes
lines_of [] = []
lines_of (s ∷ ss) = header_line s.name ∷ (pair_lines s.pairs ++ lines_of ss)

-- The first of two values that is there.
abbrev pub or_else : Option Bytes → Option Bytes → Option Bytes
or_else none other = other
or_else (some v) other = some v

-- The value that the pairs give a key last.
unfoldable pub last_of : List (Bytes × Bytes) → Bytes → Option Bytes
last_of [] key = none
last_of ((k, v) ∷ ps) key = or_else (last_of ps key) (if same_text k key then some v else none)

-- The value that a configuration gives a key of a section last.
unfoldable pub value_of : List Section → Bytes → Bytes → Option Bytes
value_of [] field key = none
value_of (s ∷ ss) field key =
    or_else (value_of ss field key) (if same_text s.name field then last_of s.pairs key else none)

-- A section whose name has no dash, no closing bracket and no end of line, and whose pairs can be read.
pub record IsSection (s : Section) : Type 0 where
  pub no_dash : Free b'-' s.name
  pub no_bracket : Free b']' s.name
  pub one_line : Free 10 s.name
  pub pairs_read : All (λ p. IsPair p.0 p.1) s.pairs

-- Without dashes in the sections the keys of the map tell section and key apart.
same_text-map_key :
    (f g k l : Bytes)
    → Free b'-' f
    → Free b'-' g
    → same_text (map_key f k) (map_key g l) ≡ (same_text f g && same_text k l)
unfolding map_key same_text
same_text-map_key [] [] k l h i = refl
same_text-map_key [] (d ∷ g) k l h i = ground (arith, i.0)
same_text-map_key (c ∷ f) [] k l h i = ground (arith, h.0)
same_text-map_key (c ∷ f) (d ∷ g) k l h i = ground (arith, same_text-map_key f g k l h.1 i.1)

read_lines-append :
    (s : Ini) (xs ys : List Bytes) → read_lines s (xs ++ ys) ≡ read_lines (read_lines s xs) ys
unfolding read_lines
read_lines-append s [] ys = refl
read_lines-append s (x ∷ xs) ys = read_lines-append (read_line s x) xs ys

-- Pairs under a header.
pairs_lem :
    (s : Ini) (ps : List (Bytes × Bytes)) (field key : Bytes)
    → Free b'-' s.field
    → Free b'-' field
    → All (λ p. IsPair p.0 p.1) ps
    → get_value (read_lines s (pair_lines ps)).kv field key
      ≡ or_else
          (if same_text s.field field then last_of ps key else none)
          (get_value s.kv field key)
unfolding read_lines last_of
pairs_lem s [] field key h i w = ground arith
pairs_lem s ((k, v) ∷ ps) field key h i w =
    let next : Ini = record s { kv = insert (map_key s.field k) v s.kv } in
    let one : read_line s (pair_line k v) ≡ next = read_line-pair s k v w.0 in
    let rest = pairs_lem next ps field key h i w.1 in
    let put : get_value next.kv field key ≡ (
        if same_text s.field field && same_text k key then some v else get_value s.kv field key) =
      unfold get_value in
      (lookup-insert (map_key s.field k) (map_key field key) v s.kv
        ∙ ap (λ b. if b then some v else lookup (map_key field key) s.kv)
            (same_text-map_key s.field field k key h i)) in
    rw (read_lines, one) (ground (arith, rest, put))

sections_lem :
    (s : Ini) (ss : List Section) (field key : Bytes)
    → Free b'-' field
    → All IsSection ss
    → get_value (read_lines s (lines_of ss)).kv field key
      ≡ or_else (value_of ss field key) (get_value s.kv field key)
unfolding value_of
sections_lem s [] field key i w = unfold read_lines in refl
sections_lem s (x ∷ xs) field key i w =
    let opened : Ini = record s { field = x.name } in
    let inner : Ini = read_lines opened (pair_lines x.pairs) in
    let header : read_line s (header_line x.name) ≡ opened =
      read_line-header s x.name w.0.no_bracket in
    let rest = sections_lem inner xs field key i w.1 in
    let mine = pairs_lem opened x.pairs field key w.0.no_dash i w.0.pairs_read in
    let split : read_lines s (lines_of (x ∷ xs)) ≡ read_lines inner (lines_of xs) =
      unfold read_lines in
      (ap (λ z. read_lines z (pair_lines x.pairs ++ lines_of xs)) header
        ∙ read_lines-append opened (pair_lines x.pairs) (lines_of xs)) in
    rw (split, rest, mine) (ground arith)

Free-header_line : (name : Bytes) → Free 10 name → Free 10 (header_line name)
Free-header_line name h = (refl, Free-append 10 name (b']' ∷ []) h (refl, tt))

pair_lines-Free :
    (ps : List (Bytes × Bytes)) (rest : List Bytes)
    → All (λ p. IsPair p.0 p.1) ps
    → All (λ line. Free 10 line) rest
    → All (λ line. Free 10 line) (pair_lines ps ++ rest)
pair_lines-Free [] rest w h = h
pair_lines-Free ((k, v) ∷ ps) rest w h = (w.0.one_line, pair_lines-Free ps rest w.1 h)

lines_of-Free : (ss : List Section) → All IsSection ss → All (λ line. Free 10 line) (lines_of ss)
lines_of-Free [] w = tt
lines_of-Free (s ∷ ss) w = (
  Free-header_line s.name w.0.one_line,
  pair_lines-Free s.pairs (lines_of ss) w.0.pairs_read (lines_of-Free ss w.1),
)

-- A configuration that is written line by line into a file and read by `OpenIniFile` into an empty
-- map: a key of a section has the value that was given to it last, and no other key has one, for
-- sections with no dash, no closing bracket and no end of line in their names and pairs that can be
-- read and have no end of line, and for a section that is asked for with no dash in its name.
pub open_ini_file_lem :
    (ss : List Section) (field key : Bytes)
    → Free b'-' field
    → All IsSection ss
    → get_value (open_ini_file [] (some (text_of (lines_of ss)))).1 field key
      ≡ value_of ss field key
unfolding open_ini_file
open_ini_file_lem ss field key i w =
    let start : Ini = record { field = []; kv = [] } in
    ap (λ lines. get_value (read_lines start lines).kv field key)
      (get_lines-text_of (lines_of ss) (lines_of-Free ss w))
    ∙ sections_lem start ss field key i w
    ∙ (unfold get_value lookup in ground arith)

-- A dash in a section's name: the key `b-c` of the section `a` and the key `c` of the section `a-b`
-- are one entry of the map, whatever it holds.
get_value_clash :
    (kv : List (Bytes × Bytes)) (a b c : Bytes)
    → get_value kv (a ++ (b'-' ∷ b)) c ≡ get_value kv a (b ++ (b'-' ∷ c))
unfolding get_value map_key
get_value_clash kv a b c = ap (λ k. lookup k kv) (append_assoc a (b'-' ∷ b) (b'-' ∷ c))
