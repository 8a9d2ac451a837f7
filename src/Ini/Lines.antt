-- ===== src/Ini/Lines.antt =====
-- What one line of a configuration file does.
use common_cc.Prelude.{
  All, List, suc, ◌+◌, ◌-◌, ◌≡◌, ◌∙◌, refl, ap, sym, true, false, some, [], ◌∷◌, ◌++◌, length, drop,
  take-append, drop-append, drop-drop, ltb, lt→ltb, Bytes, arith,
}
use common_cc.Prelude.Text.{find_byte}
use common_cc.Prelude.Search.{Free, find_byte-none, find_byte-append}
use common_cc.Ini.{get_lines, Ini, map_key, is_skipped, section_of, pair_at, take_line, read_line}
use common_cc.Prelude.Dict.{insert}

-- The line of a header, for a section whose name has no bracket.
abbrev pub header_line : Bytes → Bytes
header_line field = b'[' ∷ (field ++ (b']' ∷ []))

abbrev pub pair_line : Bytes → Bytes → Bytes
pair_line key value = key ++ (b'=' ∷ value)

pub read_line-header :
    (s : Ini) (field : Bytes)
    → Free b']' field
    → read_line s (header_line field) ≡ record s { field = field }
unfolding read_line is_skipped section_of take_line
read_line-header s field h =
    let line : Bytes = header_line field in
    let open_at : find_byte line b'[' ≡ some 0 = unfold find_byte in refl in
    let close_at : find_byte line b']' ≡ some (suc (length field)) =
      find_byte-append (b'[' ∷ field) [] b']' (refl, h) in
    let size : suc (length field) - 0 - 1 ≡ length field = omega arith in
    let test : ltb 0 (suc (length field)) ≡ true = lt→ltb 0 (suc (length field)) (omega arith) in
    rw (open_at, close_at, test, size, take-append field (b']' ∷ [])) refl

-- A line of a key and a value, which does not look like a comment or a header, and is one line.
pub record IsPair (key value : Bytes) : Type 0 where
  pub starts : is_skipped (pair_line key value) ≡ false
  pub no_equals : Free b'=' key
  pub no_bracket : Free b'[' (pair_line key value)
  pub one_line : Free 10 (pair_line key value)

pub read_line-pair :
    (s : Ini) (key value : Bytes)
    → IsPair key value
    → read_line s (pair_line key value) ≡ record s { kv = insert (map_key s.field key) value s.kv }
unfolding read_line section_of take_line pair_at
read_line-pair s key value w =
    let line : Bytes = pair_line key value in
    let behind : drop (length key + 1) line ≡ value =
      sym (drop-drop 1 (length key) line) ∙ ap (λ z. drop 1 z) (drop-append key (b'=' ∷ value)) in
    rw
      (
        w.starts,
        find_byte-none line b'[' w.no_bracket,
        find_byte-append key value b'=' w.no_equals,
        take-append key (b'=' ∷ value),
        behind,
      )
      refl

-- Lines as they stand in a file.
abbrev pub text_of : List Bytes → Bytes
text_of [] = []
text_of (line ∷ lines) = line ++ (10 ∷ text_of lines)

get_lines-line : (line s : Bytes) → Free 10 line → get_lines (line ++ (10 ∷ s)) ≡ line ∷ get_lines s
unfolding get_lines
get_lines-line [] s h = refl
get_lines-line (c ∷ line) s h = rw (h.0, get_lines-line line s h.1) refl

pub get_lines-text_of :
    (lines : List Bytes) → All (λ line. Free 10 line) lines → get_lines (text_of lines) ≡ lines
get_lines-text_of [] h = unfold get_lines in refl
get_lines-text_of (line ∷ lines) h =
    get_lines-line line (text_of lines) h.0 ∙ ap (λ ls. line ∷ ls) (get_lines-text_of lines h.1)
