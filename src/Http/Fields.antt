-- ===== src/Http/Fields.antt =====
-- The header of a message, printed and read back.
use common_cc.Prelude.{
  suc, ◌+◌, ◌≡◌, ◌∙◌, refl, ap, sym, true, some, List, [], ◌∷◌, ◌++◌, append_assoc, append-nil, All,
  length, drop, length-append, take-append, drop-append, drop-drop, leb, le→leb, Bytes, arith,
}
use common_cc.Prelude.Search.{Free, find_byte-append, find-none}
use common_cc.Prelude.Dict.{insert}
use common_cc.Prelude.Order.{IsMap, insert-append}
use common_cc.Prelude.Text.{find_byte}
use common_cc.Http.Wire.{
  Outcome, ok, Map, crlf, put_field, field_line, header_split, pieces, print_fields,
}
use common_cc.Http.Walk.{more, blank, IsLine, pieces-more, each_line, find-line}
use common_cc.Http.Request
use common_cc.Http.Response

abbrev pub line_of : Bytes → Bytes → Bytes
line_of k v = k ++ (b':' ∷ b' ' ∷ v)

abbrev pub lines_of : Map → List Bytes
lines_of [] = []
lines_of ((k, v) ∷ m) = line_of k v ∷ lines_of m

-- A field that a line of a header can carry.
pub record IsField (k v : Bytes) : Type 0 where
  pub no_colon : Free b':' k
  pub no_cr : Free 13 (line_of k v)
  pub no_lf : Free 10 (line_of k v)

pub IsField-IsLine : (k v : Bytes) → IsField k v → IsLine (line_of k v)
IsField-IsLine k v w = record {
  no_cr = w.no_cr;
  no_lf = w.no_lf;
  some_byte = omega (arith, length-append k (b':' ∷ b' ' ∷ v));
}

abbrev pub AreFields : Map → Type 0
AreFields m = All (λ e. IsField e.0 e.1) m

pub AreFields-IsLine : (m : Map) → AreFields m → All IsLine (lines_of m)
AreFields-IsLine [] a = tt
AreFields-IsLine ((k, v) ∷ m) a = (IsField-IsLine k v a.0, AreFields-IsLine m a.1)

find_byte-colon : (k v : Bytes) → Free b':' k → find_byte (line_of k v) b':' ≡ some (length k)
find_byte-colon k v h = find_byte-append k (b' ' ∷ v) b':' h

put_field-line_of :
    (m : Map) (k v : Bytes) → put_field m (line_of k v) (length k) ≡ ok (insert k v m)
unfolding put_field
put_field-line_of m k v =
    let line : Bytes = line_of k v in
    let room : leb (length k + 2) (length line) ≡ true =
      le→leb (length k + 2) (length line) (omega (arith, length-append k (b':' ∷ b' ' ∷ v))) in
    let behind : drop (length k + 2) line ≡ v =
      sym (drop-drop 2 (length k) line) ∙ ap (λ z. drop 2 z) (drop-append k (b':' ∷ b' ' ∷ v)) in
    rw (room, take-append k (b':' ∷ b' ' ∷ v), behind) refl

pub field_line-line_of :
    (m : Map) (k v : Bytes) → IsField k v → field_line m (line_of k v) ≡ ok (insert k v m)
unfolding field_line
field_line-line_of m k v w =
    rw (field_line, find_byte-colon k v w.no_colon) (put_field-line_of m k v)

pub last_line-line_of :
    (m : Map) (k v : Bytes) → IsField k v → Response.last_line m (line_of k v) ≡ ok (insert k v m)
unfolding Response.last_line
last_line-line_of m k v w =
    rw (Response.last_line, find_byte-colon k v w.no_colon) (put_field-line_of m k v)

-- The fields of a map, entered in their order behind others.
each_line-lines_of :
    (last : Map → Bytes → Outcome Map)
    → ((m : Map) (k v : Bytes) → IsField k v → last m (line_of k v) ≡ ok (insert k v m))
    → (m : Map) (k v : Bytes) (n : Map) → IsMap (m ++ ((k, v) ∷ n))
    → AreFields ((k, v) ∷ n)
    → each_line field_line last m (line_of k v) (lines_of n) ≡ ok (m ++ ((k, v) ∷ n))
each_line-lines_of last read m k v [] w a =
    read m k v a.0 ∙ ap (λ z. ok z) (insert-append m [] k v w)
each_line-lines_of last read m k v ((j, x) ∷ n) w a =
    let next : Map = m ++ ((k, v) ∷ []) in
    let whole : next ++ ((j, x) ∷ n) ≡ m ++ ((k, v) ∷ (j, x) ∷ n) =
      append_assoc m ((k, v) ∷ []) ((j, x) ∷ n) in
    let kept : IsMap (next ++ ((j, x) ∷ n)) = rw whole w in
    let rest : each_line field_line last next (line_of j x) (lines_of n)
        ≡ ok (next ++ ((j, x) ∷ n)) =
      each_line-lines_of last read next j x n kept a.1 in
    rw (field_line-line_of m k v a.0, insert-append m ((j, x) ∷ n) k v w, rest, whole) refl

-- A header that is one line does not tell how it ends, and is searched in one piece all the same.
header_loop :
    (last : Map → Bytes → Outcome Map) (m : Map) (l : Bytes) (ls : List Bytes)
    → All IsLine (l ∷ ls)
    → pieces field_line last
        (header_split (l ++ more ls))
        (suc (length (l ++ more ls)))
        m
        (l ++ more ls)
      ≡ each_line field_line last m l ls
unfolding header_split pieces
header_loop last m l [] h =
    ap (λ z. pieces field_line last (header_split z) (suc (length z)) m z) (append-nil l)
    ∙ (rw (header_split, pieces, find-none l (10 ∷ []) 13 h.0.no_cr, find-none l [] 10 h.0.no_lf)
        refl)
header_loop last m l (k ∷ ls) h =
    rw (header_split, find-line l (k ++ more ls) h.0.no_cr)
      (pieces-more field_line last (suc (length (l ++ more (k ∷ ls)))) m l (k ∷ ls) h (omega arith))

-- The lines of a header, one after the other, are its fields.
pub request_header :
    (k v : Bytes) (m : Map)
    → IsMap ((k, v) ∷ m)
    → AreFields ((k, v) ∷ m)
    → Request.parse_header [] (line_of k v ++ more (lines_of m)) ≡ ok ((k, v) ∷ m)
unfolding Request.parse_header
request_header k v m w a =
    header_loop field_line [] (line_of k v) (lines_of m)
      (IsField-IsLine k v a.0, AreFields-IsLine m a.1)
    ∙ each_line-lines_of field_line field_line-line_of [] k v m w a

pub response_header :
    (k v : Bytes) (m : Map)
    → IsMap ((k, v) ∷ m)
    → AreFields ((k, v) ∷ m)
    → Response.parse_header [] (line_of k v ++ more (lines_of m)) ≡ ok ((k, v) ∷ m)
unfolding Response.parse_header
response_header k v m w a =
    header_loop Response.last_line [] (line_of k v) (lines_of m)
      (IsField-IsLine k v a.0, AreFields-IsLine m a.1)
    ∙ each_line-lines_of Response.last_line last_line-line_of [] k v m w a

print_fields-append :
    (k v : Bytes) (m : Map) (z : Bytes)
    → print_fields ((k, v) ∷ m) ++ z ≡ line_of k v ++ (crlf ++ (print_fields m ++ z))
unfolding print_fields
print_fields-append k v m z =
    append_assoc k (b':' ∷ b' ' ∷ (v ++ (crlf ++ print_fields m))) z
    ∙ ap (λ y. k ++ (b':' ∷ b' ' ∷ y)) (append_assoc v (crlf ++ print_fields m) z)
    ∙ sym (append_assoc k (b':' ∷ b' ' ∷ v) (crlf ++ (print_fields m ++ z)))

pub more-blank :
    (m : Map) (body : Bytes)
    → crlf ++ (print_fields m ++ (crlf ++ body)) ≡ more (lines_of m) ++ blank body
more-blank [] body = unfold print_fields in refl
more-blank ((k, v) ∷ m) body =
    ap (λ y. crlf ++ y)
      (print_fields-append k v m (crlf ++ body)
        ∙ ap (λ y. line_of k v ++ y) (more-blank m body)
        ∙ sym (append_assoc (line_of k v) (more (lines_of m)) (blank body)))
