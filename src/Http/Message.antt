-- ===== src/Http/Message.antt =====
-- Where the parts of a message stand: its start line, its header and its body.
use common_cc.Prelude.{
  ◌+◌, ◌-◌, ◌≡◌, ◌∙◌, refl, ap, sym, true, false, some, List, [], ◌∷◌, ◌++◌, append_assoc, All,
  length, drop, length-append, take-append, drop-append, drop-drop, ltb, lt→ltb, Bytes, arith,
}
use common_cc.Prelude.Search.{Free, find-skip}
use common_cc.Prelude.Text.{find}
use common_cc.Http.Wire.{first_end, body_at, header_at, crlf}
use common_cc.Http.Walk.{more, blank, IsLine, find-more, find-line}

-- A message: the start line, the lines of the header, the body.
abbrev pub message : Bytes → List Bytes → Bytes → Bytes
message start ls body = start ++ (more ls ++ blank body)

-- What follows a word and a space.
pub drop_word : (word rest : Bytes) → drop (length word + 1) (word ++ (b' ' ∷ rest)) ≡ rest
drop_word word rest =
    sym (drop-drop 1 (length word) (word ++ (b' ' ∷ rest)))
    ∙ ap (λ z. drop 1 z) (drop-append word (b' ' ∷ rest))

first_end-crlf :
    (start s : Bytes) → Free 13 start → first_end (start ++ (crlf ++ s)) ≡ some (length start, 2)
unfolding first_end
first_end-crlf start s h = rw (first_end, find-line start s h) refl

pub first_end-message :
    (start : Bytes) (ls : List Bytes) (body : Bytes)
    → Free 13 start
    → first_end (message start ls body) ≡ some (length start, 2)
first_end-message start [] body h = first_end-crlf start (crlf ++ body) h
first_end-message start (l ∷ ls) body h = first_end-crlf start ((l ++ more ls) ++ blank body) h

drop-blank : (s body : Bytes) → drop (length s + 4) (s ++ blank body) ≡ body
drop-blank s body =
    sym (drop-drop 4 (length s) (s ++ blank body)) ∙ ap (λ z. drop 4 z) (drop-append s (blank body))

pub body_at-message :
    (start : Bytes) (ls : List Bytes) (body : Bytes)
    → Free 13 start
    → All IsLine ls
    → body_at (message start ls body) ≡ (body, some (length start + length (more ls)))
unfolding body_at
body_at-message start ls body h w =
    let head : Bytes = start ++ more ls in
    let found : find (message start ls body) (13 ∷ 10 ∷ 13 ∷ 10 ∷ [])
        ≡ some (length start + length (more ls)) =
      find-skip start (more ls ++ blank body) (10 ∷ 13 ∷ 10 ∷ []) 13 h
      ∙ rw (find-more ls body w) refl in
    let size : length start + length (more ls) ≡ length head =
      sym (length-append start (more ls)) in
    let same : message start ls body ≡ head ++ blank body =
      sym (append_assoc start (more ls) (blank body)) in
    let behind : drop (length start + length (more ls) + 4) (message start ls body) ≡ body =
      rw (size, same) (drop-blank head body) in
    rw (body_at, found, behind) refl

-- The header of a message that has lines there.
pub header_at-message :
    (start l : Bytes) (ls : List Bytes) (body : Bytes)
    → header_at
        (message start (l ∷ ls) body)
        (length start + 2)
        (some (length start + length (more (l ∷ ls))))
      ≡ l ++ more ls
unfolding header_at
header_at-message start l ls body =
    let text : Bytes = l ++ more ls in
    let content : Bytes = message start (l ∷ ls) body in
    let test : ltb (length start + length (crlf ++ text)) (length start + 2) ≡ false =
      ground arith in
    let size : length start + length (crlf ++ text) - (length start + 2) ≡ length text =
      omega arith in
    let behind : drop (length start + 2) content ≡ text ++ blank body =
      sym (drop-drop 2 (length start) content)
      ∙ ap (λ z. drop 2 z) (drop-append start (more (l ∷ ls) ++ blank body)) in
    rw (header_at, test, size, behind, take-append text (blank body)) refl

-- Without a line in the header, its end is before its start, and it is all that follows the start
-- line.
pub header_at-empty :
    (start body : Bytes)
    → header_at (message start [] body) (length start + 2) (some (length start + length (more [])))
      ≡ crlf ++ body
unfolding header_at
header_at-empty start body =
    let content : Bytes = message start [] body in
    let test : ltb (length start + 0) (length start + 2) ≡ true =
      lt→ltb (length start + 0) (length start + 2) (omega arith) in
    let behind : drop (length start + 2) content ≡ crlf ++ body =
      sym (drop-drop 2 (length start) content)
      ∙ ap (λ z. drop 2 z) (drop-append start (blank body)) in
    rw (header_at, test, behind) refl
