-- ===== src/Http/RoundTrip.antt =====
-- Messages that are printed and parsed again.
use common_cc.Prelude.{
  suc, ◌+◌, ◌≡◌, ◌∙◌, refl, ap, sym, some, List, [], ◌∷◌, ◌++◌, append_assoc, length, take-append,
  Bytes, codes,
}
use common_cc.Prelude.Search.{Free, Free-append, find_byte-append, find_byte-none}
use common_cc.Prelude.Text.{find, starts_with, find_byte}
use common_cc.Prelude.Order.{IsMap}
use common_cc.Http.Wire.{
  ok, ◌>>=◌, Map, crlf, print_fields, pieces, field_line, header_split, header_at,
}
use common_cc.Http.Walk.{more, blank}
use common_cc.Http.Fields.{
  AreFields, AreFields-IsLine, lines_of, line_of, more-blank, request_header,
}
use common_cc.Http.Message.{
  drop_word, message, first_end-message, body_at-message, header_at-message, header_at-empty,
}
use common_cc.Http.Request
use common_cc.Http.Request.{Request}

-- The start line of a request.
abbrev start_of : Request → Bytes
start_of r = r.method ++ (b' ' ∷ (r.uri ++ codes " HTTP/1.1"))

-- A request whose parts can stand in a message.
pub record IsRequest (r : Request) : Type 0 where
  pub method_word : Free b' ' r.method
  pub uri_word : Free b' ' r.uri
  pub uri_path : Free b'?' r.uri
  pub method_line : Free 13 r.method
  pub uri_line : Free 13 r.uri
  pub keys : IsMap r.header
  pub fields : AreFields r.header

to_string-message :
    (r : Request) → Request.to_string r ≡ message (start_of r) (lines_of r.header) r.body
unfolding Request.to_string
to_string-message r =
    let tail : Bytes = crlf ++ (print_fields r.header ++ (crlf ++ r.body)) in
    let line : Bytes = codes " HTTP/1.1" in
    sym (
      append_assoc r.method (b' ' ∷ (r.uri ++ line)) tail
      ∙ ap (λ z. r.method ++ (b' ' ∷ z)) (append_assoc r.uri line tail))
    ∙ ap (λ z. start_of r ++ z) (more-blank r.header r.body)

start_of-Free : (r : Request) → IsRequest r → Free 13 (start_of r)
start_of-Free r w = Free-append 13 r.method (b' ' ∷ (r.uri ++ codes " HTTP/1.1")) w.method_line (
  refl,
  Free-append 13 r.uri (codes " HTTP/1.1") w.uri_line
      (refl, (refl, (refl, (refl, (refl, (refl, (refl, (refl, (refl, tt))))))))),
)

set_target-Free :
    (uri : Bytes) (s : Request)
    → Free b'?' uri
    → Request.set_target uri s ≡ ok (record s { uri = uri })
unfolding Request.set_target
set_target-Free uri s k = rw (Request.set_target, find_byte-none uri b'?' k) refl

parse_target-append :
    (uri rest : Bytes) (s : Request)
    → Free b' ' uri
    → Free b'?' uri
    → Request.parse_target (uri ++ (b' ' ∷ rest)) s ≡ ok (record s { uri = uri })
unfolding Request.parse_target
parse_target-append uri rest s h k =
    rw (Request.parse_target, find_byte-append uri rest b' ' h, take-append uri (b' ' ∷ rest))
      (set_target-Free uri s k)

parse_start_line-append :
    (method rest : Bytes) (s : Request)
    → Free b' ' method
    → Request.parse_start_line (method ++ (b' ' ∷ rest)) s
      ≡ Request.parse_target rest (record s { method = method })
unfolding Request.parse_start_line
parse_start_line-append method rest s h =
    rw
      (
        Request.parse_start_line,
        find_byte-append method rest b' ' h,
        take-append method (b' ' ∷ rest),
        drop_word method rest,
      )
      refl

-- The start line gives the method and the URI.
start_line :
    (r s : Request)
    → IsRequest r
    → Request.parse_start_line (start_of r) s ≡ ok (record s { method = r.method; uri = r.uri })
start_line r s w =
    parse_start_line-append r.method (r.uri ++ codes " HTTP/1.1") s w.method_word
    ∙ parse_target-append r.uri (codes "HTTP/1.1") (record s { method = r.method }) w.uri_word
        w.uri_path

-- What is parsed of a printed request, up to the header.
parse-to_string :
    (r s : Request)
    → IsRequest r
    → Request.parse (Request.to_string r) s ≡ (
        Request.parse_header [] (
          header_at
            (message (start_of r) (lines_of r.header) r.body)
            (length (start_of r) + 2)
            (some (length (start_of r) + length (more (lines_of r.header)))))
        >>= (λ header. ok (record r { header = header; params = [] })))
unfolding Request.parse Request.parse_rest
parse-to_string r s w =
    let start : Bytes = start_of r in
    let ls : List Bytes = lines_of r.header in
    let content : Bytes = message start ls r.body in
    let free : Free 13 start = start_of-Free r w in
    ap (λ z. Request.parse z s) (to_string-message r)
    ∙ rw
        (
          Request.parse,
          first_end-message start ls r.body free,
          take-append start (more ls ++ blank r.body),
          start_line r (record s { header = []; params = [] }) w,
          Request.parse_rest,
          body_at-message start ls r.body free (AreFields-IsLine r.header w.fields),
        )
        refl

-- A request that is printed and parsed again, whatever the object held before: it is the same, with no
-- parameters. The header must have a field, with keys in the map's order that hold no colon; no field
-- has an end of line in it; the method has no space, the URI neither a space nor a question mark, and
-- both no carriage return; the body is any bytes.
pub request_round_trip :
    (r s : Request) (k v : Bytes) (m : Map)
    → IsRequest r
    → r.header ≡ (k, v) ∷ m
    → Request.parse (Request.to_string r) s ≡ ok (record r { params = [] })
request_round_trip r s k v m w e =
    let keys : IsMap ((k, v) ∷ m) = rw e at w.keys in
    let fields : AreFields ((k, v) ∷ m) = rw e at w.fields in
    parse-to_string r s w
    ∙ rw
        (
          e,
          header_at-message (start_of r) (line_of k v) (lines_of m) r.body,
          request_header k v m keys fields,
        )
        refl

empty_first :
    (body : Bytes)
    → Request.parse_header [] (crlf ++ body)
      ≡ pieces field_line field_line crlf (suc (suc (length body))) [] body
unfolding Request.parse_header header_split pieces find starts_with field_line find_byte
empty_first body = refl

-- A request without a field in its header, printed and parsed again: the lines of its body are read as
-- a header, after an empty line. For parts that can stand in a message, as above.
pub request_without_header :
    (r s : Request)
    → IsRequest r
    → r.header ≡ []
    → Request.parse (Request.to_string r) s ≡ (
        pieces field_line field_line crlf (suc (suc (length r.body))) [] r.body
        >>= (λ header. ok (record r { header = header; params = [] })))
request_without_header r s w e =
    parse-to_string r s w ∙ rw (e, header_at-empty (start_of r) r.body, empty_first r.body) refl
