-- ===== src/Http/Reply.antt =====
-- Responses that are printed and parsed again.
use common_cc.Prelude.{
  ◌≡◌, ◌∙◌, refl, ap, sym, List, [], ◌∷◌, ◌++◌, append_assoc, take-append, Bytes,
}
use common_cc.Prelude.Search.{Free, find_byte-append}
use common_cc.Prelude.Order.{IsMap}
use common_cc.Http.Wire.{ok, Map, crlf, print_fields}
use common_cc.Http.Walk.{more, blank}
use common_cc.Http.Fields.{
  AreFields, AreFields-IsLine, lines_of, line_of, more-blank, response_header,
}
use common_cc.Http.Message.{
  message, first_end-message, body_at-message, header_at-message, drop_word,
}
use common_cc.Http.Response
use common_cc.Http.Response.{Response}

-- The start line of a response.
abbrev start_of : Response → Bytes
start_of r = r.http_version ++ (b' ' ∷ (r.ret_code ++ (b' ' ∷ r.ret_msg)))

-- A response whose parts can stand in a message.
pub record IsResponse (r : Response) : Type 0 where
  pub version_word : Free b' ' r.http_version
  pub code_word : Free b' ' r.ret_code
  pub start : Free 13 (start_of r)
  pub keys : IsMap r.header
  pub fields : AreFields r.header

to_string-message :
    (r : Response) → Response.to_string r ≡ message (start_of r) (lines_of r.header) r.body
unfolding Response.to_string
to_string-message r =
    let tail : Bytes = crlf ++ (print_fields r.header ++ (crlf ++ r.body)) in
    sym (
      append_assoc r.http_version (b' ' ∷ (r.ret_code ++ (b' ' ∷ r.ret_msg))) tail
      ∙ ap (λ z. r.http_version ++ (b' ' ∷ z)) (append_assoc r.ret_code (b' ' ∷ r.ret_msg) tail))
    ∙ ap (λ z. start_of r ++ z) (more-blank r.header r.body)

parse_status-append :
    (code msg : Bytes) (s : Response)
    → Free b' ' code
    → Response.parse_status (code ++ (b' ' ∷ msg)) s ≡ record s { ret_code = code; ret_msg = msg }
unfolding Response.parse_status
parse_status-append code msg s h =
    rw
      (
        Response.parse_status,
        find_byte-append code msg b' ' h,
        take-append code (b' ' ∷ msg),
        drop_word code msg,
      )
      refl

-- The start line gives the version, the code and the message.
start_line :
    (r s : Response)
    → IsResponse r
    → Response.parse_start_line (start_of r) s
      ≡ record s { http_version = r.http_version; ret_code = r.ret_code; ret_msg = r.ret_msg }
unfolding Response.parse_start_line
start_line r s w =
    let rest : Bytes = r.ret_code ++ (b' ' ∷ r.ret_msg) in
    rw
      (
        Response.parse_start_line,
        find_byte-append r.http_version rest b' ' w.version_word,
        take-append r.http_version (b' ' ∷ rest),
        drop_word r.http_version rest,
      )
      (parse_status-append r.ret_code r.ret_msg (record s { http_version = r.http_version })
        w.code_word)

-- A response that is printed and parsed into an object without a header: it is the same. The header
-- must have a field, with keys in the map's order that hold no colon; no field has an end of line in
-- it; the version and the code have no space, and the start line no carriage return; the body is any
-- bytes.
pub response_round_trip :
    (r s : Response) (k v : Bytes) (m : Map)
    → IsResponse r
    → s.header ≡ []
    → r.header ≡ (k, v) ∷ m
    → Response.parse (Response.to_string r) s ≡ ok r
unfolding Response.parse
response_round_trip r s k v m w h e =
    let start : Bytes = start_of r in
    let ls : List Bytes = lines_of r.header in
    let keys : IsMap ((k, v) ∷ m) = rw e at w.keys in
    let fields : AreFields ((k, v) ∷ m) = rw e at w.fields in
    ap (λ z. Response.parse z s) (to_string-message r)
    ∙ rw
        (
          Response.parse,
          first_end-message start ls r.body w.start,
          take-append start (more ls ++ blank r.body),
          start_line r s w,
          body_at-message start ls r.body w.start (AreFields-IsLine r.header w.fields),
          h,
          e,
          header_at-message start (line_of k v) (lines_of m) r.body,
          response_header k v m keys fields,
        )
        refl
