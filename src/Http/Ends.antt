-- ===== src/Http/Ends.antt =====
-- The parsers come to an end, and keep each key of a map once.
use common_cc.Prelude.{
  ℕ, suc, ◌+◌, ◌≡◌, refl, Option, [], ◌∷◌, length, take, drop, leb, Bytes, arith, Bool-cases,
  Option-cases, inl, inr,
}
use common_cc.Prelude.Order.{IsMap, insert-IsMap}
use common_cc.Prelude.Text.{find, find_byte}
use common_cc.Http.Wire.{
  Outcome, ok, Map, crlf, pieces, put_field, field_line, header_split, first_end, body_at,
  header_at,
}
use common_cc.Http.Walk.{Yields, Yields->>=, pieces-Yields}
use common_cc.Http.Request
use common_cc.Http.Request.{Request}
use common_cc.Http.Response
use common_cc.Http.Response.{Response}

put_field-Yields : (m : Map) (line : Bytes) (p : ℕ) → IsMap m → Yields IsMap (put_field m line p)
unfolding put_field
put_field-Yields m line p w = elim (Bool-cases (leb (p + 2) (length line))) [
  | inl e ↦ rw e (insert-IsMap (take p line) (drop (p + 2) line) m w)
  | inr e ↦ rw e tt
]

field_line-Yields : (m : Map) (line : Bytes) → IsMap m → Yields IsMap (field_line m line)
unfolding field_line
field_line-Yields m line w = elim (Option-cases (find_byte line b':')) [
  | inl e ↦ rw (field_line, e) w
  | inr e ↦ rw (field_line, e.1) (put_field-Yields m line e.0 w)
]

last_line-Yields : (m : Map) (line : Bytes) → IsMap m → Yields IsMap (Response.last_line m line)
unfolding Response.last_line
last_line-Yields m line w = elim (Option-cases (find_byte line b':')) [
  | inl e ↦ elim (Bool-cases (leb 1 (length line))) [
    | inl f ↦ rw (Response.last_line, e, f) (insert-IsMap line (drop 1 line) m w)
    | inr f ↦ rw (Response.last_line, e, f) tt
  ]
  | inr e ↦ rw (Response.last_line, e.1) (put_field-Yields m line e.0 w)
]

param-Yields : (m : Map) (kv : Bytes) → IsMap m → Yields IsMap (Request.param m kv)
unfolding Request.param
param-Yields m kv w = elim (Option-cases (find_byte kv b'=')) [
  | inl e ↦ rw (Request.param, e) w
  | inr e ↦ rw (Request.param, e.1) (insert-IsMap (take e.0 kv) (drop (e.0 + 1) kv) m w)
]

-- Both marks of ends of lines will do.
header-Yields :
    (last : Map → Bytes → Outcome Map)
    → ((m : Map) (line : Bytes) → IsMap m → Yields IsMap (last m line))
    → (m : Map) (s : Bytes) → IsMap m
    → Yields IsMap (pieces field_line last (header_split s) (suc (length s)) m s)
unfolding header_split
header-Yields last h m s w = elim (Option-cases (find s crlf)) [
  | inl e ↦
      rw (header_split, e)
        (pieces-Yields field_line last 10 [] IsMap field_line-Yields h (suc (length s)) m s
          (omega arith) w)
  | inr e ↦
      rw (header_split, e.1)
        (pieces-Yields field_line last 13 (10 ∷ []) IsMap field_line-Yields h (suc (length s)) m s
          (omega arith) w)
]

-- A request whose maps have each key once.
abbrev pub HasMaps : Request → Type 0
HasMaps r = IsMap r.header × IsMap r.params

set_target-Yields :
    (uri : Bytes) (r : Request) → HasMaps r → Yields HasMaps (Request.set_target uri r)
unfolding Request.set_target Request.parse_params
set_target-Yields uri r w = elim (Option-cases (find_byte uri b'?')) [
  | inl e ↦ rw (Request.set_target, e) w
  | inr e ↦
      let text : Bytes = drop (e.0 + 1) uri in
      rw (Request.set_target, e.1)
        (Yields->>= IsMap HasMaps (Request.parse_params r.params text)
          (λ params. ok (record r { uri = take e.0 uri; params = params }))
          (pieces-Yields Request.param Request.param b'&' [] IsMap param-Yields param-Yields
            (suc (length text)) r.params text (omega arith) w.1)
          (λ params q. (w.0, q)))
]

start_line-Yields :
    (line : Bytes) (r : Request) → HasMaps r → Yields HasMaps (Request.parse_start_line line r)
unfolding Request.parse_start_line Request.parse_target
start_line-Yields line r w = elim (Option-cases (find_byte line b' ')) [
  | inl e ↦ rw (Request.parse_start_line, e) w
  | inr e ↦
      let rest : Bytes = drop (e.0 + 1) line in
      let named : Request = record r { method = take e.0 line } in
      elim (Option-cases (find_byte rest b' ')) [
        | inl f ↦ rw (Request.parse_start_line, e.1, Request.parse_target, f) w
        | inr f ↦
            rw (Request.parse_start_line, e.1, Request.parse_target, f.1)
              (set_target-Yields (take f.0 rest) named w)
      ]
]

rest-Yields :
    (content : Bytes) (pos size : ℕ) (r : Request)
    → HasMaps r
    → Yields HasMaps (Request.parse_rest content pos size r)
unfolding Request.parse_rest Request.parse_header
rest-Yields content pos size r w =
    let end : Option ℕ = (body_at content).1 in
    let text : Bytes = header_at content (pos + size) end in
    Yields->>= IsMap HasMaps (Request.parse_header r.header text)
      (λ header. ok (record r { body = (body_at content).0; header = header }))
      (header-Yields field_line field_line-Yields r.header text w.0) (λ header q. (q, w.1))

parse_request-Yields : (content : Bytes) (r : Request) → Yields HasMaps (Request.parse content r)
unfolding Request.parse
parse_request-Yields content r =
    let cleared : Request = record r { header = []; params = [] } in
    elim (Option-cases (first_end content)) [
      | inl e ↦ rw (Request.parse, e) (tt, tt)
      | inr e ↦
          rw (Request.parse, e.1)
            (Yields->>= HasMaps HasMaps (Request.parse_start_line (take e.0.0 content) cleared)
              (λ q. Request.parse_rest content e.0.0 e.0.1 q)
              (start_line-Yields (take e.0.0 content) cleared (tt, tt))
              (λ q w. rest-Yields content e.0.0 e.0.1 q w))
    ]

-- The start line does not touch the header.
start_line-header :
    (line : Bytes) (r : Response) → (Response.parse_start_line line r).header ≡ r.header
unfolding Response.parse_start_line Response.parse_status
start_line-header line r = elim (Option-cases (find_byte line b' ')) [
  | inl e ↦ rw (Response.parse_start_line, e) refl
  | inr e ↦ elim (Option-cases (find_byte (drop (e.0 + 1) line) b' ')) [
    | inl f ↦ rw (Response.parse_start_line, e.1, Response.parse_status, f) refl
    | inr f ↦ rw (Response.parse_start_line, e.1, Response.parse_status, f.1) refl
  ]
]

parse_response-Yields :
    (content : Bytes) (r : Response)
    → IsMap r.header
    → Yields (λ q. IsMap q.header) (Response.parse content r)
unfolding Response.parse Response.parse_header
parse_response-Yields content r w = elim (Option-cases (first_end content)) [
  | inl e ↦ rw (Response.parse, e) w
  | inr e ↦
      let started : Response = Response.parse_start_line (take e.0.0 content) r in
      let text : Bytes = header_at content (e.0.0 + e.0.1) (body_at content).1 in
      let kept : IsMap started.header = rw (start_line-header (take e.0.0 content) r) w in
      rw (Response.parse, e.1)
        (Yields->>= IsMap (λ q. IsMap q.header) (Response.parse_header started.header text)
          (λ header. ok (record started { body = (body_at content).0; header = header }))
          (header-Yields Response.last_line last_line-Yields started.header text kept)
          (λ header q. q))
]

-- `Parse` comes to an end on every text, of requests and of responses: its loops have fuel enough. When
-- it returns, the header and the parameters of a request have each key once and in order, whatever the
-- object held before, and so has the header of a response, if it had before.
pub parse-Yields :
    (content : Bytes) (r : Request) (s : Response)
    → IsMap s.header
    → Yields HasMaps (Request.parse content r)
      × Yields (λ q. IsMap q.header) (Response.parse content s)
parse-Yields content r s w = (parse_request-Yields content r, parse_response-Yields content s w)
