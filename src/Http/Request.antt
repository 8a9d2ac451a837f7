-- ===== src/Http/Request.antt =====
-- `CHttpRequest` of net/http_message.h and net/http_message.cc. `atoi` is a parameter.
use common_cc.Prelude.{ℕ, suc, ◌+◌, none, some, [], ◌∷◌, ◌++◌, length, take, drop, Bytes, codes}
use common_cc.Prelude.Int.{ℤ}
use common_cc.Prelude.Dict.{insert, lookup}
use common_cc.Prelude.Text.{find_byte}
use common_cc.Http.Wire.{
  Outcome, ok, ◌>>=◌, Map, crlf, pieces, field_line, header_split, first_end, body_at, header_at,
  print_fields,
}

pub record Request : Type 0 where
  pub header : Map
  pub params : Map
  pub method : Bytes
  pub uri : Bytes
  pub body : Bytes

-- The constructor.
abbrev pub new : Request
new = record { header = []; params = []; method = codes "GET"; uri = codes "/"; body = [] }

-- `ParseHeader`. The fuel is a round for each byte and one more.
unfoldable pub parse_header : Map → Bytes → Outcome Map
parse_header m headers =
    pieces field_line field_line (header_split headers) (suc (length headers)) m headers

-- A piece of the parameters.
unfoldable pub param : Map → Bytes → Outcome Map
param m kv = elim (find_byte kv b'=') [
  | none ↦ ok m
  | some p ↦ ok (insert (take p kv) (drop (p + 1) kv) m)
]

-- `ParseParams`.
unfoldable pub parse_params : Map → Bytes → Outcome Map
parse_params m text = pieces param param (b'&' ∷ []) (suc (length text)) m text

-- The URI of the start line, cut at its question mark.
unfoldable pub set_target : Bytes → Request → Outcome Request
set_target uri r = elim (find_byte uri b'?') [
  | none ↦ ok (record r { uri = uri })
  | some p ↦ do
    params ← parse_params r.params (drop (p + 1) uri)
    ok (record r { uri = take p uri; params = params })
]

-- What follows the method.
unfoldable pub parse_target : Bytes → Request → Outcome Request
parse_target rest r = elim (find_byte rest b' ') [
  | none ↦ ok r
  | some p ↦ set_target (take p rest) r
]

-- `ParseStartLine`.
unfoldable pub parse_start_line : Bytes → Request → Outcome Request
parse_start_line line r = elim (find_byte line b' ') [
  | none ↦ ok r
  | some p ↦ parse_target (drop (p + 1) line) (record r { method = take p line })
]

-- The part of `Parse` behind the start line, which ends at `pos` with a mark of `size` bytes.
unfoldable pub parse_rest : Bytes → ℕ → ℕ → Request → Outcome Request
parse_rest content pos size r = do
  let (body, end) = body_at content
  header ← parse_header r.header (header_at content (pos + size) end)
  ok (record r { body = body; header = header })

-- `Parse`.
unfoldable pub parse : Bytes → Request → Outcome Request
parse content r =
    let cleared : Request = record r { header = []; params = [] } in
    elim (first_end content) [
      | none ↦ ok cleared
      | some e ↦ do
        started ← parse_start_line (take e.0 content) cleared
        parse_rest content e.0 e.1 started
    ]

-- `ToString`.
unfoldable pub to_string : Request → Bytes
to_string r =
    r.method
    ++ (b' '
        ∷ (r.uri ++ (codes " HTTP/1.1" ++ (crlf ++ (print_fields r.header ++ (crlf ++ r.body))))))

-- `GetHeaer`: reading a key that is not there makes an entry for it.
unfoldable pub get_header : Bytes → Request → Bytes × Request
get_header key r = elim (lookup key r.header) [
  | none ↦ ([], record r { header = insert key [] r.header })
  | some v ↦ (v, r)
]

unfoldable pub set_header : Bytes → Bytes → Request → Request
set_header key value r = record r { header = insert key value r.header }

-- `GetParam`, of a text and of a number.
unfoldable pub get_param : Bytes → Bytes → Request → Bytes
get_param key def r = elim (lookup key r.params) [ none ↦ def | some v ↦ v ]

unfoldable pub get_number : (Bytes → ℤ) → Bytes → ℤ → Request → ℤ
get_number atoi key def r = elim (lookup key r.params) [ none ↦ def | some v ↦ atoi v ]

unfoldable pub set_uri : Bytes → Request → Request
set_uri uri r = record r { uri = uri }

unfoldable pub set_method : Bytes → Request → Request
set_method method r = record r { method = method }

unfoldable pub set_body : Bytes → Request → Request
set_body body r = record r { body = body }
