-- ===== src/Http/Response.antt =====
-- `CHttpResponse` of net/http_message.h and net/http_message.cc.
use common_cc.Prelude.{
  suc, ◌+◌, none, some, [], ◌∷◌, ◌++◌, length, take, drop, leb, if◌then◌else◌, Bytes, codes,
}
use common_cc.Prelude.Dict.{insert, lookup}
use common_cc.Prelude.Text.{find_byte}
use common_cc.Strings.Numbers.{print_decimal}
use common_cc.Http.Wire.{
  Outcome, ok, out_of_range, ◌>>=◌, Map, crlf, pieces, field_line, put_field, header_split,
  first_end, body_at, header_at, print_fields,
}

pub record Response : Type 0 where
  pub ret_code : Bytes
  pub ret_msg : Bytes
  pub http_version : Bytes
  pub header : Map
  pub body : Bytes

-- The constructor.
abbrev pub new : Response
new = record {
  ret_code = codes "200";
  ret_msg = codes "OK";
  http_version = codes "HTTP/1.1";
  header = [];
  body = [];
}

-- The last line of a header, whose colon is not looked for: `npos + 2` is 1.
unfoldable pub last_line : Map → Bytes → Outcome Map
last_line m line = elim (find_byte line b':') [
  | none ↦ if leb 1 (length line) then ok (insert line (drop 1 line) m) else out_of_range
  | some p ↦ put_field m line p
]

-- `ParseHeader`. The fuel is a round for each byte and one more.
unfoldable pub parse_header : Map → Bytes → Outcome Map
parse_header m headers =
    pieces field_line last_line (header_split headers) (suc (length headers)) m headers

-- What follows the version.
unfoldable pub parse_status : Bytes → Response → Response
parse_status rest r = elim (find_byte rest b' ') [
  | none ↦ r
  | some p ↦ record r { ret_code = take p rest; ret_msg = drop (p + 1) rest }
]

-- `ParseStartLine`.
unfoldable pub parse_start_line : Bytes → Response → Response
parse_start_line line r = elim (find_byte line b' ') [
  | none ↦ r
  | some p ↦ parse_status (drop (p + 1) line) (record r { http_version = take p line })
]

-- `Parse`. The header of an earlier message is not cleared.
unfoldable pub parse : Bytes → Response → Outcome Response
parse content r = elim (first_end content) [
  | none ↦ ok r
  | some e ↦ do
    let started : Response = parse_start_line (take e.0 content) r
    let (body, end) = body_at content
    header ← parse_header started.header (header_at content (e.0 + e.1) end)
    ok (record started { body = body; header = header })
]

-- `SetBody`. Twenty digits are enough for a `size_t`.
unfoldable pub set_body : Bytes → Response → Response
set_body body r = record r {
  body = body;
  header = insert (codes "Content-Length") (print_decimal 20 (length body)) r.header;
}

-- `ToString`.
unfoldable pub to_string : Response → Bytes
to_string r =
    r.http_version
    ++ (b' '
        ∷ (r.ret_code
            ++ (b' ' ∷ (r.ret_msg ++ (crlf ++ (print_fields r.header ++ (crlf ++ r.body)))))))

-- `GetHeaer`: reading a key that is not there makes an entry for it.
unfoldable pub get_header : Bytes → Response → Bytes × Response
get_header key r = elim (lookup key r.header) [
  | none ↦ ([], record r { header = insert key [] r.header })
  | some v ↦ (v, r)
]

unfoldable pub set_header : Bytes → Bytes → Response → Response
set_header key value r = record r { header = insert key value r.header }

unfoldable pub set_http_version : Bytes → Response → Response
set_http_version version r = record r { http_version = version }

unfoldable pub set_ret_code : Bytes → Bytes → Response → Response
set_ret_code code msg r = record r { ret_code = code; ret_msg = msg }
