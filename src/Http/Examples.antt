-- ===== src/Http/Examples.antt =====
-- Runs of the parsers of messages, and their theorems at concrete messages.
use common_cc.Prelude.{◌≡◌, refl, suc, [], ◌∷◌, ◌++◌, Bytes, codes, length}
use common_cc.Prelude.Dict.{insert, same_text, text_less}
use common_cc.Prelude.Order.{IsMap}
use common_cc.Prelude.Text.{find, find_byte, starts_with}
use common_cc.Http.Wire.{
  ok, out_of_range, ◌>>=◌, crlf, pieces, put_field, field_line, header_split, first_end, body_at,
  header_at,
}
use common_cc.Http.Walk.{Yields}
use common_cc.Http.Fields.{AreFields}
use common_cc.Http.Request
use common_cc.Http.Request.{Request}
use common_cc.Http.Response
use common_cc.Http.Response.{Response}
use common_cc.Http.RoundTrip.{IsRequest, request_round_trip, request_without_header}
use common_cc.Http.Reply.{IsResponse, response_round_trip}
use common_cc.Http.Ends.{HasMaps, parse-Yields}

abbrev text : Bytes
text =
    codes "GET /a?x=1&y=2 HTTP/1.1"
    ++ (crlf ++ (codes "Host: h" ++ (crlf ++ (crlf ++ codes "body"))))

text_is_parsed :
    Request.parse text Request.new
    ≡ ok (record {
      header = (codes "Host", codes "h") ∷ [];
      params = (codes "x", codes "1") ∷ (codes "y", codes "2") ∷ [];
      method = codes "GET";
      uri = codes "/a";
      body = codes "body";
    })
unfolding Request.parse Request.parse_rest Request.parse_header Request.parse_start_line
    Request.parse_target Request.set_target Request.parse_params Request.param pieces put_field
    field_line header_split first_end body_at header_at find find_byte starts_with insert same_text
    text_less
text_is_parsed = refl

-- A response whose last line of a header is empty, as when there is no header and no body.
no_header_throws :
    Response.parse (codes "HTTP/1.1 200 OK" ++ (crlf ++ crlf)) Response.new ≡ out_of_range
unfolding Response.parse Response.parse_header Response.parse_start_line Response.parse_status
    Response.last_line pieces put_field field_line header_split first_end body_at header_at find
    find_byte starts_with
no_header_throws = refl

abbrev request : Request
request = record {
  header = (codes "a", codes "1") ∷ (codes "b", []) ∷ [];
  params = [];
  method = codes "P";
  uri = codes "/";
  body = codes "x";
}

request-AreFields : AreFields request.header
request-AreFields = (
  record {
    no_colon = (refl, tt);
    no_cr = (refl, (refl, (refl, (refl, tt))));
    no_lf = (refl, (refl, (refl, (refl, tt))));
  },
  (
    record {
      no_colon = (refl, tt);
      no_cr = (refl, (refl, (refl, tt)));
      no_lf = (refl, (refl, (refl, tt)));
    },
    tt,
  ),
)

request-IsMap : IsMap request.header
unfolding text_less
request-IsMap = ((refl, tt), (tt, tt))

request-IsRequest : IsRequest request
request-IsRequest = record {
  method_word = (refl, tt);
  uri_word = (refl, tt);
  uri_path = (refl, tt);
  method_line = (refl, tt);
  uri_line = (refl, tt);
  keys = request-IsMap;
  fields = request-AreFields;
}

request_round_trip_example :
    Request.parse (Request.to_string request) Request.new ≡ ok (record request { params = [] })
request_round_trip_example =
    request_round_trip request Request.new (codes "a") (codes "1") ((codes "b", []) ∷ [])
      request-IsRequest refl

abbrev bare : Request
bare = record request { header = []; body = codes ":" }

bare-IsRequest : IsRequest bare
bare-IsRequest = record {
  method_word = (refl, tt);
  uri_word = (refl, tt);
  uri_path = (refl, tt);
  method_line = (refl, tt);
  uri_line = (refl, tt);
  keys = tt;
  fields = tt;
}

request_without_header_example : Request.parse (Request.to_string bare) Request.new ≡ (
    pieces field_line field_line crlf (suc (suc (length bare.body))) [] bare.body
    >>= (λ header. ok (record bare { header = header; params = [] })))
request_without_header_example = request_without_header bare Request.new bare-IsRequest refl

-- The body `:` is no field that can be cut out.
bare_throws : pieces field_line field_line crlf 3 [] (codes ":") ≡ out_of_range
unfolding pieces field_line put_field find find_byte starts_with
bare_throws = refl

abbrev response : Response
response = record {
  ret_code = codes "2";
  ret_msg = codes "K";
  http_version = codes "H";
  header = request.header;
  body = codes "x";
}

response-IsResponse : IsResponse response
response-IsResponse = record {
  version_word = (refl, tt);
  code_word = (refl, tt);
  start = (refl, (refl, (refl, (refl, (refl, tt)))));
  keys = request-IsMap;
  fields = request-AreFields;
}

response_round_trip_example :
    Response.parse (Response.to_string response) Response.new ≡ ok response
response_round_trip_example =
    response_round_trip response Response.new (codes "a") (codes "1") ((codes "b", []) ∷ [])
      response-IsResponse refl refl

parse-Yields_example :
    Yields HasMaps (Request.parse text Request.new)
    × Yields (λ q. IsMap q.header) (Response.parse text Response.new)
parse-Yields_example = parse-Yields text Request.new Response.new tt
