-- ===== src/NetCheck/Examples.antt =====
-- Runs of the tests of completeness, and their theorems at concrete bytes.
use common_cc.Prelude.{ℕ, ◌%◌, ◌≤◌, ◌≡◌, refl, [], ◌∷◌, ◌++◌, Bytes, codes, length}
use common_cc.Prelude.Int.{pos}
use common_cc.Prelude.Text.{find, starts_with}
use common_cc.Prelude.Word.{word}
use common_cc.NetCheck.{
  pkt_max_len, ntohl, net_complete_longconn, net_complete_http, http_header, http_length, signed,
}
use common_cc.NetCheck.Framing.{longconn_length}

abbrev payload : Bytes
payload = 1 ∷ 2 ∷ []

abbrev packet : Bytes
packet = 0 ∷ 0 ∷ 0 ∷ 6 ∷ 1 ∷ 2 ∷ []

packet_length : net_complete_longconn (packet ++ (9 ∷ [])) ≡ pos 6
unfolding net_complete_longconn ntohl word
packet_length = refl

longconn_length_example :
    (6 ≤ length packet) × (6 ≤ pkt_max_len) × (net_complete_longconn (packet ++ (9 ∷ [])) ≡ pos 6)
unfolding net_complete_longconn ntohl word
longconn_length_example = longconn_length packet (9 ∷ []) 5 refl

-- An `atoi` that reads one digit.
abbrev one_digit : Bytes → ℕ
one_digit [] = 0
one_digit (c ∷ s) = c % 16

abbrev request : Bytes
request = codes "Content-Length:2" ++ (13 ∷ 10 ∷ 13 ∷ 10 ∷ codes "hi")

request_length : net_complete_http one_digit request 22 ≡ pos 22
unfolding net_complete_http http_header http_length signed find starts_with
request_length = refl
