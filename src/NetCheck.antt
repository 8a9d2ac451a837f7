-- ===== src/NetCheck.antt =====
-- net/net_check.cc: how long the packet at the front of the received bytes is. 0 asks for more
-- bytes, a negative number refuses.
use common_cc.Prelude.{
  ℕ, ◌+◌, ◌-◌, ◌*◌, ◌/◌, ◌%◌, ◌^◌, Option, none, some, [], ◌∷◌, Bytes, codes, length, take, drop,
  ltb, leb, ◌==◌, if◌then◌else◌,
}
use common_cc.Prelude.Int.{ℤ, pos, negsuc}
use common_cc.Prelude.Text.{find}
use common_cc.Prelude.Word.{u32, word, bytes32}
pub mod Framing
mod Examples

abbrev pub pkt_max_len : ℕ
pkt_max_len = 33554432

-- `ntohl`, on a machine that stores the least significant byte first.
unfoldable pub ntohl : ℕ → ℕ
ntohl n = n % 256 * 16777216 + n / 256 % 256 * 65536 + n / 65536 % 256 * 256 + n / 16777216 % 256

-- `net_complete_longconn`, of the bytes of `data`.
unfoldable pub net_complete_longconn : Bytes → ℤ
net_complete_longconn data_bytes =
    let data_len = length data_bytes in
    let total_len = ntohl (word (take 4 data_bytes)) in
    if ltb data_len 4
    then pos 0
    else if ltb pkt_max_len total_len
    then negsuc 0
    else if ltb data_len total_len
    then pos 0
    else pos total_len

-- `net_complete_http`, where `text` are the bytes from `data` to the first zero byte, which `strstr`
-- searches even behind `data_len`, and `atoi` is that of the C library, as the bits of its `int`.
-- A length goes through `unsigned` and is returned as the `int` of the same bits.
unfoldable pub signed : ℕ → ℤ
signed n = if ltb n (2 ^ 31) then pos n else negsuc (2 ^ 32 - 1 - n)

unfoldable pub http_length : (Bytes → ℕ) → Bytes → ℕ → Option ℕ → ℕ → ℤ
http_length atoi text data_len none p = signed (u32 (p + 4))
http_length atoi text data_len (some q) p =
    let pkglen = u32 (p + 4 + atoi (drop (q + 15) text)) in
    if leb pkglen data_len then signed pkglen else pos 0

unfoldable pub http_header : (Bytes → ℕ) → Bytes → ℕ → Option ℕ → ℤ
http_header atoi text data_len (some p) =
    http_length atoi text data_len (find text (codes "Content-Length:")) p
http_header atoi text data_len none = if ltb 10240000 data_len then negsuc 0 else pos 0

unfoldable pub net_complete_http : (Bytes → ℕ) → Bytes → ℕ → ℤ
net_complete_http atoi text data_len =
    if ltb data_len 14
    then pos 0
    else http_header atoi text data_len (find text (13 ∷ 10 ∷ 13 ∷ 10 ∷ []))
