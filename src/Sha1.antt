-- ===== src/Sha1.antt =====
-- `SHA1` of utils/sha1.h and utils/sha1.cpp: the digest of a text.
pub mod Process
pub mod Padding
pub mod Fips
pub mod Padded
pub mod Digest
mod Examples
use common_cc.Prelude.{
  ℕ, zero, suc, ◌+◌, ◌-◌, ◌*◌, ◌/◌, ◌%◌, ◌^◌, Bool, Option, none, some, [], ◌∷◌, ◌++◌, replicate,
  set, take, drop, length, ltb, leb, ◌==◌, if◌then◌else◌, ◌>>=◌, Bytes,
}
use common_cc.Prelude.Word.{u32}
use common_cc.Sha1.Process.{Hash, process}

-- `SHA1`.
pub record Sha1 : Type 0 where
  pub h : Hash
  pub length_low : ℕ
  pub length_high : ℕ
  pub message_block : Bytes
  pub message_block_index : ℕ

-- `SHAInit`. The block is left as it is.
unfoldable pub sha_init : Sha1 → Sha1
sha_init s = record s {
  length_low = 0;
  length_high = 0;
  message_block_index = 0;
  h = record {
    h0 = 0x67452301;
    h1 = 0xEFCDAB89;
    h2 = 0x98BADCFE;
    h3 = 0x10325476;
    h4 = 0xC3D2E1F0;
  };
}

-- `AddDataLen`.
unfoldable pub add_data_len : ℕ → Sha1 → Sha1
add_data_len len s =
    let bits = u32 (len * 8) in
    let low = u32 (s.length_low + bits) in
    let carried = if ltb low bits then u32 (s.length_high + 1) else s.length_high in
    record s {
      message_block_index = len;
      length_low = low;
      length_high = u32 (carried + len / 2 ^ 29);
    }

-- `Message_Block[Message_Block_Index++] = b`.
unfoldable pub put : ℕ → Sha1 → Sha1
put b s = record s {
  message_block = set s.message_block s.message_block_index b;
  message_block_index = s.message_block_index + 1;
}

-- The loops of `PadMessage`, by the number of their rounds.
unfoldable pub put_zeros : ℕ → Sha1 → Sha1
put_zeros zero s = s
put_zeros (suc n) s = put_zeros n (put 0 s)

-- `while (Message_Block_Index < end)`.
abbrev pub zeros_until : ℕ → Sha1 → Sha1
zeros_until end s = put_zeros (end - s.message_block_index) s

-- `ProcessMessageBlock`.
unfoldable pub process_message_block : Sha1 → Sha1
process_message_block s = record s { h = process s.h s.message_block }

-- The four bytes of a word, the most significant first.
unfoldable pub big_endian : ℕ → Bytes
big_endian n = n / 16777216 % 256 ∷ n / 65536 % 256 ∷ n / 256 % 256 ∷ n % 256 ∷ []

-- The end of `PadMessage`: the length goes into the last 8 bytes.
unfoldable pub put_length : Sha1 → Sha1
put_length s = record s {
  message_block = take 56 s.message_block ++ (big_endian s.length_high ++ big_endian s.length_low);
}

-- `PadMessage`. `ProcessMessageBlock` leaves the index at 64, so the last loop has no round.
unfoldable pub pad_message : Sha1 → Sha1
pad_message s =
    let long = zeros_until 56 (process_message_block (zeros_until 64 (put 0x80 s))) in
    let short = zeros_until 56 (put 0x80 s) in
    process_message_block (put_length (if ltb 55 s.message_block_index then long else short))

-- `memset` and `memcpy` of `SHA_GO`: the bytes, and zeros up to 64.
unfoldable pub load_block : Bytes → Sha1 → Sha1
load_block bytes s = record s { message_block = bytes ++ replicate (64 - length bytes) 0 }

-- A step of `pos`, which is an `int`: `none` is its overflow.
unfoldable pub step_pos {ℓ} : {A : Type ℓ} → ℕ → Option A → Option A
step_pos pos next = if ltb (pos + 64) (2 ^ 31) then next else none

-- The loop of `SHA_GO`, on the input from `pos`. The fuel is the number of rounds still allowed.
unfoldable pub go_from : ℕ → Sha1 → ℕ → Bytes → Option Sha1
go_from zero s pos input = none
go_from (suc fuel) s pos input =
    let full = process_message_block (add_data_len 64 (load_block (take 64 input) s)) in
    let more = go_from fuel (add_data_len 0 full) (pos + 64) (drop 64 input) in
    let last = pad_message (add_data_len (length input) (load_block input s)) in
    if leb 64 (length input) then step_pos pos more else step_pos pos (some last)

-- The bytes of a C string: those before the first zero byte.
unfoldable pub c_text : Bytes → Bytes
c_text [] = []
c_text (c ∷ s) = let rest = c_text s in if c == 0 then [] else c ∷ rest

-- `SHA_GO` up to the output, of a pointer that is not null. The length is cut to an `int`: where that
-- is negative, the loop has no round.
unfoldable pub sha_go : Sha1 → Bytes → Option Sha1
sha_go s input =
    let text = c_text input in
    let len = length text % 2 ^ 32 in
    let run = go_from (len + 1) (sha_init s) 0 (take len text) in
    if ltb len (2 ^ 31) then run else some (sha_init s)

-- `sprintf` with `%08x` of the five words.
unfoldable pub hex_digit : ℕ → ℕ
hex_digit x = if ltb x 10 then b'0' + x else b'a' + x - 10

unfoldable pub hex : Bytes → Bytes
unfolding hex_digit
hex [] = []
hex (x ∷ s) = hex_digit (x / 16) ∷ hex_digit (x % 16) ∷ hex s

unfoldable pub output : Hash → Bytes
output h = hex (
    big_endian h.h0
    ++ (big_endian h.h1 ++ (big_endian h.h2 ++ (big_endian h.h3 ++ big_endian h.h4))))

-- `Sha1`.
unfoldable pub sha1 : Sha1 → Bytes → Option Bytes
sha1 s str = do r ← sha_go s str; some (output r.h)
