-- ===== src/Md5.antt =====
-- `MD5` of utils/md5.h and utils/md5.cpp: the digest of bytes that arrive in pieces. The work on
-- one block stands in Md5/Transform.
pub mod Transform
pub mod Blocks
pub mod Stream
pub mod Padding
pub mod Rfc
mod Examples
use common_cc.Prelude.{
  ℕ, zero, suc, ◌+◌, ◌-◌, ◌*◌, ◌/◌, ◌%◌, ◌^◌, Bool, true, false, Option, none, some, [], ◌∷◌, ◌++◌,
  replicate, take, drop, length, ltb, leb, if◌then◌else◌, ◌>>=◌, Bytes,
}
use common_cc.Prelude.Memory.{store}
use common_cc.Prelude.Word.{u32, bytes32}
use common_cc.Md5.Transform.{State, transform}

-- `MD5`, with the two words of `count`.
pub record Md5 : Type 0 where
  pub finalized : Bool
  pub buffer : Bytes
  pub count_lo : ℕ
  pub count_hi : ℕ
  pub state : State
  pub digest : Bytes

-- `init`. What the buffer and the digest hold before is left open.
unfoldable pub init : Bytes → Bytes → Md5
init buffer digest = record {
  finalized = false;
  buffer = buffer;
  count_lo = 0;
  count_hi = 0;
  state = record { a = 0x67452301; b = 0xefcdab89; c = 0x98badcfe; d = 0x10325476 };
  digest = digest;
}

-- `encode`, of the words of the state.
unfoldable pub encode_state : State → Bytes
encode_state s = bytes32 s.a ++ (bytes32 s.b ++ (bytes32 s.c ++ bytes32 s.d))

-- The loop of `update` over whole blocks of the input, which is at a position, and the input that it
-- leaves. The sum of the test wraps around; `none` is a block behind the end of the input. The fuel
-- is the number of rounds still allowed.
unfoldable pub transform_blocks : ℕ → State → ℕ → Bytes → Option (State × Bytes)
transform_blocks zero s i input = none
transform_blocks (suc fuel) s i input =
    let more = transform_blocks fuel (transform s (take 64 input)) (i + 64) (drop 64 input) in
    let next = if leb 64 (length input) then more else none in
    if leb (u32 (i + 64)) (i + length input) then next else some (s, input)

-- The counting of bits in `update`, in two words.
unfoldable pub counted : ℕ → Md5 → Md5
counted len m =
    let bits = u32 (len * 8) in
    let lo = u32 (m.count_lo + bits) in
    let carried = if ltb lo bits then u32 (m.count_hi + 1) else m.count_hi in
    record m { count_lo = lo; count_hi = u32 (carried + len / 2 ^ 29) }

-- The rest of `update`, which fills the buffer from `index`.
unfoldable pub fill : ℕ → Md5 → Bytes → Option Md5
fill index m input =
    let part = 64 - index in
    let whole : Option Md5 = do
      full ← store m.buffer index (take part input)
      (s, rest) ←
          transform_blocks (suc (length input)) (transform m.state full) part (drop part input)
      kept ← store full 0 rest
      some (record m { state = s; buffer = kept })
    in let piece : Option Md5 = do
      kept ← store m.buffer index input
      some (record m { buffer = kept })
      in if leb part (length input) then whole else piece

-- `update`. `none` is a copy outside the buffer.
unfoldable pub update : Md5 → Bytes → Option Md5
update m input = fill (m.count_lo / 8 % 64) (counted (length input) m) input

abbrev pub padding : Bytes
padding = 0x80 ∷ replicate 63 0

-- `finalize` of an object that is not finalized.
unfoldable pub close : Md5 → Option Md5
close m = do
  let bits = bytes32 m.count_lo ++ bytes32 m.count_hi
  let index = m.count_lo / 8 % 64
  let pad_len = if ltb index 56 then 56 - index else 120 - index
  padded ← update m (take pad_len padding)
  full ← update padded bits
  some (record full {
    digest = encode_state full.state;
    buffer = replicate 64 0;
    count_lo = 0;
    count_hi = 0;
    finalized = true;
  })

-- `finalize`.
unfoldable pub finalize : Md5 → Option Md5
finalize m = if m.finalized then some m else close m

-- `hexdigest`: `sprintf` with `%02x` of each byte.
unfoldable pub hex_digit : ℕ → ℕ
hex_digit x = if ltb x 10 then b'0' + x else b'a' + x - 10

unfoldable pub hex : Bytes → Bytes
unfolding hex_digit
hex [] = []
hex (x ∷ s) = hex_digit (x / 16) ∷ hex_digit (x % 16) ∷ hex s

unfoldable pub hexdigest : Md5 → Bytes
hexdigest m = if m.finalized then hex m.digest else []

-- The constructor from a text, and `DigestHex`.
unfoldable pub of_text : Bytes → Bytes → Bytes → Option Md5
of_text buffer digest text = do m ← update (init buffer digest) text; finalize m

unfoldable pub digest_hex : Bytes → Bytes → Bytes → Option Bytes
digest_hex buffer digest text = do m ← of_text buffer digest text; some (hexdigest m)
