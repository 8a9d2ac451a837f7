-- ===== src/Url/RoundTrip.antt =====
-- `Decode` undoes `Encode`, and what `Encode` writes.
use common_cc.Prelude.{
  ℕ, ◌+◌, ◌*◌, ◌/◌, ◌%◌, ◌<◌, Bool, true, false, some, [], ◌∷◌, ◌++◌, ◌||◌, ◌==◌, ◌≡◌, refl, arith,
  ◌>>=◌, Bytes, All,
}
use common_cc.Prelude.Ascii.{is_alnum}
use common_cc.Url.{to_hex, from_hex, encode_byte, encode, decode, plain_byte}

abbrev pub IsByte : ℕ → Type 0
IsByte c = c < 256

-- Both hexadecimal digits of a byte are read back.
from_hex-to_hex : (x : ℕ) → x < 16 → from_hex (to_hex x) ≡ some x
unfolding from_hex to_hex
from_hex-to_hex x h = ground arith

-- A byte in front of a text that is plain.
decode_plain :
    (c : ℕ) (s : Bytes)
    → (c == b'%') ≡ false
    → decode (c ∷ s) ≡ (decode s >>= λ rest. some (plain_byte c ∷ rest))
unfolding decode
decode_plain c [] h = rw h
decode_plain c (x ∷ []) h = rw h
decode_plain c (x ∷ y ∷ s) h = rw h

decode_escape :
    (x y : ℕ) (s : Bytes)
    → x < 16
    → y < 16
    → decode (b'%' ∷ to_hex x ∷ to_hex y ∷ s)
      ≡ (decode s >>= λ rest. some ((x * 16 + y) % 256 ∷ rest))
unfolding decode
decode_escape x y s hx hy = rw (from_hex-to_hex x hx, from_hex-to_hex y hy)

-- What one round of `Encode` writes, in front of any text, is read back as its byte.
decode-encode_byte :
    (c : ℕ) (s : Bytes)
    → IsByte c
    → decode (encode_byte c ++ s) ≡ (decode s >>= λ rest. some (c ∷ rest))
unfolding encode_byte is_alnum plain_byte
decode-encode_byte c s h =
    ground (arith, decode_plain c s, decode_plain b'+' s, decode_escape (c / 16) (c % 16) s)

-- Decoding the encoding of any bytes gives those bytes.
pub decode-encode : (s : Bytes) → All IsByte s → decode (encode s) ≡ some s
unfolding encode
decode-encode [] h = unfold decode in refl
decode-encode (c ∷ s) h = rw (decode-encode_byte c (encode s) h.0, decode-encode s h.1)

-- The bytes that an encoded text is made of.
unfoldable pub is_url_byte : ℕ → Bool
is_url_byte c =
    is_alnum c || c == b'-' || c == b'_' || c == b'.' || c == b'~' || c == b'+' || c == b'%'

to_hex_alnum : (x : ℕ) → x < 16 → is_alnum (to_hex x) ≡ true
unfolding to_hex is_alnum
to_hex_alnum x h = ground arith

abbrev pub IsUrlByte : ℕ → Type 0
IsUrlByte c = is_url_byte c ≡ true

All-append : (xs ys : Bytes) → All IsUrlByte xs → All IsUrlByte ys → All IsUrlByte (xs ++ ys)
All-append [] ys h k = k
All-append (x ∷ xs) ys h k = (h.0, All-append xs ys h.1 k)

encode_byte-All : (c : ℕ) → IsByte c → All IsUrlByte (encode_byte c)
unfolding encode_byte is_url_byte
encode_byte-All c h = ground (arith, to_hex_alnum (c / 16), to_hex_alnum (c % 16))

-- The encoding of bytes is made of letters, digits and the bytes `-_.~+%` only.
pub encode-All : (s : Bytes) → All IsByte s → All IsUrlByte (encode s)
unfolding encode
encode-All [] h = tt
encode-All (c ∷ s) h =
    All-append (encode_byte c) (encode s) (encode_byte-All c h.0) (encode-All s h.1)
