-- ===== src/Url.antt =====
-- `CUrl` of utils/url.h and utils/url.cpp: percent-encoding of bytes, and its inverse.
mod RoundTrip
mod Examples
use common_cc.Prelude.{
  ℕ, ◌+◌, ◌-◌, ◌*◌, ◌/◌, ◌%◌, Bool, Option, none, some, [], ◌∷◌, ◌++◌, ◌&&◌, ◌||◌, ltb, leb, ◌==◌,
  if◌then◌else◌, ◌>>=◌, Bytes,
}
use common_cc.Prelude.Ascii.{is_alnum}

-- `ToHex`, in `unsigned char`.
pub to_hex : ℕ → ℕ
to_hex x = if ltb 9 x then (x + 55) % 256 else (x + 48) % 256

-- `FromHex`. `none` is the failed assertion.
pub from_hex : ℕ → Option ℕ
from_hex x =
    if leb b'A' x && leb x b'Z'
    then some (x - b'A' + 10)
    else if leb b'a' x && leb x b'z'
    then some (x - b'a' + 10)
    else if leb b'0' x && leb x b'9'
    then some (x - b'0')
    else none

-- What one round of `Encode` appends.
pub encode_byte : ℕ → Bytes
unfolding to_hex
encode_byte c =
    if is_alnum c || c == b'-' || c == b'_' || c == b'.' || c == b'~'
    then c ∷ []
    else if c == b' '
    then b'+' ∷ []
    else b'%' ∷ to_hex (c / 16) ∷ to_hex (c % 16) ∷ []

pub encode : Bytes → Bytes
unfolding encode_byte
encode [] = []
encode (c ∷ s) = encode_byte c ++ encode s

-- What one round of `Decode` appends for a byte that is not `%`.
plain_byte : ℕ → ℕ
plain_byte c = if c == b'+' then b' ' else c

-- `Decode`. The assertion on the length fails where two bytes do not follow a `%`.
pub decode : Bytes → Option Bytes
unfolding from_hex plain_byte
decode [] = some []
decode (c ∷ []) = if c == b'%' then none else some (plain_byte c ∷ [])
decode (c ∷ h ∷ []) =
    let plain : Option Bytes = do rest ← decode (h ∷ []); some (plain_byte c ∷ rest)
    in if c == b'%' then none else plain
decode (c ∷ h ∷ l ∷ s) =
    let escaped : Option Bytes = do
      high ← from_hex h
      low ← from_hex l
      rest ← decode s
      some ((high * 16 + low) % 256 ∷ rest)
    in let plain : Option Bytes = do rest ← decode (h ∷ l ∷ s); some (plain_byte c ∷ rest)
      in if c == b'%' then escaped else plain
