-- ===== src/Url/Examples.antt =====
-- Runs of the encoder and the decoder, and their theorems at concrete texts.
use common_cc.Prelude.{◌≡◌, refl, none, some, codes, arith, All, ◌∷◌}
use common_cc.Prelude.Ascii.{is_alnum}
use common_cc.Url.{encode, decode}
use common_cc.Url.RoundTrip.{IsUrlByte, decode-encode, encode-All}

encode_query : encode (codes "a b/c~") ≡ codes "a+b%2Fc~"
unfolding encode is_alnum
encode_query = refl

decode_lower : decode (codes "%2f%2B+") ≡ some (codes "/+ ")
unfolding decode
decode_lower = refl

decode_short : decode (codes "ab%2") ≡ none
unfolding decode
decode_short = refl

decode-encode_example : decode (encode (codes "a b/%")) ≡ some (codes "a b/%")
decode-encode_example = decode-encode (codes "a b/%") (omega arith)

encode-All_example : All IsUrlByte (encode (0 ∷ 255 ∷ codes "/"))
encode-All_example = encode-All (0 ∷ 255 ∷ codes "/") (omega arith)
