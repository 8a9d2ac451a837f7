-- ===== src/Md5/Examples.antt =====
-- Known digests, and the theorems at concrete texts.
use common_cc.Prelude.{◌≡◌, ◌>>=◌, refl, true, some, codes, replicate, List, Bytes, [], ◌∷◌, arith}
use common_cc.Prelude.Memory.{store}
use common_cc.Prelude.Word.{word, bytes32}
use common_cc.Md5.Padding.{updates, concat, rfc_digest, updates_lem, digest_hex_lem}
use common_cc.Md5.{
  Md5, digest_hex, of_text, init, update, finalize, close, fill, counted, transform_blocks,
  encode_state, hexdigest, hex,
}
use common_cc.Md5.Rfc.{rfc_hex}
use common_cc.Md5.Transform.{transform, round, round_word, rotate_left, f1, g1, h1, i1, decode}

digest_hex_abc :
    digest_hex (replicate 64 0) [] (codes "abc") ≡ some (codes "900150983cd24fb0d6963f7d28e17f72")
unfolding digest_hex of_text init update finalize close fill counted transform_blocks encode_state
    hexdigest hex transform round round_word rotate_left f1 g1 h1 i1 decode store word bytes32
digest_hex_abc = refl

abbrev pieces : List Bytes
pieces = codes "message " ∷ codes "digest" ∷ []

updates_lem_example :
    (m' : Md5) × ((updates (init (replicate 64 7) []) pieces >>= finalize) ≡ some m')
    × (m'.digest ≡ rfc_digest (concat pieces))
    × (m'.finalized ≡ true)
updates_lem_example = updates_lem (replicate 64 7) [] pieces refl (omega arith)

digest_hex_lem_example :
    digest_hex (replicate 64 7) [] (codes "abc") ≡ some (rfc_hex (rfc_digest (codes "abc")))
digest_hex_lem_example = digest_hex_lem (replicate 64 7) [] (codes "abc") refl (omega arith)
