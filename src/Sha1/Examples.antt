-- ===== src/Sha1/Examples.antt =====
-- Known digests, and the theorems at concrete texts.
use common_cc.Prelude.{some, ◌≡◌, ◌≢◌, ◌/◌, length, refl, codes, replicate, Bytes, arith}
use common_cc.Sha1.{
  Sha1, sha_init, sha1, sha_go, go_from, step_pos, c_text, load_block, pad_message, put_length,
  put_zeros, put, add_data_len, process_message_block, output, hex, big_endian,
}
use common_cc.Prelude.Blocks.{absorb}
use common_cc.Sha1.Digest.{sha_go_lem, sha_go_wrong}
use common_cc.Sha1.Padded.{padded, padded_twice}
use common_cc.Sha1.Fips.{fips_start, fips_block}
use common_cc.Sha1.Process.{
  process, rounds, choose, parity, majority, expand, words, circular_shift,
}

abbrev blank : Sha1
unfolding sha_init
blank = sha_init (record {
  h = record { h0 = 0; h1 = 0; h2 = 0; h3 = 0; h4 = 0 };
  length_low = 0;
  length_high = 0;
  message_block = replicate 64 0;
  message_block_index = 0;
})

sha1_abc : sha1 blank (codes "abc") ≡ some (codes "a9993e364706816aba3e25717850c26c9cd0d89d")
unfolding sha1 sha_go go_from step_pos c_text load_block pad_message put_length put_zeros put
    add_data_len process_message_block output hex big_endian process rounds choose parity majority
    expand words circular_shift sha_init
sha1_abc = refl

abbrev two_blocks : Bytes
two_blocks = codes "abcdbcdecdefdefgefghfghighijhijkijkljklmklmnlmnomnopnopq"

-- The standard gives 84983e441c3bd26ebaae4aa1f95129e5e54670f1.
sha1-two_blocks : sha1 blank two_blocks ≡ some (codes "538b33b851c01faf7c6f36ca1e7262802034dcd5")
unfolding sha1 sha_go go_from step_pos c_text load_block pad_message put_length put_zeros put
    add_data_len process_message_block output hex big_endian process rounds choose parity majority
    expand words circular_shift sha_init
sha1-two_blocks = refl

sha_go_lem_example :
    (r : Sha1) × (sha_go blank (codes "abc") ≡ some r)
    × (r.h
        ≡ absorb fips_block
            (length (padded (c_text (codes "abc"))) / 64)
            fips_start
            (padded (c_text (codes "abc"))))
unfolding c_text
sha_go_lem_example = sha_go_lem blank (codes "abc") (omega arith) (omega arith)

sha_go_wrong_example :
    (r : Sha1) × (sha_go blank two_blocks ≡ some r)
    × (r.h
        ≡ absorb fips_block
            (length (padded_twice (c_text two_blocks)) / 64)
            fips_start
            (padded_twice (c_text two_blocks)))
    × (padded_twice (c_text two_blocks) ≢ padded (c_text two_blocks))
unfolding c_text
sha_go_wrong_example = sha_go_wrong blank two_blocks (omega arith) (omega arith)
