-- ===== src/Sha1/Fips.antt =====
-- The work on one block as FIPS 180-1 has it, from its constants and formulas, and that
-- `SHA1::ProcessMessageBlock` does it.
use Prim.Native.Nat.{bit_and, bit_or, bit_xor}
use common_cc.Prelude.{
  ℕ, zero, suc, ◌+◌, ◌-◌, ◌*◌, ◌/◌, ◌^◌, ◌≡◌, ◌∙◌, refl, ap, List, [], ◌∷◌, ◌++◌, Bytes, get_or,
  take, drop,
}
use common_cc.Prelude.Word.{u32}
use common_cc.Prelude.Blocks.{absorb}
use common_cc.Sha1.Process.{
  Hash, circular_shift, words, expand, choose, parity, majority, rounds, process,
}

-- The five words before the first block.
abbrev pub fips_start : Hash
fips_start = record {
  h0 = 0x67452301;
  h1 = 0xefcdab89;
  h2 = 0x98badcfe;
  h3 = 0x10325476;
  h4 = 0xc3d2e1f0;
}

-- S^n(X), on words of 32 bits.
abbrev fips_shift : ℕ → ℕ → ℕ
fips_shift n x = bit_or (u32 (x * 2 ^ n)) (u32 x / 2 ^ (32 - n))

abbrev fips_not : ℕ → ℕ
fips_not x = 0xffffffff - x

-- f(t; B, C, D) from t = 0, from t = 20 and from t = 60, and from t = 40 on.
abbrev fips_choose : ℕ → ℕ → ℕ → ℕ
fips_choose b c d = bit_or (bit_and b c) (bit_and (fips_not b) d)

abbrev fips_parity : ℕ → ℕ → ℕ → ℕ
fips_parity b c d = bit_xor (bit_xor b c) d

abbrev fips_majority : ℕ → ℕ → ℕ → ℕ
fips_majority b c d = bit_or (bit_or (bit_and b c) (bit_and b d)) (bit_and c d)

-- The words of the block, high byte first.
fips_words : ℕ → Bytes → List ℕ
fips_words zero block = []
fips_words (suc n) block =
    (get_or block 0 0 * 2 ^ 24
      + get_or block 1 0 * 2 ^ 16
      + get_or block 2 0 * 2 ^ 8
      + get_or block 3 0)
    ∷ fips_words n (drop 4 block)

-- W(t) = S^1(W(t-3) XOR W(t-8) XOR W(t-14) XOR W(t-16)), for n words from t on.
fips_expand : ℕ → ℕ → List ℕ → List ℕ
fips_expand zero t w = w
fips_expand (suc n) t w =
    let before : ℕ → ℕ = λ k. get_or w (t - k) 0 in
    let mixed = bit_xor (bit_xor (bit_xor (before 3) (before 8)) (before 14)) (before 16) in
    fips_expand n (t + 1) (w ++ (fips_shift 1 mixed ∷ []))

-- TEMP = S^5(A) + f(B, C, D) + E + W(t) + K, and E = D, D = C, C = S^30(B), B = A, A = TEMP.
fips_steps : (ℕ → ℕ → ℕ → ℕ) → ℕ → List ℕ → Hash → Hash
fips_steps f k [] s = s
fips_steps f k (w ∷ ws) s = fips_steps f k ws (record {
  h0 = u32 (fips_shift 5 s.h0 + f s.h1 s.h2 s.h3 + s.h4 + w + k);
  h1 = s.h0;
  h2 = fips_shift 30 s.h1;
  h3 = s.h2;
  h4 = s.h3;
})

-- Twenty steps from t on.
abbrev twenty : (ℕ → ℕ → ℕ → ℕ) → ℕ → ℕ → List ℕ → Hash → Hash
twenty f k t w s = fips_steps f k (take 20 (drop t w)) s

-- The 80 steps on a block, and the sums with the words before.
pub fips_block : Hash → Bytes → Hash
fips_block s block =
    let w = fips_expand 64 16 (fips_words 16 block) in
    let one = twenty fips_choose 0x5a827999 0 w s in
    let two = twenty fips_parity 0x6ed9eba1 20 w one in
    let three = twenty fips_majority 0x8f1bbcdc 40 w two in
    let t = twenty fips_parity 0xca62c1d6 60 w three in
    record {
      h0 = u32 (s.h0 + t.h0);
      h1 = u32 (s.h1 + t.h1);
      h2 = u32 (s.h2 + t.h2);
      h3 = u32 (s.h3 + t.h3);
      h4 = u32 (s.h4 + t.h4);
    }

words-fips_words : (n : ℕ) (block : Bytes) → words n block ≡ fips_words n block
unfolding words fips_words
words-fips_words zero block = refl
words-fips_words (suc n) block = rw (words-fips_words n (drop 4 block)) refl

expand-fips_expand : (n t : ℕ) (w : List ℕ) → expand n t w ≡ fips_expand n t w
unfolding expand fips_expand circular_shift
expand-fips_expand zero t w = refl
expand-fips_expand (suc n) t w = expand-fips_expand n (t + 1) _

rounds-fips_steps :
    (f : ℕ → ℕ → ℕ → ℕ) (k : ℕ) (ws : List ℕ) (s : Hash) → rounds f k ws s ≡ fips_steps f k ws s
unfolding rounds fips_steps circular_shift
rounds-fips_steps f k [] s = refl
rounds-fips_steps f k (w ∷ ws) s = rounds-fips_steps f k ws _

process-fips_block : (s : Hash) (block : Bytes) → process s block ≡ fips_block s block
unfolding process fips_block choose parity majority
process-fips_block s block =
    rw
      (
        words-fips_words 16 block,
        expand-fips_expand 64 16 (fips_words 16 block),
        rounds-fips_steps fips_choose,
        rounds-fips_steps fips_parity,
        rounds-fips_steps fips_majority,
        rounds-fips_steps fips_parity,
      )
      refl

pub absorb-fips_block :
    (n : ℕ) (s : Hash) (msg : Bytes) → absorb process n s msg ≡ absorb fips_block n s msg
unfolding absorb
absorb-fips_block zero s msg = refl
absorb-fips_block (suc n) s msg =
    ap (λ t. absorb process n t (drop 64 msg)) (process-fips_block s (take 64 msg))
    ∙ absorb-fips_block n (fips_block s (take 64 msg)) (drop 64 msg)
