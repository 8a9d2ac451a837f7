-- ===== src/Sha1/Process.antt =====
-- `SHA1::ProcessMessageBlock` of utils/sha1.cpp: 80 rounds on five words.
use Prim.Native.Nat.{bit_and, bit_or, bit_xor}
use common_cc.Prelude.{
  ℕ, zero, suc, ◌+◌, ◌-◌, ◌*◌, ◌/◌, ◌^◌, List, [], ◌∷◌, ◌++◌, Bytes, get_or, take, drop,
}
use common_cc.Prelude.Word.{u32}

-- The five words of `H`, and `A` to `E`.
pub record Hash : Type 0 where
  pub h0 : ℕ
  pub h1 : ℕ
  pub h2 : ℕ
  pub h3 : ℕ
  pub h4 : ℕ

-- `~x` on 32 bits.
abbrev complement : ℕ → ℕ
complement x = 2 ^ 32 - 1 - x

-- `CircularShift`.
unfoldable pub circular_shift : ℕ → ℕ → ℕ
circular_shift bits w = bit_or (u32 (w * 2 ^ bits)) (u32 w / 2 ^ (32 - bits))

-- The first 16 words of `W`, from the block. The bytes do not overlap: the sum is their `|`.
unfoldable pub words : ℕ → Bytes → List ℕ
words zero block = []
words (suc n) block =
    (get_or block 0 0 * 16777216
      + get_or block 1 0 * 65536
      + get_or block 2 0 * 256
      + get_or block 3 0)
    ∷ words n (drop 4 block)

-- The other words of `W`, by the number of them still to come and the index of the next.
unfoldable pub expand : ℕ → ℕ → List ℕ → List ℕ
expand zero t w = w
expand (suc n) t w =
    let mixed =
      bit_xor (bit_xor (bit_xor (get_or w (t - 3) 0) (get_or w (t - 8) 0)) (get_or w (t - 14) 0))
        (get_or w (t - 16) 0) in
    expand n (t + 1) (w ++ (circular_shift 1 mixed ∷ []))

-- The functions of the four loops.
unfoldable pub choose : ℕ → ℕ → ℕ → ℕ
choose b c d = bit_or (bit_and b c) (bit_and (complement b) d)

unfoldable pub parity : ℕ → ℕ → ℕ → ℕ
parity b c d = bit_xor (bit_xor b c) d

unfoldable pub majority : ℕ → ℕ → ℕ → ℕ
majority b c d = bit_or (bit_or (bit_and b c) (bit_and b d)) (bit_and c d)

-- One of the four loops, over its words of `W`.
unfoldable pub rounds : (ℕ → ℕ → ℕ → ℕ) → ℕ → List ℕ → Hash → Hash
rounds f k [] s = s
rounds f k (w ∷ ws) s =
    let temp = u32 (circular_shift 5 s.h0 + f s.h1 s.h2 s.h3 + s.h4 + w + k) in
    rounds f k ws
      (record { h0 = temp; h1 = s.h0; h2 = circular_shift 30 s.h1; h3 = s.h2; h4 = s.h3 })

-- `ProcessMessageBlock`, on `H` and the block.
unfoldable pub process : Hash → Bytes → Hash
process s block =
    let w = expand 64 16 (words 16 block) in
    let one = rounds choose 0x5A827999 (take 20 w) s in
    let two = rounds parity 0x6ED9EBA1 (take 20 (drop 20 w)) one in
    let three = rounds majority 0x8F1BBCDC (take 20 (drop 40 w)) two in
    let four = rounds parity 0xCA62C1D6 (take 20 (drop 60 w)) three in
    record {
      h0 = u32 (s.h0 + four.h0);
      h1 = u32 (s.h1 + four.h1);
      h2 = u32 (s.h2 + four.h2);
      h3 = u32 (s.h3 + four.h3);
      h4 = u32 (s.h4 + four.h4);
    }
