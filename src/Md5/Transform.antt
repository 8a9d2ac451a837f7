-- ===== src/Md5/Transform.antt =====
-- `MD5::transform` of utils/md5.cpp: 64 steps on four words.
use Prim.Native.Nat.{bit_and, bit_or, bit_xor}
use common_cc.Prelude.{
  ℕ, zero, suc, ◌+◌, ◌-◌, ◌*◌, ◌/◌, ◌^◌, List, [], ◌∷◌, Bytes, get_or, take, drop,
}
use common_cc.Prelude.Word.{u32, word}

-- The four words of `state`.
pub record State : Type 0 where
  pub a : ℕ
  pub b : ℕ
  pub c : ℕ
  pub d : ℕ

-- `~x` on 32 bits.
abbrev complement : ℕ → ℕ
complement x = 2 ^ 32 - 1 - x

-- `F1`, `G1`, `H1` and `I1`.
unfoldable pub f1 : ℕ → ℕ → ℕ → ℕ
f1 x y z = bit_or (bit_and x y) (bit_and (complement x) z)

unfoldable pub g1 : ℕ → ℕ → ℕ → ℕ
g1 x y z = bit_or (bit_and x z) (bit_and y (complement z))

unfoldable pub h1 : ℕ → ℕ → ℕ → ℕ
h1 x y z = bit_xor (bit_xor x y) z

unfoldable pub i1 : ℕ → ℕ → ℕ → ℕ
i1 x y z = bit_xor y (bit_or x (complement z))

unfoldable pub rotate_left : ℕ → ℕ → ℕ
rotate_left x n = bit_or (u32 (x * 2 ^ n)) (x / 2 ^ (32 - n))

-- `FF1` to `II1`, which differ in their function: the new value of `a`.
unfoldable pub round_word : (ℕ → ℕ → ℕ → ℕ) → State → ℕ → ℕ → ℕ → ℕ
round_word f s x shift ac = u32 (rotate_left (u32 (s.a + f s.b s.c s.d + x + ac)) shift + s.b)

-- The index of the word of the block, the shift and the constant of a step.
pub data Step : Type 0 where
  step : ℕ → ℕ → ℕ → Step

-- The steps of a round in their order. The source names the words in another order in each step,
-- `(d, a, b, c)` after `(a, b, c, d)`: here the words move on.
unfoldable pub round : (ℕ → ℕ → ℕ → ℕ) → List Step → List ℕ → State → State
round f [] x s = s
round f (step i shift ac ∷ steps) x s =
    let new = round_word f s (get_or x i 0) shift ac in
    round f steps x (record { a = s.d; b = new; c = s.b; d = s.c })

abbrev pub round_1 : List Step
round_1 =
    step 0 7 0xd76aa478
    ∷ step 1 12 0xe8c7b756
    ∷ step 2 17 0x242070db
    ∷ step 3 22 0xc1bdceee
    ∷ step 4 7 0xf57c0faf
    ∷ step 5 12 0x4787c62a
    ∷ step 6 17 0xa8304613
    ∷ step 7 22 0xfd469501
    ∷ step 8 7 0x698098d8
    ∷ step 9 12 0x8b44f7af
    ∷ step 10 17 0xffff5bb1
    ∷ step 11 22 0x895cd7be
    ∷ step 12 7 0x6b901122
    ∷ step 13 12 0xfd987193
    ∷ step 14 17 0xa679438e
    ∷ step 15 22 0x49b40821
    ∷ []

abbrev pub round_2 : List Step
round_2 =
    step 1 5 0xf61e2562
    ∷ step 6 9 0xc040b340
    ∷ step 11 14 0x265e5a51
    ∷ step 0 20 0xe9b6c7aa
    ∷ step 5 5 0xd62f105d
    ∷ step 10 9 0x2441453
    ∷ step 15 14 0xd8a1e681
    ∷ step 4 20 0xe7d3fbc8
    ∷ step 9 5 0x21e1cde6
    ∷ step 14 9 0xc33707d6
    ∷ step 3 14 0xf4d50d87
    ∷ step 8 20 0x455a14ed
    ∷ step 13 5 0xa9e3e905
    ∷ step 2 9 0xfcefa3f8
    ∷ step 7 14 0x676f02d9
    ∷ step 12 20 0x8d2a4c8a
    ∷ []

abbrev pub round_3 : List Step
round_3 =
    step 5 4 0xfffa3942
    ∷ step 8 11 0x8771f681
    ∷ step 11 16 0x6d9d6122
    ∷ step 14 23 0xfde5380c
    ∷ step 1 4 0xa4beea44
    ∷ step 4 11 0x4bdecfa9
    ∷ step 7 16 0xf6bb4b60
    ∷ step 10 23 0xbebfbc70
    ∷ step 13 4 0x289b7ec6
    ∷ step 0 11 0xeaa127fa
    ∷ step 3 16 0xd4ef3085
    ∷ step 6 23 0x4881d05
    ∷ step 9 4 0xd9d4d039
    ∷ step 12 11 0xe6db99e5
    ∷ step 15 16 0x1fa27cf8
    ∷ step 2 23 0xc4ac5665
    ∷ []

abbrev pub round_4 : List Step
round_4 =
    step 0 6 0xf4292244
    ∷ step 7 10 0x432aff97
    ∷ step 14 15 0xab9423a7
    ∷ step 5 21 0xfc93a039
    ∷ step 12 6 0x655b59c3
    ∷ step 3 10 0x8f0ccc92
    ∷ step 10 15 0xffeff47d
    ∷ step 1 21 0x85845dd1
    ∷ step 8 6 0x6fa87e4f
    ∷ step 15 10 0xfe2ce6e0
    ∷ step 6 15 0xa3014314
    ∷ step 13 21 0x4e0811a1
    ∷ step 4 6 0xf7537e82
    ∷ step 11 10 0xbd3af235
    ∷ step 2 15 0x2ad7d2bb
    ∷ step 9 21 0xeb86d391
    ∷ []

-- `decode`: the words of a block.
unfoldable pub decode : ℕ → Bytes → List ℕ
decode zero input = []
decode (suc n) input = word (take 4 input) ∷ decode n (drop 4 input)

-- `transform`.
unfoldable pub transform : State → Bytes → State
transform s block =
    let x = decode 16 block in
    let t = round i1 round_4 x (round h1 round_3 x (round g1 round_2 x (round f1 round_1 x s))) in
    record { a = u32 (s.a + t.a); b = u32 (s.b + t.b); c = u32 (s.c + t.c); d = u32 (s.d + t.d) }
