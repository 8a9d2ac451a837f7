-- ===== src/Md5/Rfc.antt =====
-- The work on one block as RFC 1321 has it, from its table and its formulas for the words of the block
-- and the shifts, and that `MD5::transform` does it.
use Prim.Native.Nat.{bit_and, bit_or, bit_xor}
use common_cc.Prelude.{
  ℕ, All, zero, suc, ◌+◌, ◌-◌, ◌*◌, ◌/◌, ◌%◌, ◌^◌, ◌≡◌, ◌∙◌, refl, ap, List, [], ◌∷◌, ◌++◌, Bytes,
  get_or, take, drop, codes, ◌<◌, arith,
}
use common_cc.Prelude.Word.{u32, word, bytes32}
use common_cc.Prelude.Blocks.{absorb}
use common_cc.Md5.{hex_digit, hex}
use common_cc.Md5.Transform.{
  State, Step, step, f1, g1, h1, i1, rotate_left, round_word, round, decode, transform,
}

-- The words A, B, C and D: 01 23 45 67, 89 ab cd ef, fe dc ba 98 and 76 54 32 10, low byte first.
abbrev pub rfc_start : State
rfc_start = record {
  a = word (0x01 ∷ 0x23 ∷ 0x45 ∷ 0x67 ∷ []);
  b = word (0x89 ∷ 0xab ∷ 0xcd ∷ 0xef ∷ []);
  c = word (0xfe ∷ 0xdc ∷ 0xba ∷ 0x98 ∷ []);
  d = word (0x76 ∷ 0x54 ∷ 0x32 ∷ 0x10 ∷ []);
}

-- T[i], the whole part of 4294967296 times abs(sin(i)), from i = 1 on.
abbrev rfc_table : List ℕ
rfc_table =
    0xd76aa478 ∷ 0xe8c7b756 ∷ 0x242070db ∷ 0xc1bdceee ∷ 0xf57c0faf ∷ 0x4787c62a ∷ 0xa8304613
    ∷ 0xfd469501 ∷ 0x698098d8 ∷ 0x8b44f7af ∷ 0xffff5bb1 ∷ 0x895cd7be ∷ 0x6b901122 ∷ 0xfd987193
    ∷ 0xa679438e ∷ 0x49b40821 ∷ 0xf61e2562 ∷ 0xc040b340 ∷ 0x265e5a51 ∷ 0xe9b6c7aa ∷ 0xd62f105d
    ∷ 0x2441453 ∷ 0xd8a1e681 ∷ 0xe7d3fbc8 ∷ 0x21e1cde6 ∷ 0xc33707d6 ∷ 0xf4d50d87 ∷ 0x455a14ed
    ∷ 0xa9e3e905 ∷ 0xfcefa3f8 ∷ 0x676f02d9 ∷ 0x8d2a4c8a ∷ 0xfffa3942 ∷ 0x8771f681 ∷ 0x6d9d6122
    ∷ 0xfde5380c ∷ 0xa4beea44 ∷ 0x4bdecfa9 ∷ 0xf6bb4b60 ∷ 0xbebfbc70 ∷ 0x289b7ec6 ∷ 0xeaa127fa
    ∷ 0xd4ef3085 ∷ 0x4881d05 ∷ 0xd9d4d039 ∷ 0xe6db99e5 ∷ 0x1fa27cf8 ∷ 0xc4ac5665 ∷ 0xf4292244
    ∷ 0x432aff97 ∷ 0xab9423a7 ∷ 0xfc93a039 ∷ 0x655b59c3 ∷ 0x8f0ccc92 ∷ 0xffeff47d ∷ 0x85845dd1
    ∷ 0x6fa87e4f ∷ 0xfe2ce6e0 ∷ 0xa3014314 ∷ 0x4e0811a1 ∷ 0xf7537e82 ∷ 0xbd3af235 ∷ 0x2ad7d2bb
    ∷ 0xeb86d391 ∷ []

abbrev rfc_not : ℕ → ℕ
rfc_not x = 0xffffffff - x

abbrev rfc_f : ℕ → ℕ → ℕ → ℕ
rfc_f x y z = bit_or (bit_and x y) (bit_and (rfc_not x) z)

abbrev rfc_g : ℕ → ℕ → ℕ → ℕ
rfc_g x y z = bit_or (bit_and x z) (bit_and y (rfc_not z))

abbrev rfc_h : ℕ → ℕ → ℕ → ℕ
rfc_h x y z = bit_xor (bit_xor x y) z

abbrev rfc_i : ℕ → ℕ → ℕ → ℕ
rfc_i x y z = bit_xor y (bit_or x (rfc_not z))

abbrev rfc_rotate : ℕ → ℕ → ℕ
rfc_rotate x n = bit_or (u32 (x * 2 ^ n)) (x / 2 ^ (32 - n))

-- A round by its function, the index of the word for each of its operations and its four shifts:
-- a = b + ((a + f(b, c, d) + X[k] + T[i]) <<< s), and the words move on.
unfoldable pub rfc_round : (ℕ → ℕ → ℕ → ℕ) → (ℕ → ℕ) → List ℕ → ℕ → ℕ → List ℕ → State → State
rfc_round f index shifts zero i x s = s
rfc_round f index shifts (suc n) i x s =
    let sum = u32 (s.a + f s.b s.c s.d + get_or x (index i) 0 + get_or rfc_table i 0) in
    let new = u32 (rfc_rotate sum (get_or shifts (i % 4) 0) + s.b) in
    rfc_round f index shifts n (suc i) x (record { a = s.d; b = new; c = s.b; d = s.c })

-- The words of a block, low byte first.
unfoldable pub rfc_words : ℕ → Bytes → List ℕ
rfc_words zero block = []
rfc_words (suc n) block = word (take 4 block) ∷ rfc_words n (drop 4 block)

abbrev first : ℕ → ℕ
first i = i

abbrev second : ℕ → ℕ
second i = (5 * i + 1) % 16

abbrev third : ℕ → ℕ
third i = (3 * i + 5) % 16

abbrev fourth : ℕ → ℕ
fourth i = 7 * i % 16

-- The four rounds on a block, and the sums with the words before.
unfoldable pub rfc_block : State → Bytes → State
rfc_block s block =
    let x = rfc_words 16 block in
    let one = rfc_round rfc_f first (7 ∷ 12 ∷ 17 ∷ 22 ∷ []) 16 0 x s in
    let two = rfc_round rfc_g second (5 ∷ 9 ∷ 14 ∷ 20 ∷ []) 16 16 x one in
    let three = rfc_round rfc_h third (4 ∷ 11 ∷ 16 ∷ 23 ∷ []) 16 32 x two in
    let t = rfc_round rfc_i fourth (6 ∷ 10 ∷ 15 ∷ 21 ∷ []) 16 48 x three in
    record { a = u32 (s.a + t.a); b = u32 (s.b + t.b); c = u32 (s.c + t.c); d = u32 (s.d + t.d) }

-- The digest: A, B, C and D, low byte first.
abbrev pub rfc_output : State → Bytes
rfc_output s = bytes32 s.a ++ (bytes32 s.b ++ (bytes32 s.c ++ bytes32 s.d))

-- Two hexadecimal digits for each byte.
abbrev pub rfc_hex : Bytes → Bytes
rfc_hex [] = []
rfc_hex (x ∷ s) =
    get_or (codes "0123456789abcdef") (x / 16) 0
    ∷ get_or (codes "0123456789abcdef") (x % 16) 0
    ∷ rfc_hex s

-- The steps of a round by those formulas.
abbrev steps_from : (ℕ → ℕ) → List ℕ → ℕ → ℕ → List Step
steps_from index shifts zero i = []
steps_from index shifts (suc n) i =
    step (index i) (get_or shifts (i % 4) 0) (get_or rfc_table i 0)
    ∷ steps_from index shifts n (suc i)

rfc_round-round :
    (f : ℕ → ℕ → ℕ → ℕ) (index : ℕ → ℕ) (shifts : List ℕ) (n i : ℕ) (x : List ℕ) (s : State)
    → rfc_round f index shifts n i x s ≡ round f (steps_from index shifts n i) x s
unfolding rfc_round round round_word rotate_left
rfc_round-round f index shifts zero i x s = refl
rfc_round-round f index shifts (suc n) i x s = rfc_round-round f index shifts n (suc i) x _

rfc_words-decode : (n : ℕ) (block : Bytes) → rfc_words n block ≡ decode n block
unfolding rfc_words decode
rfc_words-decode zero block = refl
rfc_words-decode (suc n) block = rw (rfc_words-decode n (drop 4 block))

transform-rfc_block : (s : State) (block : Bytes) → transform s block ≡ rfc_block s block
unfolding rfc_block transform f1 g1 h1 i1
transform-rfc_block s block =
    rw
      (
        rfc_words-decode 16 block,
        rfc_round-round rfc_f first,
        rfc_round-round rfc_g second,
        rfc_round-round rfc_h third,
        rfc_round-round rfc_i fourth,
      )
      refl

pub absorb-rfc_block :
    (n : ℕ) (s : State) (msg : Bytes) → absorb transform n s msg ≡ absorb rfc_block n s msg
unfolding absorb
absorb-rfc_block zero s msg = refl
absorb-rfc_block (suc n) s msg =
    ap (λ t. absorb transform n t (drop 64 msg)) (transform-rfc_block s (take 64 msg))
    ∙ absorb-rfc_block n (rfc_block s (take 64 msg)) (drop 64 msg)

digit_at : (x : ℕ) → x < 16 → hex_digit x ≡ get_or (codes "0123456789abcdef") x 0
unfolding hex_digit
digit_at zero h = refl
digit_at (suc zero) h = refl
digit_at (suc (suc zero)) h = refl
digit_at (suc (suc (suc zero))) h = refl
digit_at (suc (suc (suc (suc zero)))) h = refl
digit_at (suc (suc (suc (suc (suc zero))))) h = refl
digit_at (suc (suc (suc (suc (suc (suc zero)))))) h = refl
digit_at (suc (suc (suc (suc (suc (suc (suc zero))))))) h = refl
digit_at (suc (suc (suc (suc (suc (suc (suc (suc zero)))))))) h = refl
digit_at (suc (suc (suc (suc (suc (suc (suc (suc (suc zero))))))))) h = refl
digit_at (suc (suc (suc (suc (suc (suc (suc (suc (suc (suc zero)))))))))) h = refl
digit_at (suc (suc (suc (suc (suc (suc (suc (suc (suc (suc (suc zero))))))))))) h = refl
digit_at (suc (suc (suc (suc (suc (suc (suc (suc (suc (suc (suc (suc zero)))))))))))) h = refl
digit_at (suc (suc (suc (suc (suc (suc (suc (suc (suc (suc (suc (suc (suc zero))))))))))))) h = refl
digit_at (suc (suc (suc (suc (suc (suc (suc (suc (suc (suc (suc (suc (suc (suc zero))))))))))))))
      h =
    refl
digit_at
      (suc (suc (suc (suc (suc (suc (suc (suc (suc (suc (suc (suc (suc (suc (suc zero)))))))))))))))
      h =
    refl
digit_at
      (suc
        (suc (suc (suc (suc (suc (suc (suc (suc (suc (suc (suc (suc (suc (suc (suc x))))))))))))))))
      h =
    absurd (omega arith)

pub hex-rfc_hex : (s : Bytes) → All (λ x. x < 256) s → hex s ≡ rfc_hex s
unfolding hex
hex-rfc_hex [] h = refl
hex-rfc_hex (x ∷ s) h =
    rw (digit_at (x / 16) (omega (arith, h.0)), digit_at (x % 16) (omega arith), hex-rfc_hex s h.1)

bytes32-All : (n : ℕ) (s : Bytes) → All (λ x. x < 256) s → All (λ x. x < 256) (bytes32 n ++ s)
unfolding bytes32
bytes32-All n s h = (omega arith, (omega arith, (omega arith, (omega arith, h))))

bytes32-bytes : (n : ℕ) → All (λ x. x < 256) (bytes32 n)
unfolding bytes32
bytes32-bytes n = (omega arith, (omega arith, (omega arith, (omega arith, tt))))

-- The bytes of a digest.
pub rfc_output-All : (s : State) → All (λ x. x < 256) (rfc_output s)
rfc_output-All s = bytes32-All s.a _ (bytes32-All s.b _ (bytes32-All s.c _ (bytes32-bytes s.d)))
