-- ===== src/Sha1/Padded.antt =====
-- The padding of FIPS 180-1, and what `PadMessage` works on by it.
use common_cc.Prelude.{
  ℕ, suc, ◌+◌, ◌-◌, ◌*◌, ◌/◌, ◌%◌, ◌^◌, ◌≤◌, ◌<◌, ◌≡◌, ◌∙◌, refl, ap, sym, true, false, [], ◌∷◌,
  ◌++◌, length, take, drop, take-replicate, length-append, length-take, length-drop,
  length-replicate, take-append, drop-append, take-length, take-append_ge, drop-append_le,
  append_assoc, ltb, lt→ltb, Bytes, arith,
}
use common_cc.Prelude.Blocks.{absorb, absorb-append, absorb-add}
use common_cc.Sha1.{big_endian}
use common_cc.Sha1.Padding.{zeros, closed, last_block, big_endian64, finish}
use common_cc.Sha1.Process.{Hash, process}

-- A number of bits in 64 bits, the high byte first.
unfoldable pub fips_length : ℕ → Bytes
fips_length n =
    n / 2 ^ 56 % 256
    ∷ n / 2 ^ 48 % 256
    ∷ n / 2 ^ 40 % 256
    ∷ n / 2 ^ 32 % 256
    ∷ n / 2 ^ 24 % 256
    ∷ n / 2 ^ 16 % 256
    ∷ n / 2 ^ 8 % 256
    ∷ n % 256
    ∷ []

eight :
    {a b c d e f g h a' b' c' d' e' f' g' h' : ℕ}
    → a ≡ a'
    → b ≡ b'
    → c ≡ c'
    → d ≡ d'
    → e ≡ e'
    → f ≡ f'
    → g ≡ g'
    → h ≡ h'
    → ◌≡◌ {A = Bytes}
        (a ∷ b ∷ c ∷ d ∷ e ∷ f ∷ g ∷ h ∷ [])
        (a' ∷ b' ∷ c' ∷ d' ∷ e' ∷ f' ∷ g' ∷ h' ∷ [])
eight a b c d e f g h = rw (a, b, c, d, e, f, g, h) refl

big_endian64-fips_length : (n : ℕ) → big_endian64 n ≡ fips_length n
unfolding big_endian64 big_endian fips_length
big_endian64-fips_length n =
    eight (omega arith) (omega arith) (omega arith) (omega arith) (omega arith) (omega arith)
      (omega arith) (omega arith)

-- The padding of the standard: a byte 0x80, as few zero bytes as lead to 56 modulo 64, and the
-- number of bits.
unfoldable pub padded : Bytes → Bytes
padded msg = msg ++ ((0x80 ∷ zeros ((119 - length msg % 64) % 64)) ++ fips_length (length msg * 8))

-- The bytes of a message behind its whole blocks.
abbrev pub tail_of : Bytes → Bytes
tail_of msg = drop (length msg / 64 * 64) msg

-- What the code works on where more than 55 bytes are left: the closed block, and then a block that
-- begins with the bytes of the closed one.
unfoldable pub padded_twice : Bytes → Bytes
padded_twice msg =
    msg ++ ((0x80 ∷ zeros (63 - length (tail_of msg))) ++ last_block (tail_of msg) (length msg))

length-big_endian64 : (n : ℕ) → length (big_endian64 n) ≡ 8
unfolding big_endian64 big_endian
length-big_endian64 n = refl

-- The work on a message with bytes behind it, that fill its last block and some more.
absorb_tail :
    (k : ℕ) (s : Hash) (msg x : Bytes)
    → length msg / 64 + k ≡ length (msg ++ x) / 64
    → absorb process (length (msg ++ x) / 64) s (msg ++ x)
      ≡ absorb process k (absorb process (length msg / 64) s msg) (tail_of msg ++ x)
absorb_tail k s msg x e =
    let n : ℕ = length msg / 64 in
    let inside : n * 64 ≤ length msg = omega arith in
    absorb-add process n k (length (msg ++ x) / 64) s (msg ++ x) (sym e)
    ∙ ap (λ h. absorb process k h (drop (n * 64) (msg ++ x)))
        (absorb-append process n s msg x inside)
    ∙ ap (λ z. absorb process k (absorb process n s msg) z) (drop-append_le (n * 64) msg x inside)

take-closed :
    (tail : Bytes)
    → length tail ≤ 55
    → take 56 (closed tail) ≡ tail ++ (0x80 ∷ zeros (55 - length tail))
take-closed tail h =
    let left : 56 - length tail ≡ suc (55 - length tail) = omega arith in
    take-append_ge 56 tail (0x80 ∷ zeros (63 - length tail)) (omega arith)
    ∙ ap (λ k. tail ++ take k (0x80 ∷ zeros (63 - length tail))) left
    ∙ ap (λ z. tail ++ (0x80 ∷ z))
        (take-replicate (55 - length tail) (63 - length tail) 0 (omega arith))

pub length-tail_of : (msg : Bytes) → length (tail_of msg) ≡ length msg % 64
length-tail_of msg = omega (arith, length-drop (length msg / 64 * 64) msg)

pub finish_short :
    (s : Hash) (msg : Bytes)
    → length msg % 64 ≤ 55
    → finish (absorb process (length msg / 64) s msg) (tail_of msg) (length msg)
      ≡ absorb process (length (padded msg) / 64) s (padded msg)
unfolding finish padded fips_length
finish_short s msg h =
    let tail : Bytes = tail_of msg in
    let size = length-tail_of msg in
    let bits : Bytes = fips_length (length msg * 8) in
    let count : (119 - length msg % 64) % 64 ≡ 55 - length tail = omega arith in
    let x : Bytes = (0x80 ∷ zeros ((119 - length msg % 64) % 64)) ++ bits in
    let x_size : length x ≡ 64 - length tail = omega (
      arith,
      length-append (0x80 ∷ zeros ((119 - length msg % 64) % 64)) bits,
      length-replicate {A = ℕ} ((119 - length msg % 64) % 64) 0,
    ) in
    let block : last_block tail (length msg) ≡ tail ++ x =
      ap (λ z. take 56 (closed tail) ++ z) (big_endian64-fips_length (length msg * 8))
      ∙ ap (λ z. z ++ bits) (take-closed tail (omega arith))
      ∙ append_assoc tail (0x80 ∷ zeros (55 - length tail)) bits
      ∙ ap (λ k. tail ++ ((0x80 ∷ zeros k) ++ bits)) (sym count) in
    let whole : take 64 (tail ++ x) ≡ tail ++ x =
      let all : 64 ≡ length (tail ++ x) = omega (arith, length-append tail x) in
      ap (λ k. take k (tail ++ x)) all ∙ take-length (tail ++ x) in
    let few : ltb 55 (length tail) ≡ false = ground (arith, size) in
    let h1 : Hash = absorb process (length msg / 64) s msg in
    rw (few, block)
      (sym (
        absorb_tail 1 s msg x (omega (arith, length-append msg x))
        ∙ (unfold absorb in ap (λ z. process h1 z) whole)))

pub finish_long :
    (s : Hash) (msg : Bytes)
    → 55 < length msg % 64
    → finish (absorb process (length msg / 64) s msg) (tail_of msg) (length msg)
      ≡ absorb process (length (padded_twice msg) / 64) s (padded_twice msg)
unfolding finish padded_twice
finish_long s msg h =
    let tail : Bytes = tail_of msg in
    let size = length-tail_of msg in
    let last : Bytes = last_block tail (length msg) in
    let fill : Bytes = 0x80 ∷ zeros (63 - length tail) in
    let fill_size : length fill ≡ 64 - length tail =
      omega (arith, length-replicate {A = ℕ} (63 - length tail) 0) in
    let closed_size : 64 ≡ length (closed tail) = omega (arith, length-append tail fill) in
    let last_size : length last ≡ 64 = omega (
      arith,
      length-append (take 56 (closed tail)) (big_endian64 (length msg * 8)),
      length-take 56 (closed tail),
      length-big_endian64 (length msg * 8),
    ) in
    let x : Bytes = fill ++ last in
    let x_size = length-append fill last in
    let cut : tail ++ x ≡ closed tail ++ last = sym (append_assoc tail fill last) in
    let first : take 64 (closed tail ++ last) ≡ closed tail =
      ap (λ k. take k (closed tail ++ last)) closed_size ∙ take-append (closed tail) last in
    let second : drop 64 (closed tail ++ last) ≡ last =
      ap (λ k. drop k (closed tail ++ last)) closed_size ∙ drop-append (closed tail) last in
    let all : take 64 last ≡ last = ap (λ k. take k last) (sym last_size) ∙ take-length last in
    let many : ltb 55 (length tail) ≡ true = lt→ltb 55 (length tail) (omega arith) in
    let h1 : Hash = absorb process (length msg / 64) s msg in
    let two : absorb process 2 h1 (closed tail ++ last) ≡ process (process h1 (closed tail)) last =
      unfold absorb in rw (first, second, all) in
    rw many (
      sym (
        absorb_tail 2 s msg x (omega (arith, length-append msg x))
        ∙ ap (λ z. absorb process 2 h1 z) cut
        ∙ two))
