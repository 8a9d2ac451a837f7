-- ===== src/Sha1/Padding.antt =====
-- `SHA1::PadMessage`: what the object holds after it.
use common_cc.Prelude.{
  ℕ, zero, suc, ◌+◌, ◌-◌, ◌*◌, ◌/◌, ◌%◌, ◌^◌, ◌≤◌, ◌<◌, ◌≡◌, ◌∙◌, refl, ap, sym, true, false, [],
  ◌∷◌, ◌++◌, length, set, take, replicate, length-append, append_assoc, ltb, if◌then◌else◌, Bytes,
  arith, Bool-cases, inl, inr,
}
use common_cc.Sha1.{
  Sha1, put, put_zeros, process_message_block, put_length, pad_message, add_data_len, load_block,
  big_endian,
}
use common_cc.Sha1.Process.{Hash, process}

abbrev pub zeros : ℕ → Bytes
zeros n = replicate n 0

-- The bytes that are left, the byte 0x80, and zeros up to 64.
abbrev pub closed : Bytes → Bytes
closed tail = tail ++ (0x80 ∷ zeros (63 - length tail))

-- A number of bits in 64 bits, the most significant byte first.
unfoldable pub big_endian64 : ℕ → Bytes
big_endian64 n = big_endian (n / 2 ^ 32 % 2 ^ 32) ++ big_endian (n % 2 ^ 32)

-- The last block that `PadMessage` works on: it begins with the block that was closed.
abbrev pub last_block : Bytes → ℕ → Bytes
last_block tail total = take 56 (closed tail) ++ big_endian64 (total * 8)

-- The hash that `PadMessage` leaves.
unfoldable pub finish : Hash → Bytes → ℕ → Hash
finish h tail total =
    if ltb 55 (length tail)
    then process (process h (closed tail)) (last_block tail total)
    else process h (last_block tail total)

set-zeros : (k i : ℕ) (P : Bytes) → length P ≤ i → set (P ++ zeros k) i 0 ≡ P ++ zeros k
set-zeros zero i [] h = refl
set-zeros (suc k) zero [] h = refl
set-zeros (suc k) (suc i) [] h = rw (set-zeros k i [] (omega arith))
set-zeros k zero (c ∷ P) h = absurd (omega arith)
set-zeros k (suc i) (c ∷ P) h = rw (set-zeros k i P (omega arith))

set_behind : (P S : Bytes) (c b : ℕ) → set (P ++ (c ∷ S)) (length P) b ≡ P ++ (b ∷ S)
set_behind [] S c b = refl
set_behind (d ∷ P) S c b = rw (set_behind P S c b)

-- Zeros over zeros: only the index moves.
put_zeros_lem :
    (n k j : ℕ) (P : Bytes) (s : Sha1)
    → s.message_block ≡ P ++ zeros k
    → length P ≤ s.message_block_index
    → j ≡ s.message_block_index + n
    → put_zeros n s ≡ record s { message_block_index = j }
unfolding put_zeros put
put_zeros_lem zero k j P s b l e =
    let same : s.message_block_index ≡ j = omega arith in
    ap (λ i. let r : Sha1 = record s { message_block_index = i } in r) same
put_zeros_lem (suc n) k j P s b l e =
    let i : ℕ = s.message_block_index in
    let same : set s.message_block i 0 ≡ s.message_block =
      ap (λ z. set z i 0) b ∙ set-zeros k i P l ∙ sym b in
    let rest =
      put_zeros_lem n k j P (record s { message_block_index = i + 1 }) b (omega arith)
        (omega arith) in
    ap (λ z. put_zeros n (record s { message_block = z; message_block_index = i + 1 })) same ∙ rest

put_zeros_none : (s : Sha1) → put_zeros 0 s ≡ s
unfolding put_zeros
put_zeros_none s = refl

-- The counting of bits, as bytes come behind a message.
pub counted-low :
    (L len : ℕ) (s : Sha1)
    → s.length_low ≡ L * 8 % 2 ^ 32
    → (add_data_len len s).length_low ≡ (L + len) * 8 % 2 ^ 32
unfolding add_data_len
counted-low L len s h = omega arith

pub counted-high :
    (L len : ℕ) (s : Sha1)
    → s.length_low ≡ L * 8 % 2 ^ 32
    → s.length_high ≡ L * 8 / 2 ^ 32 % 2 ^ 32
    → len < 2 ^ 32
    → (add_data_len len s).length_high ≡ (L + len) * 8 / 2 ^ 32 % 2 ^ 32
unfolding add_data_len
counted-high L len s h k l = ground arith

-- `PadMessage` on a block of some bytes and zeros behind them.
module _ (t : Sha1) (tail : Bytes) (h : length tail < 64)
    (block_is : t.message_block ≡ tail ++ zeros (64 - length tail))
    (index_is : t.message_block_index ≡ length tail) where
  closing : Sha1
  closing = record t { message_block = closed tail; message_block_index = length tail + 1 }

  put_lem : put 0x80 t ≡ closing
  unfolding put closing
  put_lem =
      let behind : 64 - length tail ≡ suc (63 - length tail) = omega arith in
      let closes : set (tail ++ zeros (64 - length tail)) (length tail) 0x80 ≡ closed tail =
        ap (λ k. set (tail ++ zeros k) (length tail) 0x80) behind
        ∙ set_behind tail (zeros (63 - length tail)) 0 0x80 in
      let written : set t.message_block t.message_block_index 0x80 ≡ closed tail =
        ap (λ z. set z t.message_block_index 0x80) block_is
        ∙ ap (λ i. set (tail ++ zeros (64 - length tail)) i 0x80) index_is
        ∙ closes in
      ap
        (λ z.
          let r : Sha1 = record t {
            message_block = z;
            message_block_index = t.message_block_index + 1;
          } in
          r)
        written
      ∙ ap
          (λ i.
            let r : Sha1 = record t { message_block = closed tail; message_block_index = i + 1 } in
            r)
          index_is

  -- More zeros up to an index.
  zeros_lem :
      (n j : ℕ)
      → j ≡ length tail + 1 + n
      → put_zeros n closing ≡ record closing { message_block_index = j }
  unfolding closing
  zeros_lem n j e =
      put_zeros_lem n (63 - length tail) j (tail ++ (0x80 ∷ [])) closing
        (sym (append_assoc tail (0x80 ∷ []) (zeros (63 - length tail))))
        (omega (arith, length-append tail (0x80 ∷ []))) e

  pad_closed : (pad_message t).h ≡ (
      let last : Bytes =
        take 56 (closed tail) ++ (big_endian t.length_high ++ big_endian t.length_low) in
      if ltb 55 (length tail) then process (process t.h (closed tail)) last else process t.h last)
  unfolding pad_message closing process_message_block put_length
  pad_closed = elim (Bool-cases (ltb 55 (length tail))) [
    | inl e ↦
        let test : ltb 55 t.message_block_index ≡ true = ap (λ i. ltb 55 i) index_is ∙ e in
        let filled = zeros_lem (64 - (length tail + 1)) 64 (omega arith) in
        rw (e, test, put_lem, filled, put_zeros_none) refl
    | inr e ↦
        let test : ltb 55 t.message_block_index ≡ false = ap (λ i. ltb 55 i) index_is ∙ e in
        let short : length tail ≤ 55 = ground (arith, e) in
        let filled = zeros_lem (56 - (length tail + 1)) 56 (omega arith) in
        rw (e, test, put_lem, filled) refl
  ]

-- `PadMessage` on the bytes that are left of a message of `L` bytes before them.
pub pad_message_lem :
    (L : ℕ) (s : Sha1) (tail : Bytes)
    → s.length_low ≡ L * 8 % 2 ^ 32
    → s.length_high ≡ L * 8 / 2 ^ 32 % 2 ^ 32
    → length tail < 64
    → (pad_message (add_data_len (length tail) (load_block tail s))).h
      ≡ finish s.h tail (L + length tail)
unfolding finish big_endian64
pad_message_lem L s tail low high h =
    let t : Sha1 = add_data_len (length tail) (load_block tail s) in
    let low' : t.length_low ≡ (L + length tail) * 8 % 2 ^ 32 =
      counted-low L (length tail) (load_block tail s) (unfold load_block in low) in
    let high' : t.length_high ≡ (L + length tail) * 8 / 2 ^ 32 % 2 ^ 32 =
      counted-high L (length tail) (load_block tail s) (unfold load_block in low)
        (unfold load_block in high) (omega arith) in
    rw
      (
        pad_closed t tail h (unfold add_data_len load_block in refl) (unfold add_data_len in refl),
        low',
        high',
      )
      (unfold add_data_len load_block in refl)
