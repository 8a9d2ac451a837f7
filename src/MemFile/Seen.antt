-- ===== src/MemFile/Seen.antt =====
-- The text from a block of a chain on.
use common_cc.Prelude.{
  ℕ, zero, suc, ◌+◌, ◌-◌, ◌*◌, ◌≤◌, ◌≡◌, ◌∙◌, refl, ap, sym, Option, none, some, List, [], ◌∷◌,
  ◌++◌, append_assoc, All, length, take, drop, le→leb, length-take, length-drop, length-append,
  take-append-drop, take-length, append-nil, drop-append_le, drop-append_ge, take-append_ge, Bytes,
  arith,
}
use common_cc.Prelude.Memory.{load}
use common_cc.MemFile.{Block, block_at}
use common_cc.MemFile.Chain.{links, joined, last_block, IsText}

-- The block at an address, with the full blocks from there on.
abbrev pub front : List Bytes → Bytes → Bytes
front [] last = last
front (b ∷ rest) last = b

abbrev next_of : ℕ → List Bytes → Option ℕ
next_of a [] = none
next_of a (b ∷ rest) = some (suc a)

abbrev pub block_here : ℕ → List Bytes → Bytes → Block
block_here a rest last = record { next = next_of a rest; bytes = front rest last }

-- The text from a block on, and behind it.
abbrev pub seen : List Bytes → Bytes → ℕ → Bytes
seen rest last filled = joined rest ++ take filled last

abbrev pub behind : List Bytes → Bytes → ℕ → Bytes
behind [] last filled = []
behind (b ∷ rest) last filled = seen rest last filled

pub block_at-split :
    (i a : ℕ) (before rest : List Bytes) (last : Bytes)
    → i + length before ≡ a
    → block_at (links i (before ++ rest) ++ (last_block last ∷ [])) (length before)
      ≡ some (block_here a rest last)
unfolding block_at
block_at-split i a [] [] last e = refl
block_at-split i a [] (b ∷ rest) last e =
    let same : i ≡ a = omega (arith, e) in
    ap (λ k. some (record { next = some (suc k); bytes = b })) same
block_at-split i a (c ∷ before) rest last e =
    block_at-split (suc i) a before rest last (omega (arith, e))

take-append_short : (n : ℕ) (xs ys : Bytes) → n ≤ length xs → take n (xs ++ ys) ≡ take n xs
take-append_short zero xs ys h = refl
take-append_short (suc n) [] ys h = absurd (omega arith)
take-append_short (suc n) (x ∷ xs) ys h = ap (λ z. x ∷ z) (take-append_short n xs ys (omega arith))

-- A part of the first of two texts.
part-append :
    (p n : ℕ) (xs ys : Bytes) → p + n ≤ length xs → take n (drop p (xs ++ ys)) ≡ take n (drop p xs)
part-append p n xs ys h =
    rw (drop-append_le p xs ys (omega arith))
      (take-append_short n (drop p xs) ys (omega (arith, length-drop p xs)))

pub load-some :
    (block : Bytes) (p n : ℕ) → p + n ≤ length block → load block p n ≡ some (take n (drop p block))
unfolding load
load-some block p n h = rw (le→leb (p + n) (length block) h)

pub take_over : (n : ℕ) (xs : Bytes) → length xs ≤ n → take n xs ≡ xs
take_over zero [] h = refl
take_over (suc n) [] h = refl
take_over zero (x ∷ xs) h = absurd (omega arith)
take_over (suc n) (x ∷ xs) h = ap (λ z. x ∷ z) (take_over n xs (omega arith))

module _ (block_size : ℕ) where
  pub front-seen :
      (p n : ℕ) (rest : List Bytes) (last : Bytes) (filled : ℕ)
      → All (λ b. length b ≡ block_size) rest
      → p + n ≤ block_size
      → p + n ≤ length (seen rest last filled)
      → take n (drop p (front rest last)) ≡ take n (drop p (seen rest last filled))
  front-seen p n [] last filled sizes h k =
      ap (λ z. take n (drop p z)) (sym (take-append-drop filled last))
      ∙ part-append p n (take filled last) (drop filled last) k
  front-seen p n (b ∷ rest) last filled sizes h k = sym (
      ap (λ z. take n (drop p z)) (append_assoc b (joined rest) (take filled last))
      ∙ part-append p n b (joined rest ++ take filled last) (omega (arith, sizes.0, h)))

  -- A part that reaches the end of the first block.
  pub split-seen :
      (p n : ℕ) (rest : List Bytes) (last : Bytes) (filled : ℕ)
      → All (λ b. length b ≡ block_size) rest
      → length last ≡ block_size
      → filled ≤ block_size
      → p ≤ block_size
      → block_size ≤ p + n
      → p + n ≤ length (seen rest last filled)
      → (take n (drop p (seen rest last filled))
          ≡ take (block_size - p) (drop p (front rest last))
            ++ take (n - (block_size - p)) (behind rest last filled))
        × (n - (block_size - p) ≤ length (behind rest last filled))
  split-seen p n [] last filled sizes size fits low h k =
      let there = length-take filled last in
      let same : n ≡ block_size - p = omega (arith, there, size, k, h, fits, low) in
      let full_up : filled ≡ length last = omega (arith, there, size, k, h, fits, low) in
      let nothing : n - (block_size - p) ≡ 0 = omega (arith, same) in
      (rw (nothing, full_up, take-length last, ← same) (sym (append-nil _)), omega (arith, nothing))
  split-seen p n (b ∷ rest) last filled sizes size fits low h k =
      let more : Bytes = joined rest ++ take filled last in
      let shape : seen (b ∷ rest) last filled ≡ b ++ more =
        append_assoc b (joined rest) (take filled last) in
      let left : length (drop p b) ≡ block_size - p = omega (arith, length-drop p b, sizes.0) in
      let total : p + n ≤ block_size + length more =
        omega (arith, ap (λ (z : Bytes). length z) shape, length-append b more, sizes.0, k) in
      let first : take (block_size - p) (drop p b) ≡ drop p b =
        rw (← left) (take-length (drop p b)) in
      let cut : take n (drop p b ++ more) ≡ drop p b ++ take (n - (block_size - p)) more =
        take-append_ge n (drop p b) more (omega (arith, left, h))
        ∙ ap (λ j. drop p b ++ take (n - j) more) left in
      (
        ap (λ z. take n (drop p z)) shape
            ∙ ap (λ z. take n z) (drop-append_le p b more (omega (arith, sizes.0, low)))
            ∙ cut
            ∙ ap (λ z. z ++ take (n - (block_size - p)) more) (sym first),
        omega (arith, total, low),
      )

  pub sizes_from :
      (before rest : List Bytes)
      → All (λ b. length b ≡ block_size) (before ++ rest)
      → All (λ b. length b ≡ block_size) rest
  sizes_from [] rest h = h
  sizes_from (c ∷ before) rest h = sizes_from before rest h.1

  pub front-size :
      (rest : List Bytes) (last : Bytes)
      → All (λ b. length b ≡ block_size) rest
      → length last ≡ block_size
      → length (front rest last) ≡ block_size
  front-size [] last h k = k
  front-size (b ∷ rest) last h k = h.0

  length-joined :
      (bs : List Bytes)
      → All (λ b. length b ≡ block_size) bs
      → length (joined bs) ≡ length bs * block_size
  length-joined [] h = omega arith
  length-joined (b ∷ bs) h = omega (arith, length-append b (joined bs), length-joined bs h.1, h.0)

  joined-append_all : (bs cs : List Bytes) → joined (bs ++ cs) ≡ joined bs ++ joined cs
  joined-append_all [] cs = refl
  joined-append_all (b ∷ bs) cs =
      ap (λ z. b ++ z) (joined-append_all bs cs) ∙ sym (append_assoc b (joined bs) (joined cs))

  sizes_of :
      (before rest : List Bytes)
      → All (λ b. length b ≡ block_size) (before ++ rest)
      → All (λ b. length b ≡ block_size) before
  sizes_of [] rest h = tt
  sizes_of (b ∷ before) rest h = (h.0, sizes_of before rest h.1)

  -- The text from a block on.
  pub drop-seen :
      (before rest : List Bytes) (last text : Bytes) (filled p : ℕ)
      → IsText block_size (before ++ rest) last filled text
      → drop (length before * block_size + p) text ≡ drop p (seen rest last filled)
  drop-seen before rest last text filled p t =
      let size = length-joined before (sizes_of before rest t.full_sizes) in
      let shape : joined before ++ seen rest last filled ≡ text =
        sym (append_assoc (joined before) (joined rest) (take filled last))
        ∙ ap (λ z. z ++ take filled last) (sym (joined-append_all before rest))
        ∙ t.holds in
      rw
        (
          ← shape,
          drop-append_ge (length before * block_size + p) (joined before) (seen rest last filled)
              (omega (arith, size)),
        )
        (ap (λ j. drop j (seen rest last filled)) (omega (arith, size)))

  pub length-text :
      (full : List Bytes) (last text : Bytes) (filled : ℕ)
      → IsText block_size full last filled text
      → length text ≡ length full * block_size + filled
  length-text full last text filled t =
      ap (λ (z : Bytes). length z) (sym t.holds)
      ∙ omega (
        arith,
        length-append (joined full) (take filled last),
        length-joined full t.full_sizes,
        length-take filled last,
        t.last_size,
        t.fits,
      )
