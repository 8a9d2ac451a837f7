-- ===== src/MemFile/Whole.antt =====
-- A read of a block that is full.
use common_cc.Prelude.{
  ℕ, suc, ◌+◌, ◌-◌, ◌*◌, ◌%◌, ◌^◌, ◌≤◌, ◌<◌, ◌≡◌, ◌∙◌, refl, ap, sym, false, some, List, [], ◌∷◌,
  ◌++◌, append_assoc, append-nil, All, length, take, ltb, ◌==◌, length-append, take-length, Bytes,
  arith,
}
use common_cc.MemFile.{File, available, read_blocks, read_there, read}
use common_cc.MemFile.Position.{position_lem}
use common_cc.MemFile.Rounds.{at_block, block_at-here, get-at_block}

module _ (block_size : ℕ) (positive : 0 < block_size) where
  module _ (f : File) (full : List Bytes) (last : Bytes) (filled : ℕ)
      (size : length last ≡ block_size) (fits : filled ≤ block_size)
      (small : length full * block_size + filled < 2 ^ 64) where
    abbrev at : ℕ → ℕ → File
    at a q = at_block block_size f full last filled size fits positive a q

    available-at :
        (a q : ℕ)
        → q ≤ length full * block_size + filled
        → available (at a q) ≡ length full * block_size + filled - q
    unfolding available
    available-at a q h = omega (arith, small)

    -- A read of no bytes behind the first block only moves on.
    read_blocks_none :
        (fuel a q : ℕ) (before rest : List Bytes) (b : Bytes)
        → full ≡ before ++ (b ∷ rest)
        → a ≡ length before
        → All (λ b. length b ≡ block_size) (b ∷ rest)
        → read_blocks block_size (suc fuel) (at a q) 0 ≡ some ([], at (suc a) q)
    unfolding read_blocks
    read_blocks_none fuel a q before rest b e k sizes =
        let whole : full ≡ (before ++ (b ∷ [])) ++ rest =
          e ∙ sym (append_assoc before (b ∷ []) rest) in
        let after : suc a ≡ length (before ++ (b ∷ [])) =
          omega (arith, length-append before (b ∷ []), k) in
        let short : ltb block_size 0 ≡ false = ground arith in
        let stay : q + 0 ≡ q = omega arith in
        rw
          (
            block_at-here block_size f full last filled size fits positive a before (b ∷ rest) e k,
            short,
            get-at_block block_size f full last filled size fits positive (suc a) q 0 0
                (before ++ (b ∷ [])) rest sizes.1 whole after (omega arith),
            stay,
          )
          refl

    read_there_block :
        (a : ℕ) (before rest : List Bytes) (b : Bytes)
        → full ≡ before ++ (b ∷ rest)
        → a ≡ length before
        → All (λ b. length b ≡ block_size) (b ∷ rest)
        → read_there block_size (at a (a * block_size)) block_size
          ≡ some (b, at (suc a) (suc a * block_size))
    unfolding read_there
    read_there_block a before rest b e k sizes =
        let inside : a * block_size % block_size ≡ 0 =
          ap (λ j. j % block_size) (omega arith)
          ∙ (position_lem block_size positive a 0 positive).1 in
        let some_bytes : (block_size == 0) ≡ false = ground arith in
        let whole : ltb (0 + block_size) block_size ≡ false = ground arith in
        let room : block_size - 0 ≡ block_size = omega arith in
        let nothing : block_size - block_size ≡ 0 = omega arith in
        let moved : a * block_size + block_size ≡ suc a * block_size = omega arith in
        let block : take block_size b ≡ b = rw (← sizes.0) (take-length b) in
        rw
          (
            some_bytes,
            inside,
            whole,
            room,
            nothing,
            get-at_block block_size f full last filled size fits positive a (a * block_size) 0
                block_size before (b ∷ rest) sizes e k (omega arith),
            moved,
            read_blocks_none block_size a (suc a * block_size) before rest b e k sizes,
            block,
            append-nil b,
          )
          refl

    -- A round of `Save` at a block that is full.
    pub read_block :
        (a : ℕ) (before rest : List Bytes) (b : Bytes)
        → full ≡ before ++ (b ∷ rest)
        → a ≡ length before
        → All (λ b. length b ≡ block_size) (b ∷ rest)
        → read block_size (at a (a * block_size)) block_size
          ≡ some (b, at (suc a) (suc a * block_size))
    unfolding read
    read_block a before rest b e k sizes =
        let count : length full ≡ suc (a + length rest) =
          omega (arith, ap (λ (z : List Bytes). length z) e, length-append before (b ∷ rest), k) in
        let behind : length full * block_size
            ≡ a * block_size + (block_size + length rest * block_size) =
          ap (λ j. j * block_size) count ∙ omega arith in
        let there = available-at a (a * block_size) (omega (arith, behind)) in
        let enough : ltb (length full * block_size + filled - a * block_size) block_size ≡ false =
          ground (arith, behind) in
        rw (there, enough) (read_there_block a before rest b e k sizes)
