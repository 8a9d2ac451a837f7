-- ===== src/MemFile/Rounds.antt =====
-- The copies of a read, block by block.
use common_cc.Prelude.{
  ℕ, zero, suc, ◌+◌, ◌-◌, ◌*◌, ◌≤◌, ◌<◌, ◌≡◌, ◌∙◌, refl, ap, sym, inl, inr, Option, some, List, [],
  ◌∷◌, ◌++◌, append_assoc, All, length, take, drop, ltb, ◌==◌, Bool-cases, ltb→lt, length-take,
  length-drop, length-append, take-append-drop, Bytes, arith,
}
use common_cc.MemFile.{File, block_at, get, read_blocks, read_there}
use common_cc.MemFile.Position.{position_lem}
use common_cc.MemFile.Chain.{links, last_block, file_of, IsText}
use common_cc.MemFile.Seen.{
  front, block_here, seen, behind, block_at-split, load-some, front-seen, split-seen, sizes_from,
  front-size, drop-seen,
}

module _ (block_size : ℕ) where
  module _ (f : File) (full : List Bytes) (last : Bytes) (filled : ℕ)
      (size : length last ≡ block_size) (fits : filled ≤ block_size)
      (positive : 0 < block_size) where
    -- `f` over the blocks, with its read side at a block and a position.
    abbrev pub at_block : ℕ → ℕ → File
    at_block a q = file_of block_size (record f { current_read = a; read_ptr = q }) full last filled

    -- The block at an address is the first one of the rest.
    pub block_at-here :
        (a : ℕ) (before rest : List Bytes)
        → full ≡ before ++ rest
        → a ≡ length before
        → block_at (links 0 full ++ (last_block last ∷ [])) a ≡ some (block_here a rest last)
    block_at-here a before rest e k =
        rw (e, k) (block_at-split 0 (length before) before rest last (omega arith))

    pub get-at_block :
        (a q p n : ℕ) (before rest : List Bytes)
        → All (λ b. length b ≡ block_size) rest
        → full ≡ before ++ rest
        → a ≡ length before
        → p + n ≤ block_size
        → get (at_block a q) p n ≡ some (take n (drop p (front rest last)), at_block a (q + n))
    unfolding get
    get-at_block a q p n before rest sizes e k h =
        rw
          (
            block_at-here a before rest e k,
            load-some (front rest last) p n
                (omega (arith, front-size block_size rest last sizes size, h)),
          )
          refl

    -- A position in a block of the chain, or at the end of it.
    abbrev pub IsAt : ℕ → ℕ → Type 0
    IsAt a q = (a * block_size ≤ q) × (q ≤ a * block_size + block_size) × (a ≤ length full)

    -- The rounds of a read, which all find their block and end in one.
    abbrev Rounds : Option (Bytes × File) → ℕ → Bytes → Type 0
    Rounds got q bytes = (a : ℕ) × (got ≡ some (bytes, at_block a q)) × IsAt a q

    in_chain :
        (before rest : List Bytes) (a : ℕ)
        → full ≡ before ++ rest
        → a ≡ length before
        → a ≤ length full
    in_chain before rest a e k =
        omega (arith, ap (λ (z : List Bytes). length z) e, length-append before rest, k)

    some_pair :
        {x y : Bytes} {a q r : ℕ}
        → x ≡ y
        → q ≡ r
        → ◌≡◌ {A = Option (Bytes × File)} (some (x, at_block a q)) (some (y, at_block a r))
    some_pair e h = rw (e, h) refl

    same_end : {q r : ℕ} (a : ℕ) → q ≡ r → IsAt a q → IsAt a r
    same_end a e (low, high, there) = (omega (arith, e, low), omega (arith, e, high), there)

    read_blocks-Rounds :
        (fuel a q n : ℕ) (before rest : List Bytes)
        → All (λ b. length b ≡ block_size) rest
        → full ≡ before ++ rest
        → a ≡ length before
        → q ≡ a * block_size + block_size
        → n < fuel
        → n ≤ length (behind rest last filled)
        → Rounds
            (read_blocks block_size fuel (at_block a q) n)
            (q + n)
            (take n (behind rest last filled))
    unfolding read_blocks
    read_blocks-Rounds zero a q n before rest sizes e k m h l = absurd (omega arith)
    read_blocks-Rounds (suc fuel) a q n before [] sizes e k m h l =
        let none_left : 0 ≡ n = omega (arith, l) in
        rw (← none_left, block_at-here a before [] e k)
          (
            a,
            ap (λ j. some ([], at_block a j)) (omega arith),
            (omega (arith, m), omega (arith, m), in_chain before [] a e k),
          )
    read_blocks-Rounds (suc fuel) a q n before (b ∷ rest) sizes e k m h l =
        let whole : full ≡ (before ++ (b ∷ [])) ++ rest =
          e ∙ sym (append_assoc before (b ∷ []) rest) in
        let after : suc a ≡ length (before ++ (b ∷ [])) =
          omega (arith, length-append before (b ∷ []), k) in
        elim (Bool-cases (ltb block_size n)) [
          | inl c ↦
              let long = ltb→lt block_size n c in
              let (split, left) =
                split-seen block_size 0 n rest last filled sizes.1 size fits (omega arith)
                  (omega (arith, long)) (omega (arith, l)) in
              let start : block_size - 0 ≡ block_size = omega arith in
              let (at, rounds, ends) =
                read_blocks-Rounds fuel (suc a) (q + block_size) (n - block_size)
                  (before ++ (b ∷ [])) rest sizes.1 whole after (omega (arith, m))
                  (omega (arith, long, h, positive)) (rw start at left) in
              rw
                (
                  block_at-here a before (b ∷ rest) e k,
                  c,
                  get-at_block (suc a) q 0 block_size (before ++ (b ∷ [])) rest sizes.1 whole after
                      (omega arith),
                  rounds,
                )
                (
                  at,
                  some_pair (sym (rw start at split)) (omega (arith, long)),
                  same_end at (omega (arith, long)) ends,
                )
          | inr c ↦
              let short : n ≤ block_size = ground arith in
              rw
                (
                  block_at-here a before (b ∷ rest) e k,
                  c,
                  get-at_block (suc a) q 0 n (before ++ (b ∷ [])) rest sizes.1 whole after
                      (omega (arith, short)),
                  front-seen block_size 0 n rest last filled sizes.1 (omega (arith, short))
                      (omega (arith, l)),
                )
                (
                  suc a,
                  refl,
                  (
                    omega (arith, m),
                    omega (arith, m, short),
                    in_chain (before ++ (b ∷ [])) rest (suc a) whole after,
                  ),
                )
        ]

    -- A read of bytes that are there, from a block's own part of the positions.
    read_there-Rounds :
        (a p n : ℕ) (before rest : List Bytes)
        → All (λ b. length b ≡ block_size) rest
        → full ≡ before ++ rest
        → a ≡ length before
        → p < block_size
        → p + n ≤ length (seen rest last filled)
        → Rounds
            (read_there block_size (at_block a (a * block_size + p)) n)
            (a * block_size + p + n)
            (take n (drop p (seen rest last filled)))
    unfolding read_there
    read_there-Rounds a p n before rest sizes e k h l =
        let room = block_size - p in
        let inside = (position_lem block_size positive a p h).1 in
        elim (Bool-cases (n == 0)) [
          | inl c ↦
              let nothing : 0 ≡ n = ground arith in
              rw (← nothing) (
                a,
                some_pair refl (omega arith),
                (omega arith, omega (arith, h), in_chain before rest a e k),
              )
          | inr c ↦ elim (Bool-cases (ltb (p + n) block_size)) [
            | inl d ↦
                let low : p + n ≤ block_size = ground arith in
                rw
                  (
                    c,
                    inside,
                    d,
                    get-at_block a (a * block_size + p) p n before rest sizes e k low,
                    front-seen block_size p n rest last filled sizes low l,
                  )
                  (a, refl, (omega arith, omega (arith, low), in_chain before rest a e k))
            | inr d ↦
                let high : block_size ≤ p + n = ground arith in
                let (split, left) =
                  split-seen block_size p n rest last filled sizes size fits (omega (arith, h)) high
                    l in
                let (at, rounds, ends) =
                  read_blocks-Rounds (suc n) a (a * block_size + p + room) (n - room) before rest
                    sizes e k (omega (arith, h)) (omega arith) left in
                rw
                  (
                    c,
                    inside,
                    d,
                    get-at_block a (a * block_size + p) p room before rest sizes e k
                        (omega (arith, h)),
                    rounds,
                  )
                  (
                    at,
                    some_pair (sym split) (omega (arith, h, high)),
                    same_end at (omega (arith, h, high)) ends,
                  )
          ]
        ]

    -- A read of bytes that are there, by the text.
    pub read_there-text :
        (text : Bytes) (a p n : ℕ)
        → IsText block_size full last filled text
        → a ≤ length full
        → p < block_size
        → a * block_size + p + n ≤ length text
        → Rounds
            (read_there block_size (at_block a (a * block_size + p)) n)
            (a * block_size + p + n)
            (take n (drop (a * block_size + p) text))
    read_there-text text a p n t h k l =
        let before = take a full in
        let rest = drop a full in
        let parts : before ++ rest ≡ full = take-append-drop a full in
        let held : IsText block_size (before ++ rest) last filled text = rw parts t in
        let count : length before ≡ a = omega (arith, length-take a full, h) in
        let from : (j : ℕ) → drop (a * block_size + j) text ≡ drop j (seen rest last filled) = λ j.
          ap (λ i. drop (i * block_size + j) text) (sym count)
          ∙ drop-seen block_size before rest last text filled j held in
        let left : p + n ≤ length (seen rest last filled) = omega (
          arith,
          ap (λ (z : Bytes). length z) (from 0),
          length-drop (a * block_size + 0) text,
          l,
        ) in
        rw (from p) (
          read_there-Rounds a p n before rest (sizes_from block_size before rest held.full_sizes)
            (sym parts) (sym count) k left)
