-- ===== src/MemFile/Write.antt =====
-- What a write leaves in the blocks.
use common_cc.Prelude.{
  ℕ, zero, suc, ◌+◌, ◌-◌, ◌*◌, ◌/◌, ◌%◌, ◌^◌, ◌≤◌, ◌<◌, ◌≡◌, ◌∙◌, refl, ap, inl, inr, false, Option,
  some, List, [], ◌∷◌, ◌++◌, append_assoc, length, take, drop, leb, ltb, if◌then◌else◌, Bool-cases,
  ltb→lt, lt→ltb, leb→le, length-take, length-drop, take-append-drop, ◌>>=◌, Bytes, arith,
}
use mathlib.Core.Path.{subst}
use common_cc.MemFile.{File, as_int, append_block, next_block, put, write_blocks, write}
use common_cc.MemFile.Position.{position_lem, end_lem}
use common_cc.MemFile.Chain.{
  file_of, IsText, IsFile, block_at-last, append_block-file_of, put-file_of, IsText-append,
  IsText-put,
}

pub whole_text :
    (text bytes : Bytes) (n : ℕ) → (text ++ take n bytes) ++ drop n bytes ≡ text ++ bytes
whole_text text bytes n =
    append_assoc text (take n bytes) (drop n bytes) ∙ ap (λ z. text ++ z) (take-append-drop n bytes)

module _ (block_size : ℕ) (fresh : Bytes) (sized : length fresh ≡ block_size)
    (positive : 0 < block_size) where
  -- The outcome of a step on the blocks of `f`.
  abbrev Made : File → Option File → Bytes → Type 0
  Made f made text =
      (full : List Bytes) × (last : Bytes) × (filled : ℕ) × (made
        ≡ some (file_of block_size f full last filled))
      × IsText block_size full last filled text

  next_block-file_of :
      (f : File) (full : List Bytes) (last : Bytes)
      → next_block fresh (file_of block_size f full last block_size)
        ≡ some (file_of block_size f (full ++ (last ∷ [])) fresh 0)
  unfolding next_block
  next_block-file_of f full last =
      rw (block_at-last block_size f full last block_size)
        (append_block-file_of block_size fresh f full last)

  -- A copy that fills the last block up to a count.
  put-filled :
      (f : File) (full : List Bytes) (last text bytes : Bytes) (filled total : ℕ)
      → IsText block_size full last filled text
      → filled + length bytes ≡ total
      → total ≤ block_size
      → (stored : Bytes) × (put (file_of block_size f full last filled) filled bytes
          ≡ some (file_of block_size f full stored total))
        × IsText block_size full stored total (text ++ bytes)
  put-filled f full last text bytes filled total t e h =
      let size = t.last_size in
      let fits : filled + length bytes ≤ block_size = omega (arith, e, h) in
      rw (← e) (
        _,
        put-file_of block_size f full last filled bytes (omega (arith, fits, size)),
        IsText-put block_size full last text bytes filled fits t,
      )

  write_blocks-Made :
      (fuel : ℕ) (f : File) (full : List Bytes) (last text bytes : Bytes)
      → IsText block_size full last block_size text
      → length bytes < fuel
      → Made f
          (write_blocks block_size fresh fuel (file_of block_size f full last block_size) bytes)
          (text ++ bytes)
  unfolding write_blocks
  write_blocks-Made zero f full last text bytes t h = absurd (omega arith)
  write_blocks-Made (suc fuel) f full last text bytes t h =
      let longer = full ++ (last ∷ []) in
      let opened = IsText-append block_size fresh full last text sized t in
      elim (Bool-cases (ltb block_size (length bytes))) [
        | inl c ↦
            let enough = ltb→lt block_size (length bytes) c in
            let (stored, copied, held) =
              put-filled f longer fresh text (take block_size bytes) 0 block_size opened
                (omega (arith, length-take block_size bytes, enough)) (omega arith) in
            let (full2, last2, filled2, made, ends) =
              write_blocks-Made fuel f longer stored (text ++ take block_size bytes)
                (drop block_size bytes) held
                (omega (arith, length-drop block_size bytes, enough, h, positive)) in
            (
              full2,
              last2,
              filled2,
              rw (next_block-file_of f full last, c, copied) made,
              rw (← whole_text text bytes block_size) ends,
            )
        | inr c ↦
            let short : length bytes ≤ block_size = ground arith in
            let (stored, copied, held) =
              put-filled f longer fresh text bytes 0 (length bytes) opened (omega arith) short in
            (longer, stored, length bytes, rw (next_block-file_of f full last, c) copied, held)
      ]

  as_int-small : (n : ℕ) → n < 2 ^ 31 → as_int n ≡ n
  unfolding as_int
  as_int-small n h = ground arith

  -- The first block of a write: one with room, or a new one behind a full one.
  abbrev Opened : File → Option File → ℕ → Bytes → Type 0
  Opened f made at text =
      (full : List Bytes) × (last : Bytes) × (made ≡ some (file_of block_size f full last at))
      × (at < block_size)
      × IsText block_size full last at text

  opened_lem :
      (f : File) (full : List Bytes) (last text : Bytes) (filled : ℕ)
      → IsText block_size full last filled text
      → length full * block_size + filled < 2 ^ 31
      → Opened f
          (if ltb (length full) (as_int (length full * block_size + filled) / block_size)
            then append_block fresh (file_of block_size f full last filled)
            else some (file_of block_size f full last filled))
          ((length full * block_size + filled) % block_size)
          text
  opened_lem f full last text filled t h = elim (Bool-cases (ltb filled block_size)) [
    | inl c ↦
        let below =
          position_lem block_size positive (length full) filled (ltb→lt filled block_size c) in
        let stays : ltb (length full) (length full) ≡ false = ground arith in
        rw (as_int-small (length full * block_size + filled) h, below.0, below.1, stays)
          (full, last, refl, ltb→lt filled block_size c, t)
    | inr c ↦
        let filled_up : filled ≡ block_size = ground (arith, t.fits) in
        let held : IsText block_size full last block_size text =
          subst (λ k. IsText block_size full last k text) filled_up t in
        let over = end_lem block_size positive (length full) in
        let moves = lt→ltb (length full) (suc (length full)) (omega arith) in
        rw (as_int-small (length full * block_size + filled) h, filled_up, over.0, over.1, moves)
          (
            _,
            _,
            append_block-file_of block_size fresh f full last,
            positive,
            IsText-append block_size fresh full last text sized held,
          )
  ]

  -- The copies of a write whose first block is open.
  copies_lem :
      (f : File) (full : List Bytes) (last text bytes : Bytes) (at : ℕ)
      → IsText block_size full last at text
      → at < block_size
      → Made f
          (if leb (at + length bytes) block_size
            then put (file_of block_size f full last at) at bytes
            else (put (file_of block_size f full last at) at (take (block_size - at) bytes)
                >>= (λ h.
                    write_blocks block_size fresh
                      (suc (length bytes))
                      h
                      (drop (block_size - at) bytes))))
          (text ++ bytes)
  copies_lem f full last text bytes at t h =
      let room = block_size - at in
      elim (Bool-cases (leb (at + length bytes) block_size)) [
        | inl c ↦
            let (stored, copied, held) =
              put-filled f full last text bytes at (at + length bytes) t refl
                (leb→le (at + length bytes) block_size c) in
            rw c (full, stored, _, copied, held)
        | inr c ↦
            let long : block_size < at + length bytes = ground arith in
            let (stored, copied, held) =
              put-filled f full last text (take room bytes) at block_size t
                (omega (arith, length-take room bytes, long, h)) (omega arith) in
            let (full2, last2, filled2, made, ends) =
              write_blocks-Made (suc (length bytes)) f full stored (text ++ take room bytes)
                (drop room bytes) held (omega (arith, length-drop room bytes)) in
            rw (c, copied) (full2, last2, filled2, made, rw (← whole_text text bytes room) ends)
      ]

  write-Made :
      (f : File) (full : List Bytes) (last text bytes : Bytes) (filled : ℕ)
      → IsText block_size full last filled text
      → length full * block_size + filled < 2 ^ 31
      → Made f
          (write block_size fresh (file_of block_size f full last filled) bytes)
          (text ++ bytes)
  unfolding write
  write-Made f full last text bytes filled t h =
      let (full2, last2, opened, room, held) = opened_lem f full last text filled t h in
      rw opened (
        copies_lem f full2 last2 text bytes ((length full * block_size + filled) % block_size) held
          room)

  -- A write to a file that holds a text, whose size is below 2 ^ 31, succeeds, and the bytes stand behind the text.
  pub write-IsFile :
      (f : File) (text bytes : Bytes)
      → IsFile block_size f text
      → f.write_ptr < 2 ^ 31
      → (g : File) × (write block_size fresh f bytes ≡ some g) × IsFile block_size g (text ++ bytes)
  write-IsFile f text bytes w h =
      let small : length w.full * block_size + w.filled < 2 ^ 31 =
        omega (arith, h, ap (λ (z : File). z.write_ptr) w.in_heap) in
      let (full2, last2, filled2, made, held) =
        write-Made f w.full w.last text bytes w.filled w.is_text small in
      (
        _,
        ap (λ z. write block_size fresh z bytes) w.in_heap ∙ made,
        record { full = full2; last = last2; filled = filled2; in_heap = refl; is_text = held },
      )
