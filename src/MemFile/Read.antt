-- ===== src/MemFile/Read.antt =====
-- What a read takes out of the blocks.
use Prim.Native.Nat.{min}
use common_cc.Prelude.{
  ℕ, ◌+◌, ◌-◌, ◌*◌, ◌^◌, ◌≤◌, ◌<◌, ◌≡◌, ◌∙◌, refl, ap, sym, ◌⊎◌, inl, inr, true, false, some,
  length, take, drop, ltb, if◌then◌else◌, Bool-cases, ltb→lt, length-drop, Bytes, arith,
}
use common_cc.MemFile.{File, available, read_there, read}
use common_cc.MemFile.Chain.{file_of, IsFile}
use common_cc.MemFile.Seen.{take_over, length-text}
use common_cc.MemFile.Rounds.{at_block, read_there-text}

-- A file, the text of its blocks, and its read side at a byte of them.
pub record IsReader (block_size : ℕ) (f : File) (text : Bytes) : Type 0 where
  pub is_file : IsFile block_size f text
  pub place : ℕ
  pub position : f.read_ptr ≡ f.current_read * block_size + place
  pub in_block : place < block_size
  pub in_chain : f.current_read ≤ f.current_write
  pub in_text : f.read_ptr ≤ length text

read_there-IsFile :
    (block_size : ℕ) (f : File) (text : Bytes) (n : ℕ)
    → IsReader block_size f text
    → f.read_ptr + n ≤ length text
    → (g : File) × (read_there block_size f n ≡ some (take n (drop f.read_ptr text), g))
      × (g.read_ptr ≡ f.read_ptr + n)
      × (g.read_caused_eof ≡ f.read_caused_eof)
      × IsFile block_size g text
      × (IsReader block_size g text ⊎ (g.read_ptr ≡ g.current_read * block_size + block_size))
read_there-IsFile block_size f text n w h =
    let file = w.is_file in
    let t = file.is_text in
    let at : ℕ → File =
      at_block block_size f file.full file.last file.filled t.last_size t.fits
        (omega (arith, w.in_block)) f.current_read in
    let same : f ≡ at (f.current_read * block_size + w.place) = file.in_heap ∙ ap at w.position in
    let (a, got, (low, high, there)) =
      read_there-text block_size f file.full file.last file.filled t.last_size t.fits
        (omega (arith, w.in_block)) text f.current_read w.place n t
        (omega (arith, w.in_chain, ap (λ (z : File). z.current_write) file.in_heap)) w.in_block
        (omega (arith, w.position, h)) in
    let g : File =
      file_of block_size
        (record f { current_read = a; read_ptr = f.current_read * block_size + w.place + n })
        file.full file.last file.filled in
    let same_file : IsFile block_size g text = record {
      full = file.full;
      last = file.last;
      filled = file.filled;
      in_heap = refl;
      is_text = t;
    } in
    (
      g,
      ap (λ z. read_there block_size z n) same
          ∙ got
          ∙ ap (λ q. some (take n (drop q text), g)) (sym w.position),
      ap (λ j. j + n) (sym w.position),
      refl,
      same_file,
      elim (Bool-cases (ltb (g.read_ptr - a * block_size) block_size)) [
        | inl c ↦ inl record {
          is_file = same_file;
          place = g.read_ptr - a * block_size;
          position = omega (arith, low);
          in_block = ltb→lt (g.read_ptr - a * block_size) block_size c;
          in_chain = there;
          in_text = omega (arith, w.position, h);
        }
        | inr c ↦
            let far : block_size ≤ g.read_ptr - a * block_size = ground (arith, c) in
            inr (omega (arith, low, high, far))
      ],
    )

pub available-left :
    (block_size : ℕ) (f : File) (text : Bytes)
    → IsFile block_size f text
    → f.read_ptr ≤ length text
    → length text < 2 ^ 64
    → available f ≡ length text - f.read_ptr
unfolding available
available-left block_size f text w low h =
    let size = length-text block_size w.full w.last text w.filled w.is_text in
    let written : f.write_ptr ≡ length text = ap (λ (z : File). z.write_ptr) w.in_heap ∙ sym size in
    omega (arith, written, low, h)

-- A read of bytes at a place in a file of less than 2 ^ 64 bytes gives the next of them, as many as
-- there are, and moves the position behind them. The end of file is noted where more were asked for. The
-- text is as before. The reader's block is the one that holds the new position, with one exception:
-- where the position is at the end of a block, the reader may still be in that block and not in the
-- next one.
pub read-IsFile :
    (block_size : ℕ) (f : File) (text : Bytes) (n : ℕ)
    → IsReader block_size f text
    → length text < 2 ^ 64
    → (g : File) × (read block_size f n ≡ some (take n (drop f.read_ptr text), g))
      × (g.read_ptr ≡ min (f.read_ptr + n) (length text))
      × (g.read_caused_eof
          ≡ (if ltb (length text) (f.read_ptr + n) then true else f.read_caused_eof))
      × IsFile block_size g text
      × (IsReader block_size g text ⊎ (g.read_ptr ≡ g.current_read * block_size + block_size))
unfolding read
read-IsFile block_size f text n w h =
    let left = available-left block_size f text w.is_file w.in_text h in
    elim (Bool-cases (ltb (length text) (f.read_ptr + n))) [
      | inl c ↦
          let over : ltb (length text - f.read_ptr) n ≡ true = ground (arith, w.in_text) in
          let marked : IsReader block_size (record f { read_caused_eof = true }) text = record {
            is_file = record {
              full = w.is_file.full;
              last = w.is_file.last;
              filled = w.is_file.filled;
              in_heap = ap (λ (z : File). record z { read_caused_eof = true }) w.is_file.in_heap;
              is_text = w.is_file.is_text;
            };
            place = w.place;
            position = w.position;
            in_block = w.in_block;
            in_chain = w.in_chain;
            in_text = w.in_text;
          } in
          let (g, got, moved, noted, file, at) =
            read_there-IsFile block_size (record f { read_caused_eof = true }) text
              (length text - f.read_ptr) marked (omega (arith, w.in_text)) in
          let all : take (length text - f.read_ptr) (drop f.read_ptr text)
              ≡ take n (drop f.read_ptr text) =
            take_over (length text - f.read_ptr) (drop f.read_ptr text)
              (omega (arith, length-drop f.read_ptr text))
            ∙ sym (
                take_over n (drop f.read_ptr text) (ground (arith, length-drop f.read_ptr text))) in
          rw (left, over, c)
            (g, got ∙ ap (λ z. some (z, g)) all, ground (arith, moved, w.in_text), noted, file, at)
      | inr c ↦
          let under : ltb (length text - f.read_ptr) n ≡ false = ground (arith, w.in_text) in
          let (g, got, moved, noted, file, at) =
            read_there-IsFile block_size f text n w (ground arith) in
          rw (left, under, c) (g, got, ground (arith, moved), noted, file, at)
    ]

-- The position of the next write is the length of the text.
pub write_ptr-length :
    (block_size : ℕ) (f : File) (text : Bytes)
    → IsFile block_size f text
    → f.write_ptr ≡ length text
write_ptr-length block_size f text w =
    ap (λ (z : File). z.write_ptr) w.in_heap
    ∙ sym (length-text block_size w.full w.last text w.filled w.is_text)
