-- ===== src/MemFile/Files.antt =====
-- A file of the disk, into the blocks and out of them.
use common_cc.Prelude.{
  ℕ, zero, suc, ◌+◌, ◌*◌, ◌^◌, ◌≤◌, ◌<◌, ◌≡◌, ◌∙◌, refl, ap, sym, false, Option, some, List, [],
  ◌∷◌, ◌++◌, append_assoc, append-nil, All, length, take, drop, ◌==◌, if◌then◌else◌, lt→ltb,
  length-take, length-drop, length-append, ◌>>=◌, Bytes, arith,
}
use common_cc.MemFile.{
  File, new, available, reset_read, reset_write, read_there, read, save_from, save, load_from,
  load_file,
}
use common_cc.MemFile.Chain.{joined, file_of, IsText, IsFile}
use common_cc.MemFile.Write.{write-IsFile, whole_text}
use common_cc.MemFile.Seen.{seen, take_over, drop-seen, length-text}
use common_cc.MemFile.Read.{available-left, IsReader, read-IsFile, write_ptr-length}
use common_cc.MemFile.Whole.{read_block}

module _ (block_size : ℕ) (positive : 0 < block_size) where
  -- The rounds of `Save` end where all is read.
  save_from_done :
      (fuel : ℕ) (f : File) (text : Bytes)
      → IsFile block_size f text
      → f.read_ptr ≡ length text
      → length text < 2 ^ 64
      → (g : File) × (save_from block_size (suc fuel) f ≡ some ([], g))
  unfolding save_from read read_there
  save_from_done fuel f text w e h =
      let none_left : available f ≡ 0 =
        available-left block_size f text w (omega (arith, e)) h ∙ omega (arith, e) in
      let short = lt→ltb 0 block_size positive in rw (none_left, short) (_, refl)

  save_last :
      (fuel : ℕ) (g : File) (text got : Bytes)
      → IsFile block_size g text
      → g.read_ptr ≡ length text
      → length text < 2 ^ 64
      → length got < suc fuel
      → (h : File) × (if◌then◌else◌ {A = Option (Bytes × File)}
            (length got == 0)
            (some ([], g))
            (◌>>=◌ {B = Bytes × File} (save_from block_size fuel g) (λ x. some (got ++ x.0, x.1)))
          ≡ some (got, h))
  save_last fuel g text [] w e h l = (g, refl)
  save_last zero g text (c ∷ got) w e h l = absurd (omega arith)
  save_last (suc fuel) g text (c ∷ got) w e h l =
      let (end, done) = save_from_done fuel g text w e h in
      let more : (suc (length got) == 0) ≡ false = ground arith in
      rw (more, done, append-nil got) (end, refl)

  save_from-seen :
      (fuel : ℕ) (f : File) (full before rest : List Bytes) (last text : Bytes) (filled a : ℕ)
      → IsText block_size full last filled text
      → length text < 2 ^ 64
      → full ≡ before ++ rest
      → a ≡ length before
      → All (λ b. length b ≡ block_size) rest
      → length (seen rest last filled) < fuel
      → (g : File) × (save_from block_size fuel (
            file_of block_size
              (record f { current_read = a; read_ptr = a * block_size })
              full
              last
              filled)
          ≡ some (seen rest last filled, g))
  unfolding save_from
  save_from-seen zero f full before rest last text filled a t h e k sizes l = absurd (omega arith)
  save_from-seen (suc fuel) f full before [] last text filled a t h e k sizes l =
      let s : File =
        file_of block_size (record f { current_read = a; read_ptr = a * block_size }) full last
          filled in
      let size = length-text block_size full last text filled t in
      let count : length full ≡ a =
        ap (λ (z : List Bytes). length z) e ∙ omega (arith, length-append before [], k) in
      let total : length text ≡ a * block_size + filled =
        size ∙ ap (λ j. j * block_size + filled) count in
      let at_last : IsReader block_size s text = record {
        is_file = record { full = full; last = last; filled = filled; in_heap = refl; is_text = t };
        place = 0;
        position = omega arith;
        in_block = positive;
        in_chain = omega (arith, count);
        in_text = omega (arith, total);
      } in
      let (g, got, moved, noted, file, at) = read-IsFile block_size s text block_size at_last h in
      let held : IsText block_size (before ++ []) last filled text = rw e at t in
      let from : drop (a * block_size) text ≡ take filled last =
        ap (λ j. drop j text) (omega (arith, ap (λ j. j * block_size) k))
        ∙ drop-seen block_size before [] last text filled 0 held in
      let tail : take block_size (drop (a * block_size) text) ≡ take filled last =
        ap (λ z. take block_size z) from
        ∙ take_over block_size (take filled last)
            (omega (arith, length-take filled last, t.fits)) in
      let ends : g.read_ptr ≡ length text = omega (arith, moved, total, t.fits) in
      rw (got, tail) (save_last fuel g text (take filled last) file ends h l)
  save_from-seen (suc fuel) f full before (b ∷ rest) last text filled a t h e k sizes l =
      let small : length full * block_size + filled < 2 ^ 64 =
        omega (arith, length-text block_size full last text filled t, h) in
      let whole : full ≡ (before ++ (b ∷ [])) ++ rest =
        e ∙ sym (append_assoc before (b ∷ []) rest) in
      let after : suc a ≡ length (before ++ (b ∷ [])) =
        omega (arith, length-append before (b ∷ []), k) in
      let shape : seen (b ∷ rest) last filled ≡ b ++ seen rest last filled =
        append_assoc b (joined rest) (take filled last) in
      let some_bytes : (length b == 0) ≡ false = ground (arith, sizes.0) in
      let (g, saved) =
        save_from-seen fuel f full (before ++ (b ∷ [])) rest last text filled (suc a) t h whole
          after sizes.1
          (omega (
            arith,
            ap (λ (z : Bytes). length z) shape,
            length-append b (seen rest last filled),
            sizes.0,
            l,
          )) in
      rw
        (
          read_block block_size positive f full last filled t.last_size t.fits small a before rest b
              e k sizes,
          some_bytes,
          saved,
          shape,
        )
        (g, refl)

  -- `Save` writes out the text.
  save-text :
      (f : File) (text : Bytes)
      → IsFile block_size f text
      → length text < 2 ^ 64
      → (g : File) × (save block_size f ≡ some (text, g))
  unfolding save reset_read
  save-text f text w h =
      let t = w.is_text in
      let (g, saved) =
        save_from-seen (suc (length text)) f w.full [] w.full w.last text w.filled 0 t h refl refl
          t.full_sizes (omega (arith, ap (λ (z : Bytes). length z) t.holds)) in
      let start : record f { read_ptr = 0; current_read = 0 }
          ≡ file_of block_size (record f { current_read = 0; read_ptr = 0 * block_size }) w.full
              w.last w.filled =
        ap (λ (z : File). record z { read_ptr = 0; current_read = 0 }) w.in_heap
        ∙ ap
            (λ j.
              file_of block_size (record f { current_read = 0; read_ptr = j }) w.full w.last
                w.filled)
            (omega arith) in
      (
        g,
        ap (λ z. save_from block_size (suc f.write_ptr) z) start
            ∙ ap
                (λ k. save_from block_size (suc k) (
                  file_of block_size (record f { current_read = 0; read_ptr = 0 * block_size })
                    w.full w.last w.filled))
                (write_ptr-length block_size f text w)
            ∙ saved
            ∙ ap (λ z. some (z, g)) t.holds,
      )

  module _ (fresh : Bytes) (sized : length fresh ≡ block_size) where
    load_from-IsFile :
        (fuel : ℕ) (f : File) (text content : Bytes)
        → IsFile block_size f text
        → length text + length content < 2 ^ 31
        → length content < fuel
        → (g : File) × (load_from block_size fresh fuel f content ≡ some g)
          × IsFile block_size g (text ++ content)
    unfolding load_from
    load_from-IsFile zero f text content w h l = absurd (omega arith)
    load_from-IsFile (suc fuel) f text [] w h l = (f, refl, rw (append-nil text) w)
    load_from-IsFile (suc fuel) f text (c ∷ content) w h l =
        let more : (suc (length content) == 0) ≡ false = ground arith in
        let piece : Bytes = take block_size (c ∷ content) in
        let rest : Bytes = drop block_size (c ∷ content) in
        let parts : length piece + length rest ≡ suc (length content) =
          omega
            (arith, length-take block_size (c ∷ content), length-drop block_size (c ∷ content)) in
        let left : length rest ≤ length content =
          omega (arith, length-drop block_size (c ∷ content), positive) in
        let (g, wrote, one) =
          write-IsFile block_size fresh sized positive f text piece w
            (omega (arith, write_ptr-length block_size f text w, h)) in
        let (end, loaded, all) =
          load_from-IsFile fuel g (text ++ piece) rest one
            (omega (arith, length-append text piece, parts, h)) (omega (arith, left, l)) in
        rw (more, wrote) (end, loaded, rw (← whole_text text (c ∷ content) block_size) all)

    -- `Load` of a file of less than 2 ^ 31 bytes into a new `MemFile` succeeds, and `Save` then writes
    -- the same bytes.
    pub load_file-save :
        (content : Bytes)
        → length content < 2 ^ 31
        → (f : File) × (g : File) × (load_file block_size fresh (new fresh) content ≡ some f)
          × (save block_size f ≡ some (content, g))
    unfolding load_file reset_write new
    load_file-save content h =
        let empty : IsFile block_size (new fresh) [] = record {
          full = [];
          last = fresh;
          filled = 0;
          in_heap = ap (λ j. record (new fresh) { write_ptr = j }) (omega arith);
          is_text = record { fits = omega arith; last_size = sized; full_sizes = tt; holds = refl };
        } in
        let (f, loaded, held) =
          load_from-IsFile (suc (length content)) (new fresh) [] content empty (omega (arith, h))
            (omega arith) in
        let (g, saved) = save-text f content held (omega (arith, h)) in (f, g, loaded, saved)
