-- ===== src/MemFile/Chain.antt =====
-- The chain of blocks as one text.
use common_cc.Prelude.{
  ℕ, suc, ◌+◌, ◌*◌, ◌≤◌, ◌≡◌, ◌∙◌, refl, ap, sym, Option, none, some, List, [], ◌∷◌, ◌++◌,
  append_assoc, append-nil, All, length, take, drop, set, get_elem?-middle, set-middle,
  length-append, length-take, take-append, take-length, Bytes, arith,
}
use common_cc.Prelude.Memory.{store-some, store-length}
use common_cc.MemFile.{Block, File, block_at, append_block, put}

-- Blocks that are full, each with the next address, from an address on.
abbrev pub links : ℕ → List Bytes → List (Option Block)
links i [] = []
links i (b ∷ bs) = some (record { next = some (suc i); bytes = b }) ∷ links (suc i) bs

abbrev pub joined : List Bytes → Bytes
joined [] = []
joined (b ∷ bs) = b ++ joined bs

-- The last block of a chain.
abbrev pub last_block : Bytes → Option Block
last_block b = some (record { next = none; bytes = b })

length-links : (i : ℕ) (bs : List Bytes) → length (links i bs) ≡ length bs
length-links i [] = refl
length-links i (b ∷ bs) = ap suc (length-links (suc i) bs)

links-append :
    (i : ℕ) (bs : List Bytes) (b : Bytes)
    → links i (bs ++ (b ∷ []))
      ≡ links i bs ++ (some (record { next = some (suc (i + length bs)); bytes = b }) ∷ [])
links-append i [] b =
    let same : suc i ≡ suc (i + 0) = omega arith in
    ap (λ k. some (record { next = some k; bytes = b }) ∷ []) same
links-append i (c ∷ bs) b =
    let same : suc (suc i + length bs) ≡ suc (i + suc (length bs)) = omega arith in
    ap (λ z. some (record { next = some (suc i); bytes = c }) ∷ z)
      (links-append (suc i) bs b
        ∙ ap (λ k. links (suc i) bs ++ (some (record { next = some k; bytes = b }) ∷ [])) same)

joined-append : (bs : List Bytes) (b : Bytes) → joined (bs ++ (b ∷ [])) ≡ joined bs ++ b
joined-append [] b = append-nil b
joined-append (c ∷ bs) b =
    ap (λ z. c ++ z) (joined-append bs b) ∙ sym (append_assoc c (joined bs) b)

abbrev with_blocks : File → List (Option Block) → ℕ → ℕ → ℕ → File
with_blocks f h c n w = record f {
  heap = h;
  current_write = c;
  current_write_nr = n;
  write_ptr = w;
}

with_blocks-eq :
    (f : File) {h h' : List (Option Block)} {c c' n n' w w' : ℕ}
    → h ≡ h'
    → c ≡ c'
    → n ≡ n'
    → w ≡ w'
    → some (with_blocks f h c n w) ≡ some (with_blocks f h' c' n' w')
with_blocks-eq f p q r s = rw (p, q, r, s) refl

module _ (block_size : ℕ) where
  -- A file with the full blocks and the last one, which is filled so far. The read side is that of `f`.
  abbrev pub file_of : File → List Bytes → Bytes → ℕ → File
  file_of f full last filled = record f {
    heap = links 0 full ++ (last_block last ∷ []);
    current_write = length full;
    current_write_nr = length full;
    write_ptr = length full * block_size + filled;
  }

  -- Such blocks hold a text.
  pub record IsText (full : List Bytes) (last : Bytes) (filled : ℕ) (text : Bytes) : Type 0 where
    pub fits : filled ≤ block_size
    pub last_size : length last ≡ block_size
    pub full_sizes : All (λ b. length b ≡ block_size) full
    pub holds : joined full ++ take filled last ≡ text

  pub record IsFile (f : File) (text : Bytes) : Type 0 where
    pub full : List Bytes
    pub last : Bytes
    pub filled : ℕ
    pub in_heap : f ≡ file_of f full last filled
    pub is_text : IsText full last filled text

  pub block_at-last :
      (f : File) (full : List Bytes) (last : Bytes) (filled : ℕ)
      → block_at (file_of f full last filled).heap (length full) ≡ last_block last
  unfolding block_at
  block_at-last f full last filled =
      let size : length full ≡ length (links 0 full) = sym (length-links 0 full) in
      rw (size, block_at, get_elem?-middle (links 0 full) [] (last_block last)) refl

  set-last :
      (full : List Bytes) (last : Bytes) (b : Option Block)
      → set (links 0 full ++ (last_block last ∷ [])) (length full) b ≡ links 0 full ++ (b ∷ [])
  set-last full last b =
      let size : length full ≡ length (links 0 full) = sym (length-links 0 full) in
      rw (size, set-middle (links 0 full) [] (last_block last) b) refl

  length-append_last :
      (full : List Bytes) (last : Bytes) → length (full ++ (last ∷ [])) ≡ suc (length full)
  length-append_last full last = omega (arith, length-append full (last ∷ []))

  -- A block behind a full one.
  pub append_block-file_of :
      (fresh : Bytes) (f : File) (full : List Bytes) (last : Bytes)
      → append_block fresh (file_of f full last block_size)
        ≡ some (file_of f (full ++ (last ∷ [])) fresh 0)
  unfolding append_block
  append_block-file_of fresh f full last =
      let next : List (Option Block) = links 0 full ++ (last_block last ∷ []) in
      let size : length next ≡ suc (length full) =
        omega (arith, length-append (links 0 full) (last_block last ∷ []), length-links 0 full) in
      let count : suc (length full) ≡ length (full ++ (last ∷ [])) =
        sym (length-append_last full last) in
      let nil : 0 + length full ≡ length full = omega arith in
      let linked : set next (length full)
              (some (record { next = some (length next); bytes = last }))
            ++ (last_block fresh ∷ [])
          ≡ links 0 (full ++ (last ∷ [])) ++ (last_block fresh ∷ []) =
        rw
          (
            set-last full last (some (record { next = some (length next); bytes = last })),
            links-append 0 full last,
            size,
            nil,
          )
          refl in
      let moved : length full * block_size + block_size
          ≡ length (full ++ (last ∷ [])) * block_size + 0 =
        omega (arith, ap (λ k. k * block_size) count) in
      rw (block_at-last f full last block_size) (with_blocks-eq f linked (size ∙ count) count moved)

  -- A copy that fits behind what the last block holds.
  pub put-file_of :
      (f : File) (full : List Bytes) (last : Bytes) (filled : ℕ) (bytes : Bytes)
      → filled + length bytes ≤ length last
      → put (file_of f full last filled) filled bytes
        ≡ some (
            file_of f full
              (take filled last ++ (bytes ++ drop (filled + length bytes) last))
              (filled + length bytes))
  unfolding put
  put-file_of f full last filled bytes h =
      let stored : Bytes = take filled last ++ (bytes ++ drop (filled + length bytes) last) in
      rw (block_at-last f full last filled, store-some last bytes filled h)
        (with_blocks-eq f (set-last full last (last_block stored)) refl refl (omega arith))

  All-append_last :
      (bs : List Bytes) (b : Bytes)
      → All (λ b. length b ≡ block_size) bs
      → length b ≡ block_size
      → All (λ b. length b ≡ block_size) (bs ++ (b ∷ []))
  All-append_last [] b h k = (k, tt)
  All-append_last (c ∷ bs) b h k = (h.0, All-append_last bs b h.1 k)

  -- The text that the blocks hold, behind each step.
  pub IsText-append :
      (fresh : Bytes) (full : List Bytes) (last text : Bytes)
      → length fresh ≡ block_size
      → IsText full last block_size text
      → IsText (full ++ (last ∷ [])) fresh 0 text
  IsText-append fresh full last text h t =
      let whole : take block_size last ≡ last = rw (← t.last_size) (take-length last) in
      let same : joined full ++ last ≡ text = ap (λ z. joined full ++ z) (sym whole) ∙ t.holds in
      record {
        fits = omega arith;
        last_size = h;
        full_sizes = All-append_last full last t.full_sizes t.last_size;
        holds = append-nil (joined (full ++ (last ∷ []))) ∙ joined-append full last ∙ same;
      }

  pub IsText-put :
      (full : List Bytes) (last text bytes : Bytes) (filled : ℕ)
      → filled + length bytes ≤ block_size
      → IsText full last filled text
      → IsText full
          (take filled last ++ (bytes ++ drop (filled + length bytes) last))
          (filled + length bytes)
          (text ++ bytes)
  IsText-put full last text bytes filled h t =
      let size = t.last_size in
      let rest : Bytes = drop (filled + length bytes) last in
      let before : length (take filled last) ≡ filled =
        omega (arith, length-take filled last, t.fits, size) in
      let cut : length (take filled last ++ bytes) ≡ filled + length bytes =
        omega (arith, length-append (take filled last) bytes, before) in
      let taken : take (filled + length bytes) (take filled last ++ (bytes ++ rest))
          ≡ take filled last ++ bytes =
        ap (λ k. take k (take filled last ++ (bytes ++ rest))) (sym cut)
        ∙ ap (λ z. take (length (take filled last ++ bytes)) z)
            (sym (append_assoc (take filled last) bytes rest))
        ∙ take-append (take filled last ++ bytes) rest in
      record {
        fits = h;
        last_size =
            store-length last bytes filled (store-some last bytes filled (omega (arith, h, size)))
            ∙ size;
        full_sizes = t.full_sizes;
        holds =
            ap (λ z. joined full ++ z) taken
            ∙ sym (append_assoc (joined full) (take filled last) bytes)
            ∙ ap (λ z. z ++ bytes) t.holds;
      }
