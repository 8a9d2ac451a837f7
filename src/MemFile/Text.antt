-- ===== src/MemFile/Text.antt =====
-- Lines, formatted text and the end of a `MemFile` of utils/memfile.cpp.
use common_cc.Prelude.{
  ℕ, zero, suc, ◌-◌, ◌==◌, Option, none, some, List, [], ◌∷◌, length, take, set, ◌++◌,
  if◌then◌else◌, ◌>>=◌, Bytes,
}
use common_cc.MemFile.{Block, File, block_at, read, write}

-- The loop of `Fgets` for `left` bytes at most, with fuel for its rounds, and the text in front of the
-- terminator. Each round takes a byte or notes the end of file.
unfoldable pub line_from : ℕ → ℕ → ℕ → File → Option (Bytes × File)
line_from zero block_size left f = none
line_from (suc fuel) block_size left f =
    let more = do
      (got, g) ← read block_size f 1
      let none_yet = line_from fuel block_size left g
      let next = do (rest, h) ← line_from fuel block_size (left - 1) g; some (got ++ rest, h)
      elim got [ [] ↦ none_yet | c ∷ cs ↦ if c == 10 then some ([], g) else next ]
    in if left == 0 then some ([], f) else if f.read_caused_eof then some ([], f) else more

-- `Fgets` of a size, which is 1 at least.
unfoldable pub gets : ℕ → File → ℕ → Option (Bytes × File)
gets block_size f size = line_from (suc size) block_size (size - 1) f

-- The part of a text in front of its first zero byte.
unfoldable pub c_text : Bytes → Bytes
c_text [] = []
c_text (c ∷ s) = let rest = c_text s in if c == 0 then [] else c ∷ rest

-- `Fprintf` where `vsnprintf` would print the text into a buffer without end.
unfoldable pub put_text : ℕ → Bytes → File → Bytes → Option File
put_text block_size fresh f printed =
    write block_size fresh f (c_text (take (block_size - 1) printed))

-- `delete` of a block and of those behind it, with fuel for the blocks. The pointers to them stay.
unfoldable pub free_from : ℕ → List (Option Block) → ℕ → Option (List (Option Block))
free_from zero heap a = none
free_from (suc fuel) heap a = do
  b ← block_at heap a
  let rest = set heap a none
  elim b.next [ none ↦ some rest | some c ↦ free_from fuel rest c ]

-- `MemFree`.
unfoldable pub free : File → Option File
free f = do
  base ← block_at f.heap 0
  elim base.next [
    | none ↦ some f
    | some a ↦ do rest ← free_from (length f.heap) f.heap a; some (record f { heap = rest })
  ]
