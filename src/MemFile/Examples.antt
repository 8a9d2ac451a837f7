-- ===== src/MemFile/Examples.antt =====
-- Runs of the file in memory in blocks of 4 bytes, and its theorems at concrete files.
use common_cc.Prelude.{
  ◌≡◌, refl, ◌⊎◌, ◌+◌, ◌*◌, true, none, some, [], ◌∷◌, ◌++◌, Bytes, arith, ◌>>=◌,
}
use common_cc.Prelude.Memory.{store, load}
use common_cc.MemFile.{
  File, new, block_at, as_int, available, append_block, next_block, put, write_blocks, write, get,
  read_blocks, read_there, read, load_file, save,
}
use common_cc.MemFile.Chain.{file_of, IsFile}
use common_cc.MemFile.Write.{write-IsFile}
use common_cc.MemFile.Read.{IsReader, read-IsFile}
use common_cc.MemFile.Files.{load_file-save}
use common_cc.MemFile.Text.{gets, line_from, put_text, c_text, free, free_from}

abbrev blank : Bytes
blank = 0 ∷ 0 ∷ 0 ∷ 0 ∷ []

abbrev nine : Bytes
nine = 1 ∷ 2 ∷ 3 ∷ 4 ∷ 5 ∷ 6 ∷ 7 ∷ 8 ∷ 9 ∷ []

-- The file that holds them.
abbrev nine_file : File
nine_file =
    file_of 4 (new blank) ((1 ∷ 2 ∷ 3 ∷ 4 ∷ []) ∷ (5 ∷ 6 ∷ 7 ∷ 8 ∷ []) ∷ []) (9 ∷ 0 ∷ 0 ∷ 0 ∷ []) 1

nine_written : write 4 blank (new blank) nine ≡ some nine_file
unfolding write write_blocks new as_int next_block append_block put block_at store
nine_written = refl

nine_file-IsFile : IsFile 4 nine_file nine
nine_file-IsFile = record {
  full = (1 ∷ 2 ∷ 3 ∷ 4 ∷ []) ∷ (5 ∷ 6 ∷ 7 ∷ 8 ∷ []) ∷ [];
  last = 9 ∷ 0 ∷ 0 ∷ 0 ∷ [];
  filled = 1;
  in_heap = refl;
  is_text = record {
    fits = omega arith;
    last_size = refl;
    full_sizes = (refl, (refl, tt));
    holds = refl;
  };
}

write-IsFile_example :
    (g : File) × (write 4 blank nine_file nine ≡ some g) × IsFile 4 g (nine ++ nine)
write-IsFile_example =
    write-IsFile 4 blank refl (omega arith) nine_file nine nine nine_file-IsFile (omega arith)

nine_file-IsReader : IsReader 4 nine_file nine
unfolding new
nine_file-IsReader = record {
  is_file = nine_file-IsFile;
  place = 0;
  position = refl;
  in_block = omega arith;
  in_chain = omega arith;
  in_text = omega arith;
}

read-IsFile_example :
    (g : File) × (read 4 nine_file 20 ≡ some (nine, g))
    × (g.read_ptr ≡ 9)
    × (g.read_caused_eof ≡ true)
    × IsFile 4 g nine
    × (IsReader 4 g nine ⊎ (g.read_ptr ≡ g.current_read * 4 + 4))
unfolding new
read-IsFile_example = read-IsFile 4 nine_file nine 20 nine_file-IsReader (omega arith)

load_file-save_example :
    (f : File) × (g : File) × (load_file 4 blank (new blank) nine ≡ some f)
    × (save 4 f ≡ some (nine, g))
load_file-save_example = load_file-save 4 (omega arith) blank refl nine (omega arith)

-- A read of two blocks stays on the second one, and the next read gives it again.
block_again :
    (do (one, f) ← read 4 nine_file 8; (two, g) ← read 4 f 1; some (one ++ two))
    ≡ some (1 ∷ 2 ∷ 3 ∷ 4 ∷ 5 ∷ 6 ∷ 7 ∷ 8 ∷ 5 ∷ [])
unfolding new read read_there read_blocks available get block_at load
block_again = refl

-- A second `MemFree` of a file of several blocks is a fault.
freed_twice : (do f ← free nine_file; free f) ≡ none
unfolding free free_from block_at new
freed_twice = refl

-- A line up to its end.
a_line :
    (do
      f ← put_text 4 blank (new blank) (65 ∷ 10 ∷ 66 ∷ 67 ∷ [])
      (line, g) ← gets 4 f 10
      (rest, h) ← gets 4 g 10
      some (line ++ rest))
    ≡ some (65 ∷ 66 ∷ [])
unfolding new put_text c_text write write_blocks as_int next_block append_block put block_at store
    gets line_from read read_there read_blocks available get load
a_line = refl
