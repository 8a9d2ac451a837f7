-- ===== src/MemFile.antt =====
-- `MemFile` of utils/memfile.h and utils/memfile.cpp: a file in a chain of blocks. The blocks are
-- objects on a heap by address, the first at 0; `none` is a block that was freed, or a fault: a pointer
-- to no block, or a copy outside of one. The size of a block and what a new one holds are parameters.
-- Positions do not wrap around, since no memory holds 2 ^ 64 bytes.
pub mod Chain
pub mod Position
pub mod Write
pub mod Seen
pub mod Rounds
pub mod Read
pub mod Whole
pub mod Files
pub mod Text
mod Examples
use common_cc.Prelude.{
  ℕ, zero, suc, ◌+◌, ◌-◌, ◌*◌, ◌/◌, ◌%◌, ◌^◌, Bool, true, false, Option, none, some, List, [], ◌∷◌,
  ◌++◌, length, take, drop, get_elem?, set, leb, ltb, ◌==◌, if◌then◌else◌, ◌>>=◌, Bytes,
}
use common_cc.Prelude.Memory.{store, load}

-- `block_t`.
pub record Block : Type 0 where
  pub next : Option ℕ
  pub bytes : Bytes

pub record File : Type 0 where
  pub heap : List (Option Block)
  pub current_read : ℕ
  pub current_write : ℕ
  pub current_write_nr : ℕ
  pub read_ptr : ℕ
  pub write_ptr : ℕ
  pub read_caused_eof : Bool

-- The block at an address.
unfoldable pub block_at : List (Option Block) → ℕ → Option Block
block_at heap a = elim (get_elem? heap a) [ none ↦ none | some b ↦ b ]

-- A `size_t` cast to `int`, where a negative result stands for 0: it is compared with a count.
unfoldable pub as_int : ℕ → ℕ
as_int n = if ltb (n % 2 ^ 32) (2 ^ 31) then n % 2 ^ 32 else 0

-- `m_write_ptr - m_read_ptr`.
unfoldable pub available : File → ℕ
available f = (f.write_ptr + 2 ^ 64 - f.read_ptr) % 2 ^ 64

-- `ResetRead` and `ResetWrite`.
unfoldable pub reset_read : File → File
reset_read f = record f { read_ptr = 0; current_read = 0 }

unfoldable pub reset_write : File → File
reset_write f = record f { write_ptr = 0; current_write = 0; current_write_nr = 0 }

-- A `memcpy` into the current block.
unfoldable pub put : File → ℕ → Bytes → Option File
put f at bytes = do
  b ← block_at f.heap f.current_write
  stored ← store b.bytes at bytes
  some (record f {
    heap = set f.heap f.current_write (some (record b { bytes = stored }));
    write_ptr = f.write_ptr + length bytes;
  })

-- A `memcpy` out of the current block.
unfoldable pub get : File → ℕ → ℕ → Option (Bytes × File)
get f at n = do
  b ← block_at f.heap f.current_read
  got ← load b.bytes at n
  some (got, record f { read_ptr = f.read_ptr + n })

module _ (fresh : Bytes) where
  -- The constructor.
  unfoldable pub new : File
  new = record {
    heap = some (record { next = none; bytes = fresh }) ∷ [];
    current_read = 0;
    current_write = 0;
    current_write_nr = 0;
    read_ptr = 0;
    write_ptr = 0;
    read_caused_eof = false;
  }

  -- A new block behind the current one.
  unfoldable pub append_block : File → Option File
  append_block f = do
    b ← block_at f.heap f.current_write
    let a = length f.heap
    let linked = set f.heap f.current_write (some (record b { next = some a }))
    some (record f {
      heap = linked ++ (some (record { next = none; bytes = fresh }) ∷ []);
      current_write = a;
      current_write_nr = suc f.current_write_nr;
    })

  -- The next block, or a new one.
  unfoldable pub next_block : File → Option File
  unfolding append_block
  next_block f = do
    b ← block_at f.heap f.current_write
    elim b.next [
      | some a ↦ some (record f { current_write = a; current_write_nr = suc f.current_write_nr })
      | none ↦ append_block f
    ]

module _ (block_size : ℕ) (fresh : Bytes) where
  -- The part of `Fwrite` behind the first block, with fuel for its rounds.
  unfoldable pub write_blocks : ℕ → File → Bytes → Option File
  write_blocks zero f bytes = none
  write_blocks (suc fuel) f bytes = do
    there ← next_block fresh f
    let more = do
      one ← put there 0 (take block_size bytes)
      write_blocks fuel one (drop block_size bytes)
    let last = put there 0 bytes
    if ltb block_size (length bytes) then more else last

  -- `Fwrite` of bytes. Each round of the loop writes a block.
  unfoldable pub write : File → Bytes → Option File
  write f bytes =
      let at = f.write_ptr % block_size in
      let room = block_size - at in
      let opened =
        if ltb f.current_write_nr (as_int f.write_ptr / block_size)
        then append_block fresh f
        else some f in
      if leb (at + length bytes) block_size then opened >>= (λ g. put g at bytes) else do
        g ← opened
        h ← put g at (take room bytes)
        write_blocks (suc (length bytes)) h (drop room bytes)

module _ (block_size : ℕ) where
  -- The part of `Fread` behind the first block, with fuel for its rounds.
  unfoldable pub read_blocks : ℕ → File → ℕ → Option (Bytes × File)
  read_blocks zero f n = none
  read_blocks (suc fuel) f n = do
    b ← block_at f.heap f.current_read
    elim b.next [
      | none ↦ some ([], f)
      | some a ↦
          let there : File = record f { current_read = a } in
          let more = do
            (one, g) ← get there 0 block_size
            (rest, h) ← read_blocks fuel g (n - block_size)
            some (one ++ rest, h)
          in if ltb block_size n then more else get there 0 n
    ]

  -- The bytes of `Fread`, of which there are `n` at least.
  unfoldable pub read_there : File → ℕ → Option (Bytes × File)
  read_there f n =
      let at = f.read_ptr % block_size in
      let room = block_size - at in
      if n == 0 then some ([], f) else if ltb (at + n) block_size then get f at n else do
        (first, g) ← get f at room
        (rest, h) ← read_blocks (suc n) g (n - room)
        some (first ++ rest, h)

  -- `Fread`.
  unfoldable pub read : File → ℕ → Option (Bytes × File)
  read f n =
      if ltb (available f) n
      then read_there (record f { read_caused_eof = true }) (available f)
      else read_there f n

  -- The loop of `Save`, with fuel for its rounds, and what it hands to `fwrite`.
  unfoldable pub save_from : ℕ → File → Option (Bytes × File)
  save_from zero f = none
  save_from (suc fuel) f = do
    (got, g) ← read f block_size
    let more = do (rest, h) ← save_from fuel g; some (got ++ rest, h)
    if length got == 0 then some ([], g) else more

  -- `Save` where the file opens. Each round but the last reads a byte.
  unfoldable pub save : File → Option (Bytes × File)
  save f = save_from (suc f.write_ptr) (reset_read f)

module _ (block_size : ℕ) (fresh : Bytes) where
  -- The loop of `Load` over what the file holds: `fread` gives `block_size` bytes of it or the rest.
  unfoldable pub load_from : ℕ → File → Bytes → Option File
  load_from zero f content = none
  load_from (suc fuel) f content =
      let more = do
        g ← write block_size fresh f (take block_size content)
        load_from fuel g (drop block_size content)
      in if length content == 0 then some f else more

  -- `Load` where the file opens.
  unfoldable pub load_file : File → Bytes → Option File
  load_file f content =
      load_from (suc (length content)) (record (reset_write f) { current_read = 0 }) content
