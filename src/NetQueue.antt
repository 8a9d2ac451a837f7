-- ===== src/NetQueue.antt =====
-- `CNetQueue` of net/net_queue.h and net/net_queue.cc: messages of bytes in a ring buffer, each
-- behind its length in four bytes, and a pipe that wakes the reader.
pub mod Layout
pub mod Write
pub mod CopyIn
pub mod Fifo
pub mod Push
pub mod Read
pub mod CopyOut
pub mod Pop
pub mod Run
pub mod Wide
mod Examples
use common_cc.Prelude.{
  ℕ, zero, suc, ◌+◌, ◌-◌, ◌≤◌, Bool, true, false, Option, none, some, List, [], ◌∷◌, ◌++◌, ◌&&◌,
  ltb, leb, ◌==◌, if◌then◌else◌, ◌>>=◌, ◌>>◌, guard, Bytes, length, take, drop, replicate,
}
use common_cc.Prelude.Int.{ℤ, pos, negsuc}
use common_cc.Prelude.Memory.{store, load}
use common_cc.Prelude.Word.{u32, sub32, bytes32, word}

-- The fields of `CNetQueue`. `m_pipe` is the number of bytes that wait in the pipe `m_fd`.
pub record NetQueue : Type 0 where
  pub m_buffer : Bytes
  pub m_buffer_len : ℕ
  pub m_wlock : Bool
  pub m_rlock : Bool
  pub m_head : ℕ
  pub m_tail : ℕ
  pub m_enqueue_num : ℕ
  pub m_dequeue_num : ℕ
  pub m_pipe : ℕ

-- The constructor. The buffer's first contents are not initialised: any bytes of that number.
pub init : Bool → Bool → ℕ → Bytes → NetQueue
init rlock wlock buffer_size memory = record {
  m_buffer = memory;
  m_buffer_len = buffer_size;
  m_wlock = wlock;
  m_rlock = rlock;
  m_head = 0;
  m_tail = 0;
  m_enqueue_num = 0;
  m_dequeue_num = 0;
  m_pipe = 0;
}

-- `IsEmpty`.
pub is_empty : NetQueue → Bool
is_empty q = q.m_head == q.m_tail

-- `sizeof(uint32_t)`.
abbrev pub size_word : ℕ
size_word = 4

-- `read(m_fd[0], &c, 1)` on a pipe that does not block.
abbrev pub pipe_read : ℕ → ℕ
pipe_read n = n - 1

-- An index at the end of the buffer goes back to its start.
abbrev pub reset_at : ℕ → ℕ → ℕ
reset_at len i = if leb len i then 0 else i

-- `free_len` of `EnQueue`, and `used_len` of `DeQueue`.
pub free_len : NetQueue → ℕ
free_len q =
    if ltb q.m_tail q.m_head
    then sub32 q.m_head q.m_tail
    else sub32 (u32 (q.m_head + q.m_buffer_len)) q.m_tail

pub used_len : NetQueue → ℕ
used_len q =
    if ltb q.m_head q.m_tail
    then sub32 q.m_tail q.m_head
    else sub32 (u32 (q.m_tail + q.m_buffer_len)) q.m_head

-- The message fits before the end of the buffer. Each way returns the buffer and `m_tail`.
copy_straight : Bytes → ℕ → Bytes → Option (Bytes × ℕ)
copy_straight buffer tail content = do
  let data_len = length content
  b ← store buffer tail (bytes32 data_len)
  b' ← store b (tail + size_word) content
  some (b', u32 (tail + (data_len + size_word)))

-- Only its length and its first bytes do.
copy_split_content : Bytes → ℕ → ℕ → Bytes → Option (Bytes × ℕ)
copy_split_content buffer buffer_len tail content = do
  let data_len = length content
  let first_len = sub32 (sub32 buffer_len tail) size_word
  b ← store buffer tail (bytes32 data_len)
  b' ← store b (tail + size_word) (take first_len content)
  b'' ← store b' 0 (drop first_len content)
  some (b'', sub32 (u32 (tail + data_len + size_word)) buffer_len)

-- Not even its length does.
copy_split_length : Bytes → ℕ → ℕ → Bytes → Option (Bytes × ℕ)
copy_split_length buffer buffer_len tail content = do
  let data_len = length content
  let tail_len = sub32 buffer_len tail
  let second_len = sub32 size_word tail_len
  b ← store buffer tail (take tail_len (bytes32 data_len))
  b' ← store b 0 (drop tail_len (bytes32 data_len))
  b'' ← store b' second_len content
  some (b'', u32 (second_len + data_len))

pub copy_in : Bytes → ℕ → ℕ → Bytes → Option (Bytes × ℕ)
unfolding copy_straight copy_split_content copy_split_length
copy_in buffer buffer_len tail content =
    let tail_len = sub32 buffer_len tail in
    if leb (u32 (length content + size_word)) tail_len
    then copy_straight buffer tail content
    else if leb size_word tail_len
    then copy_split_content buffer buffer_len tail content
    else copy_split_length buffer buffer_len tail content

-- `if (ret == 0) m_enqueue_num++`.
counted : ℤ → NetQueue → NetQueue
counted (pos zero) q = record q { m_enqueue_num = u32 (q.m_enqueue_num + 1) }
counted _ q = q

-- What the kernel does with one more byte for the pipe: `pipe_write` gives the bytes that wait.
module _ (pipe_write : ℕ → ℕ) where
  -- `EnQueue`. The second argument is `data[0 .. data_len)`.
  pub en_queue : NetQueue → Bytes → Option (ℤ × NetQueue)
  en_queue q content =
      let total_len = u32 (length content + size_word) in
      let copied : Option (ℤ × NetQueue) = do
        (buffer, tail') ← copy_in q.m_buffer q.m_buffer_len q.m_tail content
        some (
          pos 0,
          record q {
            m_buffer = buffer;
            m_tail = reset_at q.m_buffer_len tail';
            m_pipe = pipe_write q.m_pipe;
          },
        )
      in if leb (free_len q) total_len then some (negsuc 0, q) else copied

  -- `Push`. The flag says that `pthread_mutex_lock` failed.
  pub push : Bool → NetQueue → Bytes → Option (ℤ × NetQueue)
  unfolding en_queue counted
  push lock_failed q content =
      let body : Option (ℤ × NetQueue) = do
        (ret, q') ← en_queue q content
        some (ret, counted ret q')
      in if q.m_wlock && lock_failed then some (negsuc 99, q) else body

-- What a call of `DeQueue` returns: its code, `*data_len`, the bytes copied to `buf`, the queue.
pub record Reply : Type 0 where
  pub code : ℤ
  pub data_len : ℕ
  pub copied : Bytes
  pub queue : NetQueue

-- The length word at `head`, which may go round the end of the buffer, and the index behind it.
pub read_length : Bytes → ℕ → ℕ → Option (ℕ × ℕ)
read_length buffer buffer_len head =
    let first_len = sub32 buffer_len head in
    let second_len = sub32 size_word first_len in
    let split_length : Option (ℕ × ℕ) = do
      b ← load buffer head first_len
      b' ← load buffer 0 second_len
      some (word (b ++ b'), second_len)
    in let straight : Option (ℕ × ℕ) = do
      b ← load buffer head size_word
      some (word b, u32 (head + size_word))
      in if leb buffer_len (head + size_word) then split_length else straight

-- The message of `real_len` bytes at `next`, and the new `m_head` before it is put back to 0.
pub copy_out : Bytes → ℕ → ℕ → ℕ → Option (Bytes × ℕ)
copy_out buffer buffer_len next real_len =
    let straight : Option (Bytes × ℕ) = do
      b ← load buffer next real_len
      some (b, u32 (next + real_len))
    in let split_content : Option (Bytes × ℕ) = do
      let first_len = sub32 buffer_len next
      b ← load buffer next first_len
      b' ← load buffer 0 (sub32 real_len first_len)
      some (b ++ b', sub32 real_len first_len)
      in if leb (u32 (next + real_len)) buffer_len then straight else split_content

-- `DeQueue`. `data_len` is the value of `*data_len` before the call.
pub de_queue : NetQueue → ℕ → ℕ → Option Reply
de_queue q buf_size data_len =
    let head = q.m_head in
    let tail = q.m_tail in
    let no_message : Option Reply = some record {
      code = negsuc 0;
      data_len = 0;
      copied = [];
      queue = record q { m_pipe = pipe_read q.m_pipe };
    } in
    let no_room : Option Reply =
      some record { code = negsuc 1; data_len = data_len; copied = []; queue = q } in
    let message : Option Reply = do
      (real_len, next) ← read_length q.m_buffer q.m_buffer_len head
      guard (leb (real_len + size_word) (used_len q))
      let too_long : Option Reply =
          some record {
            code = negsuc 2;
            data_len = u32 (real_len + size_word);
            copied = [];
            queue = q;
          }
      let taken : Option Reply = do
        (content, head') ← copy_out q.m_buffer q.m_buffer_len next real_len
        some record {
          code = pos 0;
          data_len = real_len;
          copied = content;
          queue = record q { m_head = reset_at q.m_buffer_len head'; m_pipe = pipe_read q.m_pipe };
        }
      if ltb buf_size (real_len + size_word) then too_long else taken
    in if head == tail then no_message else if ltb buf_size size_word then no_room else message

-- `if (ret == 0) m_dequeue_num++`.
counted_out : ℤ → NetQueue → NetQueue
counted_out (pos zero) q = record q { m_dequeue_num = u32 (q.m_dequeue_num + 1) }
counted_out _ q = q

-- `Pop`.
pub pop : Bool → NetQueue → ℕ → ℕ → Option Reply
unfolding de_queue counted_out
pop lock_failed q buf_size data_len =
    let body : Option Reply = do
      r ← de_queue q buf_size data_len
      some (record r { queue = counted_out r.code r.queue })
    in if q.m_rlock && lock_failed
      then some record { code = negsuc 99; data_len = data_len; copied = []; queue = q }
      else body
