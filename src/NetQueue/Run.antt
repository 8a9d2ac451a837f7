-- ===== src/NetQueue/Run.antt =====
-- A producer's and a consumer's calls in any order.
use common_cc.Prelude.{
  ℕ, ◌+◌, ◌<◌, ◌^◌, Option, some, List, [], ◌∷◌, ◌≡◌, refl, Bytes, length, ◌>>=◌, true, false, Bool,
  ◌&&◌,
}
use common_cc.Prelude.Int.{ℤ}
use common_cc.NetQueue.{NetQueue, push, pop}
use common_cc.NetQueue.Fifo
use common_cc.NetQueue.Push.{Holds, push_refines}
use common_cc.NetQueue.Pop.{pop_refines}

-- `put content` is `Push(content, size)`; `get buf_size data_len` is `Pop(buf, buf_size, &data_len)`.
pub data Call : Type 0 where
  put : Bytes → Call
  get : ℕ → ℕ → Call

-- The code of a call, `*data_len` and the bytes that it copied out.
abbrev pub Seen : Type 0
Seen = ℤ × ℕ × Bytes

-- No length that is pushed comes near the end of `uint32_t`.
abbrev pub IsSmall : Call → Type 0
IsSmall (put content) = length content + 4 < 2 ^ 32
IsSmall (get buf_size data_len) = Unit {0}

abbrev pub AllSmall : List Call → Type 0
AllSmall [] = Unit {0}
AllSmall (c ∷ cs) = IsSmall c × AllSmall cs

-- The calls on the ring buffer. No lock fails.
unfoldable pub run : (ℕ → ℕ) → NetQueue → List Call → Option (List Seen)
run pipe_write q [] = some []
run pipe_write q (put content ∷ cs) = do
  (code, q') ← push pipe_write false q content
  seen ← run pipe_write q' cs
  some ((code, 0, []) ∷ seen)
run pipe_write q (get buf_size data_len ∷ cs) = do
  r ← pop false q buf_size data_len
  seen ← run pipe_write r.queue cs
  some ((r.code, r.data_len, r.copied) ∷ seen)

-- The same calls on the queue of messages.
unfoldable pub run_fifo : ℕ → List Bytes → List Call → List Seen
run_fifo capacity ms [] = []
run_fifo capacity ms (put content ∷ cs) =
    let (code, ms') = Fifo.push capacity ms content in (code, 0, []) ∷ run_fifo capacity ms' cs
run_fifo capacity ms (get buf_size data_len ∷ cs) =
    let (code, len, content, ms') = Fifo.pop ms buf_size data_len in
    (code, len, content) ∷ run_fifo capacity ms' cs

unlocked : (b : Bool) → (b && false) ≡ false
unlocked true = refl
unlocked false = refl

-- No sequence of calls, with contents that leave room for their header in `uint32_t`, tells a ring
-- buffer from the queue of the messages that it holds, and none reads or writes outside the buffer
-- or fails the assertion.
pub run_refines :
    (pipe_write : ℕ → ℕ) (cs : List Call) {q : NetQueue} (ms : List Bytes)
    → Holds q ms
    → AllSmall cs
    → run pipe_write q cs ≡ some (run_fifo q.m_buffer_len ms cs)
unfolding run run_fifo
run_refines pipe_write [] ms v s = refl
run_refines pipe_write (put content ∷ cs) {q} ms v s =
    let (q', e, w, n, l, p) = push_refines pipe_write content false (unlocked q.m_wlock) v s.0 in
    let ih = run_refines pipe_write cs (Fifo.push q.m_buffer_len ms content).1 w s.1 in
    rw (e, ih, l)
run_refines pipe_write (get buf_size data_len ∷ cs) {q} ms v s =
    let (q', e, w, l, p) = pop_refines ms false buf_size data_len (unlocked q.m_rlock) v in
    let ih = run_refines pipe_write cs (Fifo.pop ms buf_size data_len).3 w s.1 in rw (e, ih, l)
