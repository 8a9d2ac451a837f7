-- ===== src/NetQueue/Pop.antt =====
-- `DeQueue` and `Pop` hand out the oldest message, or say why not and change nothing.
use common_cc.Prelude.{
  ℕ, zero, suc, ◌+◌, ◌-◌, ◌<◌, ◌^◌, some, List, [], ◌∷◌, ◌++◌, ◌≡◌, refl, ◌∙◌, inl, inr, arith,
  Bytes, length, length-append, append_assoc, Bool-cases, leb, ltb, ◌==◌, le→leb, true, false, Bool,
  ◌&&◌,
}
use common_cc.Prelude.Int.{ℤ, pos, negsuc}
use common_cc.Prelude.Word.{u32, bytes32}
use common_cc.NetQueue.{
  NetQueue, read_length, copy_out, used_len, counted_out, de_queue, pop, reset_at, size_word,
  pipe_read,
}
use common_cc.NetQueue.Fifo
use common_cc.NetQueue.Layout.{IsRing, IsRing-Measures}
use common_cc.NetQueue.CopyIn.{frame, length-frame}
use common_cc.NetQueue.CopyOut.{read_length_lem, copy_out_lem}
use common_cc.NetQueue.Push.{Holds, frames, length-frames}

-- What is used by the indices is what the messages take.
pub used_len_lem :
    {q : NetQueue} {ms : List Bytes}
    → Holds q ms
    → (q.m_head == q.m_tail) ≡ false
    → used_len q ≡ Fifo.size ms
unfolding used_len
used_len_lem {q} {ms} v ne =
    let m = IsRing-Measures v.ring in
    ground (arith, m.size, m.head_in, m.tail_in, m.held_lt, v.len, v.small, length-frames ms)

-- The indices meet exactly when no message is held.
empty_lem : {q : NetQueue} → Holds q [] → (q.m_head == q.m_tail) ≡ true
unfolding frames
empty_lem {q} v = let m = IsRing-Measures v.ring in ground (arith, m.size, m.head_in, m.tail_in)

nonempty_lem :
    {q : NetQueue} (m : Bytes) (ms : List Bytes) → Holds q (m ∷ ms) → (q.m_head == q.m_tail) ≡ false
unfolding Fifo.size
nonempty_lem {q} m ms v =
    let d = IsRing-Measures v.ring in
    ground (arith, d.size, d.held_lt, d.head_in, d.tail_in, length-frames (m ∷ ms))

-- The oldest message, read from the buffer.
read_oldest :
    {q : NetQueue} (m : Bytes) (ms : List Bytes)
    → Holds q (m ∷ ms)
    → (next head' : ℕ) × (read_length q.m_buffer q.m_buffer_len q.m_head ≡ some (length m, next))
      × (copy_out q.m_buffer q.m_buffer_len next (length m) ≡ some (m, head'))
      × IsRing q.m_buffer (reset_at q.m_buffer_len head') q.m_tail (frames ms)
unfolding frames Fifo.size
read_oldest {q} m ms v =
    let d = IsRing-Measures v.ring in
    let l : length m < 2 ^ 31 =
      omega
        (arith, d.held_lt, v.len, v.small, length-append (frame m) (frames ms), length-frame m) in
    let ring : IsRing q.m_buffer q.m_head q.m_tail (bytes32 (length m) ++ (m ++ frames ms)) =
      rw (← append_assoc (bytes32 (length m)) m (frames ms)) v.ring in
    let (next, e, r) =
      read_length_lem (length m) (m ++ frames ms) (omega (arith, v.len, v.small)) (omega arith)
        ring in
    let (head', e', r') = copy_out_lem m (frames ms) (omega (arith, v.len, v.small)) r in
    rw (v.len) (next, head', e, e', r')

-- The assertion of `DeQueue` holds.
assertion_lem :
    {q : NetQueue} (m : Bytes) (ms : List Bytes)
    → Holds q (m ∷ ms)
    → leb (length m + size_word) (used_len q) ≡ true
unfolding Fifo.size
assertion_lem {q} m ms v =
    le→leb (length m + size_word) (used_len q) (omega (arith, used_len_lem v (nonempty_lem m ms v)))

-- One byte is read from the pipe, unless the caller's buffer was too small.
abbrev pub answered : ℤ → ℕ
answered (negsuc (suc n)) = 0
answered _ = 1

-- `DeQueue` does what the queue of messages does: no fault, and its assertion holds.
pub de_queue_refines :
    {q : NetQueue} (ms : List Bytes) (buf_size data_len : ℕ)
    → Holds q ms
    → let (code, len, content, ms') = Fifo.pop ms buf_size data_len in
      (q' : NetQueue) × (de_queue q buf_size data_len
        ≡ some record { code = code; data_len = len; copied = content; queue = q' })
      × Holds q' ms'
      × (q'.m_buffer_len ≡ q.m_buffer_len)
      × (q'.m_pipe ≡ q.m_pipe - answered code)
unfolding de_queue Fifo.pop Fifo.size
de_queue_refines {q} [] buf_size data_len v = rw (empty_lem v) (
  record q { m_pipe = pipe_read q.m_pipe },
  refl,
  record { ring = v.ring; len = v.len; small = v.small },
  refl,
  refl,
)
de_queue_refines {q} (m ∷ ms) buf_size data_len v =
    let (next, head', e, e', r) = read_oldest m ms v in
    let d = IsRing-Measures v.ring in
    let short : u32 (length m + size_word) ≡ length m + 4 =
      omega (arith, d.held_lt, v.len, v.small, length-frames (m ∷ ms)) in
    rw (nonempty_lem m ms v, e, assertion_lem m ms v, e', short)
      (elim (Bool-cases (ltb buf_size 4)) [
        | inl h ↦ rw h (q, refl, v, refl, omega arith)
        | inr h ↦ elim (Bool-cases (ltb buf_size (length m + 4))) [
          | inl k ↦ rw (h, k) (q, refl, v, refl, omega arith)
          | inr k ↦
              rw (h, k)
                (
                  record q { m_head = reset_at q.m_buffer_len head'; m_pipe = pipe_read q.m_pipe },
                  refl,
                  record { ring = r; len = v.len; small = v.small },
                  refl,
                  refl,
                )
        ]
      ])

-- The counters are no part of what the queue holds.
counted_out-Holds :
    {q : NetQueue} {ms : List Bytes} (code : ℤ) → Holds q ms → Holds (counted_out code q) ms
unfolding counted_out
counted_out-Holds (pos zero) v = record { ring = v.ring; len = v.len; small = v.small }
counted_out-Holds (pos (suc n)) v = v
counted_out-Holds (negsuc n) v = v

counted_out-buffer_len :
    (code : ℤ) (q : NetQueue) → (counted_out code q).m_buffer_len ≡ q.m_buffer_len
unfolding counted_out
counted_out-buffer_len (pos zero) q = refl
counted_out-buffer_len (pos (suc n)) q = refl
counted_out-buffer_len (negsuc n) q = refl

counted_out-pipe : (code : ℤ) (q : NetQueue) → (counted_out code q).m_pipe ≡ q.m_pipe
unfolding counted_out
counted_out-pipe (pos zero) q = refl
counted_out-pipe (pos (suc n)) q = refl
counted_out-pipe (negsuc n) q = refl

-- `Pop` with its lock held, on a buffer that holds a queue of messages, answers as the queue does and
-- leaves a buffer that holds the queue's new messages. It takes one byte from the pipe for each
-- message that it hands out, and for each call that finds no message.
pub pop_refines :
    {q : NetQueue} (ms : List Bytes) (lock_failed : Bool) (buf_size data_len : ℕ)
    → (q.m_rlock && lock_failed) ≡ false
    → Holds q ms
    → let (code, len, content, ms') = Fifo.pop ms buf_size data_len in
      (q' : NetQueue) × (pop lock_failed q buf_size data_len
        ≡ some record { code = code; data_len = len; copied = content; queue = q' })
      × Holds q' ms'
      × (q'.m_buffer_len ≡ q.m_buffer_len)
      × (q'.m_pipe ≡ q.m_pipe - answered code)
unfolding pop
pop_refines {q} ms lock_failed buf_size data_len free v =
    let code = (Fifo.pop ms buf_size data_len).0 in
    let (q', e, w, l, p) = de_queue_refines ms buf_size data_len v in
    rw (free, e)
      (
        counted_out code q',
        refl,
        counted_out-Holds code w,
        counted_out-buffer_len code q' ∙ l,
        counted_out-pipe code q' ∙ p,
      )
