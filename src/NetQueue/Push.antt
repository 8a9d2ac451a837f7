-- ===== src/NetQueue/Push.antt =====
-- `EnQueue` and `Push` append one message, or refuse it and change nothing.
use common_cc.Prelude.{
  ℕ, zero, suc, ◌+◌, ◌-◌, ◌≤◌, ◌<◌, ◌^◌, some, List, [], ◌∷◌, ◌++◌, ◌≡◌, refl, sym, ap, ◌∙◌, inl,
  inr, arith, Bytes, length, length-append, append_assoc, append-nil, Bool-cases, leb,
  if◌then◌else◌, false, Bool, ◌&&◌,
}
use common_cc.Prelude.Int.{ℤ, pos, negsuc}
use common_cc.Prelude.Word.{u32}
use common_cc.NetQueue.{NetQueue, copy_in, free_len, counted, en_queue, push, init, reset_at}
use common_cc.NetQueue.Fifo
use common_cc.NetQueue.Layout.{IsRing, straight, IsRing-Measures}
use common_cc.NetQueue.CopyIn.{frame, length-frame, copy_in_lem}

-- The messages as they stand in the buffer.
unfoldable pub frames : List Bytes → Bytes
frames [] = []
frames (m ∷ ms) = frame m ++ frames ms

pub frames-append : (ms : List Bytes) (m : Bytes) → frames (ms ++ (m ∷ [])) ≡ frames ms ++ frame m
unfolding frames
frames-append [] m = append-nil (frame m)
frames-append (x ∷ ms) m =
    ap (λ l. frame x ++ l) (frames-append ms m) ∙ sym (append_assoc (frame x) (frames ms) (frame m))

pub length-frames : (ms : List Bytes) → length (frames ms) ≡ Fifo.size ms
unfolding frames Fifo.size
length-frames [] = refl
length-frames (m ∷ ms) =
    omega (arith, length-append (frame m) (frames ms), length-frame m, length-frames ms)

-- A queue that holds the messages `ms`.
pub record Holds (q : NetQueue) (ms : List Bytes) : Type 0 where
  pub ring : IsRing q.m_buffer q.m_head q.m_tail (frames ms)
  pub len : q.m_buffer_len ≡ length q.m_buffer
  pub small : q.m_buffer_len ≤ 2 ^ 31

-- A new queue holds nothing.
pub init-Holds :
    (rlock wlock : Bool) (memory : Bytes)
    → 0 < length memory
    → length memory ≤ 2 ^ 31
    → Holds (init rlock wlock (length memory) memory) []
unfolding init frames
init-Holds rlock wlock memory h small = record {
  ring = straight [] memory refl refl refl h;
  len = refl;
  small = small;
}

-- The counters are no part of what the queue holds.
counted-Holds : {q : NetQueue} {ms : List Bytes} (code : ℤ) → Holds q ms → Holds (counted code q) ms
unfolding counted
counted-Holds (pos zero) v = record { ring = v.ring; len = v.len; small = v.small }
counted-Holds (pos (suc n)) v = v
counted-Holds (negsuc n) v = v

counted-buffer_len : (code : ℤ) (q : NetQueue) → (counted code q).m_buffer_len ≡ q.m_buffer_len
unfolding counted
counted-buffer_len (pos zero) q = refl
counted-buffer_len (pos (suc n)) q = refl
counted-buffer_len (negsuc n) q = refl

counted-pipe : (code : ℤ) (q : NetQueue) → (counted code q).m_pipe ≡ q.m_pipe
unfolding counted
counted-pipe (pos zero) q = refl
counted-pipe (pos (suc n)) q = refl
counted-pipe (negsuc n) q = refl

-- What is free by the indices is what the messages leave.
pub free_len_lem :
    {q : NetQueue} {ms : List Bytes} → Holds q ms → free_len q ≡ q.m_buffer_len - Fifo.size ms
unfolding free_len
free_len_lem {q} {ms} v =
    let m = IsRing-Measures v.ring in
    ground (arith, m.size, m.head_in, m.tail_in, v.len, v.small, length-frames ms)

-- With room, the message is copied behind the others.
append-Holds :
    {q : NetQueue} {ms : List Bytes} (content : Bytes) (pipe : ℕ)
    → Holds q ms
    → Fifo.size ms + length content + 4 < q.m_buffer_len
    → (out : Bytes × ℕ) × (copy_in q.m_buffer q.m_buffer_len q.m_tail content ≡ some out)
      × Holds
          (record q { m_buffer = out.0; m_tail = reset_at q.m_buffer_len out.1; m_pipe = pipe })
          (ms ++ (content ∷ []))
append-Holds {q} {ms} content pipe v room =
    let (out, e, c) =
      copy_in_lem content (omega (arith, v.len, v.small)) v.ring
        (omega (arith, v.len, length-frames ms)) in
    (
      out,
      rw (v.len) e,
      record {
        ring = rw (v.len, frames-append ms content) c.ring;
        len = v.len ∙ sym c.same;
        small = v.small;
      },
    )

module _ (pipe_write : ℕ → ℕ) {q : NetQueue} {ms : List Bytes} (content : Bytes) where
  -- `EnQueue` does what the queue of messages does, and faults on no valid queue.
  pub en_queue_refines :
      Holds q ms
      → length content + 4 < 2 ^ 32
      → let (code, ms') = Fifo.push q.m_buffer_len ms content in
        (q' : NetQueue) × (en_queue pipe_write q content ≡ some (code, q'))
        × Holds q' ms'
        × (q'.m_enqueue_num ≡ q.m_enqueue_num)
        × (q'.m_buffer_len ≡ q.m_buffer_len)
        × (q'.m_pipe ≡ (
            if leb (q.m_buffer_len - Fifo.size ms) (length content + 4)
            then q.m_pipe
            else pipe_write q.m_pipe))
  unfolding en_queue Fifo.push
  en_queue_refines v fits =
      let et : u32 (length content + 4) ≡ length content + 4 = omega arith in
      rw (free_len_lem v, et)
        (elim (Bool-cases (leb (q.m_buffer_len - Fifo.size ms) (length content + 4))) [
          | inl h ↦ rw h (q, refl, v, refl, refl, refl)
          | inr h ↦ rw h (
              let (out, e, w) =
                append-Holds content (pipe_write q.m_pipe) v (ground (arith, v.small)) in
              rw e (_, refl, w, refl, refl, refl))
        ])

  -- `Push` with its lock held, on a buffer that holds a queue of messages, answers as the queue does
  -- and leaves a buffer that holds the queue's new messages, if the length of the content and its
  -- header fits `uint32_t`. It counts the messages that it appends, and wakes the reader for each.
  pub push_refines :
      (lock_failed : Bool)
      → (q.m_wlock && lock_failed) ≡ false
      → Holds q ms
      → length content + 4 < 2 ^ 32
      → let (code, ms') = Fifo.push q.m_buffer_len ms content in
        let refused = leb (q.m_buffer_len - Fifo.size ms) (length content + 4) in
        (q' : NetQueue) × (push pipe_write lock_failed q content ≡ some (code, q'))
        × Holds q' ms'
        × (q'.m_enqueue_num ≡ (if refused then q.m_enqueue_num else u32 (q.m_enqueue_num + 1)))
        × (q'.m_buffer_len ≡ q.m_buffer_len)
        × (q'.m_pipe ≡ (if refused then q.m_pipe else pipe_write q.m_pipe))
  unfolding push counted Fifo.push
  push_refines lock_failed free v fits =
      let code = (Fifo.push q.m_buffer_len ms content).0 in
      let (q', e, w, n, l, p) = en_queue_refines v fits in
      rw (free, e)
        (
          counted code q',
          refl,
          counted-Holds code w,
          ground (arith, n),
          counted-buffer_len code q' ∙ l,
          counted-pipe code q' ∙ p,
        )
