-- ===== src/NetQueue/Wide.antt =====
-- `EnQueue` computes the length of a message with its header in `uint32_t`: a length that is too
-- near the end of that type passes the test for room.
use common_cc.Prelude.{
  ℕ, ◌+◌, ◌-◌, ◌≤◌, ◌<◌, ◌^◌, ◌%◌, none, List, ◌≡◌, arith, Bytes, length, drop, length-drop, leb,
  Bool-cases, inl, inr, leb→le, false,
}
use common_cc.Prelude.Memory.{store_fault, store_then_fault}
use common_cc.Prelude.Word.{u32, sub32}
use common_cc.NetQueue.{
  NetQueue, copy_in, copy_straight, copy_split_content, copy_split_length, en_queue, free_len,
  size_word,
}
use common_cc.NetQueue.Fifo
use common_cc.NetQueue.Layout.{IsRing-Measures}
use common_cc.NetQueue.Push.{Holds, free_len_lem}

-- Every way to copy stores more bytes than the buffer has.
module _ (buffer content : Bytes) (tail : ℕ) (small : length buffer ≤ 2 ^ 31)
    (wide : 2 ^ 32 - 4 ≤ length content) where
  straight_fault : copy_straight buffer tail content ≡ none
  unfolding copy_straight
  straight_fault =
      store_then_fault buffer _ tail _
        λ b e. store_fault b content (tail + size_word) _ (omega (arith, e))

  split_length_fault : copy_split_length buffer (length buffer) tail content ≡ none
  unfolding copy_split_length
  split_length_fault =
      store_then_fault buffer _ tail _
        λ b e. store_then_fault b _ 0 _ λ b' e'. store_fault b' content _ _ (omega (arith, e, e'))

  split_content_fault :
      4 ≤ length buffer - tail
      → length buffer - tail < u32 (length content + 4)
      → length content < 2 ^ 32
      → copy_split_content buffer (length buffer) tail content ≡ none
  unfolding copy_split_content
  split_content_fault inside over fits =
      let n : ℕ = sub32 (sub32 (length buffer) tail) size_word in
      store_then_fault buffer _ tail _ λ b e.
        store_then_fault b _ (tail + size_word) _
          λ b' e'. store_fault b' (drop n content) 0 _ (omega (arith, e, e', length-drop n content))

  copy_in_fault :
      tail < length buffer
      → length content < 2 ^ 32
      → copy_in buffer (length buffer) tail content ≡ none
  unfolding copy_in
  copy_in_fault inside fits =
      let total = u32 (length content + size_word) in
      let back = sub32 (length buffer) tail in
      let eb : back ≡ length buffer - tail = omega arith in
      elim (Bool-cases (leb total back)) [
        | inl h ↦ rw h straight_fault
        | inr h ↦ elim (Bool-cases (leb size_word back)) [
          | inl k ↦
              rw (h, k)
                (split_content_fault (omega (arith, leb→le size_word back k)) (ground arith) fits)
          | inr k ↦ rw (h, k) split_length_fault
        ]
      ]

-- A message whose length is at most 4 below the end of `uint32_t` is not refused if its length with
-- the header, computed in that type, is below what is free: `EnQueue` then writes outside the buffer.
pub en_queue_wide :
    (pipe_write : ℕ → ℕ) {q : NetQueue} {ms : List Bytes} (content : Bytes)
    → Holds q ms
    → 2 ^ 32 - 4 ≤ length content
    → length content < 2 ^ 32
    → (length content + 4) % 2 ^ 32 < q.m_buffer_len - Fifo.size ms
    → en_queue pipe_write q content ≡ none
unfolding en_queue
en_queue_wide pipe_write {q} {ms} content v wide fits room =
    let m = IsRing-Measures v.ring in
    let passes : leb (free_len q) (u32 (length content + size_word)) ≡ false =
      ground (arith, free_len_lem v) in
    let fault : copy_in q.m_buffer q.m_buffer_len q.m_tail content ≡ none = rw (v.len) (
      copy_in_fault q.m_buffer content q.m_tail (omega (arith, v.len, v.small)) wide m.tail_in
        fits) in
    rw (passes, fault)
