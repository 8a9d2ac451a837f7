-- ===== src/NetQueue/Examples.antt =====
-- Runs of the ring buffer, and its theorems at concrete queues.
use common_cc.Prelude.{
  ℕ, ◌+◌, ◌-◌, ◌^◌, none, some, List, [], ◌∷◌, ◌++◌, ◌≡◌, refl, arith, codes, length, replicate,
  length-replicate, true, false,
}
use common_cc.Prelude.Int.{pos, negsuc}
use common_cc.Prelude.Memory.{store, load}
use common_cc.Prelude.Word.{bytes32, word}
use common_cc.NetQueue.{
  NetQueue, init, push, pop, en_queue, de_queue, copy_in, read_length, copy_out, free_len, used_len,
}
use common_cc.NetQueue.Fifo
use common_cc.NetQueue.Layout.{wrapped}
use common_cc.NetQueue.Push.{Holds, frames, init-Holds, push_refines}
use common_cc.NetQueue.Pop.{pop_refines}
use common_cc.NetQueue.Run.{Call, put, get, run, run_fifo, run_refines}
use common_cc.NetQueue.Wide.{en_queue_wide}

-- A message that starts at index 12 of 16 bytes and goes round the end, just behind its length.
abbrev around : NetQueue
around = record {
  m_buffer = codes "abc" ++ (replicate 9 0 ++ 3 ∷ 0 ∷ 0 ∷ 0 ∷ []);
  m_buffer_len = 16;
  m_wlock = true;
  m_rlock = false;
  m_head = 12;
  m_tail = 3;
  m_enqueue_num = 1;
  m_dequeue_num = 0;
  m_pipe = 1;
}

around-Holds : Holds around (codes "abc" ∷ [])
unfolding frames bytes32
around-Holds = record {
  ring =
      wrapped (3 ∷ 0 ∷ 0 ∷ 0 ∷ []) (replicate 9 0) (codes "abc") refl refl refl (omega arith)
        (omega arith) refl;
  len = refl;
  small = omega arith;
}

abbrev one_more : ℕ → ℕ
one_more n = n + 1

abbrev script : List Call
script =
    put (codes "xy") ∷ put (codes "z") ∷ get 3 7 ∷ get 6 7 ∷ get 100 7 ∷ get 100 7 ∷ get 100 7 ∷ []

-- The second message does not fit; buffers of 3 and of 6 bytes are too small for the first.
run-around :
    run one_more around script
    ≡ some (
        (pos 0, 0, [])
        ∷ (negsuc 0, 0, [])
        ∷ (negsuc 1, 7, [])
        ∷ (negsuc 2, 7, [])
        ∷ (pos 0, 3, codes "abc")
        ∷ (pos 0, 2, codes "xy")
        ∷ (negsuc 0, 0, [])
        ∷ [])
unfolding run push pop en_queue de_queue copy_in read_length copy_out free_len used_len store load
    bytes32 word
run-around = refl

init-Holds_example : Holds (init false true 3 (7 ∷ 7 ∷ 7 ∷ [])) []
init-Holds_example = init-Holds false true (7 ∷ 7 ∷ 7 ∷ []) (omega arith) (omega arith)

push_refines_example :
    (q' : NetQueue) × (push one_more false around (codes "xy") ≡ some (pos 0, q'))
    × Holds q' (codes "abc" ∷ codes "xy" ∷ [])
    × (q'.m_enqueue_num ≡ 2)
    × (q'.m_buffer_len ≡ 16)
    × (q'.m_pipe ≡ 2)
unfolding Fifo.push Fifo.size
push_refines_example = push_refines one_more (codes "xy") false refl around-Holds (omega arith)

pop_refines_example :
    (q' : NetQueue) × (pop true around 10 0
      ≡ some record { code = pos 0; data_len = 3; copied = codes "abc"; queue = q' })
    × Holds q' []
    × (q'.m_buffer_len ≡ 16)
    × (q'.m_pipe ≡ 0)
unfolding Fifo.pop
pop_refines_example = pop_refines (codes "abc" ∷ []) true 10 0 refl around-Holds

run_refines_example : run one_more around script ≡ some (run_fifo 16 (codes "abc" ∷ []) script)
run_refines_example = run_refines one_more script (codes "abc" ∷ []) around-Holds (omega arith)

-- The first length that wraps.
wide_length : ℕ
wide_length = 2 ^ 32 - 4

wide_length_lem : wide_length ≡ 2 ^ 32 - 4
unfolding wide_length
wide_length_lem = refl

wide-length : length {A = ℕ} (replicate wide_length 0) ≡ wide_length
wide-length = length-replicate wide_length 0

en_queue_wide_example : en_queue one_more around (replicate wide_length 0) ≡ none
unfolding Fifo.size
en_queue_wide_example =
    en_queue_wide one_more (replicate wide_length 0) around-Holds
      (omega (arith, wide-length, wide_length_lem)) (omega (arith, wide-length, wide_length_lem))
      (omega (arith, wide-length, wide_length_lem))
