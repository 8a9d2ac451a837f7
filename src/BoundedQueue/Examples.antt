-- ===== src/BoundedQueue/Examples.antt =====
-- One push of two threads' calls, and the theorems about the queue at it.
use common_cc.Prelude.{ℕ, ◌+◌, ◌≤◌, ◌≡◌, refl, [], ◌∷◌, ◌++◌, length, arith, replicate, false, true}
use common_cc.BoundedQueue.{
  Shared, Phase, idle, pop_locked, init, Move, push_move, pop_move, TimedPushMove, TimedPopMove,
  PushMove, PopMove, step, Reach, here, next,
}
use common_cc.BoundedQueue.Counts.{holds_lock, total}
use common_cc.BoundedQueue.Safety.{Reach-safe, Reach-quiet, Reach-advance, start}

-- The first thread pushes 5 and is done; the second has the mutex and is about to pop.
abbrev popping : Shared ℕ
popping = record {
  queue = 5 ∷ [];
  sem_exist = 0;
  sem_empty = 1;
  mtx_que = true;
  entered = 5 ∷ [];
  left = [];
}

abbrev pushed : Shared ℕ
pushed = record popping { sem_exist = 1; mtx_que = false }

pushed-Reach : Reach (start 2 2) (record { shared = pushed; threads = replicate 2 idle })
unfolding init
pushed-Reach =
    next
      (next
        (next
          (next
            (next
              (next here
                (step [] (idle ∷ []) (push_move (TimedPushMove.as_untimed (PushMove.call 5)))))
              (step [] (idle ∷ [])
                (push_move (TimedPushMove.as_untimed (PushMove.wait 5 (omega arith))))))
            (step [] (idle ∷ []) (push_move (TimedPushMove.as_untimed (PushMove.lock 5 refl)))))
          (step [] (idle ∷ []) (push_move (TimedPushMove.as_untimed (PushMove.store 5)))))
        (step [] (idle ∷ []) (push_move (TimedPushMove.as_untimed PushMove.post))))
      (step [] (idle ∷ []) (push_move (TimedPushMove.as_untimed PushMove.unlock)))

popping-Reach :
    Reach (start 2 2) (record { shared = popping; threads = (idle ∷ []) ++ (pop_locked ∷ []) })
popping-Reach =
    next
      (next
        (next pushed-Reach (step (idle ∷ []) [] (pop_move (TimedPopMove.as_untimed PopMove.call))))
        (step (idle ∷ []) [] (pop_move (TimedPopMove.as_untimed (PopMove.wait (omega arith))))))
      (step (idle ∷ []) [] (pop_move (TimedPopMove.as_untimed (PopMove.lock refl))))

Reach-safe_example :
    (length popping.queue ≤ 2)
    × (popping.entered ≡ popping.left ++ popping.queue)
    × (total {A = ℕ} holds_lock ((idle ∷ []) ++ (pop_locked ∷ [])) ≤ 1)
Reach-safe_example = Reach-safe 2 2 popping-Reach

Reach-quiet_example :
    (pushed.sem_exist ≡ length pushed.queue) × (pushed.sem_empty + length pushed.queue ≡ 2)
Reach-quiet_example = Reach-quiet 2 2 2 pushed-Reach

Reach-advance_example : (s' : Shared ℕ) × (p' : Phase ℕ) × Move popping pop_locked s' p'
Reach-advance_example = Reach-advance 2 2 pop_locked (idle ∷ []) [] popping-Reach refl
