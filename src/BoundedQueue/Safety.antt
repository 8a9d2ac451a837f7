-- ===== src/BoundedQueue/Safety.antt =====
-- What holds of the queue in every state that the threads can reach.
use common_cc.Prelude.{
  ℕ, suc, zero, ◌+◌, ◌≤◌, ◌<◌, ◌≡◌, refl, List, [], ◌∷◌, ◌++◌, length, arith, replicate,
}
use common_cc.BoundedQueue.{
  Shared, Phase, idle, push_has, push_locked, push_stored, push_posted, push_wants, pop_wants,
  pop_has, pop_locked, pop_removed, pop_posted, init, Move, push_move, pop_move, TimedPushMove,
  TimedPopMove, PushMove, PopMove, System, Step, step, Reach, here, next,
}
use common_cc.BoundedQueue.Counts.{
  holds_place, holds_node, holds_lock, total, total-append, taken, taken_le, Move-Conserves,
}

first_of_length {ℓ} :
    {A : Type ℓ} (l : List A) → 0 < length l → (x : A) × (rest : List A) × (l ≡ x ∷ rest)
first_of_length [] h = absurd (omega arith)
first_of_length (x ∷ l) h = (x, l, refl)

module _ {ℓ} {A : Type ℓ} (max_node_num : ℕ) where
  -- The semaphores count what the queue and the threads leave, one thread at most is at the queue,
  -- and the nodes leave in the order in which they entered.
  pub record IsSound (y : System A) : Type ℓ where
    pub places :
        y.shared.sem_empty + length y.shared.queue + total holds_place y.threads ≡ max_node_num
    pub nodes : length y.shared.queue ≡ y.shared.sem_exist + total holds_node y.threads
    pub mutex : taken y.shared.mtx_que ≡ total holds_lock y.threads
    pub order : y.shared.entered ≡ y.shared.left ++ y.shared.queue

  -- A new queue and threads that have not called yet.
  abbrev pub start : ℕ → System A
  start n = record { shared = init max_node_num; threads = replicate n idle }

  total_idle : (w : Phase A → ℕ) (n : ℕ) → w idle ≡ 0 → total w (replicate n idle) ≡ 0
  total_idle w zero e = refl
  total_idle w (suc n) e = omega (arith, total_idle w n e)

  start-IsSound : (n : ℕ) → IsSound (start n)
  unfolding init
  start-IsSound n = record {
    places = omega (arith, total_idle holds_place n refl);
    nodes = omega (arith, total_idle holds_node n refl);
    mutex = omega (arith, total_idle holds_lock n refl);
    order = refl;
  }

  Step-IsSound : {y z : System A} → Step y z → IsSound y → IsSound z
  Step-IsSound (step {s} {s'} {p} {p'} before after m) i =
      let c = Move-Conserves m in
      let old = λ (w : Phase A → ℕ). total-append w before (p ∷ after) in
      let new = λ (w : Phase A → ℕ). total-append w before (p' ∷ after) in
      record {
        places = omega (arith, c.places, i.places, old holds_place, new holds_place);
        nodes = omega (arith, c.nodes, i.nodes, old holds_node, new holds_node);
        mutex = omega (
          arith,
          c.mutex (omega (arith, i.mutex, old holds_lock)),
          i.mutex,
          old holds_lock,
          new holds_lock,
        );
        order = c.order i.order;
      }

  pub Reach-IsSound : (n : ℕ) {z : System A} → Reach (start n) z → IsSound z
  Reach-IsSound n here = start-IsSound n
  Reach-IsSound n (next r st) = Step-IsSound st (Reach-IsSound n r)

  -- In every state that any number of threads can reach, whatever is timed out or interrupted: the
  -- queue has at most the nodes that it was made for, the nodes popped and then those in the queue
  -- are the nodes pushed, in order, and one thread at most holds the mutex.
  pub Reach-safe :
      (n : ℕ) {z : System A}
      → Reach (start n) z
      → (length z.shared.queue ≤ max_node_num)
        × (z.shared.entered ≡ z.shared.left ++ z.shared.queue)
        × (total holds_lock z.threads ≤ 1)
  Reach-safe n {z} r =
      let i = Reach-IsSound n r in
      (omega (arith, i.places), i.order, omega (arith, i.mutex, taken_le z.shared.mtx_que))

  -- When no thread is inside a call, the semaphores are exact: no place and no node is lost.
  pub Reach-quiet :
      (n k : ℕ) {s : Shared A}
      → Reach (start n) (record { shared = s; threads = replicate k idle })
      → (s.sem_exist ≡ length s.queue) × (s.sem_empty + length s.queue ≡ max_node_num)
  Reach-quiet n k r =
      let i = Reach-IsSound n r in
      (
        omega (arith, i.nodes, total_idle holds_node k refl),
        omega (arith, i.places, total_idle holds_place k refl),
      )

  -- A thread that holds the mutex is never stuck: it has a next step, and a popping thread finds a
  -- node.
  pub Reach-advance :
      (n : ℕ) {s : Shared A} (p : Phase A) (before after : List (Phase A))
      → Reach (start n) (record { shared = s; threads = before ++ (p ∷ after) })
      → holds_lock p ≡ 1
      → (s' : Shared A) × (p' : Phase A) × Move s p s' p'
  Reach-advance n {s} (push_locked x) before after r h =
      (_, push_stored, push_move (TimedPushMove.as_untimed (PushMove.store x)))
  Reach-advance n {s} push_stored before after r h =
      (_, push_posted, push_move (TimedPushMove.as_untimed PushMove.post))
  Reach-advance n {s} push_posted before after r h =
      (_, idle, push_move (TimedPushMove.as_untimed PushMove.unlock))
  Reach-advance n {s} pop_locked before after r h =
      let i = Reach-IsSound n r in
      let some_node : 0 < length s.queue =
        omega (arith, i.nodes, total-append holds_node before (pop_locked ∷ after)) in
      let (x, rest, e) = first_of_length s.queue some_node in
      (_, pop_removed x, pop_move (TimedPopMove.as_untimed (PopMove.remove x rest e)))
  Reach-advance n {s} (pop_removed x) before after r h =
      (_, pop_posted x, pop_move (TimedPopMove.as_untimed (PopMove.post x)))
  Reach-advance n {s} (pop_posted x) before after r h =
      (_, idle, pop_move (TimedPopMove.as_untimed (PopMove.unlock x)))
  Reach-advance n idle before after r h = absurd (omega arith)
  Reach-advance n (push_wants x) before after r h = absurd (omega arith)
  Reach-advance n (push_has x) before after r h = absurd (omega arith)
  Reach-advance n pop_wants before after r h = absurd (omega arith)
  Reach-advance n pop_has before after r h = absurd (omega arith)
