-- ===== src/BoundedQueue.antt =====
-- `CQueueT` of templates/queue_t.h: a queue of at most `m_udwMaxNodeNum` nodes between threads,
-- with a semaphore for the nodes that exist, one for the free places, and a mutex. The threads run
-- interleaved, one call of the semaphores, of the mutex or of the queue at a time.
mod Counts
mod Safety
mod Deadline
mod Examples
use common_cc.Prelude.{
  ℕ, ◌+◌, ◌-◌, ◌*◌, ◌/◌, ◌%◌, ◌<◌, ◌≡◌, Bool, true, false, List, [], ◌∷◌, ◌++◌, ltb, leb,
  if◌then◌else◌, length,
}

-- What the threads share. `entered` and `left` list the nodes that have been pushed and popped so
-- far; the code does not keep them.
pub record Shared {ℓ} (A : Type ℓ) : Type ℓ where
  pub queue : List A
  pub sem_exist : ℕ
  pub sem_empty : ℕ
  pub mtx_que : Bool
  pub entered : List A
  pub left : List A

-- Where a thread stands. A pushing thread wants a free place, has it, holds the mutex, has stored
-- the node, or has posted it; a popping thread likewise.
pub data Phase {ℓ} (A : Type ℓ) : Type ℓ where
  idle : Phase A
  push_wants : A → Phase A
  push_has : A → Phase A
  push_locked : A → Phase A
  push_stored : Phase A
  push_posted : Phase A
  pop_wants : Phase A
  pop_has : Phase A
  pop_locked : Phase A
  pop_removed : A → Phase A
  pop_posted : A → Phase A

-- `Init`, with the number of places.
pub init {ℓ} : {A : Type ℓ} → ℕ → Shared A
init max_node_num = record {
  queue = [];
  sem_exist = 0;
  sem_empty = max_node_num;
  mtx_que = false;
  entered = [];
  left = [];
}

module _ {ℓ} {A : Type ℓ} where
  -- `BeEmpty`, and `Size` in `unsigned int`.
  pub be_empty : Shared A → ℕ
  be_empty s = elim (s.queue) [ [] ↦ 1 | x ∷ xs ↦ 0 ]

  pub size : Shared A → ℕ
  size s = length s.queue % 4294967296

  -- `WaitTillPush`, step by step. `sem_wait` passes only where there is a place, may be interrupted,
  -- and may fail.
  pub data PushMove (s : Shared A) : Phase A → Shared A → Phase A → Type ℓ where
    call : (x : A) → PushMove s idle s (push_wants x)
    interrupted : (x : A) → PushMove s (push_wants x) s (push_wants x)
    failed : (x : A) → PushMove s (push_wants x) s idle
    wait :
        (x : A)
        → 0 < s.sem_empty
        → PushMove s (push_wants x) (record s { sem_empty = s.sem_empty - 1 }) (push_has x)
    lock :
        (x : A)
        → s.mtx_que ≡ false
        → PushMove s (push_has x) (record s { mtx_que = true }) (push_locked x)
    store :
        (x : A)
        → PushMove s
            (push_locked x)
            (record s { queue = s.queue ++ (x ∷ []); entered = s.entered ++ (x ∷ []) })
            push_stored
    post : PushMove s push_stored (record s { sem_exist = s.sem_exist + 1 }) push_posted
    unlock : PushMove s push_posted (record s { mtx_que = false }) idle

  -- `WaitTillPop`. `front` wants a node: an empty queue has no such step.
  pub data PopMove (s : Shared A) : Phase A → Shared A → Phase A → Type ℓ where
    call : PopMove s idle s pop_wants
    interrupted : PopMove s pop_wants s pop_wants
    failed : PopMove s pop_wants s idle
    wait : 0 < s.sem_exist → PopMove s pop_wants (record s { sem_exist = s.sem_exist - 1 }) pop_has
    lock : s.mtx_que ≡ false → PopMove s pop_has (record s { mtx_que = true }) pop_locked
    remove :
        (x : A) (rest : List A)
        → s.queue ≡ x ∷ rest
        → PopMove s pop_locked
            (record s { queue = rest; left = s.left ++ (x ∷ []) })
            (pop_removed x)
    post :
        (x : A)
        → PopMove s (pop_removed x) (record s { sem_empty = s.sem_empty + 1 }) (pop_posted x)
    unlock : (x : A) → PopMove s (pop_posted x) (record s { mtx_que = false }) idle

  -- `WaitTimePush` and `WaitTimePop`: as above, and `sem_timedwait` may give up.
  pub data TimedPushMove (s : Shared A) : Phase A → Shared A → Phase A → Type ℓ where
    timed_out : (x : A) → TimedPushMove s (push_wants x) s idle
    as_untimed : {p p' : Phase A} {s' : Shared A} → PushMove s p s' p' → TimedPushMove s p s' p'

  pub data TimedPopMove (s : Shared A) : Phase A → Shared A → Phase A → Type ℓ where
    timed_out : TimedPopMove s pop_wants s idle
    as_untimed : {p p' : Phase A} {s' : Shared A} → PopMove s p s' p' → TimedPopMove s p s' p'

  pub data Move (s : Shared A) (p : Phase A) (s' : Shared A) (p' : Phase A) : Type ℓ where
    push_move : TimedPushMove s p s' p' → Move s p s' p'
    pop_move : TimedPopMove s p s' p' → Move s p s' p'

-- The shared state and the threads: one of the threads moves.
pub record System {ℓ} (A : Type ℓ) : Type ℓ where
  pub shared : Shared A
  pub threads : List (Phase A)

pub data Step {ℓ} {A : Type ℓ} : System A → System A → Type ℓ where
  step :
      {s s' : Shared A} {p p' : Phase A} (before after : List (Phase A))
      → Move s p s' p'
      → Step
          (record { shared = s; threads = before ++ (p ∷ after) })
          (record { shared = s'; threads = before ++ (p' ∷ after) })

pub data Reach {ℓ} {A : Type ℓ} (a : System A) : System A → Type ℓ where
  here : Reach a a
  next : {b c : System A} → Reach a b → Step b c → Reach a c

-- The time at which `WaitTimePush` and `WaitTimePop` give up, in seconds and nanoseconds, from the
-- seconds of `time(NULL)` and a number of microseconds in `unsigned int`.
pub deadline : ℕ → ℕ → ℕ × ℕ
deadline now usec =
    if leb 1000000 usec then (now + usec / 1000000, usec % 1000000 * 1000) else (now, usec * 1000)
