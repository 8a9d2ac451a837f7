-- ===== src/BoundedQueue/Counts.antt =====
-- How many threads stand where, and what one move does to the numbers.
use common_cc.Prelude.{
  ℕ, suc, ◌+◌, ◌≤◌, ◌≡◌, refl, Bool, true, false, List, [], ◌∷◌, ◌++◌, length, length-append, arith,
  append_assoc, ap, ◌∙◌, sym,
}
use common_cc.BoundedQueue.{
  Shared, Phase, push_has, push_locked, push_stored, push_posted, pop_has, pop_locked, pop_removed,
  pop_posted, PushMove, PopMove, TimedPushMove, TimedPopMove, Move, push_move, pop_move, call,
  interrupted, failed, wait, lock, store, post, unlock, remove,
}

abbrev pub taken : Bool → ℕ
taken true = 1
taken false = 0

pub taken_le : (b : Bool) → taken b ≤ 1
taken_le true = omega arith
taken_le false = omega arith

module _ {ℓ} {A : Type ℓ} where
  -- A thread with a place for its node, or with a node's place not yet given back.
  abbrev pub holds_place : Phase A → ℕ
  holds_place (push_has x) = 1
  holds_place (push_locked x) = 1
  holds_place (pop_removed x) = 1
  holds_place _ = 0

  -- A thread whose node is stored and not yet posted, or that may take a node.
  abbrev pub holds_node : Phase A → ℕ
  holds_node push_stored = 1
  holds_node pop_has = 1
  holds_node pop_locked = 1
  holds_node _ = 0

  -- A thread that holds the mutex.
  abbrev pub holds_lock : Phase A → ℕ
  holds_lock (push_locked x) = 1
  holds_lock push_stored = 1
  holds_lock push_posted = 1
  holds_lock pop_locked = 1
  holds_lock (pop_removed x) = 1
  holds_lock (pop_posted x) = 1
  holds_lock _ = 0

  abbrev pub total : (Phase A → ℕ) → List (Phase A) → ℕ
  total w [] = 0
  total w (p ∷ ps) = w p + total w ps

  pub total-append :
      (w : Phase A → ℕ) (ps qs : List (Phase A)) → total w (ps ++ qs) ≡ total w ps + total w qs
  total-append w [] qs = omega arith
  total-append w (p ∷ ps) qs = omega (arith, total-append w ps qs)

  -- One move, seen by its thread: places, nodes and the mutex are conserved, and the nodes pushed
  -- are those popped with those in the queue.
  pub record Conserves (s : Shared A) (p : Phase A) (s' : Shared A) (p' : Phase A) : Type ℓ where
    pub places :
        s'.sem_empty + length s'.queue + holds_place p'
        ≡ s.sem_empty + length s.queue + holds_place p
    pub nodes :
        length s'.queue + s.sem_exist + holds_node p ≡ length s.queue + s'.sem_exist + holds_node p'
    pub mutex :
        holds_lock p ≤ taken s.mtx_que
        → taken s'.mtx_que + holds_lock p ≡ taken s.mtx_que + holds_lock p'
    pub order : s.entered ≡ s.left ++ s.queue → s'.entered ≡ s'.left ++ s'.queue

  pub PushMove-Conserves :
      {s s' : Shared A} {p p' : Phase A} → PushMove s p s' p' → Conserves s p s' p'
  PushMove-Conserves (call x) = record {
    places = omega arith;
    nodes = omega arith;
    mutex = λ h. omega arith;
    order = λ h. h;
  }
  PushMove-Conserves (interrupted x) = record {
    places = omega arith;
    nodes = omega arith;
    mutex = λ h. omega arith;
    order = λ h. h;
  }
  PushMove-Conserves (failed x) = record {
    places = omega arith;
    nodes = omega arith;
    mutex = λ h. omega arith;
    order = λ h. h;
  }
  PushMove-Conserves (wait x h) = record {
    places = omega arith;
    nodes = omega arith;
    mutex = λ h. omega arith;
    order = λ h. h;
  }
  PushMove-Conserves {s} (lock x h) = record {
    places = omega arith;
    nodes = omega arith;
    mutex = λ _. rw h;
    order = λ o. o;
  }
  PushMove-Conserves {s} (store x) = record {
    places = omega (arith, length-append s.queue (x ∷ []));
    nodes = omega (arith, length-append s.queue (x ∷ []));
    mutex = λ h. refl;
    order = λ h. ap (λ l. l ++ (x ∷ [])) h ∙ append_assoc s.left s.queue (x ∷ []);
  }
  PushMove-Conserves post = record {
    places = omega arith;
    nodes = omega arith;
    mutex = λ h. omega arith;
    order = λ h. h;
  }
  PushMove-Conserves {s} unlock = record {
    places = omega arith;
    nodes = omega arith;
    mutex = λ h. omega (arith, taken_le s.mtx_que);
    order = λ o. o;
  }

  pub PopMove-Conserves :
      {s s' : Shared A} {p p' : Phase A} → PopMove s p s' p' → Conserves s p s' p'
  PopMove-Conserves call = record {
    places = omega arith;
    nodes = omega arith;
    mutex = λ h. omega arith;
    order = λ h. h;
  }
  PopMove-Conserves interrupted = record {
    places = omega arith;
    nodes = omega arith;
    mutex = λ h. omega arith;
    order = λ h. h;
  }
  PopMove-Conserves failed = record {
    places = omega arith;
    nodes = omega arith;
    mutex = λ h. omega arith;
    order = λ h. h;
  }
  PopMove-Conserves (wait h) = record {
    places = omega arith;
    nodes = omega arith;
    mutex = λ h. omega arith;
    order = λ h. h;
  }
  PopMove-Conserves {s} (lock h) = record {
    places = omega arith;
    nodes = omega arith;
    mutex = λ _. rw h;
    order = λ o. o;
  }
  PopMove-Conserves {s} (remove x rest e) =
      let l : length s.queue ≡ suc (length rest) = ap (λ (q : List A). length q) e in
      record {
        places = omega (arith, l);
        nodes = omega (arith, l);
        mutex = λ h. refl;
        order = λ h. h ∙ ap (λ q. s.left ++ q) e ∙ sym (append_assoc s.left (x ∷ []) rest);
      }
  PopMove-Conserves (post x) = record {
    places = omega arith;
    nodes = omega arith;
    mutex = λ h. omega arith;
    order = λ h. h;
  }
  PopMove-Conserves {s} (unlock x) = record {
    places = omega arith;
    nodes = omega arith;
    mutex = λ h. omega (arith, taken_le s.mtx_que);
    order = λ o. o;
  }

  pub Move-Conserves : {s s' : Shared A} {p p' : Phase A} → Move s p s' p' → Conserves s p s' p'
  Move-Conserves (push_move (TimedPushMove.timed_out x)) = record {
    places = omega arith;
    nodes = omega arith;
    mutex = λ h. omega arith;
    order = λ h. h;
  }
  Move-Conserves (push_move (TimedPushMove.as_untimed m)) = PushMove-Conserves m
  Move-Conserves (pop_move TimedPopMove.timed_out) = record {
    places = omega arith;
    nodes = omega arith;
    mutex = λ h. omega arith;
    order = λ h. h;
  }
  Move-Conserves (pop_move (TimedPopMove.as_untimed m)) = PopMove-Conserves m
