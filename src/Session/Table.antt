-- ===== src/Session/Table.antt =====
-- The manager's table: who owns which object, and what `Set`, `Get` and `Exist` do to it.
use common_cc.Prelude.{
  ℕ, ◌≡◌, ◌≢◌, refl, Option, none, some, List, [], ◌∷◌, ◌==◌, if◌then◌else◌, arith, All, inl, inr,
  Bool-cases, sym, ==_refl,
}
use mathlib.Core.Path.{subst}
use common_cc.Prelude.Int.{pos, negsuc}
use common_cc.Session.{
  Timeval, Session, Heap, Manager, update, find, erase, set, get, exist, stamped,
}

-- No entry has this pointer, or this key.
abbrev pub Unlisted : ℕ → List (ℕ × ℕ) → Type 0
Unlisted p t = All (λ e. e.1 ≢ p) t

abbrev pub Unused : ℕ → List (ℕ × ℕ) → Type 0
Unused k t = All (λ e. e.0 ≢ k) t

-- Each entry has an object of its own that lives, and a key of its own.
abbrev pub Owns : Heap → List (ℕ × ℕ) → Type 0
Owns h [] = Unit {0}
Owns h ((k, p) ∷ t) = ((s : Session) × (h p ≡ some s)) × Unlisted p t × Unused k t × Owns h t

pub find-Unused : (k : ℕ) (t : List (ℕ × ℕ)) → find k t ≡ none → Unused k t
unfolding find
find-Unused k [] e = tt
find-Unused k ((j, p) ∷ t) e = elim (Bool-cases (j == k)) [
  | inl h ↦ absurd (cc (rw h at e))
  | inr h ↦ (ground (arith, h), find-Unused k t (rw h at e))
]

find_of_Unused : (k : ℕ) (t : List (ℕ × ℕ)) → Unused k t → find k t ≡ none
unfolding find
find_of_Unused k [] u = refl
find_of_Unused k ((j, p) ∷ t) u = ground (arith, find_of_Unused k t u.1)

-- Writing to an object that no entry has.
pub Owns-update :
    (h : Heap) (p : ℕ) (o : Option Session) (t : List (ℕ × ℕ))
    → Unlisted p t
    → Owns h t
    → Owns (update h p o) t
unfolding update
Owns-update h p o [] u w = tt
Owns-update h p o ((k, q) ∷ t) u w =
    ((w.0.0, ground (arith, w.0.1, u.0)), w.1, w.2, Owns-update h p o t u.1 w.3)

erase-Unlisted : (k p : ℕ) (t : List (ℕ × ℕ)) → Unlisted p t → Unlisted p (erase k t)
unfolding erase
erase-Unlisted k p [] u = tt
erase-Unlisted k p ((j, q) ∷ t) u = elim (Bool-cases (j == k)) [
  | inl h ↦ rw h (u.1)
  | inr h ↦ rw h (u.0, erase-Unlisted k p t u.1)
]

erase-Unused : (k i : ℕ) (t : List (ℕ × ℕ)) → Unused i t → Unused i (erase k t)
unfolding erase
erase-Unused k i [] u = tt
erase-Unused k i ((j, q) ∷ t) u = elim (Bool-cases (j == k)) [
  | inl h ↦ rw h (u.1)
  | inr h ↦ rw h (u.0, erase-Unused k i t u.1)
]

erase-Owns : (h : Heap) (k : ℕ) (t : List (ℕ × ℕ)) → Owns h t → Owns h (erase k t)
unfolding erase
erase-Owns h k [] w = tt
erase-Owns h k ((j, q) ∷ t) w = elim (Bool-cases (j == k)) [
  | inl e ↦ rw e (w.3)
  | inr e ↦ rw e (w.0, erase-Unlisted k q t w.1, erase-Unused k j t w.2, erase-Owns h k t w.3)
]

-- What is left after the entry of a key goes.
find-erase :
    (h : Heap) (k j : ℕ) (t : List (ℕ × ℕ))
    → Owns h t
    → find j (erase k t) ≡ (if j == k then none else find j t)
unfolding find erase
find-erase h k j [] w = ground arith
find-erase h k j ((i, q) ∷ t) w = ground (arith, find-erase h k j t w.3, find_of_Unused i t w.2)

listed_ne : (k p q : ℕ) (t : List (ℕ × ℕ)) → find k t ≡ some p → Unlisted q t → p ≢ q
unfolding find
listed_ne k p q [] e u = cc
listed_ne k p q ((j, r) ∷ t) e u = elim (Bool-cases (j == k)) [
  | inl h ↦ λ pq. u.0 (cc (rw h at e))
  | inr h ↦ listed_ne k p q t (rw h at e) u.1
]

erase-freed :
    (h : Heap) (k p : ℕ) (t : List (ℕ × ℕ)) → Owns h t → find k t ≡ some p → Unlisted p (erase k t)
unfolding find erase
erase-freed h k p [] w e = tt
erase-freed h k p ((j, q) ∷ t) w e = elim (Bool-cases (j == k)) [
  | inl i ↦ rw i (subst (λ r. Unlisted r t) (cc (rw i at e)) w.1)
  | inr i ↦
      let there : find k t ≡ some p = rw i at e in
      rw i (λ eq. listed_ne k p q t there w.1 (sym eq), erase-freed h k p t w.3 there)
]

module _ (now : Timeval) (m : Manager) (msg_seq p gap_ms : ℕ) (s : Session) where
  -- `Set` of a new key with an object that is in no entry: the table has it, the object is written,
  -- and each entry still has an object of its own. A following `Get` gives it back and restores the
  -- table.
  pub set_new :
      m.heap p ≡ some s
      → Owns m.heap m.mp_timer_info
      → Unlisted p m.mp_timer_info
      → find msg_seq m.mp_timer_info ≡ none
      → (m' : Manager) × (set now m msg_seq p gap_ms ≡ some (pos 0, m'))
        × Owns m'.heap m'.mp_timer_info
        × (get m' msg_seq ≡ (pos 0, some p, record m' { mp_timer_info = m.mp_timer_info }))
        × (m'.heap p ≡ some (stamped now msg_seq gap_ms s))
  unfolding set get find erase update
  set_new lives owns u e =
      let h : Heap = update m.heap p (some (stamped now msg_seq gap_ms s)) in
      rw (lives, e)
        (
          record { heap = h; mp_timer_info = (msg_seq, p) ∷ m.mp_timer_info },
          refl,
          (
            (stamped now msg_seq gap_ms s, ground arith),
            u,
            find-Unused msg_seq m.mp_timer_info e,
            Owns-update m.heap p (some (stamped now msg_seq gap_ms s)) m.mp_timer_info u owns,
          ),
          ground (arith, ==_refl msg_seq),
          ground arith,
        )

  -- `Set` of a key that is taken answers -1 and leaves the table, but it has written the object.
  set_taken :
      {q : ℕ}
      → m.heap p ≡ some s
      → find msg_seq m.mp_timer_info ≡ some q
      → set now m msg_seq p gap_ms
        ≡ some (negsuc 0, record m { heap = update m.heap p (some (stamped now msg_seq gap_ms s)) })
  unfolding set
  set_taken lives e = rw (lives, e)

-- `Get` of a key gives the object of its entry and takes the entry out: no entry has the object any
-- more, the key is gone, and the other keys and all objects are as before. `Exist` tells that the
-- key was there and that it is gone.
pub get_lem :
    (m : Manager) (msg_seq p : ℕ)
    → Owns m.heap m.mp_timer_info
    → find msg_seq m.mp_timer_info ≡ some p
    → (m' : Manager) × (get m msg_seq ≡ (pos 0, some p, m'))
      × (exist m msg_seq ≡ 0)
      × (exist m' msg_seq ≡ 1)
      × Unlisted p m'.mp_timer_info
      × Owns m'.heap m'.mp_timer_info
      × (m'.heap ≡ m.heap)
      × ((j : ℕ)
          → find j m'.mp_timer_info ≡ (if j == msg_seq then none else find j m.mp_timer_info))
unfolding get exist
get_lem m msg_seq p owns e =
    let t = m.mp_timer_info in
    let gone : find msg_seq (erase msg_seq t) ≡ none =
      rw (find-erase m.heap msg_seq msg_seq t owns, ==_refl msg_seq) in
    (
      record m { mp_timer_info = erase msg_seq t },
      rw (e, get),
      rw (e, exist),
      rw (gone, exist),
      erase-freed m.heap msg_seq p t owns e,
      erase-Owns m.heap msg_seq t owns,
      refl,
      λ j. find-erase m.heap msg_seq j t owns,
    )
