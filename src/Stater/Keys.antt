-- ===== src/Stater/Keys.antt =====
-- What the operations of `CStater` do to the items of the keys.
use common_cc.Prelude.{
  ℕ, ◌≡◌, refl, true, false, some, List, [], ◌∷◌, Bytes, ◌==◌, arith, Bool-cases, Option-cases, inl,
  inr, ==_refl,
}
use common_cc.Stater.{
  Timeval, StaterItem, Stater, new_item, same_key, find, put, erase, item_or, add_item, begin_stat,
  ended, end_stat, add_stat, add_count, del_stat,
}

pub same_key_refl : (k : Bytes) → same_key k k ≡ true
unfolding same_key
same_key_refl [] = refl
same_key_refl (c ∷ k) = rw (==_refl c) (same_key_refl k)

pub same_key_eq : (j k : Bytes) → same_key j k ≡ true → j ≡ k
unfolding same_key
same_key_eq [] [] h = refl
same_key_eq [] (d ∷ k) h = absurd cc
same_key_eq (c ∷ j) [] h = absurd cc
same_key_eq (c ∷ j) (d ∷ k) h = elim (Bool-cases (c == d)) [
  | inl e ↦
      let rest : j ≡ k = same_key_eq j k (rw e at h) in let first : c ≡ d = ground (arith, e) in cc
  | inr e ↦ absurd (cc (rw e at h))
]

pub find-put :
    (k : Bytes) (item : StaterItem) (t : List (Bytes × StaterItem))
    → find k (put k item t) ≡ some item
unfolding find put
find-put k item [] = rw (same_key_refl k)
find-put k item ((j, old) ∷ t) = elim (Bool-cases (same_key j k)) [
  | inl e ↦ rw (e, e)
  | inr e ↦ rw (e, e, find-put k item t)
]

other_key : (i j k : Bytes) → same_key k j ≡ false → same_key i k ≡ true → same_key i j ≡ false
other_key i j k h e = rw (same_key_eq i k e) h

pub find-put_other :
    (j k : Bytes) (item : StaterItem) (t : List (Bytes × StaterItem))
    → same_key k j ≡ false
    → find j (put k item t) ≡ find j t
unfolding find put
find-put_other j k item [] h = rw h
find-put_other j k item ((i, old) ∷ t) h = elim (Bool-cases (same_key i k)) [
  | inl e ↦ rw (e, other_key i j k h e)
  | inr e ↦ rw (e, find-put_other j k item t h)
]

find-erase_other :
    (j k : Bytes) (t : List (Bytes × StaterItem))
    → same_key k j ≡ false
    → find j (erase k t) ≡ find j t
unfolding find erase
find-erase_other j k [] h = refl
find-erase_other j k ((i, old) ∷ t) h = elim (Bool-cases (same_key i k)) [
  | inl e ↦ rw (e, other_key i j k h e)
  | inr e ↦ rw (e, find-erase_other j k t h)
]

-- No operation on one key changes the item of another.
others_stay :
    (s : Stater) (now st ed : Timeval) (j k : Bytes) (count : ℕ)
    → same_key k j ≡ false
    → (find j (begin_stat now s k).stat ≡ find j s.stat)
      × (find j (end_stat now s k count).stat ≡ find j s.stat)
      × (find j (add_stat now s k st ed count).stat ≡ find j s.stat)
      × (find j (add_count now s k count).stat ≡ find j s.stat)
      × (find j (del_stat s k).stat ≡ find j s.stat)
unfolding begin_stat end_stat add_stat add_count del_stat ended
others_stay s now st ed j k count h = (
  find-put_other j k _ s.stat h,
  elim (Option-cases (find k s.stat)) [
    | inl e ↦ rw e
    | inr (item, e) ↦ rw e (find-put_other j k _ s.stat h)
  ],
  find-put_other j k _ s.stat h,
  find-put_other j k _ s.stat h,
  find-erase_other j k s.stat h,
)

-- `BeginStat` and then `EndStat` record the time between the two calls, in the item that the key
-- had or in a new one.
end_stat-begin_stat :
    (s : Stater) (from to : Timeval) (k : Bytes) (count : ℕ)
    → find k (end_stat to (begin_stat from s k) k count).stat
      ≡ some (
          add_item s
            (record (item_or (find k s.stat) (new_item from)) { begin_time = from })
            from
            to
            count)
unfolding end_stat begin_stat ended add_item
end_stat-begin_stat s from to k count =
    let item : StaterItem = record (item_or (find k s.stat) (new_item from)) {
      begin_time = from;
    } in
    rw (find-put k item s.stat, find-put)
