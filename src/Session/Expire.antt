-- ===== src/Session/Expire.antt =====
-- `CheckExpire`: which sessions it calls, deletes and keeps.
use common_cc.Prelude.{
  ℕ, ◌≡◌, ◌≢◌, ◌+◌, ◌*◌, ◌++◌, leb, ltb, ◌==◌, Option-cases, refl, sym, ◌∙◌, ap, Option, none, some,
  List, [], ◌∷◌, if◌then◌else◌, arith, All, Bool-cases, inl, inr, true, false, Bool,
}
use mathlib.Core.Path.{subst}
use common_cc.Session.{
  Timeval, Session, Heap, Manager, update, is_expired, time_diff_ms, expire, check_from,
  check_expire,
}
use common_cc.Session.Table.{Unlisted, Unused, Owns, Owns-update}

update_ne : (h : Heap) (p : ℕ) (o : Option Session) (q : ℕ) → q ≢ p → update h p o q ≡ h q
unfolding update
update_ne h p o q ne = ground (arith, ne)

update_self : (h : Heap) (p : ℕ) (o : Option Session) → update h p o p ≡ o
unfolding update
update_self h p o = ground arith

-- A time in microseconds.
abbrev pub micros : Timeval → ℕ
micros t = t.tv_sec * 1000000 + t.tv_usec

-- Whether a session has waited for longer than its gap, in whole milliseconds: one more than the gap
-- has passed, or the gap and a part of one, where the microseconds of the clock are below those of
-- the start.
abbrev pub over_time : Timeval → Session → Bool
over_time now s =
    if leb s.last_time.tv_usec now.tv_usec
    then leb (micros s.last_time + (s.gap + 1) * 1000) (micros now)
    else ltb (micros s.last_time + s.gap * 1000) (micros now)

is_expired-over_time : (now : Timeval) (s : Session) → is_expired now s ≡ over_time now s
unfolding is_expired time_diff_ms
is_expired-over_time now s = ground arith

module _ (on_expire : Session → Session) (now : Timeval) where
  -- Whether an object is over time, and what becomes of it: it is gone where it says so after
  -- `OnExpire`.
  abbrev pub late : Option Session → Bool
  late none = false
  late (some s) = over_time now s

  abbrev after_call : Session → Option Session
  after_call s = if s.is_expire_delete then none else some s

  abbrev pub outcome : Option Session → Option Session
  outcome none = none
  outcome (some s) = if over_time now s then after_call (on_expire s) else some s

  abbrev pub over : Heap → ℕ → Bool
  over h p = late (h p)

  abbrev pub fate : Heap → ℕ → Option Session
  fate h p = outcome (h p)

  -- The entries that are within their time, and the objects of the others, in order.
  abbrev pub kept : Heap → List (ℕ × ℕ) → List (ℕ × ℕ)
  kept h [] = []
  kept h ((k, p) ∷ t) = if over h p then kept h t else (k, p) ∷ kept h t

  abbrev pub called : Heap → List (ℕ × ℕ) → List ℕ
  called h [] = []
  called h ((k, p) ∷ t) = if over h p then p ∷ called h t else called h t

  -- The objects of a table, each with its fate, and all others as before.
  abbrev pub Settled : Heap → Heap → List (ℕ × ℕ) → Type 0
  Settled h h' t = All (λ e. h' e.1 ≡ fate h e.1) t × ((q : ℕ) → Unlisted q t → h' q ≡ h q)

  -- An object that no entry has does not matter.
  kept-update :
      (h : Heap) (p : ℕ) (o : Option Session) (t : List (ℕ × ℕ))
      → Unlisted p t
      → kept (update h p o) t ≡ kept h t
  unfolding update
  kept-update h p o [] u = refl
  kept-update h p o ((k, q) ∷ t) u = ground (arith, kept-update h p o t u.1, u.0)

  called-update :
      (h : Heap) (p : ℕ) (o : Option Session) (t : List (ℕ × ℕ))
      → Unlisted p t
      → called (update h p o) t ≡ called h t
  unfolding update
  called-update h p o [] u = refl
  called-update h p o ((k, q) ∷ t) u = ground (arith, called-update h p o t u.1, u.0)

  fate-update :
      (h : Heap) (p : ℕ) (o : Option Session) (q : ℕ) → q ≢ p → fate (update h p o) q ≡ fate h q
  unfolding update
  fate-update h p o q ne = ap outcome (update_ne h p o q ne)

  fates-update :
      (h h' : Heap) (p : ℕ) (o : Option Session) (t : List (ℕ × ℕ))
      → Unlisted p t
      → All (λ e. h' e.1 ≡ fate (update h p o) e.1) t
      → All (λ e. h' e.1 ≡ fate h e.1) t
  fates-update h h' p o [] u a = tt
  fates-update h h' p o ((k, q) ∷ t) u a =
      (a.0 ∙ fate-update h p o q u.0, fates-update h h' p o t u.1 a.1)

  kept-Unlisted : (h : Heap) (p : ℕ) (t : List (ℕ × ℕ)) → Unlisted p t → Unlisted p (kept h t)
  kept-Unlisted h p [] u = tt
  kept-Unlisted h p ((k, q) ∷ t) u = elim (Bool-cases (over h q)) [
    | inl e ↦ rw e (kept-Unlisted h p t u.1)
    | inr e ↦ rw e (u.0, kept-Unlisted h p t u.1)
  ]

  kept-Unused : (h : Heap) (j : ℕ) (t : List (ℕ × ℕ)) → Unused j t → Unused j (kept h t)
  kept-Unused h j [] u = tt
  kept-Unused h j ((k, q) ∷ t) u = elim (Bool-cases (over h q)) [
    | inl e ↦ rw e (kept-Unused h j t u.1)
    | inr e ↦ rw e (u.0, kept-Unused h j t u.1)
  ]

  -- What the loop makes of a heap and a table.
  abbrev Checked : Heap → List (ℕ × ℕ) → Type 0
  Checked h t =
      (h' : Heap) × (check_from on_expire now h t ≡ some (h', kept h t, called h t))
      × Owns h' (kept h t)
      × Settled h h' t

  -- One round: the object is over time, or it stays.
  check_over :
      (h : Heap) (k p : ℕ) (t : List (ℕ × ℕ)) (s : Session)
      → h p ≡ some s
      → is_expired now s ≡ true
      → Unlisted p t
      → Checked (update h p (expire on_expire s)) t
      → Checked h ((k, p) ∷ t)
  unfolding check_from
  check_over h k p t s lives is_late u (h', e, w, settled) =
      let o = expire on_expire s in
      let late_p : over h p ≡ true = ap late lives ∙ sym (is_expired-over_time now s) ∙ is_late in
      let kept_p : kept h ((k, p) ∷ t) ≡ kept (update h p o) t =
        rw late_p (sym (kept-update h p o t u)) in
      let called_p : called h ((k, p) ∷ t) ≡ p ∷ called (update h p o) t =
        rw (late_p, called-update h p o t u) in
      let step : check_from on_expire now h ((k, p) ∷ t)
          ≡ some (h', kept (update h p o) t, p ∷ called (update h p o) t) =
        rw (lives, is_late, e) in
      let passed : over_time now s ≡ true = sym (is_expired-over_time now s) ∙ is_late in
      let fate_p : fate h p ≡ o = ap outcome lives ∙ (rw passed (unfold expire in refl)) in
      (
        h',
        rw (kept_p, called_p) step,
        subst (λ l. Owns h' l) (sym kept_p) w,
        (
          (settled.1 p u ∙ update_self h p o ∙ sym fate_p, fates-update h h' p o t u settled.0),
          λ q v. settled.1 q v.1 ∙ update_ne h p o q (λ eq. v.0 (sym eq)),
        ),
      )

  check_stays :
      (h : Heap) (k p : ℕ) (t : List (ℕ × ℕ)) (s : Session)
      → h p ≡ some s
      → is_expired now s ≡ false
      → Unlisted p t
      → Unused k t
      → Checked h t
      → Checked h ((k, p) ∷ t)
  unfolding check_from
  check_stays h k p t s lives early u v (h', e, w, settled) =
      let late_p : over h p ≡ false = ap late lives ∙ sym (is_expired-over_time now s) ∙ early in
      let kept_p : kept h ((k, p) ∷ t) ≡ (k, p) ∷ kept h t = rw late_p in
      let called_p : called h ((k, p) ∷ t) ≡ called h t = rw late_p in
      let step : check_from on_expire now h ((k, p) ∷ t)
          ≡ some (h', (k, p) ∷ kept h t, called h t) =
        rw (lives, early, e) in
      let not_yet : over_time now s ≡ false = sym (is_expired-over_time now s) ∙ early in
      let fate_p : fate h p ≡ some s = ap outcome lives ∙ (rw not_yet) in
      let same : h' p ≡ some s = settled.1 p u ∙ lives in
      (
        h',
        rw (kept_p, called_p) step,
        subst (λ l. Owns h' l) (sym kept_p)
            ((s, same), kept-Unlisted h p t u, kept-Unused h k t v, w),
        ((same ∙ sym fate_p, settled.0), λ q x. settled.1 q x.1),
      )

  check_from-Checked : (h : Heap) (t : List (ℕ × ℕ)) → Owns h t → Checked h t
  check_from-Checked h [] w = (h, unfold check_from in refl, tt, (tt, λ q u. refl))
  check_from-Checked h ((k, p) ∷ t) w =
      let (s, lives) = w.0 in
      elim (Bool-cases (is_expired now s)) [
        | inl x ↦ check_over h k p t s lives x w.1 (
            check_from-Checked (update h p (expire on_expire s)) t
              (Owns-update h p (expire on_expire s) t w.1 w.3))
        | inr x ↦ check_stays h k p t s lives x w.1 w.2 (check_from-Checked h t w.3)
      ]

  -- `CheckExpire` on a table whose entries have objects of their own touches no deleted object. It
  -- calls the sessions that are over time, in order, takes just those entries out, and deletes their
  -- objects where they say so; all other objects are as before, and each entry that stays has an
  -- object of its own.
  pub check_expire_lem :
      (m : Manager)
      → Owns m.heap m.mp_timer_info
      → (m' : Manager) × (check_expire on_expire now m ≡ some (m', called m.heap m.mp_timer_info))
        × (m'.mp_timer_info ≡ kept m.heap m.mp_timer_info)
        × Owns m'.heap m'.mp_timer_info
        × Settled m.heap m'.heap m.mp_timer_info
  unfolding check_expire
  check_expire_lem m owns =
      let (h', e, w, settled) = check_from-Checked m.heap m.mp_timer_info owns in
      (record { heap = h'; mp_timer_info = kept m.heap m.mp_timer_info }, rw e, refl, w, settled)

  -- Where an entry has a deleted object, the loop does not end well.
  check_from-dead :
      (xs : List (ℕ × ℕ)) (h : Heap) (k p : ℕ) (t : List (ℕ × ℕ))
      → h p ≡ none
      → check_from on_expire now h (xs ++ ((k, p) ∷ t)) ≡ none
  unfolding check_from
  check_from-dead [] h k p t dead = rw dead
  check_from-dead ((i, q) ∷ xs) h k p t dead = elim (Option-cases (h q)) [
    | inl e ↦ rw e
    | inr (s, e) ↦ elim (Bool-cases (is_expired now s)) [
      | inl x ↦
          let apart : p ≢ q =
            λ pq. let wrong : none ≡ some s = sym dead ∙ ap h pq ∙ e in absurd cc in
          let still = update_ne h q (expire on_expire s) p apart ∙ dead in
          rw (e, x, check_from-dead xs (update h q (expire on_expire s)) k p t still)
      | inr x ↦ rw (e, x, check_from-dead xs h k p t dead)
    ]
  ]

  -- Two entries anywhere in the table with one object that deletes itself: when it is over time, the
  -- loop uses a deleted object.
  check_from_shared :
      (xs ys zs : List (ℕ × ℕ)) (h : Heap) (j k p : ℕ) (s : Session)
      → h p ≡ some s
      → is_expired now s ≡ true
      → (on_expire s).is_expire_delete ≡ true
      → check_from on_expire now h (xs ++ ((j, p) ∷ (ys ++ ((k, p) ∷ zs)))) ≡ none
  unfolding check_from expire
  check_from_shared [] ys zs h j k p s lives x deletes =
      rw (lives, x, deletes, check_from-dead ys (update h p none) k p zs (update_self h p none))
  check_from_shared ((i, q) ∷ xs) ys zs h j k p s lives x deletes = elim (Bool-cases (q == p)) [
    | inl a ↦
        let same : q ≡ p = ground (arith, a) in
        rw (
          same,
          lives,
          x,
          deletes,
          check_from-dead xs (update h p none) j p (ys ++ ((k, p) ∷ zs)) (update_self h p none),
        )
    | inr a ↦
        let apart : p ≢ q = λ pq. ground (arith, a, pq) in
        elim (Option-cases (h q)) [
          | inl e ↦ rw e
          | inr (r, e) ↦ elim (Bool-cases (is_expired now r)) [
            | inl f ↦
                let kept_s = update_ne h q (expire on_expire r) p apart ∙ lives in
                let rest =
                  check_from_shared xs ys zs (update h q (expire on_expire r)) j k p s kept_s x
                    deletes in
                rw (e, f) (unfold expire in rw rest)
            | inr f ↦ rw (e, f, check_from_shared xs ys zs h j k p s lives x deletes)
          ]
        ]
  ]

  -- Two entries anywhere in the table with one object, which is over time and asks to be deleted:
  -- `CheckExpire` uses an object after its deletion.
  pub check_expire_shared :
      (h : Heap) (xs ys zs : List (ℕ × ℕ)) (j k p : ℕ) (s : Session)
      → h p ≡ some s
      → over_time now s ≡ true
      → (on_expire s).is_expire_delete ≡ true
      → check_expire on_expire now
          (record { heap = h; mp_timer_info = xs ++ ((j, p) ∷ (ys ++ ((k, p) ∷ zs))) })
        ≡ none
  unfolding check_expire
  check_expire_shared h xs ys zs j k p s lives x deletes =
      rw (check_from_shared xs ys zs h j k p s lives (is_expired-over_time now s ∙ x) deletes)
