-- ===== src/Strings/Substitute.antt =====
-- What `ReplaceStr` and `RemoveStr` make of a text: it is cut at the places where the text to look for
-- stands, from the left, and put together with the new text between the parts.
use common_cc.Prelude.{
  ◌%◌, ◌^◌, ltb, lt→ltb, length-append, length-take, ℕ, zero, suc, ◌+◌, ◌<◌, ◌≡◌, ◌∙◌, refl, ap,
  sym, ◌⊎◌, true, false, ◌==◌, none, some, List, [], ◌∷◌, ◌++◌, append-nil, All, length, take, drop,
  length-drop, Bytes, arith, Bool-cases, Option-cases, inl, inr, ◌>>=◌,
}
use mathlib.Core.Option.{some-injective}
use common_cc.Prelude.Text.{find, starts_with}
use common_cc.Prelude.Search.{find-step}
use common_cc.Strings.Replace.{
  replace_from, replace_str, remove_from, remove_str, kept_length, go_on, int_pos,
}

-- Parts of a text with another text between them.
abbrev pub joined : Bytes → Bytes → List Bytes → Bytes
joined sep part [] = part
joined sep part (p ∷ ps) = part ++ (sep ++ joined sep p ps)

-- Where a text begins with another, that is its front.
starts_with-front : (s t : Bytes) → starts_with s t ≡ true → s ≡ t ++ drop (length t) s
unfolding starts_with
starts_with-front s [] h = refl
starts_with-front [] (x ∷ t) h = absurd cc
starts_with-front (y ∷ s) (x ∷ t) h = elim (Bool-cases (y == x)) [
  | inl e ↦
      let same : y ≡ x = ground (arith, e) in
      let rest : s ≡ t ++ drop (length t) s = starts_with-front s t (rw e at h) in
      ap (λ z. z ∷ s) same ∙ ap (λ z. x ∷ z) rest
  | inr e ↦ absurd (cc (rw e at h))
]

starts_with-take :
    (n : ℕ) (s t : Bytes) → starts_with s t ≡ false → starts_with (take n s) t ≡ false
unfolding starts_with
starts_with-take n s [] h = h
starts_with-take zero s (x ∷ t) h = refl
starts_with-take (suc n) [] (x ∷ t) h = refl
starts_with-take (suc n) (y ∷ s) (x ∷ t) h = elim (Bool-cases (y == x)) [
  | inl e ↦ rw e (starts_with-take n s t (rw e at h))
  | inr e ↦ rw e refl
]

-- A text that is found stands at the front or is found behind the first byte.
find-cases :
    (y : ℕ) (s t : Bytes) (at : ℕ)
    → find (y ∷ s) t ≡ some at
    → (starts_with (y ∷ s) t ≡ true) × (at ≡ 0)
      ⊎ (starts_with (y ∷ s) t ≡ false) × ((k : ℕ) × (find s t ≡ some k) × (at ≡ suc k))
unfolding find
find-cases y s [] at h = unfold starts_with in inl (refl, sym (some-injective _ _ h))
find-cases y s (x ∷ t) at h = elim (Bool-cases (starts_with (y ∷ s) (x ∷ t))) [
  | inl e ↦ let same : some 0 ≡ some at = rw e at h in inl (e, sym (some-injective _ _ same))
  | inr e ↦ elim (Option-cases (find s (x ∷ t))) [
    | inl f ↦ absurd (cc (rw (e, f) at h))
    | inr f ↦
        let same : some (suc f.0) ≡ some at = rw (e, f.1) at h in
        inr (e, (f.0, f.1, sym (some-injective _ _ same)))
  ]
]

-- The place that `find` gives: the text stands there.
find-cut :
    (s t : Bytes) (at : ℕ) → find s t ≡ some at → s ≡ take at s ++ (t ++ drop (at + length t) s)
find-cut [] [] at h =
    let same : some 0 ≡ some at = unfold find in h in
    let zero_at : at ≡ 0 = sym (some-injective _ _ same) in rw zero_at refl
find-cut [] (x ∷ t) at h = let wrong : none ≡ some at = unfold find in h in absurd cc
find-cut (y ∷ s) t at h = elim (find-cases y s t at h) [
  | inl e ↦
      let off : length t ≡ 0 + length t = omega arith in
      rw e.1 (starts_with-front (y ∷ s) t e.0 ∙ ap (λ n. t ++ drop n (y ∷ s)) off)
  | inr e ↦
      let k : ℕ = e.1.0 in
      let off : suc (k + length t) ≡ suc k + length t = omega arith in
      rw e.1.2 (
        ap (λ z. y ∷ z) (find-cut s t k e.1.1)
        ∙ ap (λ n. y ∷ (take k s ++ (t ++ drop n (y ∷ s)))) off)
]

-- The place that `find` gives is the first one.
find-first :
    (s : Bytes) (x : ℕ) (t : Bytes) (at : ℕ)
    → find s (x ∷ t) ≡ some at
    → find (take at s) (x ∷ t) ≡ none
find-first [] x t at h = let wrong : none ≡ some at = unfold find in h in absurd cc
find-first (y ∷ s) x t at h = elim (find-cases y s (x ∷ t) at h) [
  | inl e ↦ rw e.1 (unfold find in refl)
  | inr e ↦
      let shut : starts_with (y ∷ take e.1.0 s) (x ∷ t) ≡ false =
        starts_with-take (suc e.1.0) (y ∷ s) (x ∷ t) e.0 in
      rw (e.1.2, find-step y (take e.1.0 s) (x ∷ t) shut, find-first s x t e.1.0 e.1.1) refl
]

-- A round of the search takes a byte at least.
left_lt :
    (fuel at : ℕ) (s : Bytes) (x : ℕ) (t : Bytes)
    → find s (x ∷ t) ≡ some at
    → length s < suc fuel
    → length (drop (at + length (x ∷ t)) s) < fuel
left_lt fuel at [] x t h l = let wrong : none ≡ some at = unfold find in h in absurd cc
left_lt fuel at (y ∷ s) x t h l = omega (arith, length-drop (at + length (x ∷ t)) (y ∷ s))

-- What one text becomes: parts without the old text, with the old text between them before and the
-- new one after.
abbrev pub Replaced : Bytes → Bytes → Bytes → Bytes → Type 0
Replaced old_str new_str s r =
    (part : Bytes) × (parts : List Bytes) × (joined old_str part parts ≡ s)
    × (joined new_str part parts ≡ r)
    × All (λ p. find p old_str ≡ none) (part ∷ parts)

replace_from_lem :
    (fuel x : ℕ) (t new_str s : Bytes)
    → length s < fuel
    → (r : Bytes) × (replace_from fuel (x ∷ t) new_str s ≡ some r) × Replaced (x ∷ t) new_str s r
unfolding replace_from
replace_from_lem zero x t new_str s l = absurd (omega (arith, l))
replace_from_lem (suc fuel) x t new_str s l = elim (Option-cases (find s (x ∷ t))) [
  | inl e ↦ (s, rw (replace_from, e) refl, (s, [], refl, refl, (e, tt)))
  | inr e ↦
      let left : Bytes = drop (e.0 + length (x ∷ t)) s in
      let front : Bytes = take e.0 s in
      let (r, eq, (part, parts, before, after, free)) =
        replace_from_lem fuel x t new_str left (left_lt fuel e.0 s x t e.1 l) in
      (
        front ++ (new_str ++ r),
        rw (replace_from, e.1, eq) refl,
        (
          front,
          part ∷ parts,
          ap (λ z. front ++ ((x ∷ t) ++ z)) before ∙ sym (find-cut s (x ∷ t) e.0 e.1),
          ap (λ z. front ++ (new_str ++ z)) after,
          (find-first s x t e.0 e.1, free),
        ),
      )
]

-- `ReplaceStr` comes back for every text to look for that is not empty. Its answer: the text is cut
-- into parts in which the old text does not stand, and the new text is put between them.
pub replace_str_lem :
    (x : ℕ) (t new_str s : Bytes)
    → (r : Bytes) × (replace_str s (x ∷ t) new_str ≡ some r) × Replaced (x ∷ t) new_str s r
unfolding replace_str
replace_str_lem x t new_str s = replace_from_lem (suc (length s)) x t new_str s (omega arith)

-- The end of the loop of `RemoveStr` is that of the loop of `ReplaceStr`.
go_on-replace_from :
    (fuel x : ℕ) (t kept left : Bytes)
    → length left < fuel
    → go_on kept left (replace_from fuel (x ∷ t) [] left)
      ≡ (replace_from fuel (x ∷ t) [] left >>= (λ rest. some (kept ++ rest)))
unfolding replace_from
go_on-replace_from zero x t kept left l = absurd (omega (arith, l))
go_on-replace_from (suc fuel) x t kept [] l = unfold find in ap some (sym (append-nil kept))
go_on-replace_from (suc fuel) x t kept (c ∷ left) l =
    elim (Option-cases (replace_from (suc fuel) (x ∷ t) [] (c ∷ left))) [
      | inl e ↦ rw e refl
      | inr e ↦ rw e.1 refl
    ]

int_pos_small : (at : ℕ) → at < 2 ^ 31 → int_pos (some at) ≡ some (some at)
unfolding int_pos
int_pos_small at h =
    let same : at % 2 ^ 32 ≡ at = omega arith in
    let small : ltb at (2 ^ 31) ≡ true = lt→ltb _ _ h in rw (same, small) refl

-- A text that is found stands in front of the end.
find_lt : (s : Bytes) (x : ℕ) (t : Bytes) (at : ℕ) → find s (x ∷ t) ≡ some at → at < length s
find_lt s x t at h = omega (
  arith,
  ap (λ (z : Bytes). length z) (find-cut s (x ∷ t) at h),
  length-append (take at s) ((x ∷ t) ++ drop (at + length (x ∷ t)) s),
  length-append (x ∷ t) (drop (at + length (x ∷ t)) s),
  length-take at s,
  length-drop (at + length (x ∷ t)) s,
)

remove_from-replace_from :
    (fuel x : ℕ) (t s : Bytes)
    → length s < fuel
    → length s < 2 ^ 31
    → remove_from fuel false (x ∷ t) s ≡ replace_from fuel (x ∷ t) [] s
unfolding remove_from kept_length replace_from
remove_from-replace_from zero x t s l k = absurd (omega (arith, l))
remove_from-replace_from (suc fuel) x t s l k = elim (Option-cases (find s (x ∷ t))) [
  | inl e ↦ rw (remove_from, replace_from, e) (unfold int_pos in refl)
  | inr e ↦
      let left : Bytes = drop (e.0 + length (x ∷ t)) s in
      let shorter : length left < fuel = left_lt fuel e.0 s x t e.1 l in
      let inside = int_pos_small e.0 (omega (arith, find_lt s x t e.0 e.1, k)) in
      let small : length left < 2 ^ 31 = omega (arith, length-drop (e.0 + length (x ∷ t)) s, k) in
      rw
        (
          remove_from,
          replace_from,
          e.1,
          inside,
          remove_from-replace_from fuel x t left shorter small,
        )
        (go_on-replace_from fuel x t (take e.0 s) left shorter)
]

-- `RemoveStr` without separators is `ReplaceStr` by the empty text, for a text shorter than 2 ^ 31,
-- and comes back: the text is cut into parts in which the text to remove does not stand, and they are
-- put together.
pub remove_str_lem :
    (x : ℕ) (t s : Bytes)
    → length s < 2 ^ 31
    → (remove_str s (x ∷ t) false ≡ replace_str s (x ∷ t) [])
      × ((r : Bytes) × (remove_str s (x ∷ t) false ≡ some r) × Replaced (x ∷ t) [] s r)
unfolding remove_str replace_str
remove_str_lem x t s k =
    let same = remove_from-replace_from (suc (length s)) x t s (omega arith) k in
    let (r, eq, cut) = replace_from_lem (suc (length s)) x t [] s (omega arith) in
    (same, (r, same ∙ eq, cut))
