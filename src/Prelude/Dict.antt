-- ===== src/Prelude/Dict.antt =====
-- A `std::map` from texts, as the list of its entries in the order of the keys.
use mathlib.Core.Path.{◌≡◌, refl}
use mathlib.Core.Logic.{inl, inr, ◌↔◌}
use mathlib.Core.Bool.{Bool, true, false}
use mathlib.Core.Option.{Option, none, some}
use mathlib.Core.List.{List, [], ◌∷◌}
use native.Mathlib.Omega.{arith}
use common_cc.Prelude.Boolean.{Bytes, ltb, ◌==◌, ==_refl, if◌then◌else◌, Bool-cases}

-- `==` of `std::string`.
unfoldable pub same_text : Bytes → Bytes → Bool
same_text [] [] = true
same_text [] (d ∷ t) = false
same_text (c ∷ s) [] = false
same_text (c ∷ s) (d ∷ t) = if c == d then same_text s t else false

-- `<` of `std::string`.
unfoldable pub text_less : Bytes → Bytes → Bool
text_less s [] = false
text_less [] (d ∷ t) = true
text_less (c ∷ s) (d ∷ t) = if ltb c d then true else if c == d then text_less s t else false

pub same_text_refl : (s : Bytes) → same_text s s ≡ true
unfolding same_text
same_text_refl [] = refl
same_text_refl (c ∷ s) = rw (==_refl c) (same_text_refl s)

pub eq_of_same_text : (s t : Bytes) → same_text s t ≡ true → s ≡ t
unfolding same_text
eq_of_same_text [] [] h = refl
eq_of_same_text [] (d ∷ t) h = absurd cc
eq_of_same_text (c ∷ s) [] h = absurd cc
eq_of_same_text (c ∷ s) (d ∷ t) h = elim (Bool-cases (c == d)) [
  | inl e ↦
      let rest : s ≡ t = eq_of_same_text s t (rw e at h) in
      let first : c ≡ d = ground (arith, e) in cc
  | inr e ↦ absurd (cc (rw e at h))
]

pub same_text_iff : (s t : Bytes) → (same_text s t ≡ true) ↔ (s ≡ t)
same_text_iff s t = (eq_of_same_text s t, λ e. rw e (same_text_refl t))

module _ {ℓ} {V : Type ℓ} where
  -- `find`.
  unfoldable pub lookup : Bytes → List (Bytes × V) → Option V
  lookup k [] = none
  lookup k ((j, v) ∷ m) = if same_text j k then some v else lookup k m

  -- `m[k] = v`.
  unfoldable pub insert : Bytes → V → List (Bytes × V) → List (Bytes × V)
  insert k v [] = (k, v) ∷ []
  insert k v ((j, w) ∷ m) =
      let rest = insert k v m in
      if same_text j k
      then (j, v) ∷ m
      else if text_less k j
      then (k, v) ∷ (j, w) ∷ m
      else (j, w) ∷ rest

  pub lookup-insert :
      (k j : Bytes) (v : V) (m : List (Bytes × V))
      → lookup j (insert k v m) ≡ (if same_text k j then some v else lookup j m)
  unfolding lookup insert
  lookup-insert k j v [] = refl
  lookup-insert k j v ((i, w) ∷ m) = elim (Bool-cases (same_text i k)) [
    | inl e ↦ let same : i ≡ k = eq_of_same_text i k e in rw (e, same) (ground arith)
    | inr e ↦ elim (Bool-cases (text_less k i)) [
      | inl f ↦ rw (e, f) refl
      | inr f ↦
          rw (e, f, lookup-insert k j v m)
            (ground (arith, same_text_iff i k, same_text_iff i j, same_text_iff k j))
    ]
  ]
