-- ===== src/Prelude/Order.antt =====
-- Maps from texts keep their entries in the order of the keys.
use mathlib.Core.Path.{◌≡◌, refl}
use mathlib.Core.Logic.{inl, inr}
use mathlib.Core.Bool.{true, false}
use mathlib.Core.List.{List, [], ◌∷◌, ◌++◌}
use native.Mathlib.Omega.{arith}
use common_cc.Prelude.Boolean.{Bytes, Bool-cases}
use common_cc.Prelude.Lists.{All, All-middle}
use common_cc.Prelude.Dict.{same_text, text_less, insert}

pub text_less_asym : (s t : Bytes) → text_less s t ≡ true → text_less t s ≡ false
unfolding text_less
text_less_asym [] [] h = absurd cc
text_less_asym (c ∷ s) [] h = absurd cc
text_less_asym [] (d ∷ t) h = refl
text_less_asym (c ∷ s) (d ∷ t) h = ground (arith, text_less_asym s t)

pub text_less_same : (s t : Bytes) → text_less s t ≡ true → same_text s t ≡ false
unfolding text_less same_text
text_less_same [] [] h = absurd cc
text_less_same (c ∷ s) [] h = absurd cc
text_less_same [] (d ∷ t) h = refl
text_less_same (c ∷ s) (d ∷ t) h = ground (arith, text_less_same s t)

pub text_less_trans :
    (s t u : Bytes) → text_less s t ≡ true → text_less t u ≡ true → text_less s u ≡ true
unfolding text_less
text_less_trans [] [] u h k = absurd cc
text_less_trans (c ∷ s) [] u h k = absurd cc
text_less_trans s (d ∷ t) [] h k = absurd cc
text_less_trans [] (d ∷ t) (e ∷ u) h k = refl
text_less_trans (c ∷ s) (d ∷ t) (e ∷ u) h k = ground (arith, text_less_trans s t u)

-- Of two texts that differ one is less.
pub text_less_total :
    (s t : Bytes) → same_text s t ≡ false → text_less t s ≡ false → text_less s t ≡ true
unfolding text_less same_text
text_less_total [] [] h k = absurd cc
text_less_total (c ∷ s) [] h k = absurd cc
text_less_total [] (d ∷ t) h k = refl
text_less_total (c ∷ s) (d ∷ t) h k = ground (arith, text_less_total s t)

-- Each key once, in their order.
abbrev pub IsMap {ℓ} : {V : Type ℓ} → List (Bytes × V) → Type 0
IsMap [] = Unit
IsMap ((k, v) ∷ m) = All (λ e. text_less k e.0 ≡ true) m × IsMap m

module _ {ℓ} {V : Type ℓ} where
  All-insert :
      (j k : Bytes) (v : V) (m : List (Bytes × V))
      → text_less j k ≡ true
      → All (λ e. text_less j e.0 ≡ true) m
      → All (λ e. text_less j e.0 ≡ true) (insert k v m)
  unfolding insert
  All-insert j k v [] h a = (h, tt)
  All-insert j k v ((i, w) ∷ m) h a = elim (Bool-cases (same_text i k)) [
    | inl e ↦ rw e a
    | inr e ↦ elim (Bool-cases (text_less k i)) [
      | inl f ↦ rw (e, f) (h, a)
      | inr f ↦ rw (e, f) (a.0, All-insert j k v m h a.1)
    ]
  ]

  All-less :
      (j k : Bytes) (m : List (Bytes × V))
      → text_less j k ≡ true
      → All (λ e. text_less k e.0 ≡ true) m
      → All (λ e. text_less j e.0 ≡ true) m
  All-less j k [] h a = tt
  All-less j k ((i, w) ∷ m) h a = (text_less_trans j k i h a.0, All-less j k m h a.1)

  pub insert-IsMap : (k : Bytes) (v : V) (m : List (Bytes × V)) → IsMap m → IsMap (insert k v m)
  unfolding insert
  insert-IsMap k v [] w = (tt, tt)
  insert-IsMap k v ((j, x) ∷ m) w = elim (Bool-cases (same_text j k)) [
    | inl e ↦ rw e w
    | inr e ↦ elim (Bool-cases (text_less k j)) [
      | inl f ↦ rw (e, f) ((f, All-less k j m f w.0), w)
      | inr f ↦ rw (e, f) (All-insert j k v m (text_less_total j k e f) w.0, insert-IsMap k v m w.1)
    ]
  ]

  -- A key behind all others is added at the end.
  pub insert-append :
      (m n : List (Bytes × V)) (k : Bytes) (v : V)
      → IsMap (m ++ ((k, v) ∷ n))
      → insert k v m ≡ m ++ ((k, v) ∷ [])
  unfolding insert
  insert-append [] n k v w = refl
  insert-append ((j, x) ∷ m) n k v w =
      let less : text_less j k ≡ true = All-middle (λ e. text_less j e.0 ≡ true) m n (k, v) w.0 in
      rw (text_less_same j k less, text_less_asym j k less, insert-append m n k v w.1) refl
