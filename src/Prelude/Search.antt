-- ===== src/Prelude/Search.antt =====
-- Where a byte and a text are found first.
use Prim.Native.Nat.{ℕ, suc, ◌+◌}
use mathlib.Core.Path.{◌≡◌, refl, ap}
use mathlib.Core.Logic.{inl, inr}
use mathlib.Core.Bool.{true, false}
use mathlib.Core.Option.{Option, none, some}
use mathlib.Core.Option
use mathlib.Core.List.{[], ◌∷◌, ◌++◌}
use native.Mathlib.Omega.{arith}
use common_cc.Prelude.Boolean.{Bytes, ◌==◌, ==_refl, Option-cases}
use common_cc.Prelude.Lists.{length, All}
use common_cc.Prelude.Text.{find_byte, find, starts_with}

-- A text without a byte.
abbrev pub Free : ℕ → Bytes → Type 0
Free c s = All (λ x. (x == c) ≡ false) s

pub find_byte-none : (s : Bytes) (c : ℕ) → Free c s → find_byte s c ≡ none
unfolding find_byte
find_byte-none [] c h = refl
find_byte-none (x ∷ s) c h = rw (h.0, find_byte-none s c h.1)

pub find_byte-append :
    (s t : Bytes) (c : ℕ) → Free c s → find_byte (s ++ (c ∷ t)) c ≡ some (length s)
unfolding find_byte
find_byte-append [] t c h = rw (==_refl c)
find_byte-append (x ∷ s) t c h = rw (h.0, find_byte-append s t c h.1)

pub Free-append : (c : ℕ) (s t : Bytes) → Free c s → Free c t → Free c (s ++ t)
Free-append c [] t h k = k
Free-append c (x ∷ s) t h k = (h.0, Free-append c s t h.1 k)

-- A text is not found where its first byte is not.
pub find-skip :
    (s t q : Bytes) (c : ℕ)
    → Free c s
    → find (s ++ t) (c ∷ q) ≡ Option.map (λ k. length s + k) (find t (c ∷ q))
unfolding find starts_with
find-skip [] t q c h = elim (Option-cases (find t (c ∷ q))) [
  | inl e ↦ rw e refl
  | inr e ↦ rw (e.1) (ap some (omega arith))
]
find-skip (x ∷ s) t q c h = elim (Option-cases (find t (c ∷ q))) [
  | inl e ↦ rw (h.0, find-skip s t q c h.1, e) refl
  | inr e ↦ rw (h.0, find-skip s t q c h.1, e.1) (ap some (omega arith))
]

pub find-none : (s q : Bytes) (c : ℕ) → Free c s → find s (c ∷ q) ≡ none
unfolding find starts_with
find-none [] q c h = refl
find-none (x ∷ s) q c h = rw (h.0, find-none s q c h.1) refl

pub starts_with-append : (q t : Bytes) → starts_with (q ++ t) q ≡ true
unfolding starts_with
starts_with-append [] t = refl
starts_with-append (x ∷ q) t = rw (==_refl x) (starts_with-append q t)

-- A text that does not stand at the front is looked for behind the first byte.
pub find-step :
    (y : ℕ) (s t : Bytes)
    → starts_with (y ∷ s) t ≡ false
    → find (y ∷ s) t ≡ Option.map suc (find s t)
unfolding find
find-step y s [] h = let wrong : true ≡ false = unfold starts_with in h in absurd cc
find-step y s (x ∷ t) h = rw h refl
