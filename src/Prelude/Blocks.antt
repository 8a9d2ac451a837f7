-- ===== src/Prelude/Blocks.antt =====
-- The work on a message that is cut into blocks of 64 bytes.
use common_cc.Prelude.{
  ℕ, zero, suc, ◌+◌, ◌*◌, ◌≤◌, ◌≡◌, ◌∙◌, refl, ap, ◌++◌, length, take, drop, length-drop, drop-drop,
  take-append_le, drop-append_le, Bytes, arith,
}

module _ {ℓ} {S : Type ℓ} (f : S → Bytes → S) where
  -- The work on the first blocks of a message, block after block.
  unfoldable pub absorb : ℕ → S → Bytes → S
  absorb zero s msg = s
  absorb (suc n) s msg = absorb n (f s (take 64 msg)) (drop 64 msg)

  -- Bytes behind the blocks change nothing.
  pub absorb-append :
      (n : ℕ) (s : S) (x y : Bytes) → n * 64 ≤ length x → absorb n s (x ++ y) ≡ absorb n s x
  unfolding absorb
  absorb-append zero s x y h = refl
  absorb-append (suc n) s x y h =
      rw (take-append_le 64 x y (omega arith), drop-append_le 64 x y (omega arith))
        (absorb-append n (f s (take 64 x)) (drop 64 x) y (omega (arith, length-drop 64 x)))

  -- The work on more blocks, after the first ones.
  pub absorb-add :
      (n k j : ℕ) (s : S) (x : Bytes)
      → j ≡ n + k
      → absorb j s x ≡ absorb k (absorb n s x) (drop (n * 64) x)
  unfolding absorb
  absorb-add zero k j s x e =
      let same : j ≡ k = omega arith in
      let none_off : 0 ≡ 0 * 64 = omega arith in
      ap (λ i. absorb i s x) same ∙ ap (λ i. absorb k s (drop i x)) none_off
  absorb-add (suc n) k zero s x e = absurd (omega arith)
  absorb-add (suc n) k (suc j) s x e =
      let first : S = f s (take 64 x) in
      let off : 64 + n * 64 ≡ suc n * 64 = omega arith in
      absorb-add n k j first (drop 64 x) (omega arith)
      ∙ ap (λ y. absorb k (absorb n first (drop 64 x)) y) (drop-drop (n * 64) 64 x)
      ∙ ap (λ i. absorb k (absorb n first (drop 64 x)) (drop i x)) off
