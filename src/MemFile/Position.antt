-- ===== src/MemFile/Position.antt =====
-- A position of a file as a block and a place in it.
use native.Mathlib.Nat.{mul-add-div_right, div-eq_of_lt, div_self, mod-eq-sub-div-mul}
use common_cc.Prelude.{ℕ, suc, ◌+◌, ◌*◌, ◌/◌, ◌%◌, ◌<◌, ◌≡◌, ◌∙◌, arith}

module _ (block_size : ℕ) (positive : 0 < block_size) where
  -- A position behind whole blocks, and one at the end of a block.
  pub position_lem :
      (n k : ℕ)
      → k < block_size
      → ((n * block_size + k) / block_size ≡ n) × ((n * block_size + k) % block_size ≡ k)
  position_lem n k h =
      let quotient : (n * block_size + k) / block_size ≡ n =
        mul-add-div_right positive n k ∙ omega (arith, div-eq_of_lt h) in
      (quotient, mod-eq-sub-div-mul (n * block_size + k) block_size ∙ rw quotient (omega arith))

  pub end_lem :
      (n : ℕ)
      → ((n * block_size + block_size) / block_size ≡ suc n)
        × ((n * block_size + block_size) % block_size ≡ 0)
  end_lem n =
      let quotient : (n * block_size + block_size) / block_size ≡ suc n =
        mul-add-div_right positive n block_size ∙ omega (arith, div_self positive) in
      (
        quotient,
        mod-eq-sub-div-mul (n * block_size + block_size) block_size ∙ rw quotient (omega arith),
      )
