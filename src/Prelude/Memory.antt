-- ===== src/Prelude/Memory.antt =====
-- `memcpy` into and out of a block of bytes. `none` is an access outside the block.
use Prim.Native.Nat.{ℕ, ◌+◌, ◌≤◌, ◌<◌}
use mathlib.Core.Path.{◌≡◌, ap, sym, ◌∙◌}
use mathlib.Core.List.{◌++◌, append_assoc}
use mathlib.Core.Option.{Option, none, some}
use mathlib.Core.Logic.{inl, inr}
use native.Mathlib.Omega.{arith}
use common_cc.Prelude.Boolean.{
  Bytes, leb, if◌then◌else◌, le→leb, leb→le, ◌>>=◌, Bool-cases, Option-cases,
}
use common_cc.Prelude.Lists.{
  length, take, drop, length-append, length-take, length-drop, take-append, drop-append,
}

-- `memcpy(block + at, bytes, length bytes)`.
unfoldable pub store : Bytes → ℕ → Bytes → Option Bytes
store block at bytes =
    if leb (at + length bytes) (length block)
    then some (take at block ++ (bytes ++ drop (at + length bytes) block))
    else none

-- `memcpy(…, block + at, n)`.
unfoldable pub load : Bytes → ℕ → ℕ → Option Bytes
load block at n = if leb (at + n) (length block) then some (take n (drop at block)) else none

-- Storing over the middle of three parts replaces just that part.
pub store_lem :
    (P M S bytes : Bytes) (at : ℕ)
    → at ≡ length P
    → length M ≡ length bytes
    → store (P ++ (M ++ S)) at bytes ≡ some (P ++ (bytes ++ S))
unfolding store
store_lem P M S bytes at e h = rw (
  e,
  le→leb (length P + length bytes) (length (P ++ (M ++ S)))
      (omega (arith, length-append P (M ++ S), length-append M S)),
  take-append P (M ++ S),
  tail_eq,
)
  where
    tail_eq : drop (length P + length bytes) (P ++ (M ++ S)) ≡ S
    tail_eq = rw (← h, ← length-append P M, ← append_assoc P M S) (drop-append (P ++ M) S)

-- A store that fits leaves what stands before and behind it.
pub store-some :
    (block bytes : Bytes) (at : ℕ)
    → at + length bytes ≤ length block
    → store block at bytes ≡ some (take at block ++ (bytes ++ drop (at + length bytes) block))
unfolding store
store-some block bytes at h = rw (le→leb (at + length bytes) (length block) h)

-- Loading the middle of three parts.
pub load_lem :
    (P M S : Bytes) (at n : ℕ) → at ≡ length P → n ≡ length M → load (P ++ (M ++ S)) at n ≡ some M
unfolding load
load_lem P M S at n e h = rw (
  e,
  h,
  le→leb (length P + length M) (length (P ++ (M ++ S)))
      (omega (arith, length-append P (M ++ S), length-append M S)),
  drop-append P (M ++ S),
  take-append M S,
)

-- A store keeps the block's length, and none takes more bytes than the block has.
pub store-length :
    (block bytes : Bytes) (at : ℕ) {block' : Bytes}
    → store block at bytes ≡ some block'
    → length block' ≡ length block
unfolding store
store-length block bytes at {block'} e =
    elim (Bool-cases (leb (at + length bytes) (length block))) [
      | inl h ↦
          let made : take at block ++ (bytes ++ drop (at + length bytes) block) ≡ block' =
            cc (rw h at e) in
          let fits = leb→le (at + length bytes) (length block) h in
          ap (λ (l : Bytes). length l) (sym made)
          ∙ omega (
            arith,
            length-append (take at block) (bytes ++ drop (at + length bytes) block),
            length-append bytes (drop (at + length bytes) block),
            length-take at block,
            length-drop (at + length bytes) block,
          )
      | inr h ↦ cc (rw h at e)
    ]

pub store_too_long :
    (block bytes : Bytes) (at : ℕ) → length block < length bytes → store block at bytes ≡ none
unfolding store
store_too_long block bytes at h = ground arith

-- Whatever runs before a store that is too long, and after it, the outcome is a fault.
pub store_fault {ℓ} :
    {C : Type ℓ} (block bytes : Bytes) (at : ℕ) (k : Bytes → Option C)
    → length block < length bytes
    → (store block at bytes >>= k) ≡ none
store_fault block bytes at k h = rw (store_too_long block bytes at h)

pub store_then_fault {ℓ} :
    {C : Type ℓ} (block bytes : Bytes) (at : ℕ) (k : Bytes → Option C)
    → ((b : Bytes) → length b ≡ length block → k b ≡ none)
    → (store block at bytes >>= k) ≡ none
store_then_fault block bytes at k h = elim (Option-cases (store block at bytes)) [
  | inl e ↦ rw e
  | inr (b, e) ↦ rw e (h b (store-length block bytes at e))
]
