-- ===== src/Prelude/Word.antt =====
-- Machine words of 32 bits, kept below `2 ^ 32` by an explicit wrap, and their bytes in memory
-- (least significant first).
use common_cc.Prelude.Boolean.{Bytes}
use Prim.Native.Nat.{ℕ, ◌+◌, ◌-◌, ◌*◌, ◌/◌, ◌%◌, ◌^◌, ◌<◌}
use mathlib.Core.Path.{◌≡◌}
use mathlib.Core.List.{[], ◌∷◌}
use native.Mathlib.Omega.{arith}

-- A value stored in a `uint32_t`.
abbrev pub u32 : ℕ → ℕ
u32 n = n % 2 ^ 32

-- A value stored in a `uint64_t`.
abbrev pub u64 : ℕ → ℕ
u64 n = n % 2 ^ 64

-- `a - b` in `uint32_t`.
abbrev pub sub32 : ℕ → ℕ → ℕ
sub32 a b = (a + 2 ^ 32 - b) % 2 ^ 32

-- The four bytes of a `uint32_t`.
unfoldable pub bytes32 : ℕ → Bytes
bytes32 n = n % 256 ∷ n / 256 % 256 ∷ n / 65536 % 256 ∷ n / 16777216 % 256 ∷ []

-- The number that bytes spell, the least significant first.
unfoldable pub word : Bytes → ℕ
word [] = 0
word (b ∷ bs) = b + 256 * word bs

pub word-bytes32 : (n : ℕ) → n < 2 ^ 32 → word (bytes32 n) ≡ n
unfolding word bytes32
word-bytes32 n h = omega arith
