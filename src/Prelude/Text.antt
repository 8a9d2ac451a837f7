-- ===== src/Prelude/Text.antt =====
-- The parts of `std::string` that the program uses, on bytes. `none` is `npos`.
use Prim.Native.Nat.{ℕ, suc}
use mathlib.Core.Bool.{Bool, true, false, ◌&&◌, ◌||◌}
use mathlib.Core.List.{[], ◌∷◌}
use mathlib.Core.Option
use mathlib.Core.Option.{Option, none, some}
use common_cc.Prelude.Boolean.{Bytes, ◌==◌, if◌then◌else◌}
use common_cc.Prelude.Lists.{take, drop}

-- Whether a byte is in a text: `npos != s.find(c)`.
unfoldable pub contains : Bytes → ℕ → Bool
contains [] c = false
contains (x ∷ s) c = x == c || contains s c

-- `s.find(c)` for a byte.
unfoldable pub find_byte : Bytes → ℕ → Option ℕ
find_byte [] c = none
find_byte (x ∷ s) c = if x == c then some 0 else Option.map suc (find_byte s c)

-- Whether a text begins with another.
unfoldable pub starts_with : Bytes → Bytes → Bool
starts_with s [] = true
starts_with [] (x ∷ t) = false
starts_with (y ∷ s) (x ∷ t) = y == x && starts_with s t

-- `s.find(t)`: the first index at which `t` stands.
unfoldable pub find : Bytes → Bytes → Option ℕ
unfolding starts_with
find [] [] = some 0
find [] (x ∷ t) = none
find (y ∷ s) t = if starts_with (y ∷ s) t then some 0 else Option.map suc (find s t)

-- `s.substr(from, n)`, for a `from` inside the text.
abbrev pub substr : Bytes → ℕ → ℕ → Bytes
substr s from n = take n (drop from s)
