-- ===== src/Json/Escape.antt =====
-- `encode` and `decode` of utils/json.cpp: four passes each, in the source's order.
use common_cc.Prelude.{ℕ, ◌&&◌, [], ◌∷◌, ◌==◌, if◌then◌else◌, Bytes}

-- A pass of `encode`: each `c` becomes a backslash and `x`.
unfoldable pub escape : ℕ → ℕ → Bytes → Bytes
escape c x [] = []
escape c x (b ∷ s) = let rest = escape c x s in if b == c then 92 ∷ x ∷ rest else b ∷ rest

-- A pass of `decode`: each backslash with an `x` behind it becomes `c`.
unfoldable pub unescape : ℕ → ℕ → Bytes → Bytes
unescape x c [] = []
unescape x c (a ∷ []) = a ∷ []
unescape x c (a ∷ b ∷ s) =
    let found = c ∷ unescape x c s in
    let other = a ∷ unescape x c (b ∷ s) in if a == 92 && b == x then found else other

unfoldable pub encode : Bytes → Bytes
encode s = escape 34 34 (escape 10 b'n' (escape 13 b'r' (escape 92 92 s)))

unfoldable pub decode : Bytes → Bytes
decode s = unescape 92 92 (unescape b'n' 10 (unescape b'r' 13 (unescape 34 34 s)))
