-- ===== src/Strings/Patterns.antt =====
-- What `MatchWildcard` answers for patterns that end with their only star.
use common_cc.Prelude.{
  ℕ, zero, suc, ◌+◌, ◌<◌, ◌≡◌, ◌∙◌, refl, ap, inl, inr, Bool, true, false, ◌&&◌, ◌||◌, Option, some,
  [], ◌∷◌, ◌++◌, All, length, length-append, leb, ◌==◌, Bool-cases, Bytes, arith,
}
use common_cc.Prelude.Text.{starts_with}
use common_cc.Strings.Wild.{match_wildcard, match_remainder, match_star}

-- The bytes with a meaning in a pattern.
abbrev pub special : ℕ → Bool
special c = (c == b'*') || ((c == b'[') || ((c == b'?') || (c == b'\\')))

abbrev pub IsPlain : Bytes → Type 0
IsPlain w = All (λ c. special c ≡ false) w

match_star_end :
    (try : Bytes → Option Bool) (text : Bytes)
    → match_star try true text ≡ some (leb 1 (length text))
unfolding match_star
match_star_end try [] = refl
match_star_end try (c ∷ text) = elim (Bool-cases (length text == 0)) [
  | inl e ↦ rw e (ap some (ground arith))
  | inr e ↦ rw (e, match_star_end try text) (ap some (ground arith))
]

match_remainder-prefix :
    (fuel : ℕ) (w text : Bytes)
    → IsPlain w
    → length w < fuel
    → match_remainder fuel (w ++ (b'*' ∷ [])) text
      ≡ some (starts_with text w && leb (length w + 2) (length text))
unfolding match_remainder starts_with
match_remainder-prefix zero w text p h = absurd (omega arith)
match_remainder-prefix (suc fuel) [] [] p h = refl
match_remainder-prefix (suc fuel) [] (c ∷ text) p h =
    let same : leb 1 (length text) ≡ leb 2 (suc (length text)) = ground arith in
    match_star_end (λ t. match_remainder fuel [] t) text ∙ ap some same
match_remainder-prefix (suc fuel) (x ∷ w) [] p h = refl
match_remainder-prefix (suc fuel) (x ∷ w) (c ∷ text) p h =
    let no_star : (x == b'*') ≡ false = ground (arith, p.0) in
    let no_set : (x == b'[') ≡ false = ground (arith, p.0) in
    let no_any : (x == b'?') ≡ false = ground (arith, p.0) in
    let no_escape : (x == b'\\') ≡ false = ground (arith, p.0) in
    let turn : (c == x) ≡ (x == c) = ground arith in
    let one_more : leb (length w + 2) (length text) ≡ leb (suc (length w) + 2) (suc (length text)) =
      ground arith in
    elim (Bool-cases (x == c)) [
      | inl e ↦
          rw
            (
              no_star,
              no_set,
              no_any,
              no_escape,
              turn,
              e,
              match_remainder-prefix fuel w text p.1 (omega (arith, h)),
              one_more,
            )
            refl
      | inr e ↦ rw (no_star, no_set, no_any, no_escape, turn, e) refl
    ]

-- A pattern of bytes without a meaning and a star behind them matches the texts that start with those
-- bytes and have two more at least: the star does not stand for nothing, nor for a single byte.
pub match_wildcard-prefix :
    (w text : Bytes)
    → IsPlain w
    → match_wildcard (w ++ (b'*' ∷ [])) text
      ≡ some (starts_with text w && leb (length w + 2) (length text))
unfolding match_wildcard
match_wildcard-prefix w text p =
    match_remainder-prefix (suc (length (w ++ (b'*' ∷ [])))) w text p
      (omega (arith, length-append w (b'*' ∷ [])))
