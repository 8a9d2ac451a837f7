-- ===== src/Strings/Split.antt =====
-- The split of a text into words, `SplitString` with two arguments, and `ReplaceCharSet` and
-- `RemoveChar` of `StringUtility`.
use common_cc.Prelude.{
  ℕ, true, take-append-drop, append-nil, zero, suc, ◌+◌, ◌-◌, ◌≤◌, ◌<◌, ◌≡◌, ◌∙◌, refl, false,
  Option, none, some, List, [], ◌∷◌, ◌++◌, ltb, ◌==◌, if◌then◌else◌, Bytes, All, arith, length,
  length-drop, take, drop, get_or, Bool-cases, inl, inr, ap, sym,
}
use mathlib.Core.Path.{subst}
use common_cc.Prelude.Text.{substr, find_byte}
use common_cc.Strings.Chars.{is_separator}

-- The two inner loops: how many bytes at the front are separators, or are none.
unfoldable pub separators : Bytes → ℕ
separators [] = 0
separators (c ∷ s) = if is_separator c then suc (separators s) else 0

unfoldable pub word_length : Bytes → ℕ
word_length [] = 0
word_length (c ∷ s) = if is_separator c then 0 else suc (word_length s)

-- The outer loop, with fuel for its rounds.
unfoldable pub split_from : ℕ → Bytes → List Bytes
split_from zero s = []
split_from (suc fuel) s =
    let from = separators s in
    let to = from + word_length (drop from s) in
    let rest = split_from fuel (drop to s) in
    if ltb from to
    then substr s from (to - from) ∷ (if 0 == length (drop to s) then [] else rest)
    else []

-- `SplitString` into words. Each round takes a byte at least.
unfoldable pub split_string : Bytes → List Bytes
split_string s = if length s == 0 then [] else split_from (length s) s

-- `ReplaceCharSet`.
unfoldable pub replaced : ℕ → Bytes → Option ℕ → Bytes
replaced c to_set none = c ∷ []
replaced c to_set (some i) = if ltb i (length to_set) then get_or to_set i 0 ∷ [] else []

unfoldable pub replace_char_set : Bytes → Bytes → Bytes → Bytes
unfolding replaced
replace_char_set [] from_set to_set = []
replace_char_set (c ∷ s) from_set to_set =
    replaced c to_set (find_byte from_set c) ++ replace_char_set s from_set to_set

-- `RemoveChar`.
unfoldable pub remove_char : Bytes → ℕ → Bytes
remove_char [] ch = []
remove_char (c ∷ s) ch = if c == ch then remove_char s ch else c ∷ remove_char s ch

-- The bytes that are no separators.
unfoldable pub kept : Bytes → Bytes
kept [] = []
kept (c ∷ s) = if is_separator c then kept s else c ∷ kept s

abbrev pub concat : List Bytes → Bytes
concat [] = []
concat (w ∷ ws) = w ++ concat ws

abbrev pub IsWord : Bytes → Type 0
IsWord w = (0 < length w) × All (λ c. is_separator c ≡ false) w

kept-separators : (s : Bytes) → kept (drop (separators s) s) ≡ kept s
unfolding kept separators
kept-separators [] = refl
kept-separators (c ∷ s) = elim (Bool-cases (is_separator c)) [
  | inl e ↦ rw e (kept-separators s)
  | inr e ↦ rw (e, e)
]

kept-word_length : (s : Bytes) → take (word_length s) s ++ kept (drop (word_length s) s) ≡ kept s
unfolding kept word_length
kept-word_length [] = refl
kept-word_length (c ∷ s) = elim (Bool-cases (is_separator c)) [
  | inl e ↦ rw (e, e)
  | inr e ↦ rw (e, kept-word_length s)
]

word-All : (s : Bytes) → All (λ c. is_separator c ≡ false) (take (word_length s) s)
unfolding word_length
word-All [] = tt
word-All (c ∷ s) = elim (Bool-cases (is_separator c)) [
  | inl e ↦ rw e tt
  | inr e ↦ rw e (e, word-All s)
]

no_word : (s : Bytes) → word_length (drop (separators s) s) ≡ 0 → drop (separators s) s ≡ []
unfolding separators word_length
no_word [] h = refl
no_word (c ∷ s) h = elim (Bool-cases (is_separator c)) [
  | inl e ↦ rw e (no_word s (rw e at h))
  | inr e ↦ absurd (omega (arith, rw (e, e) at h))
]

length-word : (s : Bytes) → length (take (word_length s) s) ≡ word_length s
unfolding word_length
length-word [] = refl
length-word (c ∷ s) = elim (Bool-cases (is_separator c)) [
  | inl e ↦ rw e
  | inr e ↦ rw e (ap suc (length-word s))
]

abbrev nil : Bytes
nil = []

drop-nil : (m : ℕ) → drop m nil ≡ nil
drop-nil zero = refl
drop-nil (suc m) = refl

drop-drop : (m n : ℕ) (s : Bytes) → drop (n + m) s ≡ drop m (drop n s)
drop-drop m zero s = let same : 0 + m ≡ m = omega arith in ap (λ k. drop k s) same
drop-drop m (suc n) [] =
    let next : suc n + m ≡ suc (n + m) = omega arith in ap (λ k. drop k []) next ∙ sym (drop-nil m)
drop-drop m (suc n) (c ∷ s) =
    let next : suc n + m ≡ suc (n + m) = omega arith in
    ap (λ k. drop k (c ∷ s)) next ∙ drop-drop m n s

length-zero : (s : Bytes) → length s ≡ 0 → s ≡ []
length-zero [] h = refl
length-zero (c ∷ s) h = absurd (omega arith)

-- With fuel for its length a text is split into words that have bytes and no separators, and
-- together are the bytes that are no separators.
split_from_lem :
    (fuel : ℕ) (s : Bytes)
    → length s ≤ fuel
    → All IsWord (split_from fuel s) × (concat (split_from fuel s) ≡ kept s)
unfolding split_from kept
split_from_lem zero [] h = (tt, refl)
split_from_lem zero (c ∷ s) h = absurd (omega arith)
split_from_lem (suc fuel) s h =
    let from : ℕ = separators s in
    let t : Bytes = drop from s in
    let n : ℕ = word_length t in
    let size : from + n - from ≡ n = omega arith in
    let onwards : drop (from + n) s ≡ drop n t = drop-drop n from s in
    let none_lost : take n t ++ kept (drop n t) ≡ kept s = kept-word_length t ∙ kept-separators s in
    elim (Bool-cases (ltb from (from + n))) [
      | inl e ↦
          let some_word : 0 < n = ground (arith, e) in
          let word : IsWord (take n t) = (omega (arith, length-word t), word-All t) in
          let shorter : length (drop n t) ≤ fuel =
            omega (arith, length-drop n t, length-drop from s) in
          let rest = split_from_lem fuel (drop n t) shorter in
          elim (Bool-cases (0 == length (drop (from + n) s))) [
            | inl f ↦
                let over : drop n t ≡ [] = length-zero (drop n t) (ground (arith, f, onwards)) in
                rw (e, f, size) ((word, tt), rw over at none_lost)
            | inr f ↦
                rw (e, f, size, onwards)
                  ((word, rest.0), ap (λ r. take n t ++ r) rest.1 ∙ none_lost)
          ]
      | inr e ↦
          let at_end : t ≡ [] = no_word s (ground (arith, e)) in
          rw e (tt, ap kept (sym at_end) ∙ kept-separators s)
    ]

separators-All : (s : Bytes) → All (λ c. is_separator c ≡ true) (take (separators s) s)
unfolding separators
separators-All [] = tt
separators-All (c ∷ s) = elim (Bool-cases (is_separator c)) [
  | inl e ↦ rw e (e, separators-All s)
  | inr e ↦ rw e tt
]

-- A text that is over or goes on with a separator.
abbrev AtEnd : Bytes → Type 0
AtEnd [] = Unit
AtEnd (c ∷ s) = is_separator c ≡ true

word-AtEnd : (s : Bytes) → AtEnd (drop (word_length s) s)
unfolding word_length
word-AtEnd [] = tt
word-AtEnd (c ∷ s) = elim (Bool-cases (is_separator c)) [
  | inl e ↦ rw e e
  | inr e ↦ rw e (word-AtEnd s)
]

-- A text and its words: separators, a word with a separator or nothing behind it, and so on, and
-- separators at the end.
abbrev pub Cut : Bytes → List Bytes → Type 0
Cut s [] = All (λ c. is_separator c ≡ true) s
Cut s (w ∷ ws) =
    (before : Bytes) × (rest : Bytes) × (s ≡ before ++ (w ++ rest))
    × All (λ c. is_separator c ≡ true) before
    × IsWord w
    × AtEnd rest
    × Cut rest ws

split_from-Cut : (fuel : ℕ) (s : Bytes) → length s ≤ fuel → Cut s (split_from fuel s)
unfolding split_from
split_from-Cut zero [] h = tt
split_from-Cut zero (c ∷ s) h = absurd (omega arith)
split_from-Cut (suc fuel) s h =
    let from : ℕ = separators s in
    let t : Bytes = drop from s in
    let n : ℕ = word_length t in
    let size : from + n - from ≡ n = omega arith in
    let onwards : drop (from + n) s ≡ drop n t = drop-drop n from s in
    let cut : s ≡ take from s ++ (take n t ++ drop n t) =
      sym (take-append-drop from s) ∙ ap (λ z. take from s ++ z) (sym (take-append-drop n t)) in
    elim (Bool-cases (ltb from (from + n))) [
      | inl e ↦
          let some_word : 0 < n = ground (arith, e) in
          let word : IsWord (take n t) = (omega (arith, length-word t), word-All t) in
          let shorter : length (drop n t) ≤ fuel =
            omega (arith, length-drop n t, length-drop from s) in
          let rest = split_from-Cut fuel (drop n t) shorter in
          elim (Bool-cases (0 == length (drop (from + n) s))) [
            | inl f ↦
                let over : drop n t ≡ [] = length-zero (drop n t) (ground (arith, f, onwards)) in
                let none_left : All (λ c. is_separator c ≡ true) (drop n t) = rw over tt in
                rw (e, f, size)
                  (take from s, drop n t, cut, separators-All s, word, word-AtEnd t, none_left)
            | inr f ↦
                rw (e, f, size, onwards)
                  (take from s, drop n t, cut, separators-All s, word, word-AtEnd t, rest)
          ]
      | inr e ↦
          let at_end : t ≡ [] = no_word s (ground (arith, e)) in
          let all : s ≡ take from s =
            sym (take-append-drop from s)
            ∙ ap (λ z. take from s ++ z) at_end
            ∙ append-nil (take from s) in
          rw e (subst (λ z. All (λ c. is_separator c ≡ true) z) (sym all) (separators-All s))
    ]

-- `SplitString` gives the words of a text, from the front to the end: each has bytes and no
-- separators, only separators stand before, between and behind them, and no word goes on behind its
-- end. The words together are the text without its separators.
pub split_string_lem : (s : Bytes) → Cut s (split_string s) × (concat (split_string s) ≡ kept s)
unfolding split_string
split_string_lem [] = unfold kept in (tt, refl)
split_string_lem (c ∷ s) =
    let some_byte : (length (c ∷ s) == 0) ≡ false = ground arith in
    rw some_byte (
      split_from-Cut (length (c ∷ s)) (c ∷ s) (omega arith),
      (split_from_lem (length (c ∷ s)) (c ∷ s) (omega arith)).1,
    )

-- With one byte to replace and nothing to replace it by, `ReplaceCharSet` is `RemoveChar`.
replace_char_set-remove_char :
    (s : Bytes) (ch : ℕ) → replace_char_set s (ch ∷ []) [] ≡ remove_char s ch
unfolding replace_char_set remove_char find_byte
replace_char_set-remove_char [] ch = refl
replace_char_set-remove_char (c ∷ s) ch = ground (arith, replace_char_set-remove_char s ch)
