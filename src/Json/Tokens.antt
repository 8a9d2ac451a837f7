-- ===== src/Json/Tokens.antt =====
-- The tokens of what `ToString` writes, and the steps of the parser on them.
use common_cc.Prelude.{
  ℕ, suc, ◌≡◌, ◌∙◌, refl, ap, sym, Bool, true, false, ◌||◌, some, [], ◌∷◌, ◌++◌, length,
  take-append, drop-append, append_assoc, ◌==◌, if◌then◌else◌, Bytes, codes, All, arith, Bool-cases,
  inl, inr,
}
use common_cc.Prelude.Search.{Free}
use common_cc.Prelude.Text.{starts_with, contains}
use common_cc.Prelude.Ascii.{is_digit}
use common_cc.Json.Escape.{encode, decode}
use common_cc.Json.EscapeLaws.{slashed, Kind, kind, encode-slashed, decode-encode}
use common_cc.Json.Token.{
  number, text, null, bool, skip_spaces, number_length, scan, read_number, read_string, read_word,
  read_token,
}
use common_cc.Json.Print.{quoted}

-- A text that stands for itself in a string: no backslash and no zero byte.
pub record IsPlain (s : Bytes) : Type 0 where
  pub no_slash : Free 92 s
  pub no_zero : Free 0 s

scan-slashed :
    (s rest : Bytes)
    → Free 92 s
    → Free 0 s
    → scan false (slashed true true true s ++ (34 ∷ rest)) ≡ (slashed true true true s, some rest)
unfolding scan slashed
scan-slashed [] rest h k = refl
scan-slashed (b ∷ s) rest h k = elim (kind b) [
  | Kind.quote e ↦ rw (e, scan-slashed s rest h.1 k.1) refl
  | Kind.return e ↦ rw (e, scan-slashed s rest h.1 k.1) refl
  | Kind.feed e ↦ rw (e, scan-slashed s rest h.1 k.1) refl
  | Kind.plain e f g ↦ rw (e, f, g, h.0, k.0, scan-slashed s rest h.1 k.1, e) refl
]

pub read_token-quoted :
    (s rest : Bytes) → IsPlain s → read_token (skip_spaces (quoted s ++ rest)) ≡ (text s, some rest)
unfolding read_token skip_spaces read_string quoted is_digit
read_token-quoted s rest w =
    let cut : (encode s ++ (34 ∷ [])) ++ rest ≡ slashed true true true s ++ (34 ∷ rest) =
      append_assoc (encode s) (34 ∷ []) rest
      ∙ ap (λ z. z ++ (34 ∷ rest)) (encode-slashed s w.no_slash) in
    let back : decode (slashed true true true s) ≡ s =
      ap (λ z. decode z) (sym (encode-slashed s w.no_slash)) ∙ decode-encode s w.no_slash in
    rw (cut, scan-slashed s rest w.no_slash w.no_zero, back) refl

-- The text of a number, with a dot or without one.
abbrev pub IsNumber : Bool → Bytes → Type 0
IsNumber dot [] = ⊥
IsNumber dot (c ∷ s) =
    ((c == b'-' || is_digit c) ≡ true)
    × All (λ x. (is_digit x || x == b'.') ≡ true) s
    × (contains (c ∷ s) b'.' ≡ dot)

-- No digit and no dot follows.
abbrev pub Stops : Bytes → Type 0
Stops rest = number_length rest ≡ 0

number_length-append :
    (s rest : Bytes)
    → All (λ x. (is_digit x || x == b'.') ≡ true) s
    → Stops rest
    → number_length (s ++ rest) ≡ length s
unfolding number_length
number_length-append [] rest h k = k
number_length-append (x ∷ s) rest h k = rw (h.0, number_length-append s rest h.1 k) refl

skip_spaces-number :
    (c : ℕ) (s : Bytes) → (c == b'-' || is_digit c) ≡ true → skip_spaces (c ∷ s) ≡ c ∷ s
unfolding skip_spaces is_digit
skip_spaces-number c s h = ground arith

read_number_size :
    (c : ℕ) (s rest : Bytes)
    → (c == b'-' || is_digit c) ≡ true
    → All (λ x. (is_digit x || x == b'.') ≡ true) s
    → Stops rest
    → (if c == b'-' then suc (number_length (s ++ rest)) else number_length (c ∷ (s ++ rest)))
      ≡ suc (length s)
unfolding number_length
read_number_size c s rest h a k = elim (Bool-cases (c == b'-')) [
  | inl e ↦ rw (e, number_length-append s rest a k) refl
  | inr e ↦
      let digit : is_digit c ≡ true = rw e at h in
      rw (e, digit, number_length-append s rest a k) refl
]

pub read_token-number :
    (dot : Bool) (t rest : Bytes)
    → IsNumber dot t
    → Stops rest
    → read_token (skip_spaces (t ++ rest)) ≡ (number dot t, some rest)
unfolding read_token read_number
read_token-number dot [] rest w k = absurd w
read_token-number dot (c ∷ s) rest w k =
    rw
      (
        skip_spaces-number c (s ++ rest) w.0,
        w.0,
        read_number_size c s rest w.0 w.1 k,
        take-append s rest,
        drop-append s rest,
        w.2,
      )
      refl

pub read_token-null :
    (rest : Bytes) → read_token (skip_spaces (codes "null" ++ rest)) ≡ (null, some rest)
unfolding skip_spaces read_token read_word starts_with is_digit
read_token-null rest = refl

pub read_token-true :
    (rest : Bytes) → read_token (skip_spaces (codes "true" ++ rest)) ≡ (bool true, some rest)
unfolding skip_spaces read_token read_word starts_with is_digit
read_token-true rest = refl

pub read_token-false :
    (rest : Bytes) → read_token (skip_spaces (codes "false" ++ rest)) ≡ (bool false, some rest)
unfolding skip_spaces read_token read_word starts_with is_digit
read_token-false rest = refl
