-- ===== src/Json/EscapeLaws.antt =====
-- `decode` undoes `encode` on a text without a backslash, and how an encoded text looks.
use common_cc.Prelude.{
  ℕ, ◌≡◌, ◌∙◌, refl, ap, Bool, true, false, ◌&&◌, [], ◌∷◌, ◌==◌, ==_refl, if◌then◌else◌, Bytes,
  arith, Bool-cases, inl, inr,
}
use common_cc.Prelude.Search.{Free}
use common_cc.Json.Escape.{escape, unescape, encode, decode}

-- A text whose carriage returns, line feeds and quotes are written with a backslash, as far as the
-- three switches say.
unfoldable pub slashed : Bool → Bool → Bool → Bytes → Bytes
slashed q r n [] = []
slashed q r n (b ∷ s) =
    let rest = slashed q r n s in
    if q && b == 34
    then 92 ∷ 34 ∷ rest
    else if r && b == 13
    then 92 ∷ b'r' ∷ rest
    else if n && b == 10
    then 92 ∷ b'n' ∷ rest
    else b ∷ rest

escape_backslash : (s : Bytes) → Free 92 s → escape 92 92 s ≡ s
unfolding escape
escape_backslash [] h = refl
escape_backslash (b ∷ s) h = rw (h.0, escape_backslash s h.1) refl

unescape_backslash : (s : Bytes) → Free 92 s → unescape 92 92 s ≡ s
unfolding unescape
unescape_backslash [] h = refl
unescape_backslash (a ∷ []) h = refl
unescape_backslash (a ∷ b ∷ s) h = rw (h.0, unescape_backslash (b ∷ s) h.1) refl

-- The bytes that `encode` treats, and the others.
pub data Kind (b : ℕ) : Type 0 where
  quote : b ≡ 34 → Kind b
  return : b ≡ 13 → Kind b
  feed : b ≡ 10 → Kind b
  plain : (b == 34) ≡ false → (b == 13) ≡ false → (b == 10) ≡ false → Kind b

pub kind : (b : ℕ) → Kind b
kind b = elim (Bool-cases (b == 34)) [
  | inl e ↦ quote (ground (arith, e))
  | inr e ↦ elim (Bool-cases (b == 13)) [
    | inl f ↦ return (ground (arith, f))
    | inr f ↦ elim (Bool-cases (b == 10)) [ inl g ↦ feed (ground (arith, g)) | inr g ↦ plain e f g ]
  ]
]

escape-slashed :
    (s : Bytes) → escape 34 34 (escape 10 b'n' (escape 13 b'r' s)) ≡ slashed true true true s
unfolding escape slashed
escape-slashed [] = refl
escape-slashed (b ∷ s) = elim (kind b) [
  | quote e ↦ rw (e, escape-slashed s) refl
  | return e ↦ rw (e, escape-slashed s) refl
  | feed e ↦ rw (e, escape-slashed s) refl
  | plain e f g ↦ rw (f, g, e, escape-slashed s) refl
]

pub encode-slashed : (s : Bytes) → Free 92 s → encode s ≡ slashed true true true s
unfolding encode
encode-slashed s h = rw (escape_backslash s h) (escape-slashed s)

-- A byte that is no backslash is kept, and so is a backslash before another byte.
unescape_hit : (x c : ℕ) (s : Bytes) → unescape x c (92 ∷ x ∷ s) ≡ c ∷ unescape x c s
unfolding unescape
unescape_hit x c s = rw (==_refl x) refl

unescape_other :
    (x c a : ℕ) (s : Bytes) → (a == 92) ≡ false → unescape x c (a ∷ s) ≡ a ∷ unescape x c s
unfolding unescape
unescape_other x c a [] h = refl
unescape_other x c a (b ∷ s) h = rw h refl

unescape_keep :
    (x c b : ℕ) (s : Bytes)
    → (b == x) ≡ false
    → (b == 92) ≡ false
    → unescape x c (92 ∷ b ∷ s) ≡ 92 ∷ b ∷ unescape x c s
unescape_keep x c b s h k = first ∙ ap (λ z. 92 ∷ z) (unescape_other x c b s k)
  where
    first : unescape x c (92 ∷ b ∷ s) ≡ 92 ∷ unescape x c (b ∷ s)
    first = unfold unescape in rw h refl

-- Each pass of `decode` undoes one switch.
unescape_quote :
    (s : Bytes) → Free 92 s → unescape 34 34 (slashed true true true s) ≡ slashed false true true s
unfolding slashed
unescape_quote [] h = unfold unescape in refl
unescape_quote (b ∷ s) h = elim (kind b) [
  | quote e ↦ rw (e, unescape_hit 34 34 (slashed true true true s), unescape_quote s h.1) refl
  | return e ↦
      rw (e, unescape_keep 34 34 b'r' (slashed true true true s) refl refl, unescape_quote s h.1)
        refl
  | feed e ↦
      rw (e, unescape_keep 34 34 b'n' (slashed true true true s) refl refl, unescape_quote s h.1)
        refl
  | plain e f g ↦
      rw (e, f, g, unescape_other 34 34 b (slashed true true true s) h.0, unescape_quote s h.1) refl
]

unescape_return :
    (s : Bytes)
    → Free 92 s
    → unescape b'r' 13 (slashed false true true s) ≡ slashed false false true s
unfolding slashed
unescape_return [] h = unfold unescape in refl
unescape_return (b ∷ s) h = elim (kind b) [
  | quote e ↦
      rw (e, unescape_other b'r' 13 34 (slashed false true true s) refl, unescape_return s h.1) refl
  | return e ↦ rw (e, unescape_hit b'r' 13 (slashed false true true s), unescape_return s h.1) refl
  | feed e ↦
      rw
        (e, unescape_keep b'r' 13 b'n' (slashed false true true s) refl refl, unescape_return s h.1)
        refl
  | plain e f g ↦
      rw (f, g, unescape_other b'r' 13 b (slashed false true true s) h.0, unescape_return s h.1)
        refl
]

unescape_feed : (s : Bytes) → Free 92 s → unescape b'n' 10 (slashed false false true s) ≡ s
unfolding slashed
unescape_feed [] h = unfold unescape in refl
unescape_feed (b ∷ s) h = elim (kind b) [
  | quote e ↦
      rw (e, unescape_other b'n' 10 34 (slashed false false true s) refl, unescape_feed s h.1) refl
  | return e ↦
      rw (e, unescape_other b'n' 10 13 (slashed false false true s) refl, unescape_feed s h.1) refl
  | feed e ↦ rw (e, unescape_hit b'n' 10 (slashed false false true s), unescape_feed s h.1) refl
  | plain e f g ↦
      rw (g, unescape_other b'n' 10 b (slashed false false true s) h.0, unescape_feed s h.1) refl
]

-- A text without a backslash comes back.
pub decode-encode : (s : Bytes) → Free 92 s → decode (encode s) ≡ s
unfolding decode
decode-encode s h =
    rw (encode-slashed s h, unescape_quote s h, unescape_return s h, unescape_feed s h)
      (unescape_backslash s h)
