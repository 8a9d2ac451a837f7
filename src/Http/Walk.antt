-- ===== src/Http/Walk.antt =====
-- The loops over the pieces of a text between separators: they end, and what they do with a text that
-- was put together from pieces.
use common_cc.Prelude.{
  ℕ, zero, suc, ◌+◌, ◌<◌, ◌≡◌, ◌∙◌, refl, ap, sym, ◌==◌, false, some, List, [], ◌∷◌, ◌++◌,
  append_assoc, append-nil, All, length, take, drop, length-append, length-drop, take-append,
  drop-append, drop-drop, Bytes, arith, Option-cases, inl, inr,
}
use mathlib.Core.Option
use common_cc.Prelude.Search.{find-step, Free, find-skip, find-none}
use common_cc.Prelude.Text.{find, starts_with}
use common_cc.Http.Wire.{Outcome, ok, out_of_range, out_of_fuel, ◌>>=◌, Map, crlf, pieces}

-- An outcome that is not the end of the fuel, with a value that has a property.
abbrev pub Yields {ℓ} : {A : Type ℓ} → (A → Type 0) → Outcome A → Type 0
Yields P (ok a) = P a
Yields P out_of_range = Unit
Yields P out_of_fuel = ⊥

pub Yields->>= {ℓ κ} :
    {A : Type ℓ} {B : Type κ} (P : A → Type 0) (Q : B → Type 0) (x : Outcome A) (f : A → Outcome B)
    → Yields P x
    → ((a : A) → P a → Yields Q (f a))
    → Yields Q (x >>= f)
Yields->>= P Q (ok a) f h k = k a h
Yields->>= P Q out_of_range f h k = tt
Yields->>= P Q out_of_fuel f h k = h

>>=-cong {ℓ κ} :
    {A : Type ℓ} {B : Type κ} (x : Outcome A) {f g : A → Outcome B}
    → ((a : A) → f a ≡ g a)
    → (x >>= f) ≡ (x >>= g)
>>=-cong (ok a) h = h a
>>=-cong out_of_range h = refl
>>=-cong out_of_fuel h = refl

-- Each round takes a separator off, so a round for each byte and one more are enough; what each
-- round keeps, the loop keeps.
pub pieces-Yields :
    (round last : Map → Bytes → Outcome Map) (c : ℕ) (split : Bytes) (P : Map → Type 0)
    → ((m : Map) (s : Bytes) → P m → Yields P (round m s))
    → ((m : Map) (s : Bytes) → P m → Yields P (last m s))
    → (fuel : ℕ) (m : Map) (rest : Bytes) → length rest < fuel
    → P m
    → Yields P (pieces round last (c ∷ split) fuel m rest)
unfolding pieces
pieces-Yields round last c split P h k zero m rest l p = absurd (omega (arith, l))
pieces-Yields round last c split P h k (suc fuel) m [] l p = unfold find in k m [] p
pieces-Yields round last c split P h k (suc fuel) m (x ∷ rest) l p =
    elim (Option-cases (find (x ∷ rest) (c ∷ split))) [
      | inl e ↦ rw (pieces, e) (k m (x ∷ rest) p)
      | inr e ↦
          let piece : Bytes = take e.0 (x ∷ rest) in
          let left : Bytes = drop (e.0 + length (c ∷ split)) (x ∷ rest) in
          let shorter : length left < fuel =
            omega (arith, length-drop (e.0 + length (c ∷ split)) (x ∷ rest)) in
          rw (pieces, e.1)
            (Yields->>= P P (round m piece) (λ next. pieces round last (c ∷ split) fuel next left)
              (h m piece p)
              (λ next q. pieces-Yields round last c split P h k fuel next left shorter q))
    ]

-- Lines with the mark of their ends between them: the first line, and the others.
abbrev pub more : List Bytes → Bytes
more [] = []
more (k ∷ ls) = crlf ++ (k ++ more ls)

-- A line that is not empty, and neither ends inside nor holds the mark of another end.
pub record IsLine (l : Bytes) : Type 0 where
  pub no_cr : Free 13 l
  pub no_lf : Free 10 l
  pub some_byte : 0 < length l

pub find-line : (l s : Bytes) → Free 13 l → find (l ++ (crlf ++ s)) crlf ≡ some (length l)
find-line l s h =
    find-skip l (crlf ++ s) (10 ∷ []) 13 h ∙ (unfold find starts_with in ap some (omega arith))

-- The text of an empty line and what follows it.
abbrev pub blank : Bytes → Bytes
blank body = crlf ++ (crlf ++ body)

abbrev pub blank_mark : Bytes
blank_mark = 13 ∷ 10 ∷ 13 ∷ 10 ∷ []

-- An end of a line before another line is no empty line.
find-crlf :
    (x : ℕ) (s : Bytes)
    → (x == 13) ≡ false
    → find (crlf ++ (x ∷ s)) blank_mark ≡ Option.map suc (Option.map suc (find (x ∷ s) blank_mark))
find-crlf x s h =
    find-step 13 (10 ∷ x ∷ s) blank_mark (unfold starts_with in rw h refl)
    ∙ ap (λ o. Option.map suc o) (find-step 10 (x ∷ s) blank_mark (unfold starts_with in refl))

-- The empty line behind the lines of a header is the first one.
pub find-more :
    (ls : List Bytes) (body : Bytes)
    → All IsLine ls
    → find (more ls ++ blank body) blank_mark ≡ some (length (more ls))
find-more [] body h = unfold find starts_with in refl
find-more ([] ∷ ls) body h = absurd (omega (arith, h.0.some_byte))
find-more ((x ∷ k) ∷ ls) body h =
    let text : Bytes = (x ∷ k) ++ (more ls ++ blank body) in
    let same : ((x ∷ k) ++ more ls) ++ blank body ≡ text =
      append_assoc (x ∷ k) (more ls) (blank body) in
    let inner : find text blank_mark ≡ some (length (x ∷ k) + length (more ls)) =
      find-skip (x ∷ k) (more ls ++ blank body) (10 ∷ 13 ∷ 10 ∷ []) 13 h.0.no_cr
      ∙ ap (λ o. Option.map (λ i. length (x ∷ k) + i) o) (find-more ls body h.1) in
    let outer : find (crlf ++ text) blank_mark
        ≡ some (suc (suc (length (x ∷ k) + length (more ls)))) =
      find-crlf x (k ++ (more ls ++ blank body)) h.0.no_cr.0
      ∙ ap (λ o. Option.map suc (Option.map suc o)) inner in
    ap (λ z. find (crlf ++ z) blank_mark) same
    ∙ outer
    ∙ ap some (omega (arith, length-append (x ∷ k) (more ls)))

-- The work on the lines one by one: the last one has its own.
abbrev pub each_line :
    (Map → Bytes → Outcome Map)
    → (Map → Bytes → Outcome Map)
    → Map
    → Bytes
    → List Bytes
    → Outcome Map
each_line round last m l [] = last m l
each_line round last m l (k ∷ ls) = do next ← round m l; each_line round last next k ls

-- The loop over lines with the mark of their ends between them is the work on each of them.
pub pieces-more :
    (round last : Map → Bytes → Outcome Map) (fuel : ℕ) (m : Map) (l : Bytes) (ls : List Bytes)
    → All IsLine (l ∷ ls)
    → length (l ++ more ls) < fuel
    → pieces round last crlf fuel m (l ++ more ls) ≡ each_line round last m l ls
unfolding pieces
pieces-more round last zero m l ls h e = absurd (omega (arith, e))
pieces-more round last (suc fuel) m l [] h e =
    ap (λ z. pieces round last crlf (suc fuel) m z) (append-nil l)
    ∙ rw (pieces, find-none l (10 ∷ []) 13 h.0.no_cr) refl
pieces-more round last (suc fuel) m l (k ∷ ls) h e =
    let text : Bytes = k ++ more ls in
    let shorter : length text < fuel = omega (arith, length-append l (crlf ++ text)) in
    let behind : drop (length l + 2) (l ++ (crlf ++ text)) ≡ text =
      sym (drop-drop 2 (length l) (l ++ (crlf ++ text)))
      ∙ ap (λ z. drop 2 z) (drop-append l (crlf ++ text)) in
    let rest : (next : Map)
        → pieces round last crlf fuel next text ≡ each_line round last next k ls =
      λ next. pieces-more round last fuel next k ls h.1 shorter in
    rw (pieces, find-line l text h.0.no_cr, take-append l (crlf ++ text), behind)
      (>>=-cong (round m l) rest)
