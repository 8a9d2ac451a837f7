-- ===== src/Json/Ends.antt =====
-- The parser comes to an end on every text: each call takes a byte at least.
use common_cc.Prelude.{
  ℕ, refl, ◌⊎◌, zero, suc, ◌+◌, ◌*◌, ◌≤◌, ◌<◌, ◌≡◌, Bool, true, false, not, ◌&&◌, ◌||◌, Option,
  none, some, [], ◌∷◌, length, length-drop, ◌==◌, if◌then◌else◌, Bytes, codes, arith, Bool-cases,
  inl, inr,
}
use common_cc.Prelude.Text.{starts_with}
use common_cc.Prelude.Ascii.{is_digit}
use common_cc.Json.Value.{
  Outcome, Json, ok, thrown, out_of_bounds, out_of_fuel, ◌>>=◌, Items, Fields, nil, end, push_back,
  array, object, unknown, integer, real, string, boolean,
}
use common_cc.Json.Token.{
  Token, token, number, text, null, bool, byte, terminator, skip_spaces, number_length, scan,
  read_number, read_string, read_word, read_token,
}
use common_cc.Json.Parse.{
  Reply, value, mark, State, name_next, colon_next, value_next, parse, parse_items, parse_fields,
  parse_text, is_byte, reply_of, field_step,
}

-- An outcome that is not the end of the fuel, with a value that has a property.
abbrev pub Yields {ℓ} : {A : Type ℓ} → (A → Type 0) → Outcome A → Type 0
Yields P (ok a) = P a
Yields P thrown = Unit
Yields P out_of_bounds = Unit
Yields P out_of_fuel = ⊥

Yields->>= {ℓ κ} :
    {A : Type ℓ} {B : Type κ} (P : A → Type 0) (Q : B → Type 0) (x : Outcome A) (f : A → Outcome B)
    → Yields P x
    → ((a : A) → P a → Yields Q (f a))
    → Yields Q (x >>= f)
Yields->>= P Q (ok a) f h k = k a h
Yields->>= P Q thrown f h k = tt
Yields->>= P Q out_of_bounds f h k = tt
Yields->>= P Q out_of_fuel f h k = h

weaken {ℓ} :
    {A : Type ℓ} (P Q : A → Type 0) (x : Outcome A)
    → Yields P x
    → ((a : A) → P a → Q a)
    → Yields Q x
weaken P Q (ok a) h k = k a h
weaken P Q thrown h k = tt
weaken P Q out_of_bounds h k = tt
weaken P Q out_of_fuel h k = h

outcomes {ℓ} :
    {A : Type ℓ} (x : Outcome A)
    → Yields (λ a. Unit {0}) x
    → ((a : A) × (x ≡ ok a)) ⊎ (x ≡ thrown) ⊎ (x ≡ out_of_bounds)
outcomes (ok a) h = inl (a, refl)
outcomes thrown h = inr (inl refl)
outcomes out_of_bounds h = inr (inr refl)
outcomes out_of_fuel h = absurd h

-- What is left, the terminator counted.
abbrev size : Option Bytes → ℕ
size none = 0
size (some s) = suc (length s)

skip_spaces-le : (s : Bytes) → length (skip_spaces s) ≤ length s
unfolding skip_spaces
skip_spaces-le [] = omega arith
skip_spaces-le (c ∷ s) = ground (arith, skip_spaces-le s)

scan-le : (ign : Bool) (s : Bytes) → size (scan ign s).1 ≤ length s
unfolding scan
scan-le ign [] = omega arith
scan-le ign (c ∷ s) = elim (Bool-cases (c == 0 || (not ign && c == 34))) [
  | inl e ↦ rw e (omega arith)
  | inr e ↦ rw e (omega (arith, scan-le (if ign then false else c == 92) s))
]

number_length_digit : (c : ℕ) (s : Bytes) → is_digit c ≡ true → 1 ≤ number_length (c ∷ s)
unfolding number_length
number_length_digit c s h = rw h (omega arith)

read_number-le :
    (c : ℕ) (s : Bytes)
    → (c == b'-' || is_digit c) ≡ true
    → size (read_number (c ∷ s)).1 ≤ suc (length s)
unfolding read_number
read_number-le c s h = elim (Bool-cases (c == b'-')) [
  | inl e ↦ rw e (omega (arith, length-drop (suc (number_length s)) (c ∷ s)))
  | inr e ↦
      let digit : is_digit c ≡ true = rw e at h in
      rw e
        (omega (arith, number_length_digit c s digit, length-drop (number_length (c ∷ s)) (c ∷ s)))
]

read_word-le : (s : Bytes) → size (read_word s).1 ≤ length s
unfolding read_word
read_word-le [] = omega arith
read_word-le (c ∷ s) = elim (Bool-cases (starts_with (c ∷ s) (codes "null"))) [
  | inl e ↦ rw e (omega (arith, length-drop 4 (c ∷ s)))
  | inr e ↦ elim (Bool-cases (starts_with (c ∷ s) (codes "true"))) [
    | inl f ↦ rw (e, f) (omega (arith, length-drop 4 (c ∷ s)))
    | inr f ↦ elim (Bool-cases (starts_with (c ∷ s) (codes "false"))) [
      | inl g ↦ rw (e, f, g) (omega (arith, length-drop 5 (c ∷ s)))
      | inr g ↦ rw (e, f, g) (omega arith)
    ]
  ]
]

read_token-le : (s : Bytes) → size (read_token s).1 ≤ length s
unfolding read_token read_string
read_token-le [] = omega arith
read_token-le (c ∷ s) = elim (Bool-cases (c == b'-' || is_digit c)) [
  | inl e ↦ rw e (read_number-le c s e)
  | inr e ↦ elim (Bool-cases (c == 34)) [
    | inl f ↦ rw (e, f) (omega (arith, scan-le false s))
    | inr f ↦ rw (e, f) (read_word-le (c ∷ s))
  ]
]

token-Yields : (pos : Option Bytes) → Yields (λ p. size p.1 < size pos) (token pos)
unfolding token
token-Yields none = tt
token-Yields (some s) = omega (arith, read_token-le (skip_spaces s), skip_spaces-le s)

module _ {Z D : Type 0} (atoi : Bytes → Z) (atof : Bytes → D) where
  reply_of-Yields : (t : Token) → Yields (λ r. Unit) (reply_of atoi atof t)
  unfolding reply_of
  reply_of-Yields (number dot ord) = tt
  reply_of-Yields (text ord) = tt
  reply_of-Yields null = tt
  reply_of-Yields (bool b) = tt
  reply_of-Yields (byte c) = ground arith
  reply_of-Yields terminator = tt

  field_step-Yields :
      (st : State) (fs : Fields Z D) (r : Reply Z D)
      → Yields (λ r. Unit) (field_step atoi atof st fs r)
  unfolding field_step
  field_step-Yields name_next fs (mark c) = ground arith
  field_step-Yields name_next fs (value (string s)) = tt
  field_step-Yields name_next fs (value unknown) = tt
  field_step-Yields name_next fs (value (integer n)) = tt
  field_step-Yields name_next fs (value (real d)) = tt
  field_step-Yields name_next fs (value (boolean b)) = tt
  field_step-Yields name_next fs (value (array xs)) = tt
  field_step-Yields name_next fs (value (object gs)) = tt
  field_step-Yields (colon_next k) fs (mark c) = ground arith
  field_step-Yields (colon_next k) fs (value o) = tt
  field_step-Yields (value_next k) fs (mark c) = tt
  field_step-Yields (value_next k) fs (value o) = tt

  -- The rounds of the loops, on what the call in them gave.
  items_round :
      (fuel : ℕ) (xs : Items Z D) (pos rest : Option Bytes) (r : Reply Z D)
      → size rest < size pos
      → ((ys : Items Z D) → Yields (λ p. size p.1 < size rest) (parse_items atoi atof fuel ys rest))
      → Yields
          (λ p. size p.1 < size pos)
          (elim r as (λ z. Outcome (Items Z D × Option Bytes)) [
            | value o ↦ parse_items atoi atof fuel (push_back xs o) rest
            | mark c ↦
                if c == b']'
                then ok (xs, rest)
                else if c == b','
                then parse_items atoi atof fuel xs rest
                else thrown
          ])
  items_round fuel xs pos rest (value o) l k =
      weaken (λ p. size p.1 < size rest) (λ p. size p.1 < size pos)
        (parse_items atoi atof fuel (push_back xs o) rest) (k (push_back xs o))
        (λ p h. omega (arith, h, l))
  items_round fuel xs pos rest (mark c) l k = elim (Bool-cases (c == b']')) [
    | inl e ↦ rw e l
    | inr e ↦ elim (Bool-cases (c == b',')) [
      | inl f ↦
          rw (e, f)
            (weaken (λ p. size p.1 < size rest) (λ p. size p.1 < size pos)
              (parse_items atoi atof fuel xs rest) (k xs) (λ p h. omega (arith, h, l)))
      | inr f ↦ rw (e, f) tt
    ]
  ]

  fields_round :
      (fuel : ℕ) (pos rest : Option Bytes) (next : Option State) (fs : Fields Z D)
      → size rest < size pos
      → ((st : State) → Yields (λ p. size p.1 < size rest) (parse_fields atoi atof fuel st fs rest))
      → Yields
          (λ p. size p.1 < size pos)
          (elim next as (λ z. Outcome (Fields Z D × Option Bytes)) [
            | none ↦ ok (fs, rest)
            | some st ↦ parse_fields atoi atof fuel st fs rest
          ])
  fields_round fuel pos rest none fs l k = l
  fields_round fuel pos rest (some st) fs l k =
      weaken (λ p. size p.1 < size rest) (λ p. size p.1 < size pos)
        (parse_fields atoi atof fuel st fs rest) (k st) (λ p h. omega (arith, h, l))

  mutual
    unfolding parse

    parse-Yields :
        (fuel : ℕ) (pos : Option Bytes)
        → 2 * size pos < fuel
        → Yields (λ p. size p.1 < size pos) (parse atoi atof fuel pos)
    parse-Yields zero pos l = absurd (omega (arith, l))
    parse-Yields (suc fuel) pos l =
        Yields->>= (λ p. size p.1 < size pos) (λ p. size p.1 < size pos) (token pos) _
          (token-Yields pos)
          (λ p h. elim (Bool-cases (is_byte atoi atof b'[' p.0)) [
            | inl e ↦ rw e (
                Yields->>= (λ q. size q.1 < size p.1) (λ q. size q.1 < size pos)
                  (parse_items atoi atof fuel nil p.1) _
                  (items-Yields fuel nil p.1 (omega (arith, l, h))) (λ q k. omega (arith, k, h)))
            | inr e ↦ elim (Bool-cases (is_byte atoi atof b'{' p.0)) [
              | inl f ↦
                  rw (e, f)
                    (Yields->>= (λ q. size q.1 < size p.1) (λ q. size q.1 < size pos)
                      (parse_fields atoi atof fuel name_next end p.1) _
                      (fields-Yields fuel name_next end p.1 (omega (arith, l, h)))
                      (λ q k. omega (arith, k, h)))
              | inr f ↦
                  rw (e, f)
                    (Yields->>= (λ r. Unit) (λ q. size q.1 < size pos) (reply_of atoi atof p.0) _
                      (reply_of-Yields p.0) (λ r k. h))
            ]
          ])

    items-Yields :
        (fuel : ℕ) (xs : Items Z D) (pos : Option Bytes)
        → 2 * size pos + 1 < fuel
        → Yields (λ p. size p.1 < size pos) (parse_items atoi atof fuel xs pos)
    items-Yields zero xs pos l = absurd (omega (arith, l))
    items-Yields (suc fuel) xs pos l =
        Yields->>= (λ p. size p.1 < size pos) (λ p. size p.1 < size pos) (parse atoi atof fuel pos)
          _ (parse-Yields fuel pos (omega (arith, l)))
          (λ p h.
            items_round fuel xs pos p.1 p.0 h
              (λ ys. items-Yields fuel ys p.1 (omega (arith, l, h))))

    fields-Yields :
        (fuel : ℕ) (st : State) (fs : Fields Z D) (pos : Option Bytes)
        → 2 * size pos + 1 < fuel
        → Yields (λ p. size p.1 < size pos) (parse_fields atoi atof fuel st fs pos)
    fields-Yields zero st fs pos l = absurd (omega (arith, l))
    fields-Yields (suc fuel) st fs pos l =
        Yields->>= (λ p. size p.1 < size pos) (λ p. size p.1 < size pos) (parse atoi atof fuel pos)
          _ (parse-Yields fuel pos (omega (arith, l)))
          (λ p h.
            Yields->>= (λ r. Unit) (λ q. size q.1 < size pos) (field_step atoi atof st fs p.0) _
              (field_step-Yields st fs p.0)
              (λ q k.
                fields_round fuel pos p.1 q.0 q.1 h
                  (λ st. fields-Yields fuel st q.1 p.1 (omega (arith, l, h)))))

  parse_text-fuel : (s : Bytes) → Yields (λ j. Unit {0}) (parse_text atoi atof s)
  unfolding parse_text
  parse_text-fuel s =
      Yields->>= (λ p. size p.1 < size (some s)) (λ j. Unit)
        (parse atoi atof (2 * length s + 4) (some s)) _
        (parse-Yields (2 * length s + 4) (some s) (omega arith)) (λ p h. tt)

  -- On every text `Parse` comes to a value, to an exception, or to a read behind the terminator of the
  -- text: up to there its loops and its recursion end.
  pub parse_text-Yields :
      (s : Bytes)
      → ((j : Json Z D) × (parse_text atoi atof s ≡ ok j))
        ⊎ (parse_text atoi atof s ≡ thrown)
        ⊎ (parse_text atoi atof s ≡ out_of_bounds)
  parse_text-Yields s = outcomes (parse_text atoi atof s) (parse_text-fuel s)
