-- ===== src/Json/Steps.antt =====
-- The steps of the parser on what `ToString` writes.
use common_cc.Prelude.{ℕ, suc, ◌≡◌, refl, false, Option, some, ◌∷◌, ◌++◌, Bytes}
use common_cc.Prelude.Text.{starts_with}
use common_cc.Prelude.Ascii.{is_digit}
use common_cc.Json.Value.{
  ok, ◌>>=◌, Json, Items, Fields, string, array, object, nil, end, push_back, set_field,
}
use common_cc.Json.Token.{Token, text, skip_spaces, read_word, read_token}
use common_cc.Json.Tokens.{IsPlain, read_token-quoted}
use common_cc.Json.Parse.{
  value, mark, name_next, reply_of, is_byte, parse, parse_items, parse_fields,
}
use common_cc.Json.Print.{quoted}

module _ {Z D : Type 0} (atoi : Bytes → Z) (atof : Bytes → D) where
  -- A token that is no bracket.
  pub parse-other :
      (fuel : ℕ) (s : Bytes) (t : Token) (rest : Option Bytes) (o : Json Z D)
      → read_token (skip_spaces s) ≡ (t, rest)
      → is_byte atoi atof b'[' t ≡ false
      → is_byte atoi atof b'{' t ≡ false
      → reply_of atoi atof t ≡ ok (value o)
      → parse atoi atof (suc fuel) (some s) ≡ ok (value o, rest)
  unfolding parse
  parse-other fuel s t rest o e f g h = rw (e, f, g, h) refl

  pub parse-array :
      (fuel : ℕ) (s : Bytes)
      → parse atoi atof (suc fuel) (some (b'[' ∷ s))
        ≡ (parse_items atoi atof fuel nil (some s) >>= (λ p. ok (value (array p.0), p.1)))
  unfolding parse skip_spaces read_token read_word starts_with is_digit
  parse-array fuel s = refl

  pub parse-object :
      (fuel : ℕ) (s : Bytes)
      → parse atoi atof (suc fuel) (some (b'{' ∷ s)) ≡ (
          parse_fields atoi atof fuel name_next end (some s)
          >>= (λ p. ok (value (object p.0), p.1)))
  unfolding parse skip_spaces read_token read_word starts_with is_digit
  parse-object fuel s = refl

  -- The marks of arrays and objects.
  pub parse-bracket :
      (fuel : ℕ) (s : Bytes) → parse atoi atof (suc fuel) (some (b']' ∷ s)) ≡ ok (mark b']', some s)
  unfolding parse skip_spaces read_token read_word starts_with is_digit
  parse-bracket fuel s = refl

  pub parse-brace :
      (fuel : ℕ) (s : Bytes) → parse atoi atof (suc fuel) (some (b'}' ∷ s)) ≡ ok (mark b'}', some s)
  unfolding parse skip_spaces read_token read_word starts_with is_digit
  parse-brace fuel s = refl

  pub parse-comma :
      (fuel : ℕ) (s : Bytes) → parse atoi atof (suc fuel) (some (b',' ∷ s)) ≡ ok (mark b',', some s)
  unfolding parse skip_spaces read_token read_word starts_with is_digit
  parse-comma fuel s = refl

  pub parse-colon :
      (fuel : ℕ) (s : Bytes) → parse atoi atof (suc fuel) (some (b':' ∷ s)) ≡ ok (mark b':', some s)
  unfolding parse skip_spaces read_token read_word starts_with is_digit
  parse-colon fuel s = refl

  -- Rounds of the loop over an array.
  pub parse_items-value :
      (fuel : ℕ) (xs : Items Z D) (pos rest : Option Bytes) (o : Json Z D)
      → parse atoi atof fuel pos ≡ ok (value o, rest)
      → parse_items atoi atof (suc fuel) xs pos ≡ parse_items atoi atof fuel (push_back xs o) rest
  unfolding parse
  parse_items-value fuel xs pos rest o e = rw (parse_items, e) refl

  pub parse_items-comma :
      (fuel : ℕ) (xs : Items Z D) (s : Bytes)
      → parse_items atoi atof (suc (suc fuel)) xs (some (b',' ∷ s))
        ≡ parse_items atoi atof (suc fuel) xs (some s)
  unfolding parse
  parse_items-comma fuel xs s = rw (parse_items, parse-comma fuel s) refl

  pub parse_items-bracket :
      (fuel : ℕ) (xs : Items Z D) (s : Bytes)
      → parse_items atoi atof (suc (suc fuel)) xs (some (b']' ∷ s)) ≡ ok (xs, some s)
  unfolding parse
  parse_items-bracket fuel xs s = rw (parse_items, parse-bracket fuel s) refl

  -- Rounds of the loop over an object.
  pub parse_fields-comma :
      (fuel : ℕ) (fs : Fields Z D) (s : Bytes)
      → parse_fields atoi atof (suc (suc fuel)) name_next fs (some (b',' ∷ s))
        ≡ parse_fields atoi atof (suc fuel) name_next fs (some s)
  unfolding parse
  parse_fields-comma fuel fs s = rw (parse_fields, parse-comma fuel s) refl

  pub parse_fields-brace :
      (fuel : ℕ) (fs : Fields Z D) (s : Bytes)
      → parse_fields atoi atof (suc (suc fuel)) name_next fs (some (b'}' ∷ s)) ≡ ok (fs, some s)
  unfolding parse
  parse_fields-brace fuel fs s = rw (parse_fields, parse-brace fuel s) refl

  -- Three rounds, for a key, a colon and a value.
  pub parse_fields-field :
      (fuel : ℕ) (fs : Fields Z D) (k s t : Bytes) (o : Json Z D)
      → IsPlain k
      → parse atoi atof (suc fuel) (some s) ≡ ok (value o, some t)
      → parse_fields atoi atof
          (suc (suc (suc (suc fuel))))
          name_next
          fs
          (some (quoted k ++ (b':' ∷ s)))
        ≡ parse_fields atoi atof (suc fuel) name_next (set_field k o fs) (some t)
  unfolding parse
  parse_fields-field fuel fs k s t o w e =
      let key : parse atoi atof (suc (suc (suc fuel))) (some (quoted k ++ (b':' ∷ s)))
          ≡ ok (value (string k), some (b':' ∷ s)) =
        parse-other (suc (suc fuel)) (quoted k ++ (b':' ∷ s)) (text k) (some (b':' ∷ s)) (string k)
          (read_token-quoted k (b':' ∷ s) w) refl refl refl in
      rw (parse_fields, key, parse-colon (suc fuel) s, e) refl
