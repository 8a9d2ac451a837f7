-- ===== src/Json/RoundTrip.antt =====
-- A value that `ToString` writes is read back by `Parse`.
use common_cc.Prelude.{
  ℕ, zero, suc, ◌+◌, ◌*◌, ◌≤◌, ◌<◌, ◌≡◌, ◌∙◌, refl, ap, sym, Bool, true, false, some, [], ◌∷◌, ◌++◌,
  append_assoc, append-nil, length, length-append, Bytes, codes, arith,
}
use common_cc.Prelude.Ascii.{is_digit}
use common_cc.Prelude.Order.{IsMap}
use common_cc.Json.Value.{
  ok, ◌>>=◌, Json, Items, Fields, unknown, integer, real, string, boolean, array, object, nil, cons,
  end, field, push_back, set_field,
}
use common_cc.Json.Token.{Token, number, text, null, bool, number_length, read_token, skip_spaces}
use common_cc.Json.Parse.{
  value, name_next, parse, parse_items, parse_fields, parse_text, parsed, is_byte, reply_of,
}
use common_cc.Json.Print.{quoted, to_string, print_items, print_fields}
use common_cc.Json.Tokens.{
  IsPlain, IsNumber, Stops, read_token-quoted, read_token-number, read_token-null, read_token-true,
  read_token-false,
}
use common_cc.Json.Shape.{
  entries, join_items, join_fields, join-push_back, join_nil, join_end, set_field-join,
  need_items_two, need_fields_two, entries-set_field, need_pos, need, need_items, need_fields,
}
use common_cc.Json.Steps.{
  parse-other, parse-array, parse-object, parse_items-value, parse_items-comma, parse_items-bracket,
  parse_fields-comma, parse_fields-brace, parse_fields-field,
}

module _ {Z D : Type 0} (atoi : Bytes → Z) (atof : Bytes → D) (print_long : Z → Bytes)
    (print_real : D → Bytes) where
  -- A value that is written in a form that can be read: its numbers are written as numbers that the C
  -- library reads back, its texts have no backslash and no zero byte, and its keys are in order.
  unfoldable mutual
    pub Readable : Json Z D → Type 0
    Readable unknown = Unit
    Readable (integer n) = IsNumber false (print_long n) × (atoi (print_long n) ≡ n)
    Readable (real d) = IsNumber true (print_real d) × (atof (print_real d) ≡ d)
    Readable (string s) = IsPlain s
    Readable (boolean b) = Unit
    Readable (array xs) = ReadableItems xs
    Readable (object fs) = ReadableFields fs × IsMap (entries fs)

    pub ReadableItems : Items Z D → Type 0
    ReadableItems nil = Unit
    ReadableItems (cons x xs) = Readable x × ReadableItems xs

    pub ReadableFields : Fields Z D → Type 0
    ReadableFields end = Unit
    ReadableFields (field k v fs) = IsPlain k × Readable v × ReadableFields fs

  abbrev written : Json Z D → Bytes
  written j = to_string print_long print_real true j

  Stops-items :
      (xs : Items Z D) (rest : Bytes)
      → Stops (print_items print_long print_real true false xs ++ (b']' ∷ rest))
  unfolding to_string number_length is_digit
  Stops-items nil rest = refl
  Stops-items (cons x xs) rest = refl

  Stops-fields :
      (fs : Fields Z D) (rest : Bytes)
      → Stops (print_fields print_long print_real true false fs ++ (b'}' ∷ rest))
  unfolding to_string number_length is_digit
  Stops-fields end rest = refl
  Stops-fields (field k v fs) rest = refl

  -- The values that are one token.
  parse-word :
      (fuel : ℕ) (j : Json Z D) (s rest : Bytes) (t : Token)
      → read_token (skip_spaces (s ++ rest)) ≡ (t, some rest)
      → is_byte atoi atof b'[' t ≡ false
      → is_byte atoi atof b'{' t ≡ false
      → reply_of atoi atof t ≡ ok (value j)
      → parse atoi atof (suc fuel) (some (s ++ rest)) ≡ ok (value j, some rest)
  parse-word fuel j s rest t e f g h =
      parse-other atoi atof fuel (s ++ rest) t (some rest) j e f g h

  -- What follows the brackets of an array or an object.
  array_tail :
      (fuel : ℕ) (xs : Items Z D) (rest : Bytes)
      → parse_items atoi atof fuel nil
          (some (print_items print_long print_real true true xs ++ (b']' ∷ rest)))
        ≡ ok (xs, some rest)
      → parse atoi atof (suc fuel) (some (written (array xs) ++ rest))
        ≡ ok (value (array xs), some rest)
  unfolding to_string
  array_tail fuel xs rest e =
      let printed : Bytes = print_items print_long print_real true true xs in
      let cut : (printed ++ (b']' ∷ [])) ++ rest ≡ printed ++ (b']' ∷ rest) =
        append_assoc printed (b']' ∷ []) rest in
      parse-array atoi atof fuel ((printed ++ (b']' ∷ [])) ++ rest) ∙ rw (cut, e) refl

  object_tail :
      (fuel : ℕ) (fs : Fields Z D) (rest : Bytes)
      → parse_fields atoi atof fuel name_next end
          (some (print_fields print_long print_real true true fs ++ (b'}' ∷ rest)))
        ≡ ok (fs, some rest)
      → parse atoi atof (suc fuel) (some (written (object fs) ++ rest))
        ≡ ok (value (object fs), some rest)
  unfolding to_string
  object_tail fuel fs rest e =
      let printed : Bytes = print_fields print_long print_real true true fs in
      let cut : (printed ++ (b'}' ∷ [])) ++ rest ≡ printed ++ (b'}' ∷ rest) =
        append_assoc printed (b'}' ∷ []) rest in
      parse-object atoi atof fuel ((printed ++ (b'}' ∷ [])) ++ rest) ∙ rw (cut, e) refl

  -- An element and a field, with what follows.
  item_cut :
      (x : Json Z D) (xs : Items Z D) (rest : Bytes)
      → print_items print_long print_real true true (cons x xs) ++ (b']' ∷ rest)
        ≡ written x ++ (print_items print_long print_real true false xs ++ (b']' ∷ rest))
  unfolding to_string
  item_cut x xs rest =
      append_assoc (written x) (print_items print_long print_real true false xs) (b']' ∷ rest)

  field_cut :
      (k : Bytes) (v : Json Z D) (fs : Fields Z D) (rest : Bytes)
      → print_fields print_long print_real true true (field k v fs) ++ (b'}' ∷ rest)
        ≡ quoted k
          ++ (b':'
              ∷ (written v ++ (print_fields print_long print_real true false fs ++ (b'}' ∷ rest))))
  unfolding to_string
  field_cut k v fs rest =
      append_assoc (quoted k)
        (b':' ∷ (written v ++ print_fields print_long print_real true false fs)) (b'}' ∷ rest)
      ∙ ap (λ z. quoted k ++ (b':' ∷ z))
          (append_assoc (written v) (print_fields print_long print_real true false fs)
            (b'}' ∷ rest))

  mutual
    unfolding Readable need reply_of is_byte to_string

    parse_lem :
        (fuel : ℕ) (j : Json Z D) (rest : Bytes)
        → need j ≤ fuel
        → Readable j
        → Stops rest
        → parse atoi atof fuel (some (written j ++ rest)) ≡ ok (value j, some rest)
    parse_lem zero j rest l w k = absurd (omega (arith, need_pos j))
    parse_lem (suc fuel) unknown rest l w k =
        parse-word fuel unknown (codes "null") rest null (read_token-null rest) refl refl refl
    parse_lem (suc fuel) (integer n) rest l w k =
        parse-word fuel (integer n) (print_long n) rest (number false (print_long n))
          (read_token-number false (print_long n) rest w.0 k) refl refl (rw (w.1) refl)
    parse_lem (suc fuel) (real d) rest l w k =
        parse-word fuel (real d) (print_real d) rest (number true (print_real d))
          (read_token-number true (print_real d) rest w.0 k) refl refl (rw (w.1) refl)
    parse_lem (suc fuel) (string s) rest l w k =
        parse-word fuel (string s) (quoted s) rest (text s) (read_token-quoted s rest w) refl refl
          refl
    parse_lem (suc fuel) (boolean true) rest l w k =
        parse-word fuel (boolean true) (codes "true") rest (bool true) (read_token-true rest) refl
          refl refl
    parse_lem (suc fuel) (boolean false) rest l w k =
        parse-word fuel (boolean false) (codes "false") rest (bool false) (read_token-false rest)
          refl refl refl
    parse_lem (suc fuel) (array xs) rest l w k =
        array_tail fuel xs rest (items_lem fuel nil xs rest (omega arith) w)
    parse_lem (suc fuel) (object fs) rest l w k =
        object_tail fuel fs rest (fields_lem fuel end fs rest (omega arith) w.0 w.1)

    items_lem :
        (fuel : ℕ) (xs ys : Items Z D) (rest : Bytes)
        → need_items ys ≤ fuel
        → ReadableItems ys
        → parse_items atoi atof fuel xs
            (some (print_items print_long print_real true true ys ++ (b']' ∷ rest)))
          ≡ ok (join_items xs ys, some rest)
    items_lem zero xs ys rest l w = absurd (omega (arith, need_items_two ys))
    items_lem (suc zero) xs ys rest l w = absurd (omega (arith, need_items_two ys))
    items_lem (suc (suc fuel)) xs nil rest l w =
        parse_items-bracket atoi atof fuel xs rest ∙ ap (λ z. ok (z, some rest)) (sym (join_nil xs))
    items_lem (suc (suc fuel)) xs (cons y ys) rest l w =
        let tail : Bytes = print_items print_long print_real true false ys ++ (b']' ∷ rest) in
        ap (λ z. parse_items atoi atof (suc (suc fuel)) xs (some z)) (item_cut y ys rest)
        ∙ parse_items-value atoi atof (suc fuel) xs (some (written y ++ tail)) (some tail) y
            (parse_lem (suc fuel) y tail (omega arith) w.0 (Stops-items ys rest))
        ∙ items_after (suc fuel) (push_back xs y) ys rest (omega (arith, need_pos y)) w.1
        ∙ ap (λ z. ok (z, some rest)) (join-push_back xs ys y)

    items_after :
        (fuel : ℕ) (xs ys : Items Z D) (rest : Bytes)
        → need_items ys < fuel
        → ReadableItems ys
        → parse_items atoi atof fuel xs
            (some (print_items print_long print_real true false ys ++ (b']' ∷ rest)))
          ≡ ok (join_items xs ys, some rest)
    items_after zero xs ys rest l w = absurd (omega (arith, need_items_two ys))
    items_after (suc zero) xs ys rest l w = absurd (omega (arith, need_items_two ys))
    items_after (suc (suc fuel)) xs nil rest l w =
        parse_items-bracket atoi atof fuel xs rest ∙ ap (λ z. ok (z, some rest)) (sym (join_nil xs))
    items_after (suc (suc fuel)) xs (cons y ys) rest l w =
        parse_items-comma atoi atof fuel xs
          (print_items print_long print_real true true (cons y ys) ++ (b']' ∷ rest))
        ∙ items_lem (suc fuel) xs (cons y ys) rest (omega arith) w

    fields_lem :
        (fuel : ℕ) (fs gs : Fields Z D) (rest : Bytes)
        → need_fields gs ≤ fuel
        → ReadableFields gs
        → IsMap (entries fs ++ entries gs)
        → parse_fields atoi atof fuel name_next fs
            (some (print_fields print_long print_real true true gs ++ (b'}' ∷ rest)))
          ≡ ok (join_fields fs gs, some rest)
    fields_lem zero fs gs rest l w m = absurd (omega (arith, need_fields_two gs))
    fields_lem (suc zero) fs gs rest l w m = absurd (omega (arith, need_fields_two gs))
    fields_lem (suc (suc fuel)) fs end rest l w m =
        parse_fields-brace atoi atof fuel fs rest ∙ ap (λ z. ok (z, some rest)) (sym (join_end fs))
    fields_lem (suc (suc zero)) fs (field k v gs) rest l w m = absurd (omega arith)
    fields_lem (suc (suc (suc zero))) fs (field k v gs) rest l w m = absurd (omega arith)
    fields_lem (suc (suc (suc (suc fuel)))) fs (field k v gs) rest l w m =
        let tail : Bytes = print_fields print_long print_real true false gs ++ (b'}' ∷ rest) in
        let kept : IsMap (entries (set_field k v fs) ++ entries gs) =
          rw (entries-set_field fs gs k v m) m in
        ap (λ z. parse_fields atoi atof (suc (suc (suc (suc fuel)))) name_next fs (some z))
          (field_cut k v gs rest)
        ∙ parse_fields-field atoi atof fuel fs k (written v ++ tail) tail v w.0
            (parse_lem (suc fuel) v tail (omega arith) w.1 (Stops-fields gs rest))
        ∙ fields_after (suc fuel) (set_field k v fs) gs rest (omega (arith, need_pos v)) w.2 kept
        ∙ ap (λ z. ok (z, some rest)) (set_field-join fs gs k v m)

    fields_after :
        (fuel : ℕ) (fs gs : Fields Z D) (rest : Bytes)
        → need_fields gs < fuel
        → ReadableFields gs
        → IsMap (entries fs ++ entries gs)
        → parse_fields atoi atof fuel name_next fs
            (some (print_fields print_long print_real true false gs ++ (b'}' ∷ rest)))
          ≡ ok (join_fields fs gs, some rest)
    fields_after zero fs gs rest l w m = absurd (omega (arith, need_fields_two gs))
    fields_after (suc zero) fs gs rest l w m = absurd (omega (arith, need_fields_two gs))
    fields_after (suc (suc fuel)) fs end rest l w m =
        parse_fields-brace atoi atof fuel fs rest ∙ ap (λ z. ok (z, some rest)) (sym (join_end fs))
    fields_after (suc (suc fuel)) fs (field k v gs) rest l w m =
        parse_fields-comma atoi atof fuel fs
          (print_fields print_long print_real true true (field k v gs) ++ (b'}' ∷ rest))
        ∙ fields_lem (suc fuel) fs (field k v gs) rest (omega arith) w m

  -- The fuel is enough.
  number_le : (dot : Bool) (t : Bytes) → IsNumber dot t → 1 ≤ 2 * length t
  number_le dot [] w = absurd w
  number_le dot (c ∷ s) w = omega arith

  mutual
    unfolding need Readable to_string quoted

    need-le : (j : Json Z D) → Readable j → need j ≤ 2 * length (written j)
    need-le unknown w = omega arith
    need-le (integer n) w = number_le false (print_long n) w.0
    need-le (real d) w = number_le true (print_real d) w.0
    need-le (string s) w = omega arith
    need-le (boolean true) w = omega arith
    need-le (boolean false) w = omega arith
    need-le (array xs) w = omega (
      arith,
      first-le xs w,
      length-append (print_items print_long print_real true true xs) (b']' ∷ []),
    )
    need-le (object fs) w = omega (
      arith,
      first_field-le fs w.0,
      length-append (print_fields print_long print_real true true fs) (b'}' ∷ []),
    )

    first-le :
        (xs : Items Z D)
        → ReadableItems xs
        → need_items xs ≤ 2 * length (print_items print_long print_real true true xs) + 3
    first-le nil w = omega arith
    first-le (cons x xs) w = omega (
      arith,
      need-le x w.0,
      others-le xs w.1,
      length-append (written x) (print_items print_long print_real true false xs),
    )

    others-le :
        (xs : Items Z D)
        → ReadableItems xs
        → need_items xs ≤ 2 * length (print_items print_long print_real true false xs) + 2
    others-le nil w = omega arith
    others-le (cons x xs) w = omega (
      arith,
      need-le x w.0,
      others-le xs w.1,
      length-append (written x) (print_items print_long print_real true false xs),
    )

    first_field-le :
        (fs : Fields Z D)
        → ReadableFields fs
        → need_fields fs ≤ 2 * length (print_fields print_long print_real true true fs) + 3
    first_field-le end w = omega arith
    first_field-le (field k v fs) w =
        let value_text : Bytes = written v ++ print_fields print_long print_real true false fs in
        omega (
          arith,
          need-le v w.1,
          other_fields-le fs w.2,
          length-append (written v) (print_fields print_long print_real true false fs),
          length-append (quoted k) (b':' ∷ value_text),
        )

    other_fields-le :
        (fs : Fields Z D)
        → ReadableFields fs
        → need_fields fs ≤ 2 * length (print_fields print_long print_real true false fs) + 2
    other_fields-le end w = omega arith
    other_fields-le (field k v fs) w =
        let value_text : Bytes = written v ++ print_fields print_long print_real true false fs in
        omega (
          arith,
          need-le v w.1,
          other_fields-le fs w.2,
          length-append (written v) (print_fields print_long print_real true false fs),
          length-append (quoted k) (b':' ∷ value_text),
        )

  -- What `ToString` writes with quotes, `Parse` reads back: the same value, to any depth. For a value
  -- whose numbers are written as numbers that the C library reads back, whose texts and keys have no
  -- backslash and no zero byte, and whose objects have their keys in the map's order.
  pub parse_text-to_string :
      (j : Json Z D)
      → Readable j
      → parse_text atoi atof (to_string print_long print_real true j) ≡ ok j
  unfolding parse_text
  parse_text-to_string j w =
      let text : Bytes = written j in
      let fuel : ℕ = 2 * length text + 4 in
      let all : text ≡ text ++ [] = sym (append-nil text) in
      ap (λ z. parse atoi atof fuel (some z) >>= (λ p. ok (parsed atoi atof p.0))) all
      ∙ rw (parse_lem fuel j [] (omega (arith, need-le j w)) w (unfold number_length in refl)) refl
