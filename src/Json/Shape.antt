-- ===== src/Json/Shape.antt =====
-- The elements of arrays and the entries of objects, put together, and the fuel that a value takes.
use common_cc.Prelude.{
  ℕ, suc, ◌+◌, ◌≤◌, ◌≡◌, ◌∙◌, refl, ap, sym, true, List, [], ◌∷◌, ◌++◌, Bytes, All-middle, arith,
}
use common_cc.Prelude.Dict.{text_less}
use common_cc.Prelude.Order.{IsMap, text_less_asym, text_less_same}
use common_cc.Json.Value.{
  Json, Items, Fields, unknown, integer, real, string, boolean, array, object, nil, cons, end,
  field, push_back, set_field,
}

module _ {Z D : Type 0} where
  -- The entries of an object.
  abbrev pub entries : Fields Z D → List (Bytes × Json Z D)
  entries end = []
  entries (field k v fs) = (k, v) ∷ entries fs

  abbrev pub join_items : Items Z D → Items Z D → Items Z D
  join_items nil ys = ys
  join_items (cons x xs) ys = cons x (join_items xs ys)

  abbrev pub join_fields : Fields Z D → Fields Z D → Fields Z D
  join_fields end gs = gs
  join_fields (field k v fs) gs = field k v (join_fields fs gs)

  pub join-push_back :
      (xs ys : Items Z D) (o : Json Z D)
      → join_items (push_back xs o) ys ≡ join_items xs (cons o ys)
  unfolding push_back
  join-push_back nil ys o = refl
  join-push_back (cons x xs) ys o = rw (join-push_back xs ys o) refl

  pub join_nil : (xs : Items Z D) → join_items xs nil ≡ xs
  join_nil nil = refl
  join_nil (cons x xs) = rw (join_nil xs) refl

  pub join_end : (fs : Fields Z D) → join_fields fs end ≡ fs
  join_end end = refl
  join_end (field k v fs) = rw (join_end fs) refl

  pub entries-join : (fs gs : Fields Z D) → entries (join_fields fs gs) ≡ entries fs ++ entries gs
  entries-join end gs = refl
  entries-join (field k v fs) gs = rw (entries-join fs gs) refl

  -- A key behind all others is entered at the end.
  pub set_field-join :
      (fs gs : Fields Z D) (k : Bytes) (v : Json Z D)
      → IsMap (entries fs ++ ((k, v) ∷ entries gs))
      → join_fields (set_field k v fs) gs ≡ join_fields fs (field k v gs)
  unfolding set_field
  set_field-join end gs k v w = refl
  set_field-join (field j x fs) gs k v w =
      let less : text_less j k ≡ true =
        All-middle (λ e. text_less j e.0 ≡ true) (entries fs) (entries gs) (k, v) w.0 in
      rw (text_less_same j k less, text_less_asym j k less, set_field-join fs gs k v w.1) refl

  -- The fuel that a value takes.
  unfoldable mutual
    pub need : Json Z D → ℕ
    need (array xs) = suc (need_items xs)
    need (object fs) = suc (need_fields fs)
    need unknown = 1
    need (integer n) = 1
    need (real d) = 1
    need (string s) = 1
    need (boolean b) = 1

    pub need_items : Items Z D → ℕ
    need_items nil = 2
    need_items (cons x xs) = 1 + need x + need_items xs

    pub need_fields : Fields Z D → ℕ
    need_fields end = 2
    need_fields (field k v fs) = 4 + need v + need_fields fs

  pub need_pos : (j : Json Z D) → 1 ≤ need j
  unfolding need
  need_pos unknown = omega arith
  need_pos (integer n) = omega arith
  need_pos (real d) = omega arith
  need_pos (string s) = omega arith
  need_pos (boolean b) = omega arith
  need_pos (array xs) = omega arith
  need_pos (object fs) = omega arith

  pub need_items_two : (xs : Items Z D) → 2 ≤ need_items xs
  unfolding need
  need_items_two nil = omega arith
  need_items_two (cons x xs) = omega (arith, need_items_two xs)

  pub need_fields_two : (fs : Fields Z D) → 2 ≤ need_fields fs
  unfolding need
  need_fields_two end = omega arith
  need_fields_two (field k v fs) = omega arith

  pub entries-set_field :
      (fs gs : Fields Z D) (k : Bytes) (v : Json Z D)
      → IsMap (entries fs ++ ((k, v) ∷ entries gs))
      → entries (set_field k v fs) ++ entries gs ≡ entries fs ++ ((k, v) ∷ entries gs)
  entries-set_field fs gs k v w =
      sym (entries-join (set_field k v fs) gs)
      ∙ ap entries (set_field-join fs gs k v w)
      ∙ entries-join fs (field k v gs)
