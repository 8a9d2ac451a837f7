-- ===== src/Json/Print.antt =====
-- `ToString` of utils/json.cpp. The formats of numbers are parameters.
use common_cc.Prelude.{Bool, true, false, [], ◌∷◌, ◌++◌, if◌then◌else◌, Bytes, codes}
use common_cc.Json.Value.{
  Json, Items, Fields, unknown, integer, real, string, boolean, array, object, nil, cons, end,
  field,
}
use common_cc.Json.Escape.{encode}

unfoldable pub quoted : Bytes → Bytes
quoted s = 34 ∷ (encode s ++ (34 ∷ []))

-- The comma before an element that is not the first.
abbrev pub separator : Bool → Bytes
separator true = []
separator false = b',' ∷ []

module _ {Z D : Type 0} (print_long : Z → Bytes) (print_real : D → Bytes) where
  unfoldable mutual
    unfolding quoted

    pub to_string : Bool → Json Z D → Bytes
    to_string quote unknown = codes "null"
    to_string quote (integer n) = print_long n
    to_string quote (real d) = print_real d
    to_string quote (string s) = quoted s
    to_string quote (boolean b) = if b then codes "true" else codes "false"
    to_string quote (array xs) = b'[' ∷ (print_items quote true xs ++ (b']' ∷ []))
    to_string quote (object fs) = b'{' ∷ (print_fields quote true fs ++ (b'}' ∷ []))

    pub print_items : Bool → Bool → Items Z D → Bytes
    print_items quote first nil = []
    print_items quote first (cons x xs) =
        separator first ++ (to_string quote x ++ print_items quote false xs)

    pub print_fields : Bool → Bool → Fields Z D → Bytes
    print_fields quote first end = []
    print_fields quote first (field k v fs) =
        separator first
        ++ ((if quote then quoted k else k)
            ++ (b':' ∷ (to_string quote v ++ print_fields quote false fs)))
