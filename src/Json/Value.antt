-- ===== src/Json/Value.antt =====
-- The values of `Json`, one constructor for each of its types, and the operations on them. A `double`
-- is of a type that is a parameter.
use common_cc.Prelude.{Bool, true, false, Option, none, some, if◌then◌else◌, [], Bytes}
use common_cc.Prelude.Dict.{same_text, text_less}

-- What a call ends with: a value, an exception, a read behind the terminator of the text, or no fuel.
pub data Outcome {ℓ} (A : Type ℓ) : Type ℓ where
  ok : A → Outcome A
  thrown : Outcome A
  out_of_bounds : Outcome A
  out_of_fuel : Outcome A

infixl 5 ◌>>=◌
abbrev pub ◌>>=◌ {ℓ κ} : {A : Type ℓ} {B : Type κ} → Outcome A → (A → Outcome B) → Outcome B
ok a >>= f = f a
thrown >>= f = thrown
out_of_bounds >>= f = out_of_bounds
out_of_fuel >>= f = out_of_fuel

pub data JsonType : Type 0 where
  type_unknown type_integer type_real type_string type_boolean type_array type_object : JsonType

mutual
  pub data Json (Z D : Type 0) : Type 0 where
    unknown : Json Z D
    integer : Z → Json Z D
    real : D → Json Z D
    string : Bytes → Json Z D
    boolean : Bool → Json Z D
    array : Items Z D → Json Z D
    object : Fields Z D → Json Z D

  -- `m_array`.
  pub data Items (Z D : Type 0) : Type 0 where
    nil : Items Z D
    cons : Json Z D → Items Z D → Items Z D

  -- `m_object`, in the order of the keys.
  pub data Fields (Z D : Type 0) : Type 0 where
    end : Fields Z D
    field : Bytes → Json Z D → Fields Z D → Fields Z D

module _ {Z D : Type 0} where
  unfoldable pub push_back : Items Z D → Json Z D → Items Z D
  push_back nil o = cons o nil
  push_back (cons x xs) o = cons x (push_back xs o)

  -- `m_object.find`.
  unfoldable pub find_field : Bytes → Fields Z D → Option (Json Z D)
  find_field k end = none
  find_field k (field j v fs) = if same_text j k then some v else find_field k fs

  -- `m_object[k] = v`.
  unfoldable pub set_field : Bytes → Json Z D → Fields Z D → Fields Z D
  set_field k v end = field k v end
  set_field k v (field j w fs) =
      let rest = set_field k v fs in
      if same_text j k
      then field j v fs
      else if text_less k j
      then field k v (field j w fs)
      else field j w rest

  -- `operator[]` on a constant object.
  unfoldable pub at : Bytes → Json Z D → Outcome (Json Z D)
  at name (object fs) = elim (find_field name fs) [ none ↦ thrown | some v ↦ ok v ]
  at name other = thrown

  -- `operator[]` as the target of an assignment: the object with the entry set.
  unfoldable pub set_at : Bytes → Json Z D → Json Z D → Outcome (Json Z D)
  set_at name v unknown = ok (object (field name v end))
  set_at name v (object fs) = ok (object (set_field name v fs))
  set_at name v other = thrown

  -- `HasValue`.
  unfoldable pub has_value : Bytes → Json Z D → Bool
  has_value name (object fs) = elim (find_field name fs) [ none ↦ false | some v ↦ true ]
  has_value name other = false

  -- `Add`.
  unfoldable pub add : Json Z D → Json Z D → Outcome (Json Z D)
  add unknown o = ok (array (cons o nil))
  add (array xs) o = ok (array (push_back xs o))
  add other o = thrown

  -- `GetArray` and `GetObject` on a value that may change: an unknown value becomes empty.
  unfoldable pub get_array : Json Z D → Outcome (Items Z D)
  get_array unknown = ok nil
  get_array (array xs) = ok xs
  get_array other = thrown

  unfoldable pub get_object : Json Z D → Outcome (Fields Z D)
  get_object unknown = ok end
  get_object (object fs) = ok fs
  get_object other = thrown

  -- `GetArray` and `GetObject` on a constant object.
  unfoldable pub const_array : Json Z D → Outcome (Items Z D)
  const_array (array xs) = ok xs
  const_array other = thrown

  unfoldable pub const_object : Json Z D → Outcome (Fields Z D)
  const_object (object fs) = ok fs
  const_object other = thrown

  -- `GetString`: the text of a string, and no text else.
  unfoldable pub get_string : Json Z D → Bytes
  get_string (string s) = s
  get_string other = []

  -- `Type`.
  unfoldable pub type_of : Json Z D → JsonType
  type_of unknown = type_unknown
  type_of (integer n) = type_integer
  type_of (real d) = type_real
  type_of (string s) = type_string
  type_of (boolean b) = type_boolean
  type_of (array xs) = type_array
  type_of (object fs) = type_object

  -- The constructor from a type.
  unfoldable pub of_type : JsonType → Outcome (Json Z D)
  of_type type_array = ok (array nil)
  of_type type_object = ok (object end)
  of_type other = thrown
