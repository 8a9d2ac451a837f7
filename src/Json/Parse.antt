-- ===== src/Json/Parse.antt =====
-- `Parse` of utils/json.cpp, on a new object.
use common_cc.Prelude.{
  ℕ, zero, suc, ◌+◌, ◌*◌, Bool, false, Option, none, some, length, leb, ◌==◌, if◌then◌else◌, Bytes,
}
use common_cc.Json.Value.{
  Outcome, ok, thrown, out_of_bounds, out_of_fuel, ◌>>=◌, Json, Items, Fields, unknown, integer,
  real, string, boolean, array, object, nil, end, set_field, push_back,
}
use common_cc.Json.Token.{Token, token, number, text, null, bool, byte, terminator}

-- What `Parse` returns, with the object that it fills: 0, or the byte of a mark.
pub data Reply (Z D : Type 0) : Type 0 where
  value : Json Z D → Reply Z D
  mark : ℕ → Reply Z D

-- Where the loop over an object is.
pub data State : Type 0 where
  name_next : State
  colon_next : Bytes → State
  value_next : Bytes → State

module _ {Z D : Type 0} (atoi : Bytes → Z) (atof : Bytes → D) where
  -- A token that is no bracket. A byte from 251 on is a negative `char`, which is taken for the type of
  -- a value, and leaves the object's type unknown. Other bytes are the end of the call.
  unfoldable pub reply_of : Token → Outcome (Reply Z D)
  reply_of (number dot ord) = ok (value (if dot then real (atof ord) else integer (atoi ord)))
  reply_of (text ord) = ok (value (string ord))
  reply_of null = ok (value unknown)
  reply_of (bool b) = ok (value (boolean b))
  reply_of (byte c) =
      if c == b']'
      then ok (mark b']')
      else if c == b'}'
      then ok (mark b'}')
      else if c == b','
      then ok (mark b',')
      else if c == b':'
      then ok (mark b':')
      else if leb 251 c
      then ok (value unknown)
      else thrown
  reply_of terminator = out_of_bounds

  -- `token` is the byte of a bracket.
  unfoldable pub is_byte : ℕ → Token → Bool
  is_byte b (byte c) = c == b
  is_byte b other = false

  -- A round of the loop over an object, on what the call in it gave: the object that is done, or the
  -- next round with its state and entries.
  unfoldable pub field_step : State → Fields Z D → Reply Z D → Outcome (Option State × Fields Z D)
  field_step name_next fs (mark c) =
      if c == b',' then ok (some name_next, fs) else if c == b'}' then ok (none, fs) else thrown
  field_step name_next fs (value (string s)) = ok (some (colon_next s), fs)
  field_step name_next fs (value other) = thrown
  field_step (colon_next name) fs (mark c) =
      if c == b':' then ok (some (value_next name), fs) else thrown
  field_step (colon_next name) fs (value o) = thrown
  field_step (value_next name) fs (mark c) = thrown
  field_step (value_next name) fs (value o) = ok (some name_next, set_field name o fs)

  unfoldable mutual
    unfolding token reply_of is_byte field_step

    pub parse : ℕ → Option Bytes → Outcome (Reply Z D × Option Bytes)
    parse zero pos = out_of_fuel
    parse (suc fuel) pos = do
      (t, rest) ← token pos
      let items = do (xs, behind) ← parse_items fuel nil rest; ok (value (array xs), behind)
      let fields = do
        (fs, behind) ← parse_fields fuel name_next end rest
        ok (value (object fs), behind)
      let other = do r ← reply_of t; ok (r, rest)
      if is_byte b'[' t then items else if is_byte b'{' t then fields else other

    -- The loop over an array, with the elements so far.
    pub parse_items : ℕ → Items Z D → Option Bytes → Outcome (Items Z D × Option Bytes)
    parse_items zero xs pos = out_of_fuel
    parse_items (suc fuel) xs pos = do
      (r, rest) ← parse fuel pos
      elim r [
        | value o ↦ parse_items fuel (push_back xs o) rest
        | mark c ↦
            let next = parse_items fuel xs rest in
            if c == b']' then ok (xs, rest) else if c == b',' then next else thrown
      ]

    -- The loop over an object, with its state and the entries so far.
    pub parse_fields : ℕ → State → Fields Z D → Option Bytes → Outcome (Fields Z D × Option Bytes)
    parse_fields zero state fs pos = out_of_fuel
    parse_fields (suc fuel) state fs pos = do
      (r, rest) ← parse fuel pos
      (next, gs) ← field_step state fs r
      elim next [ none ↦ ok (gs, rest) | some st ↦ parse_fields fuel st gs rest ]

  -- What the object holds after a call of `Parse`: a mark leaves it unknown.
  unfoldable pub parsed : Reply Z D → Json Z D
  parsed (value o) = o
  parsed (mark c) = unknown

  -- The static `Parse`. What stands behind the value is not looked at. Each call takes a byte at least,
  -- and each round of a loop makes one call.
  unfoldable pub parse_text : Bytes → Outcome (Json Z D)
  unfolding parsed
  parse_text s = do (r, rest) ← parse (2 * length s + 4) (some s); ok (parsed r)
