-- ===== src/Ini.antt =====
-- `CIniFile` of utils/ini.h and utils/ini.cpp: values by section and key. The bytes of the file are
-- an argument, and so is `atoi`.
pub mod Lines
pub mod RoundTrip
mod Examples
use common_cc.Prelude.{
  ℕ, ◌+◌, ◌-◌, ◌^◌, ◌%◌, Bool, true, false, not, Option, none, some, List, [], ◌∷◌, ◌++◌, take,
  drop, ltb, ◌==◌, if◌then◌else◌, ◌>>=◌, Bytes,
}
use common_cc.Prelude.Int.{ℤ, pos, negsuc}
use common_cc.Prelude.Dict.{lookup, insert}
use common_cc.Prelude.Text.{find_byte, substr}

-- The section of the last header, and `m_kv`.
pub record Ini : Type 0 where
  pub field : Bytes
  pub kv : List (Bytes × Bytes)

-- The key of `m_kv` for a key of a section.
unfoldable pub map_key : Bytes → Bytes → Bytes
map_key field key = field ++ (b'-' ∷ key)

-- A line that `OpenIniFile` skips.
unfoldable pub is_skipped : Bytes → Bool
is_skipped [] = true
is_skipped (c ∷ line) = c == b'#'

-- What stands between the brackets of a header.
unfoldable pub section_of : Bytes → Option Bytes
section_of line = do
  opened ← find_byte line b'['
  closed ← find_byte line b']'
  if ltb opened closed then some (substr line (opened + 1) (closed - opened - 1)) else none

-- The key and the value of another line. Without `=` both are the whole line, since `npos + 1` is 0.
unfoldable pub pair_at : Bytes → Option ℕ → Bytes × Bytes
pair_at line none = (line, line)
pair_at line (some at) = (take at line, drop (at + 1) line)

-- One round of the loop of `OpenIniFile`, on a line that is not skipped.
unfoldable pub take_line : Ini → Bytes → Option Bytes → Ini
take_line s line (some field) = record s { field = field }
take_line s line none =
    let (key, value) = pair_at line (find_byte line b'=') in
    record s { kv = insert (map_key s.field key) value s.kv }

unfoldable pub read_line : Ini → Bytes → Ini
read_line s line = if is_skipped line then s else take_line s line (section_of line)

unfoldable pub read_lines : Ini → List Bytes → Ini
read_lines s [] = s
read_lines s (line ∷ lines) = read_lines (read_line s line) lines

-- A byte in front of the first line.
abbrev pub in_front : ℕ → List Bytes → List Bytes
in_front c [] = (c ∷ []) ∷ []
in_front c (line ∷ lines) = (c ∷ line) ∷ lines

-- The lines that `getline` gives, one after the other: an end of line ends a line, and so does the end
-- of the file behind other bytes.
unfoldable pub get_lines : Bytes → List Bytes
get_lines [] = []
get_lines (c ∷ s) = let rest = get_lines s in if c == 10 then [] ∷ rest else in_front c rest

-- `CIniFile::OpenIniFile`. `none` is a file that does not open.
unfoldable pub open_ini_file : List (Bytes × Bytes) → Option Bytes → Bool × List (Bytes × Bytes)
open_ini_file kv none = (false, kv)
open_ini_file kv (some content) =
    (true, (read_lines (record { field = []; kv = kv }) (get_lines content)).kv)

-- The private `GetFiledValue`.
unfoldable pub get_value : List (Bytes × Bytes) → Bytes → Bytes → Option Bytes
get_value kv field key = lookup (map_key field key) kv

-- `GetFiledValue` with a default: a text, a number, a truth value.
abbrev pub value_or {ℓ} : {A : Type ℓ} → (Bytes → A) → A → Option Bytes → A
value_or read def none = def
value_or read def (some s) = read s

abbrev pub is_zero : ℤ → Bool
is_zero (pos n) = n == 0
is_zero (negsuc n) = false

unfoldable pub get_text : List (Bytes × Bytes) → Bytes → Bytes → Bytes → Bytes
get_text kv field key def = value_or (λ s. s) def (get_value kv field key)

-- A C `int` as an unsigned integer of a width.
unfoldable pub to_unsigned : ℕ → ℤ → ℕ
to_unsigned w (pos n) = n % 2 ^ w
to_unsigned w (negsuc n) = 2 ^ w - 1 - n % 2 ^ w

module _ (atoi : Bytes → ℤ) where
  unfoldable pub get_uint : List (Bytes × Bytes) → Bytes → Bytes → ℕ → ℕ
  get_uint kv field key def = value_or (λ s. to_unsigned 32 (atoi s)) def (get_value kv field key)

  unfoldable pub get_int : List (Bytes × Bytes) → Bytes → Bytes → ℤ → ℤ
  get_int kv field key def = value_or atoi def (get_value kv field key)

  unfoldable pub get_bool : List (Bytes × Bytes) → Bytes → Bytes → Bool → Bool
  get_bool kv field key def =
      value_or (λ s. if is_zero (atoi s) then false else true) def (get_value kv field key)

-- A floating-point value, by `atof`.
module _ {D : Type 0} (atof : Bytes → D) where
  unfoldable pub get_double : List (Bytes × Bytes) → Bytes → Bytes → D → D
  get_double kv field key def = value_or atof def (get_value kv field key)
