-- ===== src/NetConf.antt =====
-- `CNetConf` of net/net_conf.h and net/net_conf.cc: the reader of Ini.antt, line for line, with
-- getters that answer whether the key is there.
mod Last
mod Examples
use common_cc.Prelude.{
  ℕ, ◌^◌, ◌%◌, Bool, true, false, Option, none, some, List, if◌then◌else◌, Bytes,
}
use common_cc.Prelude.Int.{ℤ}
use common_cc.Ini
use common_cc.Ini.{to_unsigned, is_zero}

unfoldable pub open_ini_file : List (Bytes × Bytes) → Option Bytes → Bool × List (Bytes × Bytes)
open_ini_file kv content = Ini.open_ini_file kv content

unfoldable pub get_value : List (Bytes × Bytes) → Bytes → Bytes → Option Bytes
get_value kv field key = Ini.get_value kv field key

-- A getter's answer, with what it stores.
abbrev pub answer_or {ℓ} : {A : Type ℓ} → (Bytes → A) → A → Option Bytes → Bool × A
answer_or read def none = (false, def)
answer_or read def (some s) = (true, read s)

unfoldable pub get_text : List (Bytes × Bytes) → Bytes → Bytes → Bytes → Bool × Bytes
get_text kv field key def = answer_or (λ s. s) def (get_value kv field key)

module _ (atoi : Bytes → ℤ) where
  -- The `uint16_t` value: the default is a `uint32_t`, and what is stored is cut to 16 bits.
  unfoldable pub get_uint16 : List (Bytes × Bytes) → Bytes → Bytes → ℕ → Bool × ℕ
  get_uint16 kv field key def =
      answer_or (λ s. to_unsigned 16 (atoi s)) (def % 2 ^ 16) (get_value kv field key)

  unfoldable pub get_uint : List (Bytes × Bytes) → Bytes → Bytes → ℕ → Bool × ℕ
  get_uint kv field key def = answer_or (λ s. to_unsigned 32 (atoi s)) def (get_value kv field key)

  unfoldable pub get_int : List (Bytes × Bytes) → Bytes → Bytes → ℤ → Bool × ℤ
  get_int kv field key def = answer_or atoi def (get_value kv field key)

  unfoldable pub get_bool : List (Bytes × Bytes) → Bytes → Bytes → Bool → Bool × Bool
  get_bool kv field key def =
      answer_or (λ s. if is_zero (atoi s) then false else true) def (get_value kv field key)

-- A floating-point value, by `atof`.
module _ {D : Type 0} (atof : Bytes → D) where
  unfoldable pub get_double : List (Bytes × Bytes) → Bytes → Bytes → D → Bool × D
  get_double kv field key def = answer_or atof def (get_value kv field key)
