-- ===== src/NetConf/Examples.antt =====
-- A run of the getter of ports, and its theorem at a concrete file.
use common_cc.Prelude.{◌≡◌, refl, [], ◌∷◌, Bytes, codes, ◌-◌, false}
use common_cc.Prelude.Int.{ℤ, pos}
use common_cc.Prelude.Dict.{lookup, same_text}
use common_cc.Ini.{
  to_unsigned, read_lines, read_line, take_line, section_of, pair_at, is_skipped, map_key,
}
use common_cc.Ini
use common_cc.NetConf.{get_value, get_uint16}

-- `atoi` on one digit.
abbrev digit : Bytes → ℤ
digit [] = pos 0
digit (c ∷ s) = pos (c - 48)

absent_is_cut : get_uint16 digit [] (codes "n") (codes "p") 65537 ≡ (false, 1)
unfolding get_uint16 get_value Ini.get_value lookup map_key same_text
absent_is_cut = refl
