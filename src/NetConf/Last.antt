-- ===== src/NetConf/Last.antt =====
-- What the getters of a network configuration answer for a file that is written line by line.
use common_cc.Prelude.{ℕ, ◌≡◌, ap, ◌%◌, ◌^◌, some, List, [], All, Bytes}
use common_cc.Prelude.Int.{ℤ}
use common_cc.Ini.{to_unsigned}
use common_cc.Prelude.Search.{Free}
use common_cc.Ini.Lines.{text_of}
use common_cc.Ini.RoundTrip.{Section, IsSection, lines_of, value_of, open_ini_file_lem}
use common_cc.NetConf.{open_ini_file, get_value, get_uint16, answer_or}

-- A 16-bit number of a configuration that is written line by line, for sections with no dash, no
-- closing bracket and no end of line in their names and pairs that can be read, and for a section that is asked for with
-- no dash in its name: the answer says whether the key was given a value in the section; the number is
-- that of the value that was given last, by `atoi` and cut to 16 bits, or else the default, cut too.
get_uint16_lem :
    (atoi : Bytes → ℤ) (ss : List Section) (field key : Bytes) (def : ℕ)
    → Free b'-' field
    → All IsSection ss
    → get_uint16 atoi (open_ini_file [] (some (text_of (lines_of ss)))).1 field key def
      ≡ answer_or (λ s. to_unsigned 16 (atoi s)) (def % 2 ^ 16) (value_of ss field key)
unfolding get_uint16 get_value open_ini_file
get_uint16_lem atoi ss field key def i w =
    ap (λ o. answer_or (λ s. to_unsigned 16 (atoi s)) (def % 2 ^ 16) o)
      (open_ini_file_lem ss field key i w)
