-- ===== src/Ini/Examples.antt =====
-- Runs of the reader of configuration files, and its theorems at a concrete file.
use common_cc.Prelude.{◌≡◌, refl, some, List, [], ◌∷◌, Bytes, codes}
use common_cc.Prelude.Dict.{lookup, insert, same_text, text_less}
use common_cc.Prelude.Text.{find_byte}
use common_cc.Ini.{
  get_lines, open_ini_file, read_lines, read_line, take_line, section_of, pair_at, is_skipped,
  map_key, get_value,
}
use common_cc.Ini.Lines.{text_of}
use common_cc.Ini.RoundTrip.{Section, IsSection, lines_of, value_of, open_ini_file_lem}

abbrev lines : List Bytes
lines =
    codes "# servers"
    ∷ codes "[net]"
    ∷ codes "port=80"
    ∷ codes ""
    ∷ codes "port=8080"
    ∷ codes "bare"
    ∷ []

port_is_last :
    get_value (open_ini_file [] (some (text_of lines))).1 (codes "net") (codes "port")
    ≡ some (codes "8080")
unfolding open_ini_file get_lines read_lines read_line take_line section_of pair_at is_skipped
    map_key get_value lookup insert same_text find_byte text_less
port_is_last = refl

bare_is_itself :
    get_value (open_ini_file [] (some (text_of lines))).1 (codes "net") (codes "bare")
    ≡ some (codes "bare")
unfolding open_ini_file get_lines read_lines read_line take_line section_of pair_at is_skipped
    map_key get_value lookup insert same_text find_byte text_less
bare_is_itself = refl

abbrev net : Section
net = record { name = codes "n"; pairs = (codes "p", codes "1") ∷ (codes "p", codes "2") ∷ [] }

net-IsSection : IsSection net
unfolding is_skipped
net-IsSection = record {
  no_dash = (refl, tt);
  no_bracket = (refl, tt);
  one_line = (refl, tt);
  pairs_read = (
    record {
      starts = refl;
      no_equals = (refl, tt);
      no_bracket = (refl, (refl, (refl, tt)));
      one_line = (refl, (refl, (refl, tt)));
    },
    (
      record {
        starts = refl;
        no_equals = (refl, tt);
        no_bracket = (refl, (refl, (refl, tt)));
        one_line = (refl, (refl, (refl, tt)));
      },
      tt,
    ),
  );
}

open_ini_file_lem_example :
    get_value (open_ini_file [] (some (text_of (lines_of (net ∷ []))))).1 (codes "n") (codes "p")
    ≡ value_of (net ∷ []) (codes "n") (codes "p")
open_ini_file_lem_example =
    open_ini_file_lem (net ∷ []) (codes "n") (codes "p") (refl, tt) (net-IsSection, tt)
