-- ===== src/Strings/Replace.antt =====
-- Functions of `StringUtility` that look for one text in another: `ReplaceStr`, `ReplaceStrSet`,
-- `RemoveStr`, `RemoveStrSet`, `DeleteSubstr`, `SplitString` by a separator, and
-- `IsSubStrContained`. `none` is a call that does not come back, as for an empty text to look for.
use common_cc.Prelude.{
  ℕ, zero, suc, ◌+◌, ◌-◌, ◌%◌, ◌^◌, Bool, true, false, ◌&&◌, Option, none, some, List, [], ◌∷◌,
  ◌++◌, length, take, drop, get_or, leb, ltb, ◌==◌, if◌then◌else◌, ◌>>=◌, Bytes,
}
use mathlib.Core.Option
use common_cc.Prelude.Text.{find}
use common_cc.Strings.Chars.{is_separator}
use common_cc.Strings.Trim.{trim_both_sides}

-- The loop of `ReplaceStr`, on what follows the place where the search goes on.
unfoldable pub replace_from : ℕ → Bytes → Bytes → Bytes → Option Bytes
replace_from zero old_str new_str s = none
replace_from (suc fuel) old_str new_str s = elim (find s old_str) [
  | none ↦ some s
  | some at ↦ do
    rest ← replace_from fuel old_str new_str (drop (at + length old_str) s)
    some (take at s ++ (new_str ++ rest))
]

-- `ReplaceStr`.
unfoldable pub replace_str : Bytes → Bytes → Bytes → Option Bytes
replace_str s old_str new_str = replace_from (suc (length s)) old_str new_str s

-- `ReplaceStrSet`, over the entries of the map.
unfoldable pub replace_str_set : Bytes → List (Bytes × Bytes) → Option Bytes
replace_str_set s [] = some s
replace_str_set s ((old_str, new_str) ∷ m) = do
  next ← replace_str s old_str new_str
  replace_str_set next m

-- Whether a find at `at` has a separator, or an end of the text, on both sides.
unfoldable pub has_separators : Bytes → Bytes → ℕ → Bool
has_separators s sub at =
    let end = at + length sub in
    (if at == 0 then true else is_separator (get_or s (at - 1) 0))
    && (if leb (length s) end then true else is_separator (get_or s end 0))

-- How many bytes before the next search `RemoveStr` keeps.
unfoldable pub kept_length : Bool → Bytes → Bytes → ℕ → ℕ
kept_length false s sub at = at
kept_length true s sub at = if has_separators s sub at then at else at + length sub

-- `while (!strTemp.empty())`: what is kept of a round, and the other rounds if a text is left.
abbrev pub go_on : Bytes → Bytes → Option Bytes → Option Bytes
go_on kept [] rest = some kept
go_on kept (c ∷ left) rest = Option.map (λ more. kept ++ more) rest

-- A position or `npos` as an `int`: not found where that is -1, and `none` where it is another
-- negative number.
unfoldable pub int_pos : Option ℕ → Option (Option ℕ)
int_pos none = some none
int_pos (some at) =
    let p = at % 2 ^ 32 in
    if ltb p (2 ^ 31) then some (some p) else if p == 2 ^ 32 - 1 then some none else none

-- The loop of `RemoveStr`. What it does at a negative position is not followed: it is `none`.
unfoldable pub remove_from : ℕ → Bool → Bytes → Bytes → Option Bytes
remove_from zero need sub s = none
remove_from (suc fuel) need sub s = do
  pos ← int_pos (find s sub)
  elim pos [
    | none ↦ some s
    | some at ↦
        let kept = take (kept_length need s sub at) s in
        let left = drop (at + length sub) s in
        let rest = remove_from fuel need sub left in go_on kept left rest
  ]

-- `RemoveStr`.
unfoldable pub remove_str : Bytes → Bytes → Bool → Option Bytes
remove_str s sub need = remove_from (suc (length s)) need sub s

-- The texts of a set, from the last one to the first.
unfoldable pub remove_each : Bytes → List Bytes → Bool → Option Bytes
remove_each s [] need = some s
remove_each s (sub ∷ subs) need = do behind ← remove_each s subs need; remove_str behind sub need

-- `RemoveStrSet`. In an empty set it steps before the first element.
unfoldable pub remove_str_set : Bytes → List Bytes → Bool → Option Bytes
remove_str_set s [] need = none
remove_str_set s (sub ∷ subs) need = remove_each s (sub ∷ subs) need

-- The loop of `DeleteSubstr`, with the same limit. A negative end is before every begin.
unfoldable pub delete_from : ℕ → Bytes → Bytes → Bytes → Option Bytes
delete_from zero begin_str end_str s = none
delete_from (suc fuel) begin_str end_str s = do
  begin ← int_pos (find s begin_str)
  elim begin [
    | none ↦ some s
    | some from ↦ elim (int_pos (find s end_str)) [
      | none ↦ some s
      | some end ↦ elim end [
        | none ↦ some s
        | some to ↦
            let left = drop (to + length end_str) s in
            let rest = delete_from fuel begin_str end_str left in
            if ltb from to then go_on (take from s) left rest else some s
      ]
    ]
  ]

-- `DeleteSubstr`. Each round takes a byte at least, since the end stands behind the begin.
unfoldable pub delete_substr : Bytes → Bytes → Bytes → Option Bytes
delete_substr s begin_str end_str = delete_from (suc (length s)) begin_str end_str s

abbrev pub blanks : Bytes
blanks = 32 ∷ 13 ∷ 10 ∷ 9 ∷ []

-- A text, unless it is empty.
abbrev pub unless_empty : Bytes → List Bytes
unless_empty [] = []
unless_empty (c ∷ s) = (c ∷ s) ∷ []

-- The loop of `SplitString` by a separator.
unfoldable pub split_by_from : ℕ → Bytes → Bytes → Option (List Bytes)
split_by_from zero spliter s = none
split_by_from (suc fuel) spliter s = elim (find s spliter) [
  | none ↦ some (unless_empty (trim_both_sides s blanks))
  | some at ↦ do
    rest ← split_by_from fuel spliter (trim_both_sides (drop (at + length spliter) s) blanks)
    some (take at s ∷ rest)
]

-- `SplitString` by a separator.
unfoldable pub split_by : Bytes → Bytes → Option (List Bytes)
split_by [] spliter = some []
split_by (c ∷ s) [] = some []
split_by (c ∷ s) (d ∷ spliter) =
    let trimmed = trim_both_sides (c ∷ s) blanks in
    if length trimmed == 0
    then some []
    else split_by_from (suc (length trimmed)) (d ∷ spliter) trimmed

-- `IsSubStrContained`.
unfoldable pub is_sub_str_contained : Bytes → List Bytes → Bool
is_sub_str_contained s [] = false
is_sub_str_contained s (sub ∷ subs) = elim (find s sub) [
  | none ↦ is_sub_str_contained s subs
  | some at ↦ true
]
