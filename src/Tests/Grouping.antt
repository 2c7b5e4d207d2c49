-- ===== src/Tests/Grouping.antt =====
-- Rows that are grouped by a number, and a text with characters that are escaped.
use apitest.Base.{◌≡◌, refl, String, [], ◌∷◌, ok, err, ◌>>=◌, ◌>>◌}
use apitest.Base.Dict.{lookup, insert}
use apitest.Base.Int.{pos}
use apitest.Json.{str, int64}
use apitest.Template.Rows.{Row}
use apitest.Template.Groups.{
  maps, no_column, group_rows, group_map_rows, get_rows_from_input, filled, max_groups,
}
use apitest.Template.Groups.Numbered.{groups, checked, group_rows-groups}
use apitest.Template.Functions.{str_escape}

abbrev row : String → Row
row s = ("g", str s) ∷ []

rows-mapped :
    group_map_rows "g" (maps (row "a" ∷ row "b" ∷ row "a" ∷ []))
    ≡ ok (("a", row "a" ∷ row "a" ∷ []) ∷ ("b", row "b" ∷ []) ∷ [])
unfolding group_map_rows lookup insert
rows-mapped = refl

column-missing : group_map_rows "h" (maps (row "a" ∷ [])) ≡ err no_column
unfolding group_map_rows lookup
column-missing = refl

abbrev numbered : Row
numbered = ("g", int64 (pos 1)) ∷ []

group_rows-groups_example : group_rows "g" (maps (numbered ∷ [])) ≡ (do
  rows ← get_rows_from_input (maps (numbered ∷ []))
  checked "g" max_groups rows
  ok (filled (groups "g" 0 max_groups rows)))
group_rows-groups_example = group_rows-groups "g" (maps (numbered ∷ []))

text-escaped : str_escape "a\"b\\" ≡ "a\\\"b\\\\"
unfolding str_escape
text-escaped = refl
