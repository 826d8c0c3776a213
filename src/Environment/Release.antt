-- ===== src/Environment/Release.antt =====
-- services/environment/runner.py: `parse_os_release`, and the table of the supported releases.
use Prim.Native.Char.{Char, code}
use sglang_ops_stack.Base.{
  String, ◌<>◌, Bool, true, false, ◌||◌, ◌&&◌, List, [], ◌∷◌, Option, none, some, eqb, leb, ◌==◌,
  if◌then◌else◌,
}
use sglang_ops_stack.Base.Split.{split_once}
use sglang_ops_stack.Base.Text.{is_empty, is_prefix, strip, lower}

-- The characters at which `str.splitlines` ends a line, besides a carriage return.
is_break : Char → Bool
is_break c =
    let n = code c in
    (leb 10 n && leb n 12) || (leb 28 n && leb n 30) || eqb n 133 || eqb n 8232 || eqb n 8233

-- `text.splitlines()`: "\r\n" is one line end, and an end without a line behind it adds none. The
-- flag is set behind a carriage return.
split_lines : Bool → String → String → List String
split_lines after_cr line String.[] = if is_empty line then [] else line ∷ []
split_lines after_cr line (String.◌∷◌ c s) =
    let continue = split_lines false (line <> String.◌∷◌ c String.[]) s in
    let skip = split_lines false line s in
    let return = line ∷ split_lines true "" s in
    let break = line ∷ split_lines false "" s in
    if after_cr && eqb (code c) 10
    then skip
    else if eqb (code c) 13
    then return
    else if is_break c
    then break
    else continue

unfoldable pub splitlines : String → List String
unfolding split_lines is_break
splitlines text = split_lines false "" text

drop_left : Char → String → String
drop_left q String.[] = ""
drop_left q (String.◌∷◌ c s) = if eqb (code c) (code q) then drop_left q s else String.◌∷◌ c s

drop_right : Char → String → String
drop_right q String.[] = ""
drop_right q (String.◌∷◌ c s) =
    let rest = drop_right q s in
    if eqb (code c) (code q) && is_empty rest then "" else String.◌∷◌ c rest

-- `text.strip(quote)` for one character
unfoldable pub strip_char : Char → String → String
unfolding drop_left drop_right
strip_char q text = drop_right q (drop_left q text)

abbrev pub Dict : Type 0
Dict = List (String × String)

unfoldable pub put : String → String → Dict → Dict
put key value [] = (key, value) ∷ []
put key value ((k, v) ∷ d) = if k == key then (key, value) ∷ d else (k, v) ∷ put key value d

-- `values.get(key, "")`
unfoldable pub lookup_or_empty : String → Dict → String
lookup_or_empty key [] = ""
lookup_or_empty key ((k, v) ∷ d) = if k == key then v else lookup_or_empty key d

abbrev equals : Char
equals = "="

-- One round of the loop: comments, blank lines and lines without "=" are passed over.
unfoldable pub parse_line : String → Dict → Dict
parse_line line values =
    let stripped = strip line in
    if is_empty stripped || is_prefix "#" stripped
    then values
    else elim (split_once equals stripped) [
      | none ↦ values
      | some (key, value) ↦ put (lower key) (strip_char "'" (strip_char "\"" (strip value))) values
    ]

unfoldable pub parse_lines : List String → Dict → Dict
parse_lines [] values = values
parse_lines (line ∷ lines) values = parse_lines lines (parse_line line values)

unfoldable pub parse_os_release : String → Dict
unfolding splitlines split_once strip_char put parse_line parse_lines strip lower
parse_os_release text = parse_lines (splitlines text) []

-- `SUPPORTED_UBUNTU_LTS_NAMES`; its keys are `SUPPORTED_UBUNTU_LTS_VERSION_IDS`.
unfoldable pub supported_name : String → Option String
supported_name version_id =
    if version_id == "20.04"
    then some "focal"
    else if version_id == "22.04"
    then some "jammy"
    else if version_id == "24.04"
    then some "noble"
    else none
