-- ===== src/Remote/Spec/Shell.antt =====
-- How a POSIX shell splits a command line into words, for the lines that need no expansion: blanks
-- between words, single quotes, and double quotes around characters without a meaning of their own.
-- `none` stands for a line in which the shell would see an operator, an expansion or an open quote.
-- This is written from the shell's rules and not from `shlex.quote`.
use Prim.Native.Char.{Char, code}
use mathlib.Core.Option
use sglang_ops_stack.Base.{
  String, ◌<>◌, Bool, List, [], ◌∷◌, Option, none, some, leb, eqb, if◌then◌else◌, ◌||◌, ◌&&◌, true,
  false,
}

pub data Kind : Type 0 where
  blank single_quote double_quote plain active : Kind

-- `plain` are the characters that mean nothing to the shell wherever they stand in a word.
unfoldable pub kind : Char → Kind
kind c =
    let n = code c in
    if eqb n 32
    then blank
    else if eqb n 39
    then single_quote
    else if eqb n 34
    then double_quote
    else if (leb 97 n && leb n 122)
        || (leb 64 n && leb n 90)
        || (leb 43 n && leb n 58)
        || eqb n 37
        || eqb n 61
        || eqb n 95
    then plain
    else active

-- Between double quotes these keep a meaning: ! " $ \ and the backquote.
unfoldable pub is_active_in_double : Char → Bool
is_active_in_double c = let n = code c in eqb n 33 || eqb n 36 || eqb n 92 || eqb n 96

pub data Mode : Type 0 where
  outside in_single in_double : Mode

-- The word under way is `none` between words.
abbrev pub extend : Option String → Char → Option String
extend none c = some (String.◌∷◌ c String.[])
extend (some w) c = some (w <> String.◌∷◌ c String.[])

abbrev pub begin : Option String → Option String
begin none = some ""
begin (some w) = some w

abbrev pub finish : Option String → List String → List String
finish none ws = ws
finish (some w) ws = w ∷ ws

unfoldable pub split : Mode → Option String → String → Option (List String)
split outside word String.[] = some (finish word [])
split in_single word String.[] = none
split in_double word String.[] = none
split outside word (String.◌∷◌ c s) = elim (kind c) [
  | blank ↦ Option.map (finish word) (split outside none s)
  | single_quote ↦ split in_single (begin word) s
  | double_quote ↦ split in_double (begin word) s
  | plain ↦ split outside (extend word c) s
  | active ↦ none
]
split in_single word (String.◌∷◌ c s) = elim (kind c) [
  | single_quote ↦ split outside word s
  | _ ↦ split in_single (extend word c) s
]
split in_double word (String.◌∷◌ c s) = elim (kind c) [
  | double_quote ↦ split outside word s
  | _ ↦ elim (is_active_in_double c) [ true ↦ none | false ↦ split in_double (extend word c) s ]
]

-- The words of a whole line.
unfoldable pub shell_words : String → Option (List String)
unfolding split kind is_active_in_double
shell_words line = split outside none line
