-- ===== src/Remote/Spec/Quote.antt =====
-- `shlex.quote` of Python's standard library, which `CommandSpec.command_line` joins the words by.
use Prim.Native.Char.{Char, code}
use Prim.Native.String.{[], ◌∷◌}
use sglang_ops_stack.Base.{String, ◌<>◌, Bool, true, ◌&&◌, ◌||◌, leb, eqb, if◌then◌else◌}
use sglang_ops_stack.Base.Text.{is_empty, replace}

-- [a-zA-Z0-9_@%+=:,./-]
unfoldable pub is_safe : Char → Bool
is_safe c =
    let n = code c in
    (leb b'a' n && leb n b'z')
    || (leb b'A' n && leb n b'Z')
    || (leb b'0' n && leb n b'9')
    || eqb n b'_'
    || eqb n b'@'
    || eqb n b'%'
    || eqb n b'+'
    || eqb n b'='
    || eqb n b':'
    || eqb n b','
    || eqb n b'.'
    || eqb n b'/'
    || eqb n b'-'

unfoldable pub all_safe : String → Bool
all_safe [] = true
all_safe (c ∷ s) = is_safe c && all_safe s

unfoldable pub quote : String → String
quote s =
    if is_empty s then "''" else if all_safe s then s else "'" <> replace "'" "'\"'\"'" s <> "'"
