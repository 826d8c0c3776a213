-- ===== src/Base/Text.antt =====
-- The methods of Python's `str` that the program calls, over native texts.
use Prim.Native.Nat.{ℕ, zero, suc, ◌-◌}
use Prim.Native.Char.{Char, code}
use Prim.Native.String.{String, [], ◌∷◌, ◌++◌, char_at, count}
use mathlib.Core.Bool.{Bool, true, false, ◌&&◌, ◌||◌}
use mathlib.Core.List.{List}
use mathlib.Core.Option.{none, some}
use text.Mathlib.Text.{find?}
use sglang_ops_stack.Base.Tests.{ltb, leb, eqb, if◌then◌else◌}

-- `bool(text)` is its negation.
abbrev pub is_empty : String → Bool
is_empty [] = true
is_empty (c ∷ s) = false

-- `a or b` between two texts.
abbrev pub or_else : String → String → String
or_else a b = if is_empty a then b else a

-- The characters for which `str.isspace` holds.
is_space : Char → Bool
is_space c =
    let n = code c in
    (leb 9 n && leb n 13)
    || (leb 28 n && leb n 32)
    || eqb n 133
    || eqb n 160
    || eqb n 5760
    || (leb 8192 n && leb n 8202)
    || eqb n 8232
    || eqb n 8233
    || eqb n 8239
    || eqb n 8287
    || eqb n 12288

lstrip : String → String
lstrip [] = []
lstrip (c ∷ s) = if is_space c then lstrip s else c ∷ s

rstrip : String → String
rstrip [] = []
rstrip (c ∷ s) = let rest = rstrip s in if is_space c && is_empty rest then [] else c ∷ rest

unfoldable pub strip : String → String
unfolding is_space lstrip rstrip
strip s = rstrip (lstrip s)

-- The letters of ASCII, and the two other characters whose lower case has one of them: the sign of
-- kelvin and the capital i with a dot.
lower_char : Char → String
lower_char c =
    let n = code c in
    if leb 65 n && leb n 90
    then char_at "abcdefghijklmnopqrstuvwxyz" (n - 65) ∷ []
    else if eqb n 8490
    then "k"
    else if eqb n 304
    then "i̇"
    else c ∷ []

-- `text.lower()` as far as ASCII is concerned: other letters stay as they are, and the program looks
-- for words of ASCII only in what it has lowered.
unfoldable pub lower : String → String
unfolding lower_char
lower [] = []
lower (c ∷ s) = lower_char c ++ lower s

-- `needle in text`
abbrev pub contains : String → String → Bool
contains needle text = elim (find? text needle) [ none ↦ false | some _ ↦ true ]

abbrev pub is_prefix : String → String → Bool
is_prefix [] s = true
is_prefix (c ∷ p) [] = false
is_prefix (c ∷ p) (d ∷ s) = eqb (code c) (code d) && is_prefix p s

-- `text.replace(old, new)` for an `old` that is not empty: from the left, without overlaps. The
-- number says how many characters of a match are still to be passed over.
unfoldable pub replace_from : (old new : String) → ℕ → String → String
replace_from old new k [] = []
replace_from old new (suc k) (c ∷ s) = replace_from old new k s
replace_from old new zero (c ∷ s) =
    let hit = new ++ replace_from old new (count old - 1) s in
    let miss = c ∷ replace_from old new zero s in if is_prefix old (c ∷ s) then hit else miss

unfoldable pub replace : (old new : String) → String → String
unfolding replace_from
replace old new text = replace_from old new 0 text

-- `separator.join(parts)`
unfoldable pub join : String → List String → String
join separator List.[] = []
join separator (List.◌∷◌ p List.[]) = p
join separator (List.◌∷◌ p (List.◌∷◌ q ps)) = p ++ separator ++ join separator (List.◌∷◌ q ps)

-- `text[:n]`
unfoldable pub take_chars : ℕ → String → String
take_chars zero s = []
take_chars (suc n) [] = []
take_chars (suc n) (c ∷ s) = c ∷ take_chars n s

drop_chars : ℕ → String → String
drop_chars zero s = s
drop_chars (suc n) [] = []
drop_chars (suc n) (c ∷ s) = drop_chars n s

-- `text[-n:]` for a positive `n`
unfoldable pub last_chars : ℕ → String → String
unfolding drop_chars
last_chars n s = drop_chars (count s - n) s

-- `text.rstrip(c)` for one character
unfoldable pub rstrip_char : Char → String → String
rstrip_char c [] = []
rstrip_char c (d ∷ s) =
    let rest = rstrip_char c s in if is_empty rest && eqb (code c) (code d) then [] else d ∷ rest

-- `a <= b` between two texts: by their characters' code points.
unfoldable pub precedes : String → String → Bool
precedes [] b = true
precedes (c ∷ a) [] = false
precedes (c ∷ a) (d ∷ b) =
    let rest = precedes a b in
    if ltb (code c) (code d) then true else if eqb (code c) (code d) then rest else false
