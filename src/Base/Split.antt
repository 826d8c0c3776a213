-- ===== src/Base/Split.antt =====
-- `str.split` and `str.rstrip` at one character, and what they give of texts put together at it.
use Prim.Native.Nat.{ℕ, zero, suc}
use Prim.Native.Char.{Char, code}
use Prim.Native.String.{String, ◌++◌ as ◌<>◌}
use Prim.Native.String.append
use mathlib.Core.Path.{◌≡◌, refl}
use mathlib.Core.Bool.{Bool, true, false, not, ◌&&◌}
use mathlib.Core.List.{List, [], ◌∷◌}
use mathlib.Core.Option.{Option, none, some}
use native.Mathlib.Omega.{arith}
use sglang_ops_stack.Base.Tests.{eqb, if◌then◌else◌}
use sglang_ops_stack.Base.Text.{rstrip_char}

-- `text.split(sep, 1)`, and `none` where there is no `sep`.
unfoldable pub split_once : Char → String → Option (String × String)
split_once sep String.[] = none
split_once sep (String.◌∷◌ c s) =
    if eqb (code c) (code sep)
    then some ("", s)
    else elim (split_once sep s) [ none ↦ none | some (a, b) ↦ some (String.◌∷◌ c a, b) ]

abbrev pub split_on : (String → List String) → String → Option (String × String) → List String
split_on rest s none = s ∷ []
split_on rest s (some (a, b)) = a ∷ rest b

-- `text.split(sep, n)`
unfoldable pub split_at_most : ℕ → Char → String → List String
split_at_most zero sep s = s ∷ []
split_at_most (suc n) sep s = split_on (λ b. split_at_most n sep b) s (split_once sep s)

abbrev pub onto_first : Char → List String → List String
onto_first c [] = String.◌∷◌ c String.[] ∷ []
onto_first c (w ∷ ws) = String.◌∷◌ c w ∷ ws

-- `text.split(sep)`
unfoldable pub split_all : Char → String → List String
split_all sep String.[] = "" ∷ []
split_all sep (String.◌∷◌ c s) =
    let rest = split_all sep s in if eqb (code c) (code sep) then "" ∷ rest else onto_first c rest

-- The character does not occur.
unfoldable pub lacks : Char → String → Bool
lacks sep String.[] = true
lacks sep (String.◌∷◌ c s) = not (eqb (code c) (code sep)) && lacks sep s

-- `"c" * n`
unfoldable pub repeat : Char → ℕ → String
repeat c zero = ""
repeat c (suc n) = String.◌∷◌ c (repeat c n)

eqb_self : (c : Char) → eqb (code c) (code c) ≡ true
eqb_self c = ground arith

eqb_sym : (c d : Char) → eqb (code d) (code c) ≡ false → eqb (code c) (code d) ≡ false
eqb_sym c d h = ground arith

lacks_parts : (b rest : Bool) → (not b && rest) ≡ true → (b ≡ false) × (rest ≡ true)
lacks_parts b rest h = ground arith

pub split_once-append :
    (sep : Char) (a b : String)
    → lacks sep a ≡ true
    → split_once sep (a <> String.◌∷◌ sep b) ≡ some (a, b)
unfolding split_once lacks
split_once-append sep String.[] b h = rw (append.nil, eqb_self sep) refl
split_once-append sep (String.◌∷◌ c a) b h =
    let parts = lacks_parts (eqb (code c) (code sep)) (lacks sep a) h in
    rw (append.cons, parts.0, split_once-append sep a b parts.1) refl

pub split_all-append :
    (sep : Char) (a b : String)
    → lacks sep a ≡ true
    → split_all sep (a <> String.◌∷◌ sep b) ≡ a ∷ split_all sep b
unfolding split_all lacks
split_all-append sep String.[] b h = rw (append.nil, eqb_self sep) refl
split_all-append sep (String.◌∷◌ c a) b h =
    let parts = lacks_parts (eqb (code c) (code sep)) (lacks sep a) h in
    rw (append.cons, parts.0, split_all-append sep a b parts.1) refl

pub split_all-lacks : (sep : Char) (a : String) → lacks sep a ≡ true → split_all sep a ≡ a ∷ []
unfolding split_all lacks
split_all-lacks sep String.[] h = refl
split_all-lacks sep (String.◌∷◌ c a) h =
    let parts = lacks_parts (eqb (code c) (code sep)) (lacks sep a) h in
    rw (parts.0, split_all-lacks sep a parts.1) refl

rstrip_char-repeat : (c : Char) (n : ℕ) → rstrip_char c (repeat c n) ≡ ""
unfolding rstrip_char repeat
rstrip_char-repeat c zero = refl
rstrip_char-repeat c (suc n) = rw (rstrip_char-repeat c n) (ground arith)

pub rstrip_char-append :
    (c : Char) (n : ℕ) (s : String) → lacks c s ≡ true → rstrip_char c (s <> repeat c n) ≡ s
unfolding rstrip_char lacks
rstrip_char-append c n String.[] h = rw append.nil (rstrip_char-repeat c n)
rstrip_char-append c n (String.◌∷◌ d s) h =
    let parts = lacks_parts (eqb (code d) (code c)) (lacks c s) h in
    rw (append.cons, rstrip_char-append c n s parts.1, eqb_sym c d parts.0) (ground arith)
