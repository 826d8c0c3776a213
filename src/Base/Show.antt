-- ===== src/Base/Show.antt =====
-- `str` of the numbers, and the truth values, that the messages of the program show.
use Prim.Native.Nat.{ℕ, zero, suc, ◌/◌, ◌%◌}
use Prim.Native.String.{String, ◌∷◌, ◌++◌, char_at}
use mathlib.Core.Path.{◌≡◌, refl}
use mathlib.Core.Bool.{Bool, true, false}
use mathlib.Core.Option.{Option, none, some}
use sglang_ops_stack.Base.Tests.{ltb}

-- `negsuc n` is -(n + 1).
pub data ℤ : Type 0 where
  pos : ℕ → ℤ
  negsuc : ℕ → ℤ

-- A number below the fuel has fewer digits than the fuel.
show_from : ℕ → ℕ → String → String
show_from zero n out = out
show_from (suc f) n out =
    let out' = char_at "0123456789" (n % 10) ∷ out in
    elim (ltb n 10) [ true ↦ out' | false ↦ show_from f (n / 10) out' ]

unfoldable pub show : ℕ → String
unfolding show_from
show n = show_from (suc n) n ""

unfoldable pub show_int : ℤ → String
unfolding show
show_int (pos n) = show n
show_int (negsuc n) = "-" ++ show (suc n)

unfoldable pub show_exit : Option ℤ → String
unfolding show_int
show_exit none = "None"
show_exit (some n) = show_int n

unfoldable pub show_bool : Bool → String
show_bool true = "True"
show_bool false = "False"

show_port : show 30010 ≡ "30010"
unfolding show
show_port = refl
