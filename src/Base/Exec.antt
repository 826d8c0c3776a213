-- ===== src/Base/Exec.antt =====
-- Methods that mutate an object and may raise. What was written before a raise stays written, so
-- the state comes back beside the exception too. `E` is the type of the exceptions.
pub mod Keeps

pub data Result (E A : Type 0) : Type 0 where
  ok : A → Result E A
  err : E → Result E A

abbrev pub Exec : Type 0 → Type 0 → Type 0 → Type 0
Exec E S A = S → Result E A × S

module _ {E S A : Type 0} where
  pub pure : A → Exec E S A
  pure a s = (ok a, s)

  pub raise : E → Exec E S A
  raise e s = (err e, s)

  pub gets : (S → A) → Exec E S A
  gets f s = (ok (f s), s)

module _ {E S : Type 0} where
  pub modify : (S → S) → Exec E S Unit
  modify f s = (ok tt, f s)

module _ {E S A : Type 0} where
  -- `try: body` with the handlers left to the code behind it: the outcome as a value.
  pub try : Exec E S A → Exec E S (Result E A)
  try m s = let (r, s') = m s in (ok r, s')

module _ {E S A B : Type 0} where
  abbrev continue : Result E A → (A → Exec E S B) → Exec E S B
  continue (ok a) f s = f a s
  continue (err e) f s = (err e, s)

  infixl 5 ◌>>=◌ ◌>>◌
  -- Opening this opens the primitive actions too.
  unfoldable pub ◌>>=◌ : Exec E S A → (A → Exec E S B) → Exec E S B
  unfolding pure raise gets modify try
  ◌>>=◌ m f s = let (r, s') = m s in continue r f s'

  abbrev pub ◌>>◌ : Exec E S A → Exec E S B → Exec E S B
  m >> n = m >>= λ _. n
