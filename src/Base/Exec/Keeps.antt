-- ===== src/Base/Exec/Keeps.antt =====
-- What actions do to the state: invariants, and triples of a condition before, one after a return
-- and one after a raise. One rule for each way to build an action.
use mathlib.Core.Bool.{Bool, true, false}
use sglang_ops_stack.Base.Tests.{if◌then◌else◌}
use sglang_ops_stack.Base.Exec.{
  Result, ok, err, Exec, pure, raise, gets, modify, try, continue, ◌>>=◌,
}

module _ {E S A : Type 0} where
  abbrev pub Ends : (A → S → Type 0) → (E → S → Type 0) → Result E A → S → Type 0
  Ends Q R (ok a) s = Q a s
  Ends Q R (err e) s = R e s

-- From a state with `P`, the action returns into `Q` or raises into `R`.
pub record Triple {E S A : Type 0} (P : S → Type 0) (m : Exec E S A) (Q : A → S → Type 0)
    (R : E → S → Type 0) : Type 0 where
  pub at : (s : S) → P s → Ends Q R (m s).0 (m s).1

-- The action keeps `P`, whether it returns or raises.
pub record Keeps {E S A : Type 0} (P : S → Type 0) (m : Exec E S A) : Type 0 where
  pub at : (s : S) → P s → P (m s).1

module _ {E S A : Type 0} {P : S → Type 0} where
  pub Keeps-gets : (read : S → A) → Keeps {E = E} P (gets read)
  unfolding gets
  Keeps-gets read = record { at = λ s kept. kept }

  pub Keeps-raise : (e : E) → Keeps {A = A} P (raise e)
  unfolding raise
  Keeps-raise e = record { at = λ s kept. kept }

  pub Keeps-pure : (a : A) → Keeps {E = E} P (pure a)
  unfolding pure
  Keeps-pure a = record { at = λ s kept. kept }

  pub Keeps-try : (m : Exec E S A) → Keeps P m → Keeps P (try m)
  unfolding try
  Keeps-try m k = record { at = λ s h. k.at s h }

  pub Keeps-if :
      (b : Bool) (m n : Exec E S A) → Keeps P m → Keeps P n → Keeps P (if b then m else n)
  Keeps-if true m n km kn = km
  Keeps-if false m n km kn = kn

  pub Keeps-Triple : (m : Exec E S A) → Triple P m (λ _ s. P s) (λ _ s. P s) → Keeps P m
  Keeps-Triple m t = record { at = λ s h. from_Ends (m s).0 (t.at s h) }
    where
      from_Ends : {s : S} (r : Result E A) → Ends (λ _ s. P s) (λ _ s. P s) r s → P s
      from_Ends (ok a) p = p
      from_Ends (err e) p = p

  pub Triple-Keeps : (m : Exec E S A) → Keeps P m → Triple P m (λ _ s. P s) (λ _ s. P s)
  Triple-Keeps m k = record { at = λ s h. to_ends (m s).0 (k.at s h) }
    where
      to_ends : {s : S} (r : Result E A) → P s → Ends (λ _ s. P s) (λ _ s. P s) r s
      to_ends (ok a) p = p
      to_ends (err e) p = p

module _ {E S A B : Type 0} where
  Ends-continue :
      {Q : A → S → Type 0} {Q' : B → S → Type 0} {R : E → S → Type 0} (r : Result E A)
      (f : A → Exec E S B) (s : S)
      → Ends Q R r s
      → ((a : A) → Triple (Q a) (f a) Q' R)
      → Ends Q' R (continue r f s).0 (continue r f s).1
  Ends-continue (ok a) f s h tf = (tf a).at s h
  Ends-continue (err e) f s h tf = h

  keeps-continue :
      {P : S → Type 0} (r : Result E A) (f : A → Exec E S B) (s : S)
      → P s
      → ((a : A) → Keeps P (f a))
      → P (continue r f s).1
  keeps-continue (ok a) f s h kf = (kf a).at s h
  keeps-continue (err e) f s h kf = h

  pub Triple-bind :
      {P : S → Type 0} {Q : A → S → Type 0} {Q' : B → S → Type 0} {R : E → S → Type 0}
      (m : Exec E S A) (f : A → Exec E S B)
      → Triple P m Q R
      → ((a : A) → Triple (Q a) (f a) Q' R)
      → Triple P (m >>= f) Q' R
  unfolding ◌>>=◌
  Triple-bind {R = R} m f tm tf = record {
    at = λ s h. let (r, s') = m s in Ends-continue r f s' (tm.at s h) tf;
  }

  pub Keeps-bind :
      {P : S → Type 0} (first : Exec E S A) (rest : A → Exec E S B)
      → Keeps P first
      → ((a : A) → Keeps P (rest a))
      → Keeps P (first >>= rest)
  unfolding ◌>>=◌
  Keeps-bind first rest kept kept_on = record {
    at = λ s h. let (r, s') = first s in keeps-continue r rest s' (kept.at s h) kept_on;
  }

module _ {E S : Type 0} {P : S → Type 0} where
  pub Keeps-modify : (f : S → S) → ((s : S) → P s → P (f s)) → Keeps {E = E} P (modify f)
  unfolding modify
  Keeps-modify f h = record { at = h }

pub ruleset keeps_rules = (Keeps-bind, Keeps-if, Keeps-try, Keeps-gets, Keeps-pure, Keeps-raise)

module _ {E S A : Type 0} {R : E → S → Type 0} where
  pub Triple-pure : {Q : A → S → Type 0} (a : A) → Triple (Q a) (pure a) Q R
  unfolding pure
  Triple-pure a = record { at = λ s h. h }

  pub Triple-raise :
      {P : S → Type 0} {Q : A → S → Type 0} (e : E)
      → ((s : S) → P s → R e s)
      → Triple P (raise e) Q R
  unfolding raise
  Triple-raise e h = record { at = h }

  pub Triple-gets :
      {P : S → Type 0} {Q : A → S → Type 0} (f : S → A)
      → ((s : S) → P s → Q (f s) s)
      → Triple P (gets f) Q R
  unfolding gets
  Triple-gets f h = record { at = h }

  pub Triple-if :
      {P : S → Type 0} {Q : A → S → Type 0} (b : Bool) (m n : Exec E S A)
      → Triple P m Q R
      → Triple P n Q R
      → Triple P (if b then m else n) Q R
  Triple-if true m n tm tn = tm
  Triple-if false m n tm tn = tn

module _ {E S : Type 0} {R : E → S → Type 0} where
  pub Triple-modify :
      {P Q : S → Type 0} (f : S → S)
      → ((s : S) → P s → Q (f s))
      → Triple P (modify f) (λ _ s. Q s) R
  unfolding modify
  Triple-modify f h = record { at = h }

module _ {E S A : Type 0} where
  -- The rule of consequence.
  pub Triple-weaken :
      {P P' : S → Type 0} {Q Q' : A → S → Type 0} {R R' : E → S → Type 0} (m : Exec E S A)
      → ((s : S) → P' s → P s)
      → ((a : A) (s : S) → Q a s → Q' a s)
      → ((e : E) (s : S) → R e s → R' e s)
      → Triple P m Q R
      → Triple P' m Q' R'
  Triple-weaken {Q} {Q'} {R} {R'} m hp hq hr t = record {
    at = λ s h. let (r, s') = m s in go r s' (t.at s (hp s h));
  }
    where
      go : (r : Result E A) (s : S) → Ends Q R r s → Ends Q' R' r s
      go (ok a) s h = hq a s h
      go (err e) s h = hr e s h

  -- Behind `try` the outcome is a value, and nothing is raised.
  pub Triple-try :
      {P : S → Type 0} {Q : A → S → Type 0} {R R' : E → S → Type 0} (m : Exec E S A)
      → Triple P m Q R
      → Triple P (try m) (Ends Q R) R'
  unfolding try
  Triple-try m t = record { at = λ s h. t.at s h }

module _ {E S A : Type 0} where
  -- Two triples of one action are one of the conjunctions.
  pub Triple-and :
      {P P' : S → Type 0} {Q Q' : A → S → Type 0} {R R' : E → S → Type 0} (m : Exec E S A)
      → Triple P m Q R
      → Triple P' m Q' R'
      → Triple (λ s. P s × P' s) m (λ a s. Q a s × Q' a s) (λ e s. R e s × R' e s)
  Triple-and {Q} {Q'} {R} {R'} m t t' = record {
    at = λ s h. let (r, s') = m s in go r s' (t.at s h.0) (t'.at s h.1);
  }
    where
      go :
          (r : Result E A) (s : S)
          → Ends Q R r s
          → Ends Q' R' r s
          → Ends (λ a s. Q a s × Q' a s) (λ e s. R e s × R' e s) r s
      go (ok a) s h h' = (h, h')
      go (err e) s h h' = (h, h')
