-- ===== src/Base/Result.antt =====
-- Exceptions as values: a call returns a value or raises an error of type `E`. The operations stay
-- shut in proofs, which go by the rules for `Yields`.
use mathlib.Core.Path.{◌≡◌, refl, ap, subst}
use mathlib.Core.Bool.{Bool, true, false}
use mathlib.Core.Option.{Option, none, some}

pub data Result (E : Type 0) (A : Type 0) : Type 0 where
  ok : A → Result E A
  err : E → Result E A

module _ {E : Type 0} where
  infixl 5 ◌>>=◌ ◌>>◌
  unfoldable pub ◌>>=◌ : {A B : Type 0} → Result E A → (A → Result E B) → Result E B
  ok a >>= f = f a
  err e >>= f = err e

  abbrev pub ◌>>◌ : {B : Type 0} → Result E (Unit {0}) → Result E B → Result E B
  m >> k = m >>= λ _. k

  -- `if not test: raise e`
  unfoldable pub guard : Bool → E → Result E (Unit {0})
  guard true e = ok tt
  guard false e = err e

  unfoldable pub or_raise : {A : Type 0} → Option A → E → Result E A
  or_raise none e = err e
  or_raise (some a) e = ok a

  -- If the call returns, its value satisfies `P`. One rule for each way to build a call.
  pub record Yields {A : Type 0} (P : A → Type 0) (r : Result E A) : Type 0 where
    pub at : (a : A) → r ≡ ok a → P a

  ok_value : {A : Type 0} → A → Result E A → A
  ok_value d (ok a) = a
  ok_value d (err _) = d

  module _ {A : Type 0} {P : A → Type 0} where
    pub ok-Yields : (a : A) → P a → Yields P (ok a)
    unfolding ok_value
    ok-Yields a p = record { at = λ b e. subst P (ap (ok_value a) e) p }

    pub >>=-Yields :
        {B : Type 0} (m : Result E B) (f : B → Result E A)
        → ((b : B) → m ≡ ok b → Yields P (f b))
        → Yields P (m >>= f)
    unfolding ◌>>=◌
    >>=-Yields (ok b) f h = h b refl
    >>=-Yields (err e) f h = record { at = λ a eq. cc }

  pub guard-eq-ok : (b : Bool) (e : E) (u : Unit {0}) → guard b e ≡ ok u → b ≡ true
  unfolding guard
  guard-eq-ok true e u h = refl
  guard-eq-ok false e u h = cc

  pub or_raise-eq-ok :
      {A : Type 0} (o : Option A) (e : E) (a : A) → or_raise o e ≡ ok a → o ≡ some a
  unfolding or_raise
  or_raise-eq-ok none e a h = cc
  or_raise-eq-ok (some a) e b h = cc
