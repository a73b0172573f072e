-- ===== src/Base/Actions.antt =====
-- Methods that change an object and may raise. The object outlives an exception, so what was
-- written before it stays written.
use mathlib.Core.Path.{◌≡◌, refl}
use mathlib.Core.Bool.{Bool, true, false}
use mathlib.Core.List.{List, [], ◌∷◌}
use multi_agent_testbed.Base.Tests.{if◌then◌else◌}

pub data Outcome (E A : Type 0) : Type 0 where
  returned : A → Outcome E A
  raised : E → Outcome E A

abbrev pub Exec : Type 0 → Type 0 → Type 0 → Type 0
Exec S E A = S → Outcome E A × S

module _ {S E A : Type 0} where
  unfoldable pub pure : A → Exec S E A
  pure a s = (returned a, s)

  unfoldable pub raise : E → Exec S E A
  raise e s = (raised e, s)

  unfoldable pub gets : (S → A) → Exec S E A
  gets f s = (returned (f s), s)

unfoldable pub modify : {S E : Type 0} → (S → S) → Exec S E Unit
modify f s = (returned tt, f s)

module _ {S E A B : Type 0} where
  -- What follows a statement: the next one, or the exception.
  abbrev pub and_then : Outcome E A → (A → Exec S E B) → Exec S E B
  and_then (returned a) f s = f a s
  and_then (raised e) f s = (raised e, s)

  infixl 5 ◌>>=◌ ◌>>◌
  unfoldable pub ◌>>=◌ : Exec S E A → (A → Exec S E B) → Exec S E B
  (m >>= f) s = and_then (m s).0 f (m s).1

  abbrev pub ◌>>◌ : Exec S E A → Exec S E B → Exec S E B
  m >> k = m >>= λ _. k

module _ {S E A : Type 0} where
  -- `for x in xs: body(x)`
  unfoldable pub for_each : (A → Exec S E Unit) → List A → Exec S E Unit
  for_each body [] = pure tt
  for_each body (x ∷ xs) = body x >> for_each body xs

-- `m` keeps `P`, whether it returns or raises.
pub record Keeps {S E A : Type 0} (P : S → Type 0) (m : Exec S E A) : Type 0 where
  pub at : (s : S) → P s → P (m s).1

module _ {S E A : Type 0} {P : S → Type 0} where
  pub Keeps-pure : (a : A) → Keeps P (pure {E = E} a)
  unfolding pure
  Keeps-pure a = record { at = λ s h. h }

  pub Keeps-raise : (e : E) → Keeps P (raise {A = A} e)
  unfolding raise
  Keeps-raise e = record { at = λ s h. h }

  pub Keeps-gets : (f : S → A) → Keeps P (gets {E = E} f)
  unfolding gets
  Keeps-gets f = record { at = λ s h. h }

  pub Keeps-if :
      (b : Bool) (m n : Exec S E A) → Keeps P m → Keeps P n → Keeps P (if b then m else n)
  Keeps-if true m n km kn = km
  Keeps-if false m n km kn = kn

module _ {S E : Type 0} {P : S → Type 0} where
  pub Keeps-modify : (f : S → S) → ((s : S) → P s → P (f s)) → Keeps P (modify {E = E} f)
  unfolding modify
  Keeps-modify f h = record { at = h }

module _ {S E A B : Type 0} {P : S → Type 0} where
  and_then-Keeps :
      (r : Outcome E A) (f : A → Exec S E B) → ((a : A) → Keeps P (f a)) → Keeps P (and_then r f)
  and_then-Keeps (returned a) f h = record { at = (h a).at }
  and_then-Keeps (raised e) f h = record { at = λ s k. k }

  pub Keeps-bind :
      (m : Exec S E A) (f : A → Exec S E B)
      → Keeps P m
      → ((a : A) → Keeps P (f a))
      → Keeps P (m >>= f)
  unfolding ◌>>=◌
  Keeps-bind m f km kf = record { at = λ s h. (and_then-Keeps (m s).0 f kf).at (m s).1 (km.at s h) }

module _ {S E A : Type 0} {P : S → Type 0} where
  pub Keeps-for_each :
      (body : A → Exec S E Unit) (xs : List A)
      → ((a : A) → Keeps P (body a))
      → Keeps P (for_each body xs)
  unfolding for_each
  Keeps-for_each body [] h = Keeps-pure tt
  Keeps-for_each body (x ∷ xs) h =
      Keeps-bind (body x) (λ _. for_each body xs) (h x) (λ _. Keeps-for_each body xs h)

pub ruleset keeps_rules =
    (Keeps-pure, Keeps-raise, Keeps-gets, Keeps-if, Keeps-modify, Keeps-bind, Keeps-for_each)

-- What holds of the result and the state when `m` returns.
abbrev pub Gives : {S E A : Type 0} → Outcome E A × S → (A → S → Type 0) → Type 0
Gives (returned a, s) Q = Q a s
Gives (raised e, s) Q = Unit

module _ {S E A B : Type 0} where
  pub Gives-bind :
      (m : Exec S E A) (f : A → Exec S E B) (s : S) (Q : B → S → Type 0)
      → ((a : A) → Gives (f a (m s).1) Q)
      → Gives ((m >>= f) s) Q
  unfolding ◌>>=◌
  Gives-bind m f s Q h = cases (m s).0 (m s).1 h
    where
      cases : (r : Outcome E A) (t : S) → ((a : A) → Gives (f a t) Q) → Gives (and_then r f t) Q
      cases (returned a) t h = h a
      cases (raised e) t h = tt

module _ {S E A : Type 0} where
  pub Gives-if :
      (b : Bool) (m n : Exec S E A) (s : S) (Q : A → S → Type 0)
      → (b ≡ true → Gives (m s) Q)
      → (b ≡ false → Gives (n s) Q)
      → Gives ((if b then m else n) s) Q
  Gives-if true m n s Q hm hn = hm refl
  Gives-if false m n s Q hm hn = hn refl
