-- ===== src/Kymas/Triples.antt =====
-- What a step of the Kyma controller makes of a state, with or without an error.
use lifecycle_manager.Prelude.{String, Bool, true, false, ◌∷◌, Option, none, some}
use lifecycle_manager.Api.{Kyma}
use lifecycle_manager.Errors.{Error, wrap, Result, ok, err}
use lifecycle_manager.Kymas.Env.{
  KymaEnv, KymaCall, KymaSt, K, call, note, modify, current, ask, ◌>>=◌, pure, throw, catch,
  wrap_error, when,
}

-- A condition on the state.
abbrev pub On : Type 1
On = KymaSt → Type 0

module _ {A : Type 0} where
  -- The value and the state satisfy Q, or the state that an error leaves satisfies E.
  abbrev pub Outcome : (A → On) → On → KymaSt × Result A → Type 0
  Outcome Q E (s, ok a) = Q a s
  Outcome Q E (s, err e) = E s

  -- From a state with P, the step ends with Q or fails with E.
  abbrev pub Triple : On → K A → (A → On) → On → Type 0
  Triple P m Q E = (s : KymaSt) → P s → Outcome Q E (m s)

  pub Triple-pure : (P E : On) (a : A) → Triple P (pure a) (λ b. P) E
  Triple-pure P E a s p = p

  pub Triple-throw : (P : On) (Q : A → On) (e : Error) → Triple P (throw e) Q P
  Triple-throw P Q e s p = p

module _ {A B : Type 0} where
  bind_outcome :
      (R : A → On) (Q : B → On) (E : On) (f : A → K B) (p : KymaSt × Result A)
      → Outcome R E p
      → ((a : A) → Triple (R a) (f a) Q E)
      → Outcome Q E (elim p.1 [ ok a ↦ f a p.0 | err e ↦ (p.0, err e) ])
  bind_outcome R Q E f (s, ok a) h g = g a s h
  bind_outcome R Q E f (s, err e) h g = h

  pub Triple-bind :
      (P : On) (R : A → On) (Q : B → On) (E : On) (m : K A) (f : A → K B)
      → Triple P m R E
      → ((a : A) → Triple (R a) (f a) Q E)
      → Triple P (m >>= f) Q E
  Triple-bind P R Q E m f h g s p = bind_outcome R Q E f (m s) (h s p) g

module _ {A : Type 0} where
  catch_outcome :
      (Q : A → On) (F E : On) (f : Error → K A) (p : KymaSt × Result A)
      → Outcome Q F p
      → ((e : Error) → Triple F (f e) Q E)
      → Outcome Q E (elim p.1 [ ok a ↦ (p.0, ok a) | err e ↦ f e p.0 ])
  catch_outcome Q F E f (s, ok a) h g = h
  catch_outcome Q F E f (s, err e) h g = g e s h

  pub Triple-catch :
      (P : On) (Q : A → On) (F E : On) (m : K A) (f : Error → K A)
      → Triple P m Q F
      → ((e : Error) → Triple F (f e) Q E)
      → Triple P (catch m f) Q E
  Triple-catch P Q F E m f h g s p = catch_outcome Q F E f (m s) (h s p) g

  pub Triple-wrap :
      (P : On) (Q : A → On) (E : On) (text : String) (m : K A)
      → Triple P m Q E
      → Triple P (wrap_error text m) Q E
  Triple-wrap P Q E text m h = Triple-catch P Q E E m (λ e. throw (wrap text e)) h (λ e s p. p)

  weaker :
      (Q R : A → On) (E F : On) (p : KymaSt × Result A)
      → ((a : A) (s : KymaSt) → Q a s → R a s)
      → ((s : KymaSt) → E s → F s)
      → Outcome Q E p
      → Outcome R F p
  weaker Q R E F (s, ok a) g k h = g a s h
  weaker Q R E F (s, err e) g k h = k s h

  pub Triple-weaken :
      (P : On) (Q R : A → On) (E F : On) (m : K A)
      → ((a : A) (s : KymaSt) → Q a s → R a s)
      → ((s : KymaSt) → E s → F s)
      → Triple P m Q E
      → Triple P m R F
  Triple-weaken P Q R E F m g k h s p = weaker Q R E F (m s) g k (h s p)

pub Triple-when :
    (P E : On) (b : Bool) (m : K (Unit {0}))
    → Triple P m (λ u. P) E
    → Triple P (when b m) (λ u. P) E
Triple-when P E true m h = h
Triple-when P E false m h = λ s p. p

-- The state behind a call.
abbrev pub pushed : KymaCall → KymaSt → KymaSt
pushed c s = record s { calls = c ∷ s.calls }

pub Triple-modify :
    (P Q E : On) (f : Kyma → Kyma)
    → ((s : KymaSt) → P s → Q (record s { kyma = f s.kyma }))
    → Triple P (modify f) (λ u. Q) E
Triple-modify P Q E f h s p = h s p

pub Triple-current :
    {A : Type 0} (P E : On) (Q : A → On) (f : Kyma → K A)
    → ((s : KymaSt) → P s → Outcome Q E (f s.kyma s))
    → Triple P (current >>= f) Q E
Triple-current P E Q f h s p = h s p

pub Triple-ask :
    {A : Type 0} (P E : On) (Q : A → On) (f : KymaSt → Result A)
    → ((s : KymaSt) → P s → Outcome Q E (s, f s))
    → Triple P (ask f) Q E
Triple-ask P E Q f h s p = h s p

module _ (env : KymaEnv) where
  answered_outcome :
      (Q E : On) (t : KymaSt) (o : Option Error)
      → Q t
      → E t
      → Outcome {A = Unit {0}} (λ u. Q) E (t, elim o [ none ↦ ok tt | some e ↦ err e ])
  answered_outcome Q E t none q e = q
  answered_outcome Q E t (some x) q e = e

  pub Triple-call :
      (P Q E : On) (c : KymaCall)
      → ((s : KymaSt) → P s → Q (pushed c s))
      → ((s : KymaSt) → P s → E (pushed c s))
      → Triple P (call env c) (λ u. Q) E
  Triple-call P Q E c h k s p =
      answered_outcome Q E (pushed c s) (env.answer c s.calls) (h s p) (k s p)

  pub Triple-note :
      (P Q E : On) (c : KymaCall)
      → ((s : KymaSt) → P s → Q (pushed c s))
      → Triple P (note env c) (λ u. Q) E
  Triple-note P Q E c h s p = h s p
