-- ===== src/Manifests/Quiet.antt =====
-- A step of the manifest controller that adds nothing to some part of the calls.
use lifecycle_manager.Prelude.{◌≡◌, refl, ap, ◌∙◌}
use lifecycle_manager.Manifests.Env.{Calls, St, Step, next, stop, Return, M, ◌>>=◌}

-- A stop ends the steps behind it.
pub bind_stop :
    {A B : Type 0} (m : M A) (f : A → M B) (s t : St) (r : Return)
    → m s ≡ (t, stop r)
    → (m >>= f) s ≡ (t, stop r)
bind_stop m f s t r e = ap (λ p. elim p.1 [ next a ↦ f a p.0 | stop q ↦ (p.0, stop q) ]) e

pub bind_next :
    {A B : Type 0} (m : M A) (f : A → M B) (s : St) (a : A)
    → (m s).1 ≡ next a
    → (m >>= f) s ≡ f a (m s).0
bind_next m f s a e = ap (λ x. elim x [ next a ↦ f a (m s).0 | stop q ↦ ((m s).0, stop q) ]) e

module _ {X : Type 0} (watch : Calls → X) where
  -- The watched part of the calls stays as it is, and P holds if the step goes on.
  abbrev pub Quiet : {A : Type 0} → (A → St → Type 0) → M A → St → Type 0
  Quiet {A = A} P m s =
      (watch (m s).0.calls ≡ watch s.calls) × ((a : A) → (m s).1 ≡ next a → P a (m s).0)

  module _ {A B : Type 0} (P : A → St → Type 0) (Q : B → St → Type 0) (m : M A) (f : A → M B) where
    abbrev continue : St × Step A → St × Step B
    continue p = elim p.1 [ next a ↦ f a p.0 | stop r ↦ (p.0, stop r) ]

    after :
        (s : St) (p : St × Step A)
        → Quiet P (λ _. p) s
        → ((a : A) (t : St) → P a t → Quiet Q (f a) t)
        → Quiet Q (λ _. continue p) s
    after s (t, next a) h g = let q = g a t (h.1 a refl) in (q.0 ∙ h.0, q.1)
    after s (t, stop r) h g = (h.0, λ a e. absurd (stop_lem a e))
      where
        stop_lem : (b : B) → ◌≡◌ {A = Step B} (stop r) (next b) → ⊥
        stop_lem b e = cc

    pub quiet_bind :
        (s : St) → Quiet P m s → ((a : A) (t : St) → P a t → Quiet Q (f a) t) → Quiet Q (m >>= f) s
    quiet_bind s h g = after s (m s) h g
