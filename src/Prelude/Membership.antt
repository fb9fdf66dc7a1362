-- ===== src/Prelude/Membership.antt =====
-- The elements of lists that are kept, mapped or searched by a key.
use Prim.Native.String.{String}
use text.Mathlib.Text.{◌==◌ as str_eq}
use text.Mathlib.TextEquality.{eq_iff}
use mathlib.Core.Bool.{Bool, true, false, not}
use native.Mathlib.Omega.{arith}
use mathlib.Core.List.{List, [], ◌∷◌, map}
use mathlib.Core.Path.{◌≡◌, refl, ap, sym, ◌∙◌}
use mathlib.Core.Logic.{◌≢◌, inl, inr}
use lifecycle_manager.Prelude.Tests.{Bool-cases}
use lifecycle_manager.Prelude.Lists.{Member, keep, any}

module _ {A : Type 0} where
  kept :
      (p : A → Bool) (y : A) (ys : List A) (x : A)
      → (Member x (keep p ys) → Member x ys × (p x ≡ true))
      → p y ≡ true
      → Member x (y ∷ keep p ys)
      → Member x (y ∷ ys) × (p x ≡ true)
  kept p y ys x rest passes (inl here) = (inl here, ap p here ∙ passes)
  kept p y ys x rest passes (inr there) = let r = rest there in (inr r.0, r.1)

  pub keep-Member :
      (p : A → Bool) (xs : List A) (x : A) → Member x (keep p xs) → Member x xs × (p x ≡ true)
  keep-Member p [] x i = absurd i
  keep-Member p (y ∷ ys) x i = elim (Bool-cases (p y)) [
    | inl passes ↦ kept p y ys x (keep-Member p ys x) passes (rw (keep, passes) at i)
    | inr fails ↦ let rest = keep-Member p ys x (rw (keep, fails) at i) in (inr rest.0, rest.1)
  ]

  pub Member-keep :
      (p : A → Bool) (xs : List A) (x : A) → Member x xs → p x ≡ true → Member x (keep p xs)
  Member-keep p [] x i h = absurd i
  Member-keep p (y ∷ ys) x (inl here) h =
      let passes : p y ≡ true = ap p (sym here) ∙ h in rw (keep, passes) (inl here)
  Member-keep p (y ∷ ys) x (inr there) h = elim (Bool-cases (p y)) [
    | inl passes ↦ rw (keep, passes) (inr (Member-keep p ys x there h))
    | inr fails ↦ rw (keep, fails) (Member-keep p ys x there h)
  ]

  pub map-Member :
      {B : Type 0} (f : A → B) (xs : List A) (y : B)
      → Member y (map f xs)
      → (x : A) × Member x xs × (y ≡ f x)
  map-Member f [] y i = absurd i
  map-Member f (x ∷ xs) y (inl here) = (x, inl refl, here)
  map-Member f (x ∷ xs) y (inr there) =
      let rest = map-Member f xs y there in (rest.0, inr rest.1, rest.2)

  pub Member-map :
      {B : Type 0} (f : A → B) (xs : List A) (x : A) → Member x xs → Member (f x) (map f xs)
  Member-map f [] x i = absurd i
  Member-map f (y ∷ ys) x (inl here) = inl (ap f here)
  Member-map f (y ∷ ys) x (inr there) = inr (Member-map f ys x there)

  -- No element of the list has this key.
  pub any_lem :
      (key : A → String) (s : String) (xs : List A)
      → not (any (λ x. str_eq (key x) s) xs) ≡ true
      → (x : A) → Member x xs
      → key x ≢ s
  any_lem key s [] h x i = absurd i
  any_lem key s (y ∷ ys) h x (inl here) = λ same.
      let found : str_eq (key y) s ≡ true = (eq_iff (key y) s).1 (ap key (sym here) ∙ same) in
      let bad : false ≡ true = rw (any, found) at h in cc
  any_lem key s (y ∷ ys) h x (inr there) = any_lem key s ys (ground (arith, h)) x there

  pub none_lem :
      (key : A → String) (s : String) (xs : List A)
      → ((x : A) → Member x xs → key x ≢ s)
      → not (any (λ x. str_eq (key x) s) xs) ≡ true
  none_lem key s [] h = refl
  none_lem key s (y ∷ ys) h = elim (Bool-cases (str_eq (key y) s)) [
    | inl found ↦ absurd (h y (inl refl) ((eq_iff (key y) s).0 found))
    | inr other ↦ rw (any, other) (none_lem key s ys (λ x i. h x (inr i)))
  ]
