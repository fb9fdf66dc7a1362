-- ===== src/Prelude/Lists.antt =====
-- Lists by native numbers, membership tests of texts, and maps as association lists.
use Prim.Native.Nat.{ℕ, zero, suc}
use Prim.Native.String.{String}
use text.Mathlib.Text.{◌==◌ as str_eq}
use text.Mathlib.TextEquality.{eq_iff}
use text.Mathlib.TextPositions.{eq_refl}
use mathlib.Core.Bool.{Bool, true, false, ◌||◌, ◌&&◌}
use native.Mathlib.Omega.{arith}
use mathlib.Core.Option.{Option, none, some}
use mathlib.Core.List.{List, [], ◌∷◌, ◌++◌, map}
use mathlib.Core.Path.{◌≡◌, refl, ap, sym, subst}
use mathlib.Core.Logic.{◌⊎◌, inl, inr}
use lifecycle_manager.Prelude.Tests.{if◌then◌else◌, ◌==◌, ==_iff, ==_refl, Bool-cases}

module _ {ℓ} {A : Type ℓ} where
  abbrev pub length : List A → ℕ
  length [] = 0
  length (x ∷ xs) = suc (length xs)

  abbrev pub get_elem? : List A → ℕ → Option A
  get_elem? [] i = none
  get_elem? (x ∷ xs) zero = some x
  get_elem? (x ∷ xs) (suc i) = get_elem? xs i

  -- The elements that pass a Boolean test.
  abbrev pub keep : (A → Bool) → List A → List A
  keep p [] = []
  keep p (x ∷ xs) = let rest = keep p xs in if p x then x ∷ rest else rest

  abbrev pub any : (A → Bool) → List A → Bool
  any p [] = false
  any p (x ∷ xs) = p x || any p xs

-- A predicate of every element.
abbrev pub All {ℓ κ} : {A : Type ℓ} → (A → Type κ) → List A → Type κ
All P [] = Unit
All P (x ∷ xs) = P x × All P xs

module _ {A : Type 0} where
  abbrev pub Member : A → List A → Type 0
  Member x [] = ⊥
  Member x (y ∷ ys) = (x ≡ y) ⊎ Member x ys

  pub All-every : (P : A → Type 0) → ((x : A) → P x) → (xs : List A) → All P xs
  All-every P h [] = tt
  All-every P h (x ∷ xs) = (h x, All-every P h xs)

  pub All-append : (P : A → Type 0) (xs ys : List A) → All P xs → All P ys → All P (xs ++ ys)
  All-append P [] ys h g = g
  All-append P (x ∷ xs) ys h g = (h.0, All-append P xs ys h.1 g)

  pub All-map :
      (P Q : A → Type 0) (f : A → A) (xs : List A)
      → ((x : A) → P x → Q (f x))
      → All P xs
      → All Q (map f xs)
  All-map P Q f [] h a = tt
  All-map P Q f (x ∷ xs) h a = (h x a.0, All-map P Q f xs h a.1)

  pub All-implies :
      (P : A → Type 0) (Q : A → Type 0) (xs : List A) → ((x : A) → P x → Q x) → All P xs → All Q xs
  All-implies P Q [] h a = tt
  All-implies P Q (x ∷ xs) h a = (h x a.0, All-implies P Q xs h a.1)

-- Go's slices.Contains on texts.
abbrev pub contains : List String → String → Bool
contains [] s = false
contains (x ∷ xs) s = str_eq x s || contains xs s

module _ {ℓ} {V : Type ℓ} where
  -- A Go map with text keys; a missing key is `none`.
  abbrev pub lookup : String → List (String × V) → Option V
  lookup key [] = none
  lookup key ((name, value) ∷ rest) = if str_eq name key then some value else lookup key rest

  abbrev pub insert : String → V → List (String × V) → List (String × V)
  insert key new [] = (key, new) ∷ []
  insert key new ((name, value) ∷ rest) =
      if str_eq name key then (key, new) ∷ rest else (name, value) ∷ insert key new rest

-- Each element of a list is a member of it.
pub All-Member : {A : Type 0} (xs : List A) → All (λ x. Member x xs) xs
All-Member [] = tt
All-Member (x ∷ xs) = (
  inl refl,
  All-implies (λ y. Member y xs) (λ y. Member y (x ∷ xs)) xs (λ y i. inr i) (All-Member xs),
)

pub append_assoc {ℓ} : {A : Type ℓ} (xs ys zs : List A) → (xs ++ ys) ++ zs ≡ xs ++ (ys ++ zs)
append_assoc [] ys zs = refl
append_assoc (x ∷ xs) ys zs = ap (λ r. x ∷ r) (append_assoc xs ys zs)

pub append_nil {ℓ} : {A : Type ℓ} (xs : List A) → xs ++ [] ≡ xs
append_nil [] = refl
append_nil (x ∷ xs) = ap (λ r. x ∷ r) (append_nil xs)

-- Texts and bytes as lists of numbers.
abbrev pub same_text : List ℕ → List ℕ → Bool
same_text [] [] = true
same_text [] (d ∷ t) = false
same_text (c ∷ s) [] = false
same_text (c ∷ s) (d ∷ t) = c == d && same_text s t

pub same_text_lem : (s t : List ℕ) → same_text s t ≡ true → s ≡ t
same_text_lem [] [] h = refl
same_text_lem [] (d ∷ t) h = cc
same_text_lem (c ∷ s) [] h = cc
same_text_lem (c ∷ s) (d ∷ t) h =
    let bytes : (c == d) ≡ true = ground arith in
    let rest : same_text s t ≡ true = ground arith in
    let head : c ≡ d = (==_iff c d).0 bytes in let tail : s ≡ t = same_text_lem s t rest in cc

pub same_text_refl : (s : List ℕ) → same_text s s ≡ true
same_text_refl [] = refl
same_text_refl (c ∷ s) = rw (==_refl c) (same_text_refl s)

module _ {V : Type 0} where
  pub lookup-insert :
      (key : String) (v : V) (m : List (String × V)) → lookup key (insert key v m) ≡ some v
  lookup-insert key v [] = rw (eq_refl key) refl
  lookup-insert key v ((name, old) ∷ rest) = elim (Bool-cases (str_eq name key)) [
    | inl same ↦ rw (same, eq_refl key) refl
    | inr other ↦ rw (other, other) (lookup-insert key v rest)
  ]

  -- The other keys keep their values.
  pub lookup-insert_other :
      (key other : String) (v : V) (m : List (String × V))
      → str_eq key other ≡ false
      → lookup other (insert key v m) ≡ lookup other m
  lookup-insert_other key other v [] h = rw h refl
  lookup-insert_other key other v ((name, old) ∷ rest) h = elim (Bool-cases (str_eq name key)) [
    | inl same ↦
        let names : name ≡ key = (eq_iff name key).0 same in
        let apart : str_eq name other ≡ false = subst (λ n. str_eq n other ≡ false) (sym names) h in
        rw (same, h, apart) refl
    | inr differs ↦ elim (Bool-cases (str_eq name other)) [
      | inl found ↦ rw (differs, found) refl
      | inr missing ↦ rw (differs, missing) (lookup-insert_other key other v rest h)
    ]
  ]

-- The elements that pass a test have a property that passing elements of the list have.
pub All-keep :
    {A : Type 0} (P : A → Type 0) (p : A → Bool) (xs : List A)
    → ((x : A) → Member x xs → p x ≡ true → P x)
    → All P (keep p xs)
All-keep P p [] h = tt
All-keep P p (x ∷ xs) h =
    let rest = All-keep P p xs (λ y i. h y (inr i)) in
    elim (Bool-cases (p x)) [
      | inl passes ↦ rw (keep, passes) (h x (inl refl) passes, rest)
      | inr fails ↦ rw (keep, fails) rest
    ]

pub contains-append :
    (xs ys : List String) (s : String)
    → contains (xs ++ ys) s ≡ true
    → (contains xs s ≡ true) ⊎ (contains ys s ≡ true)
contains-append [] ys s h = inr h
contains-append (x ∷ xs) ys s h = elim (Bool-cases (str_eq x s)) [
  | inl here ↦ inl (rw (contains, here) refl)
  | inr there ↦
      let rest : contains (xs ++ ys) s ≡ true = rw (contains, there) at h in
      rw (contains, there) (contains-append xs ys s rest)
]

pub contains-map :
    {A : Type 0} (f : A → String) (xs : List A) (s : String)
    → contains (map f xs) s ≡ true
    → (x : A) × Member x xs × (f x ≡ s)
contains-map f [] s h = cc
contains-map f (x ∷ xs) s h = elim (Bool-cases (str_eq (f x) s)) [
  | inl here ↦ (x, inl refl, (eq_iff (f x) s).0 here)
  | inr there ↦
      let rest : contains (map f xs) s ≡ true = rw (contains, there) at h in
      let found = contains-map f xs s rest in (found.0, inr found.1, found.2)
]

pub All-of : {A : Type 0} (P : A → Type 0) (xs : List A) → All P xs → (x : A) → Member x xs → P x
All-of P (y ∷ ys) h x (inl here) = subst P (sym here) h.0
All-of P (y ∷ ys) h x (inr there) = All-of P ys h.1 x there
All-of P [] h x i = absurd i
