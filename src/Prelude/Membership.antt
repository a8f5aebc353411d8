-- ===== src/Prelude/Membership.antt =====
-- Membership in the results of the list operations.
use mathlib.Core.Path.{◌≡◌, refl, sym, ap, subst}
use mathlib.Core.Logic.{◌⊎◌, inl, inr}
use mathlib.Core.Bool.{Bool, true, false}
use mathlib.Core.Option.{none, some}
use mathlib.Core.List.{List, [], ◌∷◌, ◌++◌, map, flat_map}
use native.Mathlib.Omega.{arith}
use appstore_gerege_nexus.Prelude.Tests.{if◌then◌else◌, Bool-cases}
use appstore_gerege_nexus.Prelude.Lists.{keep, first, any, amend, In, All}

module _ {A : Type 0} where
  pub In-append_left : (x : A) (xs ys : List A) → In x xs → In x (xs ++ ys)
  In-append_left x (y ∷ xs) ys (inl e) = inl e
  In-append_left x (y ∷ xs) ys (inr h) = inr (In-append_left x xs ys h)
  In-append_left x [] ys h = absurd h

  pub In-append_right : (x : A) (xs ys : List A) → In x ys → In x (xs ++ ys)
  In-append_right x [] ys h = h
  In-append_right x (y ∷ xs) ys h = inr (In-append_right x xs ys h)

  pub In-append : (x : A) (xs ys : List A) → In x (xs ++ ys) → In x xs ⊎ In x ys
  In-append x [] ys h = inr h
  In-append x (y ∷ xs) ys (inl e) = inl (inl e)
  In-append x (y ∷ xs) ys (inr h) = elim (In-append x xs ys h) [
    | inl a ↦ inl (inr a)
    | inr b ↦ inr b
  ]

  pub In-keep : (p : A → Bool) (x : A) (xs : List A) → In x (keep p xs) → In x xs × (p x ≡ true)
  In-keep p x [] h = absurd h
  In-keep p x (y ∷ xs) h = elim (Bool-cases (p y)) [
    | inl t ↦ elim (rw t at h) [
      | inl e ↦ (inl e, rw e t)
      | inr r ↦ let (a, b) = In-keep p x xs r in (inr a, b)
    ]
    | inr f ↦ let (a, b) = In-keep p x xs (rw f at h) in (inr a, b)
  ]

  pub keep-In : (p : A → Bool) (x : A) (xs : List A) → In x xs → p x ≡ true → In x (keep p xs)
  keep-In p x [] h t = absurd h
  keep-In p x (y ∷ xs) (inl e) t = let t' : p y ≡ true = rw (← ap p e) t in rw t' (inl e)
  keep-In p x (y ∷ xs) (inr h) t = elim (Bool-cases (p y)) [
    | inl a ↦ rw a (inr (keep-In p x xs h t))
    | inr b ↦ rw b (keep-In p x xs h t)
  ]

  pub first_sound :
      (p : A → Bool) (x : A) (xs : List A) → first p xs ≡ some x → In x xs × (p x ≡ true)
  first_sound p x [] h = cc
  first_sound p x (y ∷ xs) h = elim (Bool-cases (p y)) [
    | inl t ↦ let e : y ≡ x = ground arith in (inl (ground arith), rw (← e) t)
    | inr f ↦ let (a, b) = first_sound p x xs (rw f at h) in (inr a, b)
  ]

  pub first-none : (p : A → Bool) (x : A) (xs : List A) → first p xs ≡ none → In x xs → p x ≡ false
  first-none p x [] h i = absurd i
  first-none p x (y ∷ xs) h (inl e) = ground arith
  first-none p x (y ∷ xs) h (inr i) = first-none p x xs (ground arith) i

  pub any_sound : (p : A → Bool) (xs : List A) → any p xs ≡ true → (x : A) × In x xs × (p x ≡ true)
  any_sound p [] h = cc
  any_sound p (y ∷ xs) h = elim (Bool-cases (p y)) [
    | inl t ↦ (y, inl refl, t)
    | inr f ↦ let (x, a, b) = any_sound p xs (rw f at h) in (x, inr a, b)
  ]

  pub any_complete : (p : A → Bool) (x : A) (xs : List A) → In x xs → p x ≡ true → any p xs ≡ true
  any_complete p x [] i h = absurd i
  any_complete p x (y ∷ xs) (inl e) h = ground arith
  any_complete p x (y ∷ xs) (inr i) h = ground (arith, any_complete p x xs i h)

  -- Each row of an amended table is a row of the table, changed if it passed the test.
  pub In-amend :
      (p : A → Bool) (f : A → A) (x : A) (xs : List A)
      → In x (amend p f xs)
      → (y : A) × In y xs × (x ≡ (if p y then f y else y))
  In-amend p f x [] h = absurd h
  In-amend p f x (y ∷ xs) (inl e) = (y, inl refl, e)
  In-amend p f x (y ∷ xs) (inr h) = let (z, i, e) = In-amend p f x xs h in (z, inr i, e)

  pub amend-In :
      (p : A → Bool) (f : A → A) (x : A) (xs : List A)
      → In x xs
      → In (if p x then f x else x) (amend p f xs)
  amend-In p f x [] h = absurd h
  amend-In p f x (y ∷ xs) (inl e) = inl (ap (λ (z : A). if p z then f z else z) e)
  amend-In p f x (y ∷ xs) (inr h) = inr (amend-In p f x xs h)

module _ {A B : Type 0} where
  pub In-map : (f : A → B) (b : B) (xs : List A) → In b (map f xs) → (a : A) × In a xs × (b ≡ f a)
  In-map f b [] h = absurd h
  In-map f b (x ∷ xs) (inl e) = (x, inl refl, e)
  In-map f b (x ∷ xs) (inr h) = let (a, i, e) = In-map f b xs h in (a, inr i, e)

  pub map-In : (f : A → B) (a : A) (xs : List A) → In a xs → In (f a) (map f xs)
  map-In f a [] h = absurd h
  map-In f a (x ∷ xs) (inl e) = inl (ap f e)
  map-In f a (x ∷ xs) (inr h) = inr (map-In f a xs h)

  pub In-flat_map :
      (f : A → List B) (b : B) (xs : List A) → In b (flat_map f xs) → (a : A) × In a xs × In b (f a)
  unfolding flat_map
  In-flat_map f b [] h = absurd h
  In-flat_map f b (x ∷ xs) h = elim (In-append b (f x) (flat_map f xs) h) [
    | inl i ↦ (x, inl refl, i)
    | inr r ↦ let (a, i, j) = In-flat_map f b xs r in (a, inr i, j)
  ]

  pub flat_map-In :
      (f : A → List B) (a : A) (b : B) (xs : List A) → In a xs → In b (f a) → In b (flat_map f xs)
  unfolding flat_map
  flat_map-In f a b [] h i = absurd h
  flat_map-In f a b (x ∷ xs) (inl e) i =
      In-append_left b (f x) (flat_map f xs) (subst (λ y. In b (f y)) e i)
  flat_map-In f a b (x ∷ xs) (inr h) i =
      In-append_right b (f x) (flat_map f xs) (flat_map-In f a b xs h i)

pub All-In {κ} : {A : Type 0} (P : A → Type κ) (x : A) (xs : List A) → All P xs → In x xs → P x
All-In P x [] a i = absurd i
All-In P x (y ∷ xs) (p, a) (inl e) = subst P (sym e) p
All-In P x (y ∷ xs) (p, a) (inr i) = All-In P x xs a i
