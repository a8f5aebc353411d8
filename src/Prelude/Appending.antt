-- ===== src/Prelude/Appending.antt =====
-- Tables that grow at their end: what was found in one is found in the longer one.
use mathlib.Core.Path.{◌≡◌, refl, sym, ap, ◌∙◌}
use mathlib.Core.Logic.{inl, inr}
use mathlib.Core.Bool.{Bool, true, false}
use mathlib.Core.Option.{none, some}
use mathlib.Core.List.{List, [], ◌∷◌, ◌++◌}
use appstore_gerege_nexus.Prelude.Tests.{Bool-cases}
use appstore_gerege_nexus.Prelude.Lists.{first, any}

-- The second list is the first with more at its end.
abbrev pub Prefix : {A : Type 0} → List A → List A → Type 0
Prefix {A} xs ys = (zs : List A) × (ys ≡ xs ++ zs)

module _ {A : Type 0} where
  pub append_nil : (xs : List A) → xs ++ [] ≡ xs
  append_nil [] = refl
  append_nil (x ∷ xs) = ap (λ (ys : List A). x ∷ ys) (append_nil xs)

  pub append_assoc : (xs ys zs : List A) → (xs ++ ys) ++ zs ≡ xs ++ (ys ++ zs)
  append_assoc [] ys zs = refl
  append_assoc (x ∷ xs) ys zs = ap (λ (l : List A). x ∷ l) (append_assoc xs ys zs)

  pub Prefix-refl : (xs : List A) → Prefix xs xs
  Prefix-refl xs = ([], sym (append_nil xs))

  pub Prefix-trans : (xs ys zs : List A) → Prefix xs ys → Prefix ys zs → Prefix xs zs
  Prefix-trans xs ys zs (a, e) (b, f) =
      (a ++ b, f ∙ ap (λ (l : List A). l ++ b) e ∙ append_assoc xs a b)

  first_append :
      (p : A → Bool) (xs ys : List A) (a : A) → first p xs ≡ some a → first p (xs ++ ys) ≡ some a
  first_append p [] ys a h = cc
  first_append p (x ∷ xs) ys a h = elim (Bool-cases (p x)) [
    | inl t ↦ let h' = rw t at h in rw t h'
    | inr f ↦ let h' = rw f at h in rw f (first_append p xs ys a h')
  ]

  pub any_append : (p : A → Bool) (xs ys : List A) → any p xs ≡ true → any p (xs ++ ys) ≡ true
  any_append p [] ys h = cc
  any_append p (x ∷ xs) ys h = elim (Bool-cases (p x)) [
    | inl t ↦ rw t refl
    | inr f ↦ let h' = rw f at h in rw f (any_append p xs ys h')
  ]

  pub first_stays :
      (p : A → Bool) (xs ys : List A) (a : A)
      → Prefix xs ys
      → first p xs ≡ some a
      → first p ys ≡ some a
  first_stays p xs ys a (zs, e) h = ap (first p) e ∙ first_append p xs zs a h

  pub any_stays : (p : A → Bool) (xs ys : List A) → Prefix xs ys → any p xs ≡ true → any p ys ≡ true
  any_stays p xs ys (zs, e) h = ap (any p) e ∙ any_append p xs zs h

  pub first_last :
      (p : A → Bool) (xs : List A) (a : A)
      → first p xs ≡ none
      → p a ≡ true
      → first p (xs ++ a ∷ []) ≡ some a
  first_last p [] a h t = rw t refl
  first_last p (x ∷ xs) a h t = elim (Bool-cases (p x)) [
    | inl y ↦ let h' = rw y at h in absurd (cc h')
    | inr f ↦ let h' = rw f at h in rw f (first_last p xs a h' t)
  ]

  pub any_last : (p : A → Bool) (xs : List A) (a : A) → p a ≡ true → any p (xs ++ a ∷ []) ≡ true
  any_last p [] a t = rw t refl
  any_last p (x ∷ xs) a t = elim (Bool-cases (p x)) [
    | inl y ↦ rw y refl
    | inr f ↦ rw f (any_last p xs a t)
  ]

  -- No row passes.
  pub first-any : (p : A → Bool) (xs : List A) → any p xs ≡ false → first p xs ≡ none
  first-any p [] h = refl
  first-any p (x ∷ xs) h = elim (Bool-cases (p x)) [
    | inl t ↦ let h' = rw t at h in absurd (cc h')
    | inr f ↦ let h' = rw f at h in rw f (first-any p xs h')
  ]
