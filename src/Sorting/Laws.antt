-- ===== src/Sorting/Laws.antt =====
-- Insertion sort keeps the rows, and orders them by an order that is total and transitive.
use appstore_gerege_nexus.Prelude.{
  Bool, true, false, List, [], ◌∷◌, ◌≡◌, ◌⊎◌, inl, inr, Bool-cases, In, All,
}
use appstore_gerege_nexus.Sorting.{insert_by, order_by, IsOrdered}

module _ {A : Type 0} (le : A → A → Bool) where
  In-insert_by : (x y : A) (ys : List A) → In x (insert_by le y ys) → (x ≡ y) ⊎ In x ys
  unfolding insert_by
  In-insert_by x y [] h = h
  In-insert_by x y (z ∷ ys) h = elim (Bool-cases (le y z)) [
    | inl t ↦ rw t at h
    | inr f ↦ elim (rw f at h) [
      | inl e ↦ inr (inl e)
      | inr i ↦ elim (In-insert_by x y ys i) [ inl e ↦ inl e | inr j ↦ inr (inr j) ]
    ]
  ]

  insert_by-In : (x y : A) (ys : List A) → (x ≡ y) ⊎ In x ys → In x (insert_by le y ys)
  unfolding insert_by
  insert_by-In x y [] h = h
  insert_by-In x y (z ∷ ys) (inl e) = elim (Bool-cases (le y z)) [
    | inl t ↦ rw t (inl e)
    | inr f ↦ rw f (inr (insert_by-In x y ys (inl e)))
  ]
  insert_by-In x y (z ∷ ys) (inr (inl e)) = elim (Bool-cases (le y z)) [
    | inl t ↦ rw t (inr (inl e))
    | inr f ↦ rw f (inl e)
  ]
  insert_by-In x y (z ∷ ys) (inr (inr i)) = elim (Bool-cases (le y z)) [
    | inl t ↦ rw t (inr (inr i))
    | inr f ↦ rw f (inr (insert_by-In x y ys (inr i)))
  ]

  pub In-order_by : (x : A) (xs : List A) → In x (order_by le xs) → In x xs
  unfolding order_by
  In-order_by x [] h = h
  In-order_by x (y ∷ ys) h = elim (In-insert_by x y (order_by le ys) h) [
    | inl e ↦ inl e
    | inr i ↦ inr (In-order_by x ys i)
  ]

  pub order_by-In : (x : A) (xs : List A) → In x xs → In x (order_by le xs)
  unfolding order_by
  order_by-In x [] h = h
  order_by-In x (y ∷ ys) (inl e) = insert_by-In x y (order_by le ys) (inl e)
  order_by-In x (y ∷ ys) (inr i) = insert_by-In x y (order_by le ys) (inr (order_by-In x ys i))

module _ {A : Type 0} (le : A → A → Bool) (total : (x y : A) → le x y ≡ false → le y x ≡ true)
    (trans : (x y z : A) → le x y ≡ true → le y z ≡ true → le x z ≡ true) where
  All-le_trans :
      (x y : A) (zs : List A)
      → le x y ≡ true
      → All (λ z. le y z ≡ true) zs
      → All (λ z. le x z ≡ true) zs
  All-le_trans x y [] h a = tt
  All-le_trans x y (z ∷ zs) h (p, a) = (trans x y z h p, All-le_trans x y zs h a)

  All-insert_by :
      (w x : A) (ys : List A)
      → le w x ≡ true
      → All (λ y. le w y ≡ true) ys
      → All (λ y. le w y ≡ true) (insert_by le x ys)
  unfolding insert_by
  All-insert_by w x [] h a = (h, tt)
  All-insert_by w x (y ∷ ys) h (p, a) = elim (Bool-cases (le x y)) [
    | inl t ↦ rw t (h, (p, a))
    | inr f ↦ rw f (p, All-insert_by w x ys h a)
  ]

  insert_by-IsOrdered : (x : A) (ys : List A) → IsOrdered le ys → IsOrdered le (insert_by le x ys)
  unfolding insert_by
  insert_by-IsOrdered x [] o = (tt, tt)
  insert_by-IsOrdered x (y ∷ ys) (a, o) = elim (Bool-cases (le x y)) [
    | inl t ↦ rw t ((t, All-le_trans x y ys t a), (a, o))
    | inr f ↦ rw f (All-insert_by y x ys (total x y f) a, insert_by-IsOrdered x ys o)
  ]

  pub order_by-IsOrdered : (xs : List A) → IsOrdered le (order_by le xs)
  unfolding order_by
  order_by-IsOrdered [] = tt
  order_by-IsOrdered (x ∷ xs) = insert_by-IsOrdered x (order_by le xs) (order_by-IsOrdered xs)
