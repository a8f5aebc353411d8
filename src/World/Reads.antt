-- ===== src/World/Reads.antt =====
-- Actions of World that only read.
use appstore_gerege_nexus.Prelude.{
  Bool, true, false, List, [], ◌∷◌, ◌≡◌, refl, ◌∙◌, sym, ap, ◌⊎◌, inl, inr,
}
use appstore_gerege_nexus.Tables.{Database}
use appstore_gerege_nexus.World.{
  Error, Result, ok, err, World, Exec, settle, under_faults, statement, query, lift, continue,
  ◌>>=◌,
}

module _ {A : Type 0} where
  abbrev pub IsReadOnly : Exec A → Type 0
  IsReadOnly m = (w : World) → (m w).1.db ≡ w.db

  pub query-IsReadOnly : (f : Database → A) → IsReadOnly (query f)
  unfolding query statement under_faults settle
  query-IsReadOnly f w = by_faults w.faults
    where
      by_faults : (faults : List Bool) → (under_faults faults (λ db. ok (f db, db)) w).1.db ≡ w.db
      by_faults [] = refl
      by_faults (true ∷ rest) = refl
      by_faults (false ∷ rest) = refl

  pub lift-IsReadOnly : (r : Result A) → IsReadOnly (lift r)
  unfolding lift
  lift-IsReadOnly r w = refl

module _ {A B : Type 0} where
  continue-IsReadOnly :
      (r : Result A) (f : A → Exec B) → ((a : A) → IsReadOnly (f a)) → IsReadOnly (continue r f)
  continue-IsReadOnly (ok a) f reads w = reads a w
  continue-IsReadOnly (err e) f reads w = refl

  -- What follows an action and only reads leaves the tables as the action left them, if it runs.
  pub bind_db :
      (m : Exec A) (f : A → Exec B) (w : World)
      → ((a : A) → IsReadOnly (f a))
      → ((m >>= f) w).1.db ≡ (m w).1.db
  unfolding ◌>>=◌
  bind_db m f w reads = continue-IsReadOnly (m w).0 f reads (m w).1

  pub bind-IsReadOnly :
      (m : Exec A) (f : A → Exec B)
      → IsReadOnly m
      → ((a : A) → IsReadOnly (f a))
      → IsReadOnly (m >>= f)
  bind-IsReadOnly m f reads reads' w = bind_db m f w reads' ∙ reads w

module _ {A B : Type 0} where
  continue_err :
      (r : Result A) (f : A → Exec B) (w : World) {e : Error} {w' : World}
      → continue r f w ≡ (err e, w')
      → ((x : Error) × (r ≡ err x) × (w' ≡ w)) ⊎ ((a : A) × (r ≡ ok a) × (f a w ≡ (err e, w')))
  continue_err (ok a) f w h = inr (a, refl, h)
  continue_err (err x) f w h = inl (x, refl, ap (λ (p : Result B × World). p.1) (sym h))

  -- A block that failed: its first action did, or the rest from where that left the world.
  pub bind_err :
      (m : Exec A) (f : A → Exec B) (w : World) {e : Error} {w' : World}
      → (m >>= f) w ≡ (err e, w')
      → ((x : Error) × (m w ≡ (err x, w')))
        ⊎ ((a : A) × (v : World) × (m w ≡ (ok a, v)) × (f a v ≡ (err e, w')))
  unfolding ◌>>=◌
  bind_err m f w h = elim (continue_err (m w).0 f (m w).1 h) [
    | inl (x, r, s) ↦ inl (x, λ i. (r i, sym s i))
    | inr (a, r, k) ↦ inr (a, (m w).1, λ i. (r i, (m w).1), k)
  ]

  -- A block whose first action succeeded is the rest of it.
  pub bind_run :
      (m : Exec A) (f : A → Exec B) (w : World) {a : A} {v : World}
      → m w ≡ (ok a, v)
      → (m >>= f) w ≡ f a v
  unfolding ◌>>=◌
  bind_run m f w h = ap (λ (p : Result A × World). continue p.0 f p.1) h
