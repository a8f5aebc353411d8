-- ===== src/Import/Steps.antt =====
-- What every step of the import does to the tables, for a relation that is reflexive and transitive.
use appstore_gerege_nexus.Prelude.{
  ℕ, ◌+◌, String, true, false, List, [], ◌∷◌, Option, none, some, ◌≡◌, refl, sym, arith, inl, inr,
  subst, In,
}
use appstore_gerege_nexus.World.{Error, Result, ok, err}
use appstore_gerege_nexus.Import.Session.{
  Target, Session, Run, statement, pure, raise, tried, continue, ◌>>=◌, next_id,
}
use appstore_gerege_nexus.Import.Session.Laws.{statement_ok, statement_err, outcome}
use appstore_gerege_nexus.Import.Accounts.{Core, found_row, look_up, found_or_made}
use appstore_gerege_nexus.Import.Transfer.{Cursor, read_all, copy_each, copy_rows}

module _ (R : Target → Target → Type 0) (same : (t : Target) → R t t)
    (trans : (a b c : Target) → R a b → R b c → R a c) where
  -- Whatever the run answers, the tables after it are related to those before it.
  abbrev pub Steps : {A : Type 0} → Run A → Type 0
  Steps m = (s : Session) → R s.tables (m s).1.tables

  module _ {A : Type 0} where
    pub statement-Steps :
        (f : Target → Result (A × Target))
        → ((t : Target) (a : A) (t' : Target) → f t ≡ ok (a, t') → R t t')
        → Steps (statement f)
    statement-Steps f step s = elim (outcome (statement f) s) [
      | inl (a, s', h) ↦
          subst (λ (p : Result A × Session). R s.tables p.1.tables) (sym h)
            (step s.tables a s'.tables (statement_ok f s h))
      | inr (e, s', h) ↦
          subst (λ (p : Result A × Session). R s.tables p.1.tables) (sym h)
            (subst (R s.tables) (sym (statement_err f s h).0) (same s.tables))
    ]

    pub pure-Steps : (a : A) → Steps (pure a)
    unfolding pure
    pure-Steps a s = same s.tables

    pub tried-Steps : (m : Run A) → Steps m → Steps (tried m)
    unfolding tried
    tried-Steps m step s = step s

  pub raise-Steps : (A : Type 0) (e : Error) → Steps {A = A} (raise e)
  unfolding raise
  raise-Steps A e s = same s.tables

  pub next_id-Steps : (made : ℕ → String) → Steps (next_id made)
  unfolding next_id
  next_id-Steps made s = same s.tables

  module _ {A B : Type 0} where
    continue-Steps : (r : Result A) (f : A → Run B) → ((a : A) → Steps (f a)) → Steps (continue r f)
    continue-Steps (ok a) f step s = step a s
    continue-Steps (err e) f step s = same s.tables

    pub bind-Steps :
        (m : Run A) (f : A → Run B) → Steps m → ((a : A) → Steps (f a)) → Steps (m >>= f)
    unfolding ◌>>=◌
    bind-Steps m f step next s =
        trans s.tables (m s).1.tables _ (step s) (continue-Steps (m s).0 f next (m s).1)

  pub look_up-Steps : {A : Type 0} (f : Target → Option A) → Steps (look_up f)
  unfolding look_up
  look_up-Steps {A} f =
      bind-Steps _ _
        (tried-Steps _ (statement-Steps _ (λ t a t' h. subst (R t) (ground arith) (same t))))
        (λ row. pure-Steps (found_row row))

  pub found_or_made-Steps :
      (core : Core) {A : Type 0} (id_of : A → String)
      (insert : A → Target → Result (String × Target)) (new : String → A)
      → ((a : A) (t : Target) (i : String) (t' : Target) → insert a t ≡ ok (i, t') → R t t')
      → (row : Option A) → Steps (found_or_made core id_of insert new row)
  unfolding found_or_made
  found_or_made-Steps core id_of insert new step (some a) = pure-Steps (id_of a, false)
  found_or_made-Steps core id_of insert new step none =
      bind-Steps _ _ (next_id-Steps core.made) (λ id.
        bind-Steps _ _ (statement-Steps (insert (new id)) (step (new id)))
          (λ made. pure-Steps (made, true)))

  module _ {A : Type 0} where
    pub read_all-Steps : (c : Cursor A) → Steps (read_all c)
    unfolding read_all
    read_all-Steps c = by_failure c.failed
      where
        by_failure :
            (failed : Option Error)
            → Steps (elim failed as (λ _. Run (List A)) [ none ↦ pure c.rows | some e ↦ raise e ])
        by_failure none = pure-Steps c.rows
        by_failure (some e) = raise-Steps (List A) e

  module _ {A : Type 0} (write : A → Target → Result (Unit {0} × Target)) where
    copy_each-Steps :
        (xs : List A) (failed : Option Error) (n : ℕ)
        → ((x : A)
            → In x xs
            → (t : Target) (u : Unit {0}) (t' : Target) → write x t ≡ ok (u, t')
            → R t t')
        → Steps (copy_each write xs failed n)
    unfolding copy_each
    copy_each-Steps [] none n step = pure-Steps n
    copy_each-Steps [] (some e) n step = raise-Steps ℕ e
    copy_each-Steps (x ∷ xs) failed n step =
        bind-Steps _ _ (statement-Steps (write x) (step x (inl refl)))
          (λ u. copy_each-Steps xs failed (n + 1) (λ y i. step y (inr i)))

    pub copy_rows-Steps :
        (c : Cursor A)
        → ((x : A)
            → In x c.rows
            → (t : Target) (u : Unit {0}) (t' : Target) → write x t ≡ ok (u, t')
            → R t t')
        → Steps (copy_rows write c)
    unfolding copy_rows
    copy_rows-Steps c step = copy_each-Steps c.rows c.failed 0 step
