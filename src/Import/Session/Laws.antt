-- ===== src/Import/Session/Laws.antt =====
-- Inversion of the import's runs.
use appstore_gerege_nexus.Prelude.{
  Bool, true, false, List, [], ◌∷◌, ◌≡◌, refl, arith, ◌⊎◌, inl, inr,
}
use appstore_gerege_nexus.World.{Error, Result, ok, err}
use appstore_gerege_nexus.Import.Session.{
  Target, Session, Run, settle, answered, statement, pure, continue, ◌>>=◌,
}

module _ {A : Type 0} where
  settle_ok :
      (r : Result (A × Target)) (s : Session) (rest : List Bool) {a : A} {s' : Session}
      → settle r s rest ≡ (ok a, s')
      → r ≡ ok (a, s'.tables)
  settle_ok (ok (b, t)) s rest h = ground arith
  settle_ok (err e) s rest h = cc

  answered_ok :
      (aborted : Bool) (refusals : List Bool) (f : Target → Result (A × Target)) (s : Session)
      {a : A} {s' : Session}
      → answered aborted refusals f s ≡ (ok a, s')
      → f s.tables ≡ ok (a, s'.tables)
  answered_ok true refusals f s h = cc
  answered_ok false [] f s h = settle_ok (f s.tables) s [] h
  answered_ok false (true ∷ rest) f s h = cc
  answered_ok false (false ∷ rest) f s h = settle_ok (f s.tables) s rest h

  pub statement_ok :
      (f : Target → Result (A × Target)) (s : Session) {a : A} {s' : Session}
      → statement f s ≡ (ok a, s')
      → f s.tables ≡ ok (a, s'.tables)
  unfolding statement
  statement_ok f s h = answered_ok s.aborted s.refusals f s h

  settle_err :
      (r : Result (A × Target)) (s : Session) (rest : List Bool) {e : Error} {s' : Session}
      → settle r s rest ≡ (err e, s')
      → (s'.tables ≡ s.tables) × (s'.aborted ≡ true)
  settle_err (ok (b, t)) s rest h = cc
  settle_err (err e) s rest h = ground arith

  answered_err :
      (aborted : Bool) (refusals : List Bool) (f : Target → Result (A × Target)) (s : Session)
      {e : Error} {s' : Session}
      → answered aborted refusals f s ≡ (err e, s')
      → (s'.tables ≡ s.tables) × (s'.aborted ≡ true)
  answered_err true refusals f s h = ground arith
  answered_err false [] f s h = settle_err (f s.tables) s [] h
  answered_err false (true ∷ rest) f s h = ground arith
  answered_err false (false ∷ rest) f s h = settle_err (f s.tables) s rest h

  -- A statement that the database refused has aborted the transaction.
  pub statement_err :
      (f : Target → Result (A × Target)) (s : Session) {e : Error} {s' : Session}
      → statement f s ≡ (err e, s')
      → (s'.tables ≡ s.tables) × (s'.aborted ≡ true)
  unfolding statement
  statement_err f s h = answered_err s.aborted s.refusals f s h

  -- In an aborted transaction no statement is answered.
  pub statement_aborted :
      (f : Target → Result (A × Target)) (s : Session) {a : A} {s' : Session}
      → s.aborted ≡ true
      → ¬ (statement f s ≡ (ok a, s'))
  unfolding statement
  statement_aborted f s {a} {s'} aborted h = of_flag s.aborted aborted h
    where
      of_flag : (b : Bool) → b ≡ true → ¬ (answered b s.refusals f s ≡ (ok a, s'))
      of_flag true e = λ g. cc g
      of_flag false e = absurd (cc e)

  pub outcome :
      (m : Run A) (s : Session)
      → ((a : A) × (s' : Session) × (m s ≡ (ok a, s')))
        ⊎ ((e : Error) × (s' : Session) × (m s ≡ (err e, s')))
  outcome m s = of_answer (m s) refl
    where
      of_answer :
          (p : Result A × Session)
          → m s ≡ p
          → ((a : A) × (s' : Session) × (m s ≡ (ok a, s')))
            ⊎ ((e : Error) × (s' : Session) × (m s ≡ (err e, s')))
      of_answer (ok a, s') e = inl (a, s', e)
      of_answer (err x, s') e = inr (x, s', e)

  pub pure_ok :
      (a : A) (s : Session) {b : A} {s' : Session} → pure a s ≡ (ok b, s') → (a ≡ b) × (s' ≡ s)
  unfolding pure
  pure_ok a s h = ground arith

module _ {A B : Type 0} where
  continue_ok :
      (r : Result A) (f : A → Run B) (s : Session) {b : B} {s' : Session}
      → continue r f s ≡ (ok b, s')
      → (a : A) × (r ≡ ok a) × (f a s ≡ (ok b, s'))
  continue_ok (ok a) f s h = (a, refl, h)
  continue_ok (err e) f s h = cc

  pub bind_ok :
      (m : Run A) (f : A → Run B) (s : Session) {b : B} {s' : Session}
      → (m >>= f) s ≡ (ok b, s')
      → (a : A) × (t : Session) × (m s ≡ (ok a, t)) × (f a t ≡ (ok b, s'))
  unfolding ◌>>=◌
  bind_ok m f s h =
      let (a, r, rest) = continue_ok (m s).0 f (m s).1 h in
      (a, (m s).1, (λ i. (r i, (m s).1)), rest)
