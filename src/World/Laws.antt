-- ===== src/World/Laws.antt =====
-- Inversion of runs: what a run that succeeded, or failed, did to the world.
use appstore_gerege_nexus.Prelude.{
  Bool, true, false, List, [], ◌∷◌, ◌≡◌, refl, sym, ap, arith, ◌⊎◌, inl, inr,
}
use appstore_gerege_nexus.Tables.{Database}
use appstore_gerege_nexus.World.{
  Error, Result, ok, err, World, Exec, settle, under_faults, statement, query, execute, pure, lift,
  continue, ◌>>=◌, commit, conclude, begun, transaction, Handler, Reply, branch, attempt, ignore,
}

module _ {A : Type 0} where
  settle_ok :
      (r : Result (A × Database)) (w : World) {a : A} {w' : World}
      → settle r w ≡ (ok a, w')
      → (r ≡ ok (a, w'.db)) × (w'.audits ≡ w.audits)
  unfolding settle
  settle_ok (ok (b, db)) w h = ground arith
  settle_ok (err e) w h = cc

  settle_err :
      (r : Result (A × Database)) (w : World) {e : Error} {w' : World}
      → settle r w ≡ (err e, w')
      → (w'.db ≡ w.db) × (w'.audits ≡ w.audits)
  unfolding settle
  settle_err (ok (b, db)) w h = cc
  settle_err (err e) w h = ground arith

  under_faults_ok :
      (faults : List Bool) (f : Database → Result (A × Database)) (w : World) {a : A} {w' : World}
      → under_faults faults f w ≡ (ok a, w')
      → (f w.db ≡ ok (a, w'.db)) × (w'.audits ≡ w.audits)
  unfolding under_faults
  under_faults_ok [] f w h = settle_ok (f w.db) w h
  under_faults_ok (true ∷ rest) f w h = cc
  under_faults_ok (false ∷ rest) f w h = settle_ok (f w.db) (record w { faults = rest }) h

  under_faults_err :
      (faults : List Bool) (f : Database → Result (A × Database)) (w : World) {e : Error}
      {w' : World}
      → under_faults faults f w ≡ (err e, w')
      → (w'.db ≡ w.db) × (w'.audits ≡ w.audits)
  unfolding under_faults
  under_faults_err [] f w h = settle_err (f w.db) w h
  under_faults_err (true ∷ rest) f w h = ground arith
  under_faults_err (false ∷ rest) f w h = settle_err (f w.db) (record w { faults = rest }) h

  pub statement_ok :
      (f : Database → Result (A × Database)) (w : World) {a : A} {w' : World}
      → statement f w ≡ (ok a, w')
      → (f w.db ≡ ok (a, w'.db)) × (w'.audits ≡ w.audits)
  unfolding statement
  statement_ok f w h = under_faults_ok w.faults f w h

  pub statement_err :
      (f : Database → Result (A × Database)) (w : World) {e : Error} {w' : World}
      → statement f w ≡ (err e, w')
      → (w'.db ≡ w.db) × (w'.audits ≡ w.audits)
  unfolding statement
  statement_err f w h = under_faults_err w.faults f w h

  pub query_ok :
      (f : Database → A) (w : World) {a : A} {w' : World}
      → query f w ≡ (ok a, w')
      → (a ≡ f w.db) × (w'.db ≡ w.db)
  unfolding query
  query_ok f w h = let (e, s) = statement_ok (λ db. ok (f db, db)) w h in (cc, cc)

  pub pure_ok :
      (b : A) (w : World) {a : A} {w' : World} → pure b w ≡ (ok a, w') → (a ≡ b) × (w'.db ≡ w.db)
  unfolding pure
  pure_ok b w h = (cc, ap (λ (p : Result A × World). p.1.db) (sym h))

  pub lift_ok :
      (r : Result A) (w : World) {a : A} {w' : World}
      → lift r w ≡ (ok a, w')
      → (r ≡ ok a) × (w'.db ≡ w.db)
  unfolding lift
  lift_ok r w h =
      (ap (λ (p : Result A × World). p.0) h, ap (λ (p : Result A × World). p.1.db) (sym h))

pub execute_ok :
    (f : Database → Database) (w : World) {a : Unit {0}} {w' : World}
    → execute f w ≡ (ok a, w')
    → (w'.db ≡ f w.db) × (w'.audits ≡ w.audits)
unfolding execute
execute_ok f w h = let (e, s) = statement_ok (λ db. ok (tt, f db)) w h in (cc, s)

execute_err :
    (f : Database → Database) (w : World) {e : Error} {w' : World}
    → execute f w ≡ (err e, w')
    → w'.db ≡ w.db
unfolding execute
execute_err f w h = (statement_err (λ db. ok (tt, f db)) w h).0

module _ {A B : Type 0} where
  continue_ok :
      (r : Result A) (f : A → Exec B) (w : World) {b : B} {w' : World}
      → continue r f w ≡ (ok b, w')
      → (a : A) × (r ≡ ok a) × (f a w ≡ (ok b, w'))
  continue_ok (ok a) f w h = (a, refl, h)
  continue_ok (err e) f w h = cc

  -- A block that succeeded: its first action did, and the rest from where that left the world.
  pub bind_ok :
      (m : Exec A) (f : A → Exec B) (w : World) {b : B} {w' : World}
      → (m >>= f) w ≡ (ok b, w')
      → (a : A) × (v : World) × (m w ≡ (ok a, v)) × (f a v ≡ (ok b, w'))
  unfolding ◌>>=◌
  bind_ok m f w h =
      let (a, e, k) = continue_ok (m w).0 f (m w).1 h in (a, (m w).1, λ i. (e i, (m w).1), k)

module _ {A : Type 0} where
  conclude_err :
      (before : Database) (r : Result A) (w : World) {e : Error} {w' : World}
      → conclude before r w ≡ (err e, w')
      → w'.db ≡ before
  conclude_err before (ok a) w h = by_faults w.faults h
    where
      by_faults :
          (faults : List Bool) {e : Error} {w' : World}
          → commit before a faults w ≡ (err e, w')
          → w'.db ≡ before
      by_faults [] h = cc
      by_faults (true ∷ rest) h = ground arith
      by_faults (false ∷ rest) h = cc
  conclude_err before (err e) w h = ground arith

  conclude_ok :
      (before : Database) (r : Result A) (w : World) {a : A} {w' : World}
      → conclude before r w ≡ (ok a, w')
      → (r ≡ ok a) × (w'.db ≡ w.db) × (w'.audits ≡ w.audits)
  conclude_ok before (ok b) w {a} {w'} h = by_faults w.faults h
    where
      by_faults :
          (faults : List Bool)
          → commit before b faults w ≡ (ok a, w')
          → (ok b ≡ ok a) × (w'.db ≡ w.db) × (w'.audits ≡ w.audits)
      by_faults [] h = ground arith
      by_faults (true ∷ rest) h = cc
      by_faults (false ∷ rest) h = ground arith
  conclude_ok before (err e) w h = cc

  -- A transaction that fails, at whichever statement or at the commit, has written nothing.
  pub transaction_err :
      (body : Exec A) (w : World) {e : Error} {w' : World}
      → transaction body w ≡ (err e, w')
      → w'.db ≡ w.db
  unfolding transaction
  transaction_err body w h = conclude_err w.db (begun body w).0 (begun body w).1 h

  -- One that succeeds has written what its body wrote.
  pub transaction_ok :
      (body : Exec A) (w : World) {a : A} {w' : World}
      → transaction body w ≡ (ok a, w')
      → (v v' : World) × (v.db ≡ w.db)
        × (v.audits ≡ w.audits)
        × (body v ≡ (ok a, v'))
        × (w'.db ≡ v'.db)
        × (w'.audits ≡ v'.audits)
  unfolding transaction
  transaction_ok body w h =
      let (r, d, s) = conclude_ok w.db (begun body w).0 (begun body w).1 h in
      let (u, v, begin, ran) =
        bind_ok (execute (λ db. db)) (λ _. body) w (λ i. (r i, (begun body w).1)) in
      let (d', s') = execute_ok (λ db. db) w begin in (v, (begun body w).1, d', s', ran, d, s)

-- Whatever a statement answers, it has written all or nothing.
pub execute_either :
    (f : Database → Database) (w : World)
    → ((execute f w).1.db ≡ f w.db) ⊎ ((execute f w).1.db ≡ w.db)
execute_either f w = by_result (execute f w).0 refl
  where
    by_result :
        (r : Result (Unit {0}))
        → (execute f w).0 ≡ r
        → ((execute f w).1.db ≡ f w.db) ⊎ ((execute f w).1.db ≡ w.db)
    by_result (ok a) e = inl (execute_ok f w (λ i. (e i, (execute f w).1))).0
    by_result (err x) e = inr (execute_err f w (λ i. (e i, (execute f w).1)))

module _ {A B : Type 0} where
  branch_cases :
      (r : Result A) (bad : Error → Handler B) (good : A → Handler B) (w : World) {answer : Reply B}
      {w' : World}
      → branch r bad good w ≡ (answer, w')
      → ((a : A) × (r ≡ ok a) × (good a w ≡ (answer, w')))
        ⊎ ((e : Error) × (r ≡ err e) × (bad e w ≡ (answer, w')))
  branch_cases (ok a) bad good w h = inl (a, refl, h)
  branch_cases (err e) bad good w h = inr (e, refl, h)

  -- A handler's answer comes from the branch that the call's result chose.
  pub attempt_cases :
      (m : Exec A) (bad : Error → Handler B) (good : A → Handler B) (w : World) {answer : Reply B}
      {w' : World}
      → attempt m bad good w ≡ (answer, w')
      → ((a : A) × (v : World) × (m w ≡ (ok a, v)) × (good a v ≡ (answer, w')))
        ⊎ ((e : Error) × (v : World) × (m w ≡ (err e, v)) × (bad e v ≡ (answer, w')))
  unfolding attempt
  attempt_cases m bad good w h = elim (branch_cases (m w).0 bad good (m w).1 h) [
    | inl (a, r, k) ↦ inl (a, (m w).1, λ i. (r i, (m w).1), k)
    | inr (e, r, k) ↦ inr (e, (m w).1, λ i. (r i, (m w).1), k)
  ]

  -- A dropped error cannot choose the branch.
  pub attempt-ignore :
      (m : Exec A) (bad : Error → Handler B) (good : Unit {0} → Handler B) (w : World)
      → attempt (ignore m) bad good w ≡ good tt (m w).1
  unfolding attempt ignore
  attempt-ignore m bad good w = refl

module _ {A : Type 0} where
  -- A run has a value or an error.
  pub outcome :
      (m : Exec A) (w : World)
      → ((a : A) × (m w ≡ (ok a, (m w).1))) ⊎ ((e : Error) × (m w ≡ (err e, (m w).1)))
  outcome m w = by_result (m w).0 refl
    where
      by_result :
          (r : Result A)
          → (m w).0 ≡ r
          → ((a : A) × (m w ≡ (ok a, (m w).1))) ⊎ ((e : Error) × (m w ≡ (err e, (m w).1)))
      by_result (ok a) e = inl (a, λ i. (e i, (m w).1))
      by_result (err x) e = inr (x, λ i. (e i, (m w).1))
