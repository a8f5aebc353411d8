-- ===== src/World/Silent.antt =====
-- The store audits nothing: what its operations leave of what nexus.Audit was told.
use appstore_gerege_nexus.Prelude.{
  Bool, true, false, if◌then◌else◌, List, [], ◌∷◌, ◌≡◌, refl, ◌∙◌, inl, inr,
}
use appstore_gerege_nexus.Tables.{Database}
use appstore_gerege_nexus.World.{
  Error, Result, ok, err, World, Exec, statement, query, execute, pure, raise, lift, ignore,
  continue, ◌>>=◌, commit, conclude, begun, transaction,
}
use appstore_gerege_nexus.World.Laws.{statement_ok, statement_err, outcome}

abbrev pub Silent : {X : Type 0} → (World → X × World) → Type 0
Silent m = (w : World) → (m w).1.audits ≡ w.audits

module _ {A : Type 0} where
  pub statement-Silent : (f : Database → Result (A × Database)) → Silent (statement f)
  statement-Silent f w = elim (outcome (statement f) w) [
    | inl (a, h) ↦ (statement_ok f w h).1
    | inr (e, h) ↦ (statement_err f w h).1
  ]

  pub query-Silent : (f : Database → A) → Silent (query f)
  unfolding query
  query-Silent f = statement-Silent (λ db. ok (f db, db))

  pub pure-Silent : (a : A) → Silent (pure a)
  unfolding pure
  pure-Silent a w = refl

  pub lift-Silent : (r : Result A) → Silent (lift r)
  unfolding lift
  lift-Silent r w = refl

  pub ignore-Silent : (m : Exec A) → Silent m → Silent (ignore m)
  unfolding ignore
  ignore-Silent m silent w = silent w

  commit-Silent : (before : Database) (a : A) (faults : List Bool) → Silent (commit before a faults)
  commit-Silent before a [] w = refl
  commit-Silent before a (true ∷ rest) w = refl
  commit-Silent before a (false ∷ rest) w = refl

  conclude-Silent : (before : Database) (r : Result A) → Silent (conclude before r)
  conclude-Silent before (ok a) w = commit-Silent before a w.faults w
  conclude-Silent before (err e) w = refl

pub raise-Silent : (A : Type 0) (e : Error) → Silent (raise {A = A} e)
unfolding raise
raise-Silent A e w = refl

pub execute-Silent : (f : Database → Database) → Silent (execute f)
unfolding execute
execute-Silent f = statement-Silent (λ db. ok (tt, f db))

module _ {A B : Type 0} where
  continue-Silent :
      (r : Result A) (f : A → Exec B) → ((a : A) → Silent (f a)) → Silent (continue r f)
  continue-Silent (ok a) f silent w = silent a w
  continue-Silent (err e) f silent w = refl

  pub bind-Silent :
      (m : Exec A) (f : A → Exec B) → Silent m → ((a : A) → Silent (f a)) → Silent (m >>= f)
  unfolding ◌>>=◌
  bind-Silent m f silent next w = continue-Silent (m w).0 f next (m w).1 ∙ silent w

pub if-Silent :
    {X : Type 0} (b : Bool) (m n : World → X × World)
    → Silent m
    → Silent n
    → Silent (if b then m else n)
if-Silent true m n silent silent' = silent
if-Silent false m n silent silent' = silent'

pub transaction-Silent : {A : Type 0} (body : Exec A) → Silent body → Silent (transaction body)
unfolding transaction
transaction-Silent body silent w =
    conclude-Silent w.db (begun body w).0 (begun body w).1
    ∙ bind-Silent (execute (λ db. db)) (λ _. body) (execute-Silent (λ db. db)) (λ _. silent) w
