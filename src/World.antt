-- ===== src/World.antt =====
-- Statements against the database, and the handlers over them. A statement reads and writes the
-- tables; `faults` says which of the statements to come the database refuses or loses, so every
-- error path of the code is a run of the model. `transaction` is db.Begin with the deferred
-- Rollback and the Commit; what an error returns to its caller is `Result`, and a handler turns a
-- result into a reply. `audits` is what nexus.Audit was told.
pub mod Laws
pub mod Reads
pub mod Keeps
pub mod Silent
use appstore_gerege_nexus.Prelude.{
  ℕ, String, Bool, true, false, List, [], ◌∷◌, ◌++◌, Option, none, some,
}
use appstore_gerege_nexus.Tables.{Database}

-- ErrNotFound, ErrConflict, ErrInvalidSubmission with its reason, and any other error.
pub data Error : Type 0 where
  not_found conflict : Error
  invalid_submission failure : String → Error

pub data Result (A : Type 0) : Type 0 where
  ok : A → Result A
  err : Error → Result A

-- The arguments of nexus.Audit.
pub record Audit : Type 0 where
  pub tenant_id : String
  pub actor : String
  pub action : String
  pub resource : String
  pub details : List (String × String)

pub record World : Type 0 where
  pub db : Database
  pub faults : List Bool
  pub audits : List Audit

abbrev pub Exec : Type 0 → Type 0
Exec A = World → Result A × World

module _ {A : Type 0} where
  unfoldable pub settle : Result (A × Database) → World → Result A × World
  settle (ok (a, db)) w = (ok a, record w { db = db })
  settle (err e) w = (err e, w)

  unfoldable pub under_faults : List Bool → (Database → Result (A × Database)) → Exec A
  under_faults [] f w = settle (f w.db) w
  under_faults (true ∷ rest) f w = (err (failure "database"), record w { faults = rest })
  under_faults (false ∷ rest) f w = settle (f w.db) (record w { faults = rest })

  -- One statement: db.QueryRow, db.Query or db.Exec.
  unfoldable pub statement : (Database → Result (A × Database)) → Exec A
  unfolding settle under_faults
  statement f w = under_faults w.faults f w

  -- A statement that only reads.
  unfoldable pub query : (Database → A) → Exec A
  unfolding statement
  query f = statement (λ db. ok (f db, db))

  unfoldable pub pure : A → Exec A
  pure a w = (ok a, w)

  unfoldable pub raise : Error → Exec A
  raise e w = (err e, w)

module _ {A : Type 0} where
  unfoldable pub lift : Result A → Exec A
  lift r w = (r, w)

  -- `defer func() { _ = after() }()`: it runs on every path, and what it answers is dropped.
  unfoldable pub defer_to : {B : Type 0} → Exec A → Exec B → Exec A
  defer_to m after w = let (r, w') = m w in (r, (after w').1)

  -- A call whose error is logged and dropped.
  unfoldable pub ignore : Exec A → Exec (Unit {0})
  ignore m w = (ok tt, (m w).1)

-- A statement that only writes.
unfoldable pub execute : (Database → Database) → Exec (Unit {0})
unfolding statement
execute f = statement (λ db. ok (tt, f db))

module _ {A B : Type 0} where
  abbrev pub continue : Result A → (A → Exec B) → Exec B
  continue (ok a) f w = f a w
  continue (err e) f w = (err e, w)

  infixl 10 ◌>>=◌ ◌>>◌
  unfoldable pub ◌>>=◌ : Exec A → (A → Exec B) → Exec B
  unfolding pure raise lift
  ◌>>=◌ m f w = let (r, w') = m w in continue r f w'

  abbrev pub ◌>>◌ : Exec A → Exec B → Exec B
  m >> n = m >>= λ _. n

module _ {A : Type 0} where
  -- tx.Commit, or the deferred tx.Rollback: what the transaction wrote stays only if it commits.
  abbrev pub commit : Database → A → List Bool → World → Result A × World
  commit before a (true ∷ rest) w =
      (err (failure "commit"), record w { db = before; faults = rest })
  commit before a (false ∷ rest) w = (ok a, record w { faults = rest })
  commit before a [] w = (ok a, w)

  abbrev pub conclude : Database → Result A → World → Result A × World
  conclude before (ok a) w = commit before a w.faults w
  conclude before (err e) w = (err e, record w { db = before })

  -- db.Begin, then the body.
  abbrev pub begun : Exec A → Exec A
  begun body = execute (λ db. db) >>= λ _. body

  unfoldable pub transaction : Exec A → Exec A
  transaction body w = let (r, w') = begun body w in conclude w.db r w'

-- What a handler writes: nexus.JSON with its status, nexus.Error with its status and message, or
-- nothing of its own where nexus.RequireTenant has already refused the request.
pub data Reply (A : Type 0) : Type 0 where
  json : ℕ → A → Reply A
  problem : ℕ → String → Reply A
  refused : Reply A

abbrev pub Handler : Type 0 → Type 0
Handler A = World → Reply A × World

module _ {A : Type 0} where
  abbrev pub respond : Reply A → Handler A
  respond r w = (r, w)

  -- nexus.Audit, then the rest.
  abbrev pub audit : Audit → Handler A → Handler A
  audit a next w = next (record w { audits = w.audits ++ a ∷ [] })

module _ {A B : Type 0} where
  abbrev pub branch : Result A → (Error → Handler B) → (A → Handler B) → Handler B
  branch (ok a) bad good w = good a w
  branch (err e) bad good w = bad e w

  -- `v, err := m; if err != nil { bad }; good`
  unfoldable pub attempt : Exec A → (Error → Handler B) → (A → Handler B) → Handler B
  attempt m bad good w = let (r, w') = m w in branch r bad good w'

-- nexus.UserFromContext
pub record Claims : Type 0 where
  pub user_id : String
  pub email : String

-- What the platform's middleware leaves in a request's context.
pub record Caller : Type 0 where
  pub tenant : Option String
  pub claims : Option Claims

module _ {A : Type 0} where
  -- `tenantID, ok := nexus.RequireTenant(w, r); if !ok { return }`
  abbrev pub require_tenant : Caller → (String → Handler A) → Handler A
  require_tenant caller next w = elim caller.tenant [ none ↦ (refused, w) | some t ↦ next t w ]

  -- `claims, err := nexus.UserFromContext(ctx); if err != nil { 401 }`
  abbrev pub require_user : Caller → (Claims → Handler A) → Handler A
  require_user caller next w = elim caller.claims [
    | none ↦ (problem 401 "unauthorized", w)
    | some c ↦ next c w
  ]
