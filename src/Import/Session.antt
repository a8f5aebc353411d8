-- ===== src/Import/Session.antt =====
-- The transaction on the target: the tables that the import reads or writes, and its statements.
-- `refusals` says which of the statements to come the database refuses; after one that it refused
-- a transaction is aborted, and every later statement of it fails.
pub mod Laws
pub mod Transactions
use appstore_gerege_nexus.Prelude.{
  ℕ, suc, ◌+◌, String, Bool, true, false, List, [], ◌∷◌, ◌++◌, Option, none, some, if◌then◌else◌,
}
use appstore_gerege_nexus.Tables.{Time, Json, Publisher, AppText, ExternalRegistration}
use appstore_gerege_nexus.World.{Error, failure, Result, ok, err}

pub record Tenant : Type 0 where
  pub id : String
  pub name : String
  pub slug : String

pub record User : Type 0 where
  pub id : String
  pub email : String
  pub password_hash : String
  pub name : String

pub record Membership : Type 0 where
  pub id : String
  pub tenant_id : String
  pub user_id : String

pub record MembershipRole : Type 0 where
  pub membership_id : String
  pub role_id : String

-- The columns of store_apps that are carried over.
pub record AppCopy : Type 0 where
  pub id : String
  pub publisher_id : String
  pub slug : String
  pub app_type : String
  pub name : String
  pub description : String
  pub icon_url : String
  pub category : String
  pub visibility : String
  pub created_at : Time
  pub updated_at : Time

-- Those of store_app_versions.
pub record VersionCopy : Type 0 where
  pub id : String
  pub app_id : String
  pub version : String
  pub channel : String
  pub min_platform : String
  pub manifest : Json
  pub status : String
  pub submitted_by : String
  pub review_note : String
  pub published_at : Option Time
  pub created_at : Time

-- Those of store_app_texts.
pub record TextCopy : Type 0 where
  pub app_id : String
  pub locale : String
  pub text : AppText

-- Those of store_review_events.
pub record EventCopy : Type 0 where
  pub id : String
  pub version_id : String
  pub actor : String
  pub action : String
  pub note : String
  pub created_at : Time

pub record Target : Type 0 where
  pub tenants : List Tenant
  pub users : List User
  pub memberships : List Membership
  pub membership_roles : List MembershipRole
  pub publishers : List Publisher
  pub apps : List AppCopy
  pub versions : List VersionCopy
  pub texts : List TextCopy
  pub externals : List ExternalRegistration
  pub events : List EventCopy
  pub revision : ℕ

-- `minted` counts the identifiers that the database has made.
pub record Session : Type 0 where
  pub tables : Target
  pub refusals : List Bool
  pub aborted : Bool
  pub minted : ℕ

abbrev pub Run : Type 0 → Type 0
Run A = Session → Result A × Session

module _ {A : Type 0} where
  abbrev pub refused : Session → List Bool → Result A × Session
  refused s rest = (err (failure "database"), record s { refusals = rest; aborted = true })

  abbrev pub settle : Result (A × Target) → Session → List Bool → Result A × Session
  settle (ok (a, t)) s rest = (ok a, record s { tables = t; refusals = rest })
  settle (err e) s rest = (err e, record s { refusals = rest; aborted = true })

  abbrev pub answered :
      Bool → List Bool → (Target → Result (A × Target)) → Session → Result A × Session
  answered true refusals f s = refused s refusals
  answered false [] f s = settle (f s.tables) s []
  answered false (true ∷ rest) f s = refused s rest
  answered false (false ∷ rest) f s = settle (f s.tables) s rest

  -- tx.QueryRow, or tx.Exec.
  unfoldable pub statement : (Target → Result (A × Target)) → Run A
  statement f s = answered s.aborted s.refusals f s

  unfoldable pub pure : A → Run A
  pure a s = (ok a, s)

  unfoldable pub raise : Error → Run A
  raise e s = (err e, s)

  abbrev pub answer : Result A → Option A
  answer (ok a) = some a
  answer (err e) = none

  -- `err := …; if err == nil`: an error is as good as no row.
  unfoldable pub tried : Run A → Run (Option A)
  tried m s = let (r, s') = m s in (ok (answer r), s')

module _ {A B : Type 0} where
  abbrev pub continue : Result A → (A → Run B) → Run B
  continue (ok a) f s = f a s
  continue (err e) f s = (err e, s)

  infixl 10 ◌>>=◌ ◌>>◌
  unfoldable pub ◌>>=◌ : Run A → (A → Run B) → Run B
  unfolding pure raise
  ◌>>=◌ m f s = let (r, s') = m s in continue r f s'

  abbrev pub ◌>>◌ : Run A → Run B → Run B
  m >> n = m >>= λ _. n

-- The identifier that the database makes for a new row.
unfoldable pub next_id : (made : ℕ → String) → Run String
next_id made s = (ok (made s.minted), record s { minted = suc s.minted })

module _ {A : Type 0} where
  abbrev pub committed : Bool → List Bool → Target → A → Session → Result A × Session
  committed true refusals before a s = (err (failure "commit"), record s { tables = before })
  committed false [] before a s = (ok a, s)
  committed false (true ∷ rest) before a s =
      (err (failure "commit"), record s { tables = before; refusals = rest })
  committed false (false ∷ rest) before a s = (ok a, record s { refusals = rest })

  -- How the transaction ends: the deferred tx.Rollback, or tx.Commit.
  abbrev pub concluded : (dry_run : Bool) → Target → Result A → Session → Result A × Session
  concluded dry_run before (err e) s = (err e, record s { tables = before })
  concluded true before (ok a) s = (ok a, record s { tables = before })
  concluded false before (ok a) s = committed s.aborted s.refusals before a s

  abbrev pub begun : List Bool → Session → (Session → Result A × Session) → Result A × Session
  begun [] s body = body (record s { aborted = false })
  begun (true ∷ rest) s body = (err (failure "begin"), record s { refusals = rest })
  begun (false ∷ rest) s body = body (record s { refusals = rest; aborted = false })

  unfoldable pub in_transaction : (dry_run : Bool) → Run A → Run A
  in_transaction dry_run body s =
      begun s.refusals s
        λ started. let (r, ended) = body started in concluded dry_run s.tables r ended
