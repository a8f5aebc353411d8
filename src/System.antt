-- ===== src/System.antt =====
-- The three modules as one system over one database: the requests that may change a table, each
-- answered by its handler, one after the other in any order. A request that only reads is left out,
-- since it reaches no other state.
pub mod Handlers
pub mod Coherent
pub mod Framed
pub mod Replay
pub mod History
use appstore_gerege_nexus.Prelude.{String, Bool, List, [], ◌∷◌, Option, none, some, ◌≡◌, ◌≢◌}
use appstore_gerege_nexus.Tables.{Time, Database}
use appstore_gerege_nexus.Contract.{Contract}
use appstore_gerege_nexus.World.{World, Caller}
use appstore_gerege_nexus.Registry.Signing.{Signer}
use appstore_gerege_nexus.Registry.Public.{CatalogRequest, handle_catalog, handle_rebuild_snapshots}
use appstore_gerege_nexus.Registry.Operators.{
  PlatformBody, handle_create_platform, handle_set_platform_enabled, handle_grant, handle_revoke,
}
use appstore_gerege_nexus.Publisher.{
  ProfileBody, AppBody, VersionBody, handle_save_profile, handle_upsert_app, handle_submit_version,
}
use appstore_gerege_nexus.Review.{DecisionBody, handle_decision, handle_verify_publisher}

-- A request with its body, and with what its handler takes from outside: the random token and the
-- identifier that the database makes.
pub data Request : Type 0 where
  ask_catalog : CatalogRequest → Request
  rebuild_cache : Request
  register_platform :
      Caller → Option PlatformBody → (minted : Option String) → (id : String) → Request
  set_access : Caller → (platform_id : String) → Option Bool → Request
  grant_app : Caller → (platform_id app_id : String) → Request
  revoke_app : Caller → (platform_id app_id : String) → Request
  put_profile : Caller → Option ProfileBody → (id : String) → Request
  save_app : Caller → Option AppBody → Request
  send_version : Caller → (slug : String) → Option VersionBody → (id : String) → Request
  review_version : Caller → (version_id : String) → Option DecisionBody → Request
  verify_publisher : Caller → (publisher_id verified : String) → Request

-- A request, when it came, and which of its statements the database refused.
pub record Arrival : Type 0 where
  pub request : Request
  pub now : Time
  pub faults : List Bool

abbrev pub arrived : Arrival → Database → World
arrived a db = record { db = db; faults = a.faults; audits = [] }

-- What is assumed of an arrival: the database makes no empty identifier for a platform, and no
-- statement of a grant or a revocation fails.
abbrev pub IsOrdinary : Request → List Bool → Type 0
IsOrdinary (register_platform caller body minted id) faults = id ≢ ""
IsOrdinary (grant_app caller id app_id) faults = faults ≡ []
IsOrdinary (revoke_app caller id app_id) faults = faults ≡ []
IsOrdinary _ faults = Unit

-- Any arrival at all.
abbrev pub IsAny : Request → List Bool → Type 0
IsAny r faults = Unit

module _ (k : Contract) (signer : Signer) where
  unfoldable pub react : Request → Time → World → World
  react (ask_catalog r) now w = (handle_catalog k (some signer) r now w).1
  react rebuild_cache now w = (handle_rebuild_snapshots k (some signer) w).1
  react (register_platform caller body minted id) now w =
      (handle_create_platform k caller body minted id now w).1
  react (set_access caller id on) now w = (handle_set_platform_enabled caller id on now w).1
  react (grant_app caller id app_id) now w = (handle_grant caller id app_id now w).1
  react (revoke_app caller id app_id) now w = (handle_revoke caller id app_id w).1
  react (put_profile caller body id) now w = (handle_save_profile k caller body id now w).1
  react (save_app caller body) now w = (handle_upsert_app k caller body now w).1
  react (send_version caller slug body id) now w =
      (handle_submit_version k caller slug body id now w).1
  react (review_version caller id body) now w = (handle_decision k caller id body now w).1
  react (verify_publisher caller id verified) now w =
      (handle_verify_publisher caller id verified now w).1

  -- The tables after a request.
  abbrev pub after : Arrival → Database → Database
  after a db = (react a.request a.now (arrived a db)).db

-- Requests that all come one after the other, each of them allowed.
module _ (k : Contract) (signer : Signer) (allowed : Request → List Bool → Type 0) where
  -- The states that they reach.
  pub data Reaches (start : Database) : Database → Type 0 where
    here : {db : Database} → db ≡ start → Reaches start db
    next :
        {db db' : Database} (a : Arrival)
        → Reaches start db
        → allowed a.request a.faults
        → db' ≡ after k signer a db
        → Reaches start db'
