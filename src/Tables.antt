-- ===== src/Tables.antt =====
-- The tables: the row types, with the columns that the queries of modules/ read or write, and the
-- database as one record of them. The columns of the tables of the core's migration 00038 are those
-- that the statements in modules/registry/store.go name; store_platforms, store_app_grants and
-- store_private_snapshots are those of db/migrations/00001_platform_audiences.sql. Rows stand in
-- the order of insertion. Times are nanoseconds since Go's zero time; a JSON column is its text.
use appstore_gerege_nexus.Prelude.{ℕ, String, Bool, List, Option}

abbrev pub Time : Type 0
Time = ℕ

abbrev pub Json : Type 0
Json = String

-- The status constants of a version.
pub data Status : Type 0 where
  draft in_review published rejected yanked : Status

pub record Publisher : Type 0 where
  pub id : String
  pub tenant_id : String
  pub slug : String
  pub name : String
  pub contact_email : String
  pub verified : Bool
  pub verified_at : Option Time
  pub verified_by : Option String
  pub created_at : Time
  pub updated_at : Time

-- A row of store_apps. `type` is `app_type` here.
pub record AppRow : Type 0 where
  pub id : String
  pub publisher_id : String
  pub slug : String
  pub app_type : String
  pub name : String
  pub description : String
  pub icon_url : String
  pub category : String
  pub visibility : String
  pub created_at : Time
  pub updated_at : Time
  pub authors : Json
  pub maintainers : Json
  pub repository : String
  pub homepage : String
  pub license : String
  pub created_by : Option String
  pub updated_by : Option String

-- catalog.CatalogAppText
pub record AppText : Type 0 where
  pub name : String
  pub description : String
  pub category : String

pub record AppTextRow : Type 0 where
  pub app_id : String
  pub locale : String
  pub text : AppText

pub record VersionRow : Type 0 where
  pub id : String
  pub app_id : String
  pub version : String
  pub channel : String
  pub min_platform : String
  pub manifest : Json
  pub status : Status
  pub submitted_by : String
  pub review_note : String
  pub published_at : Option Time
  pub created_at : Time
  pub release_notes : Option Json
  pub authors : Json

pub record ExternalRegistration : Type 0 where
  pub app_id : String
  pub launch_url : String
  pub sso_client_id : String
  pub scopes : List String
  pub embed : String
  pub health_url : String
  pub webhook_url : String

pub record ReviewEvent : Type 0 where
  pub version_id : String
  pub actor_id : Option String
  pub actor : String
  pub action : String
  pub note : String
  pub created_at : Time

-- A row of store_platforms. `granted_apps` of the Go struct is filled by a query.
pub record PlatformRow : Type 0 where
  pub id : String
  pub name : String
  pub origin : String
  pub note : String
  pub token_digest : String
  pub disabled_at : Option Time
  pub last_seen_at : Option Time
  pub created_at : Time
  pub created_by : Option String

pub record GrantRow : Type 0 where
  pub app_id : String
  pub platform_id : String
  pub granted_at : Time
  pub granted_by : Option String

-- A signed catalogue document, ready to serve verbatim.
pub record Snapshot : Type 0 where
  pub revision : ℕ
  pub generated_at : Time
  pub etag : String
  pub document : Json

pub record SnapshotRow : Type 0 where
  pub channel : String
  pub platform : String
  pub snapshot : Snapshot
  pub built_at : Time

pub record PrivateSnapshotRow : Type 0 where
  pub platform_id : String
  pub channel : String
  pub platform : String
  pub snapshot : Snapshot
  pub built_at : Time

pub record Database : Type 0 where
  pub publishers : List Publisher
  pub apps : List AppRow
  pub texts : List AppTextRow
  pub versions : List VersionRow
  pub externals : List ExternalRegistration
  pub events : List ReviewEvent
  pub platforms : List PlatformRow
  pub grants : List GrantRow
  pub snapshots : List SnapshotRow
  pub private_snapshots : List PrivateSnapshotRow
  pub revision : ℕ
