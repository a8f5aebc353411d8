-- ===== src/Examples.antt =====
-- A small store on which the theorems are applied: a contract whose functions are concrete, two
-- apps, one of them private, and a platform that is granted it and has a cached document.
pub mod Runner
pub mod Catalogues
pub mod Access
mod Decisions
pub mod Submissions
mod Coherences
mod Histories
mod Imports
mod Audits
use Prim.Native.Char.{Char}
use Prim.Native.String
use appstore_gerege_nexus.Prelude.{
  ℕ, String, Bool, true, false, not, ◌&&◌, List, [], ◌∷◌, ◌++◌, map, Option, none, some, ◌==◌,
  if◌then◌else◌,
}
use appstore_gerege_nexus.Tables.{
  Time, Json, Database, Publisher, AppRow, VersionRow, Status, published, in_review, Snapshot,
  SnapshotRow, PrivateSnapshotRow, PlatformRow, GrantRow, AppTextRow, AppText,
}
use appstore_gerege_nexus.Contract.{Contract, Manifest, CatalogApp}
use appstore_gerege_nexus.World.{World, Caller, Claims}
use appstore_gerege_nexus.Registry.Signing.{Signer}

abbrev pub plain_manifest : String → String → Manifest
plain_manifest id version = record {
  id = id;
  version = version;
  manifest_type = "module";
  platform = "";
  external = none;
  release_notes = none;
  authors = [];
  rest = "";
}

abbrev pub concat_ids : List CatalogApp → Json
concat_ids [] = ""
concat_ids (a ∷ apps) = String.◌++◌ a.id (String.◌++◌ "@" (String.◌++◌ a.version (concat_ids apps)))

-- Versions are "1.0.0" and "2.0.0"; a constraint is the version that it names.
abbrev pub demo : Contract
demo = record {
  is_version = λ s. s == "1.0.0";
  check = λ c v. some (c == v);
  is_newer = λ v u. v == "2.0.0" && not (u == "2.0.0");
  is_valid_slug = λ s. not (s == "");
  validate_manifest = λ m p. none;
  validate_catalog = λ apps p. none;
  is_external = λ m. m.manifest_type == "external";
  encode_manifest = λ m. some m.version;
  decode_manifest = λ j. some (plain_manifest "app" j);
  encode_authors = λ as'. some "null";
  decode_note = λ j. some j;
  decode_names = λ j. [];
  encode_apps = λ apps. some (concat_ids apps);
  encode_document = λ at key apps signature. some (String.◌++◌ apps signature);
  json_get = λ j f. none;
  json_text = λ j f. none;
  format_time = λ t. "2026";
  sha256 = λ s. String.◌++◌ "#" s;
  decode_base64 = λ s. none;
  key_of_seed = λ s. s;
  public_of = λ s. "public";
  sign_base64 = λ key m. "!";
  collate = λ s t. true;
  app_collides = λ a b. a.slug == b.slug;
  lower = λ c. c;
}

abbrev pub demo_signer : Signer
demo_signer = record { key_id = "k1"; private = [] }

abbrev pub demo_app : String → String → AppRow
demo_app id visibility = record {
  id = id;
  publisher_id = "p1";
  slug = id;
  app_type = "module";
  name = id;
  description = "";
  icon_url = "";
  category = "General";
  visibility = visibility;
  created_at = 1;
  updated_at = 1;
  authors = "[]";
  maintainers = "[]";
  repository = "";
  homepage = "";
  license = "";
  created_by = none;
  updated_by = none;
}

abbrev pub demo_version : String → String → String → Status → VersionRow
demo_version id app_id version status = record {
  id = id;
  app_id = app_id;
  version = version;
  channel = "stable";
  min_platform = "";
  manifest = version;
  status = status;
  submitted_by = "a@b";
  review_note = "";
  published_at = some 5;
  created_at = 4;
  release_notes = none;
  authors = "[]";
}

abbrev pub demo_publisher : Publisher
demo_publisher = record {
  id = "p1";
  tenant_id = "t1";
  slug = "acme";
  name = "Acme";
  contact_email = "";
  verified = true;
  verified_at = some 2;
  verified_by = none;
  created_at = 1;
  updated_at = 1;
}

abbrev pub demo_platform : PlatformRow
demo_platform = record {
  id = "salus";
  name = "Salus";
  origin = "";
  note = "";
  token_digest = "#secret";
  disabled_at = none;
  last_seen_at = none;
  created_at = 1;
  created_by = none;
}

abbrev pub demo_snapshot : Snapshot
demo_snapshot = record { revision = 7; generated_at = 5; etag = "e"; document = "old" }

abbrev pub demo_db : Database
demo_db = record {
  publishers = demo_publisher ∷ [];
  apps = demo_app "open" "public" ∷ demo_app "closed" "private" ∷ [];
  texts = [];
  versions =
      demo_version "v1" "open" "1.0.0" published
      ∷ demo_version "v2" "open" "2.0.0" published
      ∷ demo_version "v3" "closed" "1.0.0" published
      ∷ demo_version "v4" "closed" "2.0.0" in_review
      ∷ [];
  externals = [];
  events = [];
  platforms = demo_platform ∷ [];
  grants =
      record { app_id = "closed"; platform_id = "salus"; granted_at = 3; granted_by = none } ∷ [];
  snapshots = [];
  private_snapshots =
      record {
        platform_id = "salus";
        channel = "stable";
        platform = "1.0.0";
        snapshot = demo_snapshot;
        built_at = 6;
      }
      ∷ [];
  revision = 7;
}

abbrev pub demo_world : World
demo_world = record { db = demo_db; faults = []; audits = [] }

abbrev pub demo_caller : Caller
demo_caller = record {
  tenant = some "t1";
  claims = some (record { user_id = "u1"; email = "a@b" });
}
