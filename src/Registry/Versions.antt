-- ===== src/Registry/Versions.antt =====
-- The versions of modules/registry/store.go: reading them, and the chronicle.
use appstore_gerege_nexus.Prelude.{
  String, Bool, true, false, ◌&&◌, List, [], ◌∷◌, Option, none, some, ◌==◌, leb, keep, first, map,
  eqb, if◌then◌else◌,
}
use appstore_gerege_nexus.Tables.{Time, Json, Database, Status, VersionRow, ExternalRegistration}
use appstore_gerege_nexus.Contract.{Contract, Manifest}
use appstore_gerege_nexus.Sorting.{order_by}
use appstore_gerege_nexus.World.{Exec, Result, ok, err, failure, query, pure, lift, ◌>>=◌}
use appstore_gerege_nexus.Registry.Build.{is_published}
use appstore_gerege_nexus.Registry.Publishers.{or_not_found}
use appstore_gerege_nexus.Registry.Apps.{App, time_desc, find_app}

-- Version, as the API renders it.
pub record Version : Type 0 where
  pub id : String
  pub app_id : String
  pub version : String
  pub channel : String
  pub min_platform : String
  pub manifest : Manifest
  pub status : Status
  pub submitted_by : String
  pub review_note : String
  pub published_at : Option Time
  pub created_at : Time
  pub app : Option App

-- ChronicleEntry
pub record ChronicleEntry : Type 0 where
  pub version : String
  pub channel : String
  pub published_at : Option Time
  pub notes : Option Json
  pub authors : List String

abbrev pub version_of : VersionRow → Manifest → Version
version_of v m = record {
  id = v.id;
  app_id = v.app_id;
  version = v.version;
  channel = v.channel;
  min_platform = v.min_platform;
  manifest = m;
  status = v.status;
  submitted_by = v.submitted_by;
  review_note = v.review_note;
  published_at = v.published_at;
  created_at = v.created_at;
  app = none;
}

abbrev pub is_in_review : Status → Bool
is_in_review Status.draft = false
is_in_review Status.in_review = true
is_in_review Status.published = false
is_in_review Status.rejected = false
is_in_review Status.yanked = false

-- ExternalRegistration
unfoldable pub external_registration : String → Exec ExternalRegistration
unfolding or_not_found
external_registration app_id = do
  row ← query (λ db. first (λ e. e.app_id == app_id) db.externals)
  or_not_found row

abbrev pub same_time : Option Time → Option Time → Bool
same_time none none = true
same_time (some s) (some t) = eqb s t
same_time _ _ = false

-- DESC NULLS LAST, read from the right.
abbrev pub desc_nulls_last : Option Time → Option Time → Bool
desc_nulls_last none none = true
desc_nulls_last none (some t) = false
desc_nulls_last (some s) none = true
desc_nulls_last (some s) (some t) = leb t s

module _ (k : Contract) where
  abbrev pub decoded : VersionRow → Option Manifest → Result Version
  decoded v none = err (failure "decode manifest")
  decoded v (some m) = ok (version_of v m)

  -- scanVersion
  unfoldable pub scan_version : VersionRow → Result Version
  scan_version v = decoded v (k.decode_manifest v.manifest)

  -- VersionByID
  unfoldable pub version_by_id : String → Exec Version
  unfolding scan_version or_not_found
  version_by_id id = do
    row ← query (λ db. first (λ v. v.id == id) db.versions)
    v ← or_not_found row
    lift (scan_version v)

  -- queryVersions: one manifest that does not decode fails the query.
  unfoldable pub scan_all : List VersionRow → Result (List Version)
  unfolding scan_version
  scan_all [] = ok []
  scan_all (v ∷ rows) = elim (scan_version v) [
    | err e ↦ err e
    | ok version ↦ elim (scan_all rows) [ err e ↦ err e | ok rest ↦ ok (version ∷ rest) ]
  ]

  unfoldable pub versions_of : String → Bool → Database → List VersionRow
  versions_of app_id published_only db =
      if published_only
      then order_by (λ v u. time_desc v.published_at u.published_at)
          (keep (λ v. v.app_id == app_id && is_published v.status) db.versions)
      else order_by (λ v u. leb u.created_at v.created_at)
          (keep (λ v. v.app_id == app_id) db.versions)

  -- ListVersions
  unfoldable pub list_versions : String → Bool → Exec (List Version)
  unfolding scan_all versions_of
  list_versions app_id published_only = do
    rows ← query (versions_of app_id published_only)
    lift (scan_all rows)

  -- The loop of ListReviewQueue: an app that cannot be read is left out of its version.
  abbrev pub with_app : Version → Result App → Version
  with_app v (ok a) = record v { app = some a }
  with_app v (err e) = v

  unfoldable pub attach_apps : List Version → Exec (List Version)
  unfolding or_not_found find_app
  attach_apps [] w = (ok [], w)
  attach_apps (v ∷ vs) w =
      let (found, w') = (query (find_app (λ a. a.id == v.app_id)) >>= or_not_found) w in
      (attach_apps vs >>= λ rest. pure (with_app v found ∷ rest)) w'

  unfoldable pub review_queue_rows : Database → List VersionRow
  review_queue_rows db =
      order_by (λ v u. leb v.created_at u.created_at)
        (keep (λ v. is_in_review v.status) db.versions)

  -- ListReviewQueue
  unfoldable pub list_review_queue : Exec (List Version)
  unfolding scan_all attach_apps review_queue_rows
  list_review_queue = do
    rows ← query review_queue_rows
    versions ← lift (scan_all rows)
    attach_apps versions

  -- if len(notes) > 0 and it decodes
  abbrev pub note_of : Option Json → Option Json
  note_of none = none
  note_of (some raw) = if raw == "" then none else k.decode_note raw

  -- if len(authors) > 0
  abbrev pub names_of : Json → List String
  names_of raw = if raw == "" then [] else k.decode_names raw

  abbrev pub entry_of : VersionRow → ChronicleEntry
  entry_of v = record {
    version = v.version;
    channel = v.channel;
    published_at = v.published_at;
    notes = note_of v.release_notes;
    authors = names_of v.authors;
  }

  -- ORDER BY published_at DESC NULLS LAST, version DESC
  abbrev pub chronicle_le : VersionRow → VersionRow → Bool
  chronicle_le v u =
      if same_time v.published_at u.published_at
      then k.collate u.version v.version
      else desc_nulls_last v.published_at u.published_at

  unfoldable pub chronicle_rows : String → Database → List VersionRow
  chronicle_rows app_id db =
      order_by chronicle_le (keep (λ v. v.app_id == app_id && is_published v.status) db.versions)

  -- Chronicle
  unfoldable pub chronicle : String → Exec (List ChronicleEntry)
  unfolding chronicle_rows
  chronicle app_id = query (λ db. map entry_of (chronicle_rows app_id db))
