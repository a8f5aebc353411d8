-- ===== src/Registry/Decisions.antt =====
-- DecideVersion of modules/registry/store.go: publishing, rejecting or yanking a version, in one
-- transaction with the record of the decision; and ReviewHistory.
pub mod Written
pub mod Recorded
pub mod Effects
pub mod Publication
use appstore_gerege_nexus.Prelude.{
  ℕ, String, Bool, true, false, List, [], ◌∷◌, Option, none, some, ◌==◌, leb, keep, first, any,
  amend, if◌then◌else◌,
}
use appstore_gerege_nexus.Tables.{
  Time, Json, Database, Status, published, rejected, yanked, VersionRow, AppRow, ReviewEvent,
}
use appstore_gerege_nexus.Contract.{Contract}
use appstore_gerege_nexus.Sorting.{order_by}
use appstore_gerege_nexus.World.{
  Exec, Result, ok, err, not_found, failure, statement, query, execute, pure, raise, transaction,
  ◌>>=◌, ◌>>◌,
}
use appstore_gerege_nexus.Registry.Platforms.{null_if_empty}
use appstore_gerege_nexus.Registry.Build.{is_published}
use appstore_gerege_nexus.Registry.Cache.{bump_revision}
use appstore_gerege_nexus.Registry.Submissions.{new_event, add_event}

-- The status that an action leads to; `none` is the unknown action.
unfoldable pub status_for : String → Option Status
status_for action =
    if action == "publish"
    then some published
    else if action == "reject"
    then some rejected
    else if action == "yank"
    then some yanked
    else none

abbrev pub decide_row : Status → String → Time → VersionRow → VersionRow
decide_row status note now v = record v {
  status = status;
  review_note = note;
  published_at = if is_published status then some now else v.published_at;
}

-- UPDATE store_app_versions … WHERE id: no row is ErrNotFound.
unfoldable pub update_version :
    Status → String → String → Time → Database → Result (Unit {0} × Database)
update_version status note version_id now db =
    if any (λ v. v.id == version_id) db.versions
    then ok (
      tt,
      record db {
        versions = amend (λ v. v.id == version_id) (decide_row status note now) db.versions;
      },
    )
    else err not_found

-- COALESCE(x, d)
abbrev pub coalesce : Option String → String → String
coalesce none d = d
coalesce (some x) d = x

module _ (k : Contract) where
  abbrev pub take_provenance : Json → String → Time → AppRow → AppRow
  take_provenance manifest actor_id now a = record a {
    authors = coalesce (k.json_get manifest "authors") "[]";
    maintainers = coalesce (k.json_get manifest "maintainers") "[]";
    repository = coalesce (k.json_text manifest "repository") "";
    homepage = coalesce (k.json_text manifest "homepage") "";
    license = coalesce (k.json_text manifest "license") "";
    updated_by = null_if_empty actor_id;
    updated_at = now;
  }

  abbrev pub provenance_from : Option VersionRow → String → Time → Database → Database
  provenance_from none actor_id now db = db
  provenance_from (some v) actor_id now db = record db {
    apps = amend (λ a. a.id == v.app_id) (take_provenance v.manifest actor_id now) db.apps;
  }

  -- UPDATE store_apps … FROM store_app_versions
  unfoldable pub update_provenance : String → String → Time → Database → Database
  update_provenance version_id actor_id now db =
      provenance_from (first (λ v. v.id == version_id) db.versions) actor_id now db

  unfoldable pub publish_provenance : Status → String → String → Time → Exec (Unit {0})
  unfolding update_provenance
  publish_provenance status version_id actor_id now =
      if is_published status then execute (update_provenance version_id actor_id now) else pure tt

  unfoldable pub decide_body :
      Status → (version_id action actor_id actor note : String) → Time → Exec (Unit {0})
  unfolding update_version publish_provenance add_event bump_revision
  decide_body status version_id action actor_id actor note now = do
    statement (update_version status note version_id now)
    publish_provenance status version_id actor_id now
    execute (add_event (new_event version_id (null_if_empty actor_id) actor action note now))
    bump_revision

  unfoldable pub decide_status :
      Option Status → (version_id action actor_id actor note : String) → Time → Exec (Unit {0})
  unfolding decide_body transaction
  decide_status none version_id action actor_id actor note now =
      raise (failure "unknown review action")
  decide_status (some status) version_id action actor_id actor note now =
      transaction (decide_body status version_id action actor_id actor note now)

  -- DecideVersion
  unfoldable pub decide_version :
      (version_id action actor_id actor note : String) (now : Time) → Exec (Unit {0})
  unfolding decide_status status_for
  decide_version version_id action actor_id actor note now =
      decide_status (status_for action) version_id action actor_id actor note now

-- ReviewHistory
unfoldable pub review_history : String → Exec (List ReviewEvent)
review_history version_id = query λ db.
    order_by (λ e f. leb e.created_at f.created_at)
      (keep (λ e. e.version_id == version_id) db.events)
