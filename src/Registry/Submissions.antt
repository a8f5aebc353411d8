-- ===== src/Registry/Submissions.antt =====
-- Submitting a version for review, of modules/registry/store.go: SubmitManifest with its checks,
-- ExternalFromManifest, and the transaction of SubmitVersion.
pub mod Effects
pub mod Returned
use appstore_gerege_nexus.Prelude.{
  ℕ, String, Bool, true, false, not, ◌&&◌, ◌||◌, List, [], ◌∷◌, ◌++◌, Option, none, some, ◌==◌, any,
  if◌then◌else◌,
}
use appstore_gerege_nexus.Tables.{
  Time, Json, Database, Status, in_review, VersionRow, ExternalRegistration, ReviewEvent,
}
use appstore_gerege_nexus.Contract.{Contract, Manifest, ExternalSpec, type_external}
use appstore_gerege_nexus.World.{
  Exec, Result, ok, err, conflict, invalid_submission, failure, statement, execute, pure, raise,
  lift, transaction, ◌>>=◌, ◌>>◌,
}
use appstore_gerege_nexus.Registry.Apps.{App}
use appstore_gerege_nexus.Registry.Versions.{Version, version_by_id}

-- A Go `any`: nothing at all, or a value of some type with what json.Marshal makes of it.
pub data Any : Type 0 where
  untyped_nil : Any
  value : Option Json → Any

-- A pointer as an `any`: a nil pointer is a value too, and its JSON is "null".
abbrev pub pointer : Option Json → Any
pointer none = value (some "null")
pointer (some j) = value (some j)

-- jsonOrNull
unfoldable pub json_or_null : Any → Option Json
json_or_null untyped_nil = none
json_or_null (value raw) = raw

-- jsonOrDefault
unfoldable pub json_or_default : Option Json → Json → Json
json_or_default none fallback = fallback
json_or_default (some raw) fallback = if raw == "null" then fallback else raw

-- INSERT … ON CONFLICT (app_id) DO UPDATE, which leaves webhook_url as it is.
unfoldable pub put_external :
    ExternalRegistration → List ExternalRegistration → List ExternalRegistration
put_external row [] = row ∷ []
put_external row (e ∷ rows) =
    let rest = put_external row rows in
    if e.app_id == row.app_id then record row { webhook_url = e.webhook_url } ∷ rows else e ∷ rest

unfoldable pub save_external : Option ExternalRegistration → Exec (Unit {0})
unfolding put_external
save_external none = pure tt
save_external (some e) = execute (λ db. record db { externals = put_external e db.externals })

abbrev pub is_release : String → String → VersionRow → Bool
is_release app_id version v = v.app_id == app_id && v.version == version

-- The INSERT of SubmitVersion: a number that the app has used is ErrConflict, and so is an
-- identifier that another row has, by the primary key.
unfoldable pub insert_version : VersionRow → Database → Result (Unit {0} × Database)
insert_version row db =
    if any (is_release row.app_id row.version) db.versions
    then err conflict
    else if any (λ v. v.id == row.id) db.versions
    then err conflict
    else ok (tt, record db { versions = db.versions ++ row ∷ [] })

-- What SubmitManifest hands to SubmitVersion.
pub record Submission : Type 0 where
  pub app_id : String
  pub version : String
  pub channel : String
  pub min_platform : String
  pub manifest : Manifest
  pub status : Status
  pub submitted_by : String

-- ExternalFromManifest
abbrev pub registration : String → ExternalSpec → ExternalRegistration
registration app_id e = record {
  app_id = app_id;
  launch_url = e.launch_url;
  sso_client_id = e.sso_client_id;
  scopes = e.scopes;
  embed = if e.embed == "" then "new_tab" else e.embed;
  health_url = e.health_url;
  webhook_url = "";
}

abbrev pub registration_of : String → Option ExternalSpec → Option ExternalRegistration
registration_of app_id none = none
registration_of app_id (some e) = some (registration app_id e)

abbrev pub new_event : String → Option String → String → String → String → Time → ReviewEvent
new_event version_id actor_id actor action note now = record {
  version_id = version_id;
  actor_id = actor_id;
  actor = actor;
  action = action;
  note = note;
  created_at = now;
}

unfoldable pub add_event : ReviewEvent → Database → Database
add_event e db = record db { events = db.events ++ e ∷ [] }

module _ (k : Contract) where
  unfoldable pub external_from_manifest : String → Manifest → Option ExternalRegistration
  external_from_manifest app_id m =
      if k.is_external m then registration_of app_id m.external else none

  -- The row that the INSERT of SubmitVersion writes.
  unfoldable pub submitted_row : Submission → Json → String → Time → VersionRow
  unfolding json_or_null json_or_default
  submitted_row s manifest id now = record {
    id = id;
    app_id = s.app_id;
    version = s.version;
    channel = s.channel;
    min_platform = s.min_platform;
    manifest = manifest;
    status = s.status;
    submitted_by = s.submitted_by;
    review_note = "";
    published_at = none;
    created_at = now;
    release_notes = json_or_null (pointer s.manifest.release_notes);
    authors = json_or_default (k.encode_authors s.manifest.authors) "[]";
  }

  -- The transaction of SubmitVersion: a submission does not bump the revision.
  unfoldable pub submit_body :
      Submission → Json → Option ExternalRegistration → String → Time → Exec (Unit {0})
  unfolding submitted_row insert_version save_external add_event
  submit_body s manifest external id now = do
    statement (insert_version (submitted_row s manifest id now))
    save_external external
    execute (add_event (new_event id none s.submitted_by "submitted" "" now))

  unfoldable pub submit_encoded :
      Submission → Option Json → Option ExternalRegistration → String → Time → Exec Version
  unfolding submit_body transaction
  submit_encoded s none external id now = raise (failure "marshal manifest")
  submit_encoded s (some manifest) external id now = do
    transaction (submit_body s manifest external id now)
    version_by_id k id

  -- SubmitVersion; `id` is the identifier that the database makes.
  unfoldable pub submit_version :
      Submission → Option ExternalRegistration → (id : String) (now : Time) → Exec Version
  unfolding submit_encoded
  submit_version s external id now = submit_encoded s (k.encode_manifest s.manifest) external id now

  abbrev pub channel_or_stable : String → String
  channel_or_stable channel = if channel == "" then "stable" else channel

  abbrev same : Bool → Bool → Bool
  same true b = b
  same false b = not b

  -- Why SubmitManifest refuses, in the order of its checks.
  unfoldable pub refusal : App → String → Manifest → Option String
  refusal app channel m =
      if not (channel == "stable") && not (channel == "beta")
      then some "channel must be \"stable\" or \"beta\""
      else if not (m.id == app.id)
      then some "the manifest id must match the app id"
      else if not (same (m.manifest_type == type_external) (app.app_type == type_external))
      then some "the manifest type must match the app type"
      else k.validate_manifest m ""

  abbrev pub submission_of : App → String → Manifest → String → Submission
  submission_of app channel m submitted_by = record {
    app_id = app.id;
    version = m.version;
    channel = channel;
    min_platform = if m.platform == "" then ">=0.1.0" else m.platform;
    manifest = m;
    status = in_review;
    submitted_by = submitted_by;
  }

  unfoldable pub submit_checked :
      App → String → Manifest → String → String → Time → Option String → Exec Version
  unfolding submit_version external_from_manifest
  submit_checked app channel m submitted_by id now (some reason) = raise (invalid_submission reason)
  submit_checked app channel m submitted_by id now none =
      submit_version (submission_of app channel m submitted_by) (external_from_manifest app.id m) id
        now

  -- SubmitManifest
  unfoldable pub submit_manifest :
      App
      → (channel : String) → Manifest
      → (submitted_by : String) (id : String) (now : Time) → Exec Version
  unfolding submit_checked refusal
  submit_manifest app asked m submitted_by id now =
      let channel = channel_or_stable asked in
      submit_checked app channel m submitted_by id now (refusal app channel m)
