-- ===== src/Publisher.antt =====
-- modules/publisher/publisher.go: a tenant's publishing profile, its apps and its submissions.
pub mod Access
pub mod Registration
use appstore_gerege_nexus.Prelude.{
  String, Bool, true, false, not, ◌&&◌, ◌||◌, List, [], ◌∷◌, Option, none, some, ◌==◌,
  if◌then◌else◌,
}
use appstore_gerege_nexus.Text.{trim_space, to_lower}
use appstore_gerege_nexus.Tables.{Time, AppText}
use appstore_gerege_nexus.Tables as Tables
use appstore_gerege_nexus.Contract.{
  Contract, Manifest, type_module, type_external, visibility_public, visibility_private,
}
use appstore_gerege_nexus.World.{
  Error, not_found, conflict, invalid_submission, failure, Audit, Caller, Claims, Reply, json,
  problem, Handler, respond, audit, attempt, require_tenant, require_user,
}
use appstore_gerege_nexus.Registry.Publishers.{Profile, publisher_by_tenant, upsert_publisher}
use appstore_gerege_nexus.Registry.Apps.{App, app_by_slug, list_apps, upsert_app}
use appstore_gerege_nexus.Registry.Versions.{Version, list_versions}
use appstore_gerege_nexus.Registry.Submissions.{submit_manifest}

pub record ProfileBody : Type 0 where
  pub slug : String
  pub name : String
  pub contact_email : String

pub record AppBody : Type 0 where
  pub id : String
  pub slug : String
  pub app_type : String
  pub name : String
  pub description : String
  pub icon_url : String
  pub category : String
  pub visibility : String
  pub texts : List (String × AppText)

pub record VersionBody : Type 0 where
  pub channel : String
  pub manifest : Manifest

abbrev pub profile_failed : {A : Type 0} → Error → Reply A
profile_failed not_found = problem 404 "this organisation has no publishing profile yet"
profile_failed _ = problem 500 "could not load the publishing profile"

abbrev pub save_failed : {A : Type 0} → Error → Reply A
save_failed conflict = problem 409 "another organisation already publishes under that handle"
save_failed _ = problem 500 "could not save the publishing profile"

abbrev pub app_failed : {A : Type 0} → Error → Reply A
app_failed conflict = problem 409 "that app id belongs to another publisher"
app_failed _ = problem 500 "could not save the app"

abbrev pub submit_failed : {A : Type 0} → Error → Reply A
submit_failed (invalid_submission reason) = problem 400 reason
submit_failed conflict =
    problem 409
      "that version already exists; a published version is immutable, so submit a new number"
submit_failed _ = problem 500 "could not submit the version"

-- publisherFor
unfoldable pub publisher_for :
    {A : Type 0} → Caller → (Tables.Publisher → String → Handler A) → Handler A
unfolding attempt publisher_by_tenant
publisher_for caller next = require_tenant caller λ tenant_id.
    attempt (publisher_by_tenant tenant_id) (λ e. respond (profile_failed e))
      λ publisher. next publisher tenant_id

-- handleProfile
unfoldable pub handle_profile : Caller → Handler Tables.Publisher
unfolding publisher_for
handle_profile caller = publisher_for caller λ publisher tenant_id. respond (json 200 publisher)

abbrev pub owner_check : {A : Type 0} → Tables.Publisher → App → (App → Handler A) → Handler A
owner_check publisher app next =
    if app.publisher_id == publisher.id then next app else respond (problem 404 "app not found")

-- ownApp: whatever the query answers other than one of the caller's own apps is 404.
unfoldable pub own_app :
    {A : Type 0} → Caller → (slug : String) → (App → String → Handler A) → Handler A
unfolding publisher_for attempt app_by_slug
own_app caller slug next = publisher_for caller λ publisher tenant_id.
    attempt (app_by_slug slug) (λ e. respond (problem 404 "app not found"))
      λ app. owner_check publisher app (λ own. next own tenant_id)

-- The body of handleUpsertApp once the empty fields have their defaults.
abbrev pub or_default : String → String → String
or_default s d = if s == "" then d else s

abbrev pub with_defaults : AppBody → AppBody
with_defaults b = record b {
  app_type = or_default b.app_type type_module;
  visibility = or_default b.visibility visibility_public;
  category = or_default b.category "General";
}

abbrev pub app_from : AppBody → String → String → App
app_from b publisher_id user_id = record {
  id = b.id;
  publisher_id = publisher_id;
  slug = b.slug;
  app_type = b.app_type;
  name = trim_space b.name;
  description = b.description;
  icon_url = b.icon_url;
  category = b.category;
  visibility = b.visibility;
  created_at = 0;
  updated_at = 0;
  publisher_name = "";
  latest_version = "";
  authors = "";
  maintainers = "";
  repository = "";
  homepage = "";
  license = "";
  created_by = user_id;
  updated_by = user_id;
}

module _ (k : Contract) where
  abbrev pub cleaned : ProfileBody → ProfileBody
  cleaned b = record {
    slug = to_lower k.lower (trim_space b.slug);
    name = trim_space b.name;
    contact_email = trim_space b.contact_email;
  }

  abbrev pub save_profile : String → Claims → ProfileBody → String → Time → Handler Tables.Publisher
  save_profile tenant_id claims b id now =
      if not (k.is_valid_slug b.slug)
      then respond
          (problem 400 "the publisher handle must be a slug: lowercase letters, digits and dashes")
      else if b.name == ""
      then respond (problem 400 "a publisher name is required")
      else attempt
          (upsert_publisher
            (record {
              tenant_id = tenant_id;
              slug = b.slug;
              name = b.name;
              contact_email = b.contact_email;
            })
            id now)
          (λ e. respond (save_failed e))
          λ saved.
            audit
              (record {
                tenant_id = tenant_id;
                actor = claims.user_id;
                action = "publisher.profile_saved";
                resource = "publisher";
                details = ("slug", saved.slug) ∷ [];
              })
              (respond (json 200 saved))

  abbrev pub save_decoded :
      String → Claims → Option ProfileBody → String → Time → Handler Tables.Publisher
  save_decoded tenant_id claims none id now = respond (problem 400 "malformed request body")
  save_decoded tenant_id claims (some body) id now =
      save_profile tenant_id claims (cleaned body) id now

  -- handleSaveProfile
  unfoldable pub handle_save_profile :
      Caller → Option ProfileBody → (id : String) (now : Time) → Handler Tables.Publisher
  unfolding attempt upsert_publisher
  handle_save_profile caller body id now =
      require_tenant caller
        λ tenant_id. require_user caller λ claims. save_decoded tenant_id claims body id now

  -- handleListApps
  unfoldable pub handle_list_apps : Caller → Handler (List App)
  unfolding publisher_for attempt list_apps
  handle_list_apps caller = publisher_for caller λ publisher tenant_id.
      attempt (list_apps k publisher.id) (λ e. respond (problem 500 "could not load your apps"))
        λ apps. respond (json 200 apps)

  -- Why handleUpsertApp refuses a body, in the order of its checks.
  unfoldable pub app_refusal : AppBody → Option String
  app_refusal b =
      if b.id == "" || not (k.is_valid_slug b.slug) || trim_space b.name == ""
      then some "an app needs an id, a valid slug and a name"
      else let d = with_defaults b in
        if not (d.app_type == type_module) && not (d.app_type == type_external)
        then some "type must be \"module\" or \"external\""
        else if not (d.visibility == visibility_public) && not (d.visibility == visibility_private)
        then some "visibility must be \"public\" or \"private\""
        else none

  abbrev pub upsert_checked :
      Tables.Publisher → String → Claims → AppBody → Time → Option String → Handler App
  upsert_checked publisher tenant_id claims b now (some reason) = respond (problem 400 reason)
  upsert_checked publisher tenant_id claims b now none =
      let app = app_from (with_defaults b) publisher.id claims.user_id in
      attempt (upsert_app k app b.texts now) (λ e. respond (app_failed e))
        λ _.
          audit
            (record {
              tenant_id = tenant_id;
              actor = claims.user_id;
              action = "publisher.app_saved";
              resource = "store_app";
              details = ("app_id", b.id) ∷ [];
            })
            (respond (json 200 app))

  abbrev pub upsert_decoded :
      Tables.Publisher → String → Claims → Option AppBody → Time → Handler App
  upsert_decoded publisher tenant_id claims none now =
      respond (problem 400 "malformed request body")
  upsert_decoded publisher tenant_id claims (some b) now =
      upsert_checked publisher tenant_id claims b now (app_refusal b)

  -- handleUpsertApp
  unfoldable pub handle_upsert_app : Caller → Option AppBody → (now : Time) → Handler App
  unfolding publisher_for attempt upsert_app app_refusal
  handle_upsert_app caller body now = publisher_for caller λ publisher tenant_id.
      require_user caller λ claims. upsert_decoded publisher tenant_id claims body now

  -- handleListVersions
  unfoldable pub handle_list_versions : Caller → (slug : String) → Handler (List Version)
  unfolding own_app attempt list_versions
  handle_list_versions caller slug = own_app caller slug λ app tenant_id.
      attempt (list_versions k app.id false) (λ e. respond (problem 500 "could not load versions"))
        (λ versions. respond (json 200 versions))

  abbrev pub submit_decoded :
      App → String → Claims → Option VersionBody → String → Time → Handler Version
  submit_decoded app tenant_id claims none id now = respond (problem 400 "malformed request body")
  submit_decoded app tenant_id claims (some b) id now =
      attempt (submit_manifest k app b.channel b.manifest claims.email id now)
        (λ e. respond (submit_failed e))
        λ saved.
          audit
            (record {
              tenant_id = tenant_id;
              actor = claims.user_id;
              action = "publisher.version_submitted";
              resource = "store_app_version";
              details = ("app_id", app.id) ∷ ("version", saved.version) ∷ [];
            })
            (respond (json 201 saved))

  -- handleSubmitVersion
  unfoldable pub handle_submit_version :
      Caller → (slug : String) → Option VersionBody → (id : String) (now : Time) → Handler Version
  unfolding own_app attempt submit_manifest
  handle_submit_version caller slug body id now =
      own_app caller slug λ app tenant_id.
        require_user caller λ claims. submit_decoded app tenant_id claims body id now
