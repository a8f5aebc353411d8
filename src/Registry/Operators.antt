-- ===== src/Registry/Operators.antt =====
-- modules/registry/platform_handlers.go: registering a deployment, its credential, and the private
-- apps that it is granted. A body is `none` where the JSON decoder refuses it.
pub mod Revocation
use appstore_gerege_nexus.Prelude.{
  String, Bool, true, false, not, List, [], ◌∷◌, Option, none, some, ◌==◌, if◌then◌else◌,
}
use appstore_gerege_nexus.Text.{trim_space}
use appstore_gerege_nexus.Tables.{Time}
use appstore_gerege_nexus.Contract.{Contract}
use appstore_gerege_nexus.World.{
  Exec, Error, not_found, conflict, invalid_submission, failure, Audit, Caller, Claims, Reply, json,
  problem, Handler, respond, audit, attempt, ignore, ◌>>=◌, ◌>>◌,
}
use appstore_gerege_nexus.Registry.Platforms.{
  Platform, create_platform, list_platforms, set_platform_enabled, grant, revoke,
  discard_private_snapshots,
}
use appstore_gerege_nexus.Registry.Apps.{App, app_by_id}

abbrev pub user_of : Option Claims → String
user_of none = ""
user_of (some c) = c.user_id

-- actor
abbrev pub actor : Caller → String
actor caller = user_of caller.claims

abbrev pub platform_audit : Caller → String → List (String × String) → Audit
platform_audit caller action details = record {
  tenant_id = "";
  actor = actor caller;
  action = action;
  resource = "platform";
  details = details;
}

pub record PlatformBody : Type 0 where
  pub name : String
  pub origin : String
  pub note : String

-- The one answer that has a token in it.
pub record Issued : Type 0 where
  pub platform : Platform
  pub token : String

pub record Access : Type 0 where
  pub platform_id : String
  pub enabled : Bool

pub record Decision : Type 0 where
  pub platform_id : String
  pub app_id : String
  pub granted : Bool

abbrev pub grant_load_failed : {A : Type 0} → Error → Reply A
grant_load_failed not_found = problem 404 "app not found"
grant_load_failed _ = problem 500 "could not load the app"

abbrev pub access_failed : {A : Type 0} → Error → Reply A
access_failed not_found = problem 404 "platform not found"
access_failed _ = problem 500 "could not change the platform"

abbrev pub enabled_text : Bool → String
enabled_text true = "true"
enabled_text false = "false"

module _ (k : Contract) where
  -- handleListPlatforms
  unfoldable pub handle_list_platforms : Handler (List Platform)
  unfolding attempt list_platforms
  handle_list_platforms =
      attempt (list_platforms k) (λ e. respond (problem 500 "could not list platforms"))
        λ platforms. respond (json 200 platforms)

  -- handleCreatePlatform
  unfoldable pub handle_create_platform :
      Caller
      → Option PlatformBody
      → (minted : Option String) (id : String) (now : Time) → Handler Issued
  unfolding attempt create_platform
  handle_create_platform caller none minted id now = respond (problem 400 "invalid request body")
  handle_create_platform caller (some body) minted id now =
      if trim_space body.name == ""
      then respond (problem 400 "a platform needs a name")
      else attempt (create_platform k body.name body.origin body.note (actor caller) minted id now)
          (λ e. respond (problem 500 "could not register the platform"))
          λ issued.
            let (platform, token) = issued in
            audit
              (platform_audit caller "appstore.platform_registered"
                (("platform_id", platform.id) ∷ ("name", platform.name) ∷ []))
              (respond (json 201 (record { platform = platform; token = token })))

-- handleSetPlatformEnabled
unfoldable pub handle_set_platform_enabled :
    Caller → (id : String) → Option Bool → (now : Time) → Handler Access
unfolding attempt set_platform_enabled discard_private_snapshots ignore
handle_set_platform_enabled caller id none now = respond (problem 400 "invalid request body")
handle_set_platform_enabled caller id (some on) now =
    attempt (set_platform_enabled id on now) (λ e. respond (access_failed e))
      λ _.
        attempt (ignore (discard_private_snapshots id)) (λ e. respond (access_failed e))
          λ _.
            audit
              (platform_audit caller "appstore.platform_access_changed"
                (("platform_id", id) ∷ ("enabled", enabled_text on) ∷ []))
              (respond (json 200 (record { platform_id = id; enabled = on })))

-- The part of handleGrant behind the app's visibility, and that of handleRevoke: the decision,
-- the cached documents of that platform, the audit.
abbrev pub decide_access :
    Caller → Exec (Unit {0}) → String → String → (action failed : String) → Bool → Handler Decision
decide_access caller decision platform_id app_id action failed granted =
    attempt decision (λ e. respond (problem 500 failed))
      λ _.
        attempt (ignore (discard_private_snapshots platform_id)) (λ e. respond (problem 500 failed))
          λ _.
            audit
              (platform_audit caller action
                (("platform_id", platform_id) ∷ ("app_id", app_id) ∷ []))
              (respond (
                json 200
                  (record { platform_id = platform_id; app_id = app_id; granted = granted })))

-- handleGrant
unfoldable pub handle_grant :
    Caller → (platform_id app_id : String) → (now : Time) → Handler Decision
unfolding attempt app_by_id grant discard_private_snapshots ignore
handle_grant caller platform_id app_id now =
    attempt (app_by_id app_id) (λ e. respond (grant_load_failed e))
      λ app.
        if app.visibility == "private"
        then decide_access caller (grant app_id platform_id (actor caller) now) platform_id app_id
            "appstore.app_granted" "could not grant the app" true
        else respond (
            problem 400
              "only a private app is granted to a platform; this one is public and every platform already has it")

-- handleRevoke
unfoldable pub handle_revoke : Caller → (platform_id app_id : String) → Handler Decision
unfolding attempt revoke discard_private_snapshots ignore
handle_revoke caller platform_id app_id =
    decide_access caller (revoke app_id platform_id) platform_id app_id "appstore.app_revoked"
      "could not revoke the app" false
