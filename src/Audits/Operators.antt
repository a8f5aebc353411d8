-- ===== src/Audits/Operators.antt =====
-- What the registry's operator endpoints tell nexus.Audit.
use appstore_gerege_nexus.Prelude.{
  String, Bool, true, false, List, [], ◌∷◌, ◌++◌, ap, Option, none, some, refl, ◌==◌,
}
use appstore_gerege_nexus.Text.{trim_space}
use appstore_gerege_nexus.Tables.{Time}
use appstore_gerege_nexus.Contract.{Contract}
use appstore_gerege_nexus.World.{
  Error, not_found, conflict, invalid_submission, failure, Exec, Audit, Caller, ignore, attempt,
  problem,
}
use appstore_gerege_nexus.World.Silent.{Silent, ignore-Silent}
use appstore_gerege_nexus.Registry.Platforms.{
  create_platform, set_platform_enabled, discard_private_snapshots, grant, revoke,
}
use appstore_gerege_nexus.Registry.Apps.{app_by_id}
use appstore_gerege_nexus.Registry.Operators.{
  actor, platform_audit, enabled_text, PlatformBody, Access, Decision, grant_load_failed,
  access_failed, decide_access, handle_create_platform, handle_set_platform_enabled, handle_grant,
  handle_revoke,
}
use appstore_gerege_nexus.Audits.{Tells, Audited, attempt-Audited, if-Audited}
use appstore_gerege_nexus.Audits.Store.{
  app_by_id-Silent, create_platform-Silent, set_platform_enabled-Silent, grant-Silent,
  revoke-Silent, discard_private-Silent,
}

access_failed-Tells :
    (A : Type 0) (who : String) (e : Error) (before : List Audit)
    → Tells who {A = A} (access_failed e) before before
access_failed-Tells A who not_found before = refl
access_failed-Tells A who conflict before = refl
access_failed-Tells A who (invalid_submission s) before = refl
access_failed-Tells A who (failure s) before = refl

grant_load_failed-Tells :
    (A : Type 0) (who : String) (e : Error) (before : List Audit)
    → Tells who {A = A} (grant_load_failed e) before before
grant_load_failed-Tells A who not_found before = refl
grant_load_failed-Tells A who conflict before = refl
grant_load_failed-Tells A who (invalid_submission s) before = refl
grant_load_failed-Tells A who (failure s) before = refl

decide_access-Audited :
    (caller : Caller) (decision : Exec (Unit {0})) (platform_id app_id action failed : String)
    (granted : Bool)
    → Silent decision
    → Audited
        (actor caller)
        (decide_access caller decision platform_id app_id action failed granted)
decide_access-Audited caller decision platform_id app_id action failed granted silent =
    attempt-Audited (actor caller) decision (λ e. problem 500 failed) _ silent (λ e before. refl)
      (λ u.
        attempt-Audited (actor caller) {A = Unit {0}} {B = Decision}
          (ignore (discard_private_snapshots platform_id)) (λ e. problem 500 failed) _
          (ignore-Silent (discard_private_snapshots platform_id)
            (discard_private-Silent platform_id))
          (λ e before. refl) (λ v w. (_, refl, refl)))

handle_create_platform-Audited :
    (k : Contract) (caller : Caller) (body : Option PlatformBody) (minted : Option String)
    (id : String) (now : Time)
    → Audited (actor caller) (handle_create_platform k caller body minted id now)
unfolding handle_create_platform
handle_create_platform-Audited k caller none minted id now = λ w. refl
handle_create_platform-Audited k caller (some body) minted id now =
    if-Audited (actor caller) (trim_space body.name == "") _ _ (λ w. refl)
      (attempt-Audited (actor caller)
        (create_platform k body.name body.origin body.note (actor caller) minted id now)
        (λ e. problem 500 "could not register the platform") _
        (create_platform-Silent k body.name body.origin body.note (actor caller) minted id now)
        (λ e before. refl) (λ issued w. (_, refl, refl)))

handle_set_platform_enabled-Audited :
    (caller : Caller) (id : String) (on : Option Bool) (now : Time)
    → Audited (actor caller) (handle_set_platform_enabled caller id on now)
unfolding handle_set_platform_enabled attempt ignore
handle_set_platform_enabled-Audited caller id none now = λ w. refl
handle_set_platform_enabled-Audited caller id (some on) now =
    attempt-Audited (actor caller) (set_platform_enabled id on now) access_failed _
      (set_platform_enabled-Silent id on now) (access_failed-Tells Access (actor caller))
      (λ u w. (entry, refl, ap (λ (b : List Audit). b ++ entry ∷ []) (discard_private-Silent id w)))
  where
    entry : Audit
    entry =
        platform_audit caller "appstore.platform_access_changed"
          (("platform_id", id) ∷ ("enabled", enabled_text on) ∷ [])

handle_grant-Audited :
    (caller : Caller) (platform_id app_id : String) (now : Time)
    → Audited (actor caller) (handle_grant caller platform_id app_id now)
unfolding handle_grant
handle_grant-Audited caller platform_id app_id now =
    attempt-Audited (actor caller) (app_by_id app_id) grant_load_failed _ (app_by_id-Silent app_id)
      (grant_load_failed-Tells Decision (actor caller))
      (λ a.
        if-Audited (actor caller) (a.visibility == "private") _ _
          (decide_access-Audited caller (grant app_id platform_id (actor caller) now) platform_id
            app_id "appstore.app_granted" "could not grant the app" true
            (grant-Silent app_id platform_id (actor caller) now))
          (λ w. refl))

handle_revoke-Audited :
    (caller : Caller) (platform_id app_id : String)
    → Audited (actor caller) (handle_revoke caller platform_id app_id)
unfolding handle_revoke
handle_revoke-Audited caller platform_id app_id =
    decide_access-Audited caller (revoke app_id platform_id) platform_id app_id
      "appstore.app_revoked" "could not revoke the app" false (revoke-Silent app_id platform_id)

-- Whatever an operator asks, whichever statements fail: registering a platform, enabling or
-- disabling one, granting an app and revoking it each tell the audit one entry, in the operator's
-- name, if they answer with a document, and nothing if they answer otherwise.
pub operators-Audited :
    (k : Contract) (caller : Caller) (body : Option PlatformBody) (minted : Option String)
    (id : String) (on : Option Bool) (platform_id app_id : String) (now : Time)
    → Audited (actor caller) (handle_create_platform k caller body minted id now)
      × Audited (actor caller) (handle_set_platform_enabled caller platform_id on now)
      × Audited (actor caller) (handle_grant caller platform_id app_id now)
      × Audited (actor caller) (handle_revoke caller platform_id app_id)
operators-Audited k caller body minted id on platform_id app_id now = (
  handle_create_platform-Audited k caller body minted id now,
  handle_set_platform_enabled-Audited caller platform_id on now,
  handle_grant-Audited caller platform_id app_id now,
  handle_revoke-Audited caller platform_id app_id,
)
