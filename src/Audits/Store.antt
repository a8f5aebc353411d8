-- ===== src/Audits/Store.antt =====
-- Every operation of the store is silent.
use appstore_gerege_nexus.Prelude.{
  String, Bool, true, false, List, [], ◌∷◌, Option, none, some, ◌==◌,
}
use appstore_gerege_nexus.Text.{trim_space}
use appstore_gerege_nexus.Tables.{Time, AppText, Json, Status, ExternalRegistration}
use appstore_gerege_nexus.Contract.{Contract, Manifest}
use appstore_gerege_nexus.World.{Error, failure, conflict, invalid_submission}
use appstore_gerege_nexus.World.Silent.{
  Silent, statement-Silent, query-Silent, pure-Silent, lift-Silent, raise-Silent, execute-Silent,
  bind-Silent, if-Silent, transaction-Silent,
}
use appstore_gerege_nexus.Registry.Platforms.{
  Platform, insert_platform, create_platform, update_enabled, set_platform_enabled, grant,
  insert_grant, revoke, delete_grant, without_private, discard_private_snapshots,
}
use appstore_gerege_nexus.Registry.Publishers.{
  or_not_found, publisher_by_tenant, publisher_by_id, Profile, upsert_profile, upsert_publisher,
  update_verified, set_publisher_verified,
}
use appstore_gerege_nexus.Registry.Cache.{bump_revision}
use appstore_gerege_nexus.Registry.Apps.{
  App, app_by_id, app_by_slug, refuse_other, owned_by_other, upsert_row, save_texts, upsert_body,
  upsert_app,
}
use appstore_gerege_nexus.Registry.Versions.{Version, scan_version, version_by_id}
use appstore_gerege_nexus.Registry.Submissions.{
  Submission, save_external, add_event, insert_version, submit_body, submit_encoded, submit_version,
  submit_checked, submit_manifest, submission_of, channel_or_stable, refusal,
  external_from_manifest,
}
use appstore_gerege_nexus.Registry.Decisions.{
  update_version, publish_provenance, decide_body, decide_status, decide_version, status_for,
}
use appstore_gerege_nexus.Registry.Build.{is_published}

or_not_found-Silent : {A : Type 0} (row : Option A) → Silent (or_not_found row)
unfolding or_not_found
or_not_found-Silent none = raise-Silent _ Error.not_found
or_not_found-Silent (some a) = pure-Silent a

pub app_by_id-Silent : (id : String) → Silent (app_by_id id)
unfolding app_by_id
app_by_id-Silent id = bind-Silent _ _ (query-Silent _) or_not_found-Silent

pub app_by_slug-Silent : (slug : String) → Silent (app_by_slug slug)
unfolding app_by_slug
app_by_slug-Silent slug = bind-Silent _ _ (query-Silent _) or_not_found-Silent

pub publisher_by_tenant-Silent : (tenant_id : String) → Silent (publisher_by_tenant tenant_id)
unfolding publisher_by_tenant
publisher_by_tenant-Silent tenant_id = bind-Silent _ _ (query-Silent _) or_not_found-Silent

publisher_by_id-Silent : (id : String) → Silent (publisher_by_id id)
unfolding publisher_by_id
publisher_by_id-Silent id = bind-Silent _ _ (query-Silent _) or_not_found-Silent

pub set_platform_enabled-Silent :
    (id : String) (on : Bool) (now : Time) → Silent (set_platform_enabled id on now)
unfolding set_platform_enabled
set_platform_enabled-Silent id on now = statement-Silent (update_enabled id on now)

pub grant-Silent :
    (app_id platform_id actor : String) (now : Time) → Silent (grant app_id platform_id actor now)
unfolding grant
grant-Silent app_id platform_id actor now = statement-Silent (insert_grant _)

pub revoke-Silent : (app_id platform_id : String) → Silent (revoke app_id platform_id)
unfolding revoke
revoke-Silent app_id platform_id = execute-Silent (delete_grant app_id platform_id)

pub discard_private-Silent : (id : String) → Silent (discard_private_snapshots id)
unfolding discard_private_snapshots
discard_private-Silent id = execute-Silent (without_private id)

pub upsert_publisher-Silent :
    (p : Profile) (id : String) (now : Time) → Silent (upsert_publisher p id now)
unfolding upsert_publisher
upsert_publisher-Silent p id now =
    bind-Silent _ _ (statement-Silent (upsert_profile p id now)) publisher_by_id-Silent

pub set_publisher_verified-Silent :
    (id : String) (on : Bool) (actor : String) (now : Time)
    → Silent (set_publisher_verified id on actor now)
unfolding set_publisher_verified
set_publisher_verified-Silent id on actor now = statement-Silent (update_verified id on actor now)

save_texts-Silent :
    (app_id : String) (texts : List (String × AppText)) → Silent (save_texts app_id texts)
unfolding save_texts
save_texts-Silent app_id [] = pure-Silent tt
save_texts-Silent app_id ((locale, text) ∷ rest) =
    bind-Silent _ _ (execute-Silent _) (λ u. save_texts-Silent app_id rest)

bump_revision-Silent : Silent bump_revision
unfolding bump_revision
bump_revision-Silent = execute-Silent _

save_external-Silent : (e : Option ExternalRegistration) → Silent (save_external e)
unfolding save_external
save_external-Silent none = pure-Silent tt
save_external-Silent (some e) = execute-Silent _

refuse_other-Silent : (b : Bool) → Silent (refuse_other b)
refuse_other-Silent true = raise-Silent (Unit {0}) conflict
refuse_other-Silent false = pure-Silent tt

module _ (k : Contract) where
  pub create_platform-Silent :
      (name origin note actor : String) (minted : Option String) (id : String) (now : Time)
      → Silent (create_platform k name origin note actor minted id now)
  unfolding create_platform
  create_platform-Silent name origin note actor none id now =
      if-Silent (trim_space name == "") _ _
        (raise-Silent (Platform × String) (failure "a platform needs a name"))
        (raise-Silent (Platform × String) (failure "rand"))
  create_platform-Silent name origin note actor (some token) id now =
      if-Silent (trim_space name == "") _ _
        (raise-Silent (Platform × String) (failure "a platform needs a name"))
        (bind-Silent _ _ (statement-Silent (insert_platform k _)) (λ p. pure-Silent (p, token)))

  pub upsert_app-Silent :
      (a : App) (texts : List (String × AppText)) (now : Time) → Silent (upsert_app k a texts now)
  unfolding upsert_app upsert_body
  upsert_app-Silent a texts now = transaction-Silent (upsert_body k a texts now) (
      bind-Silent _ _ (query-Silent _) (λ owner.
        bind-Silent _ _ (refuse_other-Silent (owned_by_other a.publisher_id owner)) (λ u.
          bind-Silent _ _ (statement-Silent (upsert_row k a now))
            (λ v. bind-Silent _ _ (save_texts-Silent a.id texts) (λ x. bump_revision-Silent)))))

  version_by_id-Silent : (id : String) → Silent (version_by_id k id)
  unfolding version_by_id
  version_by_id-Silent id =
      bind-Silent _ _ (query-Silent _)
        (λ row. bind-Silent _ _ (or_not_found-Silent row) (λ v. lift-Silent (scan_version k v)))

  submit_encoded-Silent :
      (s : Submission) (encoded : Option Json) (external : Option ExternalRegistration)
      (id : String) (now : Time)
      → Silent (submit_encoded k s encoded external id now)
  unfolding submit_encoded submit_body
  submit_encoded-Silent s none external id now = raise-Silent Version (failure "marshal manifest")
  submit_encoded-Silent s (some manifest) external id now =
      bind-Silent _ _
        (transaction-Silent (submit_body k s manifest external id now) (
          bind-Silent _ _ (statement-Silent (insert_version _)) (λ u.
            bind-Silent _ _ (save_external-Silent external) (λ v. execute-Silent (add_event _)))))
        (λ u. version_by_id-Silent id)

  pub submit_manifest-Silent :
      (app : App) (channel : String) (m : Manifest) (submitted_by id : String) (now : Time)
      → Silent (submit_manifest k app channel m submitted_by id now)
  unfolding submit_manifest submit_checked submit_version
  submit_manifest-Silent app asked m submitted_by id now = by_refusal (refusal k app channel m)
    where
      channel : String
      channel = channel_or_stable k asked

      by_refusal :
          (reason : Option String)
          → Silent (submit_checked k app channel m submitted_by id now reason)
      by_refusal (some reason) = raise-Silent Version (invalid_submission reason)
      by_refusal none =
          submit_encoded-Silent (submission_of k app channel m submitted_by) (k.encode_manifest m)
            (external_from_manifest k app.id m) id now

  decide_status-Silent :
      (status : Option Status) (id action actor_id actor note : String) (now : Time)
      → Silent (decide_status k status id action actor_id actor note now)
  unfolding decide_status decide_body publish_provenance
  decide_status-Silent none id action actor_id actor note now =
      raise-Silent (Unit {0}) (failure "unknown review action")
  decide_status-Silent (some status) id action actor_id actor note now =
      transaction-Silent (decide_body k status id action actor_id actor note now) (
        bind-Silent _ _ (statement-Silent (update_version status note id now)) (λ u.
          bind-Silent _ _ (if-Silent (is_published status) _ _ (execute-Silent _) (pure-Silent tt))
            (λ v. bind-Silent _ _ (execute-Silent (add_event _)) (λ x. bump_revision-Silent))))

  pub decide_version-Silent :
      (id action actor_id actor note : String) (now : Time)
      → Silent (decide_version k id action actor_id actor note now)
  unfolding decide_version
  decide_version-Silent id action actor_id actor note now =
      decide_status-Silent (status_for action) id action actor_id actor note now
