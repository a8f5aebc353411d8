-- ===== src/Audits/Tenants.antt =====
-- What the publisher and the review module tell nexus.Audit.
use appstore_gerege_nexus.Prelude.{String, Bool, not, ◌&&◌, List, Option, none, some, refl, ◌==◌}
use appstore_gerege_nexus.Text.{trim_space}
use appstore_gerege_nexus.Tables.{Time, Publisher}
use appstore_gerege_nexus.Contract.{Contract}
use appstore_gerege_nexus.World.{
  Error, not_found, conflict, invalid_submission, failure, Reply, Audit, Handler, Caller, Claims,
  problem,
}
use appstore_gerege_nexus.Registry.Publishers.{
  publisher_by_tenant, upsert_publisher, set_publisher_verified,
}
use appstore_gerege_nexus.Registry.Apps.{App, app_by_slug, upsert_app}
use appstore_gerege_nexus.Registry.Versions.{Version}
use appstore_gerege_nexus.Registry.Submissions.{submit_manifest}
use appstore_gerege_nexus.Registry.Decisions.{decide_version}
use appstore_gerege_nexus.Registry.Operators.{actor}
use appstore_gerege_nexus.Publisher.{
  ProfileBody, AppBody, VersionBody, profile_failed, save_failed, app_failed, submit_failed,
  publisher_for, own_app, cleaned, app_from, with_defaults, app_refusal, upsert_checked,
  handle_save_profile, handle_upsert_app, handle_submit_version,
}
use appstore_gerege_nexus.Review.{
  DecisionBody, known_action, decision_failed, verify_failed, handle_decision,
  handle_verify_publisher,
}
use appstore_gerege_nexus.Audits.{
  Tells, Audited, attempt-Audited, if-Audited, require_tenant-Audited, require_user-Audited,
}
use appstore_gerege_nexus.Audits.Store.{
  publisher_by_tenant-Silent, app_by_slug-Silent, upsert_publisher-Silent, upsert_app-Silent,
  submit_manifest-Silent, decide_version-Silent, set_publisher_verified-Silent,
}

-- A table of refusals has no document in it.
abbrev Refuses : {A : Type 0} → (Error → Reply A) → Type 0
Refuses bad = (who : String) (e : Error) (before : List Audit) → Tells who (bad e) before before

profile_failed-Refuses : (A : Type 0) → Refuses {A = A} profile_failed
profile_failed-Refuses A who not_found before = refl
profile_failed-Refuses A who conflict before = refl
profile_failed-Refuses A who (invalid_submission s) before = refl
profile_failed-Refuses A who (failure s) before = refl

save_failed-Refuses : Refuses {A = Publisher} save_failed
save_failed-Refuses who not_found before = refl
save_failed-Refuses who conflict before = refl
save_failed-Refuses who (invalid_submission s) before = refl
save_failed-Refuses who (failure s) before = refl

app_failed-Refuses : Refuses {A = App} app_failed
app_failed-Refuses who not_found before = refl
app_failed-Refuses who conflict before = refl
app_failed-Refuses who (invalid_submission s) before = refl
app_failed-Refuses who (failure s) before = refl

submit_failed-Refuses : Refuses {A = Version} submit_failed
submit_failed-Refuses who not_found before = refl
submit_failed-Refuses who conflict before = refl
submit_failed-Refuses who (invalid_submission s) before = refl
submit_failed-Refuses who (failure s) before = refl

decision_failed-Refuses : Refuses {A = String} decision_failed
decision_failed-Refuses who not_found before = refl
decision_failed-Refuses who conflict before = refl
decision_failed-Refuses who (invalid_submission s) before = refl
decision_failed-Refuses who (failure s) before = refl

verify_failed-Refuses : Refuses {A = Bool} verify_failed
verify_failed-Refuses who not_found before = refl
verify_failed-Refuses who conflict before = refl
verify_failed-Refuses who (invalid_submission s) before = refl
verify_failed-Refuses who (failure s) before = refl

publisher_for-Audited :
    {A : Type 0} (who : String) (caller : Caller) (next : Publisher → String → Handler A)
    → ((p : Publisher) (tenant_id : String) → Audited who (next p tenant_id))
    → Audited who (publisher_for caller next)
unfolding publisher_for
publisher_for-Audited {A} who caller next told = require_tenant-Audited who caller _ (λ tenant_id.
    attempt-Audited who (publisher_by_tenant tenant_id) profile_failed _
      (publisher_by_tenant-Silent tenant_id) (profile_failed-Refuses A who) (λ p. told p tenant_id))

own_app-Audited :
    {A : Type 0} (who : String) (caller : Caller) (slug : String) (next : App → String → Handler A)
    → ((a : App) (tenant_id : String) → Audited who (next a tenant_id))
    → Audited who (own_app caller slug next)
unfolding own_app
own_app-Audited who caller slug next told = publisher_for-Audited who caller _ (λ p tenant_id.
    attempt-Audited who (app_by_slug slug) (λ e. problem 404 "app not found") _
      (app_by_slug-Silent slug) (λ e before. refl)
      (λ a. if-Audited who (a.publisher_id == p.id) _ _ (told a tenant_id) (λ w. refl)))

module _ (k : Contract) (caller : Caller) (now : Time) where
  handle_save_profile-Audited :
      (body : Option ProfileBody) (id : String)
      → Audited (actor caller) (handle_save_profile k caller body id now)
  unfolding handle_save_profile
  handle_save_profile-Audited none id =
      require_tenant-Audited (actor caller) caller _
        (λ t. require_user-Audited caller _ (λ claims w. refl))
  handle_save_profile-Audited (some body) id = require_tenant-Audited (actor caller) caller _ (λ t.
      require_user-Audited caller _ (λ claims.
        let b = cleaned k body in
        if-Audited claims.user_id (not (k.is_valid_slug b.slug)) _ _ (λ w. refl)
          (if-Audited claims.user_id (b.name == "") _ _ (λ w. refl)
            (attempt-Audited claims.user_id (upsert_publisher _ id now) save_failed _
              (upsert_publisher-Silent _ id now) (save_failed-Refuses claims.user_id)
              (λ saved w. (_, refl, refl))))))

  upsert_checked-Audited :
      (p : Publisher) (tenant_id : String) (claims : Claims) (b : AppBody) (refusal : Option String)
      → Audited claims.user_id (upsert_checked k p tenant_id claims b now refusal)
  upsert_checked-Audited p tenant_id claims b (some reason) = λ w. refl
  upsert_checked-Audited p tenant_id claims b none =
      let a = app_from (with_defaults b) p.id claims.user_id in
      attempt-Audited claims.user_id (upsert_app k a b.texts now) app_failed _
        (upsert_app-Silent k a b.texts now) (app_failed-Refuses claims.user_id)
        (λ u w. (_, refl, refl))

  handle_upsert_app-Audited :
      (body : Option AppBody) → Audited (actor caller) (handle_upsert_app k caller body now)
  unfolding handle_upsert_app
  handle_upsert_app-Audited none =
      publisher_for-Audited (actor caller) caller _
        (λ p t. require_user-Audited caller _ (λ claims w. refl))
  handle_upsert_app-Audited (some b) = publisher_for-Audited (actor caller) caller _ (λ p t.
      require_user-Audited caller _
        (λ claims. upsert_checked-Audited p t claims b (app_refusal k b)))

  handle_submit_version-Audited :
      (slug : String) (body : Option VersionBody) (id : String)
      → Audited (actor caller) (handle_submit_version k caller slug body id now)
  unfolding handle_submit_version
  handle_submit_version-Audited slug none id =
      own_app-Audited (actor caller) caller slug _
        (λ a t. require_user-Audited caller _ (λ claims w. refl))
  handle_submit_version-Audited slug (some b) id =
      own_app-Audited (actor caller) caller slug _ (λ a t. require_user-Audited caller _ (λ claims.
        attempt-Audited claims.user_id
          (submit_manifest k a b.channel b.manifest claims.email id now) submit_failed _
          (submit_manifest-Silent k a b.channel b.manifest claims.email id now)
          (submit_failed-Refuses claims.user_id) (λ saved w. (_, refl, refl))))

  handle_decision-Audited :
      (id : String) (body : Option DecisionBody)
      → Audited (actor caller) (handle_decision k caller id body now)
  unfolding handle_decision
  handle_decision-Audited id none =
      require_tenant-Audited (actor caller) caller _
        (λ t. require_user-Audited caller _ (λ claims w. refl))
  handle_decision-Audited id (some body) = require_tenant-Audited (actor caller) caller _ (λ t.
      require_user-Audited caller _ (λ claims.
        if-Audited claims.user_id (not (known_action body.action)) _ _ (λ w. refl)
          (if-Audited claims.user_id (not (body.action == "publish") && trim_space body.note == "")
            _ _ (λ w. refl)
            (attempt-Audited claims.user_id
              (decide_version k id body.action claims.user_id claims.email (trim_space body.note)
                now)
              decision_failed _
              (decide_version-Silent k id body.action claims.user_id claims.email
                (trim_space body.note) now)
              (decision_failed-Refuses claims.user_id) (λ u w. (_, refl, refl))))))

  handle_verify_publisher-Audited :
      (id verified : String)
      → Audited (actor caller) (handle_verify_publisher caller id verified now)
  unfolding handle_verify_publisher
  handle_verify_publisher-Audited id verified = require_tenant-Audited (actor caller) caller _ (λ t.
      require_user-Audited caller _ (λ claims.
        let on = not (verified == "false") in
        attempt-Audited claims.user_id (set_publisher_verified id on claims.user_id now)
          verify_failed _ (set_publisher_verified-Silent id on claims.user_id now)
          (verify_failed-Refuses claims.user_id) (λ u w. (_, refl, refl))))

  -- Whatever a publisher or a reviewer asks, whichever statements fail: saving a profile,
  -- registering an app, submitting a version, deciding on one and verifying a publisher each tell
  -- the audit one entry, in the user's name, if they answer with a document, and nothing if they
  -- answer otherwise.
  pub tenants-Audited :
      (profile : Option ProfileBody) (app : Option AppBody) (version : Option VersionBody)
      (decision : Option DecisionBody) (slug id verified : String)
      → Audited (actor caller) (handle_save_profile k caller profile id now)
        × Audited (actor caller) (handle_upsert_app k caller app now)
        × Audited (actor caller) (handle_submit_version k caller slug version id now)
        × Audited (actor caller) (handle_decision k caller id decision now)
        × Audited (actor caller) (handle_verify_publisher caller id verified now)
  tenants-Audited profile app version decision slug id verified = (
    handle_save_profile-Audited profile id,
    handle_upsert_app-Audited app,
    handle_submit_version-Audited slug version id,
    handle_decision-Audited id decision,
    handle_verify_publisher-Audited id verified,
  )
