-- ===== src/Publisher/Registration.antt =====
-- On whose behalf modules/publisher/publisher.go registers an app.
use appstore_gerege_nexus.Prelude.{
  ℕ, String, Option, none, some, ◌≡◌, ◌≢◌, refl, sym, ap, inl, inr, ◌==◌, first, In, subst,
}
use appstore_gerege_nexus.Tables as Tables
use appstore_gerege_nexus.Tables.{Time, Database, AppRow}
use appstore_gerege_nexus.Contract.{Contract}
use appstore_gerege_nexus.World.{
  Error, not_found, conflict, invalid_submission, failure, World, Caller, Claims, Reply, json,
  require_user,
}
use appstore_gerege_nexus.World.Laws.{attempt_cases}
use appstore_gerege_nexus.Registry.Apps.{App, upsert_app}
use appstore_gerege_nexus.Registry.Apps.Ownership.{Kept, upsert_app-Kept}
use appstore_gerege_nexus.Publisher.{
  AppBody, with_defaults, app_from, app_refusal, app_failed, upsert_checked, upsert_decoded,
  handle_upsert_app,
}
use appstore_gerege_nexus.Publisher.Access.{publisher_for_json}

app_failed-ne : {A : Type 0} (e : Error) (n : ℕ) (x : A) → app_failed e ≢ json n x
app_failed-ne not_found n x = cc
app_failed-ne conflict n x = cc
app_failed-ne (invalid_submission s) n x = cc
app_failed-ne (failure s) n x = cc

-- Whose app a registration is, and what it left of the others.
pub record Registered (caller : Caller) (body : AppBody) (db db' : Database) : Type 0 where
  pub tenant : String
  pub caller_is : caller.tenant ≡ some tenant
  pub claims : Claims
  pub user_is : caller.claims ≡ some claims
  pub publisher : Tables.Publisher
  pub registered : In publisher db.publishers
  pub belongs : publisher.tenant_id ≡ tenant
  pub kept :
      (old : AppRow)
      → In old db.apps
      → Kept (app_from (with_defaults body) publisher.id claims.user_id) old db'
  pub own :
      (old : AppRow)
      → first (λ r. r.id == body.id) db.apps ≡ some old
      → old.publisher_id ≡ publisher.id

module _ (k : Contract) where
  upsert_checked_ok :
      (p : Tables.Publisher) (tenant : String) (claims : Claims) (body : AppBody) (now : Time)
      (reason : Option String) (w : World) {x : App} {w' : World}
      → upsert_checked k p tenant claims body now reason w ≡ (json 200 x, w')
      → ((old : AppRow)
          → In old w.db.apps
          → Kept (app_from (with_defaults body) p.id claims.user_id) old w'.db)
        × ((old : AppRow)
            → first (λ r. r.id == body.id) w.db.apps ≡ some old
            → old.publisher_id ≡ p.id)
  upsert_checked_ok p tenant claims body now (some reason) w h =
      absurd (cc (ap (λ (q : Reply App × World). q.0) h))
  upsert_checked_ok p tenant claims body now none w {x} {w'} h =
      let app = app_from (with_defaults body) p.id claims.user_id in
      elim (attempt_cases (upsert_app k app body.texts now) _ _ w h) [
        | inl (u, v, ran, rest) ↦
            let (kept, own) = upsert_app-Kept k app body.texts now w ran in
            (
              λ old i.
                  subst (Kept app old) (ap (λ (q : Reply App × World). q.1.db) rest) (kept old i),
              own,
            )
        | inr (e, v, ran, rest) ↦
            absurd (app_failed-ne e 200 x (ap (λ (q : Reply App × World). q.0) rest))
      ]

  -- A registration that is answered with 200 was made by an organisation that has a publisher: an
  -- app that it edits is of that publisher, every app of the store keeps its publisher, and those
  -- of another id stay as they were.
  pub handle_upsert_app-Registered :
      (caller : Caller) (body : AppBody) (now : Time) (w : World) {x : App} {w' : World}
      → handle_upsert_app k caller (some body) now w ≡ (json 200 x, w')
      → Registered caller body w.db w'.db
  unfolding handle_upsert_app
  handle_upsert_app-Registered caller body now w {x} {w'} h =
      let (tenant, p, v, is, i, t, d, rest) = publisher_for_json caller _ 200 w h in
      subst (λ (db : Database). Registered caller body db w'.db) d
        (by_claims tenant p v is (subst (λ (db : Database). In p db.publishers) (sym d) i) t
          caller.claims refl rest)
    where
      by_claims :
          (tenant : String) (p : Tables.Publisher) (v : World)
          → caller.tenant ≡ some tenant
          → In p v.db.publishers
          → p.tenant_id ≡ tenant
          → (c : Option Claims) → caller.claims ≡ c
          → require_user
              (record caller { claims = c })
              (λ claims. upsert_decoded k p tenant claims (some body) now)
              v
            ≡ (json 200 x, w')
          → Registered caller body v.db w'.db
      by_claims tenant p v is i t none e h = cc
      by_claims tenant p v is i t (some claims) e h =
          let (kept, own) = upsert_checked_ok p tenant claims body now (app_refusal k body) v h in
          record {
            tenant = tenant;
            caller_is = is;
            claims = claims;
            user_is = e;
            publisher = p;
            registered = i;
            belongs = t;
            kept = kept;
            own = own;
          }
