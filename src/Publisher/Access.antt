-- ===== src/Publisher/Access.antt =====
-- On whose behalf modules/publisher/publisher.go takes a submission.
use appstore_gerege_nexus.Prelude.{
  ℕ, String, List, [], ◌∷◌, Option, none, some, ◌≡◌, ◌≢◌, refl, sym, ap, ◌∙◌, inl, inr, ◌==◌,
  eq_iff, Bool-cases, Option-cases, In, keep, first, subst,
}
use appstore_gerege_nexus.Prelude.Membership.{In-keep, first_sound}
use appstore_gerege_nexus.Tables
use appstore_gerege_nexus.Tables.{Time, Database, AppRow}
use appstore_gerege_nexus.Contract.{Contract}
use appstore_gerege_nexus.World.{
  Error, not_found, conflict, invalid_submission, failure, ok, World, Caller, Claims, Reply, json,
  Handler, query, raise, require_user, ◌>>=◌,
}
use appstore_gerege_nexus.World.Laws.{query_ok, pure_ok, bind_ok, attempt_cases}
use appstore_gerege_nexus.Registry.Publishers.{or_not_found, of_tenant, publisher_by_tenant}
use appstore_gerege_nexus.Registry.Apps.{App, app_of, joined, head_app, find_app, app_by_slug}
use appstore_gerege_nexus.Registry.Versions.{Version}
use appstore_gerege_nexus.Registry.Submissions.{submit_manifest}
use appstore_gerege_nexus.Registry.Submissions.Effects.{Accepted, submit_manifest-Accepted}
use appstore_gerege_nexus.Publisher.{
  VersionBody, profile_failed, submit_failed, publisher_for, own_app, submit_decoded,
  handle_submit_version,
}

or_not_found_ok :
    {A : Type 0} (row : Option A) (w : World) {a : A} {w' : World}
    → or_not_found row w ≡ (ok a, w')
    → (row ≡ some a) × (w'.db ≡ w.db)
unfolding or_not_found raise
or_not_found_ok none w h = cc
or_not_found_ok (some b) w h = let (e, d) = pure_ok b w h in (cc, d)

found_ok :
    {A : Type 0} (f : Database → Option A) (w : World) {a : A} {w' : World}
    → (query f >>= or_not_found) w ≡ (ok a, w')
    → (f w.db ≡ some a) × (w'.db ≡ w.db)
found_ok f w h =
    let (row, v, read, rest) = bind_ok (query f) or_not_found w h in
    let (e, d) = query_ok f w read in
    let (e', d') = or_not_found_ok row v rest in (sym e ∙ e', d' ∙ d)

publisher_by_tenant_ok :
    (tenant : String) (w : World) {p : Tables.Publisher} {w' : World}
    → publisher_by_tenant tenant w ≡ (ok p, w')
    → In p w.db.publishers × (p.tenant_id ≡ tenant) × (w'.db ≡ w.db)
unfolding publisher_by_tenant
publisher_by_tenant_ok tenant w {p} h =
    let (e, d) = found_ok (λ db. first (of_tenant tenant) db.publishers) w h in
    let (i, t) = first_sound (of_tenant tenant) p w.db.publishers e in (i, (eq_iff _ _).0 t, d)

-- The row that an app was rendered from.
In-joined :
    (db : Database) (a : App) (rows : List AppRow)
    → head_app (joined db rows) ≡ some a
    → (row : AppRow) × In row rows
      × (a.id ≡ row.id)
      × (a.publisher_id ≡ row.publisher_id)
      × (a.slug ≡ row.slug)
unfolding joined
In-joined db a [] h = cc
In-joined db a (r ∷ rows) h =
    elim (Option-cases (first (λ p. p.id == r.publisher_id) db.publishers)) [
      | inl e ↦
          let (row, i, ei, ep, es) = In-joined db a rows (rw (e, head_app) at h) in
          (row, inr i, ei, ep, es)
      | inr (p, e) ↦
          let h' : some (app_of db r p.name) ≡ some a = rw (e, head_app) at h in
          let same : app_of db r p.name ≡ a = cc in
          (
            r,
            inl refl,
            ap (λ (x : App). x.id) (sym same),
            ap (λ (x : App). x.publisher_id) (sym same),
            ap (λ (x : App). x.slug) (sym same),
          )
    ]

app_by_slug_ok :
    (slug : String) (w : World) {a : App} {w' : World}
    → app_by_slug slug w ≡ (ok a, w')
    → (row : AppRow) × In row w.db.apps
      × (row.slug ≡ slug)
      × (a.id ≡ row.id)
      × (a.publisher_id ≡ row.publisher_id)
      × (w'.db ≡ w.db)
unfolding app_by_slug find_app
app_by_slug_ok slug w {a} h =
    let (e, d) = found_ok (find_app (λ r. r.slug == slug)) w h in
    let (row, i, ei, ep, es) = In-joined w.db a (keep (λ r. r.slug == slug) w.db.apps) e in
    let (j, t) = In-keep (λ r. r.slug == slug) row w.db.apps i in
    (row, j, (eq_iff _ _).0 t, ei, ep, d)

-- The caller's organisation, its publisher, and the app of that publisher which a request names.
pub record Owns (caller : Caller) (slug : String) (db : Database) (a : App) : Type 0 where
  pub tenant : String
  pub caller_is : caller.tenant ≡ some tenant
  pub publisher : Tables.Publisher
  pub registered : In publisher db.publishers
  pub belongs : publisher.tenant_id ≡ tenant
  pub row : AppRow
  pub listed : In row db.apps
  pub named : row.slug ≡ slug
  pub rendered : a.id ≡ row.id
  pub owner : row.publisher_id ≡ publisher.id

profile_failed-ne : {A : Type 0} (e : Error) (n : ℕ) (x : A) → profile_failed e ≢ json n x
profile_failed-ne not_found n x = cc
profile_failed-ne conflict n x = cc
profile_failed-ne (invalid_submission s) n x = cc
profile_failed-ne (failure s) n x = cc

module _ {B : Type 0} where
  pub publisher_for_json :
      (caller : Caller) (next : Tables.Publisher → String → Handler B) (n : ℕ) (w : World) {x : B}
      {w' : World}
      → publisher_for caller next w ≡ (json n x, w')
      → (tenant : String) × (p : Tables.Publisher) × (v : World) × (caller.tenant ≡ some tenant)
        × In p w.db.publishers
        × (p.tenant_id ≡ tenant)
        × (v.db ≡ w.db)
        × (next p tenant v ≡ (json n x, w'))
  unfolding publisher_for
  publisher_for_json caller next n w {x} {w'} h = by_tenant caller.tenant refl h
    where
      by_tenant :
          (t : Option String)
          → caller.tenant ≡ t
          → publisher_for (record caller { tenant = t }) next w ≡ (json n x, w')
          → (tenant : String) × (p : Tables.Publisher) × (v : World) × (caller.tenant ≡ some tenant)
            × In p w.db.publishers
            × (p.tenant_id ≡ tenant)
            × (v.db ≡ w.db)
            × (next p tenant v ≡ (json n x, w'))
      by_tenant none e h = cc
      by_tenant (some tenant) e h = elim (attempt_cases (publisher_by_tenant tenant) _ _ w h) [
        | inl (p, v, found, rest) ↦
            let (i, t, d) = publisher_by_tenant_ok tenant w found in
            (tenant, p, v, e, i, t, d, rest)
        | inr (x', v, found, rest) ↦
            absurd (profile_failed-ne x' n x (ap (λ (q : Reply B × World). q.0) rest))
      ]

  -- What runs behind ownApp with an answer of its own is about an app of the caller's publisher.
  own_app_json :
      (caller : Caller) (slug : String) (next : App → String → Handler B) (n : ℕ) (w : World)
      {x : B} {w' : World}
      → own_app caller slug next w ≡ (json n x, w')
      → (a : App) × (tenant : String) × (v : World) × Owns caller slug w.db a
        × (v.db ≡ w.db)
        × (next a tenant v ≡ (json n x, w'))
  unfolding own_app
  own_app_json caller slug next n w {x} {w'} h =
      let (tenant, p, v, is, i, t, d, rest) = publisher_for_json caller _ n w h in
      elim (attempt_cases (app_by_slug slug) _ _ v rest) [
        | inl (a, u, found, asked) ↦
            let (row, j, named, ei, ep, d') = app_by_slug_ok slug v found in
            elim (Bool-cases (a.publisher_id == p.id)) [
              | inl own ↦ (
                a,
                tenant,
                u,
                record {
                  tenant = tenant;
                  caller_is = is;
                  publisher = p;
                  registered = i;
                  belongs = t;
                  row = row;
                  listed = subst (λ (b : Database). In row b.apps) d j;
                  named = named;
                  rendered = ei;
                  owner = sym ep ∙ (eq_iff _ _).0 own;
                },
                d' ∙ d,
                rw own at asked,
              )
              | inr f ↦ absurd (cc (ap (λ (q : Reply B × World). q.0) (rw f at asked)))
            ]
        | inr (e, u, found, asked) ↦ absurd (cc (ap (λ (q : Reply B × World). q.0) asked))
      ]

submit_failed-ne : {A : Type 0} (e : Error) (n : ℕ) (x : A) → submit_failed e ≢ json n x
submit_failed-ne not_found n x = cc
submit_failed-ne conflict n x = cc
submit_failed-ne (invalid_submission s) n x = cc
submit_failed-ne (failure s) n x = cc

submit_decoded_ok :
    (k : Contract) (app : App) (tenant : String) (claims : Claims) (body : VersionBody)
    (id : String) (now : Time) (w : World) {v : Version} {w' : World}
    → submit_decoded k app tenant claims (some body) id now w ≡ (json 201 v, w')
    → Accepted k app body.manifest w.db w'.db
submit_decoded_ok k app tenant claims body id now w {v} {w'} h =
    elim (attempt_cases (submit_manifest k app body.channel body.manifest claims.email id now) _ _ w
      h) [
        | inl (saved, u, ran, rest) ↦
            subst (Accepted k app body.manifest w.db)
              (ap (λ (q : Reply Version × World). q.1.db) rest)
              (submit_manifest-Accepted k app body.channel body.manifest claims.email id now w ran)
        | inr (e, u, ran, rest) ↦
            absurd (submit_failed-ne e 201 v (ap (λ (q : Reply Version × World). q.0) rest))
      ]

-- A submission that is answered with 201 was made by an organisation that has a publisher, for an
-- app of that publisher which the request names; and it added to the store one version of that app
-- that waits for review, under a number that the app had not used.
pub handle_submit_version-Owns :
    (k : Contract) (caller : Caller) (slug : String) (body : VersionBody) (id : String) (now : Time)
    (w : World) {v : Version} {w' : World}
    → handle_submit_version k caller slug (some body) id now w ≡ (json 201 v, w')
    → (a : App) × Owns caller slug w.db a × Accepted k a body.manifest w.db w'.db
unfolding handle_submit_version
handle_submit_version-Owns k caller slug body id now w {v} {w'} h =
    let (a, tenant, u, owns, d, rest) = own_app_json caller slug _ 201 w h in
    (
      a,
      owns,
      subst (λ (b : Database). Accepted k a body.manifest b w'.db) d
          (by_claims caller.claims a tenant u rest),
    )
  where
    by_claims :
        (c : Option Claims) (a : App) (tenant : String) (u : World)
        → require_user
            (record caller { claims = c })
            (λ claims. submit_decoded k a tenant claims (some body) id now)
            u
          ≡ (json 201 v, w')
        → Accepted k a body.manifest u.db w'.db
    by_claims none a tenant u h = cc
    by_claims (some claims) a tenant u h = submit_decoded_ok k a tenant claims body id now u h
