-- ===== src/Registry/Decisions/Publication.antt =====
-- From DecideVersion of modules/registry/store.go to the build of modules/registry/catalog.go.
use appstore_gerege_nexus.Prelude.{
  ℕ, String, Bool, true, false, List, some, ◌≡◌, refl, sym, ap, ◌∙◌, arith, ◌==◌, eq_iff, In, amend,
  if◌then◌else◌, subst,
}
use appstore_gerege_nexus.Prelude.Membership.{amend-In}
use appstore_gerege_nexus.Tables.{Time, Database, Status, published, AppRow, VersionRow, Snapshot}
use appstore_gerege_nexus.Contract.{Contract, CatalogApp}
use appstore_gerege_nexus.World.{ok, World}
use appstore_gerege_nexus.Registry.Platforms.{Audience}
use appstore_gerege_nexus.Registry.Signing.{Signer}
use appstore_gerege_nexus.Registry.Build.{is_published, offered, platform_allows, build}
use appstore_gerege_nexus.Registry.Build.Rows.{of_release}
use appstore_gerege_nexus.Registry.Build.Newest.{NewerOrder}
use appstore_gerege_nexus.Registry.Build.Offers.{entries, build-newest}
use appstore_gerege_nexus.Registry.Decisions.{status_for, decide_row, decide_version}
use appstore_gerege_nexus.Registry.Decisions.Written.{decide_version-Written}

published_status : (status : Status) → status_for "publish" ≡ some status → status ≡ published
unfolding status_for
published_status status h = cc

module _ (k : Contract) (order : NewerOrder k) (signer : Signer) (platform : String)
    (audience : Audience) where
  published_row :
      (id note : String) (now : Time) (status : Status) (app : AppRow) (v : VersionRow)
      (rows : List VersionRow)
      → status ≡ published
      → In v rows
      → v.id ≡ id
      → v.app_id ≡ app.id
      → (row : VersionRow) × In row (amend (λ u. u.id == id) (decide_row status note now) rows)
        × (of_release v.channel app row ≡ true)
        × (row.version ≡ v.version)
        × (row.min_platform ≡ v.min_platform)
  published_row id note now status app v rows out i e owner = (
    decide_row status note now v,
    subst
        (λ (b : Bool).
          In (if b then decide_row status note now v else v)
            (amend (λ u. u.id == id) (decide_row status note now) rows))
        ((eq_iff v.id id).1 e) (amend-In (λ u. u.id == id) (decide_row status note now) v rows i),
    ground (
      arith,
      (eq_iff v.app_id app.id).1 owner,
      (eq_iff v.channel v.channel).1 refl,
      ap is_published out,
    ),
    refl,
    refl,
  )

  -- Once a version is published, every document that is built from the tables as the decision left
  -- them, for its channel, for a platform that can run it and for an audience that its app is
  -- offered to, lists the app in a version that it is not newer than, where versions are ordered.
  pub decide_version-offers :
      (version_id actor_id actor note : String) (now : Time) (w : World) {u : Unit {0}} {w' : World}
      → decide_version k version_id "publish" actor_id actor note now w ≡ (ok u, w')
      → (v : VersionRow) (app : AppRow) → In v w.db.versions
      → v.id ≡ version_id
      → In app w'.db.apps
      → v.app_id ≡ app.id
      → offered audience.app_ids app ≡ true
      → platform_allows k v.min_platform platform ≡ true
      → (revision : ℕ) (x : World) {s : Snapshot} {x' : World} → x.db ≡ w'.db
      → build k signer v.channel platform revision audience x ≡ (ok s, x')
      → (a : CatalogApp) × In a (entries k signer v.channel platform audience x.db)
        × (a.id ≡ app.id)
        × (k.is_newer v.version a.version ≡ false)
  decide_version-offers version_id actor_id actor note now w {u} {w'} h v app i e j owner offer runs
        revision x same built =
      let d = decide_version-Written k version_id "publish" actor_id actor note now w h in
      let (row, listed, release, number, needs) =
        published_row version_id note now d.status app v w.db.versions
          (published_status d.status d.known) i e owner in
      let (a, m, ea, newest) =
        build-newest k signer v.channel platform audience order revision x app row built
          (subst (λ (db : Database). In app db.apps) (sym same) j) offer
          (subst (In row) (sym d.versions ∙ ap (λ (db : Database). db.versions) (sym same)) listed)
          release (rw needs runs) in
      (a, m, ea, rw (← number) newest)
