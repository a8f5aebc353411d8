-- ===== src/System/Handlers.antt =====
-- From the store's operations to the handlers: what every operation of the store keeps, every
-- request keeps.
use appstore_gerege_nexus.Prelude.{
  String, Bool, first, List, Option, none, some, sym, subst, not, ◌&&◌, ◌==◌,
}
use appstore_gerege_nexus.Text.{trim_space}
use appstore_gerege_nexus.Tables.{Time, Database, AppText, Publisher}
use appstore_gerege_nexus.Contract.{Contract, Manifest}
use appstore_gerege_nexus.World.{Caller, Claims, Handler, ignore, attempt}
use appstore_gerege_nexus.World.Reads.{IsReadOnly, query-IsReadOnly, bind-IsReadOnly}
use appstore_gerege_nexus.World.Keeps
use appstore_gerege_nexus.World.Keeps.{Keeps}
use appstore_gerege_nexus.Registry.Signing.{Signer}
use appstore_gerege_nexus.Registry.Cache.{discard_snapshots}
use appstore_gerege_nexus.Registry.Platforms.{
  create_platform, set_platform_enabled, discard_private_snapshots,
}
use appstore_gerege_nexus.Registry.Publishers.{
  Profile, of_tenant, or_not_found, publisher_by_tenant, upsert_publisher, set_publisher_verified,
}
use appstore_gerege_nexus.Registry.Apps.{App, find_app, app_by_slug, upsert_app}
use appstore_gerege_nexus.Registry.Submissions.{submit_manifest}
use appstore_gerege_nexus.Registry.Decisions.{decide_version}
use appstore_gerege_nexus.Registry.Public.{CatalogRequest, handle_catalog, handle_rebuild_snapshots}
use appstore_gerege_nexus.Registry.Operators.{
  actor, PlatformBody, handle_create_platform, handle_set_platform_enabled, handle_grant,
  handle_revoke,
}
use appstore_gerege_nexus.Publisher.{
  ProfileBody, AppBody, VersionBody, publisher_for, own_app, cleaned, app_from, with_defaults,
  app_refusal, upsert_checked, handle_save_profile, handle_upsert_app, handle_submit_version,
}
use appstore_gerege_nexus.Review.{
  DecisionBody, known_action, handle_decision, handle_verify_publisher,
}
use appstore_gerege_nexus.Registry.Submissions.Effects.{or_not_found-IsReadOnly}
use appstore_gerege_nexus.System.{Request, Arrival, arrived, react, after, Reaches}

-- What each operation of the store is to keep for every request to keep it. A catalogue request, a
-- grant and a revocation stand as whole handlers.
pub record Kept (k : Contract) (signer : Signer) (allowed : Request → List Bool → Type 0)
    (P : Database → Type 0) : Type 0 where
  pub catalog : (r : CatalogRequest) (now : Time) → Keeps P (handle_catalog k (some signer) r now)
  pub discarded : Keeps P discard_snapshots
  pub discarded_private : (platform_id : String) → Keeps P (discard_private_snapshots platform_id)
  pub platform :
      (caller : Caller) (body : Option PlatformBody) (minted : Option String) (id : String)
      (now : Time) (a : Arrival) (db : Database)
      → allowed (Request.register_platform caller body minted id) a.faults
      → P db
      → P (handle_create_platform k caller body minted id now (arrived a db)).1.db
  pub enabled : (id : String) (on : Bool) (now : Time) → Keeps P (set_platform_enabled id on now)
  pub granted :
      (caller : Caller) (platform_id app_id : String) (now : Time) (a : Arrival) (db : Database)
      → allowed (Request.grant_app caller platform_id app_id) a.faults
      → P db
      → P (handle_grant caller platform_id app_id now (arrived a db)).1.db
  pub revoked :
      (caller : Caller) (platform_id app_id : String) (a : Arrival) (db : Database)
      → allowed (Request.revoke_app caller platform_id app_id) a.faults
      → P db
      → P (handle_revoke caller platform_id app_id (arrived a db)).1.db
  pub profile : (p : Profile) (id : String) (now : Time) → Keeps P (upsert_publisher p id now)
  pub app :
      (a : App) (texts : List (String × AppText)) (now : Time) → Keeps P (upsert_app k a texts now)
  pub submission :
      (a : App) (channel : String) (m : Manifest) (by id : String) (now : Time)
      → Keeps P (submit_manifest k a channel m by id now)
  pub decision :
      (id action actor_id actor note : String) (now : Time)
      → Keeps P (decide_version k id action actor_id actor note now)
  pub verified :
      (id : String) (on : Bool) (actor : String) (now : Time)
      → Keeps P (set_publisher_verified id on actor now)

publisher_by_tenant-IsReadOnly : (tenant_id : String) → IsReadOnly (publisher_by_tenant tenant_id)
unfolding publisher_by_tenant or_not_found
publisher_by_tenant-IsReadOnly tenant_id =
    bind-IsReadOnly _ _ (query-IsReadOnly (λ db. first (of_tenant tenant_id) db.publishers))
      or_not_found-IsReadOnly

app_by_slug-IsReadOnly : (slug : String) → IsReadOnly (app_by_slug slug)
unfolding app_by_slug
app_by_slug-IsReadOnly slug =
    bind-IsReadOnly _ _ (query-IsReadOnly (find_app (λ a. a.slug == slug))) or_not_found-IsReadOnly

pub handle_create_platform-Keeps :
    (k : Contract) (P : Database → Type 0) (caller : Caller) (body : Option PlatformBody)
    (minted : Option String) (id : String) (now : Time)
    → ((name origin note : String)
        → Keeps P (create_platform k name origin note (actor caller) minted id now))
    → Keeps P (handle_create_platform k caller body minted id now)
unfolding handle_create_platform
handle_create_platform-Keeps k P caller none minted id now keeps = λ w p. p
handle_create_platform-Keeps k P caller (some body) minted id now keeps =
    Keeps.if-Keeps P (trim_space body.name == "") _ _ (λ w p. p)
      (Keeps.attempt-Keeps P
        (create_platform k body.name body.origin body.note (actor caller) minted id now) _ _
        (keeps body.name body.origin body.note) (λ e w p. p) (λ issued w p. p))

module _ (k : Contract) (signer : Signer) (allowed : Request → List Bool → Type 0)
    (P : Database → Type 0) (kept : Kept k signer allowed P) where
  publisher_for-Keeps :
      {A : Type 0} (caller : Caller) (next : Publisher → String → Handler A)
      → ((p : Publisher) (tenant_id : String) → Keeps P (next p tenant_id))
      → Keeps P (publisher_for caller next)
  unfolding publisher_for
  publisher_for-Keeps caller next keeps = Keeps.require_tenant-Keeps P caller _ (λ tenant_id.
      Keeps.attempt-Keeps P (publisher_by_tenant tenant_id) _ _
        (Keeps.read-Keeps P (publisher_by_tenant tenant_id)
          (publisher_by_tenant-IsReadOnly tenant_id))
        (λ e w p. p) (λ publisher. keeps publisher tenant_id))

  own_app-Keeps :
      {A : Type 0} (caller : Caller) (slug : String) (next : App → String → Handler A)
      → ((a : App) (tenant_id : String) → Keeps P (next a tenant_id))
      → Keeps P (own_app caller slug next)
  unfolding own_app
  own_app-Keeps caller slug next keeps = publisher_for-Keeps caller _ (λ publisher tenant_id.
      Keeps.attempt-Keeps P (app_by_slug slug) _ _
        (Keeps.read-Keeps P (app_by_slug slug) (app_by_slug-IsReadOnly slug)) (λ e w p. p)
        (λ a. Keeps.if-Keeps P (a.publisher_id == publisher.id) _ _ (keeps a tenant_id) (λ w p. p)))

  handle_rebuild-Keeps : Keeps P (handle_rebuild_snapshots k (some signer))
  unfolding handle_rebuild_snapshots
  handle_rebuild-Keeps =
      Keeps.attempt-Keeps P discard_snapshots _ _ kept.discarded (λ e w p. p) (λ n w p. p)

  handle_set_platform_enabled-Keeps :
      (caller : Caller) (id : String) (on : Option Bool) (now : Time)
      → Keeps P (handle_set_platform_enabled caller id on now)
  unfolding handle_set_platform_enabled attempt ignore
  handle_set_platform_enabled-Keeps caller id none now = λ w p. p
  handle_set_platform_enabled-Keeps caller id (some on) now =
      Keeps.attempt-Keeps P (set_platform_enabled id on now) _ _ (kept.enabled id on now)
        (λ e w p. p) (λ u. kept.discarded_private id)

  handle_save_profile-Keeps :
      (caller : Caller) (body : Option ProfileBody) (id : String) (now : Time)
      → Keeps P (handle_save_profile k caller body id now)
  unfolding handle_save_profile
  handle_save_profile-Keeps caller none id now =
      Keeps.require_tenant-Keeps P caller _
        (λ tenant_id. Keeps.require_user-Keeps P caller _ (λ claims w p. p))
  handle_save_profile-Keeps caller (some body) id now =
      Keeps.require_tenant-Keeps P caller _ (λ tenant_id.
        Keeps.require_user-Keeps P caller _ (λ claims.
          let b = cleaned k body in
          Keeps.if-Keeps P (not (k.is_valid_slug b.slug)) _ _ (λ w p. p)
            (Keeps.if-Keeps P (b.name == "") _ _ (λ w p. p)
              (Keeps.attempt-Keeps P (upsert_publisher _ id now) _ _ (kept.profile _ id now)
                (λ e w p. p) (λ saved w p. p)))))

  upsert_checked-Keeps :
      (publisher : Publisher) (tenant_id : String) (claims : Claims) (b : AppBody) (now : Time)
      (refusal : Option String)
      → Keeps P (upsert_checked k publisher tenant_id claims b now refusal)
  upsert_checked-Keeps publisher tenant_id claims b now (some reason) = λ w p. p
  upsert_checked-Keeps publisher tenant_id claims b now none =
      let a = app_from (with_defaults b) publisher.id claims.user_id in
      Keeps.attempt-Keeps P (upsert_app k a b.texts now) _ _ (kept.app a b.texts now) (λ e w p. p)
        (λ u w p. p)

  handle_upsert_app-Keeps :
      (caller : Caller) (body : Option AppBody) (now : Time)
      → Keeps P (handle_upsert_app k caller body now)
  unfolding handle_upsert_app
  handle_upsert_app-Keeps caller none now =
      publisher_for-Keeps caller _
        (λ publisher tenant_id. Keeps.require_user-Keeps P caller _ (λ claims w p. p))
  handle_upsert_app-Keeps caller (some b) now = publisher_for-Keeps caller _ (λ publisher tenant_id.
      Keeps.require_user-Keeps P caller _
        (λ claims. upsert_checked-Keeps publisher tenant_id claims b now (app_refusal k b)))

  handle_submit_version-Keeps :
      (caller : Caller) (slug : String) (body : Option VersionBody) (id : String) (now : Time)
      → Keeps P (handle_submit_version k caller slug body id now)
  unfolding handle_submit_version
  handle_submit_version-Keeps caller slug none id now =
      own_app-Keeps caller slug _
        (λ a tenant_id. Keeps.require_user-Keeps P caller _ (λ claims w p. p))
  handle_submit_version-Keeps caller slug (some b) id now =
      own_app-Keeps caller slug _ (λ a tenant_id. Keeps.require_user-Keeps P caller _ (λ claims.
        Keeps.attempt-Keeps P (submit_manifest k a b.channel b.manifest claims.email id now) _ _
          (kept.submission a b.channel b.manifest claims.email id now) (λ e w p. p)
          (λ saved w p. p)))

  handle_decision-Keeps :
      (caller : Caller) (id : String) (body : Option DecisionBody) (now : Time)
      → Keeps P (handle_decision k caller id body now)
  unfolding handle_decision
  handle_decision-Keeps caller id none now =
      Keeps.require_tenant-Keeps P caller _
        (λ tenant_id. Keeps.require_user-Keeps P caller _ (λ claims w p. p))
  handle_decision-Keeps caller id (some body) now =
      Keeps.require_tenant-Keeps P caller _ (λ tenant_id.
        Keeps.require_user-Keeps P caller _ (λ claims.
          Keeps.if-Keeps P (not (known_action body.action)) _ _ (λ w p. p)
            (Keeps.if-Keeps P (not (body.action == "publish") && trim_space body.note == "") _ _
              (λ w p. p)
              (Keeps.attempt-Keeps P
                (decide_version k id body.action claims.user_id claims.email (trim_space body.note)
                  now)
                _ _
                (kept.decision id body.action claims.user_id claims.email (trim_space body.note)
                  now)
                (λ e w p. p) (λ u w p. p)))))

  handle_verify_publisher-Keeps :
      (caller : Caller) (id verified : String) (now : Time)
      → Keeps P (handle_verify_publisher caller id verified now)
  unfolding handle_verify_publisher
  handle_verify_publisher-Keeps caller id verified now =
      Keeps.require_tenant-Keeps P caller _ (λ tenant_id.
        Keeps.require_user-Keeps P caller _ (λ claims.
          let on = not (verified == "false") in
          Keeps.attempt-Keeps P (set_publisher_verified id on claims.user_id now) _ _
            (kept.verified id on claims.user_id now) (λ e w p. p) (λ u w p. p)))

  -- Every allowed arrival keeps it.
  after-Keeps :
      (a : Arrival) (db : Database) → allowed a.request a.faults → P db → P (after k signer a db)
  unfolding react
  after-Keeps a db ordinary p = by_request a.request ordinary
    where
      by_request :
          (r : Request) → allowed r a.faults → P (after k signer (record a { request = r }) db)
      by_request (Request.ask_catalog r) o = kept.catalog r a.now (arrived a db) p
      by_request Request.rebuild_cache o = handle_rebuild-Keeps (arrived a db) p
      by_request (Request.register_platform caller body minted id) o =
          kept.platform caller body minted id a.now a db o p
      by_request (Request.set_access caller id on) o =
          handle_set_platform_enabled-Keeps caller id on a.now (arrived a db) p
      by_request (Request.grant_app caller id app_id) o =
          kept.granted caller id app_id a.now a db o p
      by_request (Request.revoke_app caller id app_id) o = kept.revoked caller id app_id a db o p
      by_request (Request.put_profile caller body id) o =
          handle_save_profile-Keeps caller body id a.now (arrived a db) p
      by_request (Request.save_app caller body) o =
          handle_upsert_app-Keeps caller body a.now (arrived a db) p
      by_request (Request.send_version caller slug body id) o =
          handle_submit_version-Keeps caller slug body id a.now (arrived a db) p
      by_request (Request.review_version caller id body) o =
          handle_decision-Keeps caller id body a.now (arrived a db) p
      by_request (Request.verify_publisher caller id verified) o =
          handle_verify_publisher-Keeps caller id verified a.now (arrived a db) p

  pub Reaches-Keeps : (start db : Database) → Reaches k signer allowed start db → P start → P db
  Reaches-Keeps start db (Reaches.here e) p = subst P (sym e) p
  Reaches-Keeps start db (Reaches.next {db = before} a reached ordinary e) p =
      subst P (sym e) (after-Keeps a before ordinary (Reaches-Keeps start before reached p))
