-- ===== src/System/Framed/Catalogue.antt =====
-- A catalogue request leaves the versions and their events as they are.
use appstore_gerege_nexus.Prelude.{ℕ, String, Option, none, some, ◌≡◌, refl, arith}
use appstore_gerege_nexus.Tables.{Time, Database, Snapshot}
use appstore_gerege_nexus.Contract.{Contract}
use appstore_gerege_nexus.World.{◌>>◌}
use appstore_gerege_nexus.World.Keeps
use appstore_gerege_nexus.World.Keeps.{Keeps}
use appstore_gerege_nexus.Registry.Signing.{Signer}
use appstore_gerege_nexus.Registry.Build.{build}
use appstore_gerege_nexus.Registry.Cache.{
  insert_private, prune_snapshots, save_snapshot, revision, load_snapshot, fresh, rebuild,
  serve_held, or_default, catalog,
}
use appstore_gerege_nexus.Registry.Platforms.{
  Audience, anonymous, bearer_token, audience_for, touch_platform,
}
use appstore_gerege_nexus.Registry.Platforms.Audiences.{audience_for-IsReadOnly}
use appstore_gerege_nexus.Registry.Public.{
  CatalogRequest, bad_platform, bad_channel, touch, serve_catalog, handle_catalog,
}
use appstore_gerege_nexus.Coherence.Refusals.{
  build-IsReadOnly, revision-IsReadOnly, load_snapshot-IsReadOnly,
}

module _ (k : Contract) (signer : Signer) (P : Database → Type 0)
    (frame : (db db' : Database)
      → db'.versions ≡ db.versions
      → db'.events ≡ db.events
      → P db
      → P db') where
  touch_platform-Keeps : (id : String) (now : Time) → Keeps P (touch_platform k id now)
  unfolding touch_platform
  touch_platform-Keeps id now = Keeps.execute-Keeps P _ (λ db p. frame db _ refl refl p)

  -- The catalogue and its caches.
  save_snapshot-Keeps :
      (channel platform : String) (a : Audience) (s : Snapshot) (now : Time)
      → Keeps P (save_snapshot channel platform a s now)
  unfolding save_snapshot prune_snapshots insert_private
  save_snapshot-Keeps channel platform a s now =
      Keeps.if-Keeps P (anonymous a) _ _
        (Keeps.defer_to-Keeps P _ _ (Keeps.execute-Keeps P _ (λ db p. frame db _ refl refl p))
          (Keeps.execute-Keeps P _ (λ db p. frame db _ refl refl p)))
        (Keeps.statement-Keeps P (insert_private _)
          (λ db x db' p h. frame db db' (ground arith) (ground arith) p))

  serve_held-Keeps :
      (channel platform : String) (a : Audience) (now : Time) (n : ℕ) (held : Option Snapshot)
      → Keeps P (serve_held k signer channel platform a now n held)
  unfolding serve_held rebuild
  serve_held-Keeps channel platform a now n (some s) = Keeps.pure-Keeps P s
  serve_held-Keeps channel platform a now n none =
      Keeps.bind-Keeps P _ _
        (Keeps.read-Keeps P (build k signer channel platform n a)
          (build-IsReadOnly k signer channel platform n a))
        (λ s.
          Keeps.bind-Keeps P _ _
            (Keeps.ignore-Keeps P (save_snapshot channel platform a s now)
              (save_snapshot-Keeps channel platform a s now))
            (λ u. Keeps.pure-Keeps P s))

  catalog-Keeps :
      (channel platform : String) (a : Audience) (now : Time)
      → Keeps P (catalog k signer channel platform a now)
  unfolding catalog
  catalog-Keeps channel platform a now =
      Keeps.bind-Keeps P _ _ (Keeps.read-Keeps P revision revision-IsReadOnly) (λ n.
        Keeps.bind-Keeps P _ _
          (Keeps.read-Keeps P
            (load_snapshot (or_default channel "stable") (or_default platform "1.0.0") a)
            (load_snapshot-IsReadOnly _ _ a))
          (λ held. serve_held-Keeps _ _ a now n (fresh held n)))

  serve_catalog-Keeps :
      (r : CatalogRequest) (now : Time) (a : Audience) → Keeps P (serve_catalog k signer r now a)
  unfolding serve_catalog touch
  serve_catalog-Keeps r now a =
      Keeps.attempt-Keeps P (touch k a now >> catalog k signer r.channel r.platform a now) _ _
        (Keeps.bind-Keeps P (touch k a now) (λ u. catalog k signer r.channel r.platform a now)
          (Keeps.if-Keeps P (anonymous a) _ _ (Keeps.pure-Keeps P tt) (
            Keeps.ignore-Keeps P (touch_platform k a.platform_id now)
              (touch_platform-Keeps a.platform_id now)))
          (λ u. catalog-Keeps r.channel r.platform a now))
        (λ e w p. p) (λ s w p. p)

  pub handle_catalog-Keeps :
      (r : CatalogRequest) (now : Time) → Keeps P (handle_catalog k (some signer) r now)
  unfolding handle_catalog
  handle_catalog-Keeps r now =
      Keeps.if-Keeps P (bad_platform k r.platform) _ _ (λ w p. p)
        (Keeps.if-Keeps P (bad_channel k r.channel) _ _ (λ w p. p)
          (Keeps.attempt-Keeps P (audience_for k (bearer_token r.authorization)) _ _
            (Keeps.read-Keeps P (audience_for k (bearer_token r.authorization))
              (audience_for-IsReadOnly k (bearer_token r.authorization)))
            (λ e w p. p) (serve_catalog-Keeps r now)))
