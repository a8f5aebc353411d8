-- ===== src/Examples/Coherences.antt =====
-- The theorems on the caches, at the store of the examples one revision later.
use appstore_gerege_nexus.Prelude.{
  true, false, [], ◌∷◌, some, ◌≡◌, ◌≢◌, refl, sym, ap, ◌∙◌, arith, eq_iff, inl, inr, In, ℕ, length,
  keep, ◌≤◌, ◌==◌,
}
use appstore_gerege_nexus.Tables.{SnapshotRow, Database, Snapshot, PrivateSnapshotRow, PlatformRow}
use appstore_gerege_nexus.Registry.Platforms.{nobody, Audience, bearer_token, granted}
use appstore_gerege_nexus.Registry.Cache.{save_snapshot, catalog}
use appstore_gerege_nexus.Registry.Cache.Bound.{IsUnique, save_snapshot-IsUnique}
use appstore_gerege_nexus.Registry.Public.{
  handle_rebuild_snapshots, CatalogRequest, CatalogAnswer, handle_catalog,
}
use appstore_gerege_nexus.Registry.Public.Rebuild.{handle_rebuild_snapshots-discards}
use appstore_gerege_nexus.Examples.{demo_snapshot, demo, demo_signer, demo_db, demo_caller}
use appstore_gerege_nexus.World.{ok, json, World}
use appstore_gerege_nexus.Registry.Platforms.Audiences.{audience_in}
use appstore_gerege_nexus.Registry.Build.Contents.{Built}
use appstore_gerege_nexus.Registry.Operators.{handle_grant, handle_revoke}
use appstore_gerege_nexus.Registry.Decisions.{decide_version}
use appstore_gerege_nexus.Registry.Apps.{upsert_app}
use appstore_gerege_nexus.Registry.Submissions.{submit_manifest}
use appstore_gerege_nexus.Sorting.{order_by}
use appstore_gerege_nexus.Coherence.{IsCoherent}
use appstore_gerege_nexus.Coherence.Serving.{catalog-Built}
use appstore_gerege_nexus.Coherence.Answers.{IsAnswer, handle_catalog-IsAnswer}
use appstore_gerege_nexus.Coherence.Publishing.{decide_version-IsCoherent}
use appstore_gerege_nexus.Coherence.Registering.{upsert_app-IsCoherent}
use appstore_gerege_nexus.Coherence.Submitting.{submit_manifest-IsCoherent}
use appstore_gerege_nexus.Coherence.Granting.{quiet}
use appstore_gerege_nexus.Coherence.Access.{handle_grant-IsCoherent, handle_revoke-IsCoherent}
use appstore_gerege_nexus.Examples.Submissions.{open_app, next_manifest, edited_app}
use appstore_gerege_nexus.Examples.Runner.{code}

-- The platform's cached document is of revision 7.
abbrev later_db : Database
later_db = record demo_db { revision = 8 }

abbrev later_world : World
later_world = quiet later_db []

held_revision : (r : PrivateSnapshotRow) → In r later_db.private_snapshots → r.snapshot.revision ≡ 7
held_revision r (inl e) = ap (λ (q : PrivateSnapshotRow). q.snapshot.revision) e
held_revision r (inr x) = absurd x

salus_named : (p : PlatformRow) → In p later_db.platforms → p.id ≢ ""
salus_named p (inl e) named =
    let t : false ≡ true = (eq_iff "salus" "").1 (sym (ap (λ (q : PlatformRow). q.id) e) ∙ named) in
    cc
salus_named p (inr x) named = absurd x

later-IsCoherent : IsCoherent demo demo_signer later_db
later-IsCoherent = record {
  public_rows = λ r i. absurd i;
  private_rows = λ r i. let e = held_revision r i in (omega arith, λ e'. absurd (omega arith));
  named = salus_named;
}

abbrev asked : CatalogRequest
asked = record { channel = ""; platform = ""; authorization = "Bearer secret"; if_none_match = "" }

abbrev salus : Audience
salus = record { platform_id = "salus"; app_ids = "closed" ∷ [] }

abbrev document : Snapshot
document = record {
  revision = 8;
  generated_at = 5;
  etag = "\"sha256:#closed@1.0.0open@2.0.0!\"";
  document = "closed@1.0.0open@2.0.0!";
}

abbrev after_catalog : World
after_catalog = (catalog demo demo_signer "" "" salus 9 later_world).1

catalogued : catalog demo demo_signer "" "" salus 9 later_world ≡ (ok document, after_catalog)
unfolding code
catalogued = refl

salus_has_id : salus.platform_id ≢ ""
salus_has_id e = let t : false ≡ true = (eq_iff "salus" "").1 e in cc

catalog-Built_example :
    Built demo demo_signer "stable" "1.0.0" salus 8 later_db document
    × IsCoherent demo demo_signer after_catalog.db
catalog-Built_example =
    catalog-Built demo demo_signer "" "" salus 9 later_world later-IsCoherent
      (inr (salus_has_id, unfold granted in unfold order_by in refl)) catalogued

abbrev served : World
served = (handle_catalog demo (some demo_signer) asked 9 later_world).1

abbrev answer : CatalogAnswer
answer = record {
  etag = document.etag;
  cache_control = "private, max-age=60";
  vary = "Authorization";
  document = some document.document;
}

serves : handle_catalog demo (some demo_signer) asked 9 later_world ≡ (json 200 answer, served)
unfolding code
serves = refl

handle_catalog-IsAnswer_example :
    IsAnswer demo demo_signer asked
      (audience_in demo (bearer_token "Bearer secret") later_db)
      later_db
      200
      answer
    × IsCoherent demo demo_signer served.db
handle_catalog-IsAnswer_example =
    handle_catalog-IsAnswer demo demo_signer asked 9 later_world later-IsCoherent serves

decide_version-IsCoherent_example :
    IsCoherent demo demo_signer
      (decide_version demo "v4" "publish" "u9" "op@x" "" 9 later_world).1.db
decide_version-IsCoherent_example =
    decide_version-IsCoherent demo demo_signer "v4" "publish" "u9" "op@x" "" 9 later_world
      later-IsCoherent

upsert_app-IsCoherent_example :
    IsCoherent demo demo_signer (upsert_app demo edited_app [] 9 later_world).1.db
upsert_app-IsCoherent_example =
    upsert_app-IsCoherent demo demo_signer edited_app [] 9 later_world later-IsCoherent

submit_manifest-IsCoherent_example :
    IsCoherent demo demo_signer
      (submit_manifest demo open_app "" next_manifest "a@b" "v5" 9 later_world).1.db
submit_manifest-IsCoherent_example =
    submit_manifest-IsCoherent demo demo_signer open_app "" next_manifest "a@b" "v5" 9 later_world
      later-IsCoherent

abbrev granted_world : World
granted_world = (handle_grant demo_caller "salus" "closed" 9 later_world).1

grants : handle_grant demo_caller "salus" "closed" 9 later_world ≡ (
  json 200 (record { platform_id = "salus"; app_id = "closed"; granted = true }),
  granted_world,
)
unfolding code
grants = refl

handle_grant-IsCoherent_example : IsCoherent demo demo_signer granted_world.db
handle_grant-IsCoherent_example =
    handle_grant-IsCoherent demo demo_signer demo_caller "salus" "closed" 9 later_db []
      later-IsCoherent

abbrev revoked_world : World
revoked_world = (handle_revoke demo_caller "salus" "closed" later_world).1

revokes : handle_revoke demo_caller "salus" "closed" later_world ≡ (
  json 200 (record { platform_id = "salus"; app_id = "closed"; granted = false }),
  revoked_world,
)
unfolding code
revokes = refl

handle_revoke-IsCoherent_example : IsCoherent demo demo_signer revoked_world.db
handle_revoke-IsCoherent_example =
    handle_revoke-IsCoherent demo demo_signer demo_caller "salus" "closed" later_db []
      later-IsCoherent

abbrev cached_row : SnapshotRow
cached_row = record {
  channel = "stable";
  platform = "1.0.0";
  snapshot = demo_snapshot;
  built_at = 6;
}

abbrev cached_db : Database
cached_db = record demo_db { snapshots = cached_row ∷ [] }

abbrev stored_world : World
stored_world = (save_snapshot "stable" "2.0.0" nobody demo_snapshot 9 (quiet cached_db [])).1

save_snapshot-IsUnique_example :
    IsUnique stored_world.db.snapshots
    × (length (keep (λ r. r.channel == "stable") stored_world.db.snapshots) ≤ 64)
save_snapshot-IsUnique_example =
    save_snapshot-IsUnique "stable" "2.0.0" demo_snapshot 9 cached_db [] (tt, tt)

abbrev rebuilt_world : World
rebuilt_world = (handle_rebuild_snapshots demo (some demo_signer) (quiet cached_db [])).1

rebuilds :
    handle_rebuild_snapshots demo (some demo_signer) (quiet cached_db [])
    ≡ (json 200 1, rebuilt_world)
unfolding code
rebuilds = refl

handle_rebuild_snapshots-discards_example :
    (◌≡◌ {A = ℕ} 1 (length cached_db.snapshots))
    × (rebuilt_world.db.snapshots ≡ [])
    × (rebuilt_world.db.private_snapshots ≡ cached_db.private_snapshots)
    × (rebuilt_world.db.revision ≡ 7)
handle_rebuild_snapshots-discards_example =
    handle_rebuild_snapshots-discards demo demo_signer (quiet cached_db []) rebuilds
