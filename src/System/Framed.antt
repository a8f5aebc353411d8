-- ===== src/System/Framed.antt =====
-- The operations that leave the versions and their events as they are: what is said of those two
-- tables alone, each of them keeps.
mod Writes
mod Catalogue
use appstore_gerege_nexus.Prelude.{String, ◌≡◌}
use appstore_gerege_nexus.Tables.{Time, Database}
use appstore_gerege_nexus.Contract.{Contract, Manifest}
use appstore_gerege_nexus.World.Keeps.{Keeps}
use appstore_gerege_nexus.Registry.Signing.{Signer}
use appstore_gerege_nexus.Registry.Apps.{App}
use appstore_gerege_nexus.Registry.Submissions.{submit_manifest}
use appstore_gerege_nexus.Registry.Decisions.{decide_version}
use appstore_gerege_nexus.Registry.Operators.{actor}
use appstore_gerege_nexus.System.{arrived, IsAny}
use appstore_gerege_nexus.System.Handlers.{Kept, handle_create_platform-Keeps}
use appstore_gerege_nexus.System.Framed.Writes.{
  discard_snapshots-Keeps, discard_private-Keeps, create_platform-Keeps, set_platform_enabled-Keeps,
  handle_grant-Keeps, handle_revoke-Keeps, upsert_publisher-Keeps, set_publisher_verified-Keeps,
  upsert_app-Keeps,
}
use appstore_gerege_nexus.System.Framed.Catalogue.{handle_catalog-Keeps}

module _ (k : Contract) (signer : Signer) (P : Database → Type 0)
    (frame : (db db' : Database)
      → db'.versions ≡ db.versions
      → db'.events ≡ db.events
      → P db
      → P db') where
  -- What the submissions and the decisions keep, every operation of the store keeps.
  pub framed :
      ((a : App) (channel : String) (m : Manifest) (by id : String) (now : Time)
        → Keeps P (submit_manifest k a channel m by id now))
      → ((id action actor_id actor note : String) (now : Time)
          → Keeps P (decide_version k id action actor_id actor note now))
      → Kept k signer IsAny P
  framed submission decision = record {
    catalog = handle_catalog-Keeps k signer P frame;
    discarded = discard_snapshots-Keeps k signer P frame;
    discarded_private = discard_private-Keeps k signer P frame;
    platform = λ caller body minted id now a db _.
        handle_create_platform-Keeps k P caller body minted id now
          (λ name origin note.
            create_platform-Keeps k signer P frame name origin note (actor caller) minted id now)
          (arrived a db);
    enabled = set_platform_enabled-Keeps k signer P frame;
    granted = λ caller platform_id app_id now a db _.
        handle_grant-Keeps k signer P frame caller platform_id app_id now (arrived a db);
    revoked = λ caller platform_id app_id a db _.
        handle_revoke-Keeps k signer P frame caller platform_id app_id (arrived a db);
    profile = upsert_publisher-Keeps k signer P frame;
    app = upsert_app-Keeps k signer P frame;
    submission = submission;
    decision = decision;
    verified = set_publisher_verified-Keeps k signer P frame;
  }
