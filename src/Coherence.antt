-- ===== src/Coherence.antt =====
-- The contract of the snapshot cache, of modules/registry/catalog.go with the operations of
-- modules/registry that write what a catalogue is built from: a cached document whose revision is
-- the current one is the document that a build would make now. A child for each group of
-- operations has them over such a cache.
pub mod Frames
pub mod Serving
pub mod Publishing
pub mod Registering
pub mod Answers
pub mod Refusals
pub mod Submitting
pub mod Granting
pub mod Access
use appstore_gerege_nexus.Prelude.{ℕ, String, List, ◌≡◌, ◌≢◌, ◌≤◌, In}
use appstore_gerege_nexus.Tables.{Database, Snapshot, SnapshotRow, PrivateSnapshotRow, PlatformRow}
use appstore_gerege_nexus.Contract.{Contract}
use appstore_gerege_nexus.Registry.Platforms.{Audience, nobody, granted}
use appstore_gerege_nexus.Registry.Signing.{Signer}
use appstore_gerege_nexus.Registry.Build.Contents.{Built}

module _ (k : Contract) (signer : Signer) where
  -- What the audience of a platform's cached document is.
  abbrev pub holder_of : Database → String → Audience
  holder_of db platform_id = record {
    platform_id = platform_id;
    app_ids = granted k platform_id db;
  }

  -- A cached document is not of a later revision; one of this revision is what a build gives.
  abbrev pub IsCurrent : Database → (channel platform : String) → Audience → Snapshot → Type 0
  IsCurrent db channel platform audience s =
      (s.revision ≤ db.revision)
      × (s.revision ≡ db.revision → Built k signer channel platform audience db.revision db s)

  pub record IsCoherent (db : Database) : Type 0 where
    pub public_rows :
        (r : SnapshotRow) → In r db.snapshots → IsCurrent db r.channel r.platform nobody r.snapshot
    pub private_rows :
        (r : PrivateSnapshotRow)
        → In r db.private_snapshots
        → IsCurrent db r.channel r.platform (holder_of db r.platform_id) r.snapshot
    pub named : (p : PlatformRow) → In p db.platforms → p.id ≢ ""
