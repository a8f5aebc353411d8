-- ===== src/Registry/Cache.antt =====
-- The snapshot cache of modules/registry/catalog.go: one table for the public documents, pruned
-- for each channel, and one for the documents of the platforms that hold grants. Revision and
-- DiscardSnapshots of store.go are here too.
pub mod Keys
pub mod Bound
use appstore_gerege_nexus.Prelude.{
  ℕ, ◌+◌, String, Bool, true, false, not, ◌&&◌, ◌||◌, List, [], ◌∷◌, ◌++◌, map, Option, none, some,
  ◌==◌, leb, eqb, length, take, keep, first, any, if◌then◌else◌,
}
use appstore_gerege_nexus.Text.{length_text}
use appstore_gerege_nexus.Tables.{Time, Database, Snapshot, SnapshotRow, PrivateSnapshotRow}
use appstore_gerege_nexus.Contract.{Contract}
use appstore_gerege_nexus.Sorting.{order_by}
use appstore_gerege_nexus.World.{
  Exec, Result, ok, err, failure, statement, query, execute, pure, defer_to, ignore, ◌>>=◌, ◌>>◌,
}
use appstore_gerege_nexus.Registry.Platforms.{Audience, anonymous, has_platform}
use appstore_gerege_nexus.Registry.Signing.{Signer}
use appstore_gerege_nexus.Registry.Build.{build}

-- Store.Revision
unfoldable pub revision : Exec ℕ
revision = query (λ db. db.revision)

-- DiscardSnapshots: it answers how many rows there were.
unfoldable pub discard_snapshots : Exec ℕ
discard_snapshots = statement (λ db. ok (length db.snapshots, record db { snapshots = [] }))

-- bumpRevision
unfoldable pub bump_revision : Exec (Unit {0})
bump_revision = execute (λ db. record db { revision = db.revision + 1 })

abbrev pub at_key : String → String → SnapshotRow → Bool
at_key channel platform s = s.channel == channel && s.platform == platform

abbrev pub at_private_key : String → String → String → PrivateSnapshotRow → Bool
at_private_key platform_id channel platform s =
    s.platform_id == platform_id && (s.channel == channel && s.platform == platform)

abbrev pub snapshot_in : Option SnapshotRow → Option Snapshot
snapshot_in none = none
snapshot_in (some s) = some s.snapshot

abbrev pub private_snapshot_in : Option PrivateSnapshotRow → Option Snapshot
private_snapshot_in none = none
private_snapshot_in (some s) = some s.snapshot

-- The cached document of an audience.
unfoldable pub cached : (channel platform : String) → Audience → Database → Option Snapshot
cached channel platform audience db =
    if anonymous audience
    then snapshot_in (first (at_key channel platform) db.snapshots)
    else private_snapshot_in
        (first (at_private_key audience.platform_id channel platform) db.private_snapshots)

-- loadSnapshot
unfoldable pub load_snapshot : (channel platform : String) → Audience → Exec (Option Snapshot)
load_snapshot channel platform audience = query (cached channel platform audience)

abbrev pub max_snapshots_per_channel : ℕ
max_snapshots_per_channel = 64

-- ORDER BY built_at DESC
abbrev pub newer_first : SnapshotRow → SnapshotRow → Bool
newer_first s t = leb t.built_at s.built_at

-- SELECT platform … WHERE channel = $1 ORDER BY built_at DESC LIMIT $2
unfoldable pub newest_platforms : String → List SnapshotRow → List String
newest_platforms channel rows =
    take max_snapshots_per_channel
      (map (λ s. s.platform) (order_by newer_first (keep (λ s. s.channel == channel) rows)))

unfoldable pub prune_rows : String → List SnapshotRow → List SnapshotRow
unfolding newest_platforms
prune_rows channel rows =
    keep
      (λ s.
        not (s.channel == channel) || any (λ p. p == s.platform) (newest_platforms channel rows))
      rows

-- pruneSnapshots
unfoldable pub prune_snapshots : String → Exec (Unit {0})
unfolding prune_rows
prune_snapshots channel = execute (λ db. record db { snapshots = prune_rows channel db.snapshots })

-- INSERT … ON CONFLICT (channel, platform) DO UPDATE: the row in place, or one more row.
unfoldable pub put_snapshot : SnapshotRow → List SnapshotRow → List SnapshotRow
put_snapshot row [] = row ∷ []
put_snapshot row (s ∷ rows) =
    let rest = put_snapshot row rows in
    if at_key row.channel row.platform s then row ∷ rows else s ∷ rest

unfoldable pub put_private : PrivateSnapshotRow → List PrivateSnapshotRow → List PrivateSnapshotRow
put_private row [] = row ∷ []
put_private row (s ∷ rows) =
    let rest = put_private row rows in
    if at_private_key row.platform_id row.channel row.platform s then row ∷ rows else s ∷ rest

-- The INSERT under the constraints of the migration: the platform is registered, and the version
-- that it asked for fits its column.
unfoldable pub insert_private : PrivateSnapshotRow → Database → Result (Unit {0} × Database)
unfolding put_private
insert_private row db =
    if has_platform row.platform_id db && leb (length_text row.platform) 32
    then ok (tt, record db { private_snapshots = put_private row db.private_snapshots })
    else err (failure "constraint")

-- saveSnapshot: only the public cache is pruned, and it is whatever the INSERT answered.
unfoldable pub save_snapshot :
    (channel platform : String) → Audience → Snapshot → Time → Exec (Unit {0})
unfolding insert_private put_snapshot prune_snapshots
save_snapshot channel platform audience s now =
    if anonymous audience
    then defer_to
        (execute λ db. record db {
          snapshots =
              put_snapshot
                (record { channel = channel; platform = platform; snapshot = s; built_at = now })
                db.snapshots;
        })
        (prune_snapshots channel)
    else statement (
        insert_private (record {
          platform_id = audience.platform_id;
          channel = channel;
          platform = platform;
          snapshot = s;
          built_at = now;
        }))

-- held != nil && held.Revision == revision
abbrev pub fresh : Option Snapshot → ℕ → Option Snapshot
fresh none current = none
fresh (some s) current = if eqb s.revision current then some s else none

abbrev pub or_default : String → String → String
or_default s d = if s == "" then d else s

module _ (k : Contract) (signer : Signer) where
  -- The part of Catalog that builds and stores; a document that could not be stored is answered.
  unfoldable pub rebuild : (channel platform : String) → Audience → Time → ℕ → Exec Snapshot
  rebuild channel platform audience now current = do
    built ← build k signer channel platform current audience
    ignore (save_snapshot channel platform audience built now)
    pure built

  unfoldable pub serve_held :
      (channel platform : String) → Audience → Time → ℕ → Option Snapshot → Exec Snapshot
  unfolding rebuild
  serve_held channel platform audience now current none =
      rebuild channel platform audience now current
  serve_held channel platform audience now current (some s) = pure s

  -- Catalog; NewCatalogService makes "1.0.0" the default platform.
  unfoldable pub catalog : (channel platform : String) → Audience → Time → Exec Snapshot
  unfolding serve_held
  catalog asked_channel asked_platform audience now = do
    let channel = or_default asked_channel "stable"
    let platform = or_default asked_platform "1.0.0"
    current ← revision
    held ← load_snapshot channel platform audience
    serve_held channel platform audience now current (fresh held current)
