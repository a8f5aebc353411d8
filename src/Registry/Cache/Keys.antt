-- ===== src/Registry/Cache/Keys.antt =====
-- The rows of the cache tables: what a read finds, and what an INSERT and the pruning leave.
use appstore_gerege_nexus.Prelude.{
  ℕ, String, List, [], ◌∷◌, Option, none, some, ◌≡◌, ◌≢◌, arith, ◌⊎◌, inl, inr, ◌==◌, eq_iff,
  Bool-cases, Option-cases, first, In,
}
use appstore_gerege_nexus.Prelude.Membership.{In-keep, first_sound}
use appstore_gerege_nexus.Tables.{Database, Snapshot, SnapshotRow, PrivateSnapshotRow}
use appstore_gerege_nexus.Registry.Platforms.{Audience, nobody}
use appstore_gerege_nexus.Registry.Cache.{
  at_key, at_private_key, put_snapshot, put_private, prune_rows, cached, fresh,
}

pub In-put_snapshot :
    (row r : SnapshotRow) (rows : List SnapshotRow)
    → In r (put_snapshot row rows)
    → (r ≡ row) ⊎ In r rows
unfolding put_snapshot
In-put_snapshot row r [] (inl e) = inl e
In-put_snapshot row r [] (inr i) = absurd i
In-put_snapshot row r (s ∷ rows) h = elim (Bool-cases (at_key row.channel row.platform s)) [
  | inl t ↦ elim (rw t at h) [ inl e ↦ inl e | inr i ↦ inr (inr i) ]
  | inr f ↦ elim (rw f at h) [
    | inl e ↦ inr (inl e)
    | inr i ↦ elim (In-put_snapshot row r rows i) [ inl e ↦ inl e | inr j ↦ inr (inr j) ]
  ]
]

pub In-put_private :
    (row r : PrivateSnapshotRow) (rows : List PrivateSnapshotRow)
    → In r (put_private row rows)
    → (r ≡ row) ⊎ In r rows
unfolding put_private
In-put_private row r [] (inl e) = inl e
In-put_private row r [] (inr i) = absurd i
In-put_private row r (s ∷ rows) h =
    elim (Bool-cases (at_private_key row.platform_id row.channel row.platform s)) [
      | inl t ↦ elim (rw t at h) [ inl e ↦ inl e | inr i ↦ inr (inr i) ]
      | inr f ↦ elim (rw f at h) [
        | inl e ↦ inr (inl e)
        | inr i ↦ elim (In-put_private row r rows i) [ inl e ↦ inl e | inr j ↦ inr (inr j) ]
      ]
    ]

pub In-prune_rows :
    (channel : String) (r : SnapshotRow) (rows : List SnapshotRow)
    → In r (prune_rows channel rows)
    → In r rows
unfolding prune_rows
In-prune_rows channel r rows h = (In-keep _ r rows h).0

-- A document that is fresh is the one that was held, at this revision.
pub fresh-some :
    (held : Option Snapshot) (current : ℕ) (s : Snapshot)
    → fresh held current ≡ some s
    → (held ≡ some s) × (s.revision ≡ current)
fresh-some none current s h = cc
fresh-some (some t) current s h = ground arith

-- The row that a cached public document was read from.
pub cached-nobody :
    (channel platform : String) (db : Database) (s : Snapshot)
    → cached channel platform nobody db ≡ some s
    → (r : SnapshotRow) × In r db.snapshots
      × (r.channel ≡ channel)
      × (r.platform ≡ platform)
      × (r.snapshot ≡ s)
unfolding cached
cached-nobody channel platform db s h =
    elim (Option-cases (first (at_key channel platform) db.snapshots)) [
      | inl e ↦ cc
      | inr (r, e) ↦
          let (i, t) = first_sound (at_key channel platform) r db.snapshots e in
          (
            r,
            i,
            (eq_iff _ _).0 (ground (arith, t)),
            (eq_iff _ _).0 (ground (arith, t)),
            ground arith,
          )
    ]

-- The row that a platform's cached document was read from.
pub cached_platform :
    (channel platform : String) (a : Audience) (db : Database) (s : Snapshot)
    → a.platform_id ≢ ""
    → cached channel platform a db ≡ some s
    → (r : PrivateSnapshotRow) × In r db.private_snapshots
      × (r.platform_id ≡ a.platform_id)
      × (r.channel ≡ channel)
      × (r.platform ≡ platform)
      × (r.snapshot ≡ s)
unfolding cached
cached_platform channel platform a db s named h = elim (Bool-cases (a.platform_id == "")) [
  | inl t ↦ absurd (named ((eq_iff _ _).0 t))
  | inr f ↦
      elim (Option-cases
        (first (at_private_key a.platform_id channel platform) db.private_snapshots)) [
          | inl e ↦ cc
          | inr (r, e) ↦
              let (i, t) =
                first_sound (at_private_key a.platform_id channel platform) r db.private_snapshots
                  e in
              (
                r,
                i,
                (eq_iff _ _).0 (ground (arith, t)),
                (eq_iff _ _).0 (ground (arith, t)),
                (eq_iff _ _).0 (ground (arith, t)),
                ground arith,
              )
        ]
]
