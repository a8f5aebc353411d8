-- ===== src/Registry/Cache/Bound.antt =====
-- How many documents saveSnapshot of modules/registry/catalog.go leaves in the public cache.
use appstore_gerege_nexus.Prelude.{
  ℕ, zero, suc, ◌≤◌, String, Bool, true, false, not, ◌||◌, List, [], ◌∷◌, map, ◌≡◌, ◌≢◌, refl, sym,
  ap, ◌∙◌, arith, inl, inr, ◌==◌, eq_iff, Bool-cases, length, take, keep, any, All, In, subst,
}
use appstore_gerege_nexus.Prelude.Membership.{In-keep, keep-In, any_sound, In-map, All-In}
use appstore_gerege_nexus.Tables.{Time, Database, Snapshot, SnapshotRow}
use appstore_gerege_nexus.World.{Audit, defer_to, execute, statement, settle, under_faults}
use appstore_gerege_nexus.Registry.Platforms.{nobody}
use appstore_gerege_nexus.Registry.Cache.{
  at_key, newest_platforms, prune_rows, prune_snapshots, put_snapshot, save_snapshot,
}

-- No two rows have one channel and one platform.
abbrev pub IsUnique : List SnapshotRow → Type 0
IsUnique [] = Unit
IsUnique (r ∷ rows) = All (λ s. at_key r.channel r.platform s ≡ false) rows × IsUnique rows

abbrev IsDistinct : List String → Type 0
IsDistinct [] = Unit
IsDistinct (x ∷ xs) = ((y : String) → In y xs → y ≢ x) × IsDistinct xs

length-keep : (p : String → Bool) (ys : List String) → length (keep p ys) ≤ length ys
length-keep p [] = omega arith
length-keep p (y ∷ ys) =
    let h = length-keep p ys in
    elim (Bool-cases (p y)) [ inl t ↦ rw t (omega arith) | inr f ↦ rw f (omega arith) ]

abbrev others : String → List String → List String
others x ys = keep (λ y. not (y == x)) ys

length-others : (x : String) (ys : List String) → In x ys → suc (length (others x ys)) ≤ length ys
length-others x [] i = absurd i
length-others x (y ∷ ys) (inl e) =
    let t : (y == x) ≡ true = (eq_iff y x).1 (sym e) in
    let h = length-keep (λ z. not (z == x)) ys in rw t (omega arith)
length-others x (y ∷ ys) (inr i) =
    let h = length-others x ys i in
    elim (Bool-cases (y == x)) [ inl t ↦ rw t (omega arith) | inr f ↦ rw f (omega arith) ]

-- Distinct names among some others are at most as many.
length-IsDistinct :
    (xs ys : List String)
    → IsDistinct xs
    → ((x : String) → In x xs → In x ys)
    → length xs ≤ length ys
length-IsDistinct [] ys d sub = omega arith
length-IsDistinct (x ∷ xs) ys (new, d) sub =
    let rest = length-IsDistinct xs (others x ys) d (λ z i.
      keep-In (λ y. not (y == x)) z ys (sub z (inr i))
        (elim (Bool-cases (z == x)) [
          | inl t ↦ absurd (new z i ((eq_iff z x).0 t))
          | inr f ↦ rw f refl
        ])) in
    let drop = length-others x ys (sub x (inl refl)) in omega arith

length-take : {A : Type 0} (n : ℕ) (xs : List A) → length (take n xs) ≤ n
length-take zero xs = omega arith
length-take (suc n) [] = omega arith
length-take (suc n) (x ∷ xs) = let h = length-take n xs in omega arith

length-map : {A B : Type 0} (f : A → B) (xs : List A) → length (map f xs) ≡ length xs
length-map f [] = refl
length-map f (x ∷ xs) = ap suc (length-map f xs)

keep-IsUnique :
    (p : SnapshotRow → Bool) (rows : List SnapshotRow) → IsUnique rows → IsUnique (keep p rows)
keep-IsUnique p [] u = tt
keep-IsUnique p (r ∷ rows) (new, u) = elim (Bool-cases (p r)) [
  | inl t ↦ rw t (All-keep rows new, keep-IsUnique p rows u)
  | inr f ↦ rw f (keep-IsUnique p rows u)
]
  where
    All-keep :
        (rows : List SnapshotRow)
        → All (λ s. at_key r.channel r.platform s ≡ false) rows
        → All (λ s. at_key r.channel r.platform s ≡ false) (keep p rows)
    All-keep [] a = tt
    All-keep (s ∷ rows) (e, a) = elim (Bool-cases (p s)) [
      | inl t ↦ rw t (e, All-keep rows a)
      | inr f ↦ rw f (All-keep rows a)
    ]

-- The rows of one channel are told apart by their platforms.
platforms-IsDistinct :
    (channel : String) (rows : List SnapshotRow)
    → ((r : SnapshotRow) → In r rows → r.channel ≡ channel)
    → IsUnique rows
    → IsDistinct (map (λ s. s.platform) rows)
platforms-IsDistinct channel [] all_in u = tt
platforms-IsDistinct channel (r ∷ rows) all_in (new, u) = (
  λ y i e.
      let (s, j, made) = In-map (λ s. s.platform) y rows i in
      let apart = All-In (λ s. at_key r.channel r.platform s ≡ false) s rows new j in
      let c : (s.channel == r.channel) ≡ true =
        (eq_iff s.channel r.channel).1 (all_in s (inr j) ∙ sym (all_in r (inl refl))) in
      let p : (s.platform == r.platform) ≡ true = (eq_iff s.platform r.platform).1 (sym made ∙ e) in
      ground (arith, apart, c, p),
  platforms-IsDistinct channel rows (λ s i. all_in s (inr i)) u,
)

abbrev in_channel : String → SnapshotRow → Bool
in_channel channel s = s.channel == channel

-- A row of the channel that pruning left is on one of the newest platforms.
pruned_platform :
    (channel x : String) (rows : List SnapshotRow)
    → In x (map (λ s. s.platform) (keep (in_channel channel) (prune_rows channel rows)))
    → In x (newest_platforms channel rows)
unfolding prune_rows
pruned_platform channel x rows i =
    let (s, j, made) =
      In-map (λ s. s.platform) x (keep (in_channel channel) (prune_rows channel rows)) i in
    let (l, c) = In-keep (in_channel channel) s (prune_rows channel rows) j in
    let (_, t) =
      In-keep
        (λ s.
          not (s.channel == channel) || any (λ p. p == s.platform) (newest_platforms channel rows))
        s rows l in
    let (p, m, e) =
      any_sound (λ p. p == s.platform) (newest_platforms channel rows) (ground (arith, t, c)) in
    subst (λ (y : String). In y (newest_platforms channel rows))
      ((eq_iff p s.platform).0 e ∙ sym made) m

length-prune_rows :
    (channel : String) (rows : List SnapshotRow)
    → IsUnique (prune_rows channel rows)
    → length (keep (in_channel channel) (prune_rows channel rows)) ≤ 64
unfolding newest_platforms
length-prune_rows channel rows u =
    let left = keep (in_channel channel) (prune_rows channel rows) in
    let same = length-map (λ s. s.platform) left in
    let few =
      length-IsDistinct (map (λ s. s.platform) left) (newest_platforms channel rows)
        (platforms-IsDistinct channel left
          (λ r i.
            (eq_iff r.channel channel).0
              (In-keep (in_channel channel) r (prune_rows channel rows) i).1)
          (keep-IsUnique (in_channel channel) (prune_rows channel rows) u))
        (λ x i. pruned_platform channel x rows i) in
    let top : length (newest_platforms channel rows) ≤ 64 = length-take 64 _ in omega arith

All-put_snapshot :
    (r row : SnapshotRow) (rows : List SnapshotRow)
    → at_key r.channel r.platform row ≡ false
    → All (λ s. at_key r.channel r.platform s ≡ false) rows
    → All (λ s. at_key r.channel r.platform s ≡ false) (put_snapshot row rows)
unfolding put_snapshot
All-put_snapshot r row [] f a = (f, tt)
All-put_snapshot r row (s ∷ rows) f (e, a) = elim (Bool-cases (at_key row.channel row.platform s)) [
  | inl t ↦ rw t (f, a)
  | inr g ↦ rw g (e, All-put_snapshot r row rows f a)
]

-- Rows that are apart from a row are apart from one with the same key.
All-same_key :
    (r row : SnapshotRow) (rows : List SnapshotRow)
    → r.channel ≡ row.channel
    → r.platform ≡ row.platform
    → All (λ s. at_key r.channel r.platform s ≡ false) rows
    → All (λ s. at_key row.channel row.platform s ≡ false) rows
All-same_key r row rows c p a =
    subst (λ (x : String). All (λ s. at_key row.channel x s ≡ false) rows) p
      (subst (λ (x : String). All (λ s. at_key x r.platform s ≡ false) rows) c a)

put_snapshot-IsUnique :
    (row : SnapshotRow) (rows : List SnapshotRow) → IsUnique rows → IsUnique (put_snapshot row rows)
unfolding put_snapshot
put_snapshot-IsUnique row [] u = (tt, tt)
put_snapshot-IsUnique row (r ∷ rows) (new, u) =
    elim (Bool-cases (at_key row.channel row.platform r)) [
      | inl t ↦
          let c : r.channel ≡ row.channel = (eq_iff r.channel row.channel).0 (ground (arith, t)) in
          let p : r.platform ≡ row.platform =
            (eq_iff r.platform row.platform).0 (ground (arith, t)) in
          rw t (All-same_key r row rows c p new, u)
      | inr f ↦
          let f' : at_key r.channel r.platform row ≡ false = ground (
            arith,
            f,
            eq_iff row.channel r.channel,
            eq_iff r.channel row.channel,
            eq_iff row.platform r.platform,
            eq_iff r.platform row.platform,
          ) in
          rw f (All-put_snapshot r row rows f' new, put_snapshot-IsUnique row rows u)
    ]

prune_rows-IsUnique :
    (channel : String) (rows : List SnapshotRow)
    → IsUnique rows
    → IsUnique (prune_rows channel rows)
unfolding prune_rows
prune_rows-IsUnique channel rows u = keep-IsUnique _ rows u

-- Storing a public document, where no statement fails, keeps the rows of the public cache apart by
-- channel and platform, and leaves at most 64 of them in the document's channel.
pub save_snapshot-IsUnique :
    (channel platform : String) (s : Snapshot) (now : Time) (db : Database) (audits : List Audit)
    → IsUnique db.snapshots
    → IsUnique
        (save_snapshot channel platform nobody s now
          (record { db = db; faults = []; audits = audits })).1.db.snapshots
      × (length (
            keep
              (λ r. r.channel == channel)
              (save_snapshot channel platform nobody s now
                (record { db = db; faults = []; audits = audits })).1.db.snapshots)
          ≤ 64)
unfolding save_snapshot prune_snapshots defer_to execute statement settle under_faults
save_snapshot-IsUnique channel platform s now db audits u =
    let row : SnapshotRow = record {
      channel = channel;
      platform = platform;
      snapshot = s;
      built_at = now;
    } in
    let kept =
      prune_rows-IsUnique channel (put_snapshot row db.snapshots)
        (put_snapshot-IsUnique row db.snapshots u) in
    (kept, length-prune_rows channel (put_snapshot row db.snapshots) kept)
