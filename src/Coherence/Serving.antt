-- ===== src/Coherence/Serving.antt =====
-- Catalog of modules/registry/catalog.go over the caches, from what it reads to what it stores.
use appstore_gerege_nexus.Prelude.{
  String, List, Option, some, ◌≡◌, ◌≢◌, refl, sym, ap, ◌∙◌, arith, ◌⊎◌, inl, inr, ◌==◌, eq_iff,
  Bool-cases, Option-cases, In, subst,
}
use appstore_gerege_nexus.Tables.{Time, Database, Snapshot, SnapshotRow, PrivateSnapshotRow}
use appstore_gerege_nexus.Contract.{Contract}
use appstore_gerege_nexus.World.{Result, ok, World, Exec, statement, execute, defer_to, ignore}
use appstore_gerege_nexus.World.Laws.{
  statement_ok, statement_err, query_ok, pure_ok, bind_ok, execute_either, outcome,
}
use appstore_gerege_nexus.Registry.Platforms.{Audience, nobody, anonymous, has_platform}
use appstore_gerege_nexus.Registry.Signing.{Signer}
use appstore_gerege_nexus.Registry.Build.{build}
use appstore_gerege_nexus.Registry.Build.Contents.{Built, build_ok}
use appstore_gerege_nexus.Registry.Cache.{
  revision, load_snapshot, cached, put_snapshot, put_private, insert_private, prune_rows,
  prune_snapshots, save_snapshot, fresh, or_default, rebuild, serve_held, catalog,
}
use appstore_gerege_nexus.Registry.Cache.Keys.{
  In-put_snapshot, In-put_private, In-prune_rows, fresh-some, cached-nobody, cached_platform,
}
use appstore_gerege_nexus.Coherence.{IsCurrent, IsCoherent, holder_of}
use appstore_gerege_nexus.Coherence.Frames.{same_tables, IsCurrent-frame}

module _ (k : Contract) (signer : Signer) where
  -- An audience as AudienceFor gives it: nobody, or a platform with the apps that it is granted.
  abbrev pub IsAudience : Database → Audience → Type 0
  IsAudience db a =
      (a ≡ nobody) ⊎ ((a.platform_id ≢ "") × (a ≡ holder_of k signer db a.platform_id))

  -- A public row that was added is current.
  pub with_public-IsCoherent :
      (db : Database) (rows : List SnapshotRow)
      → IsCoherent k signer db
      → ((r : SnapshotRow)
          → In r rows
          → IsCurrent k signer db r.channel r.platform nobody r.snapshot)
      → IsCoherent k signer (record db { snapshots = rows })
  unfolding appstore_gerege_nexus.Registry.Platforms.granted
  with_public-IsCoherent db rows c current =
      let db' = record db { snapshots = rows } in
      let view = same_tables k db db' refl refl refl in
      record {
        public_rows = λ r i.
            IsCurrent-frame k signer db db' r.channel r.platform nobody r.snapshot view refl
              (current r i);
        private_rows = λ r i.
            IsCurrent-frame k signer db db' r.channel r.platform
              (holder_of k signer db r.platform_id) r.snapshot view refl (c.private_rows r i);
        named = c.named;
      }

  with_private-IsCoherent :
      (db : Database) (rows : List PrivateSnapshotRow)
      → IsCoherent k signer db
      → ((r : PrivateSnapshotRow)
          → In r rows
          → IsCurrent k signer db r.channel r.platform
              (holder_of k signer db r.platform_id)
              r.snapshot)
      → IsCoherent k signer (record db { private_snapshots = rows })
  unfolding appstore_gerege_nexus.Registry.Platforms.granted
  with_private-IsCoherent db rows c current =
      let db' = record db { private_snapshots = rows } in
      let view = same_tables k db db' refl refl refl in
      record {
        public_rows = λ r i.
            IsCurrent-frame k signer db db' r.channel r.platform nobody r.snapshot view refl
              (c.public_rows r i);
        private_rows = λ r i.
            IsCurrent-frame k signer db db' r.channel r.platform
              (holder_of k signer db r.platform_id) r.snapshot view refl (current r i);
        named = c.named;
      }

  put-IsCoherent :
      (db : Database) (row : SnapshotRow)
      → IsCoherent k signer db
      → IsCurrent k signer db row.channel row.platform nobody row.snapshot
      → IsCoherent k signer (record db { snapshots = put_snapshot row db.snapshots })
  put-IsCoherent db row c new = with_public-IsCoherent db (put_snapshot row db.snapshots) c (λ r i.
      elim (In-put_snapshot row r db.snapshots i) [
        | inl e ↦
            subst
              (λ (x : SnapshotRow). IsCurrent k signer db x.channel x.platform nobody x.snapshot)
              (sym e) new
        | inr j ↦ c.public_rows r j
      ])

  pub prune-IsCoherent :
      (channel : String) (w : World)
      → IsCoherent k signer w.db
      → IsCoherent k signer (prune_snapshots channel w).1.db
  unfolding prune_snapshots
  prune-IsCoherent channel w c =
      let pruned : Database → Database =
        λ db. record db { snapshots = prune_rows channel db.snapshots } in
      elim (execute_either pruned w) [
        | inl e ↦ subst (IsCoherent k signer) (sym e) (
            with_public-IsCoherent w.db (prune_rows channel w.db.snapshots) c
              (λ r i. c.public_rows r (In-prune_rows channel r w.db.snapshots i)))
        | inr e ↦ subst (IsCoherent k signer) (sym e) c
      ]

  put_private-IsCoherent :
      (db : Database) (row : PrivateSnapshotRow)
      → IsCoherent k signer db
      → IsCurrent k signer db row.channel row.platform
          (holder_of k signer db row.platform_id)
          row.snapshot
      → IsCoherent k signer (record db { private_snapshots = put_private row db.private_snapshots })
  put_private-IsCoherent db row c new =
      with_private-IsCoherent db (put_private row db.private_snapshots) c (λ r i.
        elim (In-put_private row r db.private_snapshots i) [
          | inl e ↦
              subst
                (λ (x : PrivateSnapshotRow).
                  IsCurrent k signer db x.channel x.platform (holder_of k signer db x.platform_id)
                    x.snapshot)
                (sym e) new
          | inr j ↦ c.private_rows r j
        ])

  save_public-IsCoherent :
      (channel platform : String) (s : Snapshot) (now : Time) (w : World)
      → IsCoherent k signer w.db
      → IsCurrent k signer w.db channel platform nobody s
      → IsCoherent k signer (save_snapshot channel platform nobody s now w).1.db
  unfolding save_snapshot defer_to
  save_public-IsCoherent channel platform s now w c new =
      let row : SnapshotRow = record {
        channel = channel;
        platform = platform;
        snapshot = s;
        built_at = now;
      } in
      let put : Database → Database =
        λ db. record db { snapshots = put_snapshot row db.snapshots } in
      prune-IsCoherent channel (execute put w).1 (elim (execute_either put w) [
        | inl e ↦ subst (IsCoherent k signer) (sym e) (put-IsCoherent w.db row c new)
        | inr e ↦ subst (IsCoherent k signer) (sym e) c
      ])

  insert_private_ok :
      (row : PrivateSnapshotRow) (db : Database) {u : Unit {0}} {db' : Database}
      → insert_private row db ≡ ok (u, db')
      → record db { private_snapshots = put_private row db.private_snapshots } ≡ db'
  unfolding insert_private
  insert_private_ok row db h = ground arith

  save_private-IsCoherent :
      (channel platform : String) (a : Audience) (s : Snapshot) (now : Time) (w : World)
      → IsCoherent k signer w.db
      → a.platform_id ≢ ""
      → IsCurrent k signer w.db channel platform (holder_of k signer w.db a.platform_id) s
      → IsCoherent k signer (save_snapshot channel platform a s now w).1.db
  unfolding save_snapshot
  save_private-IsCoherent channel platform a s now w c named new =
      elim (Bool-cases (a.platform_id == "")) [
        | inl t ↦ absurd (named ((eq_iff _ _).0 t))
        | inr f ↦ rw f inserted
      ]
    where
      row : PrivateSnapshotRow
      row = record {
        platform_id = a.platform_id;
        channel = channel;
        platform = platform;
        snapshot = s;
        built_at = now;
      }

      inserted : IsCoherent k signer (statement (insert_private row) w).1.db
      inserted = elim (outcome (statement (insert_private row)) w) [
        | inl (u, h) ↦
            subst (IsCoherent k signer)
              (insert_private_ok row w.db (statement_ok (insert_private row) w h).0)
              (put_private-IsCoherent w.db row c new)
        | inr (e, h) ↦
            subst (IsCoherent k signer) (sym (statement_err (insert_private row) w h).0) c
      ]

  -- Storing a current document, done or failed, keeps the caches coherent.
  pub save_snapshot-IsCoherent :
      (channel platform : String) (a : Audience) (s : Snapshot) (now : Time) (w : World)
      → IsCoherent k signer w.db
      → IsAudience w.db a
      → IsCurrent k signer w.db channel platform a s
      → IsCoherent k signer (save_snapshot channel platform a s now w).1.db
  save_snapshot-IsCoherent channel platform a s now w c (inl e) new =
      subst (λ (b : Audience). IsCoherent k signer (save_snapshot channel platform b s now w).1.db)
        (sym e)
        (save_public-IsCoherent channel platform s now w c
          (subst (λ (b : Audience). IsCurrent k signer w.db channel platform b s) e new))
  save_snapshot-IsCoherent channel platform a s now w c (inr (named, e)) new =
      save_private-IsCoherent channel platform a s now w c named
        (subst (λ (b : Audience). IsCurrent k signer w.db channel platform b s) e new)

  held-IsCurrent :
      (channel platform : String) (a : Audience) (db : Database) (s : Snapshot)
      → IsCoherent k signer db
      → IsAudience db a
      → cached channel platform a db ≡ some s
      → IsCurrent k signer db channel platform a s
  held-IsCurrent channel platform a db s c (inl e) held =
      let (r, i, ec, ep, es) =
        cached-nobody channel platform db s
          (subst (λ (b : Audience). cached channel platform b db ≡ some s) e held) in
      subst (λ (b : Audience). IsCurrent k signer db channel platform b s) (sym e)
        (rw (← ec) (rw (← ep) (rw (← es) (c.public_rows r i))))
  held-IsCurrent channel platform a db s c (inr (named, e)) held =
      let (r, i, en, ec, ep, es) = cached_platform channel platform a db s named held in
      subst (λ (b : Audience). IsCurrent k signer db channel platform b s) (sym e)
        (rw (← en) (rw (← ec) (rw (← ep) (rw (← es) (c.private_rows r i)))))

  Built-IsCurrent :
      (channel platform : String) (a : Audience) (db : Database) (s : Snapshot)
      → Built k signer channel platform a db.revision db s
      → IsCurrent k signer db channel platform a s
  Built-IsCurrent channel platform a db s b = let e = b.numbered in (omega arith, λ _. b)

  ignore_ok :
      {A : Type 0} (m : Exec A) (w : World) {u : Unit {0}} {w' : World}
      → ignore m w ≡ (ok u, w')
      → w' ≡ (m w).1
  unfolding ignore
  ignore_ok m w h = ap (λ (p : Result (Unit {0}) × World). p.1) (sym h)

  rebuild-IsCoherent :
      (channel platform : String) (a : Audience) (now : Time) (w : World) {s : Snapshot}
      {w' : World}
      → IsCoherent k signer w.db
      → IsAudience w.db a
      → rebuild k signer channel platform a now w.db.revision w ≡ (ok s, w')
      → Built k signer channel platform a w.db.revision w.db s × IsCoherent k signer w'.db
  unfolding rebuild
  rebuild-IsCoherent channel platform a now w {s} {w'} c who h =
      let (built, v, made, h1) = bind_ok (build k signer channel platform w.db.revision a) _ w h in
      let (_, u, saved, h2) =
        bind_ok (ignore (save_snapshot channel platform a built now)) _ v h1 in
      let (b, same) = build_ok k signer channel platform a w.db.revision w made in
      let (es, eu) = pure_ok built u h2 in
      let stored : u ≡ (save_snapshot channel platform a built now v).1 =
        ignore_ok (save_snapshot channel platform a built now) v saved in
      let kept : IsCoherent k signer (save_snapshot channel platform a built now v).1.db =
        save_snapshot-IsCoherent channel platform a built now v
          (subst (IsCoherent k signer) (sym same) c)
          (subst (λ (db : Database). IsAudience db a) (sym same) who)
          (subst (λ (db : Database). IsCurrent k signer db channel platform a built) (sym same)
            (Built-IsCurrent channel platform a w.db built b)) in
      (
        subst (Built k signer channel platform a w.db.revision w.db) (sym es) b,
        subst (IsCoherent k signer) (sym (eu ∙ ap (λ (x : World). x.db) stored)) kept,
      )

  serve-IsCoherent :
      (channel platform : String) (a : Audience) (now : Time) (held : Option Snapshot) (w : World)
      {s : Snapshot} {w' : World}
      → IsCoherent k signer w.db
      → IsAudience w.db a
      → held ≡ cached channel platform a w.db
      → serve_held k signer channel platform a now w.db.revision (fresh held w.db.revision) w
        ≡ (ok s, w')
      → Built k signer channel platform a w.db.revision w.db s × IsCoherent k signer w'.db
  unfolding serve_held
  serve-IsCoherent channel platform a now held w {s} {w'} c who e h =
      elim (Option-cases (fresh held w.db.revision)) [
        | inl none' ↦ rebuild-IsCoherent channel platform a now w c who (rw none' at h)
        | inr (t, found) ↦
            let (es, ew) = pure_ok t w (rw found at h) in
            let (is_held, number) = fresh-some held w.db.revision t found in
            let (_, current) = held-IsCurrent channel platform a w.db t c who (sym e ∙ is_held) in
            (
              subst (Built k signer channel platform a w.db.revision w.db) (sym es)
                  (current number),
              subst (IsCoherent k signer) (sym ew) c,
            )
      ]

  -- From a coherent cache, for an audience as the tables give it, what Catalog answers, cached or
  -- built, is the document of the tables as they are, at the current revision; and the caches are
  -- coherent afterwards, also where storing the document failed.
  pub catalog-Built :
      (channel platform : String) (a : Audience) (now : Time) (w : World) {s : Snapshot}
      {w' : World}
      → IsCoherent k signer w.db
      → IsAudience w.db a
      → catalog k signer channel platform a now w ≡ (ok s, w')
      → Built k signer
          (or_default channel "stable")
          (or_default platform "1.0.0")
          a
          w.db.revision
          w.db
          s
        × IsCoherent k signer w'.db
  unfolding catalog revision load_snapshot
  catalog-Built asked_channel asked_platform a now w {s} {w'} c who h =
      let channel = or_default asked_channel "stable" in
      let platform = or_default asked_platform "1.0.0" in
      let (current, v, read, h1) = bind_ok revision _ w h in
      let (held, u, loaded, h2) = bind_ok (load_snapshot channel platform a) _ v h1 in
      let (er, dv) = query_ok (λ (db : Database). db.revision) w read in
      let (eh, du) = query_ok (cached channel platform a) v loaded in
      let same = du ∙ dv in
      let number : current ≡ u.db.revision = er ∙ ap (λ (db : Database). db.revision) (sym same) in
      let (b, c') =
        serve-IsCoherent channel platform a now held u (subst (IsCoherent k signer) (sym same) c)
          (subst (λ (db : Database). IsAudience db a) (sym same) who)
          (eh ∙ ap (cached channel platform a) (sym du)) (rw number at h2) in
      (subst (λ (db : Database). Built k signer channel platform a db.revision db s) same b, c')
