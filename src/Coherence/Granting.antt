-- ===== src/Coherence/Granting.antt =====
-- The grants of one platform in modules/registry/platforms.go, and the caches when they change.
use appstore_gerege_nexus.Prelude.{
  String, Bool, true, false, not, ◌&&◌, List, [], ◌∷◌, ◌++◌, map, Option, none, some, ◌≡◌, ◌≢◌,
  refl, sym, ap, ◌∙◌, arith, inl, inr, ◌==◌, eq_iff, Bool-cases, In, keep, any, subst,
}
use appstore_gerege_nexus.Prelude.Membership.{In-keep}
use appstore_gerege_nexus.Sorting.{order_by}
use appstore_gerege_nexus.Tables.{Database, GrantRow, PrivateSnapshotRow}
use appstore_gerege_nexus.Contract.{Contract}
use appstore_gerege_nexus.World.{
  Result, ok, err, World, Audit, settle, under_faults, statement, query, pure, raise, ◌>>=◌,
}
use appstore_gerege_nexus.Registry.Platforms.{
  Audience, nobody, granted, is_grant, has_platform, insert_grant, delete_grant, without_private,
}
use appstore_gerege_nexus.Registry.Publishers.{or_not_found}
use appstore_gerege_nexus.Registry.Apps.{App, find_app, app_by_id}
use appstore_gerege_nexus.Registry.Signing.{Signer}
use appstore_gerege_nexus.Coherence.{IsCurrent, IsCoherent, holder_of}
use appstore_gerege_nexus.Coherence.Frames.{SameView, same_tables, granted_same, IsCurrent-frame}

-- A world in which no statement to come fails.
abbrev pub quiet : Database → List Audit → World
quiet db audits = record { db = db; faults = []; audits = audits }

-- Only grants to the platform have changed.
pub record Regranted (platform_id : String) (db db' : Database) : Type 0 where
  pub same : db' ≡ record db { grants = db'.grants }
  pub others :
      (id : String)
      → id ≢ platform_id
      → keep (λ g. g.platform_id == id) db'.grants ≡ keep (λ g. g.platform_id == id) db.grants

no_match : (a b : String) → a ≢ b → (b == a) ≡ false
no_match a b ne = elim (Bool-cases (b == a)) [
  | inl t ↦ absurd (ne (sym ((eq_iff b a).0 t)))
  | inr f ↦ f
]

-- Filters that drop what another filter drops anyway.
keep-append_other :
    (p : GrantRow → Bool) (rows : List GrantRow) (row : GrantRow)
    → p row ≡ false
    → keep p (rows ++ row ∷ []) ≡ keep p rows
keep-append_other p [] row f = rw f
keep-append_other p (g ∷ rows) row f = rw (keep-append_other p rows row f)

keep-keep_other :
    (p q : GrantRow → Bool) (rows : List GrantRow)
    → ((g : GrantRow) → p g ≡ true → q g ≡ true)
    → keep p (keep q rows) ≡ keep p rows
keep-keep_other p q [] sub = refl
keep-keep_other p q (g ∷ rows) sub = elim (Bool-cases (q g)) [
  | inl t ↦ rw (t, keep-keep_other p q rows sub)
  | inr f ↦ elim (Bool-cases (p g)) [
    | inl t ↦ cc (sub g t, f)
    | inr n ↦ rw (f, n) (keep-keep_other p q rows sub)
  ]
]

pub insert_grant-Regranted :
    (row : GrantRow) (db : Database) {u : Unit {0}} {db' : Database}
    → insert_grant row db ≡ ok (u, db')
    → Regranted row.platform_id db db'
unfolding insert_grant
insert_grant-Regranted row db {u} {db'} h =
    elim (Bool-cases (any (is_grant row.app_id row.platform_id) db.grants)) [
      | inl t ↦ let h' = rw t at h in unchanged (ground arith)
      | inr f ↦
          let h' = rw f at h in
          elim (Bool-cases
            (any (λ a. a.id == row.app_id) db.apps && has_platform row.platform_id db)) [
              | inl t ↦ let h'' = rw t at h' in appended (ground arith)
              | inr g ↦ let h'' = rw g at h' in cc
            ]
    ]
  where
    unchanged : db ≡ db' → Regranted row.platform_id db db'
    unchanged e =
        subst (Regranted row.platform_id db) e (record { same = refl; others = λ id ne. refl })

    appended : record db { grants = db.grants ++ row ∷ [] } ≡ db' → Regranted row.platform_id db db'
    appended e = subst (Regranted row.platform_id db) e (record {
      same = refl;
      others = λ id ne.
          keep-append_other (λ g. g.platform_id == id) db.grants row
            (no_match id row.platform_id ne);
    })

pub delete_grant-Regranted :
    (app_id platform_id : String) (db : Database)
    → Regranted platform_id db (delete_grant app_id platform_id db)
unfolding delete_grant
delete_grant-Regranted app_id platform_id db = record {
  same = refl;
  others = λ id ne.
      keep-keep_other (λ g. g.platform_id == id) (λ g. not (is_grant app_id platform_id g))
        db.grants
        (λ g t.
          let e : g.platform_id ≡ id = (eq_iff _ _).0 t in
          let f : (g.platform_id == platform_id) ≡ false =
            rw e (no_match platform_id id (λ d. ne (sym d))) in
          ground arith);
}

-- What is left of a platform's cached documents, when they are dropped.
In-without_private :
    (platform_id : String) (r : PrivateSnapshotRow) (db : Database)
    → In r (without_private platform_id db).private_snapshots
    → In r db.private_snapshots × (r.platform_id ≢ platform_id)
unfolding without_private
In-without_private platform_id r db i = elim (Bool-cases (platform_id == "")) [
  | inl t ↦ absurd (rw t at i)
  | inr f ↦
      let (j, kept) =
        In-keep (λ s. not (s.platform_id == platform_id)) r db.private_snapshots (rw f at i) in
      (j, λ e. let t = (eq_iff r.platform_id platform_id).1 e in ground arith)
]

pub app_by_id-quiet :
    (id : String) (db : Database) (audits : List Audit) {a : App} {v : World}
    → app_by_id id (quiet db audits) ≡ (ok a, v)
    → v ≡ quiet db audits
unfolding app_by_id query statement settle under_faults ◌>>=◌ or_not_found pure raise
app_by_id-quiet id db audits {a} {v} h = by_row (find_app (λ a. a.id == id) db) h
  where
    by_row :
        (row : Option App) → or_not_found row (quiet db audits) ≡ (ok a, v) → v ≡ quiet db audits
    by_row none h = cc
    by_row (some b) h = ap (λ (p : Result App × World). p.1) (sym h)

pub grant-quiet :
    (row : GrantRow) (db : Database) (audits : List Audit) {u : Unit {0}} {v : World}
    → statement (insert_grant row) (quiet db audits) ≡ (ok u, v)
    → (insert_grant row db ≡ ok (u, v.db)) × (v ≡ quiet v.db audits)
unfolding statement settle under_faults
grant-quiet row db audits {u} {v} h = by_result (insert_grant row db) h
  where
    by_result :
        (r : Result (Unit {0} × Database))
        → settle r (quiet db audits) ≡ (ok u, v)
        → (r ≡ ok (u, v.db)) × (v ≡ quiet v.db audits)
    by_result (err e) h = cc
    by_result (ok (u', db')) h =
        let e : quiet db' audits ≡ v = ap (λ (p : Result (Unit {0}) × World). p.1) h in
        (
          ap (λ (d : Database). ok (u', d)) (ap (λ (x : World). x.db) e),
          sym e ∙ ap (λ (d : Database). quiet d audits) (ap (λ (x : World). x.db) e),
        )

module _ (k : Contract) (signer : Signer) where
  granted_others :
      (platform_id id : String) (db db' : Database)
      → Regranted platform_id db db'
      → id ≢ platform_id
      → granted k id db ≡ granted k id db'
  unfolding granted
  granted_others platform_id id db db' r ne =
      ap (λ (gs : List GrantRow). order_by k.collate (map (λ g. g.app_id) gs))
        (sym (r.others id ne))

  -- The grants of one platform changed, and its cached documents went.
  pub Regranted-IsCoherent :
      (platform_id : String) (db db' : Database)
      → IsCoherent k signer db
      → Regranted platform_id db db'
      → IsCoherent k signer (without_private platform_id db')
  unfolding without_private granted
  Regranted-IsCoherent platform_id db db' c r = record {
    public_rows = λ row i.
        IsCurrent-frame k signer db gone row.channel row.platform nobody row.snapshot view number
          (c.public_rows row (subst (In row) snapshots i));
    private_rows = λ row i.
        let (j, ne) = In-without_private platform_id row db' i in
        subst (λ (a : Audience). IsCurrent k signer gone row.channel row.platform a row.snapshot)
          (holder row.platform_id ne)
          (IsCurrent-frame k signer db gone row.channel row.platform
            (holder_of k signer db row.platform_id) row.snapshot view number
            (c.private_rows row
              (subst (In row) (ap (λ (d : Database). d.private_snapshots) r.same) j)));
    named = λ row i. c.named row (subst (In row) platforms i);
  }
    where
      gone : Database
      gone = without_private platform_id db'

      view : SameView k db gone
      view =
          same_tables k db gone (ground (arith, ap (λ (d : Database). d.apps) r.same))
            (ground (arith, ap (λ (d : Database). d.versions) r.same))
            (ground (arith, ap (λ (d : Database). d.texts) r.same))

      number : db.revision ≡ gone.revision
      number = ground (arith, ap (λ (d : Database). d.revision) r.same)

      snapshots : gone.snapshots ≡ db.snapshots
      snapshots = ground (arith, ap (λ (d : Database). d.snapshots) r.same)

      platforms : gone.platforms ≡ db.platforms
      platforms = ground (arith, ap (λ (d : Database). d.platforms) r.same)

      grants : gone.grants ≡ db'.grants
      grants = ground arith

      holder :
          (id : String) → id ≢ platform_id → holder_of k signer db id ≡ holder_of k signer gone id
      holder id ne = λ i. record {
        platform_id = id;
        app_ids =
            (granted_others platform_id id db db' r ne ∙ granted_same k db' gone id (sym grants)) i;
      }
