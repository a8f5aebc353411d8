-- ===== src/Coherence/Frames.antt =====
-- What a build of modules/registry/catalog.go reads of the tables, and tables that agree on it.
use mathlib.Core.Path.{ap₂}
use mathlib.Core.List.{flat_map}
use appstore_gerege_nexus.Prelude.{
  ℕ, ◌+◌, String, List, [], ◌∷◌, map, none, ◌≡◌, ◌≢◌, refl, sym, ap, ◌∙◌, arith, ◌==◌, keep, In,
  subst,
}
use appstore_gerege_nexus.Sorting.{order_by}
use appstore_gerege_nexus.Tables.{
  Database, Snapshot, PlatformRow, AppTextRow, AppRow, VersionRow, GrantRow,
}
use appstore_gerege_nexus.Contract.{Contract, CatalogApp}
use appstore_gerege_nexus.Registry.Platforms.{Audience, granted}
use appstore_gerege_nexus.Registry.Signing.{Signer, sign_document}
use appstore_gerege_nexus.Registry.Build.{
  Row, none_chosen, offered, id_le, texts_of, with_texts, row_le, catalog_rows, choose_all,
}
use appstore_gerege_nexus.Registry.Build.Rows.{of_release}
use appstore_gerege_nexus.Registry.Build.Contents.{Built, localised}
use appstore_gerege_nexus.Coherence.{IsCurrent, IsCoherent, holder_of}

-- The two databases give the same rows and the same translations.
pub record SameView (k : Contract) (db db' : Database) : Type 0 where
  pub rows :
      (channel : String) (ids : List String)
      → catalog_rows k channel ids db ≡ catalog_rows k channel ids db'
  pub texts : (id : String) → texts_of id db ≡ texts_of id db'

module _ (k : Contract) where
  -- The catalogue query as a function of the two tables that it joins.
  abbrev rows_from : String → List String → List VersionRow → List AppRow → List Row
  rows_from channel ids versions apps = order_by (row_le k) (
      flat_map
        (λ a. map (λ v. record { app = a; version = v }) (keep (of_release channel a) versions))
        (keep (offered ids) apps))

  -- Tables that a build does not read may change.
  pub same_tables :
      (db db' : Database)
      → db.apps ≡ db'.apps
      → db.versions ≡ db'.versions
      → db.texts ≡ db'.texts
      → SameView k db db'
  unfolding catalog_rows texts_of
  same_tables db db' a v t = record {
    rows = λ channel ids. ap₂ (rows_from channel ids) v a;
    texts = λ id.
        ap (λ (ts : List AppTextRow). map (λ t. (t.locale, t.text)) (keep (λ t. t.app_id == id) ts))
          t;
  }

  localised_same :
      (db db' : Database) (apps : List CatalogApp)
      → SameView k db db'
      → map (localised db) apps ≡ map (localised db') apps
  localised_same db db' [] v = refl
  localised_same db db' (a ∷ apps) v =
      ap₂ ◌∷◌ (ap (with_texts a) (v.texts a.id)) (localised_same db db' apps v)

  module _ (signer : Signer) (channel platform : String) (audience : Audience) where
    pub Built-frame :
        (revision : ℕ) (db db' : Database) (s : Snapshot)
        → SameView k db db'
        → Built k signer channel platform audience revision db s
        → Built k signer channel platform audience revision db' s
    Built-frame revision db db' s v b =
        let same = localised_same db db' b.chosen.apps v in
        record {
          chosen = b.chosen;
          from_rows =
              ap (λ (rs : List Row). choose_all k platform rs none_chosen)
                (sym (v.rows channel audience.app_ids))
              ∙ b.from_rows;
          validated =
              subst (λ (as' : List CatalogApp). k.validate_catalog as' platform ≡ none) same
                b.validated;
          signed =
              ap
                (λ (as' : List CatalogApp).
                  sign_document k signer b.chosen.generated_at (order_by id_le as'))
                (sym same)
              ∙ b.signed;
          numbered = b.numbered;
          tagged = b.tagged;
        }

  pub granted_same :
      (db db' : Database) (platform_id : String)
      → db.grants ≡ db'.grants
      → granted k platform_id db ≡ granted k platform_id db'
  unfolding granted
  granted_same db db' platform_id g =
      ap
        (λ (gs : List GrantRow).
          order_by k.collate (map (λ g. g.app_id) (keep (λ g. g.platform_id == platform_id) gs)))
        g

  module _ (signer : Signer) where
    pub holder_same :
        (db db' : Database) (platform_id : String)
        → db.grants ≡ db'.grants
        → holder_of k signer db platform_id ≡ holder_of k signer db' platform_id
    holder_same db db' platform_id g =
        λ i. record { platform_id = platform_id; app_ids = granted_same db db' platform_id g i }

    pub IsCurrent-frame :
        (db db' : Database) (channel platform : String) (audience : Audience) (s : Snapshot)
        → SameView k db db'
        → db.revision ≡ db'.revision
        → IsCurrent k signer db channel platform audience s
        → IsCurrent k signer db' channel platform audience s
    IsCurrent-frame db db' channel platform audience s v r (old, current) = (
      omega arith,
      λ e.
          subst (λ (n : ℕ). Built k signer channel platform audience n db' s) r
            (Built-frame signer channel platform audience db.revision db db' s v
              (current (e ∙ sym r))),
    )

    -- An operation that bumps the revision, and leaves the caches alone, makes every cached document
    -- one of an earlier revision.
    pub bumped-IsCoherent :
        (db db' : Database)
        → IsCoherent k signer db
        → db'.snapshots ≡ db.snapshots
        → db'.private_snapshots ≡ db.private_snapshots
        → db'.platforms ≡ db.platforms
        → db'.revision ≡ db.revision + 1
        → IsCoherent k signer db'
    bumped-IsCoherent db db' c s p q r = record {
      public_rows = λ row i.
          let (old, _) = c.public_rows row (subst (In row) s i) in
          (omega arith, λ e. absurd (omega arith));
      private_rows = λ row i.
          let (old, _) = c.private_rows row (subst (In row) p i) in
          (omega arith, λ e. absurd (omega arith));
      named = λ row i. c.named row (subst (In row) q i);
    }

    -- An operation that leaves alone what a build reads, the caches and the grants.
    pub untouched-IsCoherent :
        (db db' : Database)
        → IsCoherent k signer db
        → SameView k db db'
        → db.revision ≡ db'.revision
        → db'.snapshots ≡ db.snapshots
        → db'.private_snapshots ≡ db.private_snapshots
        → db'.grants ≡ db.grants
        → ((p : PlatformRow) → In p db'.platforms → p.id ≢ "")
        → IsCoherent k signer db'
    untouched-IsCoherent db db' c v r s p g named = record {
      public_rows = λ row i.
          IsCurrent-frame db db' row.channel row.platform _ row.snapshot v r
            (c.public_rows row (subst (In row) s i));
      private_rows = λ row i.
          subst (λ (a : Audience). IsCurrent k signer db' row.channel row.platform a row.snapshot)
            (holder_same db db' row.platform_id (sym g))
            (IsCurrent-frame db db' row.channel row.platform _ row.snapshot v r
              (c.private_rows row (subst (In row) p i)));
      named = named;
    }
