-- ===== src/Registry/Build/Offers.antt =====
-- What the document of a catalogue offers, of modules/registry/catalog.go: to whom, and in which
-- versions.
use appstore_gerege_nexus.Prelude.{
  ℕ, String, true, false, List, [], ◌∷◌, map, ◌≡◌, refl, sym, ap, ◌∙◌, ◌⊎◌, inl, inr, ◌==◌, eq_iff,
  In, All, subst,
}
use appstore_gerege_nexus.Prelude.Membership.{In-map, map-In, first_sound}
use appstore_gerege_nexus.Sorting.{order_by}
use appstore_gerege_nexus.Sorting.Laws.{In-order_by, order_by-In}
use appstore_gerege_nexus.Tables.{Time, Database, Snapshot, AppRow, VersionRow, published, AppText}
use appstore_gerege_nexus.Contract.{Contract, CatalogApp}
use appstore_gerege_nexus.World.{Result, ok, err, World}
use appstore_gerege_nexus.Registry.Platforms.{Audience}
use appstore_gerege_nexus.Registry.Signing.{Signer, sign_document}
use appstore_gerege_nexus.Registry.Build.{
  Row, Chosen, none_chosen, offered, texts_of, with_texts, id_le, catalog_rows, platform_allows,
  choose_all, etag_of, build,
}
use appstore_gerege_nexus.Registry.Build.Rows.{In-catalog_rows, catalog_rows-In, of_release}
use appstore_gerege_nexus.Registry.Build.Choice.{FromRow, choose_all-FromRow}
use appstore_gerege_nexus.Registry.Build.Distinct.{Distinct, Distinct-order_by, choose_all-Distinct}
use appstore_gerege_nexus.Registry.Build.Newest.{NewerOrder, choose_all-Offers}
use appstore_gerege_nexus.Registry.Build.Contents.{Built, localised, build_ok}

id-localised : (db : Database) (a : CatalogApp) → (localised db a).id ≡ a.id
id-localised db a = by_texts (texts_of a.id db)
  where
    by_texts : (ts : List (String × AppText)) → (with_texts a ts).id ≡ a.id
    by_texts [] = refl
    by_texts (t ∷ ts) = refl

version-localised : (db : Database) (a : CatalogApp) → (localised db a).version ≡ a.version
version-localised db a = by_texts (texts_of a.id db)
  where
    by_texts : (ts : List (String × AppText)) → (with_texts a ts).version ≡ a.version
    by_texts [] = refl
    by_texts (t ∷ ts) = refl

Distinct-All-map :
    (db : Database) (i : String) (apps : List CatalogApp)
    → All (λ b. (i == b.id) ≡ false) apps
    → All (λ b. (i == b.id) ≡ false) (map (localised db) apps)
Distinct-All-map db i [] a = tt
Distinct-All-map db i (b ∷ apps) (p, a) = (rw (id-localised db b) p, Distinct-All-map db i apps a)

Distinct-localised :
    (db : Database) (apps : List CatalogApp) → Distinct apps → Distinct (map (localised db) apps)
Distinct-localised db [] d = tt
Distinct-localised db (a ∷ apps) (p, d) = (
  Distinct-All-map db (localised db a).id apps
      (subst (λ (i : String). All (λ b. (i == b.id) ≡ false) apps) (sym (id-localised db a)) p),
  Distinct-localised db apps d,
)

module _ (k : Contract) (signer : Signer) (channel platform : String) (audience : Audience) where
  -- Why an entry is in a document: a published version in the channel that the platform can run,
  -- of an app that is public or that the audience has been granted.
  pub record Served (db : Database) (a : CatalogApp) : Type 0 where
    pub app : AppRow
    pub registered : In app db.apps
    pub version : VersionRow
    pub released : In version db.versions
    pub owner : version.app_id ≡ app.id
    pub channel_is : version.channel ≡ channel
    pub status : version.status ≡ published
    pub runs : platform_allows k version.min_platform platform ≡ true
    pub offer : (app.visibility ≡ "public") ⊎ In app.id audience.app_ids
    pub id : a.id ≡ app.id
    pub number : a.version ≡ version.version

  -- The entries of the document that the tables give.
  abbrev entries_of : Database → Result Chosen → List CatalogApp
  entries_of db (err e) = []
  entries_of db (ok c) = order_by id_le (map (localised db) c.apps)

  unfoldable pub entries : Database → List CatalogApp
  entries db =
      entries_of db (choose_all k platform (catalog_rows k channel audience.app_ids db) none_chosen)

  -- The entries that a snapshot's document was signed over, and what it says of that document.
  pub record SignedOver (revision : ℕ) (s : Snapshot) (apps : List CatalogApp) : Type 0 where
    pub at : Time
    pub signed : sign_document k signer at apps ≡ ok (s.document, s.generated_at)
    pub numbered : s.revision ≡ revision
    pub tagged : s.etag ≡ etag_of k s.document

  row-Served :
      (db : Database) (a : CatalogApp)
      → FromRow k platform (catalog_rows k channel audience.app_ids db) a
      → Served db (localised db a)
  row-Served db a f =
      let r = In-catalog_rows k channel audience.app_ids db f.row f.read in
      record {
        app = f.row.app;
        registered = r.app;
        version = f.row.version;
        released = r.version;
        owner = r.owner;
        channel_is = r.channel_is;
        status = r.status;
        runs = f.allowed;
        offer = r.offer;
        id = id-localised db a ∙ ap (λ (b : CatalogApp). b.id) f.entry;
        number = version-localised db a ∙ ap (λ (b : CatalogApp). b.version) f.entry;
      }

  listed-Served :
      (db : Database) (c : Chosen) (a : CatalogApp)
      → choose_all k platform (catalog_rows k channel audience.app_ids db) none_chosen ≡ ok c
      → In a (map (localised db) c.apps)
      → Served db a
  listed-Served db c a h i =
      let (b, j, e) = In-map (localised db) a c.apps i in
      elim (choose_all-FromRow k platform _ none_chosen c b h j) [
        | inl f ↦ subst (Served db) (sym e) (row-Served db b f)
        | inr x ↦ absurd x
      ]

  Built-entries :
      (revision : ℕ) (db : Database) (s : Snapshot)
      (b : Built k signer channel platform audience revision db s)
      → entries db ≡ order_by id_le (map (localised db) b.chosen.apps)
  unfolding entries
  Built-entries revision db s b = ap (entries_of db) b.from_rows

  -- The document that `build` answers is signed over the entries that the tables give, its tag is
  -- the hash of that document, it carries the revision asked for, and no table is written.
  pub build-SignedOver :
      (revision : ℕ) (w : World) {s : Snapshot} {w' : World}
      → build k signer channel platform revision audience w ≡ (ok s, w')
      → SignedOver revision s (entries w.db) × (w'.db ≡ w.db)
  build-SignedOver revision w {s} h =
      let (b, same) = build_ok k signer channel platform audience revision w h in
      (
        rw (Built-entries revision w.db s b) (record {
          at = b.chosen.generated_at;
          signed = b.signed;
          numbered = b.numbered;
          tagged = b.tagged;
        }),
        same,
      )

  -- Each entry of an answered document is a published version in the channel, which the platform
  -- can run, of an app that is public or granted to the audience.
  pub build-Served :
      (revision : ℕ) (w : World) (a : CatalogApp) {s : Snapshot} {w' : World}
      → build k signer channel platform revision audience w ≡ (ok s, w')
      → In a (entries w.db)
      → Served w.db a
  build-Served revision w a {s} h i =
      let (b, same) = build_ok k signer channel platform audience revision w h in
      listed-Served w.db b.chosen a b.from_rows
        (In-order_by id_le a _ (subst (In a) (Built-entries revision w.db s b) i))

  -- The document that `build` answers is signed over the entries that the tables give, and lists
  -- each app once: at no two places of those entries is there one id.
  pub build-once :
      (revision : ℕ) (w : World) {s : Snapshot} {w' : World}
      → build k signer channel platform revision audience w ≡ (ok s, w')
      → SignedOver revision s (entries w.db) × Distinct (entries w.db)
  build-once revision w {s} h =
      let (b, same) = build_ok k signer channel platform audience revision w h in
      (
        (build-SignedOver revision w h).0,
        rw (Built-entries revision w.db s b) (
            Distinct-order_by (map (localised w.db) b.chosen.apps) (
              Distinct-localised w.db b.chosen.apps
                (choose_all-Distinct k platform _ none_chosen b.chosen b.from_rows tt))),
      )

  -- An answered document has, for every published version in the channel that the platform can run,
  -- of an app that is public or granted, an entry of its app in a version that it is not newer
  -- than, where versions are ordered.
  pub build-newest :
      (order : NewerOrder k) (revision : ℕ) (w : World) (app : AppRow) (v : VersionRow)
      {s : Snapshot} {w' : World}
      → build k signer channel platform revision audience w ≡ (ok s, w')
      → In app w.db.apps
      → offered audience.app_ids app ≡ true
      → In v w.db.versions
      → of_release channel app v ≡ true
      → platform_allows k v.min_platform platform ≡ true
      → (a : CatalogApp) × In a (entries w.db)
        × (a.id ≡ app.id)
        × (k.is_newer v.version a.version ≡ false)
  build-newest order revision w app v {s} h i o j t runs =
      let (b, same) = build_ok k signer channel platform audience revision w h in
      let row : Row = record { app = app; version = v } in
      let read = catalog_rows-In k channel audience.app_ids w.db row i o j t in
      let offer =
        choose_all-Offers k order platform _ none_chosen b.chosen row b.from_rows read runs in
      let (listed, e) = first_sound (λ a. a.id == app.id) offer.app b.chosen.apps offer.listed in
      (
        localised w.db offer.app,
        subst (In (localised w.db offer.app)) (sym (Built-entries revision w.db s b))
            (order_by-In id_le _ _ (map-In (localised w.db) offer.app b.chosen.apps listed)),
        id-localised w.db offer.app ∙ (eq_iff _ _).0 e,
        rw (version-localised w.db offer.app) offer.newest,
      )
