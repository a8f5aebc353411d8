-- ===== src/Registry/Build/Contents.antt =====
-- What a document that `build` answers holds.
use mathlib.Core.Path.{ap₂}
use appstore_gerege_nexus.Prelude.{
  ℕ, String, Bool, true, false, List, [], ◌∷◌, map, none, ◌≡◌, sym, ap, ◌∙◌, arith, if◌then◌else◌,
  subst,
}
use appstore_gerege_nexus.Sorting.{order_by}
use appstore_gerege_nexus.Tables.{Database, Snapshot}
use appstore_gerege_nexus.Contract.{Contract, CatalogApp}
use appstore_gerege_nexus.World.{failure, ok, World, query, pure, lift, raise, ◌>>=◌}
use appstore_gerege_nexus.World.Laws.{bind_ok, query_ok, pure_ok, lift_ok}
use appstore_gerege_nexus.Registry.Platforms.{Audience}
use appstore_gerege_nexus.Registry.Signing.{Signer, sign_document}
use appstore_gerege_nexus.Registry.Build.{
  Row, Chosen, none_chosen, texts_of, app_texts, with_texts, translate_all, id_le, catalog_rows,
  choose_all, etag_of, finish, build,
}

abbrev pub localised : Database → CatalogApp → CatalogApp
localised db a = with_texts a (texts_of a.id db)

pub translate_all_ok :
    (apps : List CatalogApp) (w : World) {ts : List CatalogApp} {w' : World}
    → translate_all apps w ≡ (ok ts, w')
    → (ts ≡ map (localised w.db) apps) × (w'.db ≡ w.db)
unfolding translate_all app_texts
translate_all_ok [] w h = pure_ok [] w h
translate_all_ok (a ∷ apps) w h =
    let (texts, u, read, rest) =
      bind_ok (query (texts_of a.id))
        (λ ts. translate_all apps >>= λ more. pure (with_texts a ts ∷ more)) w h in
    let (more, v, later, made) =
      bind_ok (translate_all apps) (λ more. pure (with_texts a texts ∷ more)) u rest in
    let (e, d) = query_ok (texts_of a.id) w read in
    let (e', d') = translate_all_ok apps u later in
    let (e'', d'') = pure_ok (with_texts a texts ∷ more) v made in
    (
      e'' ∙ ap₂ ◌∷◌ (ap (with_texts a) e) (e' ∙ ap (λ (db : Database). map (localised db) apps) d),
      d'' ∙ d' ∙ d,
    )

module _ (k : Contract) (signer : Signer) (channel platform : String) (audience : Audience) where
  -- The document of a snapshot, as what `build` made it from.
  pub record Built (revision : ℕ) (db : Database) (s : Snapshot) : Type 0 where
    pub chosen : Chosen
    pub from_rows :
        choose_all k platform (catalog_rows k channel audience.app_ids db) none_chosen ≡ ok chosen
    pub validated : k.validate_catalog (map (localised db) chosen.apps) platform ≡ none
    pub signed :
        sign_document k signer chosen.generated_at (order_by id_le (map (localised db) chosen.apps))
        ≡ ok (s.document, s.generated_at)
    pub numbered : s.revision ≡ revision
    pub tagged : s.etag ≡ etag_of k s.document

  finish_ok :
      (revision at : ℕ) (apps : List CatalogApp) (s : Snapshot)
      → finish k signer platform revision at apps ≡ ok s
      → (k.validate_catalog apps platform ≡ none)
        × (sign_document k signer at (order_by id_le apps) ≡ ok (s.document, s.generated_at))
        × (s.revision ≡ revision)
        × (s.etag ≡ etag_of k s.document)
  unfolding finish
  finish_ok revision at apps s h = ground arith

  build_accepted :
      (b : Bool) (revision : ℕ) (w : World) {s : Snapshot} {w' : World}
      → (if b
            then (query (catalog_rows k channel audience.app_ids) >>= λ rows.
                lift (choose_all k platform rows none_chosen) >>= λ chosen.
                translate_all chosen.apps >>= λ apps.
                lift (finish k signer platform revision chosen.generated_at apps))
            else raise (failure "invalid platform version"))
          w
        ≡ (ok s, w')
      → Built revision w.db s × (w'.db ≡ w.db)
  unfolding raise
  build_accepted false revision w h = cc
  build_accepted true revision w h =
      let (rows, w₁, read, rest) =
        bind_ok (query (catalog_rows k channel audience.app_ids)) _ w h in
      let (e₁, d₁) = query_ok (catalog_rows k channel audience.app_ids) w read in
      let (chosen, w₂, chose, rest₂) =
        bind_ok (lift (choose_all k platform rows none_chosen)) _ w₁ rest in
      let (e₂, d₂) = lift_ok (choose_all k platform rows none_chosen) w₁ chose in
      let (apps, w₃, translated, rest₃) = bind_ok (translate_all chosen.apps) _ w₂ rest₂ in
      let (e₃, d₃) = translate_all_ok chosen.apps w₂ translated in
      let (e₄, d₄) =
        lift_ok (finish k signer platform revision chosen.generated_at apps) w₃ rest₃ in
      let same = e₃ ∙ ap (λ (db : Database). map (localised db) chosen.apps) (d₂ ∙ d₁) in
      let (valid, signed, rev, tag) = finish_ok revision chosen.generated_at apps _ e₄ in
      (
        record {
          chosen = chosen;
          from_rows = ap (λ (rs : List Row). choose_all k platform rs none_chosen) (sym e₁) ∙ e₂;
          validated =
              subst (λ (as' : List CatalogApp). k.validate_catalog as' platform ≡ none) same valid;
          signed =
              ap
                (λ (as' : List CatalogApp).
                  sign_document k signer chosen.generated_at (order_by id_le as'))
                (sym same)
              ∙ signed;
          numbered = rev;
          tagged = tag;
        },
        d₄ ∙ d₃ ∙ d₂ ∙ d₁,
      )

  -- A build that answers has made its document from the tables, and written nothing.
  pub build_ok :
      (revision : ℕ) (w : World) {s : Snapshot} {w' : World}
      → build k signer channel platform revision audience w ≡ (ok s, w')
      → Built revision w.db s × (w'.db ≡ w.db)
  unfolding build
  build_ok revision w h = build_accepted (k.is_version platform) revision w h
