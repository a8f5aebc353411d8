-- ===== src/Registry/Build/Newest.antt =====
-- The versions that the loop of `build` in modules/registry/catalog.go has chosen.
use appstore_gerege_nexus.Prelude.{
  String, true, false, List, [], ◌∷◌, Option, none, some, ◌≡◌, refl, sym, ap, ◌∙◌, arith, inl, inr,
  ◌==◌, eq_iff, eq_refl, Bool-cases, In, if◌then◌else◌, subst,
}
use appstore_gerege_nexus.Contract.{Contract, Manifest, CatalogApp}
use appstore_gerege_nexus.World.{ok}
use appstore_gerege_nexus.Registry.Build.{
  Row, Chosen, held_app, put_app, catalog_app, platform_allows, displaces, choose, choose_all,
}
use appstore_gerege_nexus.Registry.Build.Choice.{choose_row_cases, choose_all_cons}

-- The documented order of versions: no version is newer than itself, and what is not newer than
-- a version is not newer than one that displaces it.
pub record NewerOrder (k : Contract) : Type 0 where
  pub irreflexive : (v : String) → k.is_newer v v ≡ false
  pub displaced :
      (u v x : String) → k.is_newer v u ≡ true → k.is_newer x u ≡ false → k.is_newer x v ≡ false

module _ (k : Contract) (order : NewerOrder k) (platform : String) where
  -- The apps offer `id` in a version that `version` is not newer than.
  pub record Offers (apps : List CatalogApp) (id version : String) : Type 0 where
    pub app : CatalogApp
    pub listed : held_app id apps ≡ some app
    pub newest : k.is_newer version app.version ≡ false

  held-put_app :
      (b : CatalogApp) (apps : List CatalogApp) (i : String)
      → held_app i (put_app b apps) ≡ (if b.id == i then some b else held_app i apps)
  unfolding put_app
  held-put_app b [] i = refl
  held-put_app b (c ∷ apps) i =
      ground (arith, eq_iff c.id b.id, eq_iff b.id i, eq_iff c.id i, held-put_app b apps i)

  -- A put keeps an offer, if what it replaces was displaced.
  put_app-Offers :
      (b : CatalogApp) (apps : List CatalogApp) (id version : String)
      → displaces k b (held_app b.id apps) ≡ true
      → Offers apps id version
      → Offers (put_app b apps) id version
  put_app-Offers b apps id version newer o = elim (Bool-cases (b.id == id)) [
    | inl t ↦
        let same : held_app b.id apps ≡ some o.app =
          ap (λ (i : String). held_app i apps) ((eq_iff b.id id).0 t) ∙ o.listed in
        let above : k.is_newer b.version o.app.version ≡ true = rw same at newer in
        record {
          app = b;
          listed = held-put_app b apps id ∙ (rw t);
          newest = order.displaced o.app.version b.version version above o.newest;
        }
    | inr f ↦ record {
      app = o.app;
      listed = held-put_app b apps id ∙ (rw f o.listed);
      newest = o.newest;
    }
  ]

  choose-Offers :
      (r : Row) (m : Manifest) (c : Chosen) (id version : String)
      → Offers c.apps id version
      → Offers (choose k r m c).apps id version
  unfolding choose
  choose-Offers r m c id version o =
      elim (Bool-cases (displaces k (catalog_app r m) (held_app r.app.id c.apps))) [
        | inl t ↦ rw t (put_app-Offers (catalog_app r m) c.apps id version t o)
        | inr f ↦ rw f o
      ]

  not_displaced :
      (b : CatalogApp) (held : Option CatalogApp)
      → displaces k b held ≡ false
      → (a : CatalogApp) × (held ≡ some a) × (k.is_newer b.version a.version ≡ false)
  not_displaced b none h = cc
  not_displaced b (some a) h = (a, refl, h)

  choose-Offers-own :
      (r : Row) (m : Manifest) (c : Chosen)
      → Offers (choose k r m c).apps r.app.id r.version.version
  unfolding choose
  choose-Offers-own r m c =
      let b = catalog_app r m in
      elim (Bool-cases (displaces k b (held_app r.app.id c.apps))) [
        | inl t ↦ rw t (record {
          app = b;
          listed = held-put_app b c.apps r.app.id ∙ (rw eq_refl);
          newest = order.irreflexive r.version.version;
        })
        | inr f ↦
            let (a, held, older) = not_displaced b (held_app r.app.id c.apps) f in
            rw f (record { app = a; listed = held; newest = older })
      ]

  choose_all-Offers_kept :
      (rows : List Row) (c c' : Chosen) (id version : String)
      → choose_all k platform rows c ≡ ok c'
      → Offers c.apps id version
      → Offers c'.apps id version
  unfolding choose_all
  choose_all-Offers_kept [] c c' id version h o =
      let e : c ≡ c' = cc in subst (λ (x : Chosen). Offers x.apps id version) e o
  choose_all-Offers_kept (r ∷ rs) c c' id version h o =
      let (d, round, rest) = choose_all_cons k platform r rs c c' h in
      choose_all-Offers_kept rs d c' id version rest
        (elim (choose_row_cases k platform r c d round) [
          | inl (skipped, e) ↦ subst (λ (x : Chosen). Offers x.apps id version) (sym e) o
          | inr (m, t, decoded, e) ↦
              subst (λ (x : Chosen). Offers x.apps id version) (sym e)
                (choose-Offers r m c id version o)
        ])

  -- Every row that the caller's platform allows has its app in the result, in a version that the
  -- row's is not newer than.
  pub choose_all-Offers :
      (rows : List Row) (c c' : Chosen) (r : Row)
      → choose_all k platform rows c ≡ ok c'
      → In r rows
      → platform_allows k r.version.min_platform platform ≡ true
      → Offers c'.apps r.app.id r.version.version
  choose_all-Offers [] c c' r h i t = absurd i
  choose_all-Offers (q ∷ rs) c c' r h (inl e) t =
      let (d, round, rest) = choose_all_cons k platform q rs c c' h in
      choose_all-Offers_kept rs d c' r.app.id r.version.version rest
        (elim (choose_row_cases k platform q c d round) [
          | inl (skipped, _) ↦
              let allowed : platform_allows k q.version.min_platform platform ≡ true =
                subst (λ (x : Row). platform_allows k x.version.min_platform platform ≡ true) e t in
              cc
          | inr (m, _, decoded, made) ↦
              subst (λ (x : Row). Offers d.apps x.app.id x.version.version) (sym e)
                (subst (λ (x : Chosen). Offers x.apps q.app.id q.version.version) (sym made)
                  (choose-Offers-own q m c))
        ])
  choose_all-Offers (q ∷ rs) c c' r h (inr i) t =
      let (d, round, rest) = choose_all_cons k platform q rs c c' h in
      choose_all-Offers rs d c' r rest i t
