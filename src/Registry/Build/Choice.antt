-- ===== src/Registry/Build/Choice.antt =====
-- What the loop of `build` in modules/registry/catalog.go makes of the rows that it reads.
use appstore_gerege_nexus.Prelude.{
  String, true, false, List, [], ◌∷◌, Option, none, some, ◌≡◌, refl, ◌⊎◌, inl, inr, ◌==◌,
  Bool-cases, In, subst,
}
use appstore_gerege_nexus.Contract.{Contract, Manifest, CatalogApp}
use appstore_gerege_nexus.World.{Result, ok, err}
use appstore_gerege_nexus.Registry.Build.{
  Row, Chosen, held_app, put_app, catalog_app, platform_allows, displaces, choose, choose_decoded,
  choose_row, choose_all,
}

In-put_app :
    (a b : CatalogApp) (apps : List CatalogApp) → In a (put_app b apps) → (a ≡ b) ⊎ In a apps
unfolding put_app
In-put_app a b [] (inl e) = inl e
In-put_app a b [] (inr h) = absurd h
In-put_app a b (c ∷ apps) h = elim (Bool-cases (c.id == b.id)) [
  | inl t ↦ elim (rw t at h) [ inl e ↦ inl e | inr i ↦ inr (inr i) ]
  | inr f ↦ elim (rw f at h) [
    | inl e ↦ inr (inl e)
    | inr i ↦ elim (In-put_app a b apps i) [ inl e ↦ inl e | inr j ↦ inr (inr j) ]
  ]
]

module _ (k : Contract) (platform : String) where
  -- The entry that a row gives, where its constraint allows the platform.
  pub record FromRow (rows : List Row) (a : CatalogApp) : Type 0 where
    pub row : Row
    pub read : In row rows
    pub manifest : Manifest
    pub decoded : k.decode_manifest row.version.manifest ≡ some manifest
    pub allowed : platform_allows k row.version.min_platform platform ≡ true
    pub entry : a ≡ catalog_app row manifest

  later_row : {rows : List Row} (r : Row) {a : CatalogApp} → FromRow rows a → FromRow (r ∷ rows) a
  later_row r f = record {
    row = f.row;
    read = inr f.read;
    manifest = f.manifest;
    decoded = f.decoded;
    allowed = f.allowed;
    entry = f.entry;
  }

  decoded_cases :
      (r : Row) (o : Option Manifest) (c c' : Chosen)
      → choose_decoded k r o c ≡ ok c'
      → (m : Manifest) × (o ≡ some m) × (c' ≡ choose k r m c)
  decoded_cases r none c c' h = cc
  decoded_cases r (some m) c c' h = (m, refl, cc)

  -- A round that succeeded skipped the row, or chose with its manifest.
  pub choose_row_cases :
      (r : Row) (c c' : Chosen)
      → choose_row k platform r c ≡ ok c'
      → ((platform_allows k r.version.min_platform platform ≡ false) × (c' ≡ c))
        ⊎ ((m : Manifest) × (platform_allows k r.version.min_platform platform ≡ true)
            × (k.decode_manifest r.version.manifest ≡ some m)
            × (c' ≡ choose k r m c))
  unfolding choose_row
  choose_row_cases r c c' h =
      elim (Bool-cases (platform_allows k r.version.min_platform platform)) [
        | inl t ↦
            let (m, d, e) =
              decoded_cases r (k.decode_manifest r.version.manifest) c c' (rw t at h) in
            inr (m, t, d, e)
        | inr f ↦ inl (f, let e : ok c ≡ ok c' = rw f at h in cc)
      ]

  choose-In :
      (r : Row) (m : Manifest) (c : Chosen) (a : CatalogApp)
      → In a (choose k r m c).apps
      → (a ≡ catalog_app r m) ⊎ In a c.apps
  unfolding choose
  choose-In r m c a h =
      elim (Bool-cases (displaces k (catalog_app r m) (held_app r.app.id c.apps))) [
        | inl t ↦ In-put_app a (catalog_app r m) c.apps (rw t at h)
        | inr f ↦ inr (rw f at h)
      ]

  pub choose_all_cons :
      (r : Row) (rs : List Row) (c c' : Chosen)
      → choose_all k platform (r ∷ rs) c ≡ ok c'
      → (d : Chosen) × (choose_row k platform r c ≡ ok d) × (choose_all k platform rs d ≡ ok c')
  unfolding choose_all
  choose_all_cons r rs c c' h = by_round (choose_row k platform r c) refl
    where
      by_round :
          (o : Result Chosen)
          → choose_row k platform r c ≡ o
          → (d : Chosen) × (choose_row k platform r c ≡ ok d) × (choose_all k platform rs d ≡ ok c')
      by_round (ok d) e = (d, e, rw (e, choose_all) at h)
      by_round (err x) e = let impossible : err x ≡ ok c' = rw (e, choose_all) at h in cc

  pub choose_all-FromRow :
      (rows : List Row) (c c' : Chosen) (a : CatalogApp)
      → choose_all k platform rows c ≡ ok c'
      → In a c'.apps
      → FromRow rows a ⊎ In a c.apps
  unfolding choose_all
  choose_all-FromRow [] c c' a h i =
      let e : ok c ≡ ok c' = h in let e' : c ≡ c' = cc in inr (rw e' i)
  choose_all-FromRow (r ∷ rs) c c' a h i =
      let (d, round, rest) = choose_all_cons r rs c c' h in
      elim (choose_all-FromRow rs d c' a rest i) [
        | inl f ↦ inl (later_row r f)
        | inr j ↦ elim (choose_row_cases r c d round) [
          | inl (skipped, e) ↦ inr (subst (λ (x : Chosen). In a x.apps) e j)
          | inr (m, t, decoded, e) ↦
              elim (choose-In r m c a (subst (λ (x : Chosen). In a x.apps) e j)) [
                | inl new ↦ inl (record {
                  row = r;
                  read = inl refl;
                  manifest = m;
                  decoded = decoded;
                  allowed = t;
                  entry = new;
                })
                | inr old ↦ inr old
              ]
        ]
      ]
