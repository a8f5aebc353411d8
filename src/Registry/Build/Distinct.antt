-- ===== src/Registry/Build/Distinct.antt =====
-- The apps that the loop of `build` in modules/registry/catalog.go has chosen, by their ids.
use appstore_gerege_nexus.Prelude.{
  String, false, List, [], ◌∷◌, ◌≡◌, sym, inl, inr, ◌==◌, eq_iff, Bool-cases, All, subst,
}
use appstore_gerege_nexus.Contract.{Contract, Manifest, CatalogApp}
use appstore_gerege_nexus.World.{ok}
use appstore_gerege_nexus.Sorting.{insert_by, order_by}
use appstore_gerege_nexus.Registry.Build.{
  Row, Chosen, held_app, put_app, catalog_app, displaces, id_le, choose, choose_all,
}
use appstore_gerege_nexus.Registry.Build.Choice.{choose_row_cases, choose_all_cons}

-- At no two places of the list are there entries with one id.
abbrev pub Distinct : List CatalogApp → Type 0
Distinct [] = Unit
Distinct (a ∷ apps) = All (λ b. (a.id == b.id) ≡ false) apps × Distinct apps

All-put_app :
    (i : String) (b : CatalogApp) (apps : List CatalogApp)
    → (i == b.id) ≡ false
    → All (λ c. (i == c.id) ≡ false) apps
    → All (λ c. (i == c.id) ≡ false) (put_app b apps)
unfolding put_app
All-put_app i b [] h a = (h, tt)
All-put_app i b (c ∷ apps) h (p, a) = elim (Bool-cases (c.id == b.id)) [
  | inl t ↦ rw t (h, a)
  | inr f ↦ rw f (p, All-put_app i b apps h a)
]

Distinct-put_app :
    (b : CatalogApp) (apps : List CatalogApp) → Distinct apps → Distinct (put_app b apps)
unfolding put_app
Distinct-put_app b [] d = (tt, tt)
Distinct-put_app b (c ∷ apps) (a, d) = elim (Bool-cases (c.id == b.id)) [
  | inl t ↦
      rw t
        (subst (λ (i : String). All (λ e. (i == e.id) ≡ false) apps) ((eq_iff c.id b.id).0 t) a, d)
  | inr f ↦ rw f (All-put_app c.id b apps f a, Distinct-put_app b apps d)
]

module _ (k : Contract) (platform : String) where
  Distinct-choose :
      (r : Row) (m : Manifest) (c : Chosen) → Distinct c.apps → Distinct (choose k r m c).apps
  unfolding choose
  Distinct-choose r m c d =
      elim (Bool-cases (displaces k (catalog_app r m) (held_app r.app.id c.apps))) [
        | inl t ↦ rw t (Distinct-put_app (catalog_app r m) c.apps d)
        | inr f ↦ rw f d
      ]

  pub choose_all-Distinct :
      (rows : List Row) (c c' : Chosen)
      → choose_all k platform rows c ≡ ok c'
      → Distinct c.apps
      → Distinct c'.apps
  unfolding choose_all
  choose_all-Distinct [] c c' h d = let e : c ≡ c' = cc in rw (← e) d
  choose_all-Distinct (r ∷ rs) c c' h d =
      let (b, round, rest) = choose_all_cons k platform r rs c c' h in
      choose_all-Distinct rs b c' rest (elim (choose_row_cases k platform r c b round) [
        | inl (skipped, e) ↦ subst (λ (x : Chosen). Distinct x.apps) (sym e) d
        | inr (m, t, decoded, e) ↦
            subst (λ (x : Chosen). Distinct x.apps) (sym e) (Distinct-choose r m c d)
      ])

All-insert_by :
    (i : String) (b : CatalogApp) (apps : List CatalogApp)
    → (i == b.id) ≡ false
    → All (λ c. (i == c.id) ≡ false) apps
    → All (λ c. (i == c.id) ≡ false) (insert_by id_le b apps)
unfolding insert_by
All-insert_by i b [] h a = (h, tt)
All-insert_by i b (c ∷ apps) h (p, a) = elim (Bool-cases (id_le b c)) [
  | inl t ↦ rw t (h, (p, a))
  | inr f ↦ rw f (p, All-insert_by i b apps h a)
]

flip : (i j : String) → (i == j) ≡ false → (j == i) ≡ false
flip i j f = elim (Bool-cases (j == i)) [
  | inl t ↦ absurd (cc (f, (eq_iff i j).1 (sym ((eq_iff j i).0 t))))
  | inr g ↦ g
]

Distinct-insert_by :
    (b : CatalogApp) (apps : List CatalogApp)
    → All (λ c. (b.id == c.id) ≡ false) apps
    → Distinct apps
    → Distinct (insert_by id_le b apps)
unfolding insert_by
Distinct-insert_by b [] a d = (tt, tt)
Distinct-insert_by b (c ∷ apps) (p, a) (q, d) = elim (Bool-cases (id_le b c)) [
  | inl t ↦ rw t ((p, a), (q, d))
  | inr f ↦ rw f (All-insert_by c.id b apps (flip b.id c.id p) q, Distinct-insert_by b apps a d)
]

All-order_by :
    (i : String) (apps : List CatalogApp)
    → All (λ c. (i == c.id) ≡ false) apps
    → All (λ c. (i == c.id) ≡ false) (order_by id_le apps)
unfolding order_by
All-order_by i [] a = tt
All-order_by i (c ∷ apps) (p, a) = All-insert_by i c (order_by id_le apps) p (All-order_by i apps a)

-- The sort keeps them apart.
pub Distinct-order_by : (apps : List CatalogApp) → Distinct apps → Distinct (order_by id_le apps)
unfolding order_by
Distinct-order_by [] d = tt
Distinct-order_by (c ∷ apps) (a, d) =
    Distinct-insert_by c (order_by id_le apps) (All-order_by c.id apps a) (Distinct-order_by apps d)
