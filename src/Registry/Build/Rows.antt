-- ===== src/Registry/Build/Rows.antt =====
-- Which rows the catalogue query reads.
use appstore_gerege_nexus.Prelude.{
  String, Bool, true, ◌&&◌, List, ◌≡◌, refl, arith, ◌⊎◌, inl, inr, ◌==◌, eq_iff, Bool-cases, keep,
  In,
}
use appstore_gerege_nexus.Prelude.Membership.{
  In-keep, In-map, In-flat_map, keep-In, map-In, flat_map-In, any_sound,
}
use appstore_gerege_nexus.Sorting.Laws.{In-order_by, order_by-In}
use appstore_gerege_nexus.Tables.{Database, AppRow, VersionRow, Status, published}
use appstore_gerege_nexus.Contract.{Contract}
use appstore_gerege_nexus.Registry.Build.{
  Row, is_published, offered, row_le, published_rows, catalog_rows,
}

published_of : (s : Status) → is_published s ≡ true → s ≡ published
published_of Status.draft h = cc
published_of Status.in_review h = cc
published_of Status.published h = refl
published_of Status.rejected h = cc
published_of Status.yanked h = cc

abbrev pub of_release : String → AppRow → VersionRow → Bool
of_release channel a v = v.app_id == a.id && (v.channel == channel && is_published v.status)

pub offered_cases :
    (app_ids : List String) (a : AppRow)
    → offered app_ids a ≡ true
    → (a.visibility ≡ "public") ⊎ In a.id app_ids
offered_cases app_ids a h = elim (Bool-cases (a.visibility == "public")) [
  | inl t ↦ inl ((eq_iff _ _).0 t)
  | inr f ↦
      let (i, m, e) = any_sound (λ i. a.id == i) app_ids (rw f at h) in
      inr (rw ((eq_iff _ _).0 e) m)
]

module _ (k : Contract) (channel : String) (app_ids : List String) (db : Database) where
  -- A row of the query: a published version in the channel, of an app that is public or granted.
  pub record IsRow (r : Row) : Type 0 where
    pub app : In r.app db.apps
    pub version : In r.version db.versions
    pub owner : r.version.app_id ≡ r.app.id
    pub channel_is : r.version.channel ≡ channel
    pub status : r.version.status ≡ published
    pub offer : (r.app.visibility ≡ "public") ⊎ In r.app.id app_ids

  released :
      (r : Row)
      → In r.app db.apps × (offered app_ids r.app ≡ true)
      → In r.version db.versions × (of_release channel r.app r.version ≡ true)
      → IsRow r
  released r (a, o) (v, t) = record {
    app = a;
    version = v;
    owner = (eq_iff _ _).0 (ground (arith, t));
    channel_is = (eq_iff _ _).0 (ground (arith, t));
    status = published_of r.version.status (ground (arith, t));
    offer = offered_cases app_ids r.app o;
  }

  pub In-catalog_rows : (r : Row) → In r (catalog_rows k channel app_ids db) → IsRow r
  unfolding catalog_rows
  In-catalog_rows r h =
      let (a, i, j) =
        In-flat_map (published_rows k channel db) r (keep (offered app_ids) db.apps)
          (In-order_by (row_le k) r _ h) in
      let (v, m, e) =
        In-map (λ v. record { app = a; version = v }) r (keep (of_release channel a) db.versions)
          j in
      rw e (
        released (record { app = a; version = v }) (In-keep (offered app_ids) a db.apps i)
          (In-keep (of_release channel a) v db.versions m))

  pub catalog_rows-In :
      (r : Row)
      → In r.app db.apps
      → offered app_ids r.app ≡ true
      → In r.version db.versions
      → of_release channel r.app r.version ≡ true
      → In r (catalog_rows k channel app_ids db)
  unfolding catalog_rows
  catalog_rows-In r a o v t = order_by-In (row_le k) r _ (
      flat_map-In (published_rows k channel db) r.app r (keep (offered app_ids) db.apps)
        (keep-In (offered app_ids) r.app db.apps a o)
        (map-In (λ u. record { app = r.app; version = u }) r.version _
          (keep-In (of_release channel r.app) r.version db.versions v t)))
