-- ===== src/Registry/Build.antt =====
-- `build` of modules/registry/catalog.go: the rows of the catalogue query, the choice of one
-- version of each app, and the signed document. The map `chosen` with the slice `order` is one
-- association list in the order of first appearance.
pub mod Choice
pub mod Distinct
pub mod Newest
pub mod Rows
pub mod Contents
pub mod Offers
use Prim.Native.String
use Prim.Native.String.{compare}
use text.Mathlib.Text.{is_le}
use mathlib.Core.List.{flat_map}
use appstore_gerege_nexus.Prelude.{
  ℕ, String, Bool, true, false, not, ◌&&◌, ◌||◌, List, [], ◌∷◌, map, Option, none, some, ◌==◌, leb,
  ltb, keep, first, any, if◌then◌else◌,
}
use appstore_gerege_nexus.Tables.{
  Time, Database, AppRow, AppText, VersionRow, Status, published, Snapshot,
}
use appstore_gerege_nexus.Contract.{Contract, Manifest, CatalogApp, visibility_public}
use appstore_gerege_nexus.Sorting.{order_by}
use appstore_gerege_nexus.World.{
  Exec, Result, ok, err, failure, query, pure, raise, lift, ◌>>=◌, ◌>>◌,
}
use appstore_gerege_nexus.Registry.Platforms.{Audience}
use appstore_gerege_nexus.Registry.Signing.{Signer, sign_document}

-- A row of the join of store_apps and store_app_versions.
pub record Row : Type 0 where
  pub app : AppRow
  pub version : VersionRow

abbrev pub is_published : Status → Bool
is_published Status.draft = false
is_published Status.in_review = false
is_published Status.published = true
is_published Status.rejected = false
is_published Status.yanked = false

-- a.visibility = 'public' OR a.id = ANY($2)
abbrev pub offered : List String → AppRow → Bool
offered app_ids a = a.visibility == "public" || any (λ i. a.id == i) app_ids

-- ORDER BY published_at: NULL comes last.
abbrev pub time_le : Option Time → Option Time → Bool
time_le (some s) (some t) = leb s t
time_le (some s) none = true
time_le none (some t) = false
time_le none none = true

-- The translations of one app, as AppTexts reads them.
unfoldable pub texts_of : String → Database → List (String × AppText)
texts_of app_id db = map (λ t. (t.locale, t.text)) (keep (λ t. t.app_id == app_id) db.texts)

-- AppTexts
unfoldable pub app_texts : String → Exec (List (String × AppText))
app_texts app_id = query (texts_of app_id)

-- What the loop of `build` has when it has read some of the rows.
pub record Chosen : Type 0 where
  pub apps : List CatalogApp
  pub generated_at : Time

abbrev pub none_chosen : Chosen
none_chosen = record { apps = []; generated_at = 0 }

-- chosen[id]
abbrev pub held_app : String → List CatalogApp → Option CatalogApp
held_app id apps = first (λ a. a.id == id) apps

-- chosen[app.ID] = app, with `order` extended where the id is new.
unfoldable pub put_app : CatalogApp → List CatalogApp → List CatalogApp
put_app app [] = app ∷ []
put_app app (a ∷ as') =
    let later = put_app app as' in if a.id == app.id then app ∷ as' else a ∷ later

-- if publishedAt != nil && publishedAt.After(generatedAt)
abbrev pub later_of : Option Time → Time → Time
later_of none generated_at = generated_at
later_of (some t) generated_at = if ltb generated_at t then t else generated_at

abbrev pub catalog_app : Row → Manifest → CatalogApp
catalog_app r m = record {
  id = r.app.id;
  slug = r.app.slug;
  name = r.app.name;
  description = r.app.description;
  icon_url = r.app.icon_url;
  category = r.app.category;
  visibility = r.app.visibility;
  version = r.version.version;
  manifest = m;
  translations = [];
}

-- apps[i].ID < apps[j].ID, or equal: the order of the code points.
abbrev pub id_le : CatalogApp → CatalogApp → Bool
id_le a b = is_le (compare a.id b.id)

abbrev pub with_texts : CatalogApp → List (String × AppText) → CatalogApp
with_texts app [] = app
with_texts app (t ∷ ts) = record app { translations = t ∷ ts }

unfoldable pub translate_all : List CatalogApp → Exec (List CatalogApp)
translate_all [] = pure []
translate_all (app ∷ apps) = do
  texts ← app_texts app.id
  rest ← translate_all apps
  pure (with_texts app texts ∷ rest)

module _ (k : Contract) where
  abbrev pub row_le : Row → Row → Bool
  row_le a b =
      if a.app.id == b.app.id
      then time_le a.version.published_at b.version.published_at
      else k.collate a.app.id b.app.id

  -- The rows of an app under the conditions on its versions.
  abbrev pub published_rows : String → Database → AppRow → List Row
  published_rows channel db a =
      map (λ v. record { app = a; version = v })
        (keep (λ v. v.app_id == a.id && (v.channel == channel && is_published v.status))
          db.versions)

  unfoldable pub catalog_rows : String → List String → Database → List Row
  catalog_rows channel app_ids db =
      order_by row_le (flat_map (published_rows channel db) (keep (offered app_ids) db.apps))

  -- platformAllows
  unfoldable pub platform_allows : String → String → Bool
  platform_allows constraint platform =
      if constraint == ""
      then true
      else elim (k.check constraint platform) [ none ↦ false | some allowed ↦ allowed ]

  -- `seen && !IsNewerVersion(app.Version, held.Version)` goes on to the next row.
  abbrev pub displaces : CatalogApp → Option CatalogApp → Bool
  displaces app none = true
  displaces app (some held) = k.is_newer app.version held.version

  unfoldable pub choose : Row → Manifest → Chosen → Chosen
  choose r m c =
      let app = catalog_app r m in
      if displaces app (held_app app.id c.apps)
      then record {
        apps = put_app app c.apps;
        generated_at = later_of r.version.published_at c.generated_at;
      }
      else c

  abbrev pub choose_decoded : Row → Option Manifest → Chosen → Result Chosen
  choose_decoded r none c = err (failure "decode manifest")
  choose_decoded r (some m) c = ok (choose r m c)

  -- One round of the loop over the rows.
  unfoldable pub choose_row : String → Row → Chosen → Result Chosen
  choose_row platform r c =
      if platform_allows r.version.min_platform platform
      then choose_decoded r (k.decode_manifest r.version.manifest) c
      else ok c

  unfoldable pub choose_all : String → List Row → Chosen → Result Chosen
  choose_all platform [] c = ok c
  choose_all platform (r ∷ rs) c = elim (choose_row platform r c) [
    | ok c' ↦ choose_all platform rs c'
    | err e ↦ err e
  ]

  abbrev pub etag_of : String → String
  etag_of document = String.◌++◌ "\"sha256:" (String.◌++◌ (k.sha256 document) "\"")

  abbrev pub snapshot_of : ℕ → String × Time → Snapshot
  snapshot_of revision (document, generated_at) = record {
    revision = revision;
    generated_at = generated_at;
    etag = etag_of document;
    document = document;
  }

  -- ValidateCatalog, then the sort and the signature.
  unfoldable pub finish : Signer → String → ℕ → Time → List CatalogApp → Result Snapshot
  finish signer platform revision generated_at apps = elim (k.validate_catalog apps platform) [
    | some reason ↦ err (failure reason)
    | none ↦ elim (sign_document k signer generated_at (order_by id_le apps)) [
      | err e ↦ err e
      | ok signed ↦ ok (snapshot_of revision signed)
    ]
  ]

  -- build
  unfoldable pub build : Signer → (channel platform : String) → ℕ → Audience → Exec Snapshot
  build signer channel platform revision audience =
      if k.is_version platform
      then (do
        rows ← query (catalog_rows channel audience.app_ids)
        chosen ← lift (choose_all platform rows none_chosen)
        apps ← translate_all chosen.apps
        lift (finish signer platform revision chosen.generated_at apps))
      else raise (failure "invalid platform version")
