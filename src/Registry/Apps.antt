-- ===== src/Registry/Apps.antt =====
-- The catalogue entries of modules/registry/store.go: the App that a query renders, and UpsertApp.
pub mod Ownership
use appstore_gerege_nexus.Prelude.{
  ℕ, String, Bool, true, false, not, ◌&&◌, ◌||◌, List, [], ◌∷◌, ◌++◌, Option, none, some, ◌==◌, leb,
  keep, first, any, amend, if◌then◌else◌,
}
use appstore_gerege_nexus.Tables.{Time, Json, Database, AppRow, AppText, AppTextRow, VersionRow}
use appstore_gerege_nexus.Contract.{Contract}
use appstore_gerege_nexus.Sorting.{order_by}
use appstore_gerege_nexus.World.{
  Exec, Result, ok, err, conflict, statement, query, execute, pure, raise, transaction, ◌>>=◌, ◌>>◌,
}
use appstore_gerege_nexus.Registry.Build.{is_published}
use appstore_gerege_nexus.Registry.Cache.{bump_revision}
use appstore_gerege_nexus.Registry.Publishers.{or_not_found}

-- App, as the API renders it.
pub record App : Type 0 where
  pub id : String
  pub publisher_id : String
  pub slug : String
  pub app_type : String
  pub name : String
  pub description : String
  pub icon_url : String
  pub category : String
  pub visibility : String
  pub created_at : Time
  pub updated_at : Time
  pub publisher_name : String
  pub latest_version : String
  pub authors : Json
  pub maintainers : Json
  pub repository : String
  pub homepage : String
  pub license : String
  pub created_by : String
  pub updated_by : String

-- ORDER BY published_at DESC: NULL comes first.
abbrev pub time_desc : Option Time → Option Time → Bool
time_desc none t = true
time_desc (some s) none = false
time_desc (some s) (some t) = leb t s

abbrev pub version_or_empty : List VersionRow → String
version_or_empty [] = ""
version_or_empty (v ∷ vs) = v.version

unfoldable pub latest_version : String → Database → String
latest_version app_id db = version_or_empty (
    order_by (λ v u. time_desc v.published_at u.published_at)
      (keep (λ v. v.app_id == app_id && (is_published v.status && v.channel == "stable"))
        db.versions))

-- COALESCE(x::text, '')
abbrev pub or_empty : Option String → String
or_empty none = ""
or_empty (some s) = s

abbrev pub app_of : Database → AppRow → String → App
app_of db a publisher_name = record {
  id = a.id;
  publisher_id = a.publisher_id;
  slug = a.slug;
  app_type = a.app_type;
  name = a.name;
  description = a.description;
  icon_url = a.icon_url;
  category = a.category;
  visibility = a.visibility;
  created_at = a.created_at;
  updated_at = a.updated_at;
  publisher_name = publisher_name;
  latest_version = latest_version a.id db;
  authors = a.authors;
  maintainers = a.maintainers;
  repository = a.repository;
  homepage = a.homepage;
  license = a.license;
  created_by = or_empty a.created_by;
  updated_by = or_empty a.updated_by;
}

-- The rows of appColumns: an app whose publisher is missing is not joined.
unfoldable pub joined : Database → List AppRow → List App
joined db [] = []
joined db (a ∷ rows) =
    let rest = joined db rows in
    elim (first (λ p. p.id == a.publisher_id) db.publishers) [
      | none ↦ rest
      | some p ↦ app_of db a p.name ∷ rest
    ]

abbrev pub head_app : List App → Option App
head_app [] = none
head_app (a ∷ rest) = some a

unfoldable pub find_app : (AppRow → Bool) → Database → Option App
unfolding joined
find_app test db = head_app (joined db (keep test db.apps))

-- AppByID
unfoldable pub app_by_id : String → Exec App
unfolding or_not_found find_app
app_by_id id = do row ← query (find_app (λ a. a.id == id)); or_not_found row

-- AppBySlug
unfoldable pub app_by_slug : String → Exec App
unfolding or_not_found find_app
app_by_slug slug = do row ← query (find_app (λ a. a.slug == slug)); or_not_found row

abbrev pub has_published : Database → String → Bool
has_published db app_id = any (λ v. v.app_id == app_id && is_published v.status) db.versions

-- The condition of the public listing, or of one publisher's own.
abbrev pub listed : Database → String → AppRow → Bool
listed db publisher_id a =
    if publisher_id == ""
    then a.visibility == "public" && has_published db a.id
    else a.publisher_id == publisher_id

abbrev pub owned_by_other : String → Option AppRow → Bool
owned_by_other publisher_id none = false
owned_by_other publisher_id (some a) = not (a.publisher_id == publisher_id)

abbrev pub edit_app : App → Time → AppRow → AppRow
edit_app a now row = record row {
  slug = a.slug;
  app_type = a.app_type;
  name = a.name;
  description = a.description;
  icon_url = a.icon_url;
  category = a.category;
  visibility = a.visibility;
  updated_at = now;
}

-- The columns that the INSERT does not name have their defaults.
abbrev pub new_app : App → Time → AppRow
new_app a now = record {
  id = a.id;
  publisher_id = a.publisher_id;
  slug = a.slug;
  app_type = a.app_type;
  name = a.name;
  description = a.description;
  icon_url = a.icon_url;
  category = a.category;
  visibility = a.visibility;
  created_at = now;
  updated_at = now;
  authors = "[]";
  maintainers = "[]";
  repository = "";
  homepage = "";
  license = "";
  created_by = none;
  updated_by = none;
}

abbrev pub at_text_key : String → String → AppTextRow → Bool
at_text_key app_id locale t = t.app_id == app_id && t.locale == locale

unfoldable pub put_text : AppTextRow → List AppTextRow → List AppTextRow
put_text row [] = row ∷ []
put_text row (t ∷ rows) =
    let rest = put_text row rows in
    if at_text_key row.app_id row.locale t then row ∷ rows else t ∷ rest

-- The loop over the translations.
unfoldable pub save_texts : String → List (String × AppText) → Exec (Unit {0})
unfolding put_text
save_texts app_id [] = pure tt
save_texts app_id ((locale, text) ∷ rest) = do
  execute λ db. record db {
    texts = put_text (record { app_id = app_id; locale = locale; text = text }) db.texts;
  }
  save_texts app_id rest

abbrev pub refuse_other : Bool → Exec (Unit {0})
refuse_other true = raise conflict
refuse_other false = pure tt

module _ (k : Contract) where
  -- ListApps
  unfoldable pub list_apps : String → Exec (List App)
  unfolding joined
  list_apps publisher_id = query λ db.
      joined db (order_by (λ a b. k.collate a.name b.name) (keep (listed db publisher_id) db.apps))

  abbrev pub upserted_row : App → Time → Option AppRow → AppRow
  upserted_row a now none = new_app a now
  upserted_row a now (some row) = edit_app a now row

  abbrev pub upserted_rows : App → Time → List AppRow → Option AppRow → List AppRow
  upserted_rows a now rows none = rows ++ new_app a now ∷ []
  upserted_rows a now rows (some row) = amend (λ r. r.id == a.id) (edit_app a now) rows

  -- INSERT … ON CONFLICT (id) DO UPDATE; a unique violation is ErrConflict.
  unfoldable pub upsert_row : App → Time → Database → Result (Unit {0} × Database)
  upsert_row a now db =
      let old = first (λ r. r.id == a.id) db.apps in
      if any (λ r. not (r.id == a.id) && k.app_collides (upserted_row a now old) r) db.apps
      then err conflict
      else ok (tt, record db { apps = upserted_rows a now db.apps old })

  unfoldable pub upsert_body : App → List (String × AppText) → Time → Exec (Unit {0})
  unfolding upsert_row save_texts bump_revision
  upsert_body a texts now = do
    owner ← query (λ db. first (λ r. r.id == a.id) db.apps)
    refuse_other (owned_by_other a.publisher_id owner)
    statement (upsert_row a now)
    save_texts a.id texts
    bump_revision

  -- UpsertApp
  unfoldable pub upsert_app : App → List (String × AppText) → Time → Exec (Unit {0})
  unfolding upsert_body transaction
  upsert_app a texts now = transaction (upsert_body a texts now)
