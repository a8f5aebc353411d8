-- ===== src/Registry/Publishers.antt =====
-- The publishers of modules/registry/store.go: a tenant's publishing profile.
pub mod Verification
use appstore_gerege_nexus.Prelude.{
  ℕ, String, Bool, true, false, not, ◌&&◌, ◌||◌, List, [], ◌∷◌, ◌++◌, Option, none, some, ◌==◌, leb,
  first, any, amend, if◌then◌else◌,
}
use appstore_gerege_nexus.Tables.{Time, Database, Publisher}
use appstore_gerege_nexus.Sorting.{order_by}
use appstore_gerege_nexus.World.{
  Exec, Result, ok, err, not_found, conflict, statement, query, pure, raise, ◌>>=◌, ◌>>◌,
}
use appstore_gerege_nexus.Registry.Platforms.{null_if_empty}

module _ {A : Type 0} where
  -- pgx.ErrNoRows becomes ErrNotFound.
  unfoldable pub or_not_found : Option A → Exec A
  or_not_found none = raise not_found
  or_not_found (some a) = pure a

abbrev pub of_tenant : String → Publisher → Bool
of_tenant tenant_id p = p.tenant_id == tenant_id

-- PublisherByTenant
unfoldable pub publisher_by_tenant : String → Exec Publisher
unfolding or_not_found
publisher_by_tenant tenant_id = do
  row ← query (λ db. first (of_tenant tenant_id) db.publishers)
  or_not_found row

-- PublisherBySlug
unfoldable pub publisher_by_slug : String → Exec Publisher
unfolding or_not_found
publisher_by_slug slug = do
  row ← query (λ db. first (λ p. p.slug == slug) db.publishers)
  or_not_found row

-- PublisherByID
unfoldable pub publisher_by_id : String → Exec Publisher
unfolding or_not_found
publisher_by_id id = do row ← query (λ db. first (λ p. p.id == id) db.publishers); or_not_found row

-- The columns of the profile that a publisher edits.
pub record Profile : Type 0 where
  pub tenant_id : String
  pub slug : String
  pub name : String
  pub contact_email : String

abbrev pub edit_profile : Profile → Time → Publisher → Publisher
edit_profile p now row = record row {
  slug = p.slug;
  name = p.name;
  contact_email = p.contact_email;
  updated_at = now;
}

abbrev pub new_publisher : Profile → String → Time → Publisher
new_publisher p id now = record {
  id = id;
  tenant_id = p.tenant_id;
  slug = p.slug;
  name = p.name;
  contact_email = p.contact_email;
  verified = false;
  verified_at = none;
  verified_by = none;
  created_at = now;
  updated_at = now;
}

-- The other unique column: another tenant holds the slug.
abbrev pub slug_taken : Profile → List Publisher → Bool
slug_taken p rows = any (λ q. q.slug == p.slug && not (of_tenant p.tenant_id q)) rows

abbrev pub upsert_found : Profile → String → Time → Database → Option Publisher → String × Database
upsert_found p id now db none =
    (id, record db { publishers = db.publishers ++ new_publisher p id now ∷ [] })
upsert_found p id now db (some q) = (
  q.id,
  record db { publishers = amend (of_tenant p.tenant_id) (edit_profile p now) db.publishers },
)

-- INSERT … ON CONFLICT (tenant_id) DO UPDATE … RETURNING id
unfoldable pub upsert_profile : Profile → String → Time → Database → Result (String × Database)
upsert_profile p id now db =
    if slug_taken p db.publishers
    then err conflict
    else ok (upsert_found p id now db (first (of_tenant p.tenant_id) db.publishers))

-- UpsertPublisher; `id` is the identifier that the database makes for a new row.
unfoldable pub upsert_publisher : Profile → (id : String) (now : Time) → Exec Publisher
unfolding upsert_profile publisher_by_id
upsert_publisher p id now = do saved ← statement (upsert_profile p id now); publisher_by_id saved

-- ORDER BY created_at DESC
unfoldable pub list_publishers : Exec (List Publisher)
list_publishers = query (λ db. order_by (λ p q. leb q.created_at p.created_at) db.publishers)

abbrev pub decide_verified : Bool → String → Time → Publisher → Publisher
decide_verified verified actor_id now p = record p {
  verified = verified;
  verified_at = if verified then some now else none;
  verified_by = if verified then null_if_empty actor_id else none;
  updated_at = now;
}

unfoldable pub update_verified :
    (id : String) (verified : Bool) (actor_id : String) (now : Time)
    → Database
    → Result (Unit {0} × Database)
update_verified id verified actor_id now db =
    if any (λ p. p.id == id) db.publishers
    then ok (
      tt,
      record db {
        publishers = amend (λ p. p.id == id) (decide_verified verified actor_id now) db.publishers;
      },
    )
    else err not_found

-- SetPublisherVerified
unfoldable pub set_publisher_verified :
    (id : String) (verified : Bool) (actor_id : String) (now : Time) → Exec (Unit {0})
set_publisher_verified id verified actor_id now =
    statement (update_verified id verified actor_id now)
