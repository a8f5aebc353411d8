-- ===== src/Registry/Platforms.antt =====
-- modules/registry/platforms.go: the deployments that the registry recognises, the private apps
-- that each of them may be offered, and the audience that a credential stands for.
pub mod Audiences
pub mod Issued
use appstore_gerege_nexus.Prelude.{
  ℕ, ◌+◌, String, Bool, true, false, not, ◌&&◌, ◌||◌, List, [], ◌∷◌, ◌++◌, map, Option, none, some,
  ◌==◌, leb, eqb, length, keep, first, any, amend, if◌then◌else◌,
}
use appstore_gerege_nexus.Text.{trim_space, take_text, drop_text, length_text, equal_fold}
use appstore_gerege_nexus.Tables.{Time, Database, PlatformRow, GrantRow}
use appstore_gerege_nexus.Contract.{Contract}
use appstore_gerege_nexus.Sorting.{order_by}
use appstore_gerege_nexus.World.{
  Exec, Result, ok, err, not_found, failure, statement, query, execute, pure, raise, ◌>>=◌, ◌>>◌,
}

-- Platform, as the API renders it.
pub record Platform : Type 0 where
  pub id : String
  pub name : String
  pub origin : String
  pub note : String
  pub disabled_at : Option Time
  pub last_seen_at : Option Time
  pub created_at : Time
  pub granted_apps : List String

-- p.Enabled()
abbrev pub enabled : Option Time → Bool
enabled none = true
enabled (some t) = false

-- Audience: the zero value is the anonymous one.
pub record Audience : Type 0 where
  pub platform_id : String
  pub app_ids : List String

abbrev pub nobody : Audience
nobody = record { platform_id = ""; app_ids = [] }

abbrev pub anonymous : Audience → Bool
anonymous a = a.platform_id == ""

-- bearerToken
unfoldable pub bearer_token : String → String
unfolding trim_space equal_fold
bearer_token header =
    if leb (length_text header) 7 || not (equal_fold (take_text 7 header) "Bearer ")
    then ""
    else trim_space (drop_text 7 header)

-- NULLIF(x, '')
abbrev pub null_if_empty : String → Option String
null_if_empty s = if s == "" then none else some s

abbrev pub platform_of : PlatformRow → List String → Platform
platform_of p granted = record {
  id = p.id;
  name = p.name;
  origin = p.origin;
  note = p.note;
  disabled_at = p.disabled_at;
  last_seen_at = p.last_seen_at;
  created_at = p.created_at;
  granted_apps = granted;
}

module _ (k : Contract) where
  -- tokenDigest
  abbrev pub token_digest : String → String
  token_digest token = k.sha256 token

  -- A row that is missing, or disabled, is no platform.
  abbrev pub recognised : Option PlatformRow → Option Platform
  recognised none = none
  recognised (some p) = if enabled p.disabled_at then some (platform_of p []) else none

  unfoldable pub platform_with_digest : String → Database → Option PlatformRow
  platform_with_digest digest db = first (λ p. p.token_digest == digest) db.platforms

  -- PlatformByToken
  unfoldable pub platform_by_token : String → Exec (Option Platform)
  platform_by_token token =
      if token == ""
      then pure none
      else do row ← query (platform_with_digest (token_digest token)); pure (recognised row)

  unfoldable pub granted : String → Database → List String
  granted platform_id db =
      order_by k.collate (map (λ g. g.app_id) (keep (λ g. g.platform_id == platform_id) db.grants))

  -- GrantedAppIDs
  unfoldable pub granted_app_ids : String → Exec (List String)
  granted_app_ids platform_id = query (granted platform_id)

  -- A recognised platform with no grants is the anonymous audience.
  abbrev pub audience_of : String → List String → Audience
  audience_of platform_id [] = nobody
  audience_of platform_id (a ∷ as') = record { platform_id = platform_id; app_ids = a ∷ as' }

  audience_for_platform : Option Platform → Exec Audience
  unfolding granted_app_ids
  audience_for_platform none = pure nobody
  audience_for_platform (some p) = do ids ← granted_app_ids p.id; pure (audience_of p.id ids)

  -- AudienceFor
  unfoldable pub audience_for : String → Exec Audience
  unfolding platform_by_token audience_for_platform
  audience_for token = do platform ← platform_by_token token; audience_for_platform platform

  -- TouchPlatform: what the statement answers is dropped by its caller.
  unfoldable pub touch_platform : String → Time → Exec (Unit {0})
  touch_platform platform_id now = execute λ db. record db {
    platforms =
        amend (λ p. p.id == platform_id) (λ p. record p { last_seen_at = some now }) db.platforms;
  }

  -- The INSERT of CreatePlatform under the constraints of the migration: the name fits its column
  -- and the digest is not in use. `id` is the identifier that the database makes.
  unfoldable pub insert_platform : PlatformRow → Database → Result (Platform × Database)
  insert_platform row db =
      if leb (length_text row.name) 255
        && not (any (λ p. p.token_digest == row.token_digest) db.platforms)
      then ok (platform_of row [], record db { platforms = db.platforms ++ row ∷ [] })
      else err (failure "constraint")

  -- CreatePlatform; `minted` is what newToken returns, `none` for its error.
  unfoldable pub create_platform :
      (name origin note actor_id : String) (minted : Option String) (id : String) (now : Time)
      → Exec (Platform × String)
  unfolding insert_platform
  create_platform name origin note actor_id minted id now =
      if trim_space name == "" then raise (failure "a platform needs a name") else elim minted [
        | none ↦ raise (failure "rand")
        | some token ↦ (do
          p ← statement (
              insert_platform (record {
                id = id;
                name = trim_space name;
                origin = trim_space origin;
                note = trim_space note;
                token_digest = token_digest token;
                disabled_at = none;
                last_seen_at = none;
                created_at = now;
                created_by = null_if_empty actor_id;
              }))
          pure (p, token))
      ]

  -- ListPlatforms
  unfoldable pub list_platforms : Exec (List Platform)
  list_platforms = query λ db.
      map (λ p. platform_of p (granted p.id db))
        (order_by (λ a b. k.collate a.name b.name) db.platforms)

abbrev pub has_platform : String → Database → Bool
has_platform platform_id db = any (λ p. p.id == platform_id) db.platforms

unfoldable pub update_enabled : String → Bool → Time → Database → Result (Unit {0} × Database)
update_enabled platform_id on now db =
    if has_platform platform_id db
    then ok (
      tt,
      record db {
        platforms =
            amend (λ p. p.id == platform_id)
              (λ p. record p { disabled_at = if on then none else some now }) db.platforms;
      },
    )
    else err not_found

-- SetPlatformEnabled: an UPDATE that met no row is ErrNotFound.
unfoldable pub set_platform_enabled : String → Bool → Time → Exec (Unit {0})
set_platform_enabled platform_id on now = statement (update_enabled platform_id on now)

abbrev pub is_grant : String → String → GrantRow → Bool
is_grant app_id platform_id g = g.app_id == app_id && g.platform_id == platform_id

-- The INSERT of Grant: both ids must name rows, and a grant that is there already stays as it is.
unfoldable pub insert_grant : GrantRow → Database → Result (Unit {0} × Database)
insert_grant row db =
    if any (is_grant row.app_id row.platform_id) db.grants
    then ok (tt, db)
    else if any (λ a. a.id == row.app_id) db.apps && has_platform row.platform_id db
    then ok (tt, record db { grants = db.grants ++ row ∷ [] })
    else err (failure "constraint")

-- Grant
unfoldable pub grant : (app_id platform_id actor_id : String) (now : Time) → Exec (Unit {0})
grant app_id platform_id actor_id now = statement (
    insert_grant (record {
      app_id = app_id;
      platform_id = platform_id;
      granted_at = now;
      granted_by = null_if_empty actor_id;
    }))

unfoldable pub delete_grant : String → String → Database → Database
delete_grant app_id platform_id db = record db {
  grants = keep (λ g. not (is_grant app_id platform_id g)) db.grants;
}

-- Revoke
unfoldable pub revoke : (app_id platform_id : String) → Exec (Unit {0})
revoke app_id platform_id = execute (delete_grant app_id platform_id)

unfoldable pub without_private : String → Database → Database
without_private platform_id db =
    if platform_id == "" then record db { private_snapshots = [] } else record db {
      private_snapshots = keep (λ s. not (s.platform_id == platform_id)) db.private_snapshots;
    }

-- DiscardPrivateSnapshots: of one platform, or of all where the id is empty.
unfoldable pub discard_private_snapshots : String → Exec (Unit {0})
discard_private_snapshots platform_id = execute (without_private platform_id)
