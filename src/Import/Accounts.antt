-- ===== src/Import/Accounts.antt =====
-- ensureTenant, ensureUser and ensureAdminMembership of cmd/appstore-import/main.go. What wraps an
-- error in more text is left out.
use Prim.Native.Char.{Char}
use appstore_gerege_nexus.Prelude.{
  ℕ, ◌+◌, String, Bool, true, false, List, [], ◌∷◌, ◌++◌, Option, none, some, first, any,
  if◌then◌else◌, ◌==◌, ◌&&◌, ltb,
}
use appstore_gerege_nexus.Text.{trim_space, to_lower}
use appstore_gerege_nexus.World.{Result, ok}
use appstore_gerege_nexus.Import.Session.{
  Tenant, User, Membership, MembershipRole, Target, Run, statement, pure, tried, ◌>>=◌, next_id,
}

-- What the import takes from Go and from the platform's database: the identifiers that the
-- database makes, its `lower`, Go's lower case outside ASCII, Go's %q, and the roles with the code
-- 'admin' of a tenant.
pub record Core : Type 0 where
  pub made : ℕ → String
  pub db_lower : String → String
  pub lower : Char → Char
  pub quote : String → String
  pub admin_roles : String → List String

-- An INSERT of one row: the table with the row at its end.
abbrev pub add_tenant : Tenant → Target → Result (String × Target)
add_tenant row t = ok (row.id, record t { tenants = t.tenants ++ row ∷ [] })

abbrev pub add_user : User → Target → Result (String × Target)
add_user row t = ok (row.id, record t { users = t.users ++ row ∷ [] })

abbrev pub with_slug : String → Tenant → Bool
with_slug slug t = t.slug == slug

abbrev pub with_email : (db_lower : String → String) → String → User → Bool
with_email db_lower email u = db_lower u.email == email

abbrev pub found_row : {A : Type 0} → Option (Option A) → Option A
found_row none = none
found_row (some row) = row

-- `err := tx.QueryRow(…).Scan(&id); if err == nil`: no row, and an error, are as good as each other.
unfoldable pub look_up : {A : Type 0} → (Target → Option A) → Run (Option A)
unfolding statement pure
look_up f = tried (statement (λ t. ok (f t, t))) >>= λ row. pure (found_row row)

abbrev pub is_member : String → String → Membership → Bool
is_member tenant_id user_id m = m.tenant_id == tenant_id && m.user_id == user_id

-- INSERT … ON CONFLICT (tenant_id, user_id) DO UPDATE … RETURNING id: the update writes the tenant
-- that the row has.
abbrev pub member_or_new : Membership → Target → Option Membership → Result (String × Target)
member_or_new row t (some m) = ok (m.id, t)
member_or_new row t none = ok (row.id, record t { memberships = t.memberships ++ row ∷ [] })

abbrev pub add_member : Membership → Target → Result (String × Target)
add_member row t = member_or_new row t (first (is_member row.tenant_id row.user_id) t.memberships)

abbrev pub has_role : String → String → MembershipRole → Bool
has_role membership_id role_id r = r.membership_id == membership_id && r.role_id == role_id

abbrev pub add_role : String → String → List MembershipRole → ℕ × List MembershipRole
add_role membership_id role_id rows =
    if any (has_role membership_id role_id) rows
    then (0, rows)
    else (1, rows ++ record { membership_id = membership_id; role_id = role_id } ∷ [])

-- INSERT … SELECT … ON CONFLICT DO NOTHING, with how many rows it wrote.
unfoldable pub add_roles : String → List String → List MembershipRole → ℕ × List MembershipRole
add_roles membership_id [] rows = (0, rows)
add_roles membership_id (role_id ∷ rest) rows =
    let (one, rows') = add_role membership_id role_id rows in
    let (more, rows'') = add_roles membership_id rest rows' in (one + more, rows'')

abbrev pub grant_roles : String → List String → Target → Result (ℕ × Target)
grant_roles membership_id role_ids t =
    let (n, rows) = add_roles membership_id role_ids t.membership_roles in
    ok (n, record t { membership_roles = rows })

module _ (core : Core) where
  -- The row that was found, or else an INSERT … RETURNING id.
  unfoldable pub found_or_made :
      {A : Type 0}
      → (id_of : A → String) → (A → Target → Result (String × Target))
      → (new : String → A) → Option A
      → Run (String × Bool)
  found_or_made id_of insert new (some a) = pure (id_of a, false)
  found_or_made id_of insert new none =
      next_id core.made >>= λ id. statement (insert (new id)) >>= λ made. pure (made, true)

  abbrev pub new_tenant : (slug name : String) → String → Tenant
  new_tenant slug name id = record { id = id; name = name; slug = slug }

  abbrev pub new_user : (email name : String) → String → User
  new_user email name id = record { id = id; email = email; password_hash = "!"; name = name }

  abbrev pub tenant_slug : String → String → String
  tenant_slug slug owner_slug = if slug == "" then owner_slug else slug

  -- ensureTenant
  unfoldable pub ensure_tenant : (slug owner_slug name : String) → Run (String × Bool)
  unfolding look_up found_or_made
  ensure_tenant slug owner_slug name =
      look_up (λ t. first (with_slug (tenant_slug slug owner_slug)) t.tenants)
      >>= found_or_made (λ t. t.id) add_tenant (new_tenant (tenant_slug slug owner_slug) name)

  abbrev pub account_email : String → String
  account_email email = to_lower core.lower (trim_space email)

  -- ensureUser
  unfoldable pub ensure_user : (email name : String) → Run (String × Bool)
  unfolding look_up found_or_made
  ensure_user email name =
      look_up (λ t. first (with_email core.db_lower (account_email email)) t.users)
      >>= found_or_made (λ u. u.id) add_user (new_user (account_email email) name)

  -- ensureAdminMembership
  unfoldable pub ensure_admin_membership : (tenant_id user_id : String) → Run Bool
  unfolding statement next_id pure
  ensure_admin_membership tenant_id user_id = next_id core.made >>= (λ id.
      statement (add_member (record { id = id; tenant_id = tenant_id; user_id = user_id }))
      >>= λ membership_id.
          statement (grant_roles membership_id (core.admin_roles tenant_id)) >>= λ n.
          pure (ltb 0 n))
