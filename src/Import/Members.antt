-- ===== src/Import/Members.antt =====
-- What ensureAdminMembership leaves.
use appstore_gerege_nexus.Prelude.{
  ℕ, String, Bool, true, false, List, [], ◌∷◌, ◌++◌, some, ◌≡◌, refl, sym, ap, ◌∙◌, arith, inl, inr,
  first, any, subst, In, eq_refl, Bool-cases, Option-cases, ltb,
}
use appstore_gerege_nexus.World.{Result, ok}
use appstore_gerege_nexus.Import.Session.{
  Membership, MembershipRole, Target, Session, statement, next_id,
}
use appstore_gerege_nexus.Import.Session.Laws.{statement_ok, pure_ok, bind_ok}
use appstore_gerege_nexus.Import.Accounts.{
  Core, is_member, add_member, has_role, add_role, add_roles, grant_roles, ensure_admin_membership,
}
use appstore_gerege_nexus.Import.Additions.{add_roles-Prefix}
use appstore_gerege_nexus.Prelude.Appending.{first_last, any_last, any_stays}

-- The membership has every one of the roles.
abbrev pub HasRoles : String → List String → List MembershipRole → Type 0
HasRoles membership_id ids rows =
    (id : String) → In id ids → any (has_role membership_id id) rows ≡ true

has_role_refl : (m id : String) → has_role m id (record { membership_id = m; role_id = id }) ≡ true
has_role_refl m id = rw (eq_refl m, eq_refl id) refl

add_role-has :
    (m id : String) (rows : List MembershipRole) → any (has_role m id) (add_role m id rows).1 ≡ true
add_role-has m id rows = elim (Bool-cases (any (has_role m id) rows)) [
  | inl t ↦ rw t t
  | inr f ↦ rw f (
      any_last (has_role m id) rows (record { membership_id = m; role_id = id })
        (has_role_refl m id))
]

add_roles-HasRoles :
    (m : String) (ids : List String) (rows : List MembershipRole)
    → HasRoles m ids (add_roles m ids rows).1
unfolding add_roles
add_roles-HasRoles m [] rows id i = absurd i
add_roles-HasRoles m (x ∷ ids) rows id (inl e) =
    subst (λ (y : String). any (has_role m y) (add_roles m ids (add_role m x rows).1).1 ≡ true)
      (sym e)
      (any_stays (has_role m x) (add_role m x rows).1 _
        (add_roles-Prefix m ids (add_role m x rows).1) (add_role-has m x rows))
add_roles-HasRoles m (x ∷ ids) rows id (inr i) = add_roles-HasRoles m ids (add_role m x rows).1 id i

-- Where it has them all, nothing is written.
add_roles-none :
    (m : String) (ids : List String) (rows : List MembershipRole)
    → HasRoles m ids rows
    → add_roles m ids rows ≡ (0, rows)
unfolding add_roles
add_roles-none m [] rows all = refl
add_roles-none m (x ∷ ids) rows all =
    rw (all x (inl refl), add_roles-none m ids rows (λ id i. all id (inr i))) refl

abbrev Membered : String → String → List String → Target → Membership → Type 0
Membered tenant_id user_id ids t m =
    (first (is_member tenant_id user_id) t.memberships ≡ some m)
    × HasRoles m.id ids t.membership_roles

add_member_ok :
    (row : Membership) (t : Target) {id : String} {t' : Target}
    → add_member row t ≡ ok (id, t')
    → (m : Membership) × (m.id ≡ id)
      × (first (is_member row.tenant_id row.user_id) t'.memberships ≡ some m)
      × (((m' : Membership)
          → first (is_member row.tenant_id row.user_id) t.memberships ≡ some m'
          → t' ≡ t))
add_member_ok row t {id} {t'} h =
    elim (Option-cases (first (is_member row.tenant_id row.user_id) t.memberships)) [
      | inl e ↦
          let h' = rw e at h in
          let grown : t'.memberships ≡ t.memberships ++ row ∷ [] = ground arith in
          (
            row,
            ground arith,
            ap (first (is_member row.tenant_id row.user_id)) grown
                ∙ first_last (is_member row.tenant_id row.user_id) t.memberships row e
                    (rw (eq_refl row.tenant_id, eq_refl row.user_id) refl),
            λ m' found. absurd (cc (e, found)),
          )
      | inr (m, e) ↦
          let h' = rw e at h in
          let same : t' ≡ t = ground arith in
          (
            m,
            ground arith,
            ap (λ (x : Target). first (is_member row.tenant_id row.user_id) x.memberships) same ∙ e,
            λ m' found. same,
          )
    ]

module _ (core : Core) where
  -- What ensureAdminMembership leaves where it succeeds: the membership with the tenant's admin
  -- roles; and it leaves all as it was where that was there before.
  pub member_ok :
      (tenant_id user_id : String) (s : Session) {made : Bool} {s' : Session}
      → ensure_admin_membership core tenant_id user_id s ≡ (ok made, s')
      → ((m : Membership) × Membered tenant_id user_id (core.admin_roles tenant_id) s'.tables m)
        × ((m : Membership)
            → Membered tenant_id user_id (core.admin_roles tenant_id) s.tables m
            → (made ≡ false) × (s'.tables ≡ s.tables))
  unfolding ensure_admin_membership next_id
  member_ok tenant_id user_id s {made} {s'} h =
      let ids = core.admin_roles tenant_id in
      let (id, v, minted, h1) = bind_ok (next_id core.made) _ s h in
      let row : Membership = record { id = id; tenant_id = tenant_id; user_id = user_id } in
      let (member, x, added, h2) = bind_ok (statement (add_member row)) _ v h1 in
      let (n, y, granted, last) = bind_ok (statement (grant_roles member ids)) _ x h2 in
      let dv : v.tables ≡ s.tables =
        ap (λ (p : Result String × Session). p.1.tables) (sym minted) in
      let (m, em, found, same) =
        add_member_ok row v.tables (statement_ok (add_member row) v added) in
      let wrote = statement_ok (grant_roles member ids) x granted in
      let (counted, ends) = pure_ok (ltb 0 n) y last in
      let roles : y.tables.membership_roles ≡ (add_roles member ids x.tables.membership_roles).1 =
        ground arith in
      let members : y.tables.memberships ≡ x.tables.memberships = ground arith in
      let d' : s'.tables ≡ y.tables = ap (λ (z : Session). z.tables) ends in
      (
        (
          m,
          (
            ap (λ (t : Target). first (is_member tenant_id user_id) t.memberships) d'
                ∙ ap (first (is_member tenant_id user_id)) members
                ∙ found,
            subst (λ (rows : List MembershipRole). HasRoles m.id ids rows)
                (sym (ap (λ (t : Target). t.membership_roles) d' ∙ roles))
                (subst
                  (λ (a : String).
                    HasRoles a ids (add_roles member ids x.tables.membership_roles).1)
                  (sym em) (add_roles-HasRoles member ids x.tables.membership_roles)),
          ),
        ),
        λ m' (found', has').
            let dx : x.tables ≡ s.tables =
              same m'
                (ap (λ (t : Target). first (is_member tenant_id user_id) t.memberships) dv ∙ found')
              ∙ dv in
            let is_m : some m ≡ some m' =
              sym found
              ∙ ap (λ (t : Target). first (is_member tenant_id user_id) t.memberships) dx
              ∙ found' in
            let one : m.id ≡ m'.id = ground arith in
            let has : HasRoles member ids x.tables.membership_roles =
              subst (λ (t : Target). HasRoles member ids t.membership_roles) (sym dx)
                (subst (λ (a : String). HasRoles a ids s.tables.membership_roles) (sym one ∙ em)
                  has') in
            let quiet = add_roles-none member ids x.tables.membership_roles has in
            let wrote' = rw quiet at wrote in
            let zero_rows : n ≡ 0 = ground arith in
            let same_tables : y.tables ≡ x.tables = ground arith in
            (sym counted ∙ ap (λ (a : ℕ). ltb 0 a) zero_rows, d' ∙ same_tables ∙ dx),
      )
