-- ===== src/Import/Additions.antt =====
-- Every step of the import only adds.
use appstore_gerege_nexus.Prelude.{
  ℕ, String, Bool, true, false, not, List, [], ◌∷◌, ◌++◌, Option, none, some, ◌≡◌, refl, arith, inl,
  inr, first, any, amend, if◌then◌else◌, ◌==◌, ◌&&◌, ◌||◌, subst, Bool-cases, ltb,
}
use appstore_gerege_nexus.Prelude.Membership.{amend-In, In-append_left}
use appstore_gerege_nexus.Tables.{Time, Publisher}
use appstore_gerege_nexus.World.{ok}
use appstore_gerege_nexus.Import.Session.{
  Tenant, User, Membership, MembershipRole, Target, statement,
}
use appstore_gerege_nexus.Import.Accounts.{
  Core, add_tenant, add_user, add_member, member_or_new, is_member, add_role, add_roles, has_role,
  grant_roles, ensure_tenant, ensure_user, ensure_admin_membership,
}
use appstore_gerege_nexus.Import.Transfer.{
  SourcePublisher, imported_publisher, overwritten, write_publisher,
}
use appstore_gerege_nexus.Prelude.Appending.{Prefix, Prefix-refl, Prefix-trans}
use appstore_gerege_nexus.Import.Steps.{look_up-Steps, found_or_made-Steps, next_id-Steps}
use appstore_gerege_nexus.Import.Growth.{
  Grows, Grows-refl, Grows-trans, Adds, statement-Adds, pure-Adds, bind-Adds,
}
use appstore_gerege_nexus.Import.Growth.Tables.{
  Grows-tenants, Grows-users, Grows-memberships, Grows-membership_roles, Grows-publishers,
}

add_role-Prefix : (m id : String) (rows : List MembershipRole) → Prefix rows (add_role m id rows).1
add_role-Prefix m id rows = by_test (any (has_role m id) rows)
  where
    added : Bool → ℕ × List MembershipRole
    added b = if b then (0, rows) else (1, rows ++ record { membership_id = m; role_id = id } ∷ [])

    by_test : (b : Bool) → Prefix rows (added b).1
    by_test true = Prefix-refl rows
    by_test false = (_, refl)

pub add_roles-Prefix :
    (m : String) (ids : List String) (rows : List MembershipRole)
    → Prefix rows (add_roles m ids rows).1
unfolding add_roles
add_roles-Prefix m [] rows = Prefix-refl rows
add_roles-Prefix m (id ∷ ids) rows =
    Prefix-trans rows (add_role m id rows).1 _ (add_role-Prefix m id rows)
      (add_roles-Prefix m ids (add_role m id rows).1)

add_member-Grows :
    (row : Membership) (t : Target) {id : String} {t' : Target}
    → add_member row t ≡ ok (id, t')
    → Grows t t'
add_member-Grows row t {id} {t'} h =
    by_row (first (is_member row.tenant_id row.user_id) t.memberships) h
  where
    by_row : (old : Option Membership) → member_or_new row t old ≡ ok (id, t') → Grows t t'
    by_row none g =
        let e : record t { memberships = t.memberships ++ row ∷ [] } ≡ t' = ground arith in
        subst (Grows t) e (Grows-memberships t (t.memberships ++ row ∷ []) (row ∷ [], refl))
    by_row (some m) g = subst (Grows t) (ground arith) (Grows-refl t)

grant_roles-Adds : (m : String) (ids : List String) → Adds (statement (grant_roles m ids))
grant_roles-Adds m ids = statement-Adds (grant_roles m ids) (λ t n t' h.
    let e : record t { membership_roles = (add_roles m ids t.membership_roles).1 } ≡ t' =
      ground arith in
    subst (Grows t) e (Grows-membership_roles t _ (add_roles-Prefix m ids t.membership_roles)))

module _ (core : Core) where
  pub ensure_tenant-Adds :
      (slug owner_slug name : String) → Adds (ensure_tenant core slug owner_slug name)
  unfolding ensure_tenant
  ensure_tenant-Adds slug owner_slug name =
      bind-Adds _ _ (look_up-Steps Grows Grows-refl Grows-trans _) (
        found_or_made-Steps Grows Grows-refl Grows-trans core (λ (t : Tenant). t.id) add_tenant _
          (λ row t i t' h.
            subst (Grows t) (ground arith)
              (Grows-tenants t (t.tenants ++ row ∷ []) (row ∷ [], refl))))

  pub ensure_user-Adds : (email name : String) → Adds (ensure_user core email name)
  unfolding ensure_user
  ensure_user-Adds email name = bind-Adds _ _ (look_up-Steps Grows Grows-refl Grows-trans _) (
      found_or_made-Steps Grows Grows-refl Grows-trans core (λ (u : User). u.id) add_user _
        (λ row t i t' h.
          subst (Grows t) (ground arith) (Grows-users t (t.users ++ row ∷ []) (row ∷ [], refl))))

  pub ensure_admin_membership-Adds :
      (tenant_id user_id : String) → Adds (ensure_admin_membership core tenant_id user_id)
  unfolding ensure_admin_membership
  ensure_admin_membership-Adds tenant_id user_id =
      bind-Adds _ _ (next_id-Steps Grows Grows-refl Grows-trans core.made) (λ id.
        bind-Adds _ _ (statement-Adds _ (λ t a t' h. add_member-Grows _ t h)) (λ m.
          bind-Adds _ _ (grant_roles-Adds m (core.admin_roles tenant_id))
            (λ n. pure-Adds (ltb 0 n))))

pub write_publisher-Grows :
    (p : SourcePublisher) (tenant_id : String) (now : Time) (t : Target) {u : Unit {0}}
    {t' : Target}
    → write_publisher p tenant_id now t ≡ ok (u, t')
    → Grows t t'
unfolding write_publisher
write_publisher-Grows p tenant_id now t {u} {t'} h =
    elim (Bool-cases (
      any (λ q. not (q.id == p.id) && (q.tenant_id == tenant_id || q.slug == p.slug))
        t.publishers)) [
          | inl taken ↦ let h' = rw taken at h in absurd (cc h')
          | inr free ↦ elim (Bool-cases (any (λ q. q.id == p.id) t.publishers)) [
            | inl old ↦
                let h' = rw (free, old) at h in
                let e : record t {
                  publishers = amend (λ q. q.id == p.id) (overwritten p tenant_id now) t.publishers;
                }
                    ≡ t' =
                  ground arith in
                subst (Grows t) e (
                  Grows-publishers t _ (λ q i. (
                    (if q.id == p.id then overwritten p tenant_id now q else q),
                    amend-In (λ q. q.id == p.id) (overwritten p tenant_id now) q t.publishers i,
                    same_id (q.id == p.id) q,
                    same_age (q.id == p.id) q,
                  )))
            | inr fresh ↦
                let h' = rw (free, fresh) at h in
                let e : record t {
                  publishers = t.publishers ++ imported_publisher p tenant_id now ∷ [];
                }
                    ≡ t' =
                  ground arith in
                subst (Grows t) e (
                  Grows-publishers t _ (λ q i. (
                    q,
                    In-append_left q t.publishers (imported_publisher p tenant_id now ∷ []) i,
                    refl,
                    refl,
                  )))
          ]
        ]
  where
    same_id :
        (b : Bool) (q : Publisher) → (if b then overwritten p tenant_id now q else q).id ≡ q.id
    same_id true q = refl
    same_id false q = refl

    same_age :
        (b : Bool) (q : Publisher)
        → (if b then overwritten p tenant_id now q else q).created_at ≡ q.created_at
    same_age true q = refl
    same_age false q = refl
