-- ===== src/Import/Owners.antt =====
-- One turn of the loop over the publishers.
use appstore_gerege_nexus.Prelude.{
  String, Bool, false, none, some, ◌≡◌, sym, ap, ◌∙◌, arith, ◌⊎◌, inl, inr, first, subst, ◌==◌,
  eq_iff, eq_refl, Bool-cases,
}
use appstore_gerege_nexus.Tables.{Time}
use appstore_gerege_nexus.World.{Result, ok}
use appstore_gerege_nexus.Import.Session.{Tenant, User, Membership, Target, Session, pure, ◌>>=◌}
use appstore_gerege_nexus.Import.Session.Laws.{pure_ok, bind_ok}
use appstore_gerege_nexus.Import.Accounts.{
  Core, with_slug, with_email, add_tenant, add_user, new_tenant, new_user, tenant_slug,
  account_email, is_member, ensure_tenant, ensure_user, ensure_admin_membership,
}
use appstore_gerege_nexus.Import.Transfer.{
  SourcePublisher, Report, counted, with_note, with_owner, import_owner,
}
use appstore_gerege_nexus.Import.Growth.{Grows}
use appstore_gerege_nexus.Import.Additions.{ensure_admin_membership-Adds}
use appstore_gerege_nexus.Import.Settled.{found_ok}
use appstore_gerege_nexus.Prelude.Appending.{first_stays, any_stays}
use appstore_gerege_nexus.Import.Members.{HasRoles, member_ok}

module _ (core : Core) where
  -- The owner's account, and its membership of the tenant with every role whose code is 'admin'.
  pub record Owner (tenant_id email : String) (t : Target) : Type 0 where
    pub user : User
    pub account : first (with_email core.db_lower (account_email core email)) t.users ≡ some user
    pub membership : Membership
    pub member : first (is_member tenant_id user.id) t.memberships ≡ some membership
    pub roles : HasRoles membership.id (core.admin_roles tenant_id) t.membership_roles

  -- A publisher's tenant under its slug, or its owner's where it has none; and its owner, if it has
  -- an e-mail.
  pub record Settled (p : SourcePublisher) (t : Target) : Type 0 where
    pub tenant : Tenant
    pub found : first (with_slug (tenant_slug core p.slug p.owner_slug)) t.tenants ≡ some tenant
    pub owner : (p.owner_email == "") ≡ false → Owner tenant.id p.owner_email t

  Owner-stays :
      (tenant_id email : String) (t t' : Target)
      → Grows t t'
      → Owner tenant_id email t
      → Owner tenant_id email t'
  Owner-stays tenant_id email t t' g o = record {
    user = o.user;
    account =
        first_stays (with_email core.db_lower (account_email core email)) t.users t'.users o.user
          g.users o.account;
    membership = o.membership;
    member =
        first_stays (is_member tenant_id o.user.id) t.memberships t'.memberships o.membership
          g.memberships o.member;
    roles = λ id i.
        any_stays _ t.membership_roles t'.membership_roles g.membership_roles (o.roles id i);
  }

  pub Settled-stays :
      (p : SourcePublisher) (t t' : Target) → Grows t t' → Settled p t → Settled p t'
  Settled-stays p t t' g s = record {
    tenant = s.tenant;
    found =
        first_stays (with_slug (tenant_slug core p.slug p.owner_slug)) t.tenants t'.tenants s.tenant
          g.tenants s.found;
    owner = λ e. Owner-stays s.tenant.id p.owner_email t t' g (s.owner e);
  }

  pub tenant_ok :
      (slug owner_slug name : String) (s : Session) {id : String} {made : Bool} {s' : Session}
      → ensure_tenant core slug owner_slug name s ≡ (ok (id, made), s')
      → (a : Tenant) × (a.id ≡ id)
        × (first (with_slug (tenant_slug core slug owner_slug)) s'.tables.tenants ≡ some a)
        × (((made ≡ false) × (s'.tables ≡ s.tables))
            ⊎ (first (with_slug (tenant_slug core slug owner_slug)) s.tables.tenants ≡ none))
  unfolding ensure_tenant
  tenant_ok slug owner_slug name s h =
      found_ok core (λ (t : Target). t.tenants) (with_slug (tenant_slug core slug owner_slug))
        (λ a. a.id) add_tenant (new_tenant core (tenant_slug core slug owner_slug) name)
        (λ a t i t' e. (ground arith, ground arith))
        (λ i. eq_refl (tenant_slug core slug owner_slug)) s h

  module _
      (law : (email : String)
        → core.db_lower (account_email core email) ≡ account_email core email) where
    user_ok :
        (email name : String) (s : Session) {id : String} {made : Bool} {s' : Session}
        → ensure_user core email name s ≡ (ok (id, made), s')
        → (a : User) × (a.id ≡ id)
          × (first (with_email core.db_lower (account_email core email)) s'.tables.users ≡ some a)
          × (((made ≡ false) × (s'.tables ≡ s.tables))
              ⊎ (first (with_email core.db_lower (account_email core email)) s.tables.users ≡ none))
    unfolding ensure_user
    user_ok email name s h =
        found_ok core (λ (t : Target). t.users)
          (with_email core.db_lower (account_email core email)) (λ a. a.id) add_user
          (new_user core (account_email core email) name)
          (λ a t i t' e. (ground arith, ground arith)) (λ i. (eq_iff _ _).1 (law email)) s h

    -- The accounts and memberships that a report counts.
    abbrev pub SameCounts : Report → Report → Type 0
    SameCounts r r' =
        (r'.tenants ≡ r.tenants) × (r'.users ≡ r.users) × (r'.memberships ≡ r.memberships)

    account_ok :
        (now : Time) (p : SourcePublisher) (tenant_id : String) (r : Report) (s : Session)
        {r' : Report} {s' : Session}
        → (ensure_user core p.owner_email p.name >>= λ account.
              ensure_admin_membership core tenant_id account.0 >>= λ made.
              pure (with_owner account.1 made r))
            s
          ≡ (ok r', s')
        → Owner tenant_id p.owner_email s'.tables
          × (Owner tenant_id p.owner_email s.tables → (s'.tables ≡ s.tables) × SameCounts r r')
          × (r'.tenants ≡ r.tenants)
    account_ok now p tenant_id r s {r'} {s'} h =
        let ((user_id, made_user), v, got, h1) =
          bind_ok (ensure_user core p.owner_email p.name) _ s h in
        let (made, x, entered, last) =
          bind_ok (ensure_admin_membership core tenant_id user_id) _ v h1 in
        let (er, es) = pure_ok (with_owner made_user made r) x last in
        let (u, eu, account, before) = user_ok p.owner_email p.name s got in
        let ((m, (member, roles)), again) = member_ok core tenant_id user_id v entered in
        let d : s'.tables ≡ x.tables = ap (λ (z : Session). z.tables) es in
        let g : Grows v.tables x.tables =
          subst (λ (q : Result Bool × Session). Grows v.tables q.1.tables) entered
            (ensure_admin_membership-Adds core tenant_id user_id v) in
        let o : Owner tenant_id p.owner_email x.tables = record {
          user = u;
          account =
              first_stays (with_email core.db_lower (account_email core p.owner_email))
                v.tables.users x.tables.users u g.users account;
          membership = m;
          member =
              subst (λ (a : String). first (is_member tenant_id a) x.tables.memberships ≡ some m)
                (sym eu) member;
          roles = roles;
        } in
        (
          subst (Owner tenant_id p.owner_email) (sym d) o,
          λ old. elim before [
            | inl (unmade, same) ↦
                let known : some u ≡ some old.user =
                  sym account
                  ∙ ap
                      (λ (t : Target).
                        first (with_email core.db_lower (account_email core p.owner_email)) t.users)
                      same
                  ∙ old.account in
                let id : old.user.id ≡ user_id =
                  ap (λ (a : User). a.id) (sym (unwrap u old.user known)) ∙ eu in
                let (unjoined, same') = again old.membership (
                  subst
                      (λ (t : Target).
                        first (is_member tenant_id user_id) t.memberships ≡ some old.membership)
                      (sym same)
                      (subst
                        (λ (a : String).
                          first (is_member tenant_id a) s.tables.memberships ≡ some old.membership)
                        id old.member),
                  subst
                      (λ (t : Target).
                        HasRoles old.membership.id (core.admin_roles tenant_id) t.membership_roles)
                      (sym same) old.roles,
                ) in
                (
                  d ∙ same' ∙ same,
                  (
                    ap (λ (q : Report). q.tenants) (sym er),
                    ap (λ (q : Report). q.users) (sym er)
                        ∙ ap (λ (b : Bool). counted b r.users) unmade,
                    ap (λ (q : Report). q.memberships) (sym er)
                        ∙ ap (λ (b : Bool). counted b r.memberships) unjoined,
                  ),
                )
            | inr none_before ↦ absurd (cc (none_before, old.account))
          ],
          ap (λ (q : Report). q.tenants) (sym er),
        )
      where
        unwrap : (a b : User) → some a ≡ some b → a ≡ b
        unwrap a b e = ground arith

    pub import_owner_ok :
        (now : Time) (p : SourcePublisher) (tenant_id : String) (r : Report) (s : Session)
        {r' : Report} {s' : Session}
        → import_owner core now p tenant_id r s ≡ (ok r', s')
        → ((p.owner_email == "") ≡ false → Owner tenant_id p.owner_email s'.tables)
          × (((p.owner_email == "") ≡ false → Owner tenant_id p.owner_email s.tables)
              → (s'.tables ≡ s.tables) × SameCounts r r')
          × (r'.tenants ≡ r.tenants)
    unfolding import_owner
    import_owner_ok now p tenant_id r s {r'} {s'} h = elim (Bool-cases (p.owner_email == "")) [
      | inl t ↦
          let (er, es) = pure_ok (with_note core p r) s (rw t at h) in
          (
            λ f. absurd (cc (t, f)),
            λ _. (
              ap (λ (z : Session). z.tables) es,
              (
                ap (λ (q : Report). q.tenants) (sym er),
                ap (λ (q : Report). q.users) (sym er),
                ap (λ (q : Report). q.memberships) (sym er),
              ),
            ),
            ap (λ (q : Report). q.tenants) (sym er),
          )
      | inr f ↦
          let (o, quiet, kept) = account_ok now p tenant_id r s (rw f at h) in
          (λ _. o, λ old. quiet (old f), kept)
    ]
