-- ===== src/Import/Bringing.antt =====
-- Each step of the import brings rows of the source, and only the INSERT of a publisher touches the
-- publishers.
use appstore_gerege_nexus.Prelude.{
  String, Bool, true, false, Option, none, some, ◌≡◌, arith, first, if◌then◌else◌, ◌==◌, subst, ltb,
}
use appstore_gerege_nexus.Tables.{Time}
use appstore_gerege_nexus.World.{Result, ok}
use appstore_gerege_nexus.Import.Session.{
  Tenant, User, Membership, Target, Session, Run, pure, statement, ◌>>=◌,
}
use appstore_gerege_nexus.Import.Accounts.{
  Core, add_tenant, add_user, add_member, member_or_new, is_member, grant_roles, ensure_tenant,
  ensure_user, ensure_admin_membership,
}
use appstore_gerege_nexus.Import.Transfer.{
  SourcePublisher, Source, Report, with_note, with_owner, with_copies, write_app, write_version,
  write_text, write_external, write_event, same_app, same_version, same_text, same_external,
  same_event, import_owner, copy_rows, copy_tables, bump,
}
use appstore_gerege_nexus.Import.Steps.{
  statement-Steps, pure-Steps, next_id-Steps, bind-Steps, look_up-Steps, found_or_made-Steps,
  copy_rows-Steps,
}
use appstore_gerege_nexus.Import.Brought.{
  Brings, Brings-refl, Brings-trans, From-put_new, Brings-apps, Brings-versions, Brings-texts,
  Brings-externals, Brings-events, aside,
}

module _ (source : Source) where
  abbrev B : Target → Target → Type 0
  B = Brings source

  abbrev brings_refl : (t : Target) → B t t
  brings_refl = Brings-refl source

  abbrev brings_trans : (a b c : Target) → B a b → B b c → B a c
  brings_trans = Brings-trans source

  abbrev pub BringsAll : {A : Type 0} → Run A → Type 0
  BringsAll m = (s : Session) → Brings source s.tables (m s).1.tables

  bind-Brings :
      {A C : Type 0} (m : Run A) (f : A → Run C)
      → BringsAll m
      → ((a : A) → BringsAll (f a))
      → BringsAll (m >>= f)
  bind-Brings m f = bind-Steps B brings_refl brings_trans m f

  pure-Brings : {A : Type 0} (a : A) → BringsAll (pure a)
  pure-Brings a = pure-Steps B brings_refl brings_trans a

  statement-Brings :
      {A : Type 0} (f : Target → Result (A × Target))
      → ((t : Target) (a : A) (t' : Target) → f t ≡ ok (a, t') → B t t')
      → BringsAll (statement f)
  statement-Brings f = statement-Steps B brings_refl brings_trans f

  copy_apps-Brings : BringsAll (copy_rows write_app source.apps)
  copy_apps-Brings =
      copy_rows-Steps B brings_refl brings_trans write_app source.apps (λ x i t u t' h.
        subst (B t) (ground arith)
          (Brings-apps source t _ (From-put_new source.apps.rows same_app x t.apps i)))

  copy_versions-Brings : BringsAll (copy_rows write_version source.versions)
  copy_versions-Brings =
      copy_rows-Steps B brings_refl brings_trans write_version source.versions (λ x i t u t' h.
        subst (B t) (ground arith) (
          Brings-versions source t _
            (From-put_new source.versions.rows same_version x t.versions i)))

  copy_texts-Brings : BringsAll (copy_rows write_text source.texts)
  copy_texts-Brings =
      copy_rows-Steps B brings_refl brings_trans write_text source.texts (λ x i t u t' h.
        subst (B t) (ground arith)
          (Brings-texts source t _ (From-put_new source.texts.rows same_text x t.texts i)))

  copy_externals-Brings : BringsAll (copy_rows write_external source.externals)
  copy_externals-Brings =
      copy_rows-Steps B brings_refl brings_trans write_external source.externals (λ x i t u t' h.
        subst (B t) (ground arith) (
          Brings-externals source t _
            (From-put_new source.externals.rows same_external x t.externals i)))

  copy_events-Brings : BringsAll (copy_rows write_event source.events)
  copy_events-Brings =
      copy_rows-Steps B brings_refl brings_trans write_event source.events (λ x i t u t' h.
        subst (B t) (ground arith)
          (Brings-events source t _ (From-put_new source.events.rows same_event x t.events i)))

  module _ (core : Core) where
    pub ensure_tenant-Brings :
        (slug owner_slug name : String) → BringsAll (ensure_tenant core slug owner_slug name)
    unfolding ensure_tenant
    ensure_tenant-Brings slug owner_slug name =
        bind-Brings _ _ (look_up-Steps B brings_refl brings_trans _) (
          found_or_made-Steps B brings_refl brings_trans core (λ (t : Tenant). t.id) add_tenant _
            (λ row t i t' h. aside source t t' (ground arith)))

    ensure_user-Brings : (email name : String) → BringsAll (ensure_user core email name)
    unfolding ensure_user
    ensure_user-Brings email name = bind-Brings _ _ (look_up-Steps B brings_refl brings_trans _) (
        found_or_made-Steps B brings_refl brings_trans core (λ (u : User). u.id) add_user _
          (λ row t i t' h. aside source t t' (ground arith)))

    add_member-Brings :
        (row : Membership) (t : Target) {id : String} {t' : Target}
        → add_member row t ≡ ok (id, t')
        → B t t'
    add_member-Brings row t {id} {t'} h =
        by_row (first (is_member row.tenant_id row.user_id) t.memberships) h
      where
        by_row : (old : Option Membership) → member_or_new row t old ≡ ok (id, t') → B t t'
        by_row none g = aside source t t' (ground arith)
        by_row (some m) g = aside source t t' (ground arith)

    ensure_admin_membership-Brings :
        (tenant_id user_id : String) → BringsAll (ensure_admin_membership core tenant_id user_id)
    unfolding ensure_admin_membership
    ensure_admin_membership-Brings tenant_id user_id =
        bind-Brings _ _ (next_id-Steps B brings_refl brings_trans core.made) (λ id.
          bind-Brings _ _ (statement-Brings _ (λ t a t' h. add_member-Brings _ t h)) (λ m.
            bind-Brings _ _
              (statement-Brings (grant_roles m (core.admin_roles tenant_id))
                (λ t n t' h. aside source t t' (ground arith)))
              (λ n. pure-Brings (ltb 0 n))))

    pub import_owner-Brings :
        (now : Time) (p : SourcePublisher) (tenant_id : String) (r : Report)
        → BringsAll (import_owner core now p tenant_id r)
    unfolding import_owner
    import_owner-Brings now p tenant_id r =
        by_email (p.owner_email == "") _ _ (pure-Brings (with_note core p r)) (
          bind-Brings _ _ (ensure_user-Brings p.owner_email p.name) (λ account.
            bind-Brings _ _ (ensure_admin_membership-Brings tenant_id account.0)
              (λ made. pure-Brings (with_owner account.1 made r))))
      where
        by_email :
            (b : Bool) (m n : Run Report)
            → BringsAll m
            → BringsAll n
            → BringsAll (if b then m else n)
        by_email true m n brings brings' = brings
        by_email false m n brings brings' = brings'

    pub copy_tables-Brings : (now : Time) (r : Report) → BringsAll (copy_tables core now source r)
    unfolding copy_tables
    copy_tables-Brings now r =
        bind-Brings (copy_rows write_app source.apps) _ copy_apps-Brings (λ apps.
          bind-Brings (copy_rows write_version source.versions) _ copy_versions-Brings (λ versions.
            bind-Brings (copy_rows write_text source.texts) _ copy_texts-Brings (λ texts.
              bind-Brings (copy_rows write_external source.externals) _ copy_externals-Brings
                (λ externals.
                  bind-Brings (copy_rows write_event source.events) _ copy_events-Brings
                    (λ events. pure-Brings (with_copies apps versions texts externals events r))))))

  pub bump-Brings : BringsAll (statement bump)
  bump-Brings = statement-Brings bump (λ t u t' h. aside source t t' (ground arith))
