-- ===== src/Import/Rerun.antt =====
-- A run of the import that is committed, and a second one after it.
use appstore_gerege_nexus.Prelude.{
  ◌+◌, String, Bool, List, [], ◌∷◌, some, ◌≡◌, refl, sym, ap, ◌∙◌, arith, inl, inr, first, subst,
  In,
}
use appstore_gerege_nexus.Tables.{Time}
use appstore_gerege_nexus.World.{Result, ok}
use appstore_gerege_nexus.Import.Session.{Tenant, Target, Session, statement}
use appstore_gerege_nexus.Import.Session.Laws.{statement_ok, pure_ok, bind_ok}
use appstore_gerege_nexus.Import.Accounts.{
  Core, account_email, with_slug, tenant_slug, ensure_tenant,
}
use appstore_gerege_nexus.Import.Transfer.{
  SourcePublisher, Report, counted, write_publisher, import_owner, import_publisher,
  import_publishers,
}
use appstore_gerege_nexus.Import.Growth.{Grows}
use appstore_gerege_nexus.Import.Outcome.{
  import_publisher-Adds, import_publishers-Adds, import_owner-Adds,
}
use appstore_gerege_nexus.Import.Additions.{write_publisher-Grows}
use appstore_gerege_nexus.Prelude.Appending.{first_stays}
use appstore_gerege_nexus.Import.Owners.{
  Settled, Settled-stays, Owner, SameCounts, tenant_ok, import_owner_ok,
}

-- Only the publishers' rows differ.
abbrev pub OnlyPublishers : Target → Target → Type 0
OnlyPublishers t t' = record t { publishers = t'.publishers } ≡ t'

pub write_publisher_rest :
    (p : SourcePublisher) (tenant_id : String) (now : Time) (t : Target) {u : Unit {0}}
    {t' : Target}
    → write_publisher p tenant_id now t ≡ ok (u, t')
    → OnlyPublishers t t'
unfolding write_publisher
write_publisher_rest p tenant_id now t {u} {t'} h = ground arith

abbrev pub AllSettled : Core → List SourcePublisher → Target → Type 0
AllSettled core ps t = (p : SourcePublisher) → In p ps → Settled core p t

module _ (core : Core)
    (law : (email : String) → core.db_lower (account_email core email) ≡ account_email core email)
    (now : Time) where
  publisher_ok :
      (p : SourcePublisher) (r : Report) (s : Session) {r' : Report} {s' : Session}
      → import_publisher core now p r s ≡ (ok r', s')
      → Settled core p s'.tables
        × (Settled core p s.tables → OnlyPublishers s.tables s'.tables × SameCounts core law r r')
  unfolding import_publisher
  publisher_ok p r s {r'} {s'} h =
      let ((tenant_id, made), v, got, h1) =
        bind_ok (ensure_tenant core p.slug p.owner_slug p.name) _ s h in
      let r0 : Report = record r { tenants = counted made r.tenants } in
      let (r1, x, entered, h2) = bind_ok (import_owner core now p tenant_id r0) _ v h1 in
      let (u, y, wrote, last) = bind_ok (statement (write_publisher p tenant_id now)) _ x h2 in
      let (er, es) = pure_ok (record r1 { publishers = r1.publishers + 1 }) y last in
      let (a, ea, found, before) = tenant_ok core p.slug p.owner_slug p.name s got in
      let (owner, quiet, kept) = import_owner_ok core law now p tenant_id r0 v entered in
      let only =
        write_publisher_rest p tenant_id now x.tables
          (statement_ok (write_publisher p tenant_id now) x wrote) in
      let gx : Grows v.tables x.tables =
        subst (λ (q : Result Report × Session). Grows v.tables q.1.tables) entered
          (import_owner-Adds core now p tenant_id r0 v) in
      let gy : Grows x.tables y.tables =
        write_publisher-Grows p tenant_id now x.tables
          (statement_ok (write_publisher p tenant_id now) x wrote) in
      let settled : Settled core p x.tables = record {
        tenant = a;
        found =
            first_stays (with_slug (tenant_slug core p.slug p.owner_slug)) v.tables.tenants
              x.tables.tenants a gx.tenants found;
        owner = λ e. subst (λ (i : String). Owner core i p.owner_email x.tables) (sym ea) (owner e);
      } in
      (
        subst (λ (z : Session). Settled core p z.tables) (sym es)
            (Settled-stays core p x.tables y.tables gy settled),
        λ old. elim before [
          | inl (unmade, same) ↦
              let known : some a ≡ some old.tenant =
                sym found
                ∙ ap
                    (λ (t : Target).
                      first (with_slug (tenant_slug core p.slug p.owner_slug)) t.tenants)
                    same
                ∙ old.found in
              let id : old.tenant.id ≡ tenant_id =
                ap (λ (b : Tenant). b.id) (sym (unwrap a old.tenant known)) ∙ ea in
              let (dx, (e1, e2, e3)) = quiet (λ e.
                subst (Owner core tenant_id p.owner_email) (sym same)
                  (subst (λ (i : String). Owner core i p.owner_email s.tables) id (old.owner e))) in
              (
                subst (λ (z : Session). OnlyPublishers s.tables z.tables) (sym es)
                    (subst (λ (t : Target). OnlyPublishers t y.tables) (dx ∙ same) only),
                (
                  ap (λ (q : Report). q.tenants) (sym er)
                      ∙ e1
                      ∙ ap (λ (b : Bool). counted b r.tenants) unmade,
                  ap (λ (q : Report). q.users) (sym er) ∙ e2,
                  ap (λ (q : Report). q.memberships) (sym er) ∙ e3,
                ),
              )
          | inr none_before ↦ absurd (cc (none_before, old.found))
        ],
      )
    where
      unwrap : (a b : Tenant) → some a ≡ some b → a ≡ b
      unwrap a b e = ground arith

  only_trans : (a b c : Target) → OnlyPublishers a b → OnlyPublishers b c → OnlyPublishers a c
  only_trans a b c e f = ap (λ (t : Target). record t { publishers = c.publishers }) e ∙ f

  pub publishers_ok :
      (ps : List SourcePublisher) (r : Report) (s : Session) {r' : Report} {s' : Session}
      → import_publishers core now ps r s ≡ (ok r', s')
      → AllSettled core ps s'.tables
        × (AllSettled core ps s.tables
            → OnlyPublishers s.tables s'.tables × SameCounts core law r r')
  unfolding import_publishers
  publishers_ok [] r s h =
      let (er, es) = pure_ok r s h in
      (
        λ p i. absurd i,
        λ _. (
          subst (λ (z : Session). OnlyPublishers s.tables z.tables) (sym es) refl,
          (
            ap (λ (q : Report). q.tenants) (sym er),
            ap (λ (q : Report). q.users) (sym er),
            ap (λ (q : Report). q.memberships) (sym er),
          ),
        ),
      )
  publishers_ok (p ∷ ps) r s {r'} {s'} h =
      let (r1, v, done, rest) =
        bind_ok (import_publisher core now p r) (import_publishers core now ps) s h in
      let (settled, quiet) = publisher_ok p r s done in
      let (others, quiets) = publishers_ok ps r1 v rest in
      let g : Grows s.tables v.tables =
        subst (λ (q : Result Report × Session). Grows s.tables q.1.tables) done
          (import_publisher-Adds core now p r s) in
      let g' : Grows v.tables s'.tables =
        subst (λ (q : Result Report × Session). Grows v.tables q.1.tables) rest
          (import_publishers-Adds core now ps r1 v) in
      (
        λ q i. elim i [
          | inl e ↦
              subst (λ (x : SourcePublisher). Settled core x s'.tables) (sym e)
                (Settled-stays core p v.tables s'.tables g' settled)
          | inr j ↦ others q j
        ],
        λ old.
            let (only, (a, b, c)) = quiet (old p (inl refl)) in
            let (only', (a', b', c')) =
              quiets (λ q j. Settled-stays core q s.tables v.tables g (old q (inr j))) in
            (only_trans s.tables v.tables s'.tables only only', (a' ∙ a, b' ∙ b, c' ∙ c)),
      )
