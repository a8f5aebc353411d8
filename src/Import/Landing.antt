-- ===== src/Import/Landing.antt =====
-- The loop over the publishers: what it leaves of each, and how many it counts.
use appstore_gerege_nexus.Prelude.{
  ℕ, ◌+◌, String, Bool, true, false, List, [], ◌∷◌, length, some, ◌≡◌, refl, sym, ap, ◌∙◌, arith,
  ◌⊎◌, inl, inr, first, any, ◌==◌, Bool-cases, subst,
}
use appstore_gerege_nexus.Prelude.Appending.{first_stays}
use appstore_gerege_nexus.Tables.{Time}
use appstore_gerege_nexus.World.{Result, ok}
use appstore_gerege_nexus.Import.Session.{Tenant, Target, Session, statement}
use appstore_gerege_nexus.Import.Session.Laws.{statement_ok, pure_ok, bind_ok}
use appstore_gerege_nexus.Import.Accounts.{
  Core, with_slug, tenant_slug, ensure_tenant, ensure_user, ensure_admin_membership,
}
use appstore_gerege_nexus.Import.Transfer.{
  SourcePublisher, Source, Report, counted, with_note, with_owner, write_publisher, import_owner,
  import_publisher, import_publishers,
}
use appstore_gerege_nexus.Import.Growth.{Grows, Grows-trans}
use appstore_gerege_nexus.Import.Outcome.{import_publishers-Adds, import_owner-Adds}
use appstore_gerege_nexus.Import.Additions.{write_publisher-Grows}
use appstore_gerege_nexus.Import.Owners.{tenant_ok}
use appstore_gerege_nexus.Import.Rerun.{OnlyPublishers, write_publisher_rest}
use appstore_gerege_nexus.Import.Brought.{Brings, Brought, Brought-refl, Brought-trans}
use appstore_gerege_nexus.Import.Bringing.{ensure_tenant-Brings, import_owner-Brings}
use appstore_gerege_nexus.Import.Landed.{
  with_id, Entered, write_publisher-Entered, write_publisher_other,
}

module _ (core : Core) (now : Time) where
  -- A publisher's row, in the tenant under the publisher's slug, or its owner's where it has none.
  pub record Carried (p : SourcePublisher) (t : Target) : Type 0 where
    pub tenant : Tenant
    pub owned : first (with_slug (tenant_slug core p.slug p.owner_slug)) t.tenants ≡ some tenant
    pub entered : Entered p tenant.id now t

  -- Of the publishers with one identifier the last is carried.
  abbrev pub Landed : List SourcePublisher → Target → Type 0
  Landed [] t = Unit
  Landed (p ∷ ps) t = ((any (λ q. q.id == p.id) ps ≡ true) ⊎ Carried p t) × Landed ps t

  -- The rows under an identifier are the same.
  abbrev pub SameRow : String → Target → Target → Type 0
  SameRow id t t' = first (with_id id) t'.publishers ≡ first (with_id id) t.publishers

  Carried-stays :
      (p : SourcePublisher) (t t' : Target)
      → Grows t t'
      → SameRow p.id t t'
      → Carried p t
      → Carried p t'
  Carried-stays p t t' g e c = record {
    tenant = c.tenant;
    owned = first_stays _ t.tenants t'.tenants c.tenant g.tenants c.owned;
    entered = record {
      row = c.entered.row;
      found = e ∙ c.entered.found;
      tenant = c.entered.tenant;
      slug = c.entered.slug;
      name = c.entered.name;
      contact_email = c.entered.contact_email;
      verified = c.entered.verified;
      updated_at = c.entered.updated_at;
    };
  }

  pub Landed-stays :
      (ps : List SourcePublisher) (t t' : Target)
      → Grows t t'
      → t'.publishers ≡ t.publishers
      → Landed ps t
      → Landed ps t'
  Landed-stays [] t t' g e l = tt
  Landed-stays (p ∷ ps) t t' g e (l, ls) = (
    elim l [
      | inl later ↦ inl later
      | inr c ↦ inr (Carried-stays p t t' g (ap (first (with_id p.id)) e) c)
    ],
    Landed-stays ps t t' g e ls,
  )

  owner_count :
      (p : SourcePublisher) (tenant_id : String) (r : Report) (s : Session) {r' : Report}
      {s' : Session}
      → import_owner core now p tenant_id r s ≡ (ok r', s')
      → r'.publishers ≡ r.publishers
  unfolding import_owner
  owner_count p tenant_id r s {r'} {s'} h = elim (Bool-cases (p.owner_email == "")) [
    | inl t ↦
        let (e, _) = pure_ok (with_note core p r) s (rw t at h) in
        ap (λ (q : Report). q.publishers) (sym e)
    | inr f ↦
        let ((user_id, made_user), v, got, h1) =
          bind_ok (ensure_user core p.owner_email p.name) _ s (rw f at h) in
        let (made, x, entered, last) =
          bind_ok (ensure_admin_membership core tenant_id user_id) _ v h1 in
        let (e, _) = pure_ok (with_owner made_user made r) x last in
        ap (λ (q : Report). q.publishers) (sym e)
  ]

  -- What one turn of the loop does.
  record Turn (source : Source) (p : SourcePublisher) (r r' : Report) (t t' : Target) : Type 0 where
    carried : Carried p t'
    count : r'.publishers ≡ r.publishers + 1
    others : (id : String) → (p.id == id) ≡ false → SameRow id t t'
    brought : Brought source t t'

  publisher-Turn :
      (source : Source) (p : SourcePublisher) (r : Report) (s : Session) {r' : Report}
      {s' : Session}
      → import_publisher core now p r s ≡ (ok r', s')
      → Turn source p r r' s.tables s'.tables
  unfolding import_publisher
  publisher-Turn source p r s {r'} {s'} h =
      let ((tenant_id, made), v, got, h1) =
        bind_ok (ensure_tenant core p.slug p.owner_slug p.name) _ s h in
      let r0 : Report = record r { tenants = counted made r.tenants } in
      let (r1, x, entered, h2) = bind_ok (import_owner core now p tenant_id r0) _ v h1 in
      let (u, y, wrote, last) = bind_ok (statement (write_publisher p tenant_id now)) _ x h2 in
      let (er, es) = pure_ok (record r1 { publishers = r1.publishers + 1 }) y last in
      let (a, ea, found, _) = tenant_ok core p.slug p.owner_slug p.name s got in
      let write = statement_ok (write_publisher p tenant_id now) x wrote in
      let b1 : Brings source s.tables v.tables =
        subst (λ (q : Result (String × Bool) × Session). Brings source s.tables q.1.tables) got
          (ensure_tenant-Brings source core p.slug p.owner_slug p.name s) in
      let b2 : Brings source v.tables x.tables =
        subst (λ (q : Result Report × Session). Brings source v.tables q.1.tables) entered
          (import_owner-Brings source core now p tenant_id r0 v) in
      let gx : Grows v.tables x.tables =
        subst (λ (q : Result Report × Session). Grows v.tables q.1.tables) entered
          (import_owner-Adds core now p tenant_id r0 v) in
      let gy : Grows x.tables y.tables = write_publisher-Grows p tenant_id now x.tables write in
      subst (λ (z : Session). Turn source p r r' s.tables z.tables) (sym es)
        (record {
          carried = record {
            tenant = a;
            owned =
                first_stays _ v.tables.tenants y.tables.tenants a (Grows-trans _ _ _ gx gy).tenants
                  found;
            entered =
                subst (λ (i : String). Entered p i now y.tables) (sym ea)
                  (write_publisher-Entered p tenant_id now x.tables write);
          };
          count =
              ap (λ (q : Report). q.publishers) (sym er)
              ∙ ap (λ (n : ℕ). n + 1) (owner_count p tenant_id r0 v entered);
          others = λ id n.
              write_publisher_other p tenant_id now x.tables id n write
              ∙ ap (first (with_id id)) (b2.0 ∙ b1.0);
          brought =
              Brought-trans source _ _ _ (Brought-trans source _ _ _ b1.1 b2.1) (
                rest source x.tables y.tables
                  (write_publisher_rest p tenant_id now x.tables write));
        })
    where
      rest : (source : Source) (t t' : Target) → OnlyPublishers t t' → Brought source t t'
      rest source t t' e = subst (Brought source t) e (record {
        apps = (Brought-refl source t).apps;
        versions = (Brought-refl source t).versions;
        texts = (Brought-refl source t).texts;
        externals = (Brought-refl source t).externals;
        events = (Brought-refl source t).events;
      })

  -- What the loop does.
  pub record Loop (source : Source) (ps : List SourcePublisher) (r r' : Report) (t t' : Target)
      : Type 0 where
    pub landed : Landed ps t'
    pub count : r'.publishers ≡ r.publishers + length ps
    pub others : (id : String) → any (λ q. q.id == id) ps ≡ false → SameRow id t t'
    pub brought : Brought source t t'

  pub publishers-Loop :
      (source : Source) (ps : List SourcePublisher) (r : Report) (s : Session) {r' : Report}
      {s' : Session}
      → import_publishers core now ps r s ≡ (ok r', s')
      → Loop source ps r r' s.tables s'.tables
  unfolding import_publishers
  publishers-Loop source [] r s {r'} h =
      let (er, es) = pure_ok r s h in
      let count : r'.publishers ≡ r.publishers = ap (λ (q : Report). q.publishers) (sym er) in
      subst (λ (z : Session). Loop source [] r r' s.tables z.tables) (sym es)
        (record {
          landed = tt;
          count = omega arith;
          others = λ id n. refl;
          brought = Brought-refl source s.tables;
        })
  publishers-Loop source (p ∷ ps) r s {r'} {s'} h =
      let (r1, v, done, rest) =
        bind_ok (import_publisher core now p r) (import_publishers core now ps) s h in
      let one = publisher-Turn source p r s done in
      let more = publishers-Loop source ps r1 v rest in
      let g : Grows v.tables s'.tables =
        subst (λ (q : Result Report × Session). Grows v.tables q.1.tables) rest
          (import_publishers-Adds core now ps r1 v) in
      let first_count = one.count in
      let rest_count = more.count in
      record {
        landed = (
          elim (Bool-cases (any (λ q. q.id == p.id) ps)) [
            | inl later ↦ inl later
            | inr n ↦ inr (Carried-stays p v.tables s'.tables g (more.others p.id n) one.carried)
          ],
          more.landed,
        );
        count = omega arith;
        others = λ id n. elim (Bool-cases (p.id == id)) [
          | inl t ↦ let n' = rw t at n in absurd (cc n')
          | inr f ↦ let n' = rw f at n in more.others id n' ∙ one.others id f
        ];
        brought = Brought-trans source _ _ _ one.brought more.brought;
      }
