-- ===== src/Import/Committed.antt =====
-- What a committed import leaves, and what a second one does.
use native.Mathlib.Nat.{zero-add}
use appstore_gerege_nexus.Prelude.{
  ◌+◌, String, false, List, length, ◌≡◌, sym, ap, ◌∙◌, arith, subst, In,
}
use appstore_gerege_nexus.Tables.{Time, Publisher}
use appstore_gerege_nexus.World.{Result, ok}
use appstore_gerege_nexus.Import.Session.{Target, Session, statement}
use appstore_gerege_nexus.Import.Session.Laws.{statement_ok, pure_ok, bind_ok}
use appstore_gerege_nexus.Import.Session.Transactions.{in_transaction_ok}
use appstore_gerege_nexus.Import.Accounts.{Core, account_email}
use appstore_gerege_nexus.Import.Transfer.{
  SourcePublisher, Source, Report, empty_report, read_all, bump, import_publishers, copy_tables,
  import_all, run,
}
use appstore_gerege_nexus.Import.Growth.Tables.{Grows-revision}
use appstore_gerege_nexus.Import.Growth.{Grows, Grows-trans}
use appstore_gerege_nexus.Import.Outcome.{import_publishers-Adds, copy_tables-Adds}
use appstore_gerege_nexus.Import.Owners.{Settled, Settled-stays}
use appstore_gerege_nexus.Import.Rerun.{OnlyPublishers, AllSettled, publishers_ok}
use appstore_gerege_nexus.Import.Brought.{Brings, Brought, Brought-trans}
use appstore_gerege_nexus.Import.Bringing.{copy_tables-Brings, bump-Brings}
use appstore_gerege_nexus.Import.Landing.{Landed, Landed-stays, publishers-Loop}
use appstore_gerege_nexus.Import.Copied.{Copied, Copied-stays, CopyCounts, tables_ok, read_all_ok}

-- What an import leaves: every publisher settled and every row copied.
pub record Imported (core : Core) (source : Source) (t : Target) : Type 0 where
  pub settled : AllSettled core source.publishers.rows t
  pub copies : Copied source t

-- How many rows of each table were read.
abbrev pub Counts : Source → Report → Type 0
Counts source r = (r.publishers ≡ length source.publishers.rows) × CopyCounts source r

-- The same tables but for the publishers' rows and one more revision.
abbrev pub OnlyRevised : Target → Target → Type 0
OnlyRevised t t' = record t { publishers = t'.publishers; revision = t.revision + 1 } ≡ t'

bump_ok :
    (s : Session) {u : Unit {0}} {s' : Session}
    → statement bump s ≡ (ok u, s')
    → record s.tables { revision = s.tables.revision + 1 } ≡ s'.tables
bump_ok s {u} {s'} h = let e = statement_ok bump s h in ground arith

revised :
    (a b c : Target)
    → OnlyPublishers a b
    → record b { revision = b.revision + 1 } ≡ c
    → OnlyRevised a c
revised a b c e f =
    ap (λ (ps : List Publisher). record a { publishers = ps; revision = a.revision + 1 })
      (ap (λ (t : Target). t.publishers) (sym f))
    ∙ ap (λ (t : Target). record t { revision = t.revision + 1 }) e
    ∙ f

module _ (core : Core)
    (law : (email : String) → core.db_lower (account_email core email) ≡ account_email core email)
    (now : Time) (source : Source) where
  import_all_ok :
      (s : Session) {r : Report} {s' : Session}
      → import_all core now source s ≡ (ok r, s')
      → Imported core source s'.tables
        × CopyCounts source r
        × (Imported core source s.tables
            → OnlyRevised s.tables s'.tables
              × ((r.tenants ≡ 0) × (r.users ≡ 0) × (r.memberships ≡ 0)))
  unfolding import_all
  import_all_ok s {r} {s'} h =
      let (list, s1, c1, h1) = bind_ok (read_all source.publishers) _ s h in
      let (r1, s2, c2, h2) = bind_ok (import_publishers core now list empty_report) _ s1 h1 in
      let (r2, s3, c3, h3) = bind_ok (copy_tables core now source r1) _ s2 h2 in
      let (u, s4, c4, last) = bind_ok (statement bump) _ s3 h3 in
      let (er, es) = pure_ok r2 s4 last in
      let (rows, d1) = read_all_ok source.publishers s c1 in
      let (settled, quiet) = publishers_ok core law now list empty_report s1 c2 in
      let (copies, counts, same, kept) = tables_ok core now source r1 s2 c3 in
      let rd1 : s1.tables ≡ s.tables = ap (λ (z : Session). z.tables) d1 in
      let d4 : s'.tables ≡ s4.tables = ap (λ (z : Session). z.tables) es in
      let bumped = bump_ok s3 c4 in
      let g12 : Grows s1.tables s2.tables =
        subst (λ (q : Result Report × Session). Grows s1.tables q.1.tables) c2
          (import_publishers-Adds core now list empty_report s1) in
      let g23 : Grows s2.tables s3.tables =
        subst (λ (q : Result Report × Session). Grows s2.tables q.1.tables) c3
          (copy_tables-Adds core now source r1 s2) in
      let g34 : Grows s3.tables s4.tables =
        subst (Grows s3.tables) bumped (Grows-revision s3.tables (s3.tables.revision + 1)) in
      (
        subst (Imported core source) (sym d4) (record {
          settled = λ p i.
              Settled-stays core p s2.tables s4.tables (Grows-trans _ _ _ g23 g34)
                (settled p (subst (In p) rows i));
          copies = Copied-stays source s3.tables s4.tables g34 copies;
        }),
        subst (CopyCounts source) er counts,
        λ old.
            let (only, (e1, e2, e3)) = quiet (λ p i.
              subst (Settled core p) (sym rd1) (old.settled p (subst (In p) (sym rows) i))) in
            let unmoved = same (
              Copied-stays source s1.tables s2.tables g12
                (subst (Copied source) (sym rd1) old.copies)) in
            let (f1, f2, f3, _) = kept in
            (
              subst (OnlyRevised s.tables) (sym d4) (
                  revised s.tables s2.tables s4.tables
                    (subst (λ (t : Target). OnlyPublishers t s2.tables) rd1 only)
                    (ap (λ (t : Target). record t { revision = t.revision + 1 }) (sym unmoved)
                      ∙ bumped)),
              (
                ap (λ (q : Report). q.tenants) (sym er) ∙ f1 ∙ e1,
                ap (λ (q : Report). q.users) (sym er) ∙ f2 ∙ e2,
                ap (λ (q : Report). q.memberships) (sym er) ∙ f3 ∙ e3,
              ),
            ),
      )

  -- The rows of the publishers, and what was added to the copied tables.
  import_all_rows :
      (s : Session) {r : Report} {s' : Session}
      → import_all core now source s ≡ (ok r, s')
      → Landed core now source.publishers.rows s'.tables
        × Brought source s.tables s'.tables
        × (r.publishers ≡ length source.publishers.rows)
  unfolding import_all
  import_all_rows s {r} {s'} h =
      let (list, s1, c1, h1) = bind_ok (read_all source.publishers) _ s h in
      let (r1, s2, c2, h2) = bind_ok (import_publishers core now list empty_report) _ s1 h1 in
      let (r2, s3, c3, h3) = bind_ok (copy_tables core now source r1) _ s2 h2 in
      let (u, s4, c4, last) = bind_ok (statement bump) _ s3 h3 in
      let (er, es) = pure_ok r2 s4 last in
      let (rows, d1) = read_all_ok source.publishers s c1 in
      let loop = publishers-Loop core now source list empty_report s1 c2 in
      let (_, _, _, (_, _, _, kept)) = tables_ok core now source r1 s2 c3 in
      let b23 : Brings source s2.tables s3.tables =
        subst (λ (q : Result Report × Session). Brings source s2.tables q.1.tables) c3
          (copy_tables-Brings source core now r1 s2) in
      let b34 : Brings source s3.tables s4.tables =
        subst (λ (q : Result (Unit {0}) × Session). Brings source s3.tables q.1.tables) c4
          (bump-Brings source s3) in
      let g23 : Grows s2.tables s3.tables =
        subst (λ (q : Result Report × Session). Grows s2.tables q.1.tables) c3
          (copy_tables-Adds core now source r1 s2) in
      let g34 : Grows s3.tables s4.tables =
        subst (Grows s3.tables) (bump_ok s3 c4)
          (Grows-revision s3.tables (s3.tables.revision + 1)) in
      (
        subst (λ (z : Session). Landed core now source.publishers.rows z.tables) (sym es)
            (subst (λ (ps : List SourcePublisher). Landed core now ps s4.tables) (sym rows)
              (Landed-stays core now list s2.tables s4.tables (Grows-trans _ _ _ g23 g34)
                (b34.0 ∙ b23.0) loop.landed)),
        subst (λ (z : Session). Brought source s.tables z.tables) (sym es)
            (subst (λ (z : Session). Brought source z.tables s4.tables) d1
              (Brought-trans source _ _ _ loop.brought (Brought-trans source _ _ _ b23.1 b34.1))),
        ap (λ (q : Report). q.publishers) (sym er)
            ∙ kept
            ∙ loop.count
            ∙ zero-add (length list)
            ∙ ap length (sym rows),
      )

  -- Where the database's `lower` leaves an e-mail that Go lowered as it is, a committed import has
  -- imported everything that the source gave. Every publisher has a tenant under its slug, or its
  -- owner's where it has none, and where it has an owner e-mail an account with that e-mail whose
  -- membership of the tenant has every role with the code 'admin'; the row of store_publishers
  -- under its identifier is of that tenant and has its slug, name, e-mail and verification, unless a
  -- later publisher of the source has the identifier. Every app, version, translation, registration
  -- and event is in its table under its key, and what was added to these five tables, at their
  -- ends, are rows of the source with all their columns. The report counts the publishers and the
  -- rows of each table that were read.
  pub run-Imported :
      (s : Session) {r : Report} {s' : Session}
      → run core now source false s ≡ (ok r, s')
      → Imported core source s'.tables
        × Landed core now source.publishers.rows s'.tables
        × Brought source s.tables s'.tables
        × Counts source r
  unfolding run
  run-Imported s {r} {s'} h =
      let (t, t', d, ran, d') = in_transaction_ok (import_all core now source) s h in
      let (imported, counts, _) = import_all_ok t ran in
      let (landed, brought, publishers) = import_all_rows t ran in
      (
        subst (Imported core source) (sym d') imported,
        subst (Landed core now source.publishers.rows) (sym d') landed,
        subst (Brought source s.tables) (sym d')
            (subst (λ (a : Target). Brought source a t'.tables) d brought),
        (publishers, counts),
      )

  run_again :
      (s : Session) {r : Report} {s' : Session}
      → Imported core source s.tables
      → run core now source false s ≡ (ok r, s')
      → OnlyRevised s.tables s'.tables × ((r.tenants ≡ 0) × (r.users ≡ 0) × (r.memberships ≡ 0))
  unfolding run
  run_again s {r} {s'} old h =
      let (t, t', d, ran, d') = in_transaction_ok (import_all core now source) s h in
      let (_, _, quiet) = import_all_ok t ran in
      let (only, zero_made) = quiet (subst (Imported core source) (sym d) old) in
      (
        subst (OnlyRevised s.tables) (sym d')
            (subst (λ (a : Target). OnlyRevised a t'.tables) d only),
        zero_made,
      )

-- Where the database's `lower` leaves an e-mail that Go lowered as it is, an import that is
-- committed a second time, at whatever time, over the tables that a committed one left, makes no
-- tenant, no account and no membership, and changes no table but the rows of the publishers and the
-- revision, which it bumps by one.
pub run_twice :
    (core : Core)
    (law : (email : String) → core.db_lower (account_email core email) ≡ account_email core email)
    (source : Source) (now later : Time) (s again : Session) {r r' : Report} {s' s'' : Session}
    → run core now source false s ≡ (ok r, s')
    → again.tables ≡ s'.tables
    → run core later source false again ≡ (ok r', s'')
    → OnlyRevised s'.tables s''.tables × ((r'.tenants ≡ 0) × (r'.users ≡ 0) × (r'.memberships ≡ 0))
run_twice core law source now later s again {s' = s'} {s'' = s''} h same h' =
    let (imported, _, _, _) = run-Imported core law now source s h in
    let (only, zero_made) =
      run_again core law later source again (subst (Imported core source) (sym same) imported) h' in
    (subst (λ (t : Target). OnlyRevised t s''.tables) same only, zero_made)
