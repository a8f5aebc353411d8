-- ===== src/Import/Outcome.antt =====
-- How the import ends.
use appstore_gerege_nexus.Prelude.{
  ◌+◌, String, Bool, true, false, List, [], ◌∷◌, ◌≡◌, sym, arith, inl, inr, ◌==◌, if◌then◌else◌,
  subst,
}
use appstore_gerege_nexus.Tables.{Time, ExternalRegistration}
use appstore_gerege_nexus.World.{Error, Result, ok, err}
use appstore_gerege_nexus.Import.Session.{
  Target, Session, Run, AppCopy, VersionCopy, TextCopy, EventCopy, in_transaction,
}
use appstore_gerege_nexus.Import.Session.Laws.{outcome}
use appstore_gerege_nexus.Import.Session.Transactions.{
  in_transaction_ok, in_transaction_err, in_transaction-dry, in_transaction-same,
}
use appstore_gerege_nexus.Import.Accounts.{Core}
use appstore_gerege_nexus.Import.Transfer.{
  SourcePublisher, Cursor, Source, Report, empty_report, with_note, with_owner, with_copies,
  write_app, write_version, write_text, write_external, write_event, bump, same_app, same_version,
  same_text, same_external, same_event, write_publisher, import_owner, import_publisher,
  import_publishers, copy_rows, copy_tables, import_all, run,
}
use appstore_gerege_nexus.Import.Steps.{read_all-Steps, copy_rows-Steps}
use appstore_gerege_nexus.Import.Growth.{
  Prefix-put_new, Grows, Grows-refl, Grows-trans, Adds, statement-Adds, pure-Adds, bind-Adds,
}
use appstore_gerege_nexus.Import.Growth.Tables.{
  Grows-apps, Grows-versions, Grows-texts, Grows-externals, Grows-events, Grows-revision,
}
use appstore_gerege_nexus.Import.Additions.{
  ensure_tenant-Adds, ensure_user-Adds, ensure_admin_membership-Adds, write_publisher-Grows,
}

copy_apps-Adds : (c : Cursor AppCopy) → Adds (copy_rows write_app c)
copy_apps-Adds c = copy_rows-Steps Grows Grows-refl Grows-trans write_app c (λ x i t u t' h.
    subst (Grows t) (ground arith) (Grows-apps t _ (Prefix-put_new same_app x t.apps)))

copy_versions-Adds : (c : Cursor VersionCopy) → Adds (copy_rows write_version c)
copy_versions-Adds c = copy_rows-Steps Grows Grows-refl Grows-trans write_version c (λ x i t u t' h.
    subst (Grows t) (ground arith) (Grows-versions t _ (Prefix-put_new same_version x t.versions)))

copy_texts-Adds : (c : Cursor TextCopy) → Adds (copy_rows write_text c)
copy_texts-Adds c = copy_rows-Steps Grows Grows-refl Grows-trans write_text c (λ x i t u t' h.
    subst (Grows t) (ground arith) (Grows-texts t _ (Prefix-put_new same_text x t.texts)))

copy_externals-Adds : (c : Cursor ExternalRegistration) → Adds (copy_rows write_external c)
copy_externals-Adds c =
    copy_rows-Steps Grows Grows-refl Grows-trans write_external c (λ x i t u t' h.
      subst (Grows t) (ground arith)
        (Grows-externals t _ (Prefix-put_new same_external x t.externals)))

copy_events-Adds : (c : Cursor EventCopy) → Adds (copy_rows write_event c)
copy_events-Adds c = copy_rows-Steps Grows Grows-refl Grows-trans write_event c (λ x i t u t' h.
    subst (Grows t) (ground arith) (Grows-events t _ (Prefix-put_new same_event x t.events)))

module _ (core : Core) (now : Time) where
  pub import_owner-Adds :
      (p : SourcePublisher) (tenant_id : String) (r : Report)
      → Adds (import_owner core now p tenant_id r)
  unfolding import_owner
  import_owner-Adds p tenant_id r =
      by_email (p.owner_email == "") _ _ (pure-Adds (with_note core p r)) (
        bind-Adds _ _ (ensure_user-Adds core p.owner_email p.name) (λ account.
          bind-Adds _ _ (ensure_admin_membership-Adds core tenant_id account.0)
            (λ made. pure-Adds (with_owner account.1 made r))))
    where
      by_email : (b : Bool) (m n : Run Report) → Adds m → Adds n → Adds (if b then m else n)
      by_email true m n adds adds' = adds
      by_email false m n adds adds' = adds'

  pub import_publisher-Adds :
      (p : SourcePublisher) (r : Report) → Adds (import_publisher core now p r)
  unfolding import_publisher
  import_publisher-Adds p r =
      bind-Adds _ _ (ensure_tenant-Adds core p.slug p.owner_slug p.name) (λ found.
        bind-Adds _ _ (import_owner-Adds p found.0 _) (λ r'.
          bind-Adds _ _
            (statement-Adds (write_publisher p found.0 now)
              (λ t u t' h. write_publisher-Grows p found.0 now t h))
            (λ u. pure-Adds (record r' { publishers = r'.publishers + 1 }))))

  pub import_publishers-Adds :
      (ps : List SourcePublisher) (r : Report) → Adds (import_publishers core now ps r)
  unfolding import_publishers
  import_publishers-Adds [] r = pure-Adds r
  import_publishers-Adds (p ∷ ps) r =
      bind-Adds _ _ (import_publisher-Adds p r) (import_publishers-Adds ps)

  pub copy_tables-Adds : (source : Source) (r : Report) → Adds (copy_tables core now source r)
  unfolding copy_tables
  copy_tables-Adds source r =
      bind-Adds (copy_rows write_app source.apps) _ (copy_apps-Adds source.apps) (λ apps.
        bind-Adds (copy_rows write_version source.versions) _ (copy_versions-Adds source.versions)
          (λ versions.
            bind-Adds (copy_rows write_text source.texts) _ (copy_texts-Adds source.texts) (λ texts.
              bind-Adds (copy_rows write_external source.externals) _
                (copy_externals-Adds source.externals)
                (λ externals.
                  bind-Adds (copy_rows write_event source.events) _ (copy_events-Adds source.events)
                    (λ events. pure-Adds (with_copies apps versions texts externals events r))))))

  import_all-Adds : (source : Source) → Adds (import_all core now source)
  unfolding import_all
  import_all-Adds source =
      bind-Adds _ _ (read_all-Steps Grows Grows-refl Grows-trans source.publishers) (λ list.
        bind-Adds _ _ (import_publishers-Adds list empty_report) (λ r.
          bind-Adds _ _ (copy_tables-Adds source r) (λ r'.
            bind-Adds _ _
              (statement-Adds bump
                (λ t u t' h. subst (Grows t) (ground arith) (Grows-revision t (t.revision + 1))))
              (λ u. pure-Adds r'))))

  -- A run that answers an error, at whichever statement of either database or at the commit, has
  -- changed no table; and a dry run has changed none, whatever it answers.
  pub run_unwritten :
      (source : Source) (dry_run : Bool) (s : Session)
      → ((e : Error) (s' : Session)
          → run core now source dry_run s ≡ (err e, s')
          → s'.tables ≡ s.tables)
        × ((run core now source true s).1.tables ≡ s.tables)
  unfolding run
  run_unwritten source dry_run s = (
    λ e s' h. in_transaction_err dry_run (import_all core now source) s h,
    in_transaction-dry (import_all core now source) s,
  )

  -- A dry run of what can be imported reports what the import itself reports.
  pub run_rehearsed :
      (source : Source) (s : Session) {r : Report} {s' : Session}
      → run core now source false s ≡ (ok r, s')
      → (run core now source true s).0 ≡ ok r
  unfolding run
  run_rehearsed source s h = in_transaction-same (import_all core now source) s h

  -- A run, dry or not, and whatever it answers, deletes nothing: every tenant, account, membership,
  -- role of a membership, app, version, translation, external registration and event of the target
  -- stands there as it was, in its order and before what was added, and every publisher's row is
  -- there still under its identifier.
  pub run-Grows :
      (source : Source) (dry_run : Bool) (s : Session)
      → Grows s.tables (run core now source dry_run s).1.tables
  unfolding run
  run-Grows source true s =
      subst (Grows s.tables) (sym (in_transaction-dry (import_all core now source) s))
        (Grows-refl s.tables)
  run-Grows source false s = elim (outcome (in_transaction false (import_all core now source)) s) [
    | inl (r, s', h) ↦
        let (t, t', d, ran, d') = in_transaction_ok (import_all core now source) s h in
        subst (λ (p : Result Report × Session). Grows s.tables p.1.tables) (sym h)
          (subst (Grows s.tables) (sym d') (
            subst (λ (a : Target). Grows a t'.tables) d
              (subst (λ (p : Result Report × Session). Grows t.tables p.1.tables) ran
                (import_all-Adds source t))))
    | inr (e, s', h) ↦
        subst (λ (p : Result Report × Session). Grows s.tables p.1.tables) (sym h)
          (subst (Grows s.tables) (sym (in_transaction_err false (import_all core now source) s h))
            (Grows-refl s.tables))
  ]
