-- ===== src/Import/Copied.antt =====
-- The straight copies of one run.
use appstore_gerege_nexus.Prelude.{
  ℕ, Bool, true, List, length, Option, none, some, ◌≡◌, refl, sym, ap, ◌∙◌, arith, any, subst,
  eq_refl,
}
use appstore_gerege_nexus.Tables.{Time}
use appstore_gerege_nexus.World.{Error, Result, ok}
use appstore_gerege_nexus.Import.Session.{Target, Session, Run, TextCopy, pure, raise}
use appstore_gerege_nexus.Import.Session.Laws.{pure_ok, bind_ok}
use appstore_gerege_nexus.Import.Accounts.{Core}
use appstore_gerege_nexus.Import.Transfer.{
  Cursor, Source, Report, with_copies, read_all, copy_rows, put_new, write_app, write_version,
  write_text, write_external, write_event, same_app, same_version, same_text, same_external,
  same_event, copy_tables,
}
use appstore_gerege_nexus.Import.Growth.{Grows, Grows-refl, Grows-trans, Prefix-put_new}
use appstore_gerege_nexus.Import.Growth.Tables.{
  Grows-apps, Grows-versions, Grows-texts, Grows-externals, Grows-events,
}
use appstore_gerege_nexus.Import.Steps.{copy_rows-Steps}
use appstore_gerege_nexus.Import.Copies.{Present, copy_rows_ok}
use appstore_gerege_nexus.Prelude.Appending.{any_stays}

pub read_all_ok :
    {A : Type 0} (c : Cursor A) (s : Session) {xs : List A} {s' : Session}
    → read_all c s ≡ (ok xs, s')
    → (c.rows ≡ xs) × (s' ≡ s)
unfolding read_all raise
read_all_ok {A} c s {xs} {s'} h = by_failure c.failed h
  where
    by_failure :
        (failed : Option Error)
        → (elim failed as (λ _. Run (List A)) [ none ↦ pure c.rows | some e ↦ raise e ]) s
          ≡ (ok xs, s')
        → (c.rows ≡ xs) × (s' ≡ s)
    by_failure none g = pure_ok c.rows s g
    by_failure (some e) g = cc

-- Every row of the five copied tables is there, under its key.
pub record Copied (source : Source) (t : Target) : Type 0 where
  pub apps : Present same_app source.apps.rows t.apps
  pub versions : Present same_version source.versions.rows t.versions
  pub texts : Present same_text source.texts.rows t.texts
  pub externals : Present same_external source.externals.rows t.externals
  pub events : Present same_event source.events.rows t.events

pub Copied-stays :
    (source : Source) (t t' : Target) → Grows t t' → Copied source t → Copied source t'
Copied-stays source t t' g c = record {
  apps = λ x i. any_stays (same_app x) t.apps t'.apps g.apps (c.apps x i);
  versions = λ x i. any_stays (same_version x) t.versions t'.versions g.versions (c.versions x i);
  texts = λ x i. any_stays (same_text x) t.texts t'.texts g.texts (c.texts x i);
  externals =
      λ x i. any_stays (same_external x) t.externals t'.externals g.externals (c.externals x i);
  events = λ x i. any_stays (same_event x) t.events t'.events g.events (c.events x i);
}

-- How many rows of each copied table were read.
abbrev pub CopyCounts : Source → Report → Type 0
CopyCounts source r =
    (r.apps ≡ length source.apps.rows)
    × (r.versions ≡ length source.versions.rows)
    × (r.texts ≡ length source.texts.rows)
    × (r.externals ≡ length source.externals.rows)
    × (r.events ≡ length source.events.rows)

same_text_refl : (x : TextCopy) → same_text x x ≡ true
same_text_refl x = rw (eq_refl x.app_id, eq_refl x.locale) refl

module _ {A : Type 0} (table : Target → List A) (set : Target → List A → Target)
    (same : A → A → Bool) (get_set : (t : Target) (xs : List A) → table (set t xs) ≡ xs)
    (set_get : (t : Target) → set t (table t) ≡ t) (same_refl : (x : A) → same x x ≡ true)
    (grows : (t : Target) (x : A) → Grows t (set t (put_new same x (table t)))) where
  -- One table's copy.
  copied :
      (c : Cursor A) (s : Session) {m : ℕ} {s' : Session}
      → copy_rows (λ x t. ok (tt, set t (put_new same x (table t)))) c s ≡ (ok m, s')
      → Present same c.rows (table s'.tables)
        × (m ≡ length c.rows)
        × (Present same c.rows (table s.tables) → s'.tables ≡ s.tables)
        × Grows s.tables s'.tables
  copied c s {m} {s'} h =
      let (present, count, quiet) = copy_rows_ok table set same get_set set_get same_refl c s h in
      (
        present,
        count,
        quiet,
        subst (λ (q : Result ℕ × Session). Grows s.tables q.1.tables) h
            (copy_rows-Steps Grows Grows-refl Grows-trans _ c
              (λ x i t u t' e. subst (Grows t) (ground arith) (grows t x)) s),
      )

module _ (core : Core) (now : Time) where
  pub tables_ok :
      (source : Source) (r : Report) (s : Session) {r' : Report} {s' : Session}
      → copy_tables core now source r s ≡ (ok r', s')
      → Copied source s'.tables
        × CopyCounts source r'
        × (Copied source s.tables → s'.tables ≡ s.tables)
        × ((r'.tenants ≡ r.tenants)
            × (r'.users ≡ r.users)
            × (r'.memberships ≡ r.memberships)
            × (r'.publishers ≡ r.publishers))
  unfolding copy_tables
  tables_ok source r s {r'} {s'} h =
      let (a, s1, c1, h1) = bind_ok (copy_rows write_app source.apps) _ s h in
      let (b, s2, c2, h2) = bind_ok (copy_rows write_version source.versions) _ s1 h1 in
      let (c, s3, c3, h3) = bind_ok (copy_rows write_text source.texts) _ s2 h2 in
      let (d, s4, c4, h4) = bind_ok (copy_rows write_external source.externals) _ s3 h3 in
      let (e, s5, c5, last) = bind_ok (copy_rows write_event source.events) _ s4 h4 in
      let (er, es) = pure_ok (with_copies a b c d e r) s5 last in
      let (p1, n1, q1, g1) =
        copied (λ t. t.apps) (λ t xs. record t { apps = xs }) same_app (λ t xs. refl) (λ t. refl)
          (λ x. eq_refl x.id) (λ t x. Grows-apps t _ (Prefix-put_new same_app x t.apps)) source.apps
          s c1 in
      let (p2, n2, q2, g2) =
        copied (λ t. t.versions) (λ t xs. record t { versions = xs }) same_version (λ t xs. refl)
          (λ t. refl) (λ x. eq_refl x.id)
          (λ t x. Grows-versions t _ (Prefix-put_new same_version x t.versions)) source.versions s1
          c2 in
      let (p3, n3, q3, g3) =
        copied (λ t. t.texts) (λ t xs. record t { texts = xs }) same_text (λ t xs. refl) (λ t. refl)
          same_text_refl (λ t x. Grows-texts t _ (Prefix-put_new same_text x t.texts)) source.texts
          s2 c3 in
      let (p4, n4, q4, g4) =
        copied (λ t. t.externals) (λ t xs. record t { externals = xs }) same_external (λ t xs. refl)
          (λ t. refl) (λ x. eq_refl x.app_id)
          (λ t x. Grows-externals t _ (Prefix-put_new same_external x t.externals)) source.externals
          s3 c4 in
      let (p5, n5, q5, g5) =
        copied (λ t. t.events) (λ t xs. record t { events = xs }) same_event (λ t xs. refl)
          (λ t. refl) (λ x. eq_refl x.id)
          (λ t x. Grows-events t _ (Prefix-put_new same_event x t.events)) source.events s4 c5 in
      let g45 = Grows-trans _ _ _ g4 g5 in
      let g35 = Grows-trans _ _ _ g3 g45 in
      let g25 = Grows-trans _ _ _ g2 g35 in
      let all : Copied source s5.tables = record {
        apps = λ x i. any_stays (same_app x) _ _ g25.apps (p1 x i);
        versions = λ x i. any_stays (same_version x) _ _ g35.versions (p2 x i);
        texts = λ x i. any_stays (same_text x) _ _ g45.texts (p3 x i);
        externals = λ x i. any_stays (same_external x) _ _ g5.externals (p4 x i);
        events = p5;
      } in
      let count = λ (f : Report → ℕ). ap f (sym er) in
      (
        subst (λ (z : Session). Copied source z.tables) (sym es) all,
        (
          count (λ q. q.apps) ∙ n1,
          count (λ q. q.versions) ∙ n2,
          count (λ q. q.texts) ∙ n3,
          count (λ q. q.externals) ∙ n4,
          count (λ q. q.events) ∙ n5,
        ),
        λ old.
            let d1 = q1 old.apps in
            let d2 =
              q2 (λ x i. ap (λ (t : Target). any (same_version x) t.versions) d1 ∙ old.versions x i)
              ∙ d1 in
            let d3 =
              q3 (λ x i. ap (λ (t : Target). any (same_text x) t.texts) d2 ∙ old.texts x i) ∙ d2 in
            let d4 =
              q4 (λ x i.
                ap (λ (t : Target). any (same_external x) t.externals) d3 ∙ old.externals x i)
              ∙ d3 in
            let d5 =
              q5 (λ x i. ap (λ (t : Target). any (same_event x) t.events) d4 ∙ old.events x i)
              ∙ d4 in
            ap (λ (z : Session). z.tables) es ∙ d5,
        (
          count (λ q. q.tenants),
          count (λ q. q.users),
          count (λ q. q.memberships),
          count (λ q. q.publishers),
        ),
      )
