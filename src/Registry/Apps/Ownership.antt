-- ===== src/Registry/Apps/Ownership.antt =====
-- Whose apps UpsertApp of modules/registry/store.go writes.
use appstore_gerege_nexus.Prelude.{
  ◌+◌, String, Bool, true, false, List, [], ◌∷◌, Option, none, some, ◌≡◌, ◌≢◌, refl, sym, ap, ◌∙◌,
  arith, inl, inr, ◌==◌, eq_iff, In, amend, first, if◌then◌else◌, subst,
}
use appstore_gerege_nexus.Prelude.Membership.{amend-In, In-append_left}
use appstore_gerege_nexus.Tables.{Time, Database, AppRow, AppText}
use appstore_gerege_nexus.Contract.{Contract}
use appstore_gerege_nexus.World.{ok, World, raise}
use appstore_gerege_nexus.World.Laws.{
  statement_ok, execute_ok, query_ok, pure_ok, bind_ok, transaction_ok, transaction_err, outcome,
}
use appstore_gerege_nexus.Registry.Cache.{bump_revision}
use appstore_gerege_nexus.Registry.Apps.{
  App, edit_app, new_app, put_text, save_texts, owned_by_other, refuse_other, upserted_rows,
  upsert_row, upsert_body, upsert_app,
}

abbrev held_row : String → Database → Option AppRow
held_row id db = first (λ r. r.id == id) db.apps

pub refuse_other_ok :
    (b : Bool) (w : World) {u : Unit {0}} {w' : World}
    → refuse_other b w ≡ (ok u, w')
    → (b ≡ false) × (w'.db ≡ w.db)
unfolding raise
refuse_other_ok true w h = cc
refuse_other_ok false w h = (refl, (pure_ok tt w h).1)

save_texts-apps :
    (app_id : String) (texts : List (String × AppText)) (w : World) {u : Unit {0}} {w' : World}
    → save_texts app_id texts w ≡ (ok u, w')
    → w'.db.apps ≡ w.db.apps
unfolding save_texts
save_texts-apps app_id [] w h = ap (λ (d : Database). d.apps) (pure_ok tt w h).1
save_texts-apps app_id ((locale, text) ∷ rest) w h =
    let (_, v, saved, h') = bind_ok _ _ w h in
    save_texts-apps app_id rest v h'
    ∙ ap (λ (d : Database). d.apps)
        (execute_ok
          (λ db. record db {
            texts = put_text (record { app_id = app_id; locale = locale; text = text }) db.texts;
          })
          w saved).0

-- What is left of an app of the store when a registration has succeeded.
pub record Kept (a : App) (old : AppRow) (db' : Database) : Type 0 where
  pub now_row : AppRow
  pub listed : In now_row db'.apps
  pub id : now_row.id ≡ old.id
  pub publisher : now_row.publisher_id ≡ old.publisher_id
  pub untouched : old.id ≢ a.id → now_row ≡ old

module _ (k : Contract) where
  upsert_row_ok :
      (a : App) (now : Time) (db : Database) {u : Unit {0}} {db' : Database}
      → upsert_row k a now db ≡ ok (u, db')
      → db'.apps ≡ upserted_rows k a now db.apps (held_row a.id db)
  unfolding upsert_row
  upsert_row_ok a now db h = ground arith

  upsert_body_ok :
      (a : App) (texts : List (String × AppText)) (now : Time) (w : World) {u : Unit {0}}
      {w' : World}
      → upsert_body k a texts now w ≡ (ok u, w')
      → (owned_by_other a.publisher_id (held_row a.id w.db) ≡ false)
        × (w'.db.apps ≡ upserted_rows k a now w.db.apps (held_row a.id w.db))
  unfolding upsert_body bump_revision
  upsert_body_ok a texts now w {u} {w'} h =
      let (owner, v1, read, h1) = bind_ok _ _ w h in
      let (_, v2, allowed, h2) = bind_ok _ _ v1 h1 in
      let (_, v3, written, h3) = bind_ok _ _ v2 h2 in
      let (_, v4, saved, bumped) = bind_ok _ _ v3 h3 in
      let (eo, d1) = query_ok (held_row a.id) w read in
      let (mine, d2) = refuse_other_ok (owned_by_other a.publisher_id owner) v1 allowed in
      let same = d2 ∙ d1 in
      let rows = upsert_row_ok a now v2.db (statement_ok (upsert_row k a now) v2 written).0 in
      (
        rw (← eo) mine,
        ap (λ (d : Database). d.apps)
              (execute_ok (λ db. record db { revision = db.revision + 1 }) v4 bumped).0
            ∙ save_texts-apps a.id texts v3 saved
            ∙ rows
            ∙ ap (λ (d : Database). upserted_rows k a now d.apps (held_row a.id d)) same,
      )

  upsert_app_ok :
      (a : App) (texts : List (String × AppText)) (now : Time) (w : World) {u : Unit {0}}
      {w' : World}
      → upsert_app k a texts now w ≡ (ok u, w')
      → (owned_by_other a.publisher_id (held_row a.id w.db) ≡ false)
        × (w'.db.apps ≡ upserted_rows k a now w.db.apps (held_row a.id w.db))
  unfolding upsert_app
  upsert_app_ok a texts now w {u} {w'} h =
      let (v, v', d, _, ran, d', _) = transaction_ok (upsert_body k a texts now) w h in
      let (mine, rows) = upsert_body_ok a texts now v ran in
      (
        rw (← d) mine,
        ap (λ (b : Database). b.apps) d'
            ∙ rows
            ∙ ap (λ (b : Database). upserted_rows k a now b.apps (held_row a.id b)) d,
      )

  upserted-Kept :
      (a : App) (now : Time) (db db' : Database) (old : AppRow) (held : Option AppRow)
      → db'.apps ≡ upserted_rows k a now db.apps held
      → In old db.apps
      → Kept a old db'
  upserted-Kept a now db db' old none e i = record {
    now_row = old;
    listed = subst (In old) (sym e) (In-append_left old db.apps (new_app a now ∷ []) i);
    id = refl;
    publisher = refl;
    untouched = λ ne. refl;
  }
  upserted-Kept a now db db' old (some row) e i = by_test (old.id == a.id) refl
    where
      by_test : (b : Bool) → (old.id == a.id) ≡ b → Kept a old db'
      by_test b t = record {
        now_row = if b then edit_app a now old else old;
        listed =
            subst (λ (rows : List AppRow). In (if b then edit_app a now old else old) rows) (sym e)
              (subst
                (λ (c : Bool).
                  In (if c then edit_app a now old else old)
                    (amend (λ r. r.id == a.id) (edit_app a now) db.apps))
                t (amend-In (λ r. r.id == a.id) (edit_app a now) old db.apps i));
        id = ground arith;
        publisher = ground arith;
        untouched = λ ne. ground (arith, eq_iff old.id a.id);
      }

  -- A registration that succeeds leaves every app of the store with its publisher, and leaves those
  -- of another id as they were; the app that it edits, if there was one, is its publisher's own.
  pub upsert_app-Kept :
      (a : App) (texts : List (String × AppText)) (now : Time) (w : World) {u : Unit {0}}
      {w' : World}
      → upsert_app k a texts now w ≡ (ok u, w')
      → ((old : AppRow) → In old w.db.apps → Kept a old w'.db)
        × ((old : AppRow)
            → first (λ r. r.id == a.id) w.db.apps ≡ some old
            → old.publisher_id ≡ a.publisher_id)
  upsert_app-Kept a texts now w {u} {w'} h =
      let (mine, rows) = upsert_app_ok a texts now w h in
      (
        λ old i. upserted-Kept a now w.db w'.db old (held_row a.id w.db) rows i,
        λ old e. let mine' = rw e at mine in (eq_iff _ _).0 (ground arith),
      )

  -- An app that another publisher holds is not registered again: the answer is an error, and the
  -- tables stay as they are.
  pub upsert_app-refused :
      (a : App) (texts : List (String × AppText)) (now : Time) (w : World) (old : AppRow)
      → first (λ r. r.id == a.id) w.db.apps ≡ some old
      → old.publisher_id ≢ a.publisher_id
      → ((upsert_app k a texts now w).0 ≢ ok tt) × ((upsert_app k a texts now w).1.db ≡ w.db)
  unfolding upsert_app
  upsert_app-refused a texts now w old e other = elim (outcome (upsert_app k a texts now) w) [
    | inl (u, h) ↦ absurd (other ((upsert_app-Kept a texts now w h).1 old e))
    | inr (x, h) ↦ (λ done. cc (h, done), transaction_err (upsert_body k a texts now) w h)
  ]
