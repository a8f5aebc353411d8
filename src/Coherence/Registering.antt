-- ===== src/Coherence/Registering.antt =====
-- UpsertApp of modules/registry/store.go over the caches.
use appstore_gerege_nexus.Prelude.{String, List, [], ◌∷◌, ◌≡◌, ◌∙◌, arith}
use appstore_gerege_nexus.Tables.{Time, Database, AppText}
use appstore_gerege_nexus.Contract.{Contract}
use appstore_gerege_nexus.World.{ok, World}
use appstore_gerege_nexus.World.Laws.{statement_ok, execute_ok, query_ok, pure_ok, bind_ok}
use appstore_gerege_nexus.Registry.Signing.{Signer}
use appstore_gerege_nexus.Registry.Apps.{
  App, put_text, save_texts, upsert_row, upsert_body, upsert_app,
}
use appstore_gerege_nexus.Registry.Apps.Ownership.{refuse_other_ok}
use appstore_gerege_nexus.Coherence.{IsCoherent}
use appstore_gerege_nexus.Coherence.Publishing.{
  KeepsCaches, KeepsCaches-refl, KeepsCaches-trans, bump-IsCoherent, transaction-IsCoherent,
}

-- A translation is a row of its own table.
abbrev add_text : String → String → AppText → Database → Database
add_text app_id locale text db = record db {
  texts = put_text (record { app_id = app_id; locale = locale; text = text }) db.texts;
}

save_texts-KeepsCaches :
    (app_id : String) (texts : List (String × AppText)) (w : World) {u : Unit {0}} {w' : World}
    → save_texts app_id texts w ≡ (ok u, w')
    → KeepsCaches w.db w'.db
unfolding save_texts
save_texts-KeepsCaches app_id [] w h = KeepsCaches-refl _ _ (pure_ok tt w h).1
save_texts-KeepsCaches app_id ((locale, text) ∷ rest) w {u} {w'} h =
    let (_, v, saved, h') = bind_ok _ _ w h in
    KeepsCaches-trans w.db v.db w'.db
      (KeepsCaches-trans w.db (add_text app_id locale text w.db) v.db (ground arith)
        (KeepsCaches-refl _ _ (execute_ok (add_text app_id locale text) w saved).0))
      (save_texts-KeepsCaches app_id rest v h')

module _ (k : Contract) where
  upsert_row-KeepsCaches :
      (a : App) (now : Time) (db : Database) {u : Unit {0}} {db' : Database}
      → upsert_row k a now db ≡ ok (u, db')
      → KeepsCaches db db'
  unfolding upsert_row
  upsert_row-KeepsCaches a now db h = ground arith

  upsert_body-IsCoherent :
      (signer : Signer) (a : App) (texts : List (String × AppText)) (now : Time) (w : World)
      (u : Unit {0}) (w' : World)
      → IsCoherent k signer w.db
      → upsert_body k a texts now w ≡ (ok u, w')
      → IsCoherent k signer w'.db
  unfolding upsert_body
  upsert_body-IsCoherent signer a texts now w u w' c h =
      let (owner, v1, read, h1) = bind_ok _ _ w h in
      let (_, v2, allowed, h2) = bind_ok _ _ v1 h1 in
      let (_, v3, written, h3) = bind_ok _ _ v2 h2 in
      let (_, v4, saved, bumped) = bind_ok _ _ v3 h3 in
      bump-IsCoherent k signer w.db v4 c
        (KeepsCaches-trans w.db v2.db v4.db
          (KeepsCaches-refl _ _ ((refuse_other_ok _ v1 allowed).1 ∙ (query_ok _ w read).1))
          (KeepsCaches-trans v2.db v3.db v4.db
            (upsert_row-KeepsCaches a now v2.db (statement_ok (upsert_row k a now) v2 written).0)
            (save_texts-KeepsCaches a.id texts v3 saved)))
        bumped

  -- Registering or editing an app keeps the caches coherent, whether it succeeds or fails.
  pub upsert_app-IsCoherent :
      (signer : Signer) (a : App) (texts : List (String × AppText)) (now : Time) (w : World)
      → IsCoherent k signer w.db
      → IsCoherent k signer (upsert_app k a texts now w).1.db
  unfolding upsert_app
  upsert_app-IsCoherent signer a texts now w c =
      transaction-IsCoherent k signer (upsert_body k a texts now) w c
        (upsert_body-IsCoherent signer a texts now)
