-- ===== src/Registry/Decisions/Written.antt =====
-- What the statements of DecideVersion of modules/registry/store.go write.
use appstore_gerege_nexus.Prelude.{
  ℕ, ◌+◌, String, true, false, List, [], ◌∷◌, ◌++◌, Option, none, some, ◌≡◌, refl, sym, ap, ◌∙◌,
  arith, inl, inr, if◌then◌else◌, ◌==◌, Bool-cases, amend, any, subst,
}
use appstore_gerege_nexus.Tables.{Time, Database, Status, AppRow, ReviewEvent}
use appstore_gerege_nexus.Contract.{Contract}
use appstore_gerege_nexus.World.{Error, Result, ok, err, World, raise}
use appstore_gerege_nexus.World.Laws.{
  statement_ok, execute_ok, pure_ok, bind_ok, transaction_ok, transaction_err,
}
use appstore_gerege_nexus.Registry.Platforms.{null_if_empty}
use appstore_gerege_nexus.Registry.Build.{is_published}
use appstore_gerege_nexus.Registry.Cache.{bump_revision}
use appstore_gerege_nexus.Registry.Submissions.{new_event, add_event}
use appstore_gerege_nexus.Registry.Decisions.{
  status_for, decide_row, update_version, update_provenance, publish_provenance, decide_body,
  decide_status, decide_version,
}

-- The versions, the events and the revision are as they were.
record SameDecisions (db db' : Database) : Type 0 where
  versions : db'.versions ≡ db.versions
  events : db'.events ≡ db.events
  revision : db'.revision ≡ db.revision

module _ (k : Contract) where
  -- The apps once a version with this status has been written.
  abbrev pub apps_after : Status → String → String → Time → Database → List AppRow
  apps_after status version_id actor_id now db =
      if is_published status then (update_provenance k version_id actor_id now db).apps else db.apps

  -- The rows that the statements of a decision have written.
  pub record Written (version_id action actor_id actor note : String) (now : Time)
      (db db' : Database) : Type 0 where
    pub status : Status
    pub known : status_for action ≡ some status
    pub present : any (λ v. v.id == version_id) db.versions ≡ true
    pub versions :
        db'.versions ≡ amend (λ v. v.id == version_id) (decide_row status note now) db.versions
    pub events :
        db'.events
        ≡ db.events ++ new_event version_id (null_if_empty actor_id) actor action note now ∷ []
    pub revision : db'.revision ≡ db.revision + 1
    pub apps :
        db'.apps
        ≡ apps_after status version_id actor_id now (record db {
          versions = amend (λ v. v.id == version_id) (decide_row status note now) db.versions;
        })

  provenance-SameDecisions :
      (id actor_id : String) (now : Time) (db : Database)
      → SameDecisions db (update_provenance k id actor_id now db)
  unfolding update_provenance
  provenance-SameDecisions id actor_id now db = ground arith

  publish_provenance-SameDecisions :
      (status : Status) (id actor_id : String) (now : Time) (w : World) {u : Unit {0}} {w' : World}
      → publish_provenance k status id actor_id now w ≡ (ok u, w')
      → SameDecisions w.db w'.db
  unfolding publish_provenance
  publish_provenance-SameDecisions status id actor_id now w {u} {w'} h =
      elim (Bool-cases (is_published status)) [
        | inl t ↦
            subst (SameDecisions w.db)
              (sym (execute_ok (update_provenance k id actor_id now) w (rw t at h)).0)
              (provenance-SameDecisions id actor_id now w.db)
        | inr f ↦
            subst (SameDecisions w.db) (sym (pure_ok tt w (rw f at h)).1)
              (record { versions = refl; events = refl; revision = refl })
      ]

  publish_provenance_apps :
      (status : Status) (id actor_id : String) (now : Time) (w : World) {u : Unit {0}} {w' : World}
      → publish_provenance k status id actor_id now w ≡ (ok u, w')
      → w'.db.apps ≡ apps_after status id actor_id now w.db
  unfolding publish_provenance
  publish_provenance_apps status id actor_id now w h = elim (Bool-cases (is_published status)) [
    | inl t ↦
        ap (λ (d : Database). d.apps)
          (execute_ok (update_provenance k id actor_id now) w (rw t at h)).0
        ∙ rw t refl
    | inr f ↦ ap (λ (d : Database). d.apps) (pure_ok tt w (rw f at h)).1 ∙ rw f refl
  ]

  decide_body_ok :
      (status : Status) (version_id action actor_id actor note : String) (now : Time) (w : World)
      {u : Unit {0}} {w' : World}
      → status_for action ≡ some status
      → decide_body k status version_id action actor_id actor note now w ≡ (ok u, w')
      → Written version_id action actor_id actor note now w.db w'.db
  unfolding decide_body update_version bump_revision add_event
  decide_body_ok status version_id action actor_id actor note now w {u} {w'} known h =
      let (_, v1, updated, h1) = bind_ok _ _ w h in
      let (_, v2, described, h2) = bind_ok _ _ v1 h1 in
      let (_, v3, recorded, bumped) = bind_ok _ _ v2 h2 in
      let event = new_event version_id (null_if_empty actor_id) actor action note now in
      let same = publish_provenance-SameDecisions status version_id actor_id now v1 described in
      let made = (execute_ok (add_event event) v2 recorded).0 in
      let last = (execute_ok (λ db. record db { revision = db.revision + 1 }) v3 bumped).0 in
      elim (Bool-cases (any (λ v. v.id == version_id) w.db.versions)) [
        | inl t ↦
            let written : record w.db {
              versions = amend (λ v. v.id == version_id) (decide_row status note now) w.db.versions;
            }
                ≡ v1.db =
              written_db t (statement_ok (update_version status note version_id now) w updated).0 in
            record {
              status = status;
              known = known;
              present = t;
              versions =
                  ap (λ (d : Database). d.versions) last
                  ∙ ap (λ (d : Database). d.versions) made
                  ∙ same.versions
                  ∙ ap (λ (d : Database). d.versions) (sym written);
              events =
                  ap (λ (d : Database). d.events) last
                  ∙ ap (λ (d : Database). d.events) made
                  ∙ ap (λ (es : List ReviewEvent). es ++ event ∷ [])
                      (same.events ∙ ap (λ (d : Database). d.events) (sym written));
              revision =
                  ap (λ (d : Database). d.revision) last
                  ∙ ap (λ (n : ℕ). n + 1)
                      (ap (λ (d : Database). d.revision) made
                        ∙ same.revision
                        ∙ ap (λ (d : Database). d.revision) (sym written));
              apps =
                  ap (λ (d : Database). d.apps) last
                  ∙ ap (λ (d : Database). d.apps) made
                  ∙ publish_provenance_apps status version_id actor_id now v1 described
                  ∙ ap (apps_after status version_id actor_id now) (sym written);
            }
        | inr f ↦
            let e = (statement_ok (update_version status note version_id now) w updated).0 in
            absurd (not_there f e)
      ]
    where
      written_db :
          {v : Database} {u : Unit {0}}
          → any (λ v. v.id == version_id) w.db.versions ≡ true
          → update_version status note version_id now w.db ≡ ok (u, v)
          → record w.db {
            versions = amend (λ v. v.id == version_id) (decide_row status note now) w.db.versions;
          }
            ≡ v
      written_db t e = let e' = rw t at e in ground arith

      not_there :
          {v : Database} {u : Unit {0}}
          → any (λ v. v.id == version_id) w.db.versions ≡ false
          → ¬ (update_version status note version_id now w.db ≡ ok (u, v))
      not_there f e = let e' = rw f at e in cc

  decide_status_ok :
      (s : Option Status) (version_id action actor_id actor note : String) (now : Time) (w : World)
      {u : Unit {0}} {w' : World}
      → status_for action ≡ s
      → decide_status k s version_id action actor_id actor note now w ≡ (ok u, w')
      → Written version_id action actor_id actor note now w.db w'.db
  unfolding decide_status raise
  decide_status_ok none version_id action actor_id actor note now w e h = cc
  decide_status_ok (some status) version_id action actor_id actor note now w {u} {w'} e h =
      let body = decide_body k status version_id action actor_id actor note now in
      let (v, v', d, _, ran, d', _) = transaction_ok body w h in
      subst (λ (a : Database). Written version_id action actor_id actor note now a w'.db) d
        (subst (Written version_id action actor_id actor note now v.db) (sym d')
          (decide_body_ok status version_id action actor_id actor note now v e ran))

  pub decide_status_err :
      (s : Option Status) (version_id action actor_id actor note : String) (now : Time) (w : World)
      {e : Error} {w' : World}
      → decide_status k s version_id action actor_id actor note now w ≡ (err e, w')
      → w'.db ≡ w.db
  unfolding decide_status raise
  decide_status_err none version_id action actor_id actor note now w h =
      ap (λ (p : Result (Unit {0}) × World). p.1.db) (sym h)
  decide_status_err (some status) version_id action actor_id actor note now w h =
      transaction_err (decide_body k status version_id action actor_id actor note now) w h

  pub decide_version-Written :
      (version_id action actor_id actor note : String) (now : Time) (w : World) {u : Unit {0}}
      {w' : World}
      → decide_version k version_id action actor_id actor note now w ≡ (ok u, w')
      → Written version_id action actor_id actor note now w.db w'.db
  unfolding decide_version
  decide_version-Written version_id action actor_id actor note now w {u} {w'} h =
      decide_status_ok (status_for action) version_id action actor_id actor note now w refl h
