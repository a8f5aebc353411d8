-- ===== src/Registry/Submissions/Effects.antt =====
-- What SubmitManifest of modules/registry/store.go does to the tables.
use appstore_gerege_nexus.Prelude.{
  String, true, false, List, [], ◌∷◌, ◌++◌, Option, none, some, ◌≡◌, ◌≢◌, refl, sym, ap, ◌∙◌, arith,
  inl, inr, ◌==◌, eq_iff, Bool-cases, first, any, subst,
}
use appstore_gerege_nexus.Tables.{
  Time, Json, Database, in_review, VersionRow, ExternalRegistration, ReviewEvent,
}
use appstore_gerege_nexus.Contract.{Contract, Manifest}
use appstore_gerege_nexus.World.{Result, ok, World, pure, raise, transaction}
use appstore_gerege_nexus.World.Laws.{
  statement_ok, execute_ok, pure_ok, bind_ok, transaction_ok, transaction_err, outcome,
}
use appstore_gerege_nexus.World.Reads.{
  IsReadOnly, query-IsReadOnly, bind-IsReadOnly, lift-IsReadOnly, bind_db,
}
use appstore_gerege_nexus.Registry.Apps.{App}
use appstore_gerege_nexus.Registry.Publishers.{or_not_found}
use appstore_gerege_nexus.Registry.Versions.{Version, version_by_id, scan_version}
use appstore_gerege_nexus.Registry.Submissions.{
  Submission, is_release, insert_version, save_external, put_external, new_event, add_event,
  submitted_row, submit_body, submit_encoded, submit_version, submission_of, channel_or_stable,
  submit_checked, submit_manifest, refusal, external_from_manifest,
}

-- Everything that a build reads, and the caches, but for the versions.
pub record SameBut (db db' : Database) : Type 0 where
  pub versions : db'.versions ≡ db.versions
  pub apps : db'.apps ≡ db.apps
  pub texts : db'.texts ≡ db.texts
  pub platforms : db'.platforms ≡ db.platforms
  pub grants : db'.grants ≡ db.grants
  pub snapshots : db'.snapshots ≡ db.snapshots
  pub private_snapshots : db'.private_snapshots ≡ db.private_snapshots
  pub revision : db'.revision ≡ db.revision

pub SameBut-refl : (db db' : Database) → db' ≡ db → SameBut db db'
SameBut-refl db db' e = record {
  versions = ap (λ (d : Database). d.versions) e;
  apps = ap (λ (d : Database). d.apps) e;
  texts = ap (λ (d : Database). d.texts) e;
  platforms = ap (λ (d : Database). d.platforms) e;
  grants = ap (λ (d : Database). d.grants) e;
  snapshots = ap (λ (d : Database). d.snapshots) e;
  private_snapshots = ap (λ (d : Database). d.private_snapshots) e;
  revision = ap (λ (d : Database). d.revision) e;
}

save_external-SameBut :
    (external : Option ExternalRegistration) (w : World) {u : Unit {0}} {w' : World}
    → save_external external w ≡ (ok u, w')
    → SameBut w.db w'.db
unfolding save_external
save_external-SameBut none w h = SameBut-refl _ _ (pure_ok tt w h).1
save_external-SameBut (some e) w {u} {w'} h =
    let d = (execute_ok (λ db. record db { externals = put_external e db.externals }) w h).0 in
    subst (SameBut w.db) (sym d) (ground arith)

event-SameBut : (a b : Database) (e : ReviewEvent) → SameBut a b → SameBut a (add_event e b)
unfolding add_event
event-SameBut a b e same = record {
  versions = same.versions;
  apps = same.apps;
  texts = same.texts;
  platforms = same.platforms;
  grants = same.grants;
  snapshots = same.snapshots;
  private_snapshots = same.private_snapshots;
  revision = same.revision;
}

pub or_not_found-IsReadOnly : {A : Type 0} (row : Option A) → IsReadOnly (or_not_found row)
unfolding or_not_found pure raise
or_not_found-IsReadOnly none w = refl
or_not_found-IsReadOnly (some a) w = refl

module _ (k : Contract) where
  insert_version_ok :
      (row : VersionRow) (db : Database) {u : Unit {0}} {db' : Database}
      → insert_version row db ≡ ok (u, db')
      → (any (is_release row.app_id row.version) db.versions ≡ false)
        × (any (λ v. v.id == row.id) db.versions ≡ false)
        × (record db { versions = db.versions ++ row ∷ [] } ≡ db')
  unfolding insert_version
  insert_version_ok row db h =
      elim (Bool-cases (any (is_release row.app_id row.version) db.versions)) [
        | inl t ↦ let h' = rw t at h in absurd (cc h')
        | inr f ↦ elim (Bool-cases (any (λ v. v.id == row.id) db.versions)) [
          | inl t ↦ let h' = rw (f, t) at h in absurd (cc h')
          | inr g ↦ let h' = rw (f, g) at h in (f, g, ground arith)
        ]
      ]

  save_external-events :
      (external : Option ExternalRegistration) (w : World) {u : Unit {0}} {w' : World}
      → save_external external w ≡ (ok u, w')
      → w'.db.events ≡ w.db.events
  unfolding save_external
  save_external-events none w h = ap (λ (d : Database). d.events) (pure_ok tt w h).1
  save_external-events (some e) w h =
      ap (λ (d : Database). d.events)
        (execute_ok (λ db. record db { externals = put_external e db.externals }) w h).0

  -- The rows that a submission leaves, and its event.
  pub submit_body_ok :
      (s : Submission) (manifest : Json) (external : Option ExternalRegistration) (id : String)
      (now : Time) (w : World) {u : Unit {0}} {w' : World}
      → submit_body k s manifest external id now w ≡ (ok u, w')
      → (any (is_release s.app_id s.version) w.db.versions ≡ false)
        × SameBut
            (record w.db { versions = w.db.versions ++ submitted_row k s manifest id now ∷ [] })
            w'.db
        × (any (λ v. v.id == id) w.db.versions ≡ false)
        × (w'.db.events ≡ w.db.events ++ new_event id none s.submitted_by "submitted" "" now ∷ [])
  unfolding submit_body submitted_row add_event
  submit_body_ok s manifest external id now w {u} {w'} h =
      let (_, v, inserted, h1) = bind_ok _ _ w h in
      let (_, x, saved, recorded) = bind_ok _ _ v h1 in
      let row = submitted_row k s manifest id now in
      let event = new_event id none s.submitted_by "submitted" "" now in
      let d = (execute_ok (add_event event) x recorded).0 in
      let (f, g, made) =
        insert_version_ok row w.db (statement_ok (insert_version row) w inserted).0 in
      (
        f,
        subst (λ (b : Database). SameBut b w'.db) (sym made)
            (subst (SameBut v.db) (sym d)
              (event-SameBut v.db x.db event (save_external-SameBut external v saved))),
        g,
        ap (λ (b : Database). b.events) d
            ∙ ap (λ (es : List ReviewEvent). es ++ event ∷ [])
                (save_external-events external v saved
                  ∙ ap (λ (b : Database). b.events) (sym made)),
      )

  pub version_by_id-IsReadOnly : (id : String) → IsReadOnly (version_by_id k id)
  unfolding version_by_id
  version_by_id-IsReadOnly id =
      bind-IsReadOnly _ _ (query-IsReadOnly (λ db. first (λ v. v.id == id) db.versions)) (λ row.
        bind-IsReadOnly _ _ (or_not_found-IsReadOnly row) (λ v. lift-IsReadOnly (scan_version k v)))

  -- What an accepted submission is.
  pub record Accepted (app : App) (m : Manifest) (db db' : Database) : Type 0 where
    pub row : VersionRow
    pub appended : db'.versions ≡ db.versions ++ row ∷ []
    pub waiting : row.status ≡ in_review
    pub owner : row.app_id ≡ app.id
    pub number : row.version ≡ m.version
    pub fresh_number : any (is_release app.id m.version) db.versions ≡ false
    pub identity : m.id ≡ app.id

  refusal-none :
      (app : App) (channel : String) (m : Manifest)
      → refusal k app channel m ≡ none
      → (m.id == app.id) ≡ true
  unfolding refusal
  refusal-none app channel m h = ground arith

  submit_encoded_ok :
      (app : App) (m : Manifest) (s : Submission) (encoded : Option Json)
      (external : Option ExternalRegistration) (id : String) (now : Time) (w : World) {v : Version}
      {w' : World}
      → s.app_id ≡ app.id
      → s.version ≡ m.version
      → s.status ≡ in_review
      → m.id ≡ app.id
      → submit_encoded k s encoded external id now w ≡ (ok v, w')
      → Accepted app m w.db w'.db
  unfolding submit_encoded submitted_row raise
  submit_encoded_ok app m s none external id now w ea ev es em h = cc
  submit_encoded_ok app m s (some manifest) external id now w {v} {w'} ea ev es em h =
      let body = submit_body k s manifest external id now in
      let (u, x, ran, read) = bind_ok (transaction body) (λ _. version_by_id k id) w h in
      let (y, z, d, _, done, d', _) = transaction_ok body w ran in
      let (unused, same, _, _) = submit_body_ok s manifest external id now y done in
      let last : w'.db ≡ x.db =
        ap (λ (p : Result Version × World). p.1.db) (sym read) ∙ version_by_id-IsReadOnly id x in
      record {
        row = submitted_row k s manifest id now;
        appended =
            ap (λ (b : Database). b.versions) (last ∙ d')
            ∙ same.versions
            ∙ ap (λ (b : Database). b.versions ++ submitted_row k s manifest id now ∷ []) d;
        waiting = es;
        owner = ea;
        number = ev;
        fresh_number = rw (← ea) (rw (← ev) (rw (← d) unused));
        identity = em;
      }

  submit_checked_ok :
      (app : App) (channel : String) (m : Manifest) (submitted_by id : String) (now : Time)
      (reason : Option String) (w : World) {v : Version} {w' : World}
      → reason ≡ refusal k app channel m
      → submit_checked k app channel m submitted_by id now reason w ≡ (ok v, w')
      → Accepted app m w.db w'.db
  unfolding submit_checked submit_version raise
  submit_checked_ok app channel m submitted_by id now (some reason) w e h = cc
  submit_checked_ok app channel m submitted_by id now none w e h =
      submit_encoded_ok app m (submission_of k app channel m submitted_by) (k.encode_manifest m)
        (external_from_manifest k app.id m) id now w refl refl refl
        ((eq_iff m.id app.id).0 (refusal-none app channel m (sym e))) h

  -- A submission that is accepted has added one version to the store: it waits for review, it is of
  -- the app that its manifest names, and no version of that app had its number.
  pub submit_manifest-Accepted :
      (app : App) (channel : String) (m : Manifest) (submitted_by id : String) (now : Time)
      (w : World) {v : Version} {w' : World}
      → submit_manifest k app channel m submitted_by id now w ≡ (ok v, w')
      → Accepted app m w.db w'.db
  unfolding submit_manifest
  submit_manifest-Accepted app channel m submitted_by id now w h =
      submit_checked_ok app (channel_or_stable k channel) m submitted_by id now
        (refusal k app (channel_or_stable k channel) m) w refl h

  submit_encoded_used :
      (s : Submission) (encoded : Option Json) (external : Option ExternalRegistration)
      (id : String) (now : Time) (w : World)
      → any (is_release s.app_id s.version) w.db.versions ≡ true
      → (submit_encoded k s encoded external id now w).1.db ≡ w.db
  unfolding submit_encoded raise
  submit_encoded_used s none external id now w used = refl
  submit_encoded_used s (some manifest) external id now w used =
      let body = submit_body k s manifest external id now in
      bind_db (transaction body) (λ _. version_by_id k id) w (λ _. version_by_id-IsReadOnly id)
      ∙ elim (outcome (transaction body) w) [
        | inl (u, ran) ↦
            let (y, z, d, _, done, d', _) = transaction_ok body w ran in
            let (unused, _, _, _) = submit_body_ok s manifest external id now y done in
            absurd (
              cc (
                used,
                ap (λ (b : Database). any (is_release s.app_id s.version) b.versions) d,
                unused,
              ))
        | inr (e, ran) ↦ transaction_err body w ran
      ]

  submit_checked_used :
      (app : App) (channel : String) (m : Manifest) (submitted_by id : String) (now : Time)
      (reason : Option String) (w : World)
      → any (is_release app.id m.version) w.db.versions ≡ true
      → (submit_checked k app channel m submitted_by id now reason w).1.db ≡ w.db
  unfolding submit_checked submit_version raise
  submit_checked_used app channel m submitted_by id now (some reason) w used = refl
  submit_checked_used app channel m submitted_by id now none w used =
      submit_encoded_used (submission_of k app channel m submitted_by) (k.encode_manifest m)
        (external_from_manifest k app.id m) id now w used

  -- A version number that the app has used once, whatever became of it, cannot be submitted again:
  -- the submission is not accepted and the tables stay as they are.
  pub submit_manifest-immutable :
      (app : App) (channel : String) (m : Manifest) (submitted_by id : String) (now : Time)
      (w : World)
      → any (is_release app.id m.version) w.db.versions ≡ true
      → ((v : Version) → (submit_manifest k app channel m submitted_by id now w).0 ≢ ok v)
        × ((submit_manifest k app channel m submitted_by id now w).1.db ≡ w.db)
  submit_manifest-immutable app channel m submitted_by id now w used = (
    λ v e.
        let accepted =
          submit_manifest-Accepted app channel m submitted_by id now w
            (λ i. (e i, (submit_manifest k app channel m submitted_by id now w).1)) in
        cc (used, accepted.fresh_number),
    unfold submit_manifest in
        submit_checked_used app (channel_or_stable k channel) m submitted_by id now
          (refusal k app (channel_or_stable k channel) m) w used,
  )
