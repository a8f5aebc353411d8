-- ===== src/Registry/Decisions/Effects.antt =====
-- What DecideVersion of modules/registry/store.go does to the tables.
use appstore_gerege_nexus.Prelude.{
  String, false, List, ◌≡◌, ◌≢◌, sym, ap, ◌∙◌, arith, inl, inr, ◌==◌, eq_iff, Bool-cases, In, amend,
  subst,
}
use appstore_gerege_nexus.Prelude.Membership.{In-amend}
use appstore_gerege_nexus.Tables.{Time, Status, published, VersionRow}
use appstore_gerege_nexus.Contract.{Contract}
use appstore_gerege_nexus.World.{Error, ok, err, World}
use appstore_gerege_nexus.Registry.Platforms.{null_if_empty}
use appstore_gerege_nexus.Registry.Build.{Row, catalog_rows}
use appstore_gerege_nexus.Registry.Build.Rows.{In-catalog_rows}
use appstore_gerege_nexus.Registry.Submissions.{new_event}
use appstore_gerege_nexus.Registry.Decisions.{status_for, decide_row, decide_version}
use appstore_gerege_nexus.Registry.Decisions.Written.{decide_version-Written, decide_status_err}
use appstore_gerege_nexus.Registry.Decisions.Recorded.{
  Decided, Described, stamp_of, status_for-Verdict, new_event-Entry, Written-Described,
}

no_match : (a b : String) → a ≢ b → (a == b) ≡ false
no_match a b ne = elim (Bool-cases (a == b)) [ inl t ↦ absurd (ne ((eq_iff a b).0 t)) | inr f ↦ f ]

module _ (k : Contract) where
  -- A decision that succeeds was one of three, on a version that exists: to publish it, which made
  -- it published and set the time of its publication, to reject it or to yank it, which made it
  -- rejected or yanked and left that time. The version has the new status and the note, and is
  -- otherwise as it was; no other version has changed; one event is appended, with the version, the
  -- account (none for the empty identifier), the actor, the action, the note and the time; and the
  -- revision is bumped once. Where it was published, its app has the authors, maintainers,
  -- repository, homepage and licence of its manifest, with the actor and the time; no other app, and
  -- by the other two decisions none, has changed.
  pub decide_version-Decided :
      (version_id action actor_id actor note : String) (now : Time) (w : World) {u : Unit {0}}
      {w' : World}
      → decide_version k version_id action actor_id actor note now w ≡ (ok u, w')
      → Decided version_id action actor_id actor note now w.db w'.db
        × Described k version_id action actor_id now w.db w'.db
  decide_version-Decided version_id action actor_id actor note now w h =
      let d = decide_version-Written k version_id action actor_id actor note now w h in
      (
        record {
          status = d.status;
          stamp = stamp_of d.status now;
          verdict = status_for-Verdict action now d.status d.known;
          present = d.present;
          versions = d.versions;
          event = new_event version_id (null_if_empty actor_id) actor action note now;
          entry = new_event-Entry version_id action actor_id actor note now;
          events = d.events;
          revision = d.revision;
        },
        Written-Described k version_id action actor_id actor note now w.db _ d,
      )

  -- A decision that answers an error, at whichever statement or at the commit, has changed no table.
  pub decide_version-rolled_back :
      (version_id action actor_id actor note : String) (now : Time) (w : World) {e : Error}
      {w' : World}
      → decide_version k version_id action actor_id actor note now w ≡ (err e, w')
      → w'.db ≡ w.db
  unfolding decide_version
  decide_version-rolled_back version_id action actor_id actor note now w h =
      decide_status_err k (status_for action) version_id action actor_id actor note now w h

  status-decide_row :
      (status : Status) (note : String) (now : Time) (id : String) (v : VersionRow)
      (rows : List VersionRow)
      → In v (amend (λ u. u.id == id) (decide_row status note now) rows)
      → v.id ≡ id
      → v.status ≡ status
  status-decide_row status note now id v rows i e =
      let (u, _, made) = In-amend (λ u. u.id == id) (decide_row status note now) v rows i in
      elim (Bool-cases (u.id == id)) [
        | inl t ↦
            let made' : v ≡ decide_row status note now u = rw t at made in
            ap (λ (x : VersionRow). x.status) made'
        | inr f ↦
            let made' : v ≡ u = rw f at made in
            cc (f, (eq_iff u.id id).1 (ap (λ (x : VersionRow). x.id) (sym made') ∙ e))
      ]

  -- A version that was decided on otherwise than to publish it, by a rejection or a yank, is in no
  -- row that a catalogue is built from, in whichever channel and for whichever grants.
  pub decide_version-withdraws :
      (version_id action actor_id actor note : String) (now : Time) (w : World) {u : Unit {0}}
      {w' : World}
      → decide_version k version_id action actor_id actor note now w ≡ (ok u, w')
      → action ≢ "publish"
      → (channel : String) (app_ids : List String) (r : Row)
      → In r (catalog_rows k channel app_ids w'.db)
      → r.version.id ≢ version_id
  unfolding status_for
  decide_version-withdraws version_id action actor_id actor note now w {u} {w'} h other channel
        app_ids r i e =
      let d = decide_version-Written k version_id action actor_id actor note now w h in
      let row = In-catalog_rows k channel app_ids w'.db r i in
      let status : r.version.status ≡ d.status =
        status-decide_row d.status note now version_id r.version w.db.versions
          (subst (In r.version) d.versions row.version) e in
      let known = d.known in
      let out : d.status ≡ published = sym status ∙ row.status in
      let unlike : (action == "publish") ≡ false = no_match action "publish" other in
      ground (arith, rw out at known)
