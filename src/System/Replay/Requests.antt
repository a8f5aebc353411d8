-- ===== src/System/Replay/Requests.antt =====
-- The requests over the audit trail.
use appstore_gerege_nexus.Prelude.{String, Option, none, some, ◌≡◌, refl, sym, inl, inr, subst}
use appstore_gerege_nexus.Tables.{Time, in_review, Database, ExternalRegistration, Json}
use appstore_gerege_nexus.Contract.{Contract, Manifest}
use appstore_gerege_nexus.World.{World, raise, transaction}
use appstore_gerege_nexus.World.Keeps.{Keeps}
use appstore_gerege_nexus.World.Laws.{outcome, transaction_ok, transaction_err}
use appstore_gerege_nexus.World.Reads.{bind_db}
use appstore_gerege_nexus.Registry.Signing.{Signer}
use appstore_gerege_nexus.Registry.Apps.{App}
use appstore_gerege_nexus.Registry.Submissions.{
  Submission, new_event, submitted_row, submit_body, submit_encoded, submit_version, submit_checked,
  submit_manifest, submission_of, channel_or_stable, refusal, external_from_manifest,
}
use appstore_gerege_nexus.Registry.Submissions.Effects.{submit_body_ok, version_by_id-IsReadOnly}
use appstore_gerege_nexus.Registry.Versions.{version_by_id}
use appstore_gerege_nexus.Registry.Decisions.{status_for, decide_version}
use appstore_gerege_nexus.Registry.Decisions.Written.{decide_version-Written}
use appstore_gerege_nexus.Registry.Decisions.Effects.{decide_version-rolled_back}
use appstore_gerege_nexus.Registry.Platforms.{null_if_empty}
use appstore_gerege_nexus.System.{IsAny, Reaches}
use appstore_gerege_nexus.System.Handlers.{Reaches-Keeps}
use appstore_gerege_nexus.System.Framed.{framed}
use appstore_gerege_nexus.System.Replay.{
  IsReplayed, Submitted, Submits, frame, submitted, decided_on,
}

module _ (k : Contract) where
  decide_version-IsReplayed :
      (id action actor_id actor note : String) (now : Time)
      → Keeps IsReplayed (decide_version k id action actor_id actor note now)
  decide_version-IsReplayed id action actor_id actor note now w r =
      elim (outcome (decide_version k id action actor_id actor note now) w) [
        | inl (u, h) ↦
            let d = decide_version-Written k id action actor_id actor note now w h in
            decided_on w.db _ id d.status note now
              (new_event id (null_if_empty actor_id) actor action note now) refl d.known d.present
              d.versions d.events r
        | inr (e, h) ↦
            subst IsReplayed
              (sym (decide_version-rolled_back k id action actor_id actor note now w h)) r
      ]

  submit_encoded-Submits :
      (s : Submission) (encoded : Option Json) (external : Option ExternalRegistration)
      (id : String) (now : Time)
      → s.status ≡ in_review
      → (w : World) → Submits w.db (submit_encoded k s encoded external id now w).1.db
  unfolding submit_encoded raise submitted_row status_for
  submit_encoded-Submits s none external id now waiting w = inl refl
  submit_encoded-Submits s (some manifest) external id now waiting w =
      let body = submit_body k s manifest external id now in
      subst (Submits w.db)
        (sym (
          bind_db (transaction body) (λ _. version_by_id k id) w
            (λ _. version_by_id-IsReadOnly k id)))
        (elim (outcome (transaction body) w) [
          | inl (u, ran) ↦
              let (y, z, d, _, done, d', _) = transaction_ok body w ran in
              let (_, same, unused, recorded) =
                submit_body_ok k s manifest external id now y done in
              inr (
                subst (Submitted w.db) (sym d') (
                  subst (λ (b : Database). Submitted b z.db) d
                    (record {
                      row = submitted_row k s manifest id now;
                      event = new_event id none s.submitted_by "submitted" "" now;
                      waiting = waiting;
                      its_id = refl;
                      plain = refl;
                      unused = unused;
                      versions = same.versions;
                      events = recorded;
                    })))
          | inr (e, ran) ↦ inl (transaction_err body w ran)
        ])

  -- A submission leaves the tables as they are, or appends one version under review and its event.
  pub submit_manifest-Submits :
      (app : App) (channel : String) (m : Manifest) (submitted_by id : String) (now : Time)
      (w : World)
      → Submits w.db (submit_manifest k app channel m submitted_by id now w).1.db
  unfolding submit_manifest submit_checked submit_version raise
  submit_manifest-Submits app asked m submitted_by id now w = by_refusal (refusal k app channel m)
    where
      channel : String
      channel = channel_or_stable k asked

      by_refusal :
          (reason : Option String)
          → Submits w.db (submit_checked k app channel m submitted_by id now reason w).1.db
      by_refusal (some reason) = inl refl
      by_refusal none =
          submit_encoded-Submits (submission_of k app channel m submitted_by) (k.encode_manifest m)
            (external_from_manifest k app.id m) id now refl w

  submit_manifest-IsReplayed :
      (app : App) (channel : String) (m : Manifest) (submitted_by id : String) (now : Time)
      → Keeps IsReplayed (submit_manifest k app channel m submitted_by id now)
  submit_manifest-IsReplayed app channel m submitted_by id now w r =
      elim (submit_manifest-Submits app channel m submitted_by id now w) [
        | inl e ↦ subst IsReplayed (sym e) r
        | inr s ↦ submitted w.db _ s r
      ]

  -- From versions whose status their events give, whatever requests arrive, one after the other,
  -- and whichever of their statements fail: every version has the status that its recorded events,
  -- replayed in order from a submission, give it, and no event is of a version that the store does
  -- not have.
  pub Reaches-IsReplayed :
      (signer : Signer) (start db : Database)
      → Reaches k signer IsAny start db
      → IsReplayed start
      → IsReplayed db
  Reaches-IsReplayed signer start db reached =
      Reaches-Keeps k signer IsAny IsReplayed
        (framed k signer IsReplayed frame (submit_manifest-IsReplayed) (decide_version-IsReplayed))
        start db reached
