-- ===== src/System/History.antt =====
-- What no request takes back: the versions that were submitted, and the audit trail.
use appstore_gerege_nexus.Prelude.{
  String, Bool, true, false, if◌then◌else◌, List, [], ◌∷◌, ◌++◌, Option, ◌≡◌, refl, sym, ap, ◌∙◌,
  inl, inr, In, subst, ◌==◌,
}
use appstore_gerege_nexus.Prelude.Membership.{In-append_left, amend-In}
use appstore_gerege_nexus.Prelude.Appending.{append_nil, append_assoc}
use appstore_gerege_nexus.Tables.{Time, Json, Status, Database, VersionRow, ReviewEvent}
use appstore_gerege_nexus.Contract.{Contract, Manifest}
use appstore_gerege_nexus.World.Keeps.{Keeps}
use appstore_gerege_nexus.World.Laws.{outcome}
use appstore_gerege_nexus.Registry.Signing.{Signer}
use appstore_gerege_nexus.Registry.Apps.{App}
use appstore_gerege_nexus.Registry.Submissions.{new_event, submit_manifest}
use appstore_gerege_nexus.Registry.Decisions.{decide_row, decide_version}
use appstore_gerege_nexus.Registry.Decisions.Written.{decide_version-Written}
use appstore_gerege_nexus.Registry.Decisions.Effects.{decide_version-rolled_back}
use appstore_gerege_nexus.Registry.Platforms.{null_if_empty}
use appstore_gerege_nexus.System.{IsAny, Reaches}
use appstore_gerege_nexus.System.Handlers.{Reaches-Keeps}
use appstore_gerege_nexus.System.Framed.{framed}
use appstore_gerege_nexus.System.Replay.Requests.{submit_manifest-Submits}

-- The columns of a version that a submission fixes; a decision changes the other three: the
-- status, the review note, and when it was published.
pub record Fixed : Type 0 where
  pub id : String
  pub app_id : String
  pub version : String
  pub channel : String
  pub min_platform : String
  pub manifest : Json
  pub submitted_by : String
  pub created_at : Time
  pub release_notes : Option Json
  pub authors : Json

abbrev pub fixed : VersionRow → Fixed
fixed v = record {
  id = v.id;
  app_id = v.app_id;
  version = v.version;
  channel = v.channel;
  min_platform = v.min_platform;
  manifest = v.manifest;
  submitted_by = v.submitted_by;
  created_at = v.created_at;
  release_notes = v.release_notes;
  authors = v.authors;
}

-- Every version of the start is there still with the columns that were submitted, and the trail
-- begins with the events of the start.
pub record Extends (start db : Database) : Type 0 where
  pub versions :
      (v : VersionRow)
      → In v start.versions
      → (v' : VersionRow) × In v' db.versions × (fixed v' ≡ fixed v)
  pub later : List ReviewEvent
  pub trail : db.events ≡ start.events ++ later

Extends-refl : (db : Database) → Extends db db
Extends-refl db = record {
  versions = λ v i. (v, i, refl);
  later = [];
  trail = sym (append_nil db.events);
}

one_more :
    (start db db' : Database) (e : ReviewEvent)
    → Extends start db
    → ((v : VersionRow)
        → In v db.versions
        → (v' : VersionRow) × In v' db'.versions × (fixed v' ≡ fixed v))
    → db'.events ≡ db.events ++ e ∷ []
    → Extends start db'
one_more start db db' e x still ee = record {
  versions = λ v i.
      let (u, j, same) = x.versions v i in
      let (u', j', same') = still u j in (u', j', same' ∙ same);
  later = x.later ++ e ∷ [];
  trail =
      ee
      ∙ ap (λ (es : List ReviewEvent). es ++ e ∷ []) x.trail
      ∙ append_assoc start.events x.later (e ∷ []);
}

Extends-frame :
    (start db db' : Database)
    → db'.versions ≡ db.versions
    → db'.events ≡ db.events
    → Extends start db
    → Extends start db'
Extends-frame start db db' ev ee x = record {
  versions = λ v i. let (u, j, same) = x.versions v i in (u, subst (In u) (sym ev) j, same);
  later = x.later;
  trail = ee ∙ x.trail;
}

fixed-decide_row :
    (b : Bool) (status : Status) (note : String) (now : Time) (v : VersionRow)
    → fixed (if b then decide_row status note now v else v) ≡ fixed v
fixed-decide_row true status note now v = refl
fixed-decide_row false status note now v = refl

module _ (k : Contract) (start : Database) where
  submit_manifest-Extends :
      (app : App) (channel : String) (m : Manifest) (submitted_by id : String) (now : Time)
      → Keeps (Extends start) (submit_manifest k app channel m submitted_by id now)
  submit_manifest-Extends app channel m submitted_by id now w x =
      elim (submit_manifest-Submits k app channel m submitted_by id now w) [
        | inl e ↦ subst (Extends start) (sym e) x
        | inr s ↦
            one_more start w.db _ s.event x
              (λ v i. (
                v,
                subst (In v) (sym s.versions) (In-append_left v w.db.versions (s.row ∷ []) i),
                refl,
              ))
              s.events
      ]

  decide_version-Extends :
      (id action actor_id actor note : String) (now : Time)
      → Keeps (Extends start) (decide_version k id action actor_id actor note now)
  decide_version-Extends id action actor_id actor note now w x =
      elim (outcome (decide_version k id action actor_id actor note now) w) [
        | inl (u, h) ↦
            let d = decide_version-Written k id action actor_id actor note now w h in
            one_more start w.db _ (new_event id (null_if_empty actor_id) actor action note now) x
              (λ v i. (
                if v.id == id then decide_row d.status note now v else v,
                subst (In (if v.id == id then decide_row d.status note now v else v))
                    (sym d.versions)
                    (amend-In (λ v. v.id == id) (decide_row d.status note now) v w.db.versions i),
                fixed-decide_row (v.id == id) d.status note now v,
              ))
              d.events
        | inr (e, h) ↦
            subst (Extends start)
              (sym (decide_version-rolled_back k id action actor_id actor note now w h)) x
      ]

  -- Whatever requests arrive, one after the other, and whichever of their statements fail: every
  -- version that was in the store is in it still, with the identifier, app, number, channel,
  -- manifest and all else that a submission fixes, and the recorded events are those that were
  -- there, in their order, followed by later ones.
  pub Reaches-Extends :
      (signer : Signer) (db : Database) → Reaches k signer IsAny start db → Extends start db
  Reaches-Extends signer db reached =
      Reaches-Keeps k signer IsAny (Extends start)
        (framed k signer (Extends start) (Extends-frame start) submit_manifest-Extends
          decide_version-Extends)
        start db reached (Extends-refl start)
