-- ===== src/Registry/Decisions/Recorded.antt =====
-- What it means for a decision of modules/registry/store.go to be recorded.
use appstore_gerege_nexus.Prelude.{
  ◌+◌, String, Bool, true, List, [], ◌∷◌, ◌++◌, Option, none, some, ◌≡◌, ◌≢◌, refl, sym, ap, ◌∙◌,
  arith, ◌⊎◌, inl, inr, if◌then◌else◌, ◌==◌, eq_iff, Bool-cases, amend, any, first,
}
use appstore_gerege_nexus.Tables.{
  Time, Database, Status, published, rejected, yanked, VersionRow, ReviewEvent,
}
use appstore_gerege_nexus.Contract.{Contract}
use appstore_gerege_nexus.Registry.Platforms.{null_if_empty}
use appstore_gerege_nexus.Registry.Build.{is_published}
use appstore_gerege_nexus.Registry.Submissions.{new_event}
use appstore_gerege_nexus.Registry.Decisions.{
  status_for, decide_row, coalesce, take_provenance, update_provenance,
}
use appstore_gerege_nexus.Registry.Decisions.Written.{Written, apps_after}

-- What each of the three actions makes of the status and of the time of publication.
pub record Verdict (action : String) (now : Time) (status : Status)
    (stamp : Option Time → Option Time) : Type 0 where
  pub known :
      ((action ≡ "publish") × (status ≡ published) × ((old : Option Time) → stamp old ≡ some now))
      ⊎ ((((action ≡ "reject") × (status ≡ rejected)) ⊎ ((action ≡ "yank") × (status ≡ yanked)))
          × ((old : Option Time) → stamp old ≡ old))

-- The entry of the trail for a decision; the empty identifier of an account is NULL.
pub record Entry (version_id action actor_id actor note : String) (now : Time) (e : ReviewEvent)
    : Type 0 where
  pub version : e.version_id ≡ version_id
  pub account :
      ((actor_id ≡ "") × (e.actor_id ≡ none)) ⊎ ((actor_id ≢ "") × (e.actor_id ≡ some actor_id))
  pub by : e.actor ≡ actor
  pub did : e.action ≡ action
  pub because : e.note ≡ note
  pub when : e.created_at ≡ now

-- A decision that was recorded: the row that it names has the new status, the note and the time of
-- publication, and is otherwise as it was, like every other row.
pub record Decided (version_id action actor_id actor note : String) (now : Time) (db db' : Database)
    : Type 0 where
  pub status : Status
  pub stamp : Option Time → Option Time
  pub verdict : Verdict action now status stamp
  pub present : any (λ v. v.id == version_id) db.versions ≡ true
  pub versions :
      db'.versions
      ≡ amend
          (λ v. v.id == version_id)
          (λ v. record v {
            status = status;
            review_note = note;
            published_at = stamp v.published_at;
          })
          db.versions
  pub event : ReviewEvent
  pub entry : Entry version_id action actor_id actor note now event
  pub events : db'.events ≡ db.events ++ event ∷ []
  pub revision : db'.revision ≡ db.revision + 1

abbrev pub stamp_of : Status → Time → Option Time → Option Time
stamp_of status now old = if is_published status then some now else old

pub status_for-Verdict :
    (action : String) (now : Time) (status : Status)
    → status_for action ≡ some status
    → Verdict action now status (stamp_of status now)
unfolding status_for
status_for-Verdict action now status h = record {
  known = elim (Bool-cases (action == "publish")) [
    | inl p ↦
        let e : published ≡ status = unwrap (rw p at h) in
        inl ((eq_iff action "publish").0 p, sym e, λ old. rw (← e) refl)
    | inr np ↦ elim (Bool-cases (action == "reject")) [
      | inl r ↦
          let e : rejected ≡ status = unwrap (rw (np, r) at h) in
          inr (inl ((eq_iff action "reject").0 r, sym e), λ old. rw (← e) refl)
      | inr nr ↦ elim (Bool-cases (action == "yank")) [
        | inl y ↦
            let e : yanked ≡ status = unwrap (rw (np, nr, y) at h) in
            inr (inr ((eq_iff action "yank").0 y, sym e), λ old. rw (← e) refl)
        | inr ny ↦ let e = rw (np, nr, ny) at h in absurd (cc e)
      ]
    ]
  ];
}
  where
    unwrap : {a b : Status} → some a ≡ some b → a ≡ b
    unwrap {a} {b} e = ground arith

pub new_event-Entry :
    (version_id action actor_id actor note : String) (now : Time)
    → Entry version_id action actor_id actor note now
        (new_event version_id (null_if_empty actor_id) actor action note now)
new_event-Entry version_id action actor_id actor note now = record {
  version = refl;
  account = elim (Bool-cases (actor_id == "")) [
    | inl t ↦ inl ((eq_iff actor_id "").0 t, rw t refl)
    | inr f ↦ inr (λ e. cc (f, (eq_iff actor_id "").1 e), rw f refl)
  ];
  by = refl;
  did = refl;
  because = refl;
  when = refl;
}

first-amend :
    {A : Type 0} (p : A → Bool) (f : A → A) (xs : List A) (a : A)
    → ((x : A) → p x ≡ true → p (f x) ≡ true)
    → first p xs ≡ some a
    → first p (amend p f xs) ≡ some (f a)
first-amend p f [] a keeps h = absurd (cc h)
first-amend p f (x ∷ xs) a keeps h = elim (Bool-cases (p x)) [
  | inl t ↦
      let h' : some x ≡ some a = rw t at h in
      let same : x ≡ a = ground arith in rw (t, keeps x t) (ap (λ y. some (f y)) same)
  | inr n ↦ let h' = rw n at h in rw (n, n) (first-amend p f xs a keeps h')
]

any-first :
    {A : Type 0} (p : A → Bool) (xs : List A) → any p xs ≡ true → (a : A) × (first p xs ≡ some a)
any-first p [] h = absurd (cc h)
any-first p (x ∷ xs) h = elim (Bool-cases (p x)) [
  | inl t ↦ (x, rw t refl)
  | inr n ↦ let h' = rw n at h in let (a, e) = any-first p xs h' in (a, rw n e)
]

module _ (k : Contract) where
  -- What becomes of the apps: publishing a version gives its app the authors, the maintainers, the
  -- repository, the homepage and the licence of the version's manifest, and the actor and time of
  -- the change; the other decisions, and the other apps, change nothing.
  abbrev pub Described :
      (version_id action actor_id : String) (now : Time) (db db' : Database) → Type 0
  Described version_id action actor_id now db db' =
      ((action ≡ "publish")
        × (v : VersionRow) × (first (λ u. u.id == version_id) db.versions ≡ some v)
        × (db'.apps
            ≡ amend (λ a. a.id == v.app_id)
                (λ a. record a {
                  authors = coalesce (k.json_get v.manifest "authors") "[]";
                  maintainers = coalesce (k.json_get v.manifest "maintainers") "[]";
                  repository = coalesce (k.json_text v.manifest "repository") "";
                  homepage = coalesce (k.json_text v.manifest "homepage") "";
                  license = coalesce (k.json_text v.manifest "license") "";
                  updated_by = if actor_id == "" then none else some actor_id;
                  updated_at = now;
                })
                db.apps))
      ⊎ ((action ≢ "publish") × (db'.apps ≡ db.apps))

  published_apps :
      (version_id note actor_id : String) (now : Time) (db : Database) (v : VersionRow)
      → first (λ u. u.id == version_id) db.versions ≡ some v
      → apps_after k published version_id actor_id now (record db {
        versions = amend (λ u. u.id == version_id) (decide_row published note now) db.versions;
      })
        ≡ amend (λ a. a.id == v.app_id) (take_provenance k v.manifest actor_id now) db.apps
  unfolding update_provenance
  published_apps version_id note actor_id now db v h =
      rw
        (first-amend (λ u. u.id == version_id) (decide_row published note now) db.versions v
          (λ x t. t) h)
        refl

  pub Written-Described :
      (version_id action actor_id actor note : String) (now : Time) (db db' : Database)
      → Written k version_id action actor_id actor note now db db'
      → Described version_id action actor_id now db db'
  Written-Described version_id action actor_id actor note now db db' d =
      elim (status_for-Verdict action now d.status d.known).known [
        | inl (e, s, _) ↦
            let (v, there) = any-first (λ u. u.id == version_id) db.versions d.present in
            inl (
              e,
              v,
              there,
              d.apps
                  ∙ ap
                      (λ (x : Status). apps_after k x version_id actor_id now (record db {
                        versions =
                            amend (λ u. u.id == version_id) (decide_row x note now) db.versions;
                      }))
                      s
                  ∙ published_apps version_id note actor_id now db v there,
            )
        | inr (inl (e, s), _) ↦ inr (cc e, d.apps ∙ rw s refl)
        | inr (inr (e, s), _) ↦ inr (cc e, d.apps ∙ rw s refl)
      ]
