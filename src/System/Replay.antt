-- ===== src/System/Replay.antt =====
-- The audit trail against the versions: store_review_events holds every submission and every
-- decision in order, so the status of a version can be read off its events alone.
pub mod Requests
use appstore_gerege_nexus.Prelude.{
  ℕ, ◌+◌, String, Bool, true, false, List, [], ◌∷◌, ◌++◌, Option, none, some, ◌≡◌, ◌≢◌, refl, sym,
  ap, ◌∙◌, arith, ◌⊎◌, inl, inr, In, amend, any, Bool-cases, if◌then◌else◌, subst, ◌==◌, eq_iff,
}
use appstore_gerege_nexus.Prelude.Membership.{In-append, In-amend, any_complete}
use appstore_gerege_nexus.Prelude.Appending.{any_append, any_last}
use appstore_gerege_nexus.Tables.{Time, Status, in_review, Database, VersionRow, ReviewEvent}
use appstore_gerege_nexus.Registry.Decisions.{status_for, decide_row}

-- The status after one more action: that of the decision, or, for what is no decision, as it was.
abbrev pub decided : Option Status → Status → Status
decided none s = s
decided (some t) s = t

-- The status of a version after one more event.
abbrev pub step : String → ReviewEvent → Status → Status
step id e s = if e.version_id == id then decided (status_for e.action) s else s

-- The status of a version after its events, in the order in which they were written.
abbrev pub replay : String → Status → List ReviewEvent → Status
replay id s [] = s
replay id s (e ∷ es) = replay id (step id e s) es

-- Every version has the status that its events, replayed from a submission, give it; and every
-- event is of a version of the store.
pub record IsReplayed (db : Database) : Type 0 where
  pub statuses : (v : VersionRow) → In v db.versions → replay v.id in_review db.events ≡ v.status
  pub known :
      (e : ReviewEvent) → In e db.events → any (λ v. v.id == e.version_id) db.versions ≡ true

replay-append :
    (id : String) (s : Status) (es : List ReviewEvent) (e : ReviewEvent)
    → replay id s (es ++ e ∷ []) ≡ step id e (replay id s es)
replay-append id s [] e = refl
replay-append id s (x ∷ es) e = replay-append id (step id x s) es e

replay_none :
    (id : String) (s : Status) (es : List ReviewEvent)
    → ((e : ReviewEvent) → In e es → (e.version_id == id) ≡ false)
    → replay id s es ≡ s
replay_none id s [] other = refl
replay_none id s (x ∷ es) other =
    replay_none id (step id x s) es (λ e i. other e (inr i))
    ∙ ap (λ (b : Bool). if b then decided (status_for x.action) s else s) (other x (inl refl))

differ :
    (a b : String) (rows : List VersionRow)
    → any (λ v. v.id == a) rows ≡ true
    → any (λ v. v.id == b) rows ≡ false
    → (a == b) ≡ false
differ a b rows t f = elim (Bool-cases (a == b)) [
  | inl e ↦
      let same = (eq_iff a b).0 e in
      cc (subst (λ (x : String). any (λ v. v.id == x) rows ≡ true) same t, f)
  | inr g ↦ g
]

pub frame :
    (db db' : Database)
    → db'.versions ≡ db.versions
    → db'.events ≡ db.events
    → IsReplayed db
    → IsReplayed db'
frame db db' ev ee r = record {
  statuses = λ v i. ap (replay v.id in_review) ee ∙ r.statuses v (subst (In v) ev i);
  known = λ e i. ap (any (λ v. v.id == e.version_id)) ev ∙ r.known e (subst (In e) ee i);
}

-- A new version under review with its first event, which decides nothing.
pub record Submitted (db db' : Database) : Type 0 where
  pub row : VersionRow
  pub event : ReviewEvent
  pub waiting : row.status ≡ in_review
  pub its_id : event.version_id ≡ row.id
  pub plain : status_for event.action ≡ none
  pub unused : any (λ v. v.id == row.id) db.versions ≡ false
  pub versions : db'.versions ≡ db.versions ++ row ∷ []
  pub events : db'.events ≡ db.events ++ event ∷ []

abbrev pub Submits : Database → Database → Type 0
Submits db db' = (db' ≡ db) ⊎ Submitted db db'

pub submitted : (db db' : Database) → Submitted db db' → IsReplayed db → IsReplayed db'
submitted db db' s r = record {
  statuses = λ v i.
      ap (replay v.id in_review) s.events
      ∙ replay-append v.id in_review db.events s.event
      ∙ elim (In-append v db.versions (s.row ∷ []) (subst (In v) s.versions i)) [
        | inl old ↦
            let present =
              any_complete (λ x. x.id == v.id) v db.versions old ((eq_iff v.id v.id).1 refl) in
            ap
              (λ (b : Bool).
                if b
                then decided (status_for s.event.action) (replay v.id in_review db.events)
                else replay v.id in_review db.events)
              (unlike v.id (differ v.id s.row.id db.versions present s.unused))
            ∙ r.statuses v old
        | inr (inl same) ↦
            quiet v
            ∙ replay_none v.id in_review db.events (λ x i.
              differ x.version_id v.id db.versions (r.known x i)
                (ap (λ (y : VersionRow). any (λ x. x.id == y.id) db.versions) same ∙ s.unused))
            ∙ sym s.waiting
            ∙ ap (λ (y : VersionRow). y.status) (sym same)
        | inr (inr x) ↦ absurd x
      ];
  known = λ x i.
      ap (any (λ v. v.id == x.version_id)) s.versions
      ∙ elim (In-append x db.events (s.event ∷ []) (subst (In x) s.events i)) [
        | inl old ↦ any_append (λ v. v.id == x.version_id) db.versions (s.row ∷ []) (r.known x old)
        | inr (inl same) ↦
            any_last (λ v. v.id == x.version_id) db.versions s.row
              ((eq_iff s.row.id x.version_id).1
                (sym s.its_id ∙ ap (λ (y : ReviewEvent). y.version_id) (sym same)))
        | inr (inr y) ↦ absurd y
      ];
}
  where
    unlike : (a : String) → (a == s.row.id) ≡ false → (s.event.version_id == a) ≡ false
    unlike a f = elim (Bool-cases (s.event.version_id == a)) [
      | inl t ↦ cc (f, (eq_iff a s.row.id).1 (sym ((eq_iff s.event.version_id a).0 t) ∙ s.its_id))
      | inr g ↦ g
    ]

    quiet :
        (v : VersionRow)
        → step v.id s.event (replay v.id in_review db.events) ≡ replay v.id in_review db.events
    quiet v = elim (Bool-cases (s.event.version_id == v.id)) [
      | inl t ↦ rw (t, s.plain) refl
      | inr f ↦ rw f refl
    ]

-- A decision on one version with its event.
pub decided_on :
    (db db' : Database) (id : String) (status : Status) (note : String) (now : Time)
    (e : ReviewEvent)
    → e.version_id ≡ id
    → status_for e.action ≡ some status
    → any (λ v. v.id == id) db.versions ≡ true
    → db'.versions ≡ amend (λ v. v.id == id) (decide_row status note now) db.versions
    → db'.events ≡ db.events ++ e ∷ []
    → IsReplayed db
    → IsReplayed db'
decided_on db db' id status note now e its_id decision present ev ee r = record {
  statuses = λ v i.
      ap (replay v.id in_review) ee
      ∙ replay-append v.id in_review db.events e
      ∙ (let (q, j, made) =
            In-amend (λ v. v.id == id) (decide_row status note now) v db.versions
              (subst (In v) ev i) in
          by_test q v j (q.id == id) refl made);
  known = λ x i.
      ap (any (λ v. v.id == x.version_id)) ev
      ∙ kept_ids x.version_id db.versions
      ∙ elim (In-append x db.events (e ∷ []) (subst (In x) ee i)) [
        | inl old ↦ r.known x old
        | inr (inl same) ↦
            subst (λ (y : String). any (λ v. v.id == y) db.versions ≡ true)
              (sym (ap (λ (y : ReviewEvent). y.version_id) same ∙ its_id)) present
        | inr (inr y) ↦ absurd y
      ];
}
  where
    kept_ids :
        (a : String) (rows : List VersionRow)
        → any (λ v. v.id == a) (amend (λ v. v.id == id) (decide_row status note now) rows)
          ≡ any (λ v. v.id == a) rows
    kept_ids a [] = refl
    kept_ids a (v ∷ rows) = elim (Bool-cases (v.id == id)) [
      | inl t ↦ rw (t, kept_ids a rows) refl
      | inr f ↦ rw (f, kept_ids a rows) refl
    ]

    by_test :
        (q v : VersionRow)
        → In q db.versions
        → (b : Bool) → (q.id == id) ≡ b
        → v ≡ (if b then decide_row status note now q else q)
        → step v.id e (replay v.id in_review db.events) ≡ v.status
    by_test q v j true t made =
        let same : v.id ≡ id = ap (λ (x : VersionRow). x.id) made ∙ (eq_iff q.id id).0 t in
        let hit : (e.version_id == v.id) ≡ true =
          (eq_iff e.version_id v.id).1 (its_id ∙ sym same) in
        rw (hit, decision) (sym (ap (λ (x : VersionRow). x.status) made))
    by_test q v j false f made =
        let miss : (e.version_id == q.id) ≡ false = elim (Bool-cases (e.version_id == q.id)) [
          | inl t ↦ cc (f, (eq_iff q.id id).1 (sym ((eq_iff e.version_id q.id).0 t) ∙ its_id))
          | inr g ↦ g
        ] in
        subst (λ (x : VersionRow). step x.id e (replay x.id in_review db.events) ≡ x.status)
          (sym made) (rw miss (r.statuses q j))
