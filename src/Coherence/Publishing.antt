-- ===== src/Coherence/Publishing.antt =====
-- DecideVersion of modules/registry/store.go over the caches: it bumps the revision in the
-- transaction that changes what a catalogue says.
use appstore_gerege_nexus.Prelude.{
  ℕ, ◌+◌, String, Option, none, some, ◌≡◌, sym, ap, ◌∙◌, arith, inl, inr, subst,
}
use appstore_gerege_nexus.Tables.{Time, Database, Status, ReviewEvent}
use appstore_gerege_nexus.Contract.{Contract}
use appstore_gerege_nexus.World.{ok, World, Exec, raise, transaction}
use appstore_gerege_nexus.World.Laws.{
  statement_ok, execute_ok, pure_ok, bind_ok, transaction_ok, transaction_err, outcome,
}
use appstore_gerege_nexus.Registry.Signing.{Signer}
use appstore_gerege_nexus.Registry.Cache.{bump_revision}
use appstore_gerege_nexus.Registry.Platforms.{null_if_empty}
use appstore_gerege_nexus.Registry.Submissions.{new_event, add_event}
use appstore_gerege_nexus.Registry.Decisions.{
  update_version, update_provenance, publish_provenance, decide_body, decide_status, status_for,
  decide_version,
}
use appstore_gerege_nexus.Coherence.{IsCoherent}
use appstore_gerege_nexus.Coherence.Frames.{bumped-IsCoherent}

-- The caches, the platforms and the revision are as they were.
pub record KeepsCaches (db db' : Database) : Type 0 where
  pub snapshots : db'.snapshots ≡ db.snapshots
  pub private_snapshots : db'.private_snapshots ≡ db.private_snapshots
  pub platforms : db'.platforms ≡ db.platforms
  pub revision : db'.revision ≡ db.revision

pub KeepsCaches-refl : (db db' : Database) → db' ≡ db → KeepsCaches db db'
KeepsCaches-refl db db' e = record {
  snapshots = ap (λ (d : Database). d.snapshots) e;
  private_snapshots = ap (λ (d : Database). d.private_snapshots) e;
  platforms = ap (λ (d : Database). d.platforms) e;
  revision = ap (λ (d : Database). d.revision) e;
}

pub KeepsCaches-trans : (a b c : Database) → KeepsCaches a b → KeepsCaches b c → KeepsCaches a c
KeepsCaches-trans a b c p q = record {
  snapshots = q.snapshots ∙ p.snapshots;
  private_snapshots = q.private_snapshots ∙ p.private_snapshots;
  platforms = q.platforms ∙ p.platforms;
  revision = q.revision ∙ p.revision;
}

module _ (k : Contract) where
  update_version-KeepsCaches :
      (status : Status) (note id : String) (now : Time) (db : Database) {u : Unit {0}}
      {db' : Database}
      → update_version status note id now db ≡ ok (u, db')
      → KeepsCaches db db'
  unfolding update_version
  update_version-KeepsCaches status note id now db h = ground arith

  provenance-KeepsCaches :
      (id actor_id : String) (now : Time) (db : Database)
      → KeepsCaches db (update_provenance k id actor_id now db)
  unfolding update_provenance
  provenance-KeepsCaches id actor_id now db = ground arith

  publish_provenance-KeepsCaches :
      (status : Status) (id actor_id : String) (now : Time) (w : World) {u : Unit {0}} {w' : World}
      → publish_provenance k status id actor_id now w ≡ (ok u, w')
      → KeepsCaches w.db w'.db
  unfolding publish_provenance
  publish_provenance-KeepsCaches Status.published id actor_id now w {u} {w'} h =
      KeepsCaches-trans w.db (update_provenance k id actor_id now w.db) w'.db
        (provenance-KeepsCaches id actor_id now w.db)
        (KeepsCaches-refl _ _ (execute_ok (update_provenance k id actor_id now) w h).0)
  publish_provenance-KeepsCaches Status.draft id actor_id now w h =
      KeepsCaches-refl _ _ (pure_ok tt w h).1
  publish_provenance-KeepsCaches Status.in_review id actor_id now w h =
      KeepsCaches-refl _ _ (pure_ok tt w h).1
  publish_provenance-KeepsCaches Status.rejected id actor_id now w h =
      KeepsCaches-refl _ _ (pure_ok tt w h).1
  publish_provenance-KeepsCaches Status.yanked id actor_id now w h =
      KeepsCaches-refl _ _ (pure_ok tt w h).1

  event-KeepsCaches : (e : ReviewEvent) (db : Database) → KeepsCaches db (add_event e db)
  unfolding add_event
  event-KeepsCaches e db = ground arith

  -- Changes that leave the caches alone, then a bump of the revision.
  pub bump-IsCoherent :
      (signer : Signer) (db : Database) (w : World) {u : Unit {0}} {w' : World}
      → IsCoherent k signer db
      → KeepsCaches db w.db
      → bump_revision w ≡ (ok u, w')
      → IsCoherent k signer w'.db
  unfolding bump_revision
  bump-IsCoherent signer db w {u} {w'} c keeps h =
      let (e, _) = execute_ok (λ db. record db { revision = db.revision + 1 }) w h in
      bumped-IsCoherent k signer db w'.db c (ap (λ (d : Database). d.snapshots) e ∙ keeps.snapshots)
        (ap (λ (d : Database). d.private_snapshots) e ∙ keeps.private_snapshots)
        (ap (λ (d : Database). d.platforms) e ∙ keeps.platforms)
        (ap (λ (d : Database). d.revision) e ∙ ap (λ (n : ℕ). n + 1) keeps.revision)

  -- A transaction keeps what its body keeps on success.
  pub transaction-IsCoherent :
      {A : Type 0} (signer : Signer) (body : Exec A) (w : World)
      → IsCoherent k signer w.db
      → ((v : World) (a : A) (v' : World)
          → IsCoherent k signer v.db
          → body v ≡ (ok a, v')
          → IsCoherent k signer v'.db)
      → IsCoherent k signer (transaction body w).1.db
  transaction-IsCoherent signer body w c keeps = elim (outcome (transaction body) w) [
    | inl (a, h) ↦
        let (v, v', d, _, ran, d', _) = transaction_ok body w h in
        subst (IsCoherent k signer) (sym d')
          (keeps v a v' (subst (IsCoherent k signer) (sym d) c) ran)
    | inr (e, h) ↦ subst (IsCoherent k signer) (sym (transaction_err body w h)) c
  ]

  decide_body-IsCoherent :
      (signer : Signer) (version_id action actor_id actor note : String) (now : Time)
      (status : Status) (v : World) (u : Unit {0}) (v' : World)
      → IsCoherent k signer v.db
      → decide_body k status version_id action actor_id actor note now v ≡ (ok u, v')
      → IsCoherent k signer v'.db
  unfolding decide_body
  decide_body-IsCoherent signer version_id action actor_id actor note now status v u v' c h =
      let (_, v1, updated, h1) = bind_ok _ _ v h in
      let (_, v2, published, h2) = bind_ok _ _ v1 h1 in
      let (_, v3, recorded, bumped) = bind_ok _ _ v2 h2 in
      let event = new_event version_id (null_if_empty actor_id) actor action note now in
      bump-IsCoherent signer v.db v3 c
        (KeepsCaches-trans v.db v1.db v3.db
          (update_version-KeepsCaches status note version_id now v.db
            (statement_ok (update_version status note version_id now) v updated).0)
          (KeepsCaches-trans v1.db v2.db v3.db
            (publish_provenance-KeepsCaches status version_id actor_id now v1 published)
            (KeepsCaches-trans v2.db (add_event event v2.db) v3.db (event-KeepsCaches event v2.db)
              (KeepsCaches-refl _ _ (execute_ok (add_event event) v2 recorded).0))))
        bumped

  -- Publishing, rejecting or yanking a version keeps the caches coherent, whether it succeeds, is
  -- refused, or fails at any of its statements or at the commit.
  pub decide_version-IsCoherent :
      (signer : Signer) (version_id action actor_id actor note : String) (now : Time) (w : World)
      → IsCoherent k signer w.db
      → IsCoherent k signer (decide_version k version_id action actor_id actor note now w).1.db
  unfolding decide_version decide_status raise
  decide_version-IsCoherent signer version_id action actor_id actor note now w c =
      by_status (status_for action)
    where
      by_status :
          (s : Option Status)
          → IsCoherent k signer (decide_status k s version_id action actor_id actor note now w).1.db
      by_status none = c
      by_status (some status) =
          transaction-IsCoherent signer
            (decide_body k status version_id action actor_id actor note now) w c
            (decide_body-IsCoherent signer version_id action actor_id actor note now status)
