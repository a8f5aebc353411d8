-- ===== src/Coherence/Access.antt =====
-- handleGrant and handleRevoke of modules/registry/platform_handlers.go over the caches: neither
-- bumps the revision, and each drops the cached documents of the platform that it is about. The
-- code only logs a drop that fails; the worlds here have no statement that fails.
use appstore_gerege_nexus.Prelude.{
  String, Bool, true, false, List, ◌≡◌, refl, sym, ap, inl, inr, ◌==◌, Bool-cases, subst,
}
use appstore_gerege_nexus.Tables.{Time, Database}
use appstore_gerege_nexus.Contract.{Contract}
use appstore_gerege_nexus.World.{
  Error, Result, ok, err, World, Audit, Exec, Caller, Reply, settle, under_faults, statement,
  execute, ignore, attempt,
}
use appstore_gerege_nexus.Registry.Platforms.{grant, revoke, discard_private_snapshots}
use appstore_gerege_nexus.Registry.Apps.{find_app, app_by_id}
use appstore_gerege_nexus.Registry.Signing.{Signer}
use appstore_gerege_nexus.Registry.Operators.{
  Decision, actor, decide_access, handle_grant, handle_revoke,
}
use appstore_gerege_nexus.Coherence.{IsCoherent}
use appstore_gerege_nexus.World.Keeps.{attempt_run, attempt_split}
use appstore_gerege_nexus.World.Reads.{IsReadOnly, query-IsReadOnly, bind-IsReadOnly}
use appstore_gerege_nexus.Registry.Submissions.Effects.{or_not_found-IsReadOnly}
use appstore_gerege_nexus.Coherence.Granting.{
  quiet, Regranted, insert_grant-Regranted, delete_grant-Regranted, app_by_id-quiet, grant-quiet,
  Regranted-IsCoherent,
}
use appstore_gerege_nexus.World.Laws.{statement_err}

pub app_by_id-IsReadOnly : (id : String) → IsReadOnly (app_by_id id)
unfolding app_by_id
app_by_id-IsReadOnly id =
    bind-IsReadOnly _ _ (query-IsReadOnly (find_app (λ a. a.id == id))) or_not_found-IsReadOnly

module _ (k : Contract) (signer : Signer) where
  discarded-IsCoherent :
      (platform_id : String) (db : Database) (v : World) (audits : List Audit)
      → IsCoherent k signer db
      → Regranted platform_id db v.db
      → v ≡ quiet v.db audits
      → IsCoherent k signer (discard_private_snapshots platform_id v).1.db
  unfolding discard_private_snapshots execute statement settle under_faults
  discarded-IsCoherent platform_id db v audits c r e =
      subst (λ (y : World). IsCoherent k signer (discard_private_snapshots platform_id y).1.db)
        (sym e) (Regranted-IsCoherent k signer platform_id db v.db c r)

  decide_access-IsCoherent :
      (caller : Caller) (decision : Exec (Unit {0})) (platform_id app_id action failed : String)
      (on : Bool) (db : Database) (audits : List Audit)
      → IsCoherent k signer db
      → ((e : Error) (v : World) → decision (quiet db audits) ≡ (err e, v) → v.db ≡ db)
      → ((u : Unit {0}) (v : World)
          → decision (quiet db audits) ≡ (ok u, v)
          → Regranted platform_id db v.db × (v ≡ quiet v.db audits))
      → IsCoherent k signer
          (decide_access caller decision platform_id app_id action failed on (quiet db audits)).1.db
  unfolding attempt ignore
  decide_access-IsCoherent caller decision platform_id app_id action failed on db audits c kept
        decided =
      attempt_split (IsCoherent k signer) decision _ _ (quiet db audits)
        (λ e v h. subst (IsCoherent k signer) (sym (kept e v h)) c)
        (λ u v ran.
          let (r, e) = decided u v ran in discarded-IsCoherent platform_id db v audits c r e)

  -- Granting an app to a platform, where no statement fails, keeps the caches coherent, whether the
  -- grant is made or refused.
  pub handle_grant-IsCoherent :
      (caller : Caller) (platform_id app_id : String) (now : Time) (db : Database)
      (audits : List Audit)
      → IsCoherent k signer db
      → IsCoherent k signer (handle_grant caller platform_id app_id now (quiet db audits)).1.db
  unfolding handle_grant grant
  handle_grant-IsCoherent caller platform_id app_id now db audits c =
      let same = app_by_id-IsReadOnly app_id (quiet db audits) in
      attempt_run (IsCoherent k signer) (app_by_id app_id) _ _ (quiet db audits)
        (subst (IsCoherent k signer) (sym same) c) (λ e v p. p)
        (λ a v found p.
          let e = app_by_id-quiet app_id db audits found in
          elim (Bool-cases (a.visibility == "private")) [
            | inl t ↦
                rw t
                  (subst (λ (y : World). IsCoherent k signer (granting y).1.db) (sym e) granted_one)
            | inr f ↦ rw f p
          ])
    where
      granting : World → Reply Decision × World
      granting =
          decide_access caller (grant app_id platform_id (actor caller) now) platform_id app_id
            "appstore.app_granted" "could not grant the app" true

      granted_one : IsCoherent k signer (granting (quiet db audits)).1.db
      granted_one =
          let decision = grant app_id platform_id (actor caller) now in
          decide_access-IsCoherent caller decision platform_id app_id "appstore.app_granted"
            "could not grant the app" true db audits c
            (λ e v h. (statement_err _ (quiet db audits) h).0)
            (λ u v ran.
              let (r, q) = grant-quiet _ db audits ran in (insert_grant-Regranted _ db r, q))

  -- Taking an app back from a platform, where no statement fails, keeps the caches coherent.
  pub handle_revoke-IsCoherent :
      (caller : Caller) (platform_id app_id : String) (db : Database) (audits : List Audit)
      → IsCoherent k signer db
      → IsCoherent k signer (handle_revoke caller platform_id app_id (quiet db audits)).1.db
  unfolding handle_revoke revoke execute statement settle under_faults
  handle_revoke-IsCoherent caller platform_id app_id db audits c =
      decide_access-IsCoherent caller (revoke app_id platform_id) platform_id app_id
        "appstore.app_revoked" "could not revoke the app" false db audits c (λ e v h. cc)
        (λ u v ran.
          let e = ap (λ (p : Result (Unit {0}) × World). p.1) ran in
          (
            subst (λ (y : World). Regranted platform_id db y.db) e
                (delete_grant-Regranted app_id platform_id db),
            subst (λ (y : World). y ≡ quiet y.db audits) e refl,
          ))
