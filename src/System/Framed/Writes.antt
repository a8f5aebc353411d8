-- ===== src/System/Framed/Writes.antt =====
-- What publishers, apps, platforms and grants are written with leaves the versions and their events
-- as they are.
use appstore_gerege_nexus.Prelude.{
  String, Bool, true, false, List, [], ◌∷◌, Option, none, some, ◌≡◌, refl, arith, first, keep, not,
  if◌then◌else◌, subst, ◌==◌,
}
use appstore_gerege_nexus.Text.{trim_space}
use appstore_gerege_nexus.Tables.{Time, Database, AppText, Publisher, PlatformRow}
use appstore_gerege_nexus.Contract.{Contract}
use appstore_gerege_nexus.World.{Exec, Caller, attempt, Error, failure, statement, ignore}
use appstore_gerege_nexus.World.Keeps
use appstore_gerege_nexus.World.Keeps.{Keeps}
use appstore_gerege_nexus.Registry.Signing.{Signer}
use appstore_gerege_nexus.Registry.Apps.{
  App, owned_by_other, refuse_other, upsert_row, save_texts, upsert_body, upsert_app, app_by_id,
}
use appstore_gerege_nexus.Registry.Cache.{bump_revision}
use appstore_gerege_nexus.Registry.Cache.{discard_snapshots}
use appstore_gerege_nexus.Registry.Platforms.{
  Platform, insert_platform, create_platform, update_enabled, set_platform_enabled, insert_grant,
  grant, delete_grant, revoke, without_private, discard_private_snapshots,
}
use appstore_gerege_nexus.Registry.Publishers.{
  Profile, of_tenant, upsert_found, upsert_profile, upsert_publisher, publisher_by_id,
  update_verified, set_publisher_verified,
}
use appstore_gerege_nexus.Registry.Publishers.Verification.{publisher_by_id-IsReadOnly}
use appstore_gerege_nexus.Registry.Operators.{decide_access, actor, handle_grant, handle_revoke}
use appstore_gerege_nexus.Coherence.Access.{app_by_id-IsReadOnly}

module _ (k : Contract) (signer : Signer) (P : Database → Type 0)
    (frame : (db db' : Database)
      → db'.versions ≡ db.versions
      → db'.events ≡ db.events
      → P db
      → P db') where
  pub discard_snapshots-Keeps : Keeps P discard_snapshots
  unfolding discard_snapshots
  discard_snapshots-Keeps =
      Keeps.statement-Keeps P _ (λ db n db' p h. frame db db' (ground arith) (ground arith) p)

  pub discard_private-Keeps : (id : String) → Keeps P (discard_private_snapshots id)
  unfolding discard_private_snapshots without_private
  discard_private-Keeps id =
      Keeps.execute-Keeps P (without_private id) (λ db p. by_id db (id == "") p)
    where
      by_id :
          (db : Database) (b : Bool)
          → P db
          → P (
              if b then record db { private_snapshots = [] } else record db {
                private_snapshots = keep (λ s. not (s.platform_id == id)) db.private_snapshots;
              })
      by_id db true p = frame db (record db { private_snapshots = [] }) refl refl p
      by_id db false p = frame db _ refl refl p

  -- Platforms and grants.
  insert_platform-Keeps : (row : PlatformRow) → Keeps P (statement (insert_platform k row))
  unfolding insert_platform
  insert_platform-Keeps row =
      Keeps.statement-Keeps P (insert_platform k row)
        (λ db x db' p h. frame db db' (ground arith) (ground arith) p)

  pub create_platform-Keeps :
      (name origin note actor : String) (minted : Option String) (id : String) (now : Time)
      → Keeps P (create_platform k name origin note actor minted id now)
  unfolding create_platform
  create_platform-Keeps name origin note actor none id now =
      Keeps.if-Keeps P (trim_space name == "") _ _
        (Keeps.raise-Keeps P (Platform × String) (failure "a platform needs a name"))
        (Keeps.raise-Keeps P (Platform × String) (failure "rand"))
  create_platform-Keeps name origin note actor (some token) id now =
      Keeps.if-Keeps P (trim_space name == "") _ _
        (Keeps.raise-Keeps P (Platform × String) (failure "a platform needs a name"))
        (Keeps.bind-Keeps P _ _ (insert_platform-Keeps _) (λ p. Keeps.pure-Keeps P (p, token)))

  pub set_platform_enabled-Keeps :
      (id : String) (on : Bool) (now : Time) → Keeps P (set_platform_enabled id on now)
  unfolding set_platform_enabled update_enabled
  set_platform_enabled-Keeps id on now =
      Keeps.statement-Keeps P (update_enabled id on now)
        (λ db x db' p h. frame db db' (ground arith) (ground arith) p)

  grant-Keeps :
      (app_id platform_id actor : String) (now : Time)
      → Keeps P (grant app_id platform_id actor now)
  unfolding grant insert_grant
  grant-Keeps app_id platform_id actor now =
      Keeps.statement-Keeps P (insert_grant _)
        (λ db x db' p h. frame db db' (ground arith) (ground arith) p)

  revoke-Keeps : (app_id platform_id : String) → Keeps P (revoke app_id platform_id)
  unfolding revoke delete_grant
  revoke-Keeps app_id platform_id =
      Keeps.execute-Keeps P (delete_grant app_id platform_id) (λ db p. frame db _ refl refl p)

  decide_access-Keeps :
      (caller : Caller) (decision : Exec (Unit {0})) (platform_id app_id action failed : String)
      (granted : Bool)
      → Keeps P decision
      → Keeps P (decide_access caller decision platform_id app_id action failed granted)
  unfolding attempt ignore
  decide_access-Keeps caller decision platform_id app_id action failed granted keeps =
      Keeps.attempt-Keeps P decision _ _ keeps (λ e w p. p) (λ u. discard_private-Keeps platform_id)

  pub handle_grant-Keeps :
      (caller : Caller) (platform_id app_id : String) (now : Time)
      → Keeps P (handle_grant caller platform_id app_id now)
  unfolding handle_grant
  handle_grant-Keeps caller platform_id app_id now =
      Keeps.attempt-Keeps P (app_by_id app_id) _ _
        (Keeps.read-Keeps P (app_by_id app_id) (app_by_id-IsReadOnly app_id)) (λ e w p. p)
        (λ a.
          Keeps.if-Keeps P (a.visibility == "private") _ _
            (decide_access-Keeps caller (grant app_id platform_id (actor caller) now) platform_id
              app_id "appstore.app_granted" "could not grant the app" true
              (grant-Keeps app_id platform_id (actor caller) now))
            (λ w p. p))

  pub handle_revoke-Keeps :
      (caller : Caller) (platform_id app_id : String)
      → Keeps P (handle_revoke caller platform_id app_id)
  unfolding handle_revoke
  handle_revoke-Keeps caller platform_id app_id =
      decide_access-Keeps caller (revoke app_id platform_id) platform_id app_id
        "appstore.app_revoked" "could not revoke the app" false (revoke-Keeps app_id platform_id)

  -- Publishers and apps.
  pub upsert_publisher-Keeps :
      (p : Profile) (id : String) (now : Time) → Keeps P (upsert_publisher p id now)
  unfolding upsert_publisher upsert_profile
  upsert_publisher-Keeps p id now =
      Keeps.bind-Keeps P (statement (upsert_profile p id now)) publisher_by_id
        (Keeps.statement-Keeps P (upsert_profile p id now) (λ db s db' q h.
          let e : (upsert_found p id now db (first (of_tenant p.tenant_id) db.publishers)).1 ≡ db' =
            ground arith in
          subst P e (found db (first (of_tenant p.tenant_id) db.publishers) q)))
        (λ s. Keeps.read-Keeps P (publisher_by_id s) (publisher_by_id-IsReadOnly s))
    where
      found : (db : Database) (old : Option Publisher) → P db → P (upsert_found p id now db old).1
      found db none q = frame db _ refl refl q
      found db (some row) q = frame db _ refl refl q

  pub set_publisher_verified-Keeps :
      (id : String) (on : Bool) (actor : String) (now : Time)
      → Keeps P (set_publisher_verified id on actor now)
  unfolding set_publisher_verified update_verified
  set_publisher_verified-Keeps id on actor now =
      Keeps.statement-Keeps P (update_verified id on actor now)
        (λ db x db' p h. frame db db' (ground arith) (ground arith) p)

  save_texts-Keeps :
      (app_id : String) (texts : List (String × AppText)) → Keeps P (save_texts app_id texts)
  unfolding save_texts
  save_texts-Keeps app_id [] = Keeps.pure-Keeps P tt
  save_texts-Keeps app_id ((locale, text) ∷ rest) =
      Keeps.bind-Keeps P _ _ (Keeps.execute-Keeps P _ (λ db p. frame db _ refl refl p))
        (λ u. save_texts-Keeps app_id rest)

  pub upsert_app-Keeps :
      (a : App) (texts : List (String × AppText)) (now : Time) → Keeps P (upsert_app k a texts now)
  unfolding upsert_app upsert_body upsert_row bump_revision
  upsert_app-Keeps a texts now = Keeps.transaction-Keeps P (upsert_body k a texts now) (
      Keeps.bind-Keeps P _ _ (Keeps.query-Keeps P _) (λ owner.
        Keeps.bind-Keeps P _ _ (unless (owned_by_other a.publisher_id owner)) (λ u.
          Keeps.bind-Keeps P _ _
            (Keeps.statement-Keeps P (upsert_row k a now)
              (λ db x db' p h. frame db db' (ground arith) (ground arith) p))
            (λ v.
              Keeps.bind-Keeps P _ _ (save_texts-Keeps a.id texts)
                (λ x. Keeps.execute-Keeps P _ (λ db p. frame db _ refl refl p))))))
    where
      unless : (b : Bool) → Keeps P (refuse_other b)
      unless true = Keeps.raise-Keeps P (Unit {0}) Error.conflict
      unless false = Keeps.pure-Keeps P tt
