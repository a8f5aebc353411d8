-- ===== src/Registry/Operators/Revocation.antt =====
-- What taking access back, in modules/registry/platform_handlers.go, means to AudienceFor.
use appstore_gerege_nexus.Prelude.{
  String, Bool, false, not, List, none, some, ◌≡◌, ◌≢◌, sym, ap, ◌∙◌, arith, ◌⊎◌, inl, inr, ◌==◌,
  eq_iff, Bool-cases, keep, amend, In, if◌then◌else◌, subst,
}
use appstore_gerege_nexus.Prelude.Membership.{In-keep, In-amend}
use appstore_gerege_nexus.Tables.{Time, Database, PlatformRow, GrantRow}
use appstore_gerege_nexus.Contract.{Contract}
use appstore_gerege_nexus.World.{
  Error, not_found, conflict, invalid_submission, failure, ok, World, Caller, Reply, json,
}
use appstore_gerege_nexus.World.Laws.{statement_ok, execute_ok, execute_either, attempt_cases}
use appstore_gerege_nexus.Registry.Platforms.{
  Audience, nobody, without_private, delete_grant, update_enabled, set_platform_enabled, revoke,
  discard_private_snapshots, is_grant, audience_for,
}
use appstore_gerege_nexus.Registry.Platforms.Audiences.{Entitled, audience_for-Entitled}
use appstore_gerege_nexus.Registry.Operators.{
  Access, Decision, access_failed, handle_set_platform_enabled, handle_revoke,
}

platforms-without_private :
    (id : String) (db : Database) → (without_private id db).platforms ≡ db.platforms
unfolding without_private
platforms-without_private id db = ground arith

grants-without_private : (id : String) (db : Database) → (without_private id db).grants ≡ db.grants
unfolding without_private
grants-without_private id db = ground arith

-- Dropping cached documents, done or failed, changes no platform and no grant.
pub discard_keeps :
    (id : String) (w : World)
    → ((discard_private_snapshots id w).1.db.platforms ≡ w.db.platforms)
      × ((discard_private_snapshots id w).1.db.grants ≡ w.db.grants)
unfolding discard_private_snapshots
discard_keeps id w = elim (execute_either (without_private id) w) [
  | inl e ↦ (
    ap (λ (d : Database). d.platforms) e ∙ platforms-without_private id w.db,
    ap (λ (d : Database). d.grants) e ∙ grants-without_private id w.db,
  )
  | inr e ↦ (ap (λ (d : Database). d.platforms) e, ap (λ (d : Database). d.grants) e)
]

update_enabled-platforms :
    (id : String) (on : Bool) (now : Time) (db : Database) {u : Unit {0}} {db' : Database}
    → update_enabled id on now db ≡ ok (u, db')
    → db'.platforms
      ≡ amend
          (λ p. p.id == id)
          (λ p. record p { disabled_at = if on then none else some now })
          db.platforms
unfolding update_enabled
update_enabled-platforms id on now db h = ground arith

access_failed-ne : (e : Error) (x : Access) → access_failed e ≢ json 200 x
access_failed-ne not_found x = cc
access_failed-ne conflict x = cc
access_failed-ne (invalid_submission s) x = cc
access_failed-ne (failure s) x = cc

-- After a 200 the platform's rows carry the decision.
pub handle_set_platform_enabled-platforms :
    (caller : Caller) (id : String) (on : Bool) (now : Time) (w : World) {x : Access} {w' : World}
    → handle_set_platform_enabled caller id (some on) now w ≡ (json 200 x, w')
    → w'.db.platforms
      ≡ amend
          (λ p. p.id == id)
          (λ p. record p { disabled_at = if on then none else some now })
          w.db.platforms
unfolding handle_set_platform_enabled set_platform_enabled
handle_set_platform_enabled-platforms caller id on now w {x} {w'} h =
    elim (attempt_cases (set_platform_enabled id on now) _ _ w h) [
      | inl (u, v, set, rest) ↦
          let (updated, _) = statement_ok (update_enabled id on now) w set in
          ap (λ (p : Reply Access × World). p.1.db.platforms) (sym rest)
          ∙ (discard_keeps id v).0
          ∙ update_enabled-platforms id on now w.db updated
      | inr (e, v, set, rest) ↦
          absurd (access_failed-ne e x (ap (λ (p : Reply Access × World). p.0) rest))
    ]

abbrev set_disabled : Time → PlatformRow → PlatformRow
set_disabled now p = record p { disabled_at = some now }

-- A row of the platform, after its credential was revoked, is disabled.
disabled_row :
    (id : String) (now : Time) (p : PlatformRow) (rows : List PlatformRow)
    → In p (amend (λ q. q.id == id) (set_disabled now) rows)
    → p.id ≡ id
    → p.disabled_at ≢ none
disabled_row id now p rows i e active =
    let (row, _, made) = In-amend (λ q. q.id == id) (set_disabled now) p rows i in
    elim (Bool-cases (row.id == id)) [
      | inl t ↦
          let made' : p ≡ set_disabled now row = rw t at made in
          cc (active, ap (λ (q : PlatformRow). q.disabled_at) made')
      | inr f ↦
          let made' : p ≡ row = rw f at made in
          cc (f, (eq_iff row.id id).1 (ap (λ (q : PlatformRow). q.id) (sym made') ∙ e))
    ]

-- Once a platform's credential is revoked, no token at all stands for that platform: a later
-- request is of somebody else, or of nobody.
pub handle_set_platform_enabled-revokes :
    (k : Contract) (caller : Caller) (id : String) (now : Time) (w : World) {x : Access}
    {w' : World}
    → handle_set_platform_enabled caller id (some false) now w ≡ (json 200 x, w')
    → (token : String) (v : World) {a : Audience} {v' : World} → v.db ≡ w'.db
    → audience_for k token v ≡ (ok a, v')
    → (a ≡ nobody) ⊎ (a.platform_id ≢ id)
handle_set_platform_enabled-revokes k caller id now w {x} {w'} h token v same asked =
    elim (audience_for-Entitled k token v asked).0 [
      | inl none' ↦ inl none'
      | inr entitled ↦ inr (not_it entitled)
    ]
  where
    not_it : {a : Audience} → Entitled k token v.db a → a.platform_id ≢ id
    not_it entitled e =
        let rows =
          ap (λ (d : Database). d.platforms) same
          ∙ handle_set_platform_enabled-platforms caller id false now w h in
        disabled_row id now entitled.holder w.db.platforms
          (subst (In entitled.holder) rows entitled.registered) (sym entitled.identity ∙ e)
          entitled.active

handle_revoke-grants :
    (caller : Caller) (platform_id app_id : String) (w : World) {x : Decision} {w' : World}
    → handle_revoke caller platform_id app_id w ≡ (json 200 x, w')
    → w'.db.grants ≡ keep (λ g. not (is_grant app_id platform_id g)) w.db.grants
unfolding handle_revoke revoke delete_grant
handle_revoke-grants caller platform_id app_id w {x} {w'} h =
    elim (attempt_cases (revoke app_id platform_id) _ _ w h) [
      | inl (u, v, deleted, rest) ↦
          ap (λ (p : Reply Decision × World). p.1.db.grants) (sym rest)
          ∙ (discard_keeps platform_id v).1
          ∙ ap (λ (d : Database). d.grants)
              (execute_ok (delete_grant app_id platform_id) w deleted).0
      | inr (e, v, deleted, rest) ↦ cc (ap (λ (p : Reply Decision × World). p.0) rest)
    ]

-- A grant that is left is not the one that was revoked.
kept_grant :
    (app_id platform_id : String) (g : GrantRow) (rows : List GrantRow)
    → In g (keep (λ g. not (is_grant app_id platform_id g)) rows)
    → g.app_id ≡ app_id
    → g.platform_id ≢ platform_id
kept_grant app_id platform_id g rows i e f =
    let (_, t) = In-keep (λ g. not (is_grant app_id platform_id g)) g rows i in
    ground (arith, (eq_iff g.app_id app_id).1 e, (eq_iff g.platform_id platform_id).1 f, t)

-- Once a grant is revoked, a request on behalf of that platform is not offered the app, whichever
-- token it presents.
pub handle_revoke-withdraws :
    (k : Contract) (caller : Caller) (platform_id app_id : String) (w : World) {x : Decision}
    {w' : World}
    → handle_revoke caller platform_id app_id w ≡ (json 200 x, w')
    → (token : String) (v : World) {a : Audience} {v' : World} → v.db ≡ w'.db
    → audience_for k token v ≡ (ok a, v')
    → a.platform_id ≡ platform_id
    → ¬ In app_id a.app_ids
handle_revoke-withdraws k caller platform_id app_id w h token v same asked at m =
    elim (audience_for-Entitled k token v asked).0 [
      | inl none' ↦ subst (λ (a : Audience). In app_id a.app_ids) none' m
      | inr entitled ↦
          let (g, i, e, f) = entitled.grants app_id m in
          let rows =
            ap (λ (d : Database). d.grants) same
            ∙ handle_revoke-grants caller platform_id app_id w h in
          kept_grant app_id platform_id g w.db.grants (subst (In g) rows i) e
            (f ∙ sym entitled.identity ∙ at)
    ]
