-- ===== src/Review/Reasons.antt =====
-- The decisions that modules/review/review.go records.
use appstore_gerege_nexus.Prelude.{
  ℕ, String, Option, none, some, ◌≡◌, ◌≢◌, refl, ap, ◌⊎◌, inl, inr, ◌==◌, eq_iff, Bool-cases, subst,
}
use appstore_gerege_nexus.Text.{trim_space}
use appstore_gerege_nexus.Tables.{Time, Database}
use appstore_gerege_nexus.Contract.{Contract}
use appstore_gerege_nexus.World.{
  Error, not_found, conflict, invalid_submission, failure, World, Caller, Claims, Reply, json,
  require_tenant, require_user,
}
use appstore_gerege_nexus.World.Laws.{attempt_cases}
use appstore_gerege_nexus.Registry.Decisions.{decide_version}
use appstore_gerege_nexus.Registry.Decisions.Recorded.{Decided}
use appstore_gerege_nexus.Registry.Decisions.Effects.{decide_version-Decided}
use appstore_gerege_nexus.Review.{
  DecisionBody, known_action, decision_failed, record_decision, checked_decision, handle_decision,
}

decision_failed-ne : {A : Type 0} (e : Error) (n : ℕ) (x : A) → decision_failed e ≢ json n x
decision_failed-ne not_found n x = cc
decision_failed-ne conflict n x = cc
decision_failed-ne (invalid_submission s) n x = cc
decision_failed-ne (failure s) n x = cc

-- A decision with who took it, and the reason that it gives.
pub record Recorded (caller : Caller) (id : String) (body : DecisionBody) (now : Time)
    (db db' : Database) : Type 0 where
  pub claims : Claims
  pub caller_is : caller.claims ≡ some claims
  pub decided : Decided id body.action claims.user_id claims.email (trim_space body.note) now db db'
  pub reason : (body.action ≡ "publish") ⊎ (trim_space body.note ≢ "")

module _ (k : Contract) where
  record_decision_ok :
      (tenant id : String) (claims : Claims) (body : DecisionBody) (now : Time) (w : World)
      {x : String} {w' : World}
      → record_decision k tenant claims id body now w ≡ (json 200 x, w')
      → Decided id body.action claims.user_id claims.email (trim_space body.note) now w.db w'.db
  record_decision_ok tenant id claims body now w {x} {w'} h =
      elim (attempt_cases
        (decide_version k id body.action claims.user_id claims.email (trim_space body.note) now) _ _
        w h) [
          | inl (u, v, ran, rest) ↦
              subst
                (Decided id body.action claims.user_id claims.email (trim_space body.note) now w.db)
                (ap (λ (q : Reply String × World). q.1.db) rest)
                (decide_version-Decided k id body.action claims.user_id claims.email
                  (trim_space body.note) now w ran).0
          | inr (e, v, ran, rest) ↦
              absurd (decision_failed-ne e 200 x (ap (λ (q : Reply String × World). q.0) rest))
        ]

  checked_decision_ok :
      (tenant id : String) (claims : Claims) (body : DecisionBody) (now : Time) (w : World)
      {x : String} {w' : World}
      → checked_decision k tenant claims id (some body) now w ≡ (json 200 x, w')
      → Decided id body.action claims.user_id claims.email (trim_space body.note) now w.db w'.db
        × ((body.action ≡ "publish") ⊎ (trim_space body.note ≢ ""))
  checked_decision_ok tenant id claims body now w {x} {w'} h =
      elim (Bool-cases (known_action body.action)) [
        | inr f ↦ absurd (cc (ap (λ (q : Reply String × World). q.0) (rw f at h)))
        | inl t ↦
            let h' = rw t at h in
            elim (Bool-cases (body.action == "publish")) [
              | inl p ↦ (
                record_decision_ok tenant id claims body now w (rw p at h'),
                inl ((eq_iff _ _).0 p),
              )
              | inr p ↦
                  let h'' = rw p at h' in
                  elim (Bool-cases (trim_space body.note == "")) [
                    | inl blank ↦
                        absurd (cc (ap (λ (q : Reply String × World). q.0) (rw blank at h'')))
                    | inr given ↦ (
                      record_decision_ok tenant id claims body now w (rw given at h''),
                      inr (λ e. cc (given, (eq_iff (trim_space body.note) "").1 e)),
                    )
                  ]
            ]
      ]

  -- A review that is answered with 200 has been recorded in full, in the name of the user who made
  -- it; and a version that was rejected or withdrawn carries a reason that is not blank.
  pub handle_decision-Recorded :
      (caller : Caller) (id : String) (body : DecisionBody) (now : Time) (w : World) {x : String}
      {w' : World}
      → handle_decision k caller id (some body) now w ≡ (json 200 x, w')
      → Recorded caller id body now w.db w'.db
  unfolding handle_decision
  handle_decision-Recorded caller id body now w {x} {w'} h = by_tenant caller.tenant h
    where
      by_claims :
          (tenant : String) (c : Option Claims)
          → caller.claims ≡ c
          → require_user
              (record caller { claims = c })
              (λ claims. checked_decision k tenant claims id (some body) now)
              w
            ≡ (json 200 x, w')
          → Recorded caller id body now w.db w'.db
      by_claims tenant none e h = cc
      by_claims tenant (some claims) e h =
          let (done, why) = checked_decision_ok tenant id claims body now w h in
          record { claims = claims; caller_is = e; decided = done; reason = why }

      by_tenant :
          (t : Option String)
          → require_tenant
              (record caller { tenant = t })
              (λ tenant.
                require_user caller λ claims. checked_decision k tenant claims id (some body) now)
              w
            ≡ (json 200 x, w')
          → Recorded caller id body now w.db w'.db
      by_tenant none h = cc
      by_tenant (some tenant) h = by_claims tenant caller.claims refl h
