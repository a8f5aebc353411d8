-- ===== src/Audits.antt =====
-- What the handlers tell nexus.Audit.
pub mod Store
pub mod Operators
pub mod Tenants
use appstore_gerege_nexus.Prelude.{
  String, Bool, true, false, if◌then◌else◌, List, [], ◌∷◌, ◌++◌, Option, none, some, ◌≡◌, refl, sym,
  ap, ◌∙◌, subst,
}
use appstore_gerege_nexus.World.{
  Error, Result, ok, err, World, Exec, Reply, json, problem, refused, Handler, Audit, Caller,
  Claims, branch, attempt, respond, audit, require_tenant, require_user,
}
use appstore_gerege_nexus.World.Silent.{Silent}
use appstore_gerege_nexus.Registry.Operators.{user_of}

-- An answer with a document is told once, in the name of that user; any other answer is not told.
abbrev pub Tells : String → {A : Type 0} → Reply A → (before after : List Audit) → Type 0
Tells who (json status a) before after =
    (entry : Audit) × (entry.actor ≡ who) × (after ≡ before ++ entry ∷ [])
Tells who (problem status message) before after = after ≡ before
Tells who refused before after = after ≡ before

abbrev pub Audited : String → {A : Type 0} → Handler A → Type 0
Audited who m = (w : World) → Tells who (m w).0 w.audits (m w).1.audits

module _ (who : String) where
  -- What was told before an action that is silent.
  branch-Audited :
      {A B : Type 0} (r : Result A) (bad : Error → Reply B) (good : A → Handler B) (w : World)
      (before : List Audit)
      → w.audits ≡ before
      → ((e : Error) → Tells who (bad e) before before)
      → ((a : A) → Audited who (good a))
      → Tells who
          (branch r (λ e. respond (bad e)) good w).0
          before
          (branch r (λ e. respond (bad e)) good w).1.audits
  branch-Audited (ok a) bad good w before e refusals told =
      subst (λ (b : List Audit). Tells who (good a w).0 b (good a w).1.audits) e (told a w)
  branch-Audited (err x) bad good w before e refusals told =
      subst (Tells who (bad x) before) (sym e) (refusals x)

  pub attempt-Audited :
      {A B : Type 0} (m : Exec A) (bad : Error → Reply B) (good : A → Handler B)
      → Silent m
      → ((e : Error) (before : List Audit) → Tells who (bad e) before before)
      → ((a : A) → Audited who (good a))
      → Audited who (attempt m (λ e. respond (bad e)) good)
  unfolding attempt
  attempt-Audited m bad good silent refusals told w =
      branch-Audited (m w).0 bad good (m w).1 w.audits (silent w) (λ e. refusals e w.audits) told

  pub if-Audited :
      {A : Type 0} (b : Bool) (m n : Handler A)
      → Audited who m
      → Audited who n
      → Audited who (if b then m else n)
  if-Audited true m n told told' = told
  if-Audited false m n told told' = told'

  pub require_tenant-Audited :
      {A : Type 0} (caller : Caller) (next : String → Handler A)
      → ((tenant : String) → Audited who (next tenant))
      → Audited who (require_tenant caller next)
  require_tenant-Audited caller next told w = by_tenant caller.tenant
    where
      by_tenant :
          (t : Option String)
          → Tells who
              (require_tenant (record caller { tenant = t }) next w).0
              w.audits
              (require_tenant (record caller { tenant = t }) next w).1.audits
      by_tenant none = refl
      by_tenant (some t) = told t w

pub require_user-Audited :
    {A : Type 0} (caller : Caller) (next : Claims → Handler A)
    → ((claims : Claims) → Audited claims.user_id (next claims))
    → Audited (user_of caller.claims) (require_user caller next)
require_user-Audited caller next told w = by_claims caller.claims
  where
    by_claims :
        (c : Option Claims)
        → Tells
            (user_of c)
            (require_user (record caller { claims = c }) next w).0
            w.audits
            (require_user (record caller { claims = c }) next w).1.audits
    by_claims none = refl
    by_claims (some c) = told c w
