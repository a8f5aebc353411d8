-- ===== src/World/Keeps.antt =====
-- What every run of an action keeps, whatever it answers: closure under the ways that the code
-- puts actions together. The predicate is one on the tables.
use appstore_gerege_nexus.Prelude.{
  String, Bool, true, false, if◌then◌else◌, Option, none, some, ◌≡◌, refl, sym, ap, subst, inl, inr,
}
use appstore_gerege_nexus.Tables.{Database}
use appstore_gerege_nexus.World.{
  Error, Result, ok, err, World, Exec, statement, query, execute, pure, raise, lift, defer_to,
  ignore, continue, ◌>>=◌, transaction, Handler, branch, attempt, Caller, Claims, require_tenant,
  require_user,
}
use appstore_gerege_nexus.World.Laws.{
  statement_ok, statement_err, execute_either, outcome, transaction_ok, transaction_err,
}
use appstore_gerege_nexus.World.Reads.{IsReadOnly, query-IsReadOnly}

-- Every run keeps it.
abbrev pub Keeps : (Database → Type 0) → {X : Type 0} → (World → X × World) → Type 0
Keeps P m = (w : World) → P w.db → P (m w).1.db

module _ (P : Database → Type 0) where
  module _ {A : Type 0} where
    pub statement-Keeps :
        (f : Database → Result (A × Database))
        → ((db : Database) (a : A) (db' : Database) → P db → f db ≡ ok (a, db') → P db')
        → Keeps P (statement f)
    statement-Keeps f keeps w p = elim (outcome (statement f) w) [
      | inl (a, h) ↦ keeps w.db a (statement f w).1.db p (statement_ok f w h).0
      | inr (e, h) ↦ subst P (sym (statement_err f w h).0) p
    ]

    pub query-Keeps : (f : Database → A) → Keeps P (query f)
    query-Keeps f w p = subst P (sym (query-IsReadOnly f w)) p

    pub read-Keeps : (m : Exec A) → IsReadOnly m → Keeps P m
    read-Keeps m reads w p = subst P (sym (reads w)) p

    pub pure-Keeps : (a : A) → Keeps P (pure a)
    unfolding pure
    pure-Keeps a w p = p

    pub lift-Keeps : (r : Result A) → Keeps P (lift r)
    unfolding lift
    lift-Keeps r w p = p

    pub ignore-Keeps : (m : Exec A) → Keeps P m → Keeps P (ignore m)
    unfolding ignore
    ignore-Keeps m keeps w p = keeps w p

    pub transaction-Keeps : (body : Exec A) → Keeps P body → Keeps P (transaction body)
    transaction-Keeps body keeps w p = elim (outcome (transaction body) w) [
      | inl (a, h) ↦
          let (v, v', d, _, ran, d', _) = transaction_ok body w h in
          subst P (sym d')
            (subst P (ap (λ (r : Result A × World). r.1.db) ran) (keeps v (subst P (sym d) p)))
      | inr (e, h) ↦ subst P (sym (transaction_err body w h)) p
    ]

  pub raise-Keeps : (A : Type 0) (e : Error) → Keeps P (raise {A = A} e)
  unfolding raise
  raise-Keeps A e w p = p

  pub execute-Keeps :
      (f : Database → Database) → ((db : Database) → P db → P (f db)) → Keeps P (execute f)
  execute-Keeps f keeps w p = elim (execute_either f w) [
    | inl e ↦ subst P (sym e) (keeps w.db p)
    | inr e ↦ subst P (sym e) p
  ]

  module _ {A B : Type 0} where
    continue-Keeps :
        (r : Result A) (f : A → Exec B) → ((a : A) → Keeps P (f a)) → Keeps P (continue r f)
    continue-Keeps (ok a) f keeps w p = keeps a w p
    continue-Keeps (err e) f keeps w p = p

    pub bind-Keeps :
        (m : Exec A) (f : A → Exec B) → Keeps P m → ((a : A) → Keeps P (f a)) → Keeps P (m >>= f)
    unfolding ◌>>=◌
    bind-Keeps m f keeps next w p = continue-Keeps (m w).0 f next (m w).1 (keeps w p)

    pub defer_to-Keeps :
        (m : Exec A) (after : Exec B) → Keeps P m → Keeps P after → Keeps P (defer_to m after)
    unfolding defer_to
    defer_to-Keeps m after keeps keeps' w p = keeps' (m w).1 (keeps w p)

    branch-Keeps :
        (r : Result A) (bad : Error → Handler B) (good : A → Handler B)
        → ((e : Error) → Keeps P (bad e))
        → ((a : A) → Keeps P (good a))
        → Keeps P (branch r bad good)
    branch-Keeps (ok a) bad good keeps keeps' w p = keeps' a w p
    branch-Keeps (err e) bad good keeps keeps' w p = keeps e w p

    pub attempt-Keeps :
        (m : Exec A) (bad : Error → Handler B) (good : A → Handler B)
        → Keeps P m
        → ((e : Error) → Keeps P (bad e))
        → ((a : A) → Keeps P (good a))
        → Keeps P (attempt m bad good)
    unfolding attempt
    attempt-Keeps m bad good keeps failed done w p =
        branch-Keeps (m w).0 bad good failed done (m w).1 (keeps w p)

    branch_split :
        (r : Result A) (bad : Error → Handler B) (good : A → Handler B) (w : World)
        → ((e : Error) → r ≡ err e → P (bad e w).1.db)
        → ((a : A) → r ≡ ok a → P (good a w).1.db)
        → P (branch r bad good w).1.db
    branch_split (ok a) bad good w failed done = done a refl
    branch_split (err e) bad good w failed done = failed e refl

    -- One run, by what the action answered and where it left the world.
    pub attempt_split :
        (m : Exec A) (bad : Error → Handler B) (good : A → Handler B) (w : World)
        → ((e : Error) (v : World) → m w ≡ (err e, v) → P (bad e v).1.db)
        → ((a : A) (v : World) → m w ≡ (ok a, v) → P (good a v).1.db)
        → P (attempt m bad good w).1.db
    unfolding attempt
    attempt_split m bad good w failed done =
        branch_split (m w).0 bad good (m w).1 (λ e r. failed e (m w).1 (λ i. (r i, (m w).1)))
          (λ a r. done a (m w).1 (λ i. (r i, (m w).1)))

    -- The same where the action itself keeps the predicate.
    pub attempt_run :
        (m : Exec A) (bad : Error → Handler B) (good : A → Handler B) (w : World)
        → P (m w).1.db
        → ((e : Error) → Keeps P (bad e))
        → ((a : A) (v : World) → m w ≡ (ok a, v) → P v.db → P (good a v).1.db)
        → P (attempt m bad good w).1.db
    attempt_run m bad good w p failed done =
        attempt_split m bad good w
          (λ e v h. failed e v (subst P (ap (λ (r : Result A × World). r.1.db) h) p))
          (λ a v h. done a v h (subst P (ap (λ (r : Result A × World). r.1.db) h) p))

  module _ {A : Type 0} where
    pub require_tenant-Keeps :
        (caller : Caller) (next : String → Handler A)
        → ((tenant : String) → Keeps P (next tenant))
        → Keeps P (require_tenant caller next)
    require_tenant-Keeps caller next keeps w p = by_tenant caller.tenant
      where
        by_tenant :
            (t : Option String) → P (require_tenant (record caller { tenant = t }) next w).1.db
        by_tenant none = p
        by_tenant (some t) = keeps t w p

    pub require_user-Keeps :
        (caller : Caller) (next : Claims → Handler A)
        → ((claims : Claims) → Keeps P (next claims))
        → Keeps P (require_user caller next)
    require_user-Keeps caller next keeps w p = by_claims caller.claims
      where
        by_claims :
            (c : Option Claims) → P (require_user (record caller { claims = c }) next w).1.db
        by_claims none = p
        by_claims (some c) = keeps c w p

  -- An answer that is chosen by a test.
  pub if-Keeps :
      {X : Type 0} (b : Bool) (m n : World → X × World)
      → Keeps P m
      → Keeps P n
      → Keeps P (if b then m else n)
  if-Keeps true m n keeps keeps' = keeps
  if-Keeps false m n keeps keeps' = keeps'
