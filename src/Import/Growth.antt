-- ===== src/Import/Growth.antt =====
-- What the import leaves of the target: rows are added at the end of the tables.
pub mod Tables
use appstore_gerege_nexus.Prelude.{
  ℕ, String, Bool, true, false, List, [], ◌∷◌, ◌++◌, ◌≡◌, refl, sym, ◌∙◌, inl, inr, any,
  if◌then◌else◌, subst, In,
}
use appstore_gerege_nexus.Prelude.Appending.{Prefix, Prefix-refl, Prefix-trans}
use appstore_gerege_nexus.Tables.{Publisher, ExternalRegistration}
use appstore_gerege_nexus.World.{Result, ok}
use appstore_gerege_nexus.Import.Session.{
  Tenant, User, Membership, MembershipRole, Target, Session, Run, AppCopy, VersionCopy, TextCopy,
  EventCopy, statement, pure, ◌>>=◌,
}
use appstore_gerege_nexus.Import.Steps.{Steps, statement-Steps, pure-Steps, bind-Steps}
use appstore_gerege_nexus.Import.Transfer.{put_new}

module _ {A : Type 0} where
  pub Prefix-put_new : (same : A → A → Bool) (x : A) (xs : List A) → Prefix xs (put_new same x xs)
  unfolding put_new
  Prefix-put_new same x xs = by_test (any (same x) xs)
    where
      by_test : (b : Bool) → Prefix xs (if b then xs else xs ++ x ∷ [])
      by_test true = Prefix-refl xs
      by_test false = (x ∷ [], refl)

-- Every row stays; a publisher's row stays with its identifier and the time it was made.
pub record Grows (t t' : Target) : Type 0 where
  pub tenants : Prefix t.tenants t'.tenants
  pub users : Prefix t.users t'.users
  pub memberships : Prefix t.memberships t'.memberships
  pub membership_roles : Prefix t.membership_roles t'.membership_roles
  pub apps : Prefix t.apps t'.apps
  pub versions : Prefix t.versions t'.versions
  pub texts : Prefix t.texts t'.texts
  pub externals : Prefix t.externals t'.externals
  pub events : Prefix t.events t'.events
  pub publishers :
      (p : Publisher)
      → In p t.publishers
      → (p' : Publisher) × In p' t'.publishers × (p'.id ≡ p.id) × (p'.created_at ≡ p.created_at)

pub Grows-refl : (t : Target) → Grows t t
Grows-refl t = record {
  tenants = Prefix-refl t.tenants;
  users = Prefix-refl t.users;
  memberships = Prefix-refl t.memberships;
  membership_roles = Prefix-refl t.membership_roles;
  apps = Prefix-refl t.apps;
  versions = Prefix-refl t.versions;
  texts = Prefix-refl t.texts;
  externals = Prefix-refl t.externals;
  events = Prefix-refl t.events;
  publishers = λ p i. (p, i, refl, refl);
}

pub Grows-trans : (a b c : Target) → Grows a b → Grows b c → Grows a c
Grows-trans a b c g h = record {
  tenants = Prefix-trans _ _ _ g.tenants h.tenants;
  users = Prefix-trans _ _ _ g.users h.users;
  memberships = Prefix-trans _ _ _ g.memberships h.memberships;
  membership_roles = Prefix-trans _ _ _ g.membership_roles h.membership_roles;
  apps = Prefix-trans _ _ _ g.apps h.apps;
  versions = Prefix-trans _ _ _ g.versions h.versions;
  texts = Prefix-trans _ _ _ g.texts h.texts;
  externals = Prefix-trans _ _ _ g.externals h.externals;
  events = Prefix-trans _ _ _ g.events h.events;
  publishers = λ p i.
      let (q, j, e, f) = g.publishers p i in
      let (r, l, e', f') = h.publishers q j in (r, l, e' ∙ e, f' ∙ f);
}

-- Whatever it answers, a run only adds.
abbrev pub Adds : {A : Type 0} → Run A → Type 0
Adds m = Steps Grows Grows-refl Grows-trans m

module _ {A : Type 0} where
  pub statement-Adds :
      (f : Target → Result (A × Target))
      → ((t : Target) (a : A) (t' : Target) → f t ≡ ok (a, t') → Grows t t')
      → Adds (statement f)
  statement-Adds f = statement-Steps Grows Grows-refl Grows-trans f

  pub pure-Adds : (a : A) → Adds (pure a)
  pure-Adds a = pure-Steps Grows Grows-refl Grows-trans a

module _ {A B : Type 0} where
  pub bind-Adds : (m : Run A) (f : A → Run B) → Adds m → ((a : A) → Adds (f a)) → Adds (m >>= f)
  bind-Adds m f = bind-Steps Grows Grows-refl Grows-trans m f
