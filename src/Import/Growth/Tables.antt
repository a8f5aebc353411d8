-- ===== src/Import/Growth/Tables.antt =====
-- Growth, table by table.
use appstore_gerege_nexus.Prelude.{ℕ, List, ◌≡◌, refl, In}
use appstore_gerege_nexus.Prelude.Appending.{Prefix, Prefix-refl}
use appstore_gerege_nexus.Tables.{Publisher, ExternalRegistration}
use appstore_gerege_nexus.Import.Session.{
  Tenant, User, Membership, MembershipRole, Target, AppCopy, VersionCopy, TextCopy, EventCopy,
}
use appstore_gerege_nexus.Import.Growth.{Grows}

-- Growth of one table, the others as they were.
module _ (t : Target) where
  pub Grows-tenants : (xs : List Tenant) → Prefix t.tenants xs → Grows t (record t { tenants = xs })
  Grows-tenants xs p = record {
    tenants = p;
    users = Prefix-refl t.users;
    memberships = Prefix-refl t.memberships;
    membership_roles = Prefix-refl t.membership_roles;
    apps = Prefix-refl t.apps;
    versions = Prefix-refl t.versions;
    texts = Prefix-refl t.texts;
    externals = Prefix-refl t.externals;
    events = Prefix-refl t.events;
    publishers = λ q i. (q, i, refl, refl);
  }

  pub Grows-users : (xs : List User) → Prefix t.users xs → Grows t (record t { users = xs })
  Grows-users xs p = record {
    tenants = Prefix-refl t.tenants;
    users = p;
    memberships = Prefix-refl t.memberships;
    membership_roles = Prefix-refl t.membership_roles;
    apps = Prefix-refl t.apps;
    versions = Prefix-refl t.versions;
    texts = Prefix-refl t.texts;
    externals = Prefix-refl t.externals;
    events = Prefix-refl t.events;
    publishers = λ q i. (q, i, refl, refl);
  }

  pub Grows-memberships :
      (xs : List Membership) → Prefix t.memberships xs → Grows t (record t { memberships = xs })
  Grows-memberships xs p = record {
    tenants = Prefix-refl t.tenants;
    users = Prefix-refl t.users;
    memberships = p;
    membership_roles = Prefix-refl t.membership_roles;
    apps = Prefix-refl t.apps;
    versions = Prefix-refl t.versions;
    texts = Prefix-refl t.texts;
    externals = Prefix-refl t.externals;
    events = Prefix-refl t.events;
    publishers = λ q i. (q, i, refl, refl);
  }

  pub Grows-membership_roles :
      (xs : List MembershipRole)
      → Prefix t.membership_roles xs
      → Grows t (record t { membership_roles = xs })
  Grows-membership_roles xs p = record {
    tenants = Prefix-refl t.tenants;
    users = Prefix-refl t.users;
    memberships = Prefix-refl t.memberships;
    membership_roles = p;
    apps = Prefix-refl t.apps;
    versions = Prefix-refl t.versions;
    texts = Prefix-refl t.texts;
    externals = Prefix-refl t.externals;
    events = Prefix-refl t.events;
    publishers = λ q i. (q, i, refl, refl);
  }

  pub Grows-apps : (xs : List AppCopy) → Prefix t.apps xs → Grows t (record t { apps = xs })
  Grows-apps xs p = record {
    tenants = Prefix-refl t.tenants;
    users = Prefix-refl t.users;
    memberships = Prefix-refl t.memberships;
    membership_roles = Prefix-refl t.membership_roles;
    apps = p;
    versions = Prefix-refl t.versions;
    texts = Prefix-refl t.texts;
    externals = Prefix-refl t.externals;
    events = Prefix-refl t.events;
    publishers = λ q i. (q, i, refl, refl);
  }

  pub Grows-versions :
      (xs : List VersionCopy) → Prefix t.versions xs → Grows t (record t { versions = xs })
  Grows-versions xs p = record {
    tenants = Prefix-refl t.tenants;
    users = Prefix-refl t.users;
    memberships = Prefix-refl t.memberships;
    membership_roles = Prefix-refl t.membership_roles;
    apps = Prefix-refl t.apps;
    versions = p;
    texts = Prefix-refl t.texts;
    externals = Prefix-refl t.externals;
    events = Prefix-refl t.events;
    publishers = λ q i. (q, i, refl, refl);
  }

  pub Grows-texts : (xs : List TextCopy) → Prefix t.texts xs → Grows t (record t { texts = xs })
  Grows-texts xs p = record {
    tenants = Prefix-refl t.tenants;
    users = Prefix-refl t.users;
    memberships = Prefix-refl t.memberships;
    membership_roles = Prefix-refl t.membership_roles;
    apps = Prefix-refl t.apps;
    versions = Prefix-refl t.versions;
    texts = p;
    externals = Prefix-refl t.externals;
    events = Prefix-refl t.events;
    publishers = λ q i. (q, i, refl, refl);
  }

  pub Grows-externals :
      (xs : List ExternalRegistration)
      → Prefix t.externals xs
      → Grows t (record t { externals = xs })
  Grows-externals xs p = record {
    tenants = Prefix-refl t.tenants;
    users = Prefix-refl t.users;
    memberships = Prefix-refl t.memberships;
    membership_roles = Prefix-refl t.membership_roles;
    apps = Prefix-refl t.apps;
    versions = Prefix-refl t.versions;
    texts = Prefix-refl t.texts;
    externals = p;
    events = Prefix-refl t.events;
    publishers = λ q i. (q, i, refl, refl);
  }

  pub Grows-events : (xs : List EventCopy) → Prefix t.events xs → Grows t (record t { events = xs })
  Grows-events xs p = record {
    tenants = Prefix-refl t.tenants;
    users = Prefix-refl t.users;
    memberships = Prefix-refl t.memberships;
    membership_roles = Prefix-refl t.membership_roles;
    apps = Prefix-refl t.apps;
    versions = Prefix-refl t.versions;
    texts = Prefix-refl t.texts;
    externals = Prefix-refl t.externals;
    events = p;
    publishers = λ q i. (q, i, refl, refl);
  }

  pub Grows-publishers :
      (xs : List Publisher)
      → ((p : Publisher)
          → In p t.publishers
          → (p' : Publisher) × In p' xs × (p'.id ≡ p.id) × (p'.created_at ≡ p.created_at))
      → Grows t (record t { publishers = xs })
  Grows-publishers xs still = record {
    tenants = Prefix-refl t.tenants;
    users = Prefix-refl t.users;
    memberships = Prefix-refl t.memberships;
    membership_roles = Prefix-refl t.membership_roles;
    apps = Prefix-refl t.apps;
    versions = Prefix-refl t.versions;
    texts = Prefix-refl t.texts;
    externals = Prefix-refl t.externals;
    events = Prefix-refl t.events;
    publishers = still;
  }

  pub Grows-revision : (n : ℕ) → Grows t (record t { revision = n })
  Grows-revision n = record {
    tenants = Prefix-refl t.tenants;
    users = Prefix-refl t.users;
    memberships = Prefix-refl t.memberships;
    membership_roles = Prefix-refl t.membership_roles;
    apps = Prefix-refl t.apps;
    versions = Prefix-refl t.versions;
    texts = Prefix-refl t.texts;
    externals = Prefix-refl t.externals;
    events = Prefix-refl t.events;
    publishers = λ q i. (q, i, refl, refl);
  }
