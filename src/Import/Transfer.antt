-- ===== src/Import/Transfer.antt =====
-- run and copyRows of cmd/appstore-import/main.go.
use appstore_gerege_nexus.Prelude.{
  ℕ, ◌+◌, String, Bool, true, false, not, List, [], ◌∷◌, ◌++◌, Option, none, some, any, amend,
  if◌then◌else◌, ◌==◌, ◌&&◌, ◌||◌,
}
use Prim.Native.String
use appstore_gerege_nexus.Tables.{Time, Publisher, ExternalRegistration}
use appstore_gerege_nexus.World.{Error, failure, Result, ok, err}
use appstore_gerege_nexus.Import.Session.{
  Target, Run, AppCopy, VersionCopy, TextCopy, EventCopy, statement, pure, raise, ◌>>=◌,
  in_transaction,
}
use appstore_gerege_nexus.Import.Accounts.{
  Core, ensure_tenant, ensure_user, ensure_admin_membership,
}

-- A row of the source's publishers.
pub record SourcePublisher : Type 0 where
  pub id : String
  pub slug : String
  pub name : String
  pub email : String
  pub verified : Bool
  pub owner_email : String
  pub owner_slug : String

-- What a query on the source answers: its rows, in order, and the error that ends them, if any.
pub record Cursor (A : Type 0) : Type 0 where
  pub rows : List A
  pub failed : Option Error

pub record Source : Type 0 where
  pub publishers : Cursor SourcePublisher
  pub apps : Cursor AppCopy
  pub versions : Cursor VersionCopy
  pub texts : Cursor TextCopy
  pub externals : Cursor ExternalRegistration
  pub events : Cursor EventCopy

pub record Report : Type 0 where
  pub publishers : ℕ
  pub tenants : ℕ
  pub users : ℕ
  pub memberships : ℕ
  pub apps : ℕ
  pub versions : ℕ
  pub texts : ℕ
  pub externals : ℕ
  pub events : ℕ
  pub skipped : List String

abbrev pub empty_report : Report
empty_report = record {
  publishers = 0;
  tenants = 0;
  users = 0;
  memberships = 0;
  apps = 0;
  versions = 0;
  texts = 0;
  externals = 0;
  events = 0;
  skipped = [];
}

abbrev pub counted : Bool → ℕ → ℕ
counted true n = n + 1
counted false n = n

abbrev pub at_end : Option Error → ℕ → Run ℕ
at_end none written = pure written
at_end (some e) written = raise e

module _ {A : Type 0} where
  unfoldable pub copy_each :
      (A → Target → Result (Unit {0} × Target)) → List A → Option Error → ℕ → Run ℕ
  copy_each write [] failed written = at_end failed written
  copy_each write (x ∷ xs) failed written =
      statement (write x) >>= λ _. copy_each write xs failed (written + 1)

  -- copyRows; the columns of a row are those of its query.
  unfoldable pub copy_rows : (A → Target → Result (Unit {0} × Target)) → Cursor A → Run ℕ
  unfolding copy_each
  copy_rows write source = copy_each write source.rows source.failed 0

  -- The publishers' query, which is read to its end before anything is written.
  unfoldable pub read_all : Cursor A → Run (List A)
  read_all source = elim source.failed [ none ↦ pure source.rows | some e ↦ raise e ]

  -- INSERT … ON CONFLICT DO NOTHING
  unfoldable pub put_new : (A → A → Bool) → A → List A → List A
  put_new same x xs = if any (same x) xs then xs else xs ++ x ∷ []

abbrev pub same_app : AppCopy → AppCopy → Bool
same_app a b = b.id == a.id

abbrev pub same_version : VersionCopy → VersionCopy → Bool
same_version a b = b.id == a.id

abbrev pub same_text : TextCopy → TextCopy → Bool
same_text a b = b.app_id == a.app_id && b.locale == a.locale

abbrev pub same_external : ExternalRegistration → ExternalRegistration → Bool
same_external a b = b.app_id == a.app_id

abbrev pub same_event : EventCopy → EventCopy → Bool
same_event a b = b.id == a.id

abbrev pub write_app : AppCopy → Target → Result (Unit {0} × Target)
write_app a t = ok (tt, record t { apps = put_new same_app a t.apps })

abbrev pub write_version : VersionCopy → Target → Result (Unit {0} × Target)
write_version v t = ok (tt, record t { versions = put_new same_version v t.versions })

abbrev pub write_text : TextCopy → Target → Result (Unit {0} × Target)
write_text x t = ok (tt, record t { texts = put_new same_text x t.texts })

abbrev pub write_external : ExternalRegistration → Target → Result (Unit {0} × Target)
write_external e t = ok (tt, record t { externals = put_new same_external e t.externals })

abbrev pub write_event : EventCopy → Target → Result (Unit {0} × Target)
write_event e t = ok (tt, record t { events = put_new same_event e t.events })

abbrev pub bump : Target → Result (Unit {0} × Target)
bump t = ok (tt, record t { revision = t.revision + 1 })

abbrev pub imported_publisher : SourcePublisher → String → Time → Publisher
imported_publisher p tenant_id now = record {
  id = p.id;
  tenant_id = tenant_id;
  slug = p.slug;
  name = p.name;
  contact_email = p.email;
  verified = p.verified;
  verified_at = none;
  verified_by = none;
  created_at = now;
  updated_at = now;
}

abbrev pub overwritten : SourcePublisher → String → Time → Publisher → Publisher
overwritten p tenant_id now row = record row {
  tenant_id = tenant_id;
  slug = p.slug;
  name = p.name;
  contact_email = p.email;
  verified = p.verified;
  updated_at = now;
}

-- INSERT INTO store_publishers … ON CONFLICT (id) DO UPDATE; a tenant, and a slug, are of one row.
unfoldable pub write_publisher :
    SourcePublisher → String → Time → Target → Result (Unit {0} × Target)
write_publisher p tenant_id now t =
    if any (λ q. not (q.id == p.id) && (q.tenant_id == tenant_id || q.slug == p.slug)) t.publishers
    then err (failure "unique")
    else if any (λ q. q.id == p.id) t.publishers
    then ok (
      tt,
      record t {
        publishers = amend (λ q. q.id == p.id) (overwritten p tenant_id now) t.publishers;
      },
    )
    else ok (tt, record t { publishers = t.publishers ++ imported_publisher p tenant_id now ∷ [] })

abbrev pub with_note : Core → SourcePublisher → Report → Report
with_note core p r = record r {
  skipped =
      r.skipped
      ++ String.◌++◌ "publisher "
          (String.◌++◌ (core.quote p.slug) " has no owner e-mail; it arrives with no member")
        ∷ [];
}

abbrev pub with_owner : (made_user made : Bool) → Report → Report
with_owner made_user made r = record r {
  users = counted made_user r.users;
  memberships = counted made r.memberships;
}

abbrev pub with_copies : (apps versions texts externals events : ℕ) → Report → Report
with_copies apps versions texts externals events r = record r {
  apps = apps;
  versions = versions;
  texts = texts;
  externals = externals;
  events = events;
}

module _ (core : Core) (now : Time) where
  -- The owner's account and membership, or the note that there is none.
  unfoldable pub import_owner : SourcePublisher → String → Report → Run Report
  unfolding ensure_user ensure_admin_membership
  import_owner p tenant_id r =
      if p.owner_email == ""
      then pure (with_note core p r)
      else (ensure_user core p.owner_email p.name >>= λ account.
          let (user_id, made_user) = account in
          ensure_admin_membership core tenant_id user_id >>= λ made.
          pure (with_owner made_user made r))

  -- One turn of the loop over the publishers.
  unfoldable pub import_publisher : SourcePublisher → Report → Run Report
  unfolding ensure_tenant import_owner write_publisher
  import_publisher p r = ensure_tenant core p.slug p.owner_slug p.name >>= λ found.
      let (tenant_id, made) = found in
      import_owner p tenant_id (record r { tenants = counted made r.tenants }) >>= λ r'.
      statement (write_publisher p tenant_id now) >>= λ _.
      pure (record r' { publishers = r'.publishers + 1 })

  unfoldable pub import_publishers : List SourcePublisher → Report → Run Report
  unfolding import_publisher
  import_publishers [] r = pure r
  import_publishers (p ∷ ps) r = import_publisher p r >>= import_publishers ps

  -- The straight copies.
  unfoldable pub copy_tables : Source → Report → Run Report
  unfolding copy_rows
  copy_tables source r = copy_rows write_app source.apps >>= λ apps.
      copy_rows write_version source.versions >>= λ versions.
      copy_rows write_text source.texts >>= λ texts.
      copy_rows write_external source.externals >>= λ externals.
      copy_rows write_event source.events >>= λ events.
      pure (with_copies apps versions texts externals events r)

  unfoldable pub import_all : Source → Run Report
  unfolding read_all import_publishers copy_tables
  import_all source = read_all source.publishers >>= λ list.
      import_publishers list empty_report >>= λ r.
      copy_tables source r >>= λ r'. statement bump >>= λ _. pure r'

  -- run
  unfoldable pub run : Source → (dry_run : Bool) → Run Report
  unfolding import_all in_transaction
  run source dry_run = in_transaction dry_run (import_all source)
