-- ===== src/Examples/Imports.antt =====
-- The import of a registry with one publisher and one app, twice.
use appstore_gerege_nexus.Prelude.{true, false, [], ◌∷◌, none, ◌≡◌, refl}
use appstore_gerege_nexus.World.{Error, ok, err}
use appstore_gerege_nexus.Import.Session.{Target, Session, AppCopy}
use appstore_gerege_nexus.Import.Accounts.{Core}
use appstore_gerege_nexus.Import.Transfer.{SourcePublisher, Cursor, Source, Report, run}
use appstore_gerege_nexus.Import.Growth.{Grows}
use appstore_gerege_nexus.Import.Outcome.{run_unwritten, run_rehearsed, run-Grows}
use appstore_gerege_nexus.Import.Brought.{Brought}
use appstore_gerege_nexus.Import.Landing.{Landed}
use appstore_gerege_nexus.Import.Committed.{Imported, Counts, OnlyRevised, run-Imported, run_twice}

abbrev core : Core
core = record {
  made = λ n. "id";
  db_lower = λ s. s;
  lower = λ c. c;
  quote = λ s. s;
  admin_roles = λ tenant_id. "admin" ∷ [];
}

abbrev acme : SourcePublisher
acme = record {
  id = "p1";
  slug = "acme";
  name = "Acme";
  email = "";
  verified = true;
  owner_email = "a@b";
  owner_slug = "";
}

abbrev old_app : AppCopy
old_app = record {
  id = "open";
  publisher_id = "p1";
  slug = "open";
  app_type = "module";
  name = "Open";
  description = "";
  icon_url = "";
  category = "General";
  visibility = "public";
  created_at = 1;
  updated_at = 1;
}

abbrev old_registry : Source
old_registry = record {
  publishers = record { rows = acme ∷ []; failed = none };
  apps = record { rows = old_app ∷ []; failed = none };
  versions = record { rows = []; failed = none };
  texts = record { rows = []; failed = none };
  externals = record { rows = []; failed = none };
  events = record { rows = []; failed = none };
}

abbrev empty_target : Target
empty_target = record {
  tenants = [];
  users = [];
  memberships = [];
  membership_roles = [];
  publishers = [];
  apps = [];
  versions = [];
  texts = [];
  externals = [];
  events = [];
  revision = 1;
}

abbrev fresh : Session
fresh = record { tables = empty_target; refusals = []; aborted = false; minted = 0 }

abbrev once : Session
once = (run core 9 old_registry false fresh).1

abbrev once_report : Report
once_report = record {
  publishers = 1;
  tenants = 1;
  users = 1;
  memberships = 1;
  apps = 1;
  versions = 0;
  texts = 0;
  externals = 0;
  events = 0;
  skipped = [];
}

unfoldable import_code : Unit {0}
unfolding appstore_gerege_nexus.Text.is_space appstore_gerege_nexus.Text.trim_left
    appstore_gerege_nexus.Text.trim_right appstore_gerege_nexus.Text.trim_space
    appstore_gerege_nexus.Text.to_lower appstore_gerege_nexus.Import.Session.statement
    appstore_gerege_nexus.Import.Session.pure appstore_gerege_nexus.Import.Session.raise
    appstore_gerege_nexus.Import.Session.tried appstore_gerege_nexus.Import.Session.◌>>=◌
    appstore_gerege_nexus.Import.Session.next_id appstore_gerege_nexus.Import.Session.in_transaction
    appstore_gerege_nexus.Import.Accounts.look_up appstore_gerege_nexus.Import.Accounts.add_roles
    appstore_gerege_nexus.Import.Accounts.found_or_made
    appstore_gerege_nexus.Import.Accounts.ensure_tenant
    appstore_gerege_nexus.Import.Accounts.ensure_user
    appstore_gerege_nexus.Import.Accounts.ensure_admin_membership
    appstore_gerege_nexus.Import.Transfer.copy_each appstore_gerege_nexus.Import.Transfer.copy_rows
    appstore_gerege_nexus.Import.Transfer.read_all appstore_gerege_nexus.Import.Transfer.put_new
    appstore_gerege_nexus.Import.Transfer.write_publisher
    appstore_gerege_nexus.Import.Transfer.import_owner
    appstore_gerege_nexus.Import.Transfer.import_publisher
    appstore_gerege_nexus.Import.Transfer.import_publishers
    appstore_gerege_nexus.Import.Transfer.copy_tables
    appstore_gerege_nexus.Import.Transfer.import_all appstore_gerege_nexus.Import.Transfer.run
import_code = tt

imports : run core 9 old_registry false fresh ≡ (ok once_report, once)
unfolding import_code
imports = refl

abbrev twice_report : Report
twice_report = record once_report { tenants = 0; users = 0; memberships = 0 }

abbrev twice : Session
twice = (run core 10 old_registry false once).1

imports_again : run core 10 old_registry false once ≡ (ok twice_report, twice)
unfolding import_code
imports_again = refl

run_unwritten_example :
    ((e : Error) (s' : Session)
      → run core 9 old_registry false fresh ≡ (err e, s')
      → s'.tables ≡ empty_target)
    × ((run core 9 old_registry true fresh).1.tables ≡ empty_target)
run_unwritten_example = run_unwritten core 9 old_registry false fresh

run_rehearsed_example : (run core 9 old_registry true fresh).0 ≡ ok once_report
run_rehearsed_example = run_rehearsed core 9 old_registry fresh imports

run-Grows_example : Grows once.tables (run core 10 old_registry false once).1.tables
run-Grows_example = run-Grows core 10 old_registry false once

run-Imported_example :
    Imported core old_registry once.tables
    × Landed core 9 (acme ∷ []) once.tables
    × Brought old_registry empty_target once.tables
    × Counts old_registry once_report
run-Imported_example = run-Imported core (λ email. refl) 9 old_registry fresh imports

run_twice_example :
    OnlyRevised once.tables twice.tables
    × ((twice_report.tenants ≡ 0) × (twice_report.users ≡ 0) × (twice_report.memberships ≡ 0))
run_twice_example =
    run_twice core (λ email. refl) old_registry 9 10 fresh once imports refl imports_again
