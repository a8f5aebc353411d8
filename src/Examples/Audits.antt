-- ===== src/Examples/Audits.antt =====
-- The theorems on what is audited, at the store of the examples.
use appstore_gerege_nexus.Prelude.{false, none, some}
use appstore_gerege_nexus.Registry.Operators.{
  PlatformBody, handle_create_platform, handle_set_platform_enabled, handle_grant, handle_revoke,
}
use appstore_gerege_nexus.Publisher.{
  ProfileBody, VersionBody, handle_save_profile, handle_upsert_app, handle_submit_version,
}
use appstore_gerege_nexus.Review.{DecisionBody, handle_decision, handle_verify_publisher}
use appstore_gerege_nexus.Audits.{Audited}
use appstore_gerege_nexus.Audits.Operators.{operators-Audited}
use appstore_gerege_nexus.Audits.Tenants.{tenants-Audited}
use appstore_gerege_nexus.Examples.{demo, demo_caller}
use appstore_gerege_nexus.Examples.Submissions.{next_manifest}

abbrev nomad : PlatformBody
nomad = record { name = "Nomad"; origin = ""; note = "" }

operators-Audited_example :
    Audited "u1" (handle_create_platform demo demo_caller (some nomad) (some "t0k3n") "nomad" 9)
    × Audited "u1" (handle_set_platform_enabled demo_caller "salus" (some false) 9)
    × Audited "u1" (handle_grant demo_caller "salus" "closed" 9)
    × Audited "u1" (handle_revoke demo_caller "salus" "closed")
operators-Audited_example =
    operators-Audited demo demo_caller (some nomad) (some "t0k3n") "nomad" (some false) "salus"
      "closed" 9

abbrev acme : ProfileBody
acme = record { slug = "acme"; name = "Acme"; contact_email = "" }

abbrev submission : VersionBody
submission = record { channel = ""; manifest = next_manifest }

abbrev publication : DecisionBody
publication = record { action = "publish"; note = "" }

tenants-Audited_example :
    Audited "u1" (handle_save_profile demo demo_caller (some acme) "v4" 9)
    × Audited "u1" (handle_upsert_app demo demo_caller none 9)
    × Audited "u1" (handle_submit_version demo demo_caller "open" (some submission) "v4" 9)
    × Audited "u1" (handle_decision demo demo_caller "v4" (some publication) 9)
    × Audited "u1" (handle_verify_publisher demo_caller "v4" "true" 9)
tenants-Audited_example =
    tenants-Audited demo demo_caller 9 (some acme) none (some submission) (some publication) "open"
      "v4" "true"
