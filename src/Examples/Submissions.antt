-- ===== src/Examples/Submissions.antt =====
-- The theorems on submissions, registrations and profiles, at the store of the examples.
use appstore_gerege_nexus.Prelude.{
  String, true, false, [], none, some, ◌≡◌, ◌≢◌, refl, sym, ap, arith, inl, In, first, ◌==◌, eq_iff,
}
use appstore_gerege_nexus.World.{ok, json, World}
use appstore_gerege_nexus.Tables.{Json, AppRow, Publisher, in_review}
use appstore_gerege_nexus.Contract.{Contract, Manifest}
use appstore_gerege_nexus.Registry.Publishers.{Profile, upsert_publisher}
use appstore_gerege_nexus.Registry.Publishers.Verification.{WasVerified, upsert_publisher-honest}
use appstore_gerege_nexus.Registry.Apps.{App, app_of, upsert_app}
use appstore_gerege_nexus.Registry.Apps.Ownership.{Kept, upsert_app-Kept, upsert_app-refused}
use appstore_gerege_nexus.Registry.Versions.{Version, version_of}
use appstore_gerege_nexus.Registry.Submissions.{submit_manifest}
use appstore_gerege_nexus.Registry.Submissions.Effects.{
  Accepted, submit_manifest-Accepted, submit_manifest-immutable,
}
use appstore_gerege_nexus.Registry.Submissions.Returned.{submit_manifest-version_by_id}
use appstore_gerege_nexus.Publisher.Registration.{Registered, handle_upsert_app-Registered}
use appstore_gerege_nexus.Publisher.{
  AppBody, with_defaults, app_from, handle_upsert_app, VersionBody, handle_submit_version,
}
use appstore_gerege_nexus.Publisher.Access.{Owns, handle_submit_version-Owns}
use appstore_gerege_nexus.Examples.{
  demo, demo_world, demo_db, demo_app, demo_caller, demo_publisher, demo_version, plain_manifest,
}
use appstore_gerege_nexus.Examples.Runner.{code}

abbrev pub open_app : App
open_app = app_of demo_db (demo_app "open" "public") "Acme"

abbrev pub next_manifest : Manifest
next_manifest = plain_manifest "open" "3.0.0"

abbrev submitted : World
submitted = (submit_manifest demo open_app "" next_manifest "a@b" "v5" 9 demo_world).1

abbrev next_version : Version
next_version =
    record (version_of (demo_version "v5" "open" "3.0.0" in_review)
      (plain_manifest "app" "3.0.0")) {
        min_platform = ">=0.1.0";
        published_at = none;
        created_at = 9;
      }

submits :
    submit_manifest demo open_app "" next_manifest "a@b" "v5" 9 demo_world
    ≡ (ok next_version, submitted)
unfolding code
submits = refl

submit_manifest-Accepted_example : Accepted demo open_app next_manifest demo_db submitted.db
submit_manifest-Accepted_example =
    submit_manifest-Accepted demo open_app "" next_manifest "a@b" "v5" 9 demo_world submits

abbrev used_manifest : Manifest
used_manifest = plain_manifest "open" "2.0.0"

submit_manifest-immutable_example :
    ((v : Version)
      → (submit_manifest demo open_app "" used_manifest "a@b" "v5" 9 demo_world).0 ≢ ok v)
    × ((submit_manifest demo open_app "" used_manifest "a@b" "v5" 9 demo_world).1.db ≡ demo_db)
submit_manifest-immutable_example =
    submit_manifest-immutable demo open_app "" used_manifest "a@b" "v5" 9 demo_world refl

abbrev body : VersionBody
body = record { channel = "stable"; manifest = next_manifest }

abbrev posted : World
posted = (handle_submit_version demo demo_caller "open" (some body) "v5" 9 demo_world).1

posts :
    handle_submit_version demo demo_caller "open" (some body) "v5" 9 demo_world
    ≡ (json 201 next_version, posted)
unfolding code
posts = refl

handle_submit_version-Owns_example :
    (a : App) × Owns demo_caller "open" demo_db a × Accepted demo a next_manifest demo_db posted.db
handle_submit_version-Owns_example =
    handle_submit_version-Owns demo demo_caller "open" body "v5" 9 demo_world posts

abbrev pub edited_app : App
edited_app = record open_app { description = "new"; latest_version = "" }

abbrev registered : World
registered = (upsert_app demo edited_app [] 9 demo_world).1

registers : upsert_app demo edited_app [] 9 demo_world ≡ (ok tt, registered)
unfolding code
registers = refl

upsert_app-Kept_example :
    ((old : AppRow) → In old demo_db.apps → Kept edited_app old registered.db)
    × ((old : AppRow)
        → first (λ r. r.id == "open") demo_db.apps ≡ some old
        → old.publisher_id ≡ "p1")
upsert_app-Kept_example = upsert_app-Kept demo edited_app [] 9 demo_world registers

abbrev stolen_app : App
stolen_app = record edited_app { publisher_id = "p2" }

stranger : ◌≢◌ {A = String} "p1" "p2"
stranger e = let t : false ≡ true = (eq_iff "p1" "p2").1 e in cc

upsert_app-refused_example :
    ((upsert_app demo stolen_app [] 9 demo_world).0 ≢ ok tt)
    × ((upsert_app demo stolen_app [] 9 demo_world).1.db ≡ demo_db)
upsert_app-refused_example =
    upsert_app-refused demo stolen_app [] 9 demo_world (demo_app "open" "public") refl stranger

abbrev profile : Profile
profile = record { tenant_id = "t1"; slug = "acme2"; name = "Acme 2"; contact_email = "" }

abbrev renamed : Publisher
renamed = record demo_publisher { slug = "acme2"; name = "Acme 2"; updated_at = 9 }

renamed_listed : In renamed (upsert_publisher profile "p9" 9 demo_world).1.db.publishers
unfolding code
renamed_listed = inl refl

upsert_publisher-honest_example : WasVerified demo_db renamed
upsert_publisher-honest_example =
    upsert_publisher-honest profile "p9" 9 demo_world renamed renamed_listed refl

abbrev app_body : AppBody
app_body = record {
  id = "open";
  slug = "open";
  app_type = "";
  name = "Open";
  description = "new";
  icon_url = "";
  category = "";
  visibility = "";
  texts = [];
}

abbrev saved_app : App
saved_app = app_from (with_defaults app_body) "p1" "u1"

abbrev saved_world : World
saved_world = (handle_upsert_app demo demo_caller (some app_body) 9 demo_world).1

saves :
    handle_upsert_app demo demo_caller (some app_body) 9 demo_world
    ≡ (json 200 saved_app, saved_world)
unfolding code
saves = refl

handle_upsert_app-Registered_example : Registered demo_caller app_body demo_db saved_world.db
handle_upsert_app-Registered_example =
    handle_upsert_app-Registered demo demo_caller app_body 9 demo_world saves

-- Manifests of the app "open" are encoded by their number.
abbrev own_format : Contract
own_format = record demo { decode_manifest = λ j. some (plain_manifest "open" j) }

abbrev kept_world : World
kept_world = (submit_manifest own_format open_app "beta" next_manifest "a@b" "v5" 9 demo_world).1

abbrev kept_version : Version
kept_version = record next_version { channel = "beta"; manifest = next_manifest }

returns :
    submit_manifest own_format open_app "beta" next_manifest "a@b" "v5" 9 demo_world
    ≡ (ok kept_version, kept_world)
unfolding code
returns = refl

decodes :
    (j : Json)
    → own_format.encode_manifest next_manifest ≡ some j
    → own_format.decode_manifest j ≡ some next_manifest
decodes j e =
    let number : Json = "3.0.0" in
    let same : number ≡ j = ground arith in
    ap (λ (x : Json). some (plain_manifest "open" x)) (sym same)

submit_manifest-version_by_id_example :
    (kept_version.manifest ≡ next_manifest)
    × (kept_version.id ≡ "v5")
    × (kept_version.app_id ≡ "open")
    × (kept_version.version ≡ "3.0.0")
    × (kept_version.channel ≡ "beta")
    × (kept_version.status ≡ in_review)
    × (kept_version.submitted_by ≡ "a@b")
    × (kept_version.published_at ≡ none)
submit_manifest-version_by_id_example =
    submit_manifest-version_by_id own_format open_app "beta" next_manifest "a@b" "v5" 9 demo_world
      decodes returns
