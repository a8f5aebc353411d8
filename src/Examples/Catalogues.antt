-- ===== src/Examples/Catalogues.antt =====
-- The theorems on documents, at the store of the examples.
use appstore_gerege_nexus.Examples.Runner.{code}
use appstore_gerege_nexus.Prelude.{false, List, [], ◌≡◌, refl, inl, arith, In}
use appstore_gerege_nexus.World.{ok}
use appstore_gerege_nexus.Tables.{Snapshot, Database, published}
use appstore_gerege_nexus.Registry.Platforms.{nobody}
use appstore_gerege_nexus.Registry.Build.{platform_allows, build}
use appstore_gerege_nexus.Registry.Build.Newest.{NewerOrder}
use appstore_gerege_nexus.Registry.Build.Distinct.{Distinct}
use appstore_gerege_nexus.Registry.Build.Offers.{
  Served, SignedOver, entries, build-SignedOver, build-Served, build-once, build-newest,
}
use appstore_gerege_nexus.Contract.{CatalogApp}
use appstore_gerege_nexus.Examples.{
  demo, demo_signer, demo_world, demo_db, demo_app, demo_version, plain_manifest,
}

abbrev open_document : Snapshot
open_document = record {
  revision = 7;
  generated_at = 5;
  etag = "\"sha256:#open@2.0.0!\"";
  document = "open@2.0.0!";
}

anonymous_build :
    build demo demo_signer "stable" "1.0.0" 7 nobody demo_world ≡ (ok open_document, demo_world)
unfolding code
anonymous_build = refl

abbrev open_entries : Database → List CatalogApp
open_entries = entries demo demo_signer "stable" "1.0.0" nobody

abbrev open_entry : CatalogApp
open_entry = record {
  id = "open";
  slug = "open";
  name = "open";
  description = "";
  icon_url = "";
  category = "General";
  visibility = "public";
  version = "2.0.0";
  manifest = plain_manifest "app" "2.0.0";
  translations = [];
}

open_listed : In open_entry (open_entries demo_db)
unfolding code
open_listed = inl refl

pub demo_order : NewerOrder demo
demo_order = record { irreflexive = λ v. ground arith; displaced = λ u v x. ground arith }

build-SignedOver_example :
    SignedOver demo demo_signer "stable" "1.0.0" nobody 7 open_document (open_entries demo_db)
    × (demo_db ≡ demo_db)
build-SignedOver_example =
    build-SignedOver demo demo_signer "stable" "1.0.0" nobody 7 demo_world anonymous_build

build-Served_example : Served demo demo_signer "stable" "1.0.0" nobody demo_db open_entry
build-Served_example =
    build-Served demo demo_signer "stable" "1.0.0" nobody 7 demo_world open_entry anonymous_build
      open_listed

build-once_example :
    SignedOver demo demo_signer "stable" "1.0.0" nobody 7 open_document (open_entries demo_db)
    × Distinct (open_entries demo_db)
build-once_example =
    build-once demo demo_signer "stable" "1.0.0" nobody 7 demo_world anonymous_build

build-newest_example :
    (a : CatalogApp) × In a (open_entries demo_db)
    × (a.id ≡ "open")
    × (demo.is_newer "1.0.0" a.version ≡ false)
build-newest_example =
    build-newest demo demo_signer "stable" "1.0.0" nobody demo_order 7 demo_world
      (demo_app "open" "public") (demo_version "v1" "open" "1.0.0" published) anonymous_build
      (inl refl) refl (inl refl) refl (unfold platform_allows in refl)
