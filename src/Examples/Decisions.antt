-- ===== src/Examples/Decisions.antt =====
-- The theorems on reviews, at the store of the examples.
use appstore_gerege_nexus.Examples.Runner.{code}
use appstore_gerege_nexus.Prelude.{String, true, false, [], ◌∷◌, some, ◌≡◌, ◌≢◌, refl, inl, inr, In}
use appstore_gerege_nexus.World.{ok, err, failure, json, World}
use appstore_gerege_nexus.Tables.{Snapshot, AppRow, published, in_review}
use appstore_gerege_nexus.Contract.{CatalogApp}
use appstore_gerege_nexus.Registry.Build.{Row, catalog_rows, build, platform_allows}
use appstore_gerege_nexus.Registry.Build.Offers.{entries}
use appstore_gerege_nexus.Registry.Decisions.{take_provenance, decide_version}
use appstore_gerege_nexus.Registry.Decisions.Recorded.{Decided, Described}
use appstore_gerege_nexus.Registry.Decisions.Effects.{
  decide_version-Decided, decide_version-rolled_back, decide_version-withdraws,
}
use appstore_gerege_nexus.Registry.Decisions.Publication.{decide_version-offers}
use appstore_gerege_nexus.Review.{DecisionBody, handle_decision}
use appstore_gerege_nexus.Review.Reasons.{Recorded, handle_decision-Recorded}
use appstore_gerege_nexus.Examples.{
  demo, demo_signer, demo_world, demo_db, demo_app, demo_version, demo_caller,
}
use appstore_gerege_nexus.Examples.Catalogues.{demo_order}
use appstore_gerege_nexus.Examples.Access.{salus}

abbrev published_world : World
published_world = (decide_version demo "v4" "publish" "u9" "op@x" "" 9 demo_world).1

publishes :
    decide_version demo "v4" "publish" "u9" "op@x" "" 9 demo_world ≡ (ok tt, published_world)
unfolding code
publishes = refl

decide_version-Decided_example :
    Decided "v4" "publish" "u9" "op@x" "" 9 demo_db published_world.db
    × Described demo "v4" "publish" "u9" 9 demo_db published_world.db
decide_version-Decided_example =
    decide_version-Decided demo "v4" "publish" "u9" "op@x" "" 9 demo_world publishes

abbrev faulty_world : World
faulty_world = record demo_world { faults = false ∷ false ∷ false ∷ true ∷ [] }

abbrev failed_world : World
failed_world = (decide_version demo "v4" "publish" "u9" "op@x" "" 9 faulty_world).1

fails :
    decide_version demo "v4" "publish" "u9" "op@x" "" 9 faulty_world
    ≡ (err (failure "database"), failed_world)
unfolding code
fails = refl

decide_version-rolled_back_example : failed_world.db ≡ demo_db
decide_version-rolled_back_example =
    decide_version-rolled_back demo "v4" "publish" "u9" "op@x" "" 9 faulty_world fails

abbrev yanked_world : World
yanked_world = (decide_version demo "v2" "yank" "u9" "op@x" "broken" 9 demo_world).1

yanks : decide_version demo "v2" "yank" "u9" "op@x" "broken" 9 demo_world ≡ (ok tt, yanked_world)
unfolding code
yanks = refl

abbrev first_row : Row
first_row = record {
  app = demo_app "open" "public";
  version = demo_version "v1" "open" "1.0.0" published;
}

first_read : In first_row (catalog_rows demo "stable" [] yanked_world.db)
unfolding code
first_read = inl refl

not_publishing : ◌≢◌ {A = String} "yank" "publish"
not_publishing = cc

decide_version-withdraws_example : first_row.version.id ≢ "v2"
decide_version-withdraws_example =
    decide_version-withdraws demo "v2" "yank" "u9" "op@x" "broken" 9 demo_world yanks not_publishing
      "stable" [] first_row first_read

abbrev private_document : Snapshot
private_document = record {
  revision = 8;
  generated_at = 9;
  etag = "\"sha256:#closed@2.0.0open@2.0.0!\"";
  document = "closed@2.0.0open@2.0.0!";
}

builds :
    build demo demo_signer "stable" "1.0.0" 8 salus published_world
    ≡ (ok private_document, published_world)
unfolding code
builds = refl

abbrev closed_app : AppRow
closed_app = take_provenance demo "2.0.0" "u9" 9 (demo_app "closed" "private")

closed_listed : In closed_app published_world.db.apps
unfolding code
closed_listed = inr (inl refl)

decide_version-offers_example :
    (a : CatalogApp) × In a (entries demo demo_signer "stable" "1.0.0" salus published_world.db)
    × (a.id ≡ "closed")
    × (demo.is_newer "2.0.0" a.version ≡ false)
decide_version-offers_example =
    decide_version-offers demo demo_order demo_signer "1.0.0" salus "v4" "u9" "op@x" "" 9 demo_world
      publishes (demo_version "v4" "closed" "2.0.0" in_review) closed_app
      (inr (inr (inr (inl refl)))) refl closed_listed refl refl (unfold platform_allows in refl) 8
      published_world refl builds

abbrev rejection : DecisionBody
rejection = record { action = "reject"; note = " no icon " }

abbrev rejected_world : World
rejected_world = (handle_decision demo demo_caller "v4" (some rejection) 9 demo_world).1

rejects :
    handle_decision demo demo_caller "v4" (some rejection) 9 demo_world
    ≡ (json 200 "reject", rejected_world)
unfolding code
rejects = refl

handle_decision-Recorded_example : Recorded demo_caller "v4" rejection 9 demo_db rejected_world.db
handle_decision-Recorded_example =
    handle_decision-Recorded demo demo_caller "v4" rejection 9 demo_world rejects
