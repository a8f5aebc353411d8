-- ===== src/Examples/Access.antt =====
-- The theorems on access, at the store of the examples.
use appstore_gerege_nexus.Examples.Runner.{code}
use appstore_gerege_nexus.Prelude.{
  String, true, false, eq_iff, [], ◌∷◌, none, some, ◌≡◌, ◌≢◌, refl, ◌⊎◌, In,
}
use appstore_gerege_nexus.World.{ok, json, World}
use appstore_gerege_nexus.Registry.Platforms.{
  Platform, create_platform, platform_by_token, Audience, nobody, audience_for,
}
use appstore_gerege_nexus.Registry.Platforms.Audiences.{Entitled, audience_for-Entitled}
use appstore_gerege_nexus.Registry.Platforms.Issued.{create_platform-platform_by_token}
use appstore_gerege_nexus.Registry.Operators.{handle_set_platform_enabled, handle_revoke}
use appstore_gerege_nexus.Registry.Operators.Revocation.{
  handle_set_platform_enabled-revokes, handle_revoke-withdraws,
}
use appstore_gerege_nexus.Examples.{demo, demo_world, demo_db, demo_caller}

abbrev pub salus : Audience
salus = record { platform_id = "salus"; app_ids = "closed" ∷ [] }

salus_asks : audience_for demo "secret" demo_world ≡ (ok salus, demo_world)
unfolding code
salus_asks = refl

audience_for-Entitled_example :
    ((salus ≡ nobody) ⊎ Entitled demo "secret" demo_db salus) × (demo_db ≡ demo_db)
audience_for-Entitled_example = audience_for-Entitled demo "secret" demo_world salus_asks

abbrev disabled : World
disabled = (handle_set_platform_enabled demo_caller "salus" (some false) 9 demo_world).1

disables :
    handle_set_platform_enabled demo_caller "salus" (some false) 9 demo_world
    ≡ (json 200 (record { platform_id = "salus"; enabled = false }), disabled)
unfolding code
disables = refl

nobody_asks : audience_for demo "secret" disabled ≡ (ok nobody, disabled)
unfolding code
nobody_asks = refl

handle_set_platform_enabled-revokes_example : (nobody ≡ nobody) ⊎ (nobody.platform_id ≢ "salus")
handle_set_platform_enabled-revokes_example =
    handle_set_platform_enabled-revokes demo demo_caller "salus" 9 demo_world disables "secret"
      disabled refl nobody_asks

abbrev two_grants : World
two_grants = record demo_world {
  db = record demo_db {
    grants =
        record { app_id = "other"; platform_id = "salus"; granted_at = 3; granted_by = none }
        ∷ demo_db.grants;
  };
}

abbrev revoked : World
revoked = (handle_revoke demo_caller "salus" "closed" two_grants).1

revokes :
    handle_revoke demo_caller "salus" "closed" two_grants
    ≡ (json 200 (record { platform_id = "salus"; app_id = "closed"; granted = false }), revoked)
unfolding code
revokes = refl

abbrev salus_left : Audience
salus_left = record { platform_id = "salus"; app_ids = "other" ∷ [] }

left_asks : audience_for demo "secret" revoked ≡ (ok salus_left, revoked)
unfolding code
left_asks = refl

handle_revoke-withdraws_example : ¬ In {A = String} "closed" salus_left.app_ids
handle_revoke-withdraws_example =
    handle_revoke-withdraws demo demo_caller "salus" "closed" two_grants revokes "secret" revoked
      refl left_asks refl

abbrev issued : World
issued = (create_platform demo "Nomad" "" "" "u1" (some "t0k3n") "nomad" 9 demo_world).1

abbrev nomad : Platform
nomad = record {
  id = "nomad";
  name = "Nomad";
  origin = "";
  note = "";
  disabled_at = none;
  last_seen_at = none;
  created_at = 9;
  granted_apps = [];
}

issues :
    create_platform demo "Nomad" "" "" "u1" (some "t0k3n") "nomad" 9 demo_world
    ≡ (ok (nomad, "t0k3n"), issued)
unfolding code
issues = refl

-- A later request, of which no statement fails.
abbrev later : World
later = record demo_world { db = issued.db }

abbrev token : String
token = "t0k3n"

token_given : token ≢ ""
token_given e = let t : false ≡ true = (eq_iff "t0k3n" "").1 e in cc

create_platform-platform_by_token_example : (platform_by_token demo token later).0 ≡ ok (some nomad)
create_platform-platform_by_token_example =
    create_platform-platform_by_token demo "Nomad" "" "" "u1" (some "t0k3n") "nomad" 9 demo_world
      issues token_given later refl refl
