-- ===== src/Examples/Histories.antt =====
-- The theorems on the reachable states: a submission and its publication, from a store that has no
-- version yet.
use appstore_gerege_nexus.Prelude.{
  Bool, true, false, List, [], some, ◌≡◌, ◌≢◌, refl, sym, ap, ◌∙◌, inl, inr, In, eq_iff,
}
use appstore_gerege_nexus.Tables.{Database, PlatformRow}
use appstore_gerege_nexus.Examples.{demo, demo_signer, demo_db, demo_caller}
use appstore_gerege_nexus.Examples.Submissions.{next_manifest}
use appstore_gerege_nexus.Coherence.{IsCoherent}
use appstore_gerege_nexus.System.{Request, Arrival, IsOrdinary, IsAny, after, Reaches}
use appstore_gerege_nexus.System.Coherent.{Reaches-IsCoherent}
use appstore_gerege_nexus.System.Replay.{IsReplayed}
use appstore_gerege_nexus.System.Replay.Requests.{Reaches-IsReplayed}
use appstore_gerege_nexus.System.History.{Extends, Reaches-Extends}

abbrev new_db : Database
new_db = record demo_db { versions = []; private_snapshots = [] }

abbrev submits : Arrival
submits = record {
  request =
      Request.send_version demo_caller "open"
        (some (record { channel = ""; manifest = next_manifest })) "v5";
  now = 8;
  faults = [];
}

abbrev publishes : Arrival
publishes = record {
  request =
      Request.review_version demo_caller "v5" (some (record { action = "publish"; note = "" }));
  now = 9;
  faults = [];
}

abbrev asks : Arrival
asks = record {
  request =
      Request.ask_catalog (record {
        channel = "";
        platform = "";
        authorization = "Bearer secret";
        if_none_match = "";
      });
  now = 10;
  faults = [];
}

abbrev published_db : Database
published_db =
    after demo demo_signer asks
      (after demo demo_signer publishes (after demo demo_signer submits new_db))

reached :
    (allowed : Request → List Bool → Type 0)
    → allowed submits.request []
    → allowed publishes.request []
    → allowed asks.request []
    → Reaches demo demo_signer allowed new_db published_db
reached allowed one two three =
    Reaches.next asks
      (Reaches.next publishes (Reaches.next submits (Reaches.here refl) one refl) two refl) three
      refl

named : (p : PlatformRow) → In p new_db.platforms → p.id ≢ ""
named p (inl e) empty =
    let t : false ≡ true = (eq_iff "salus" "").1 (sym (ap (λ (q : PlatformRow). q.id) e) ∙ empty) in
    cc
named p (inr x) empty = absurd x

Reaches-IsCoherent_example : IsCoherent demo demo_signer published_db
Reaches-IsCoherent_example =
    Reaches-IsCoherent demo demo_signer new_db published_db (reached IsOrdinary tt tt tt)
      (record { public_rows = λ r i. absurd i; private_rows = λ r i. absurd i; named = named })

Reaches-IsReplayed_example : IsReplayed published_db
Reaches-IsReplayed_example =
    Reaches-IsReplayed demo demo_signer new_db published_db (reached IsAny tt tt tt)
      (record { statuses = λ v i. absurd i; known = λ e i. absurd i })

Reaches-Extends_example :
    Extends demo_db (after demo demo_signer publishes (after demo demo_signer submits demo_db))
Reaches-Extends_example =
    Reaches-Extends demo demo_db demo_signer
      (after demo demo_signer publishes (after demo demo_signer submits demo_db))
      (Reaches.next publishes (Reaches.next submits (Reaches.here refl) tt refl) tt refl)
