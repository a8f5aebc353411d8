-- ===== src/Registry/Public/Rebuild.antt =====
-- What handleRebuildSnapshots of modules/registry/public.go throws away.
use appstore_gerege_nexus.Prelude.{ℕ, [], some, ◌≡◌, sym, ap, ◌∙◌, arith, inl, inr, length}
use appstore_gerege_nexus.Tables.{Database}
use appstore_gerege_nexus.Contract.{Contract}
use appstore_gerege_nexus.World.{ok, World, Reply, json}
use appstore_gerege_nexus.World.Laws.{attempt_cases, statement_ok}
use appstore_gerege_nexus.Registry.Signing.{Signer}
use appstore_gerege_nexus.Registry.Cache.{discard_snapshots}
use appstore_gerege_nexus.Registry.Public.{handle_rebuild_snapshots}

discard_snapshots_ok :
    (w : World) {n : ℕ} {w' : World}
    → discard_snapshots w ≡ (ok n, w')
    → (n ≡ length w.db.snapshots)
      × (w'.db.snapshots ≡ [])
      × (w'.db.private_snapshots ≡ w.db.private_snapshots)
      × (w'.db.revision ≡ w.db.revision)
unfolding discard_snapshots
discard_snapshots_ok w {n} {w'} h =
    let (e, _) = statement_ok (λ db. ok (length db.snapshots, record db { snapshots = [] })) w h in
    (ground arith, ground arith, ground arith, ground arith)

-- A rebuild that answers 200 has emptied the public cache and answered how many documents it held;
-- it has left the platforms' own cached documents, and the revision that they are fresh at, as
-- they were.
pub handle_rebuild_snapshots-discards :
    (k : Contract) (signer : Signer) (w : World) {n : ℕ} {w' : World}
    → handle_rebuild_snapshots k (some signer) w ≡ (json 200 n, w')
    → (n ≡ length w.db.snapshots)
      × (w'.db.snapshots ≡ [])
      × (w'.db.private_snapshots ≡ w.db.private_snapshots)
      × (w'.db.revision ≡ w.db.revision)
unfolding handle_rebuild_snapshots
handle_rebuild_snapshots-discards k signer w {n} {w'} h =
    elim (attempt_cases discard_snapshots _ _ w h) [
      | inl (m, v, ran, rest) ↦
          let (e, a, b, c) = discard_snapshots_ok w ran in
          let d = ap (λ (q : Reply ℕ × World). q.1.db) (sym rest) in
          let same : m ≡ n = ground (arith, ap (λ (q : Reply ℕ × World). q.0) rest) in
          (
            sym same ∙ e,
            ap (λ (x : Database). x.snapshots) d ∙ a,
            ap (λ (x : Database). x.private_snapshots) d ∙ b,
            ap (λ (x : Database). x.revision) d ∙ c,
          )
      | inr (e, v, ran, rest) ↦ absurd (cc (ap (λ (q : Reply ℕ × World). q.0) rest))
    ]
