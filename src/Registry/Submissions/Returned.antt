-- ===== src/Registry/Submissions/Returned.antt =====
-- The version that SubmitManifest of modules/registry/store.go answers, read back from the store.
use appstore_gerege_nexus.Prelude.{
  String, true, Option, none, some, ◌≡◌, refl, ap, ◌∙◌, arith, first, ◌==◌, if◌then◌else◌, eq_refl,
}
use appstore_gerege_nexus.Prelude.Appending.{first_last, first-any}
use appstore_gerege_nexus.Tables.{Time, Json, in_review, Database, VersionRow, ExternalRegistration}
use appstore_gerege_nexus.Contract.{Contract, Manifest}
use appstore_gerege_nexus.World.{Result, ok, World, query, raise, pure, lift, transaction}
use appstore_gerege_nexus.World.Laws.{query_ok, bind_ok, transaction_ok}
use appstore_gerege_nexus.Registry.Publishers.{or_not_found}
use appstore_gerege_nexus.Registry.Apps.{App}
use appstore_gerege_nexus.Registry.Versions.{Version, version_of, scan_version, version_by_id}
use appstore_gerege_nexus.Registry.Submissions.{
  Submission, submitted_row, submit_body, submit_encoded, submit_version, submission_of,
  channel_or_stable, submit_checked, submit_manifest, refusal, external_from_manifest,
}
use appstore_gerege_nexus.Registry.Submissions.Effects.{submit_body_ok}

module _ (k : Contract) where
  version_by_id_ok :
      (id : String) (row : VersionRow) (w : World) {v : Version} {w' : World}
      → first (λ v. v.id == id) w.db.versions ≡ some row
      → version_by_id k id w ≡ (ok v, w')
      → scan_version k row ≡ ok v
  unfolding version_by_id or_not_found pure lift
  version_by_id_ok id row w {v} {w'} found h =
      let (asked, x, read, rest) =
        bind_ok (query (λ db. first (λ v. v.id == id) db.versions)) _ w h in
      let (e, d) = query_ok (λ db. first (λ v. v.id == id) db.versions) w read in
      let (r, y, got, last) = bind_ok (or_not_found asked) _ x rest in
      let is_row : asked ≡ some row = e ∙ found in
      let got' = rw is_row at got in
      let same : row ≡ r = ground arith in
      ap (scan_version k) same ∙ ap (λ (p : Result Version × World). p.0) last

  submit_encoded_returns :
      (s : Submission) (encoded : Option Json) (external : Option ExternalRegistration)
      (id : String) (now : Time) (w : World) {v : Version} {w' : World}
      → ((json : Json)
          → k.encode_manifest s.manifest ≡ some json
          → k.decode_manifest json ≡ some s.manifest)
      → k.encode_manifest s.manifest ≡ encoded
      → submit_encoded k s encoded external id now w ≡ (ok v, w')
      → (json : Json) × (v ≡ version_of (submitted_row k s json id now) s.manifest)
  unfolding submit_encoded raise submitted_row scan_version
  submit_encoded_returns s none external id now w law e h = absurd (cc h)
  submit_encoded_returns s (some json) external id now w {v} {w'} law e h =
      let body = submit_body k s json external id now in
      let (u, x, ran, read) = bind_ok (transaction body) (λ _. version_by_id k id) w h in
      let (y, z, d, _, done, d', _) = transaction_ok body w ran in
      let (_, same, unused, _) = submit_body_ok k s json external id now y done in
      let row = submitted_row k s json id now in
      let found : first (λ v. v.id == id) x.db.versions ≡ some row =
        ap (first (λ v. v.id == id)) (ap (λ (b : Database). b.versions) d' ∙ same.versions)
        ∙ first_last (λ v. v.id == id) y.db.versions row
            (first-any (λ v. v.id == id) y.db.versions unused) (own_id json) in
      (json, of_scan json e (version_by_id_ok id row x found read))
    where
      own_id : (json : Json) → ((submitted_row k s json id now).id == id) ≡ true
      own_id json = eq_refl id

      of_scan :
          (json : Json)
          → k.encode_manifest s.manifest ≡ some json
          → scan_version k (submitted_row k s json id now) ≡ ok v
          → v ≡ version_of (submitted_row k s json id now) s.manifest
      of_scan json known h = let h' = rw (law json known) at h in ground arith

  -- Where the encoded manifest decodes to itself, the version that an accepted submission
  -- answers, read back from the store by its new identifier, is the one that was submitted: its
  -- manifest is the publisher's, whole, and it is of the app, under the manifest's number, in the
  -- channel asked for or else in "stable", waiting for review and never published.
  pub submit_manifest-version_by_id :
      (app : App) (channel : String) (m : Manifest) (submitted_by id : String) (now : Time)
      (w : World) {v : Version} {w' : World}
      → ((json : Json) → k.encode_manifest m ≡ some json → k.decode_manifest json ≡ some m)
      → submit_manifest k app channel m submitted_by id now w ≡ (ok v, w')
      → (v.manifest ≡ m)
        × (v.id ≡ id)
        × (v.app_id ≡ app.id)
        × (v.version ≡ m.version)
        × (v.channel ≡ (if channel == "" then "stable" else channel))
        × (v.status ≡ in_review)
        × (v.submitted_by ≡ submitted_by)
        × (v.published_at ≡ none)
  unfolding submit_manifest submit_checked submit_version submitted_row raise
  submit_manifest-version_by_id app asked m submitted_by id now w {v} {w'} law h =
      by_refusal (refusal k app channel m) h
    where
      channel : String
      channel = channel_or_stable k asked

      by_refusal :
          (reason : Option String)
          → submit_checked k app channel m submitted_by id now reason w ≡ (ok v, w')
          → (v.manifest ≡ m)
            × (v.id ≡ id)
            × (v.app_id ≡ app.id)
            × (v.version ≡ m.version)
            × (v.channel ≡ (if asked == "" then "stable" else asked))
            × (v.status ≡ in_review)
            × (v.submitted_by ≡ submitted_by)
            × (v.published_at ≡ none)
      by_refusal (some reason) g = absurd (cc g)
      by_refusal none g =
          let s = submission_of k app channel m submitted_by in
          let (json, e) =
            submit_encoded_returns s (k.encode_manifest m) (external_from_manifest k app.id m) id
              now w law refl g in
          (
            ap (λ (x : Version). x.manifest) e,
            ap (λ (x : Version). x.id) e,
            ap (λ (x : Version). x.app_id) e,
            ap (λ (x : Version). x.version) e,
            ap (λ (x : Version). x.channel) e,
            ap (λ (x : Version). x.status) e,
            ap (λ (x : Version). x.submitted_by) e,
            ap (λ (x : Version). x.published_at) e,
          )
