-- ===== src/Coherence/Submitting.antt =====
-- SubmitManifest of modules/registry/store.go over the caches: it bumps no revision.
use mathlib.Core.Path.{fun_ext}
use mathlib.Core.List.{flat_map}
use appstore_gerege_nexus.Prelude.{
  String, Bool, false, List, [], ◌∷◌, ◌++◌, map, Option, none, some, ◌≡◌, refl, sym, ap, ◌∙◌, arith,
  ◌==◌, In, keep, subst,
}
use appstore_gerege_nexus.Sorting.{order_by}
use appstore_gerege_nexus.Tables.{Time, Json, Database, AppRow, VersionRow, ExternalRegistration}
use appstore_gerege_nexus.Contract.{Contract, Manifest}
use appstore_gerege_nexus.World.{ok, World, raise, transaction}
use appstore_gerege_nexus.World.Reads.{bind_db}
use appstore_gerege_nexus.Registry.Signing.{Signer}
use appstore_gerege_nexus.Registry.Build.{
  Row, is_published, offered, row_le, catalog_rows, texts_of,
}
use appstore_gerege_nexus.Registry.Build.Rows.{of_release}
use appstore_gerege_nexus.Registry.Apps.{App}
use appstore_gerege_nexus.Registry.Versions.{version_by_id}
use appstore_gerege_nexus.Registry.Submissions.{
  Submission, submitted_row, submit_body, submit_encoded, submit_version, submission_of,
  channel_or_stable, submit_checked, submit_manifest, refusal, external_from_manifest,
}
use appstore_gerege_nexus.Registry.Submissions.Effects.{submit_body_ok, version_by_id-IsReadOnly}
use appstore_gerege_nexus.Coherence.{IsCoherent}
use appstore_gerege_nexus.Coherence.Frames.{SameView, untouched-IsCoherent}
use appstore_gerege_nexus.Coherence.Publishing.{transaction-IsCoherent}

keep-append_out :
    (p : VersionRow → Bool) (rows : List VersionRow) (v : VersionRow)
    → p v ≡ false
    → keep p (rows ++ v ∷ []) ≡ keep p rows
keep-append_out p [] v f = rw f
keep-append_out p (r ∷ rows) v f = rw (keep-append_out p rows v f)

module _ (k : Contract) where
  -- A version that is not published is in no catalogue.
  pub unpublished-SameView :
      (db db' : Database) (v : VersionRow)
      → is_published v.status ≡ false
      → db'.versions ≡ db.versions ++ v ∷ []
      → db'.apps ≡ db.apps
      → db'.texts ≡ db.texts
      → SameView k db db'
  unfolding catalog_rows texts_of
  unpublished-SameView db db' v f ev ea et = record {
    rows = λ channel ids.
        ap
          (λ (g : AppRow → List Row). order_by (row_le k) (flat_map g (keep (offered ids) db.apps)))
          (fun_ext λ a. ap (map (λ u. record { app = a; version = u })) (
            sym (
              ap (keep (of_release channel a)) ev
              ∙ keep-append_out (of_release channel a) db.versions v (ground (arith, f)))))
        ∙ ap
            (λ (as' : List AppRow). order_by (row_le k) (
              flat_map
                (λ a.
                  map (λ u. record { app = a; version = u })
                    (keep (of_release channel a) db'.versions))
                (keep (offered ids) as')))
            (sym ea);
    texts = λ id. ap (λ ts. map (λ t. (t.locale, t.text)) (keep (λ t. t.app_id == id) ts)) (sym et);
  }

  submit_body-IsCoherent :
      (signer : Signer) (s : Submission) (manifest : Json) (external : Option ExternalRegistration)
      (id : String) (now : Time)
      → is_published s.status ≡ false
      → (w : World) (u : Unit {0}) (w' : World) → IsCoherent k signer w.db
      → submit_body k s manifest external id now w ≡ (ok u, w')
      → IsCoherent k signer w'.db
  unfolding submitted_row
  submit_body-IsCoherent signer s manifest external id now waiting w u w' c h =
      let (_, same, _, _) = submit_body_ok k s manifest external id now w h in
      untouched-IsCoherent k signer w.db w'.db c
        (unpublished-SameView w.db w'.db (submitted_row k s manifest id now) waiting same.versions
          same.apps same.texts)
        (sym same.revision) same.snapshots same.private_snapshots same.grants
        (λ p i. c.named p (subst (In p) same.platforms i))

  submit_encoded-IsCoherent :
      (signer : Signer) (s : Submission) (encoded : Option Json)
      (external : Option ExternalRegistration) (id : String) (now : Time) (w : World)
      → is_published s.status ≡ false
      → IsCoherent k signer w.db
      → IsCoherent k signer (submit_encoded k s encoded external id now w).1.db
  unfolding submit_encoded raise
  submit_encoded-IsCoherent signer s none external id now w waiting c = c
  submit_encoded-IsCoherent signer s (some manifest) external id now w waiting c =
      subst (IsCoherent k signer)
        (sym (
          bind_db (transaction (submit_body k s manifest external id now)) (λ _. version_by_id k id)
            w (λ _. version_by_id-IsReadOnly k id)))
        (transaction-IsCoherent k signer (submit_body k s manifest external id now) w c
          (submit_body-IsCoherent signer s manifest external id now waiting))

  submit_checked-IsCoherent :
      (signer : Signer) (app : App) (channel : String) (m : Manifest) (submitted_by id : String)
      (now : Time) (reason : Option String) (w : World)
      → IsCoherent k signer w.db
      → IsCoherent k signer (submit_checked k app channel m submitted_by id now reason w).1.db
  unfolding submit_checked submit_version raise
  submit_checked-IsCoherent signer app channel m submitted_by id now (some reason) w c = c
  submit_checked-IsCoherent signer app channel m submitted_by id now none w c =
      submit_encoded-IsCoherent signer (submission_of k app channel m submitted_by)
        (k.encode_manifest m) (external_from_manifest k app.id m) id now w refl c

  -- Submitting a version, whether it is accepted, refused or fails, keeps the caches coherent.
  pub submit_manifest-IsCoherent :
      (signer : Signer) (app : App) (channel : String) (m : Manifest) (submitted_by id : String)
      (now : Time) (w : World)
      → IsCoherent k signer w.db
      → IsCoherent k signer (submit_manifest k app channel m submitted_by id now w).1.db
  unfolding submit_manifest
  submit_manifest-IsCoherent signer app channel m submitted_by id now w c =
      submit_checked-IsCoherent signer app (channel_or_stable k channel) m submitted_by id now
        (refusal k app (channel_or_stable k channel) m) w c
