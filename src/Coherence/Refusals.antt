-- ===== src/Coherence/Refusals.antt =====
-- The catalogue's handler over the caches where it does not answer with a document: a refusal, or
-- a statement that failed on the way.
use appstore_gerege_nexus.Prelude.{
  ℕ, String, Bool, true, false, List, [], ◌∷◌, Option, none, some, ◌≡◌, refl, sym, ap, ◌∙◌, inl,
  inr, Bool-cases, subst, if◌then◌else◌, ◌==◌,
}
use appstore_gerege_nexus.Tables.{Time, Database, Snapshot}
use appstore_gerege_nexus.Contract.{Contract, CatalogApp}
use appstore_gerege_nexus.World.{
  Error, Result, err, World, pure, raise, ignore, attempt, problem, ◌>>◌,
}
use appstore_gerege_nexus.World.Laws.{outcome}
use appstore_gerege_nexus.World.Reads.{
  IsReadOnly, query-IsReadOnly, lift-IsReadOnly, bind-IsReadOnly, bind_err, bind_run,
}
use appstore_gerege_nexus.World.Keeps.{Keeps, if-Keeps, attempt_run}
use appstore_gerege_nexus.Registry.Platforms.{Audience, bearer_token, audience_for, touch_platform}
use appstore_gerege_nexus.Registry.Platforms.Audiences.{audience_for_ok, audience_for-IsReadOnly}
use appstore_gerege_nexus.Registry.Signing.{Signer}
use appstore_gerege_nexus.Registry.Build.{
  none_chosen, catalog_rows, choose_all, texts_of, app_texts, translate_all, finish, build,
}
use appstore_gerege_nexus.Registry.Cache.{
  or_default, revision, load_snapshot, cached, save_snapshot, fresh, rebuild, serve_held, catalog,
}
use appstore_gerege_nexus.Registry.Public.{
  CatalogRequest, bad_platform, bad_channel, touch, serve_catalog, handle_catalog,
}
use appstore_gerege_nexus.Coherence.{IsCoherent}
use appstore_gerege_nexus.Coherence.Serving.{IsAudience, catalog-Built}
use appstore_gerege_nexus.Coherence.Answers.{
  audience_in-IsAudience, touch-Touched, grants-IsAudience,
}

pub revision-IsReadOnly : IsReadOnly revision
unfolding revision
revision-IsReadOnly = query-IsReadOnly (λ db. db.revision)

pub load_snapshot-IsReadOnly :
    (channel platform : String) (a : Audience) → IsReadOnly (load_snapshot channel platform a)
unfolding load_snapshot
load_snapshot-IsReadOnly channel platform a = query-IsReadOnly (cached channel platform a)

module _ (k : Contract) (signer : Signer) where
  translate_all-IsReadOnly : (apps : List CatalogApp) → IsReadOnly (translate_all apps)
  unfolding translate_all app_texts pure
  translate_all-IsReadOnly [] = λ w. refl
  translate_all-IsReadOnly (a ∷ apps) =
      bind-IsReadOnly _ _ (query-IsReadOnly (texts_of a.id))
        (λ ts. bind-IsReadOnly _ _ (translate_all-IsReadOnly apps) (λ rest w. refl))

  -- A build writes nothing, whatever it answers.
  pub build-IsReadOnly :
      (channel platform : String) (n : ℕ) (a : Audience)
      → IsReadOnly (build k signer channel platform n a)
  unfolding build raise
  build-IsReadOnly channel platform n a w = elim (Bool-cases (k.is_version platform)) [
    | inl t ↦ rw t (
        bind-IsReadOnly _ _ (query-IsReadOnly (catalog_rows k channel a.app_ids))
          (λ rows.
            bind-IsReadOnly _ _ (lift-IsReadOnly (choose_all k platform rows none_chosen))
              (λ chosen.
                bind-IsReadOnly _ _ (translate_all-IsReadOnly chosen.apps)
                  (λ apps. lift-IsReadOnly (finish k signer platform n chosen.generated_at apps))))
          w)
    | inr f ↦ rw f refl
  ]

  rebuild_err :
      (channel platform : String) (a : Audience) (now : Time) (n : ℕ) (w : World) {e : Error}
      {w' : World}
      → rebuild k signer channel platform a now n w ≡ (err e, w')
      → w'.db ≡ w.db
  unfolding rebuild ignore pure
  rebuild_err channel platform a now n w h =
      elim (bind_err (build k signer channel platform n a) _ w h) [
        | inl (x, failed) ↦
            ap (λ (p : Result Snapshot × World). p.1.db) (sym failed)
            ∙ build-IsReadOnly channel platform n a w
        | inr (built, v, made, rest) ↦
            elim (bind_err (ignore (save_snapshot channel platform a built now)) _ v rest) [
              | inl (x, failed) ↦ cc
              | inr (u, x, saved, last) ↦ cc
            ]
      ]

  serve_err :
      (channel platform : String) (a : Audience) (now : Time) (n : ℕ) (held : Option Snapshot)
      (w : World) {e : Error} {w' : World}
      → serve_held k signer channel platform a now n held w ≡ (err e, w')
      → w'.db ≡ w.db
  unfolding serve_held pure
  serve_err channel platform a now n none w h = rebuild_err channel platform a now n w h
  serve_err channel platform a now n (some s) w h = cc

  -- Catalog that answers an error has written nothing.
  pub catalog_err :
      (channel platform : String) (a : Audience) (now : Time) (w : World) {e : Error} {w' : World}
      → catalog k signer channel platform a now w ≡ (err e, w')
      → w'.db ≡ w.db
  unfolding catalog
  catalog_err asked_channel asked_platform a now w {e} {w'} h =
      let channel = or_default asked_channel "stable" in
      let platform = or_default asked_platform "1.0.0" in
      elim (bind_err revision _ w h) [
        | inl (x, failed) ↦
            ap (λ (p : Result ℕ × World). p.1.db) (sym failed) ∙ revision-IsReadOnly w
        | inr (n, v, read, rest) ↦
            let dv = ap (λ (p : Result ℕ × World). p.1.db) (sym read) ∙ revision-IsReadOnly w in
            elim (bind_err (load_snapshot channel platform a) _ v rest) [
              | inl (x, failed) ↦
                  ap (λ (p : Result (Option Snapshot) × World). p.1.db) (sym failed)
                  ∙ load_snapshot-IsReadOnly channel platform a v
                  ∙ dv
              | inr (held, u, loaded, last) ↦
                  serve_err channel platform a now n (fresh held n) u last
                  ∙ ap (λ (p : Result (Option Snapshot) × World). p.1.db) (sym loaded)
                  ∙ load_snapshot-IsReadOnly channel platform a v
                  ∙ dv
            ]
      ]

  -- Catalog keeps the caches coherent, whatever it answers.
  pub catalog-IsCoherent :
      (channel platform : String) (a : Audience) (now : Time) (w : World)
      → IsCoherent k signer w.db
      → IsAudience k signer w.db a
      → IsCoherent k signer (catalog k signer channel platform a now w).1.db
  catalog-IsCoherent channel platform a now w c who =
      elim (outcome (catalog k signer channel platform a now) w) [
        | inl (s, h) ↦ (catalog-Built k signer channel platform a now w c who h).1
        | inr (e, h) ↦ subst (IsCoherent k signer) (sym (catalog_err channel platform a now w h)) c
      ]

  touched-catalog-IsCoherent :
      (r : CatalogRequest) (now : Time) (a : Audience) (w : World)
      → IsCoherent k signer w.db
      → IsAudience k signer w.db a
      → IsCoherent k signer ((touch k a now >> catalog k signer r.channel r.platform a now) w).1.db
  unfolding touch pure ignore
  touched-catalog-IsCoherent r now a w c who = elim (outcome (touch k a now) w) [
    | inl (u, h) ↦
        let v = (touch k a now w).1 in
        let t = touch-Touched k signer a now w c h in
        subst (λ (p : Result Snapshot × World). IsCoherent k signer p.1.db)
          (sym (bind_run (touch k a now) (λ _. catalog k signer r.channel r.platform a now) w h))
          (catalog-IsCoherent r.channel r.platform a now v t.coherent
            (grants-IsAudience k signer w.db v.db a t.grants who))
    | inr (e, h) ↦ absurd (never (a.platform_id == "") h)
  ]
    where
      never :
          (b : Bool) {e : Error} {v : World}
          → ¬ ((if b then pure tt else ignore (touch_platform k a.platform_id now)) w ≡ (err e, v))
      never true h = cc
      never false h = cc

  serve_catalog-IsCoherent :
      (r : CatalogRequest) (now : Time) (a : Audience) (w : World)
      → IsCoherent k signer w.db
      → IsAudience k signer w.db a
      → IsCoherent k signer (serve_catalog k signer r now a w).1.db
  unfolding serve_catalog
  serve_catalog-IsCoherent r now a w c who =
      attempt_run (IsCoherent k signer)
        (touch k a now >> catalog k signer r.channel r.platform a now) _ _ w
        (touched-catalog-IsCoherent r now a w c who) (λ e v p. p) (λ s v ran p. p)

  -- The catalogue's handler keeps the caches coherent, whatever it answers.
  pub handle_catalog-IsCoherent :
      (r : CatalogRequest) (now : Time)
      → Keeps (IsCoherent k signer) (handle_catalog k (some signer) r now)
  unfolding handle_catalog
  handle_catalog-IsCoherent r now =
      if-Keeps (IsCoherent k signer) (bad_platform k r.platform) _ _ (λ w p. p)
        (if-Keeps (IsCoherent k signer) (bad_channel k r.channel) _ _ (λ w p. p) answered)
    where
      answered :
          (w : World)
          → IsCoherent k signer w.db
          → IsCoherent k signer
              (attempt
                (audience_for k (bearer_token r.authorization))
                (λ e v. (problem 500 "could not build the catalog", v))
                (serve_catalog k signer r now)
                w).1.db
      answered w c =
          attempt_run (IsCoherent k signer) (audience_for k (bearer_token r.authorization)) _
            (serve_catalog k signer r now) w
            (subst (IsCoherent k signer)
              (sym (audience_for-IsReadOnly k (bearer_token r.authorization) w)) c)
            (λ e v p. p)
            (λ a v asked p.
              let (e, d) = audience_for_ok k (bearer_token r.authorization) w asked in
              serve_catalog-IsCoherent r now a v p (
                subst (λ (db : Database). IsAudience k signer db a) (sym d)
                  (subst (IsAudience k signer w.db) (sym e)
                    (audience_in-IsAudience k signer (bearer_token r.authorization) w.db c))))
