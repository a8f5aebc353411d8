-- ===== src/Coherence/Answers.antt =====
-- handleCatalog of modules/registry/public.go over a coherent cache.
use appstore_gerege_nexus.Prelude.{
  ℕ, String, Bool, true, false, not, ◌&&◌, List, [], ◌∷◌, Option, none, some, ◌≡◌, ◌≢◌, refl, sym,
  ap, ◌∙◌, arith, ◌⊎◌, inl, inr, ◌==◌, Bool-cases, In, amend, if◌then◌else◌, subst,
}
use appstore_gerege_nexus.Prelude.Membership.{In-amend, first_sound}
use appstore_gerege_nexus.Tables.{Time, Database, Snapshot, PlatformRow}
use appstore_gerege_nexus.Contract.{Contract}
use appstore_gerege_nexus.World.{Result, ok, World, Reply, json, ignore, ◌>>◌}
use appstore_gerege_nexus.World.Laws.{execute_either, pure_ok, bind_ok, attempt_cases}
use appstore_gerege_nexus.Registry.Platforms.{
  Audience, enabled, token_digest, bearer_token, granted, audience_of, platform_with_digest,
  audience_for, touch_platform,
}
use appstore_gerege_nexus.Registry.Platforms.Audiences.{
  audience_in, audience_of_row, audience_for_ok,
}
use appstore_gerege_nexus.Registry.Signing.{Signer}
use appstore_gerege_nexus.Registry.Build.Contents.{Built}
use appstore_gerege_nexus.Registry.Cache.{or_default, catalog}
use appstore_gerege_nexus.Registry.Headers.{etag_matches}
use appstore_gerege_nexus.Registry.Public.{
  CatalogRequest, CatalogAnswer, catalog_answer, answer_catalog, bad_platform, bad_channel, touch,
  serve_catalog, handle_catalog,
}
use appstore_gerege_nexus.Coherence.{IsCoherent}
use appstore_gerege_nexus.Coherence.Frames.{
  SameView, same_tables, untouched-IsCoherent, holder_same, Built-frame,
}
use appstore_gerege_nexus.Coherence.Serving.{IsAudience, catalog-Built}

module _ (k : Contract) (signer : Signer) where
  enabled-IsAudience :
      (db : Database) (p : PlatformRow) (ids : List String)
      → p.id ≢ ""
      → ids ≡ granted k p.id db
      → IsAudience k signer db (audience_of k p.id ids)
  enabled-IsAudience db p [] named e = inl refl
  enabled-IsAudience db p (i ∷ ids) named e =
      inr (named, ap (λ (is : List String). record { platform_id = p.id; app_ids = is }) e)

  row-IsAudience :
      (db : Database) (row : Option PlatformRow)
      → ((p : PlatformRow) → row ≡ some p → p.id ≢ "")
      → IsAudience k signer db (audience_of_row k db row)
  row-IsAudience db none named = inl refl
  row-IsAudience db (some p) named = elim (Bool-cases (enabled p.disabled_at)) [
    | inl t ↦ rw t (enabled-IsAudience db p (granted k p.id db) (named p refl) refl)
    | inr f ↦ rw f (inl refl)
  ]

  -- A credential's audience is nobody, or the platform with the apps that it is granted.
  pub audience_in-IsAudience :
      (token : String) (db : Database)
      → IsCoherent k signer db
      → IsAudience k signer db (audience_in k token db)
  unfolding platform_with_digest
  audience_in-IsAudience token db c = elim (Bool-cases (token == "")) [
    | inl t ↦ rw t (inl refl)
    | inr f ↦ rw f (
        row-IsAudience db (platform_with_digest k (token_digest k token) db) (λ p e.
          c.named p (first_sound (λ p. p.token_digest == token_digest k token) p db.platforms e).0))
  ]

  abbrev touched : String → Time → Database → Database
  touched id now db = record db {
    platforms = amend (λ p. p.id == id) (λ p. record p { last_seen_at = some now }) db.platforms;
  }

  touched_named :
      (id : String) (now : Time) (rows : List PlatformRow)
      → ((p : PlatformRow) → In p rows → p.id ≢ "")
      → (p : PlatformRow)
      → In p (amend (λ q. q.id == id) (λ q. record q { last_seen_at = some now }) rows)
      → p.id ≢ ""
  touched_named id now rows named p i =
      let (q, j, made) =
        In-amend (λ q. q.id == id) (λ q. record q { last_seen_at = some now }) p rows i in
      let same : p.id ≡ q.id = by_test (q.id == id) q made in λ e. named q j (sym same ∙ e)
    where
      by_test :
          (b : Bool) (q : PlatformRow)
          → p ≡ (if b then record q { last_seen_at = some now } else q)
          → p.id ≡ q.id
      by_test true q made = ap (λ (x : PlatformRow). x.id) made
      by_test false q made = ap (λ (x : PlatformRow). x.id) made

  -- What TouchPlatform may have done to the tables.
  touch_either :
      (a : Audience) (now : Time) (w : World) {u : Unit {0}} {w' : World}
      → touch k a now w ≡ (ok u, w')
      → (w'.db ≡ touched a.platform_id now w.db) ⊎ (w'.db ≡ w.db)
  unfolding touch ignore touch_platform
  touch_either a now w h = elim (Bool-cases (a.platform_id == "")) [
    | inl t ↦ inr (pure_ok tt w (rw t at h)).1
    | inr f ↦
        let here = ap (λ (p : Result (Unit {0}) × World). p.1.db) (sym (rw f at h)) in
        elim (execute_either (touched a.platform_id now) w) [
          | inl e ↦ inl (here ∙ e)
          | inr e ↦ inr (here ∙ e)
        ]
  ]

  -- A touched store: the documents are as they were.
  pub record Touched (db db' : Database) : Type 0 where
    pub coherent : IsCoherent k signer db'
    pub view : SameView k db' db
    pub revision : db'.revision ≡ db.revision
    pub grants : db'.grants ≡ db.grants

  touched-Touched :
      (id : String) (now : Time) (db : Database)
      → IsCoherent k signer db
      → Touched db (touched id now db)
  touched-Touched id now db c =
      let db' = touched id now db in
      record {
        coherent =
            untouched-IsCoherent k signer db db' c (same_tables k db db' refl refl refl) refl refl
              refl refl (touched_named id now db.platforms c.named);
        view = same_tables k db' db refl refl refl;
        revision = refl;
        grants = refl;
      }

  pub touch-Touched :
      (a : Audience) (now : Time) (w : World) {u : Unit {0}} {w' : World}
      → IsCoherent k signer w.db
      → touch k a now w ≡ (ok u, w')
      → Touched w.db w'.db
  touch-Touched a now w c h = elim (touch_either a now w h) [
    | inl e ↦ subst (Touched w.db) (sym e) (touched-Touched a.platform_id now w.db c)
    | inr e ↦ subst (Touched w.db) (sym e) (record {
      coherent = c;
      view = same_tables k w.db w.db refl refl refl;
      revision = refl;
      grants = refl;
    })
  ]

  pub grants-IsAudience :
      (db db' : Database) (a : Audience)
      → db'.grants ≡ db.grants
      → IsAudience k signer db a
      → IsAudience k signer db' a
  grants-IsAudience db db' a g (inl e) = inl e
  grants-IsAudience db db' a g (inr (named, e)) =
      inr (named, e ∙ holder_same k signer db db' a.platform_id (sym g))

  -- The two answers with a document at hand: it is sent, or the caller has it already.
  pub HasBody : CatalogRequest → Audience → Snapshot → ℕ → CatalogAnswer → Type 0
  HasBody r audience s n x =
      ((n ≡ 200) × (x ≡ catalog_answer audience s (some s.document)))
      ⊎ ((n ≡ 304)
          × (etag_matches r.if_none_match s.etag ≡ true)
          × (x ≡ catalog_answer audience s none))

  -- What an answer of the catalogue's handler is about: the document that a build would make now.
  pub record IsAnswer (r : CatalogRequest) (audience : Audience) (db : Database) (n : ℕ)
      (x : CatalogAnswer) : Type 0 where
    pub snapshot : Snapshot
    pub answer : HasBody r audience snapshot n x
    pub built :
        Built k signer
          (or_default r.channel "stable")
          (or_default r.platform "1.0.0")
          audience
          db.revision
          db
          snapshot

  answer_catalog_ok :
      (r : CatalogRequest) (a : Audience) (s : Snapshot) {n : ℕ} {x : CatalogAnswer}
      → answer_catalog r.if_none_match a s ≡ json n x
      → HasBody r a s n x
  unfolding answer_catalog HasBody
  answer_catalog_ok r a s {n} {x} h =
      elim (Bool-cases (not (r.if_none_match == "") && etag_matches r.if_none_match s.etag)) [
        | inl t ↦
            let h' : json 304 (catalog_answer a s none) ≡ json n x = rw t at h in
            inr (ground (arith, h'), ground (arith, t), ground (arith, h'))
        | inr f ↦
            let h' : json 200 (catalog_answer a s (some s.document)) ≡ json n x = rw f at h in
            inl (ground (arith, h'), ground (arith, h'))
      ]

  serve_catalog-IsAnswer :
      (r : CatalogRequest) (now : Time) (a : Audience) (w : World) {n : ℕ} {x : CatalogAnswer}
      {w' : World}
      → IsCoherent k signer w.db
      → IsAudience k signer w.db a
      → serve_catalog k signer r now a w ≡ (json n x, w')
      → IsAnswer r a w.db n x × IsCoherent k signer w'.db
  unfolding serve_catalog
  serve_catalog-IsAnswer r now a w {n} {x} {w'} c who h =
      elim (attempt_cases (touch k a now >> catalog k signer r.channel r.platform a now) _ _ w h) [
        | inl (s, v, ran, rest) ↦
            let (_, u, moved, served) = bind_ok (touch k a now) _ w ran in
            let t = touch-Touched a now w c moved in
            let (b, c') =
              catalog-Built k signer r.channel r.platform a now u t.coherent
                (grants-IsAudience w.db u.db a t.grants who) served in
            (
              record {
                snapshot = s;
                answer =
                    answer_catalog_ok r a s (ap (λ (p : Reply CatalogAnswer × World). p.0) rest);
                built =
                    subst
                      (λ (n : ℕ).
                        Built k signer (or_default r.channel "stable")
                          (or_default r.platform "1.0.0") a n w.db s)
                      t.revision
                      (Built-frame k signer (or_default r.channel "stable")
                        (or_default r.platform "1.0.0") a u.db.revision u.db w.db s t.view b);
              },
              subst (IsCoherent k signer) (ap (λ (p : Reply CatalogAnswer × World). p.1.db) rest)
                  c',
            )
        | inr (e, v, ran, rest) ↦ absurd (cc (ap (λ (p : Reply CatalogAnswer × World). p.0) rest))
      ]

  -- A catalogue request that is not refused is answered, from a coherent cache, about the document
  -- that a build of the tables makes now for the audience of the credential presented, with that
  -- audience's caching headers: by 200 with the document, or by 304 without it where the request
  -- names its tag. The caches are coherent afterwards.
  pub handle_catalog-IsAnswer :
      (r : CatalogRequest) (now : Time) (w : World) {n : ℕ} {x : CatalogAnswer} {w' : World}
      → IsCoherent k signer w.db
      → handle_catalog k (some signer) r now w ≡ (json n x, w')
      → IsAnswer r (audience_in k (bearer_token r.authorization) w.db) w.db n x
        × IsCoherent k signer w'.db
  unfolding handle_catalog
  handle_catalog-IsAnswer r now w {n} {x} {w'} c h = elim (Bool-cases (bad_platform k r.platform)) [
    | inl t ↦ absurd (cc (ap (λ (p : Reply CatalogAnswer × World). p.0) (rw t at h)))
    | inr f ↦
        let h' = rw f at h in
        elim (Bool-cases (bad_channel k r.channel)) [
          | inl t ↦ absurd (cc (ap (λ (p : Reply CatalogAnswer × World). p.0) (rw t at h')))
          | inr g ↦
              let token = bearer_token r.authorization in
              elim (attempt_cases (audience_for k token) _ (serve_catalog k signer r now) w
                (rw g at h')) [
                  | inl (a, v, asked, rest) ↦
                      let (e, d) = audience_for_ok k token w asked in
                      let (answer, c') =
                        serve_catalog-IsAnswer r now a v (subst (IsCoherent k signer) (sym d) c)
                          (subst (λ (db : Database). IsAudience k signer db a) (sym d)
                            (subst (IsAudience k signer w.db) (sym e)
                              (audience_in-IsAudience token w.db c)))
                          rest in
                      (
                        subst (λ (b : Audience). IsAnswer r b w.db n x) e
                            (subst (λ (db : Database). IsAnswer r a db n x) d answer),
                        c',
                      )
                  | inr (e, v, asked, rest) ↦
                      absurd (cc (ap (λ (p : Reply CatalogAnswer × World). p.0) rest))
                ]
        ]
  ]
