-- ===== src/System/Coherent.antt =====
-- The caches in every state that the system reaches.
use appstore_gerege_nexus.Prelude.{
  String, Bool, true, false, List, [], ◌∷◌, ◌++◌, Option, none, some, ◌≡◌, ◌≢◌, refl, sym, ap, ◌∙◌,
  arith, inl, inr, In, amend, first, if◌then◌else◌, subst, ◌==◌,
}
use appstore_gerege_nexus.Prelude.Membership.{In-append, In-amend}
use appstore_gerege_nexus.Tables.{Time, Database, Publisher, PlatformRow}
use appstore_gerege_nexus.Contract.{Contract}
use appstore_gerege_nexus.World.{failure, Exec, statement, pure, raise, ◌>>=◌}
use appstore_gerege_nexus.World.Keeps
use appstore_gerege_nexus.World.Keeps.{Keeps}
use appstore_gerege_nexus.Registry.Signing.{Signer}
use appstore_gerege_nexus.Registry.Platforms.{
  Platform, token_digest, null_if_empty, insert_platform, create_platform, update_enabled,
  set_platform_enabled, without_private, discard_private_snapshots,
}
use appstore_gerege_nexus.Text.{trim_space}
use appstore_gerege_nexus.Registry.Publishers.Verification.{publisher_by_id-IsReadOnly}
use appstore_gerege_nexus.Registry.Publishers.{
  Profile, of_tenant, upsert_found, upsert_profile, upsert_publisher, publisher_by_id,
  update_verified, set_publisher_verified,
}
use appstore_gerege_nexus.Registry.Cache.{discard_snapshots}
use appstore_gerege_nexus.Coherence.{IsCoherent}
use appstore_gerege_nexus.Coherence.Frames.{same_tables, untouched-IsCoherent}
use appstore_gerege_nexus.Coherence.Granting.{Regranted-IsCoherent}
use appstore_gerege_nexus.Coherence.Serving.{with_public-IsCoherent}
use appstore_gerege_nexus.Coherence.Refusals.{handle_catalog-IsCoherent}
use appstore_gerege_nexus.Coherence.Access.{handle_grant-IsCoherent, handle_revoke-IsCoherent}
use appstore_gerege_nexus.Coherence.Registering.{upsert_app-IsCoherent}
use appstore_gerege_nexus.Coherence.Submitting.{submit_manifest-IsCoherent}
use appstore_gerege_nexus.Coherence.Publishing.{decide_version-IsCoherent}
use appstore_gerege_nexus.Registry.Operators.{actor, handle_grant, handle_revoke}
use appstore_gerege_nexus.System.{arrived, IsOrdinary, Reaches}
use appstore_gerege_nexus.System.Handlers.{Kept, handle_create_platform-Keeps, Reaches-Keeps}

module _ (k : Contract) (signer : Signer) where
  -- Tables that no document is built from.
  publishers-IsCoherent :
      (db : Database) (rows : List Publisher)
      → IsCoherent k signer db
      → IsCoherent k signer (record db { publishers = rows })
  publishers-IsCoherent db rows c =
      untouched-IsCoherent k signer db (record db { publishers = rows }) c
        (same_tables k _ _ refl refl refl) refl refl refl refl c.named

  platforms-IsCoherent :
      (db : Database) (rows : List PlatformRow)
      → IsCoherent k signer db
      → ((p : PlatformRow) → In p rows → p.id ≢ "")
      → IsCoherent k signer (record db { platforms = rows })
  platforms-IsCoherent db rows c named =
      untouched-IsCoherent k signer db (record db { platforms = rows }) c
        (same_tables k _ _ refl refl refl) refl refl refl refl named

  discard_snapshots-IsCoherent : Keeps (IsCoherent k signer) discard_snapshots
  unfolding discard_snapshots
  discard_snapshots-IsCoherent = Keeps.statement-Keeps (IsCoherent k signer) _ (λ db n db' c h.
      let e : record db { snapshots = [] } ≡ db' = ground arith in
      subst (IsCoherent k signer) e (with_public-IsCoherent k signer db [] c (λ r i. absurd i)))

  discard-IsCoherent :
      (platform_id : String) → Keeps (IsCoherent k signer) (discard_private_snapshots platform_id)
  unfolding discard_private_snapshots
  discard-IsCoherent platform_id =
      Keeps.execute-Keeps (IsCoherent k signer) (without_private platform_id) (λ db c.
        Regranted-IsCoherent k signer platform_id db db c
          (record { same = refl; others = λ id ne. refl }))

  set_platform_enabled-IsCoherent :
      (id : String) (on : Bool) (now : Time)
      → Keeps (IsCoherent k signer) (set_platform_enabled id on now)
  unfolding set_platform_enabled update_enabled
  set_platform_enabled-IsCoherent id on now =
      Keeps.statement-Keeps (IsCoherent k signer) (update_enabled id on now) (λ db u db' c h.
        let e : record db {
          platforms =
              amend (λ p. p.id == id)
                (λ p. record p { disabled_at = if on then none else some now }) db.platforms;
        }
            ≡ db' =
          ground arith in
        subst (IsCoherent k signer) e (
          platforms-IsCoherent db _ c (λ p i.
            let (q, j, made) =
              In-amend (λ p. p.id == id)
                (λ p. record p { disabled_at = if on then none else some now }) p db.platforms i in
            λ empty. c.named q j (by_test (q.id == id) p q made ∙ empty))))
    where
      by_test :
          (b : Bool) (p q : PlatformRow)
          → p ≡ (if b then record q { disabled_at = if on then none else some now } else q)
          → q.id ≡ p.id
      by_test true p q made = ap (λ (x : PlatformRow). x.id) (sym made)
      by_test false p q made = ap (λ (x : PlatformRow). x.id) (sym made)

  insert_platform-IsCoherent :
      (row : PlatformRow)
      → row.id ≢ ""
      → Keeps (IsCoherent k signer) (statement (insert_platform k row))
  unfolding insert_platform
  insert_platform-IsCoherent row named =
      Keeps.statement-Keeps (IsCoherent k signer) (insert_platform k row) (λ db p db' c h.
        let e : record db { platforms = db.platforms ++ row ∷ [] } ≡ db' = ground arith in
        subst (IsCoherent k signer) e (
          platforms-IsCoherent db (db.platforms ++ row ∷ []) c (λ q i.
            elim (In-append q db.platforms (row ∷ []) i) [
              | inl j ↦ c.named q j
              | inr (inl e) ↦ λ empty. named (ap (λ (x : PlatformRow). x.id) (sym e) ∙ empty)
              | inr (inr x) ↦ absurd x
            ])))

  create_platform-IsCoherent :
      (name origin note actor : String) (minted : Option String) (id : String) (now : Time)
      → id ≢ ""
      → Keeps (IsCoherent k signer) (create_platform k name origin note actor minted id now)
  unfolding create_platform
  create_platform-IsCoherent name origin note actor minted id now named =
      Keeps.if-Keeps (IsCoherent k signer) (trim_space name == "") _ _
        (Keeps.raise-Keeps (IsCoherent k signer) (Platform × String)
          (failure "a platform needs a name"))
        (by_token minted)
    where
      by_token :
          (t : Option String)
          → Keeps (IsCoherent k signer) (elim t as (λ _. Exec (Platform × String)) [
            | none ↦ raise (failure "rand")
            | some token ↦
                statement (
                  insert_platform k (record {
                    id = id;
                    name = trim_space name;
                    origin = trim_space origin;
                    note = trim_space note;
                    token_digest = token_digest k token;
                    disabled_at = none;
                    last_seen_at = none;
                    created_at = now;
                    created_by = null_if_empty actor;
                  }))
                >>= λ p. pure (p, token)
          ])
      by_token none = Keeps.raise-Keeps (IsCoherent k signer) (Platform × String) (failure "rand")
      by_token (some token) =
          Keeps.bind-Keeps (IsCoherent k signer) _ _ (insert_platform-IsCoherent _ named)
            (λ p. Keeps.pure-Keeps (IsCoherent k signer) (p, token))

  update_verified-IsCoherent :
      (id : String) (verified : Bool) (actor : String) (now : Time)
      → Keeps (IsCoherent k signer) (set_publisher_verified id verified actor now)
  unfolding set_publisher_verified update_verified
  update_verified-IsCoherent id verified actor now =
      Keeps.statement-Keeps (IsCoherent k signer) (update_verified id verified actor now)
        (λ db u db' c h.
          let e : record db { publishers = db'.publishers } ≡ db' = ground arith in
          subst (IsCoherent k signer) e (publishers-IsCoherent db db'.publishers c))

  upsert_found-rest :
      (p : Profile) (id : String) (now : Time) (db : Database) (old : Option Publisher)
      → record db { publishers = (upsert_found p id now db old).1.publishers }
        ≡ (upsert_found p id now db old).1
  upsert_found-rest p id now db none = refl
  upsert_found-rest p id now db (some q) = refl

  upsert_publisher-IsCoherent :
      (p : Profile) (id : String) (now : Time)
      → Keeps (IsCoherent k signer) (upsert_publisher p id now)
  unfolding upsert_publisher upsert_profile
  upsert_publisher-IsCoherent p id now =
      Keeps.bind-Keeps (IsCoherent k signer) (statement (upsert_profile p id now)) publisher_by_id
        (Keeps.statement-Keeps (IsCoherent k signer) (upsert_profile p id now) (λ db s db' c h.
          let old = first (of_tenant p.tenant_id) db.publishers in
          let e : (upsert_found p id now db old).1 ≡ db' = ground arith in
          subst (IsCoherent k signer) (upsert_found-rest p id now db old ∙ e)
            (publishers-IsCoherent db _ c)))
        (λ s w c. subst (IsCoherent k signer) (sym (publisher_by_id-IsReadOnly s w)) c)

  kept : Kept k signer IsOrdinary (IsCoherent k signer)
  kept = record {
    catalog = handle_catalog-IsCoherent k signer;
    discarded = discard_snapshots-IsCoherent;
    discarded_private = discard-IsCoherent;
    platform = λ caller body minted id now a db named.
        handle_create_platform-Keeps k (IsCoherent k signer) caller body minted id now
          (λ name origin note.
            create_platform-IsCoherent name origin note (actor caller) minted id now named)
          (arrived a db);
    enabled = set_platform_enabled-IsCoherent;
    granted = λ caller platform_id app_id now a db unfailing c.
        subst
          (λ (fs : List Bool).
            IsCoherent k signer
              (handle_grant caller platform_id app_id now
                (record { db = db; faults = fs; audits = [] })).1.db)
          (sym unfailing) (handle_grant-IsCoherent k signer caller platform_id app_id now db [] c);
    revoked = λ caller platform_id app_id a db unfailing c.
        subst
          (λ (fs : List Bool).
            IsCoherent k signer
              (handle_revoke caller platform_id app_id
                (record { db = db; faults = fs; audits = [] })).1.db)
          (sym unfailing) (handle_revoke-IsCoherent k signer caller platform_id app_id db [] c);
    profile = upsert_publisher-IsCoherent;
    app = upsert_app-IsCoherent k signer;
    submission = submit_manifest-IsCoherent k signer;
    decision = decide_version-IsCoherent k signer;
    verified = update_verified-IsCoherent;
  }

  -- From coherent caches, whatever requests arrive, one after the other, whatever they ask and
  -- whichever of their statements fail, except those of a grant or a revocation, and where the
  -- database makes no empty identifier for a platform, the caches stay coherent: a cached document
  -- of the current revision is the one that a build would give.
  pub Reaches-IsCoherent :
      (start db : Database)
      → Reaches k signer IsOrdinary start db
      → IsCoherent k signer start
      → IsCoherent k signer db
  Reaches-IsCoherent = Reaches-Keeps k signer IsOrdinary (IsCoherent k signer) kept
