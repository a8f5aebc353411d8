-- ===== src/Registry/Platforms/Audiences.antt =====
-- Whom a credential stands for, by AudienceFor of modules/registry/platforms.go.
use appstore_gerege_nexus.Prelude.{
  String, Bool, true, false, List, [], ◌∷◌, Option, none, some, ◌≡◌, ◌≢◌, refl, sym, ap, ◌⊎◌, inl,
  inr, ◌==◌, eq_iff, Bool-cases, In, if◌then◌else◌, ◌∙◌, subst,
}
use mathlib.Core.Path.{ap₂}
use appstore_gerege_nexus.Prelude.Membership.{In-keep, In-map, first_sound}
use appstore_gerege_nexus.Sorting.Laws.{In-order_by}
use appstore_gerege_nexus.Tables.{Time, Database, PlatformRow, GrantRow}
use appstore_gerege_nexus.Contract.{Contract}
use appstore_gerege_nexus.World.{ok, World, query, pure, ◌>>=◌}
use appstore_gerege_nexus.World.Reads.{IsReadOnly, query-IsReadOnly, bind-IsReadOnly}
use appstore_gerege_nexus.World.Laws.{bind_ok, query_ok, pure_ok}
use appstore_gerege_nexus.Registry.Platforms.{
  Platform, Audience, nobody, recognised, enabled, platform_of, token_digest, platform_with_digest,
  platform_by_token, granted, granted_app_ids, audience_of, audience_for_platform, audience_for,
}

module _ (k : Contract) where
  In-granted :
      (platform_id app_id : String) (db : Database)
      → In app_id (granted k platform_id db)
      → (g : GrantRow) × In g db.grants × (g.app_id ≡ app_id) × (g.platform_id ≡ platform_id)
  unfolding granted
  In-granted platform_id app_id db h =
      let (g, i, e) = In-map (λ g. g.app_id) app_id _ (In-order_by k.collate app_id _ h) in
      let (j, t) = In-keep (λ g. g.platform_id == platform_id) g db.grants i in
      (g, j, sym e, (eq_iff _ _).0 t)

  -- The audience as a function of the tables.
  abbrev pub audience_of_row : Database → Option PlatformRow → Audience
  audience_of_row db none = nobody
  audience_of_row db (some p) =
      if enabled p.disabled_at then audience_of k p.id (granted k p.id db) else nobody

  abbrev pub audience_in : String → Database → Audience
  audience_in token db =
      if token == ""
      then nobody
      else audience_of_row db (platform_with_digest k (token_digest k token) db)

  audience_of_enabled :
      (b : Bool) (p : PlatformRow) (w : World) {a : Audience} {w' : World}
      → audience_for_platform k (if b then some (platform_of p []) else none) w ≡ (ok a, w')
      → (a ≡ (if b then audience_of k p.id (granted k p.id w.db) else nobody)) × (w'.db ≡ w.db)
  unfolding audience_for_platform granted_app_ids
  audience_of_enabled false p w h = pure_ok nobody w h
  audience_of_enabled true p w h =
      let (ids, v, asked, rest) =
        bind_ok (query (granted k p.id)) (λ ids. pure (audience_of k p.id ids)) w h in
      let (e, d) = query_ok (granted k p.id) w asked in
      let (e', d') = pure_ok (audience_of k p.id ids) v rest in
      (e' ∙ ap (audience_of k p.id) e, d' ∙ d)

  audience_for_platform_ok :
      (row : Option PlatformRow) (w : World) {a : Audience} {w' : World}
      → audience_for_platform k (recognised k row) w ≡ (ok a, w')
      → (a ≡ audience_of_row w.db row) × (w'.db ≡ w.db)
  unfolding audience_for_platform
  audience_for_platform_ok none w h = pure_ok nobody w h
  audience_for_platform_ok (some p) w h = audience_of_enabled (enabled p.disabled_at) p w h

  audience_for_test :
      (b : Bool) (token : String) (w : World) {a : Audience} {w' : World}
      → ((if b
              then pure none
              else query (platform_with_digest k (token_digest k token)) >>= λ row.
                  pure (recognised k row))
            >>= audience_for_platform k)
          w
        ≡ (ok a, w')
      → (a ≡ (
          if b
          then nobody
          else audience_of_row w.db (platform_with_digest k (token_digest k token) w.db)))
        × (w'.db ≡ w.db)
  audience_for_test true token w h =
      let (found, v, asked, rest) = bind_ok (pure none) (audience_for_platform k) w h in
      let (e, d) = pure_ok none w asked in
      let (e', d') = audience_for_platform_ok none v (rw e at rest) in (e', d' ∙ d)
  audience_for_test false token w h =
      let lookup = query (platform_with_digest k (token_digest k token)) in
      let (found, u, asked, rest) =
        bind_ok (lookup >>= λ row. pure (recognised k row)) (audience_for_platform k) w h in
      let (row, v, read, made) = bind_ok lookup (λ row. pure (recognised k row)) w asked in
      let (e, d) = query_ok (platform_with_digest k (token_digest k token)) w read in
      let (e', d') = pure_ok (recognised k row) v made in
      let (e'', d'') = audience_for_platform_ok row u (rw e' at rest) in
      (e'' ∙ ap₂ audience_of_row (d' ∙ d) e, d'' ∙ d' ∙ d)

  -- What AudienceFor answers, when it answers, and that it writes nothing.
  pub audience_for_ok :
      (token : String) (w : World) {a : Audience} {w' : World}
      → audience_for k token w ≡ (ok a, w')
      → (a ≡ audience_in token w.db) × (w'.db ≡ w.db)
  unfolding audience_for platform_by_token
  audience_for_ok token w h = audience_for_test (token == "") token w h

  -- A credential's holder, and the grants that its apps come from.
  pub record Entitled (token : String) (db : Database) (a : Audience) : Type 0 where
    pub holder : PlatformRow
    pub registered : In holder db.platforms
    pub identity : a.platform_id ≡ holder.id
    pub credential : holder.token_digest ≡ k.sha256 token
    pub active : holder.disabled_at ≡ none
    pub presented : token ≢ ""
    pub grants :
        (app_id : String)
        → In app_id a.app_ids
        → (g : GrantRow) × In g db.grants × (g.app_id ≡ app_id) × (g.platform_id ≡ holder.id)

  Entitled-holder :
      (token : String) (db : Database) (p : PlatformRow) (ids : List String)
      → ids ≡ granted k p.id db
      → platform_with_digest k (token_digest k token) db ≡ some p
      → p.disabled_at ≡ none
      → (token == "") ≡ false
      → (audience_of k p.id ids ≡ nobody) ⊎ Entitled token db (audience_of k p.id ids)
  unfolding platform_with_digest
  Entitled-holder token db p [] same found active presented = inl refl
  Entitled-holder token db p (i ∷ ids) same found active presented =
      let (listed, digest) =
        first_sound (λ p. p.token_digest == token_digest k token) p db.platforms found in
      inr (record {
        holder = p;
        registered = listed;
        identity = refl;
        credential = (eq_iff _ _).0 digest;
        active = active;
        presented = λ e. cc (presented, (eq_iff token "").1 e);
        grants = λ app_id m. In-granted p.id app_id db (subst (In app_id) same m);
      })

  audience_in_row :
      (token : String) (db : Database) (row : Option PlatformRow)
      → platform_with_digest k (token_digest k token) db ≡ row
      → (token == "") ≡ false
      → (audience_of_row db row ≡ nobody) ⊎ Entitled token db (audience_of_row db row)
  audience_in_row token db none e p = inl refl
  audience_in_row token db (some r) e p = by_state r.disabled_at refl
    where
      by_state :
          (d : Option Time)
          → r.disabled_at ≡ d
          → ((if enabled d then audience_of k r.id (granted k r.id db) else nobody) ≡ nobody)
            ⊎ Entitled token db
                (if enabled d then audience_of k r.id (granted k r.id db) else nobody)
      by_state none s = Entitled-holder token db r (granted k r.id db) refl e s p
      by_state (some t) s = inl refl

  audience_in-Entitled :
      (token : String) (db : Database)
      → (audience_in token db ≡ nobody) ⊎ Entitled token db (audience_in token db)
  audience_in-Entitled token db = elim (Bool-cases (token == "")) [
    | inl t ↦ rw t (inl refl)
    | inr f ↦
        rw f (audience_in_row token db (platform_with_digest k (token_digest k token) db) refl f)
  ]

  -- An audience that names a platform is that of a registered, enabled platform, whose stored
  -- digest is that of the token presented; each app of it stands in a grant to that platform. And
  -- resolving a credential writes nothing.
  pub audience_for-Entitled :
      (token : String) (w : World) {a : Audience} {w' : World}
      → audience_for k token w ≡ (ok a, w')
      → ((a ≡ nobody) ⊎ Entitled token w.db a) × (w'.db ≡ w.db)
  audience_for-Entitled token w h =
      let (e, d) = audience_for_ok token w h in (rw e (audience_in-Entitled token w.db), d)

  audience_for_platform-IsReadOnly : (p : Option Platform) → IsReadOnly (audience_for_platform k p)
  unfolding audience_for_platform granted_app_ids pure
  audience_for_platform-IsReadOnly none = λ w. refl
  audience_for_platform-IsReadOnly (some p) =
      bind-IsReadOnly _ _ (query-IsReadOnly (granted k p.id)) (λ ids w. refl)

  token-IsReadOnly :
      (b : Bool) (token : String)
      → IsReadOnly (
          if b
          then pure none
          else query (platform_with_digest k (token_digest k token)) >>= λ row.
              pure (recognised k row))
  unfolding pure
  token-IsReadOnly true token w = refl
  token-IsReadOnly false token w =
      bind-IsReadOnly (query (platform_with_digest k (token_digest k token)))
        (λ row. pure (recognised k row))
        (query-IsReadOnly (platform_with_digest k (token_digest k token))) (λ row v. refl) w

  -- Resolving a credential writes nothing, whatever it answers.
  pub audience_for-IsReadOnly : (token : String) → IsReadOnly (audience_for k token)
  unfolding audience_for platform_by_token
  audience_for-IsReadOnly token =
      bind-IsReadOnly _ _ (token-IsReadOnly (token == "") token) audience_for_platform-IsReadOnly
