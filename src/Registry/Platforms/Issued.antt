-- ===== src/Registry/Platforms/Issued.antt =====
-- A platform's credential: the token that CreatePlatform of modules/registry/platforms.go answers
-- once, and PlatformByToken.
use appstore_gerege_nexus.Prelude.{
  String, false, [], ◌∷◌, ◌++◌, Option, none, some, ◌≡◌, ◌≢◌, refl, sym, ap, ◌∙◌, arith, inl, inr,
  any, first, ◌==◌, eq_iff, Bool-cases, subst,
}
use appstore_gerege_nexus.Prelude.Appending.{first_last, first-any}
use appstore_gerege_nexus.Text.{trim_space}
use appstore_gerege_nexus.Tables.{Time, Database, PlatformRow}
use appstore_gerege_nexus.Contract.{Contract}
use appstore_gerege_nexus.World.{
  ok, World, statement, settle, under_faults, query, pure, raise, ◌>>=◌,
}
use appstore_gerege_nexus.World.Laws.{statement_ok, pure_ok, bind_ok}
use appstore_gerege_nexus.Registry.Platforms.{
  Platform, platform_of, null_if_empty, token_digest, recognised, platform_with_digest,
  platform_by_token, insert_platform, create_platform,
}

module _ (k : Contract) where
  insert_platform_ok :
      (row : PlatformRow) (db : Database) {p : Platform} {db' : Database}
      → insert_platform k row db ≡ ok (p, db')
      → (p ≡ platform_of row [])
        × (any (λ q. q.token_digest == row.token_digest) db.platforms ≡ false)
        × (db'.platforms ≡ db.platforms ++ row ∷ [])
  unfolding insert_platform
  insert_platform_ok row db h = ground arith

  -- Where no statement fails, a token that is not empty is answered by the row of its digest.
  platform_by_token_quiet :
      (token : String) (v : World)
      → token ≢ ""
      → v.faults ≡ []
      → (platform_by_token k token v).0
        ≡ ok (recognised k (platform_with_digest k (token_digest k token) v.db))
  unfolding platform_by_token query statement under_faults settle ◌>>=◌ pure
  platform_by_token_quiet token v some_token quiet = elim (Bool-cases (token == "")) [
    | inl t ↦ absurd (some_token ((eq_iff token "").0 t))
    | inr f ↦ rw (f, quiet) refl
  ]

  created :
      (row : PlatformRow) (w : World) (token : String) {p : Platform} {w' : World}
      → row.token_digest ≡ token_digest k token
      → row.disabled_at ≡ none
      → statement (insert_platform k row) w ≡ (ok p, w')
      → recognised k (platform_with_digest k (token_digest k token) w'.db) ≡ some p
  unfolding platform_with_digest
  created row w token {p} {w'} its on h =
      let (e, free, grown) =
        insert_platform_ok row w.db (statement_ok (insert_platform k row) w h).0 in
      let fresh : any (λ q. q.token_digest == token_digest k token) w.db.platforms ≡ false =
        subst (λ (d : String). any (λ q. q.token_digest == d) w.db.platforms ≡ false) its free in
      let found : first (λ q. q.token_digest == token_digest k token) w'.db.platforms ≡ some row =
        ap (first (λ q. q.token_digest == token_digest k token)) grown
        ∙ first_last (λ q. q.token_digest == token_digest k token) w.db.platforms row
            (first-any (λ q. q.token_digest == token_digest k token) w.db.platforms fresh)
            ((eq_iff row.token_digest (token_digest k token)).1 its) in
      ap (recognised k) found ∙ enabled_row ∙ ap (λ (q : Platform). some q) (sym e)
    where
      enabled_row : recognised k (some row) ≡ some (platform_of row [])
      enabled_row = rw on refl

  -- Registering a platform and presenting the token that was answered: where the token is not
  -- empty and no statement of the look-up fails, the platform that comes back is the one that was
  -- registered.
  pub create_platform-platform_by_token :
      (name origin note actor_id : String) (minted : Option String) (id : String) (now : Time)
      (w : World) {p : Platform} {token : String} {w' : World}
      → create_platform k name origin note actor_id minted id now w ≡ (ok (p, token), w')
      → token ≢ ""
      → (v : World) → v.db ≡ w'.db
      → v.faults ≡ []
      → (platform_by_token k token v).0 ≡ ok (some p)
  unfolding create_platform raise
  create_platform-platform_by_token name origin note actor_id none id now w h some_token v same
        quiet =
      elim (Bool-cases (trim_space name == "")) [
        | inl t ↦ let h' = rw t at h in absurd (cc h')
        | inr f ↦ let h' = rw f at h in absurd (cc h')
      ]
  create_platform-platform_by_token name origin note actor_id (some minted) id now w {p} {token}
        {w'} h some_token v same quiet =
      elim (Bool-cases (trim_space name == "")) [
        | inl t ↦ let h' = rw t at h in absurd (cc h')
        | inr f ↦
            let (q, x, inserted, last) =
              bind_ok (statement (insert_platform k row)) (λ q. pure (q, minted)) w (rw f at h) in
            let (e, ends) = pure_ok (q, minted) x last in
            let is_q : q ≡ p = ap (λ (a : Platform × String). a.0) (sym e) in
            let is_token : minted ≡ token = ap (λ (a : Platform × String). a.1) (sym e) in
            platform_by_token_quiet token v some_token quiet
            ∙ ap
                (λ (d : Database).
                  ok (recognised k (platform_with_digest k (token_digest k token) d)))
                (same ∙ ends)
            ∙ ap (λ (a : Option Platform). ok a)
                (created row w token (ap (token_digest k) is_token) refl inserted
                  ∙ ap (λ (a : Platform). some a) is_q)
      ]
    where
      row : PlatformRow
      row = record {
        id = id;
        name = trim_space name;
        origin = trim_space origin;
        note = trim_space note;
        token_digest = token_digest k minted;
        disabled_at = none;
        last_seen_at = none;
        created_at = now;
        created_by = null_if_empty actor_id;
      }
