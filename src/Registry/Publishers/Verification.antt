-- ===== src/Registry/Publishers/Verification.antt =====
-- UpsertPublisher of modules/registry/store.go and the verified flag of the publishers.
use appstore_gerege_nexus.Prelude.{
  String, Bool, true, false, [], ◌∷◌, Option, none, some, ◌≡◌, refl, sym, ap, ◌∙◌, arith, inl, inr,
  ◌==◌, Bool-cases, In, first, if◌then◌else◌, subst,
}
use appstore_gerege_nexus.Prelude.Membership.{In-append, In-amend}
use appstore_gerege_nexus.Tables.{Time, Database, Publisher}
use appstore_gerege_nexus.World.{ok, World, statement}
use appstore_gerege_nexus.World.Laws.{statement_ok, statement_err, outcome}
use appstore_gerege_nexus.World.Reads.{IsReadOnly, query-IsReadOnly, bind-IsReadOnly, bind_db}
use appstore_gerege_nexus.Registry.Submissions.Effects.{or_not_found-IsReadOnly}
use appstore_gerege_nexus.Registry.Publishers.{
  Profile, of_tenant, edit_profile, new_publisher, slug_taken, upsert_found, upsert_profile,
  publisher_by_id, upsert_publisher,
}

-- The store had this publisher, verified by the same operator.
pub record WasVerified (db : Database) (p : Publisher) : Type 0 where
  pub before : Publisher
  pub listed : In before db.publishers
  pub id : before.id ≡ p.id
  pub tenant : before.tenant_id ≡ p.tenant_id
  pub verified : before.verified ≡ true
  pub verified_by : before.verified_by ≡ p.verified_by

was : (db : Database) (p : Publisher) → In p db.publishers → p.verified ≡ true → WasVerified db p
was db p i v = record {
  before = p;
  listed = i;
  id = refl;
  tenant = refl;
  verified = v;
  verified_by = refl;
}

upsert_found-honest :
    (profile : Profile) (id : String) (now : Time) (db : Database) (old : Option Publisher)
    (p : Publisher)
    → In p (upsert_found profile id now db old).1.publishers
    → p.verified ≡ true
    → WasVerified db p
upsert_found-honest profile id now db none p i v =
    elim (In-append p db.publishers (new_publisher profile id now ∷ []) i) [
      | inl j ↦ was db p j v
      | inr (inl e) ↦ cc (v, ap (λ (q : Publisher). q.verified) e)
      | inr (inr x) ↦ absurd x
    ]
upsert_found-honest profile id now db (some q) p i v =
    let (r, j, e) =
      In-amend (of_tenant profile.tenant_id) (edit_profile profile now) p db.publishers i in
    by_test r j (of_tenant profile.tenant_id r) e
  where
    by_test :
        (r : Publisher)
        → In r db.publishers
        → (b : Bool) → p ≡ (if b then edit_profile profile now r else r)
        → WasVerified db p
    by_test r j false e =
        subst (WasVerified db) (sym e) (was db r j (ap (λ (x : Publisher). x.verified) (sym e) ∙ v))
    by_test r j true e = record {
      before = r;
      listed = j;
      id = ap (λ (x : Publisher). x.id) (sym e);
      tenant = ap (λ (x : Publisher). x.tenant_id) (sym e);
      verified = ap (λ (x : Publisher). x.verified) (sym e) ∙ v;
      verified_by = ap (λ (x : Publisher). x.verified_by) (sym e);
    }

upsert_profile-honest :
    (profile : Profile) (id : String) (now : Time) (db : Database) {s : String} {db' : Database}
    (p : Publisher)
    → upsert_profile profile id now db ≡ ok (s, db')
    → In p db'.publishers
    → p.verified ≡ true
    → WasVerified db p
unfolding upsert_profile
upsert_profile-honest profile id now db {s} {db'} p h i v =
    elim (Bool-cases (slug_taken profile db.publishers)) [
      | inl t ↦ let h' = rw t at h in cc
      | inr f ↦
          let h' = rw f at h in
          let same : (upsert_found profile id now db
                (first (of_tenant profile.tenant_id) db.publishers)).1
              ≡ db' =
            ground arith in
          upsert_found-honest profile id now db (first (of_tenant profile.tenant_id) db.publishers)
            p (subst (λ (d : Database). In p d.publishers) (sym same) i) v
    ]

pub publisher_by_id-IsReadOnly : (id : String) → IsReadOnly (publisher_by_id id)
unfolding publisher_by_id
publisher_by_id-IsReadOnly id =
    bind-IsReadOnly _ _ (query-IsReadOnly (λ db. first (λ p. p.id == id) db.publishers))
      or_not_found-IsReadOnly

-- Saving a profile, whether it succeeds or fails, verifies no publisher: each that is verified
-- afterwards was so before, for the same organisation and by the same operator.
pub upsert_publisher-honest :
    (profile : Profile) (id : String) (now : Time) (w : World) (p : Publisher)
    → In p (upsert_publisher profile id now w).1.db.publishers
    → p.verified ≡ true
    → WasVerified w.db p
unfolding upsert_publisher
upsert_publisher-honest profile id now w p i v =
    let m = statement (upsert_profile profile id now) in
    let i' =
      subst (λ (d : Database). In p d.publishers)
        (bind_db m publisher_by_id w publisher_by_id-IsReadOnly) i in
    elim (outcome m w) [
      | inl (s, h) ↦
          upsert_profile-honest profile id now w.db p
            (statement_ok (upsert_profile profile id now) w h).0 i' v
      | inr (e, h) ↦
          was w.db p
            (subst (λ (d : Database). In p d.publishers)
              (statement_err (upsert_profile profile id now) w h).0 i')
            v
    ]
