-- ===== src/Import/Landed.antt =====
-- The rows that the import leaves in store_publishers.
use appstore_gerege_nexus.Prelude.{
  String, Bool, true, false, not, List, [], ◌∷◌, ◌++◌, some, ◌≡◌, refl, ap, ◌∙◌, arith, ◌⊎◌, inl,
  inr, first, any, amend, ◌==◌, ◌&&◌, ◌||◌, eq_iff, eq_refl, Bool-cases,
}
use appstore_gerege_nexus.Prelude.Appending.{first_last, first-any}
use appstore_gerege_nexus.Tables.{Time, Publisher}
use appstore_gerege_nexus.World.{ok}
use appstore_gerege_nexus.Import.Session.{Target}
use appstore_gerege_nexus.Import.Transfer.{
  SourcePublisher, imported_publisher, overwritten, write_publisher,
}

abbrev pub with_id : String → Publisher → Bool
with_id id q = q.id == id

module _ {A : Type 0} (p : A → Bool) (f : A → A) where
  first-amend :
      (xs : List A)
      → ((x : A) → p x ≡ true → p (f x) ≡ true)
      → any p xs ≡ true
      → (x : A) × (first p (amend p f xs) ≡ some (f x))
  first-amend [] keeps h = absurd (cc h)
  first-amend (x ∷ xs) keeps h = elim (Bool-cases (p x)) [
    | inl t ↦ (x, rw (t, keeps x t) refl)
    | inr n ↦ let h' = rw n at h in let (y, e) = first-amend xs keeps h' in (y, rw (n, n) e)
  ]

  first-amend_other :
      (q : A → Bool) (xs : List A)
      → ((x : A) → p x ≡ true → q x ≡ false)
      → ((x : A) → p x ≡ true → q (f x) ≡ false)
      → first q (amend p f xs) ≡ first q xs
  first-amend_other q [] before after = refl
  first-amend_other q (x ∷ xs) before after = elim (Bool-cases (p x)) [
    | inl t ↦ rw (t, before x t, after x t) (first-amend_other q xs before after)
    | inr n ↦ elim (Bool-cases (q x)) [
      | inl y ↦ rw (n, y) refl
      | inr z ↦ rw (n, z) (first-amend_other q xs before after)
    ]
  ]

first-append_other :
    {A : Type 0} (q : A → Bool) (xs : List A) (a : A)
    → q a ≡ false
    → first q (xs ++ a ∷ []) ≡ first q xs
first-append_other q [] a n = rw n refl
first-append_other q (x ∷ xs) a n = elim (Bool-cases (q x)) [
  | inl t ↦ rw t refl
  | inr f ↦ rw f (first-append_other q xs a n)
]

-- The row under a publisher's identifier has what the source says of it.
pub record Entered (p : SourcePublisher) (tenant_id : String) (now : Time) (t : Target)
    : Type 0 where
  pub row : Publisher
  pub found : first (with_id p.id) t.publishers ≡ some row
  pub tenant : row.tenant_id ≡ tenant_id
  pub slug : row.slug ≡ p.slug
  pub name : row.name ≡ p.name
  pub contact_email : row.contact_email ≡ p.email
  pub verified : row.verified ≡ p.verified
  pub updated_at : row.updated_at ≡ now

module _ (p : SourcePublisher) (tenant_id : String) (now : Time) (t : Target) where
  -- Either way to write the row.
  write_publisher_cases :
      {u : Unit {0}} {t' : Target}
      → write_publisher p tenant_id now t ≡ ok (u, t')
      → ((any (with_id p.id) t.publishers ≡ true)
          × (t'.publishers ≡ amend (with_id p.id) (overwritten p tenant_id now) t.publishers))
        ⊎ ((any (with_id p.id) t.publishers ≡ false)
            × (t'.publishers ≡ t.publishers ++ imported_publisher p tenant_id now ∷ []))
  unfolding write_publisher
  write_publisher_cases {u} {t'} h =
      elim (Bool-cases (
        any (λ q. not (q.id == p.id) && (q.tenant_id == tenant_id || q.slug == p.slug))
          t.publishers)) [
            | inl taken ↦ let h' = rw taken at h in absurd (cc h')
            | inr free ↦ elim (Bool-cases (any (with_id p.id) t.publishers)) [
              | inl old ↦ let h' = rw (free, old) at h in inl (old, ground arith)
              | inr fresh ↦ let h' = rw (free, fresh) at h in inr (fresh, ground arith)
            ]
          ]

  pub write_publisher-Entered :
      {u : Unit {0}} {t' : Target}
      → write_publisher p tenant_id now t ≡ ok (u, t')
      → Entered p tenant_id now t'
  write_publisher-Entered {u} {t'} h = elim (write_publisher_cases h) [
    | inl (old, e) ↦
        let (q, found) =
          first-amend (with_id p.id) (overwritten p tenant_id now) t.publishers (λ x i. i) old in
        record {
          row = overwritten p tenant_id now q;
          found = ap (first (with_id p.id)) e ∙ found;
          tenant = refl;
          slug = refl;
          name = refl;
          contact_email = refl;
          verified = refl;
          updated_at = refl;
        }
    | inr (fresh, e) ↦ record {
      row = imported_publisher p tenant_id now;
      found =
          ap (first (with_id p.id)) e
          ∙ first_last (with_id p.id) t.publishers (imported_publisher p tenant_id now)
              (first-any (with_id p.id) t.publishers fresh) (eq_refl p.id);
      tenant = refl;
      slug = refl;
      name = refl;
      contact_email = refl;
      verified = refl;
      updated_at = refl;
    }
  ]

  -- The row under another identifier stays.
  pub write_publisher_other :
      (id : String) {u : Unit {0}} {t' : Target}
      → (p.id == id) ≡ false
      → write_publisher p tenant_id now t ≡ ok (u, t')
      → first (with_id id) t'.publishers ≡ first (with_id id) t.publishers
  write_publisher_other id {u} {t'} n h = elim (write_publisher_cases h) [
    | inl (old, e) ↦
        ap (first (with_id id)) e
        ∙ first-amend_other (with_id p.id) (overwritten p tenant_id now) (with_id id) t.publishers
            (λ x i. unlike x.id i) (λ x i. unlike x.id i)
    | inr (fresh, e) ↦
        ap (first (with_id id)) e
        ∙ first-append_other (with_id id) t.publishers (imported_publisher p tenant_id now) n
  ]
    where
      unlike : (x : String) → (x == p.id) ≡ true → (x == id) ≡ false
      unlike x e = rw ((eq_iff x p.id).0 e) n
