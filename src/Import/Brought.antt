-- ===== src/Import/Brought.antt =====
-- The copied rows that the import adds are the source's, as they were read.
use appstore_gerege_nexus.Prelude.{
  Bool, true, false, List, [], ◌∷◌, ◌++◌, ◌≡◌, refl, sym, ap, ◌∙◌, inl, inr, any, if◌then◌else◌,
  subst, In,
}
use appstore_gerege_nexus.Prelude.Appending.{append_nil, append_assoc}
use appstore_gerege_nexus.Prelude.Membership.{In-append}
use appstore_gerege_nexus.Tables.{ExternalRegistration}
use appstore_gerege_nexus.Import.Session.{Target, AppCopy, VersionCopy, TextCopy, EventCopy}
use appstore_gerege_nexus.Import.Transfer.{Source, put_new}

-- The second list is the first with some of the rows at its end.
abbrev pub From : {A : Type 0} → (rows xs ys : List A) → Type 0
From {A} rows xs ys = (zs : List A) × (ys ≡ xs ++ zs) × ((z : A) → In z zs → In z rows)

module _ {A : Type 0} (rows : List A) where
  pub From-refl : (xs : List A) → From rows xs xs
  From-refl xs = ([], sym (append_nil xs), λ z i. absurd i)

  pub From-trans : (xs ys zs : List A) → From rows xs ys → From rows ys zs → From rows xs zs
  From-trans xs ys zs (a, e, f) (b, g, h) = (
    a ++ b,
    g ∙ ap (λ (l : List A). l ++ b) e ∙ append_assoc xs a b,
    λ z i. elim (In-append z a b i) [ inl j ↦ f z j | inr j ↦ h z j ],
  )

  pub From-put_new :
      (same : A → A → Bool) (x : A) (xs : List A) → In x rows → From rows xs (put_new same x xs)
  unfolding put_new
  From-put_new same x xs i = by_test (any (same x) xs)
    where
      by_test : (b : Bool) → From rows xs (if b then xs else xs ++ x ∷ [])
      by_test true = From-refl xs
      by_test false = (
        x ∷ [],
        refl,
        λ z j. elim j [ inl e ↦ subst (λ (y : A). In y rows) (sym e) i | inr k ↦ absurd k ],
      )

module _ (source : Source) where
  -- What was added to the five copied tables are rows of the source, each with all its columns.
  pub record Brought (t t' : Target) : Type 0 where
    pub apps : From source.apps.rows t.apps t'.apps
    pub versions : From source.versions.rows t.versions t'.versions
    pub texts : From source.texts.rows t.texts t'.texts
    pub externals : From source.externals.rows t.externals t'.externals
    pub events : From source.events.rows t.events t'.events

  pub Brought-refl : (t : Target) → Brought t t
  Brought-refl t = record {
    apps = From-refl _ t.apps;
    versions = From-refl _ t.versions;
    texts = From-refl _ t.texts;
    externals = From-refl _ t.externals;
    events = From-refl _ t.events;
  }

  pub Brought-trans : (a b c : Target) → Brought a b → Brought b c → Brought a c
  Brought-trans a b c g h = record {
    apps = From-trans _ _ _ _ g.apps h.apps;
    versions = From-trans _ _ _ _ g.versions h.versions;
    texts = From-trans _ _ _ _ g.texts h.texts;
    externals = From-trans _ _ _ _ g.externals h.externals;
    events = From-trans _ _ _ _ g.events h.events;
  }

  -- The same, where the rows of the publishers are as they were.
  abbrev pub Brings : Target → Target → Type 0
  Brings t t' = (t'.publishers ≡ t.publishers) × Brought t t'

  pub Brings-refl : (t : Target) → Brings t t
  Brings-refl t = (refl, Brought-refl t)

  pub Brings-trans : (a b c : Target) → Brings a b → Brings b c → Brings a c
  Brings-trans a b c (e, g) (f, h) = (f ∙ e, Brought-trans a b c g h)

  -- What copies no row of the source.
  pub aside :
      (t t' : Target)
      → (t'.publishers ≡ t.publishers)
        × (t'.apps ≡ t.apps)
        × (t'.versions ≡ t.versions)
        × (t'.texts ≡ t.texts)
        × (t'.externals ≡ t.externals)
        × (t'.events ≡ t.events)
      → Brings t t'
  aside t t' (p, a, v, x, e, r) = (
    p,
    record {
      apps = subst (From _ t.apps) (sym a) (From-refl _ t.apps);
      versions = subst (From _ t.versions) (sym v) (From-refl _ t.versions);
      texts = subst (From _ t.texts) (sym x) (From-refl _ t.texts);
      externals = subst (From _ t.externals) (sym e) (From-refl _ t.externals);
      events = subst (From _ t.events) (sym r) (From-refl _ t.events);
    },
  )

  -- One copied table has grown, the others are as they were.
  module _ (t : Target) where
    pub Brings-apps :
        (xs : List AppCopy) → From source.apps.rows t.apps xs → Brings t (record t { apps = xs })
    Brings-apps xs f = (
      refl,
      record {
        apps = f;
        versions = From-refl _ t.versions;
        texts = From-refl _ t.texts;
        externals = From-refl _ t.externals;
        events = From-refl _ t.events;
      },
    )

    pub Brings-versions :
        (xs : List VersionCopy)
        → From source.versions.rows t.versions xs
        → Brings t (record t { versions = xs })
    Brings-versions xs f = (
      refl,
      record {
        apps = From-refl _ t.apps;
        versions = f;
        texts = From-refl _ t.texts;
        externals = From-refl _ t.externals;
        events = From-refl _ t.events;
      },
    )

    pub Brings-texts :
        (xs : List TextCopy)
        → From source.texts.rows t.texts xs
        → Brings t (record t { texts = xs })
    Brings-texts xs f = (
      refl,
      record {
        apps = From-refl _ t.apps;
        versions = From-refl _ t.versions;
        texts = f;
        externals = From-refl _ t.externals;
        events = From-refl _ t.events;
      },
    )

    pub Brings-externals :
        (xs : List ExternalRegistration)
        → From source.externals.rows t.externals xs
        → Brings t (record t { externals = xs })
    Brings-externals xs f = (
      refl,
      record {
        apps = From-refl _ t.apps;
        versions = From-refl _ t.versions;
        texts = From-refl _ t.texts;
        externals = f;
        events = From-refl _ t.events;
      },
    )

    pub Brings-events :
        (xs : List EventCopy)
        → From source.events.rows t.events xs
        → Brings t (record t { events = xs })
    Brings-events xs f = (
      refl,
      record {
        apps = From-refl _ t.apps;
        versions = From-refl _ t.versions;
        texts = From-refl _ t.texts;
        externals = From-refl _ t.externals;
        events = f;
      },
    )
