-- ===== src/Import/Session/Transactions.antt =====
-- How the import's transaction ends.
use appstore_gerege_nexus.Prelude.{Bool, true, false, List, [], ◌∷◌, ◌≡◌, refl, ap, arith, subst}
use appstore_gerege_nexus.World.{Error, Result, ok, err}
use appstore_gerege_nexus.Import.Session.{
  Target, Session, Run, committed, concluded, begun, in_transaction,
}

module _ {A : Type 0} where
  committed_ok :
      (aborted : Bool) (refusals : List Bool) (before : Target) (a : A) (s : Session) {b : A}
      {s' : Session}
      → committed aborted refusals before a s ≡ (ok b, s')
      → (a ≡ b) × (s'.tables ≡ s.tables)
  committed_ok true refusals before a s h = cc
  committed_ok false [] before a s h = ground arith
  committed_ok false (true ∷ rest) before a s h = cc
  committed_ok false (false ∷ rest) before a s h = ground arith

  committed_err :
      (aborted : Bool) (refusals : List Bool) (before : Target) (a : A) (s : Session) {e : Error}
      {s' : Session}
      → committed aborted refusals before a s ≡ (err e, s')
      → s'.tables ≡ before
  committed_err true refusals before a s h = ground arith
  committed_err false [] before a s h = cc
  committed_err false (true ∷ rest) before a s h = ground arith
  committed_err false (false ∷ rest) before a s h = cc

  concluded_ok :
      (dry_run : Bool) (before : Target) (r : Result A) (s : Session) {a : A} {s' : Session}
      → concluded dry_run before r s ≡ (ok a, s')
      → r ≡ ok a
  concluded_ok dry_run before (err e) s h = cc
  concluded_ok true before (ok a) s h = ground arith
  concluded_ok false before (ok a) s h = ap ok (committed_ok s.aborted s.refusals before a s h).0

  concluded_err :
      (dry_run : Bool) (before : Target) (r : Result A) (s : Session) {e : Error} {s' : Session}
      → concluded dry_run before r s ≡ (err e, s')
      → s'.tables ≡ before
  concluded_err dry_run before (err e) s h = ground arith
  concluded_err true before (ok a) s h = cc
  concluded_err false before (ok a) s h = committed_err s.aborted s.refusals before a s h

  concluded-dry :
      (before : Target) (r : Result A) (s : Session) → (concluded true before r s).1.tables ≡ before
  concluded-dry before (ok a) s = refl
  concluded-dry before (err e) s = refl

  -- A transaction that answered an error, or that was a dry run, has changed no table.
  pub in_transaction_err :
      (dry_run : Bool) (body : Run A) (s : Session) {e : Error} {s' : Session}
      → in_transaction dry_run body s ≡ (err e, s')
      → s'.tables ≡ s.tables
  unfolding in_transaction
  in_transaction_err dry_run body s {e} {s'} h = by_refusals s.refusals h
    where
      by_refusals :
          (refusals : List Bool)
          → begun refusals s
              (λ started. let (r, ended) = body started in concluded dry_run s.tables r ended)
            ≡ (err e, s')
          → s'.tables ≡ s.tables
      by_refusals [] g =
          concluded_err dry_run s.tables (body (record s { aborted = false })).0
            (body (record s { aborted = false })).1 g
      by_refusals (true ∷ rest) g = ground arith
      by_refusals (false ∷ rest) g =
          let started = record s { refusals = rest; aborted = false } in
          concluded_err dry_run s.tables (body started).0 (body started).1 g

  pub in_transaction-dry :
      (body : Run A) (s : Session) → (in_transaction true body s).1.tables ≡ s.tables
  unfolding in_transaction
  in_transaction-dry body s = by_refusals s.refusals
    where
      by_refusals :
          (refusals : List Bool)
          → (begun refusals s (λ started.
              let (r, ended) = body started in concluded true s.tables r ended)).1.tables
            ≡ s.tables
      by_refusals [] =
          concluded-dry s.tables (body (record s { aborted = false })).0
            (body (record s { aborted = false })).1
      by_refusals (true ∷ rest) = refl
      by_refusals (false ∷ rest) =
          let started = record s { refusals = rest; aborted = false } in
          concluded-dry s.tables (body started).0 (body started).1

  -- A dry run answers what the run that commits answers.
  pub in_transaction-same :
      (body : Run A) (s : Session) {a : A} {s' : Session}
      → in_transaction false body s ≡ (ok a, s')
      → (in_transaction true body s).0 ≡ ok a
  unfolding in_transaction
  in_transaction-same body s {a} {s'} h = by_refusals s.refusals h
    where
      of_body :
          (p : Result A × Session)
          → concluded false s.tables p.0 p.1 ≡ (ok a, s')
          → (concluded true s.tables p.0 p.1).0 ≡ ok a
      of_body (ok b, t) g = concluded_ok false s.tables (ok b) t g
      of_body (err e, t) g = cc

      by_refusals :
          (refusals : List Bool)
          → begun refusals s
              (λ started. let (r, ended) = body started in concluded false s.tables r ended)
            ≡ (ok a, s')
          → (begun refusals s
              (λ started. let (r, ended) = body started in concluded true s.tables r ended)).0
            ≡ ok a
      by_refusals [] g = of_body (body (record s { aborted = false })) g
      by_refusals (true ∷ rest) g = cc
      by_refusals (false ∷ rest) g =
          of_body (body (record s { refusals = rest; aborted = false })) g

  -- A transaction that was committed has the tables that its body left.
  pub in_transaction_ok :
      (body : Run A) (s : Session) {a : A} {s' : Session}
      → in_transaction false body s ≡ (ok a, s')
      → (t : Session) × (t' : Session) × (t.tables ≡ s.tables)
        × (body t ≡ (ok a, t'))
        × (s'.tables ≡ t'.tables)
  unfolding in_transaction
  in_transaction_ok body s {a} {s'} h = by_refusals s.refusals h
    where
      of_body :
          (t : Session)
          → t.tables ≡ s.tables
          → (p : Result A × Session) → body t ≡ p
          → concluded false s.tables p.0 p.1 ≡ (ok a, s')
          → (t : Session) × (t' : Session) × (t.tables ≡ s.tables)
            × (body t ≡ (ok a, t'))
            × (s'.tables ≡ t'.tables)
      of_body t d (ok b, t') ran g =
          let (same, kept) = committed_ok t'.aborted t'.refusals s.tables b t' g in
          (t, t', d, subst (λ (x : A). body t ≡ (ok x, t')) same ran, kept)
      of_body t d (err e, t') ran g = cc

      by_refusals :
          (refusals : List Bool)
          → begun refusals s
              (λ started. let (r, ended) = body started in concluded false s.tables r ended)
            ≡ (ok a, s')
          → (t : Session) × (t' : Session) × (t.tables ≡ s.tables)
            × (body t ≡ (ok a, t'))
            × (s'.tables ≡ t'.tables)
      by_refusals [] g =
          of_body (record s { aborted = false }) refl (body (record s { aborted = false })) refl g
      by_refusals (true ∷ rest) g = cc
      by_refusals (false ∷ rest) g =
          of_body (record s { refusals = rest; aborted = false }) refl
            (body (record s { refusals = rest; aborted = false })) refl g
