-- ===== src/Import/Copies.antt =====
-- What copyRows leaves of one table.
use appstore_gerege_nexus.Prelude.{
  ℕ, ◌+◌, Bool, true, List, [], ◌∷◌, length, Option, none, some, ◌≡◌, refl, sym, ap, ◌∙◌, arith,
  inl, inr, any, subst, In, Bool-cases,
}
use appstore_gerege_nexus.World.{Error, Result, ok}
use appstore_gerege_nexus.Import.Session.{Target, Session, statement, raise}
use appstore_gerege_nexus.Import.Session.Laws.{statement_ok, pure_ok, bind_ok}
use appstore_gerege_nexus.Import.Transfer.{Cursor, at_end, copy_each, copy_rows, put_new}
use appstore_gerege_nexus.Import.Growth.{Prefix-put_new}
use appstore_gerege_nexus.Prelude.Appending.{Prefix, Prefix-refl, Prefix-trans, any_last, any_stays}

-- The rows are in the table, under their keys.
abbrev pub Present : {A : Type 0} → (A → A → Bool) → List A → List A → Type 0
Present {A} same xs rows = (x : A) → In x xs → any (same x) rows ≡ true

module _ {A : Type 0} (table : Target → List A) (set : Target → List A → Target)
    (same : A → A → Bool) (get_set : (t : Target) (xs : List A) → table (set t xs) ≡ xs)
    (set_get : (t : Target) → set t (table t) ≡ t) (same_refl : (x : A) → same x x ≡ true) where
  abbrev write : A → Target → Result (Unit {0} × Target)
  write x t = ok (tt, set t (put_new same x (table t)))

  put_new-Present : (x : A) (xs : List A) → any (same x) (put_new same x xs) ≡ true
  unfolding put_new
  put_new-Present x xs = elim (Bool-cases (any (same x) xs)) [
    | inl t ↦ rw t t
    | inr f ↦ rw f (any_last (same x) xs x (same_refl x))
  ]

  put_new_old : (x : A) (xs : List A) → any (same x) xs ≡ true → put_new same x xs ≡ xs
  unfolding put_new
  put_new_old x xs t = rw t refl

  at_end_ok :
      (failed : Option Error) (n : ℕ) (s : Session) {m : ℕ} {s' : Session}
      → at_end failed n s ≡ (ok m, s')
      → (n ≡ m) × (s' ≡ s)
  unfolding raise
  at_end_ok none n s h = pure_ok n s h
  at_end_ok (some e) n s h = cc

  written :
      (x : A) (s : Session) {u : Unit {0}} {s' : Session}
      → statement (write x) s ≡ (ok u, s')
      → set s.tables (put_new same x (table s.tables)) ≡ s'.tables
  written x s {u} {s'} h = let e = statement_ok (write x) s h in ground arith

  copy_each-Prefix :
      (xs : List A) (failed : Option Error) (n : ℕ) (s : Session) {m : ℕ} {s' : Session}
      → copy_each write xs failed n s ≡ (ok m, s')
      → Prefix (table s.tables) (table s'.tables)
  unfolding copy_each
  copy_each-Prefix [] failed n s h =
      let (_, e) = at_end_ok failed n s h in
      subst (λ (y : Session). Prefix (table s.tables) (table y.tables)) (sym e)
        (Prefix-refl (table s.tables))
  copy_each-Prefix (x ∷ xs) failed n s {m} {s'} h =
      let (_, v, wrote, rest) = bind_ok (statement (write x)) _ s h in
      let made : table v.tables ≡ put_new same x (table s.tables) =
        ap table (sym (written x s wrote)) ∙ get_set s.tables (put_new same x (table s.tables)) in
      Prefix-trans _ _ _
        (subst (Prefix (table s.tables)) (sym made) (Prefix-put_new same x (table s.tables)))
        (copy_each-Prefix xs failed (n + 1) v rest)

  copy_each_ok :
      (xs : List A) (failed : Option Error) (n : ℕ) (s : Session) {m : ℕ} {s' : Session}
      → copy_each write xs failed n s ≡ (ok m, s')
      → Present same xs (table s'.tables)
        × (m ≡ n + length xs)
        × (Present same xs (table s.tables) → s'.tables ≡ s.tables)
  unfolding copy_each
  copy_each_ok [] failed n s h =
      let (e, d) = at_end_ok failed n s h in
      (λ x i. absurd i, ground arith, λ _. ap (λ (x : Session). x.tables) d)
  copy_each_ok (x ∷ xs) failed n s {m} {s'} h =
      let (_, v, wrote, rest) = bind_ok (statement (write x)) _ s h in
      let (present, count, quiet) = copy_each_ok xs failed (n + 1) v rest in
      let d = written x s wrote in
      let made : table v.tables ≡ put_new same x (table s.tables) =
        ap table (sym d) ∙ get_set s.tables (put_new same x (table s.tables)) in
      (
        λ y i. elim i [
          | inl e ↦
              subst (λ (z : A). any (same z) (table s'.tables) ≡ true) (sym e)
                (any_stays (same x) (table v.tables) (table s'.tables)
                  (copy_each-Prefix xs failed (n + 1) v rest)
                  (ap (any (same x)) made ∙ put_new-Present x (table s.tables)))
          | inr j ↦ present y j
        ],
        ground arith,
        λ there.
            let kept : v.tables ≡ s.tables =
              sym d
              ∙ ap (set s.tables) (put_new_old x (table s.tables) (there x (inl refl)))
              ∙ set_get s.tables in
            quiet (λ y j. ap (λ (t : Target). any (same y) (table t)) kept ∙ there y (inr j))
            ∙ kept,
      )

  -- A copy that succeeds has every row in the table, under its key; it counts the rows that it
  -- read; and where they were all there before it writes nothing.
  pub copy_rows_ok :
      (c : Cursor A) (s : Session) {m : ℕ} {s' : Session}
      → copy_rows write c s ≡ (ok m, s')
      → Present same c.rows (table s'.tables)
        × (m ≡ length c.rows)
        × (Present same c.rows (table s.tables) → s'.tables ≡ s.tables)
  unfolding copy_rows
  copy_rows_ok c s h =
      let (present, count, quiet) = copy_each_ok c.rows c.failed 0 s h in
      (present, ground arith, quiet)
