-- ===== src/Import/Settled.antt =====
-- What the import makes of one publisher: its tenant, its owner's account and the membership.
use appstore_gerege_nexus.Prelude.{
  suc, String, Bool, true, false, List, [], ◌∷◌, ◌++◌, Option, none, some, ◌≡◌, sym, ap, ◌∙◌, arith,
  ◌⊎◌, inl, inr, first, Bool-cases,
}
use appstore_gerege_nexus.World.{Result, ok}
use appstore_gerege_nexus.Import.Session.{Target, Session, statement, pure, tried, ◌>>=◌, next_id}
use appstore_gerege_nexus.Import.Session.Laws.{
  statement_ok, statement_err, statement_aborted, outcome, bind_ok,
}
use appstore_gerege_nexus.Import.Accounts.{Core, look_up, found_or_made}
use appstore_gerege_nexus.Prelude.Appending.{first_last}

module _ {A : Type 0} where
  look_up_ok :
      (f : Target → Option A) (s : Session) {row : Option A} {s' : Session}
      → look_up f s ≡ (ok row, s')
      → (s'.tables ≡ s.tables) × ((row ≡ f s.tables) ⊎ ((row ≡ none) × (s'.aborted ≡ true)))
  unfolding look_up tried ◌>>=◌ pure
  look_up_ok f s {row} {s'} h = elim (outcome (statement (λ t. ok (f t, t))) s) [
    | inl (x, v, ran) ↦
        let d = statement_ok (λ t. ok (f t, t)) s ran in
        let h' = rw ran at h in (ground arith, inl (ground arith))
    | inr (e, v, ran) ↦
        let (d, aborted) = statement_err (λ t. ok (f t, t)) s ran in
        let h' = rw ran at h in (ground arith, inr (ground arith, ground arith))
  ]

-- What looking a row up, and inserting it where there is none, has found or made.
module _ {A : Type 0} (core : Core) (table : Target → List A) (test : A → Bool) (id_of : A → String)
    (insert : A → Target → Result (String × Target)) (new : String → A)
    (wrote : (a : A) (t : Target) (i : String) (t' : Target)
      → insert a t ≡ ok (i, t')
      → (id_of a ≡ i) × (table t' ≡ table t ++ a ∷ []))
    (passes : (i : String) → test (new i) ≡ true) where
  made_ok :
      (s : Session) {id : String} {made : Bool} {s' : Session}
      → found_or_made core id_of insert new none s ≡ (ok (id, made), s')
      → (a : A) × (s.aborted ≡ false)
        × (id_of a ≡ id)
        × (test a ≡ true)
        × (table s'.tables ≡ table s.tables ++ a ∷ [])
  unfolding found_or_made next_id ◌>>=◌ pure
  made_ok s {id} {made} {s'} h =
      let v : Session = record s { minted = suc s.minted } in
      let a = new (core.made s.minted) in
      elim (Bool-cases s.aborted) [
        | inl t ↦ elim (outcome (statement (insert a)) v) [
          | inl (i, x, ran) ↦ absurd (statement_aborted (insert a) v t ran)
          | inr (e, x, ran) ↦ let h' = rw ran at h in absurd (cc h')
        ]
        | inr f ↦ elim (outcome (statement (insert a)) v) [
          | inl (i, x, ran) ↦
              let (ei, et) = wrote a v.tables i x.tables (statement_ok (insert a) v ran) in
              let h' = rw ran at h in
              let same : x ≡ s' = ground arith in
              let same_id : i ≡ id = ground arith in
              (
                a,
                f,
                ei ∙ same_id,
                passes (core.made s.minted),
                ap (λ (y : Session). table y.tables) (sym same) ∙ et,
              )
          | inr (e, x, ran) ↦ let h' = rw ran at h in absurd (cc h')
        ]
      ]

  pub found_ok :
      (s : Session) {id : String} {made : Bool} {s' : Session}
      → (look_up (λ t. first test (table t)) >>= found_or_made core id_of insert new) s
        ≡ (ok (id, made), s')
      → (a : A) × (id_of a ≡ id)
        × (first test (table s'.tables) ≡ some a)
        × (((made ≡ false) × (s'.tables ≡ s.tables)) ⊎ (first test (table s.tables) ≡ none))
  unfolding found_or_made pure
  found_ok s {id} {made} {s'} h =
      let (row, v, looked, rest) =
        bind_ok (look_up (λ t. first test (table t))) (found_or_made core id_of insert new) s h in
      let (d, why) = look_up_ok (λ t. first test (table t)) s looked in by_row row v d why rest
    where
      of_some :
          (a : A) (v : Session)
          → found_or_made core id_of insert new (some a) v ≡ (ok (id, made), s')
          → (id_of a ≡ id) × (made ≡ false) × (s' ≡ v)
      of_some a v g = (ground arith, ground arith, ground arith)

      by_row :
          (row : Option A) (v : Session)
          → v.tables ≡ s.tables
          → (row ≡ first test (table s.tables)) ⊎ ((row ≡ none) × (v.aborted ≡ true))
          → found_or_made core id_of insert new row v ≡ (ok (id, made), s')
          → (a : A) × (id_of a ≡ id)
            × (first test (table s'.tables) ≡ some a)
            × (((made ≡ false) × (s'.tables ≡ s.tables)) ⊎ (first test (table s.tables) ≡ none))
      by_row (some a) v d (inl e) g =
          let (i, m, same) = of_some a v g in
          let d' = ap (λ (x : Session). x.tables) same ∙ d in
          (a, i, ap (λ (t : Target). first test (table t)) d' ∙ sym e, inl (m, d'))
      by_row (some a) v d (inr (e, x)) g = absurd (cc e)
      by_row none v d (inl e) g =
          let (a, f, i, t, grown) = made_ok v g in
          let empty = sym e in
          (
            a,
            i,
            ap (first test) (grown ∙ ap (λ (y : Target). table y ++ a ∷ []) d)
                ∙ first_last test (table s.tables) a empty t,
            inr empty,
          )
      by_row none v d (inr (e, aborted)) g =
          let (_, f, _, _, _) = made_ok v g in absurd (cc (f, aborted))
