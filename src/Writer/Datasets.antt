-- ===== src/Writer/Datasets.antt =====
-- `write_datasets` on arrays that fit: every dataset named gets its rows, and no other changes.
use mathlib.Core.Option
use graph_extraction.Base.{
  ◌-◌, ◌≤◌, ◌≡◌, refl, sym, ap, ◌∙◌, String, Bool-cases, inl, inr, str_eq, eq_iff, Option, none,
  some, List, [], ◌∷◌, length, arith,
}
use graph_extraction.Base.Dict.{
  Dict, lookup, insert, NodupKeys, lookup-nil, lookup-cons, lookup-insert,
}
use graph_extraction.Base.Slices.{slice, splice}
use graph_extraction.Writer.H5.{H5, IsLawful}
use graph_extraction.Writer.State.{ok, File, Writer}
use graph_extraction.Writer.Rows.{Span, write_datasets}
use graph_extraction.Writer.Shards.{rows_of}

module _ {V : Type 0} (H : H5 V) (s : Span) where
  abbrev pub part : List V → List V
  part arr = slice s.src_start s.src_end arr

  -- Every array names a dataset with room for the part of it that is written.
  abbrev pub Fits : File H → Dict (List V) → Type 0
  Fits f arrs =
      (name : String) (arr : List V)
      → lookup name arrs ≡ some arr
      → (d : H.Dset) × (lookup name f.dsets ≡ some d)
        × (s.local_end ≤ length (H.rows d))
        × (length (part arr) ≡ s.local_end - s.local_start)

  -- The rows of a dataset after the write, from the array of its name and the rows before.
  abbrev pub rows_after : Option (List V) → Option (List V) → Option (List V)
  rows_after none old = old
  rows_after (some arr) old = Option.map (splice s.local_start s.local_end (part arr)) old

  pub record Wrote (arrs : Dict (List V)) (f f' : File H) : Type 0 where
    pub same_start : f'.row_start ≡ f.row_start
    pub same_end : f'.row_end ≡ f.row_end
    pub rows :
        (name : String) → rows_of H f' name ≡ rows_after (lookup name arrs) (rows_of H f name)

  module _ (L : IsLawful H) (le : s.local_start ≤ s.local_end) where
    Fits-tail :
        (name : String) (arr : List V) (rest : Dict (List V)) (d' : H.Dset) (f : File H)
        → lookup name rest ≡ none
        → Fits f ((name, arr) ∷ rest)
        → Fits (record f { dsets = insert name d' f.dsets }) rest
    Fits-tail name arr rest d' f fresh fits n a e = elim (Bool-cases (str_eq name n)) [
      | inl same ↦
          let q : name ≡ n = (eq_iff name n).0 same in
          absurd (ground (arith, e, ap (λ k. lookup k rest) q, fresh))
      | inr differ ↦
          let (d, x, y, z) = fits n a (rw (lookup-cons, differ) e) in
          (d, rw (lookup-insert, differ) x, y, z)
    ]

    Wrote-cons :
        (name : String) (arr : List V) (rest : Dict (List V)) (d d' : H.Dset) (f f' : File H)
        → lookup name rest ≡ none
        → lookup name f.dsets ≡ some d
        → H.rows d' ≡ splice s.local_start s.local_end (part arr) (H.rows d)
        → Wrote rest (record f { dsets = insert name d' f.dsets }) f'
        → (n : String) → rows_of H f' n ≡ rows_after (lookup n ((name, arr) ∷ rest)) (rows_of H f n)
    unfolding rows_of
    Wrote-cons name arr rest d d' f f' fresh x q wrote n = elim (Bool-cases (str_eq name n)) [
      | inl same ↦
          let e : name ≡ n = (eq_iff name n).0 same in
          let fresh' : lookup n rest ≡ none = ap (λ k. lookup k rest) (sym e) ∙ fresh in
          let x' : lookup n f.dsets ≡ some d = ap (λ k. lookup k f.dsets) (sym e) ∙ x in
          wrote.rows n ∙ rw (fresh', lookup-insert, same, lookup-cons, same, x') (ap some q)
      | inr differ ↦ wrote.rows n ∙ rw (lookup-insert, differ, lookup-cons, differ)
    ]

    write_datasets_step :
        (name : String) (arr : List V) (rest : Dict (List V)) (d d' : H.Dset) (f : File H)
        (w : Writer H)
        → lookup name f.dsets ≡ some d
        → H.assign d s.local_start s.local_end (part arr) ≡ some d'
        → write_datasets H s ((name, arr) ∷ rest) f w
          ≡ write_datasets H s rest (record f { dsets = insert name d' f.dsets }) w
    unfolding write_datasets
    write_datasets_step name arr rest d d' f w x p = rw (x, write_datasets) (rw (p, write_datasets))

    pub write_datasets-Fits :
        (arrs : Dict (List V)) (f : File H) (w : Writer H)
        → NodupKeys arrs
        → Fits f arrs
        → (f' : File H) × (write_datasets H s arrs f w ≡ ok (record w { cur_h5 = some f' }))
          × Wrote arrs f f'
    unfolding write_datasets
    write_datasets-Fits [] f w nodup fits =
        (f, refl, record { same_start = refl; same_end = refl; rows = λ name. rw lookup-nil })
    write_datasets-Fits ((name, arr) ∷ rest) f w (fresh, nodup) fits =
        let (d, x, y, z) = fits name arr (rw (lookup-cons, (eq_iff name name).1 refl)) in
        let (d', p, q) = L.assign_in_range d s.local_start s.local_end (part arr) le y z in
        let (f', r, wrote) =
          write_datasets-Fits rest (record f { dsets = insert name d' f.dsets }) w nodup
            (Fits-tail name arr rest d' f fresh fits) in
        (
          f',
          write_datasets_step name arr rest d d' f w x p ∙ r,
          record {
            same_start = wrote.same_start;
            same_end = wrote.same_end;
            rows = Wrote-cons name arr rest d d' f f' fresh x q wrote;
          },
        )
