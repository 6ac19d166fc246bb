-- ===== src/Recovery/Listing.antt =====
-- `_reconstruct_progress` against the files on scratch.
use graph_extraction.Base.{
  ◌≤◌, append_snoc, append_nil, ℕ, zero, suc, ◌≡◌, ◌≢◌, ◌⊎◌, refl, subst, sym, ap, ◌∙◌, inl, inr,
  String, false, ◌||◌, not, Option, Option-cases, Bool-cases, none, some, List, [], ◌∷◌, ◌++◌, ◌==◌,
  arith,
}
use graph_extraction.Base.Dict.{Dict, Files}
use graph_extraction.Writer.H5.{H5}
use graph_extraction.Writer.State.{Entry, File, Progress}
use graph_extraction.Recovery.Rebuild.{
  shard_file_name, list_shards, Reading, Rebuilt, same_kinds, check_shard, add_shard, add_shards,
  added, rebuilt_entry, reconstruct_progress, nothing_yet, progress_of,
}
use graph_extraction.Recovery.Rebuilding.{
  shard_number-shard_file_name, list_shards-some, list_shards-gap,
}

-- The entry of shard `i` says what the file says.
pub record IsEntryOf {V : Type 0} {H : H5 V} (i : ℕ) (f : File H) (e : Entry) : Type 0 where
  pub idx : e.shard_idx ≡ i
  pub path : e.virtual_path ≡ i
  pub same_start : e.row_start ≡ f.row_start
  pub same_end : e.row_end ≡ f.row_end
  pub unpushed : e.pushed ≡ false

-- The entries of the files numbered from `i` on, `k` numbers in all: one for each file, and each
-- begins at the row where the one before it ended, from `a` on to `z`.
abbrev pub Lists : {V : Type 0} {H : H5 V} → Files (File H) → ℕ → ℕ → ℕ → List Entry → ℕ → Type 0
Lists m zero i a [] z = a ≡ z
Lists m zero i a (e ∷ es) z = ⊥
Lists {H = H} m (suc k) i a es z =
    ((m i ≡ none) × Lists m k (suc i) a es z)
    ⊎ ((f : File H) × (rest : List Entry) × (e : Entry) × (m i ≡ some f)
        × (es ≡ e ∷ rest)
        × IsEntryOf i f e
        × (f.row_start ≡ a)
        × Lists m k (suc i) f.row_end rest z)

module _ {V : Type 0} {H : H5 V} (h5 : Reading H) (m : Files (File H)) where
  -- What `add_shard` asserts, when it returns.
  check_shard-some :
      (i : ℕ) (f : File H) (r r' : Rebuilt h5)
      → check_shard h5 (some i) f r ≡ some r'
      → (f.row_start ≡ r.expected_row_start) × (added h5 i f r ≡ r')
  check_shard-some i f r r' h =
      elim (Bool-cases
        (not (f.row_start == r.expected_row_start) || not (same_kinds h5 r.kinds f))) [
          | inl t ↦ absurd (ground (arith, h, t))
          | inr t ↦ (ground (arith, t), ground (arith, h, t))
        ]

  some_inj : {x y : Rebuilt h5} → some x ≡ some y → x ≡ y
  some_inj q = ground arith

  none_ne_some : {x : Rebuilt h5} → none ≢ some x
  none_ne_some q = absurd (ground arith)

  add_shards-Lists :
      (k i : ℕ) (r r' : Rebuilt h5)
      → add_shards h5 (list_shards k i m) r ≡ some r'
      → (es : List Entry) × (r'.completed_shards ≡ r.completed_shards ++ es)
        × Lists m k i r.expected_row_start es r'.expected_row_start
  unfolding add_shards list_shards add_shard
  add_shards-Lists zero i r r' h = (
    [],
    ap (λ (x : Rebuilt h5). x.completed_shards) (sym (some_inj h))
        ∙ sym (append_nil r.completed_shards),
    ap (λ (x : Rebuilt h5). x.expected_row_start) (some_inj h),
  )
  add_shards-Lists (suc k) i r r' h = elim (Option-cases (m i)) [
    | inl gone ↦
        let (es, x, y) =
          add_shards-Lists k (suc i) r r'
            (ap (λ l. add_shards h5 l r) (sym (list_shards-gap k i m gone)) ∙ h) in
        (es, x, inl (gone, y))
    | inr (f, here) ↦
        let h1 = ap (λ l. add_shards h5 l r) (sym (list_shards-some k i m f here)) ∙ h in
        elim (Option-cases (add_shard h5 (shard_file_name i) f r)) [
          | inl bad ↦ absurd (none_ne_some (rw (bad, add_shards) at h1))
          | inr (r1, good) ↦
              let checked : check_shard h5 (some i) f r ≡ some r1 =
                ap (λ o. check_shard h5 o f r) (sym (shard_number-shard_file_name i)) ∙ good in
              let (start, same) = check_shard-some i f r r1 checked in
              let (es, x, y) = add_shards-Lists k (suc i) (added h5 i f r) r' (
                subst (λ x. add_shards h5 (list_shards k (suc i) m) x ≡ some r') (sym same)
                  (rw (good, add_shards) at h1)) in
              (
                rebuilt_entry h5 i f ∷ es,
                x ∙ append_snoc r.completed_shards (rebuilt_entry h5 i f) es,
                inr (
                  f,
                  es,
                  rebuilt_entry h5 i f,
                  here,
                  refl,
                  record {
                    idx = refl;
                    path = refl;
                    same_start = refl;
                    same_end = refl;
                    unpushed = refl;
                  },
                  start,
                  y,
                ),
              )
        ]
  ]

  -- If the script gives a progress for the files numbered below `limit`, at most 100000, its shards are those
  -- files, each once and in order, none of them pushed; the rows of each begin where those of the
  -- shard before it end, from 0 on; and they end at the row where a new writer resumes, which is
  -- also the number of rows. So a gap is never passed over.
  pub reconstruct_progress-Lists :
      (limit : ℕ) (p : Progress H)
      → limit ≤ 100000
      → reconstruct_progress h5 limit m ≡ some p
      → Lists m limit 0 0 p.completed_shards p.next_row × (p.n_rows ≡ p.next_row)
  unfolding reconstruct_progress
  reconstruct_progress-Lists limit p five h =
      elim (Option-cases (add_shards h5 (list_shards limit 0 m) (nothing_yet h5))) [
        | inl bad ↦ absurd (none_ne_progress (rw bad at h))
        | inr (r, good) ↦
            let (es, x, y) = add_shards-Lists limit 0 (nothing_yet h5) r good in
            let back : progress_of h5 r r.kinds r.shard_rows ≡ some p = rw good at h in
            let (q1, q2, q3) = progress_of-some r r.kinds r.shard_rows p back in
            (
              subst (λ z. Lists m limit 0 0 p.completed_shards z) (sym q2)
                  (subst (λ ys. Lists m limit 0 0 ys r.expected_row_start) (sym x ∙ sym q1) y),
              q3 ∙ sym q2,
            )
      ]
    where
      none_ne_progress : {q : Progress H} → none ≢ some q
      none_ne_progress q = absurd (ground arith)

      some_inj_progress : {x y : Progress H} → some x ≡ some y → x ≡ y
      some_inj_progress q = ground arith

      progress_of-some :
          (r : Rebuilt h5) (k : Option (Dict H.Spec × Dict String)) (rows : Option ℕ)
          (p : Progress H)
          → progress_of h5 r k rows ≡ some p
          → (p.completed_shards ≡ r.completed_shards)
            × (p.next_row ≡ r.expected_row_start)
            × (p.n_rows ≡ r.expected_row_start)
      progress_of-some r none rows p q = absurd (none_ne_progress q)
      progress_of-some r (some k) none p q = absurd (none_ne_progress q)
      progress_of-some r (some k) (some n) p q =
          let same = sym (some_inj_progress q) in
          (
            ap (λ (x : Progress H). x.completed_shards) same,
            ap (λ (x : Progress H). x.next_row) same,
            ap (λ (x : Progress H). x.n_rows) same,
          )
