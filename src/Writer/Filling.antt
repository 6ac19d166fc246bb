-- ===== src/Writer/Filling.antt =====
-- A shard fills up with the rows of the layer: its creation, a chunk, and its end.
use mathlib.Core.Option
use graph_extraction.Base.{
  ℕ, ◌+◌, ◌-◌, ◌≤◌, ◌<◌, ◌≡◌, refl, sym, ap, ◌∙◌, subst, String, Option, none, some, List, map,
  length, take, take-length, arith,
}
use mathlib.Core.List.{append_assoc}
use graph_extraction.Base.Dict.{Dict, lookup, NodupKeys, lookup-map}
use graph_extraction.Base.Slices.{
  splice, seg, length-seg, seg-zero, seg_cong, seg-append, slice-seg, take-append_exact,
  length-splice,
}
use graph_extraction.Writer.H5.{H5, IsLawful}
use graph_extraction.Writer.State.{Config, File, Entry}
use graph_extraction.Writer.Rows.{Span}
use graph_extraction.Writer.Shards.{rows_of, Holds}
use graph_extraction.Writer.Invariant.{IsFilled}
use graph_extraction.Writer.Datasets.{part, Fits, Wrote}

module _ {V : Type 0} (H : H5 V) where
  -- A dataset with rows is in the file.
  pub rows_of-some :
      (f : File H) (name : String) (xs : List V)
      → rows_of H f name ≡ some xs
      → (d : H.Dset) × (lookup name f.dsets ≡ some d) × (H.rows d ≡ xs)
  unfolding rows_of
  rows_of-some f name xs e = split (lookup name f.dsets) refl e
    where
      split :
          (o : Option H.Dset)
          → lookup name f.dsets ≡ o
          → Option.map H.rows o ≡ some xs
          → (d : H.Dset) × (lookup name f.dsets ≡ some d) × (H.rows d ≡ xs)
      split none p q = absurd (ground arith)
      split (some d) p q = (d, p, ground arith)

module _ {V : Type 0} (H : H5 V) (cfg : Config H) (g : String → ℕ → V) where
  -- What a caller owes: the arrays are the layer's rows `a` up to `b`, for every dataset of the
  -- schema and no other.
  pub record IsBlock (a b : ℕ) (arrs : Dict (List V)) : Type 0 where
    pub distinct : NodupKeys arrs
    pub covers :
        (name : String) (spec : H.Spec)
        → lookup name cfg.schema ≡ some spec
        → lookup name arrs ≡ some (seg (g name) a (b - a))
    pub named :
        (name : String) (arr : List V)
        → lookup name arrs ≡ some arr
        → (spec : H.Spec) × (lookup name cfg.schema ≡ some spec)

  -- A chunk of rows `pos` up to `chunk_end` of the block `a` up to `b`, in the shard from `start`.
  module _ (a b start capacity pos chunk_end : ℕ) (ap : a ≤ pos) (pc : pos < chunk_end)
      (cb : chunk_end ≤ b) (sp : start ≤ pos) (cc' : chunk_end ≤ start + capacity)
      (arrs : Dict (List V)) (block : IsBlock a b arrs) where
    abbrev pub span : Span
    span = record {
      local_start = pos - start;
      local_end = chunk_end - start;
      src_start = pos - a;
      src_end = pos - a + (chunk_end - pos);
    }

    part-seg :
        (name : String) → part H span (seg (g name) a (b - a)) ≡ seg (g name) pos (chunk_end - pos)
    part-seg name =
        slice-seg (g name) a (b - a) (pos - a) (pos - a + (chunk_end - pos)) pos (omega arith)
          (omega arith) (omega arith)
        ∙ seg_cong (g name) pos pos _ _ refl (omega arith)

    pub IsFilled-Fits :
        (f : File H) → IsFilled H cfg g start (pos - start) capacity f → Fits H span f arrs
    IsFilled-Fits f filled name arr e =
        let (spec, known) = block.named name arr e in
        let (xs, x, len, _) = filled.dataset name spec known in
        let (d, y, z) = rows_of-some H f name xs x in
        let q : arr ≡ seg (g name) a (b - a) = ground (arith, e, block.covers name spec known) in
        let len' : length (H.rows d) ≡ capacity = rw z len in
        (
          d,
          y,
          omega (arith, len'),
          rw (q, part-seg) (length-seg (g name) pos (chunk_end - pos) ∙ omega arith),
        )

    filled_prefix :
        (name : String) (xs : List V)
        → take (pos - start) xs ≡ seg (g name) start (pos - start)
        → take
            (chunk_end - start)
            (splice (pos - start) (chunk_end - start) (seg (g name) pos (chunk_end - pos)) xs)
          ≡ seg (g name) start (chunk_end - start)
    filled_prefix name xs e =
        rw (e, ← append_assoc)
          (rw
            (seg-append (g name) start (pos - start) (chunk_end - pos) pos (chunk_end - start)
              (omega arith) (omega arith))
            (take-append_exact (chunk_end - start) _ _
              (length-seg (g name) start (chunk_end - start))))

    pub IsFilled-Wrote :
        (f f' : File H)
        → IsFilled H cfg g start (pos - start) capacity f
        → Wrote H span arrs f f'
        → IsFilled H cfg g start (chunk_end - start) capacity f'
    IsFilled-Wrote f f' filled wrote = record {
      same_start = wrote.same_start ∙ filled.same_start;
      same_end = wrote.same_end ∙ filled.same_end;
      dataset = λ name spec known.
          let (xs, x, len, prefix) = filled.dataset name spec known in
          let ys = seg (g name) pos (chunk_end - pos) in
          (
            splice (pos - start) (chunk_end - start) ys xs,
            wrote.rows name ∙ rw (block.covers name spec known, x, part-seg),
            length-splice (pos - start) (chunk_end - start) ys xs (omega arith) (omega (arith, len))
                  (length-seg (g name) pos (chunk_end - pos) ∙ omega arith)
                ∙ len,
            filled_prefix name xs prefix,
          );
    }

  pub IsFilled-at :
      (start capacity m n : ℕ) (f : File H)
      → m ≡ n
      → IsFilled H cfg g start m capacity f
      → IsFilled H cfg g start n capacity f
  IsFilled-at start capacity m n f e filled =
      subst (λ k. IsFilled H cfg g start k capacity f) e filled

  -- A file filled to its capacity holds the rows of its entry.
  pub IsFilled-Holds :
      (start n : ℕ) (f : File H) (e : Entry)
      → e.row_start ≡ start
      → e.row_end ≡ start + n
      → IsFilled H cfg g start n n f
      → Holds H cfg.schema g (record f { row_end = e.row_end }) e
  unfolding rows_of
  IsFilled-Holds start n f e p q filled = record {
    same_start = filled.same_start ∙ sym p;
    same_end = refl;
    dataset = λ name spec known.
        let (xs, x, len, prefix) = filled.dataset name spec known in
        let n' : e.row_end - e.row_start ≡ n = omega arith in
        let whole : take n xs ≡ xs = ap (λ k. take k xs) (sym len) ∙ take-length xs in
        x ∙ ap some (sym whole ∙ prefix ∙ seg_cong (g name) _ _ _ _ (sym p) (sym n'));
  }

  -- A new file holds no row yet.
  pub IsFilled-create :
      (L : IsLawful H) (start capacity : ℕ)
      → IsFilled H cfg g start 0 capacity (record {
        row_start = start;
        row_end = start + capacity;
        attrs = cfg.attrs;
        dsets = map (λ (name, spec). (name, H.create spec capacity)) cfg.schema;
      })
  unfolding rows_of
  IsFilled-create L start capacity = record {
    same_start = refl;
    same_end = refl;
    dataset = λ name spec known. (
      H.rows (H.create spec capacity),
      ap (Option.map H.rows) (lookup-map (λ (s : H.Spec). H.create s capacity) name cfg.schema)
          ∙ rw known,
      L.length-create spec capacity,
      sym (seg-zero (g name) start),
    );
  }
