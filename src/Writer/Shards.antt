-- ===== src/Writer/Shards.antt =====
-- Well-formed lists of completed shards: numbered from 0, covering the rows without a gap, each
-- with its rows in the files that the list promises.
use mathlib.Core.Option
use graph_extraction.Base.{
  ℕ, zero, suc, ◌+◌, ◌-◌, ◌≤◌, ◌<◌, ◌≡◌, ◌≢◌, ◌⊎◌, refl, sym, ap, ◌∙◌, subst, get_last?,
  get_last?-ne-none, Bool-cases, inl, inr, String, Bool, true, false, ◌&&◌, not, Option, none, some,
  List, [], ◌∷◌, ◌++◌, length, arith,
}
use graph_extraction.Base.Dict.{Dict, Files, lookup}
use graph_extraction.Base.Slices.{seg}
use graph_extraction.Writer.H5.{H5}
use graph_extraction.Writer.State.{Entry, File}
use graph_extraction.Writer.Steps.{is_none, mark_pushed, present_prefix, first_missing}

module _ {V : Type 0} (H : H5 V) where
  -- The rows of a dataset of a file.
  unfoldable pub rows_of : File H → String → Option (List V)
  rows_of f name = Option.map H.rows (lookup name f.dsets)

module _ {V : Type 0} (H : H5 V) (schema : Dict H.Spec) (g : String → ℕ → V) where
  -- The file holds, for each dataset, the rows `row_start` up to `row_end` of the layer.
  pub record Holds (f : File H) (e : Entry) : Type 0 where
    pub same_start : f.row_start ≡ e.row_start
    pub same_end : f.row_end ≡ e.row_end
    pub dataset :
        (name : String) (spec : H.Spec)
        → lookup name schema ≡ some spec
        → rows_of H f name ≡ some (seg (g name) e.row_start (e.row_end - e.row_start))

  -- Entry number `i`, whose first row is `a`. `live` asks that its file can still be found.
  pub record IsKept (live : Bool) (m s : Files (File H)) (i a : ℕ) (e : Entry) : Type 0 where
    pub idx : e.shard_idx ≡ i
    pub path : e.virtual_path ≡ i
    pub start : e.row_start ≡ a
    pub nonempty : a < e.row_end
    pub on_scratch : (f : File H) → m i ≡ some f → Holds f e
    pub in_store : e.pushed ≡ true → (f : File H) × (s i ≡ some f) × Holds f e
    pub present : live ≡ true → e.pushed ≡ false → (f : File H) × (m i ≡ some f)

  abbrev pub Shards : Bool → Files (File H) → Files (File H) → ℕ → ℕ → List Entry → ℕ → Type 0
  Shards live m s i a [] z = a ≡ z
  Shards live m s i a (e ∷ es) z = IsKept live m s i a e × Shards live m s (suc i) e.row_end es z

  pub Shards-snoc :
      (live : Bool) (m s : Files (File H)) (i a : ℕ) (es : List Entry) (z j : ℕ) (e : Entry)
      → Shards live m s i a es z
      → j ≡ i + length es
      → IsKept live m s j z e
      → Shards live m s i a (es ++ e ∷ []) e.row_end
  Shards-snoc live m s i a [] z j e h q k = let q' : i ≡ j = omega arith in (rw (q', h) k, refl)
  Shards-snoc live m s i a (x ∷ es) z j e h q k =
      (h.0, Shards-snoc live m s (suc i) x.row_end es z j e h.1 (omega arith) k)

  IsKept-irrelevant :
      (live : Bool) (m s m' s' : Files (File H)) (i a : ℕ) (e : Entry)
      → m' i ≡ m i
      → s' i ≡ s i
      → IsKept live m s i a e
      → IsKept live m' s' i a e
  IsKept-irrelevant live m s m' s' i a e p q h = record {
    idx = h.idx;
    path = h.path;
    start = h.start;
    nonempty = h.nonempty;
    on_scratch = λ f x. h.on_scratch f (cc);
    in_store = λ x. let (f, y, z) = h.in_store x in (f, cc, z);
    present = λ x y. let (f, z) = h.present x y in (f, cc);
  }

  -- What happens to files of other numbers does not matter.
  pub Shards-irrelevant :
      (live : Bool) (m s m' s' : Files (File H)) (i a : ℕ) (es : List Entry) (z : ℕ)
      → ((j : ℕ) → i ≤ j → j < i + length es → m' j ≡ m j)
      → ((j : ℕ) → i ≤ j → j < i + length es → s' j ≡ s j)
      → Shards live m s i a es z
      → Shards live m' s' i a es z
  Shards-irrelevant live m s m' s' i a [] z p q h = h
  Shards-irrelevant live m s m' s' i a (e ∷ es) z p q h = (
    IsKept-irrelevant live m s m' s' i a e (p i (omega arith) (omega arith))
        (q i (omega arith) (omega arith)) h.0,
    Shards-irrelevant live m s m' s' (suc i) e.row_end es z
        (λ j x y. p j (omega arith) (omega arith)) (λ j x y. q j (omega arith) (omega arith)) h.1,
  )

  IsKept-uploaded :
      (live : Bool) (m s m' s' : Files (File H)) (j a : ℕ) (f : File H) (e : Entry)
      → m j ≡ some f
      → (m' j ≡ none) ⊎ (m' j ≡ m j)
      → s' j ≡ some f
      → IsKept live m s j a e
      → IsKept live m' s' j a (record e { pushed = true })
  IsKept-uploaded live m s m' s' j a f e p q r h =
      let good : Holds f e = h.on_scratch f p in
      let good' : Holds f (record e { pushed = true }) = record {
        same_start = good.same_start;
        same_end = good.same_end;
        dataset = good.dataset;
      } in
      record {
        idx = h.idx;
        path = h.path;
        start = h.start;
        nonempty = h.nonempty;
        on_scratch = λ f' x.
            let e' : f ≡ f' = ground arith in
            subst (λ y. Holds y (record e { pushed = true })) e' good';
        in_store = λ _. (f, r, good');
        present = λ _ x. absurd (ground arith);
      }

  -- The upload of shard `j` has ended: its file is in the store, and may be gone from scratch.
  pub Shards-mark_pushed :
      (live : Bool) (m s m' s' : Files (File H)) (j : ℕ) (f : File H)
      → m j ≡ some f
      → (m' j ≡ none) ⊎ (m' j ≡ m j)
      → s' j ≡ some f
      → ((k : ℕ) → k ≢ j → m' k ≡ m k)
      → ((k : ℕ) → k ≢ j → s' k ≡ s k)
      → (p i a : ℕ) (es : List Entry) (z : ℕ) → j ≡ i + p
      → Shards live m s i a es z
      → Shards live m' s' i a (mark_pushed p es) z
  unfolding mark_pushed
  Shards-mark_pushed live m s m' s' j f mj mj' sj mk sk zero i a [] z q h = h
  Shards-mark_pushed live m s m' s' j f mj mj' sj mk sk (suc p) i a [] z q h = h
  Shards-mark_pushed live m s m' s' j f mj mj' sj mk sk zero i a (e ∷ es) z q h =
      let q' : i ≡ j = omega arith in
      (
        subst (λ y. IsKept live m' s' y a (record e { pushed = true })) (sym q')
            (IsKept-uploaded live m s m' s' j a f e mj mj' sj
              (subst (λ y. IsKept live m s y a e) q' h.0)),
        Shards-irrelevant live m s m' s' (suc i) e.row_end es z
            (λ k x y. mk k (λ t. absurd (omega arith))) (λ k x y. sk k (λ t. absurd (omega arith)))
            h.1,
      )
  Shards-mark_pushed live m s m' s' j f mj mj' sj mk sk (suc p) i a (e ∷ es) z q h = (
    IsKept-irrelevant live m s m' s' i a e (mk i (λ t. absurd (omega arith)))
        (sk i (λ t. absurd (omega arith))) h.0,
    Shards-mark_pushed live m s m' s' j f mj mj' sj mk sk p (suc i) e.row_end es z (omega arith)
        h.1,
  )

  -- The rows only grow along the list.
  pub Shards-le :
      (live : Bool) (m s : Files (File H)) (i a : ℕ) (es : List Entry) (z : ℕ)
      → Shards live m s i a es z
      → a ≤ z
  Shards-le live m s i a [] z h = omega arith
  Shards-le live m s i a (e ∷ es) z h =
      let n : a < e.row_end = h.0.nonempty in
      omega (arith, Shards-le live m s (suc i) e.row_end es z h.1)

  -- The end of the list is the `row_end` of its last shard.
  pub Shards-get_last? :
      (live : Bool) (m s : Files (File H)) (i a : ℕ) (es : List Entry) (z : ℕ) (e : Entry)
      → Shards live m s i a es z
      → get_last? es ≡ some e
      → e.row_end ≡ z
  Shards-get_last? live m s i a [] z e h q = absurd (ground arith)
  Shards-get_last? live m s i a (x ∷ []) z e h q =
      let q' : x ≡ e = ground arith in ap (λ (y : Entry). y.row_end) (sym q') ∙ h.1
  Shards-get_last? live m s i a (x ∷ y ∷ es) z e h q =
      Shards-get_last? live m s (suc i) x.row_end (y ∷ es) z e h.1 q

  pub Shards-get_last?-none :
      (live : Bool) (m s : Files (File H)) (i a : ℕ) (es : List Entry) (z : ℕ)
      → Shards live m s i a es z
      → get_last? es ≡ none
      → z ≡ a
  Shards-get_last?-none live m s i a [] z h q = sym h
  Shards-get_last?-none live m s i a (x ∷ es) z h q = absurd (get_last?-ne-none x es q)

  of_not_none : (o : Option (File H)) → is_none o ≡ false → (f : File H) × (o ≡ some f)
  of_not_none none h = absurd (ground arith)
  of_not_none (some f) h = (f, refl)

  IsKept-live :
      (m s : Files (File H)) (i a : ℕ) (e : Entry)
      → (not e.pushed && is_none (m e.shard_idx)) ≡ false
      → IsKept false m s i a e
      → IsKept true m s i a e
  IsKept-live m s i a e t h = record {
    idx = h.idx;
    path = h.path;
    start = h.start;
    nonempty = h.nonempty;
    on_scratch = h.on_scratch;
    in_store = h.in_store;
    present =
        λ _ p. subst (λ k. (f : File H) × (m k ≡ some f)) h.idx (of_not_none _ (ground arith));
  }

  -- What `_drop_shards_missing_locally` keeps can all be found, and ends where the first shard that
  -- it drops begins.
  pub Shards-present_prefix :
      (m s : Files (File H)) (i a : ℕ) (es : List Entry) (z : ℕ) (e : Entry)
      → Shards false m s i a es z
      → first_missing m es ≡ some e
      → Shards true m s i a (present_prefix m es) e.row_start
  unfolding first_missing present_prefix
  Shards-present_prefix m s i a [] z e h q = absurd (ground arith)
  Shards-present_prefix m s i a (x ∷ es) z e h q =
      elim (Bool-cases (not x.pushed && is_none (m x.shard_idx))) [
        | inl gone ↦
            let q' : x ≡ e = ground arith in
            rw gone (sym (h.0.start) ∙ ap (λ (y : Entry). y.row_start) q')
        | inr here ↦ rw here (
          IsKept-live m s i a x here h.0,
          Shards-present_prefix m s (suc i) x.row_end es z e h.1 (rw here at q),
        )
      ]

  pub Shards-first_missing-none :
      (m s : Files (File H)) (i a : ℕ) (es : List Entry) (z : ℕ)
      → Shards false m s i a es z
      → first_missing m es ≡ none
      → Shards true m s i a es z
  unfolding first_missing
  Shards-first_missing-none m s i a [] z h q = h
  Shards-first_missing-none m s i a (x ∷ es) z h q =
      elim (Bool-cases (not x.pushed && is_none (m x.shard_idx))) [
        | inl gone ↦ absurd (ground arith)
        | inr here ↦ (
          IsKept-live m s i a x here h.0,
          Shards-first_missing-none m s (suc i) x.row_end es z h.1 (rw here at q),
        )
      ]

  -- The dropped shards begin no later than the list ends.
  pub Shards-prefix_le :
      (m s : Files (File H)) (i a : ℕ) (es : List Entry) (z : ℕ) (e : Entry)
      → Shards false m s i a es z
      → first_missing m es ≡ some e
      → e.row_start ≤ z
  unfolding first_missing
  Shards-prefix_le m s i a [] z e h q = absurd (ground arith)
  Shards-prefix_le m s i a (x ∷ es) z e h q =
      elim (Bool-cases (not x.pushed && is_none (m x.shard_idx))) [
        | inl gone ↦
            let q' : x ≡ e = ground arith in
            let q'' : x.row_start ≡ e.row_start = ap (λ (y : Entry). y.row_start) q' in
            omega (arith, q'', h.0.start, Shards-le false m s i a (x ∷ es) z h)
        | inr here ↦ Shards-prefix_le m s (suc i) x.row_end es z e h.1 (rw here at q)
      ]
