-- ===== src/Recovery/Rebuilding.antt =====
-- `_reconstruct_progress` against the list of shards that the writer had.
use Prim.Native.String
use Prim.Native.String.{◌++◌ as ◌<>◌}
use text.Mathlib.TextLemmas.{length-append}
use graph_extraction.Base.{
  append_snoc, append_nil, ℕ, zero, suc, ◌+◌, ◌≤◌, ◌<◌, ◌≡◌, ◌≢◌, refl, sym, ap, ◌∙◌, subst, String,
  Bool, true, false, Option, none, some, List, [], ◌∷◌, ◌++◌, map, length, ◌==◌, str_eq, arith,
}
use graph_extraction.Base.Decimal.{
  show_padded, read_number, read_number-show_padded, count-show_padded,
}
use graph_extraction.Base.Texts.{drop_chars-append, str_ne, str_eq_self}
use graph_extraction.Base.Dict.{Dict, Files, NodupKeys, dict_eq_refl}
use graph_extraction.Writer.H5.{H5}
use graph_extraction.Writer.State.{Entry, File, Progress}
use graph_extraction.Writer.Shards.{Shards}
use graph_extraction.Recovery.Rebuild.{
  shard_file_name, shard_number, list_shards, Reading, schema_of, attrs_of, Rebuilt, same_kinds,
  add_shard, add_shards, rebuilt_entry, first_kinds, reconstruct_progress, nothing_yet,
  progress_from, progress_of, check_shard, rebuilt_progress, added,
}

-- The number in a shard's name is read back.
pub shard_number-shard_file_name : (i : ℕ) → shard_number (shard_file_name i) ≡ some i
unfolding shard_number shard_file_name read_number
shard_number-shard_file_name i =
    let text = show_padded 5 i <> ".h5" in
    let back : read_number 0 text ≡ (i, ".h5") = read_number-show_padded 5 i ".h5" in
    let ne : text ≢ ".h5" = λ e. absurd (
      omega
        (arith, ap String.count e, length-append (show_padded 5 i) ".h5", count-show_padded 5 i)) in
    rw (drop_chars-append "shard_" text, back, str_ne text ".h5" ne) refl

-- An entry as the script writes it.
abbrev pub unpushed : Entry → Entry
unpushed e = record e { pushed = false }

pub list_shards-some :
    {F : Type 0} (k i : ℕ) (m : Files F) (f : F)
    → m i ≡ some f
    → list_shards (suc k) i m ≡ (shard_file_name i, f) ∷ list_shards k (suc i) m
unfolding list_shards
list_shards-some k i m f e = rw (e, list_shards) refl

pub list_shards-gap :
    {F : Type 0} (k i : ℕ) (m : Files F)
    → m i ≡ none
    → list_shards (suc k) i m ≡ list_shards k (suc i) m
unfolding list_shards
list_shards-gap k i m e = rw (e, list_shards) refl

list_shards-none :
    {F : Type 0} (k i : ℕ) (m : Files F) → ((j : ℕ) → i ≤ j → m j ≡ none) → list_shards k i m ≡ []
unfolding list_shards
list_shards-none zero i m h = refl
list_shards-none (suc k) i m h =
    list_shards-gap k i m (h i (omega arith))
    ∙ list_shards-none k (suc i) m (λ j l. h j (omega arith))

module _ {V : Type 0} {H : H5 V} (h5 : Reading H)
    (spec_eq_refl : (s : H.Spec) → h5.spec_eq s s ≡ true) (schema : Dict H.Spec)
    (attrs : Dict String) (distinct : NodupKeys schema) (distinct_attrs : NodupKeys attrs) where
  -- The file has the datasets of the layer, and its attributes as `int` reads them.
  abbrev pub IsOfLayer : File H → Type 0
  IsOfLayer f = (schema_of h5 f ≡ schema) × (attrs_of h5 f ≡ attrs)

  abbrev Agrees : Option (Dict H.Spec × Dict String) → Type 0
  Agrees none = Unit
  Agrees (some k) = k ≡ (schema, attrs)

  same_kinds-true :
      (k : Option (Dict H.Spec × Dict String)) (f : File H)
      → Agrees k
      → IsOfLayer f
      → same_kinds h5 k f ≡ true
  same_kinds-true none f a h = refl
  same_kinds-true (some (s, t)) f a h =
      let s' : s ≡ schema = ap (λ (x, y). x) a in
      let t' : t ≡ attrs = ap (λ (x, y). y) a in
      rw
        (
          s',
          t',
          h.0,
          h.1,
          dict_eq_refl h5.spec_eq spec_eq_refl schema distinct,
          dict_eq_refl str_eq str_eq_self attrs distinct_attrs,
        )
        refl

  first_kinds-layer :
      (k : Option (Dict H.Spec × Dict String)) (f : File H)
      → Agrees k
      → IsOfLayer f
      → first_kinds h5 k f ≡ (schema, attrs)
  first_kinds-layer none f a h = rw (h.0, h.1) refl
  first_kinds-layer (some k) f a h = a

  -- The loop went on from `r` over the files of `es`, to row `z`.
  record IsRebuilt (z : ℕ) (es : List Entry) (r r' : Rebuilt h5) : Type 0 where
    completed : r'.completed_shards ≡ r.completed_shards ++ map unpushed es
    kinds : r'.kinds ≡ some (schema, attrs)
    reached : r'.expected_row_start ≡ z
    rows : (n : ℕ) × (r'.shard_rows ≡ some n)

  add_shard_lem :
      (i : ℕ) (e : Entry) (f : File H) (r : Rebuilt h5)
      → e.shard_idx ≡ i
      → e.virtual_path ≡ i
      → f.row_start ≡ e.row_start
      → f.row_end ≡ e.row_end
      → e.row_start ≡ r.expected_row_start
      → Agrees r.kinds
      → IsOfLayer f
      → (r' : Rebuilt h5) × (add_shard h5 (shard_file_name i) f r ≡ some r')
        × IsRebuilt e.row_end (e ∷ []) r r'
  unfolding add_shard
  add_shard_lem i e f r idx path start end next a h =
      let t : (f.row_start == r.expected_row_start) ≡ true = ground (arith, start, next) in
      let k = same_kinds-true r.kinds f a h in
      let entry : rebuilt_entry h5 i f ≡ unpushed e = rw (start, end, idx, path) refl in
      (
        added h5 i f r,
        ap (λ o. check_shard h5 o f r) (shard_number-shard_file_name i) ∙ rw (t, k) refl,
        record {
          completed = ap (λ x. r.completed_shards ++ x ∷ []) entry;
          kinds = ap some (first_kinds-layer r.kinds f a h);
          reached = end;
          rows = (_, refl);
        },
      )

  module _ (g : String → ℕ → V) (m s : Files (File H))
      (of_layer : (j : ℕ) (f : File H) → m j ≡ some f → IsOfLayer f) where
    one_shard :
        (live : Bool) (k i a : ℕ) (e : Entry) (es : List Entry) (z : ℕ) (f : File H)
        (r : Rebuilt h5)
        → Shards H schema g live m s i a (e ∷ es) z
        → m i ≡ some f
        → r.expected_row_start ≡ a
        → Agrees r.kinds
        → (r' : Rebuilt h5) × (add_shards h5 (list_shards (suc k) i m) r
            ≡ add_shards h5 (list_shards k (suc i) m) r')
          × IsRebuilt e.row_end (e ∷ []) r r'
    unfolding add_shards
    one_shard live k i a e es z f r h here q a' =
        let holds = h.0.on_scratch f here in
        let (r', x, y) =
          add_shard_lem i e f r h.0.idx h.0.path holds.same_start holds.same_end (h.0.start ∙ sym q)
            a' (of_layer i f here) in
        (r', rw (list_shards-some k i m f here, add_shards) (rw (x, add_shards) refl), y)

    add_shards-Shards :
        (live : Bool) (k i a : ℕ) (es : List Entry) (z : ℕ) (r : Rebuilt h5)
        → Shards H schema g live m s i a es z
        → length es ≤ k
        → ((j : ℕ) → i ≤ j → j < i + length es → (f : File H) × (m j ≡ some f))
        → ((j : ℕ) → i + length es ≤ j → m j ≡ none)
        → r.expected_row_start ≡ a
        → r.kinds ≡ some (schema, attrs)
        → (n : ℕ) × (r.shard_rows ≡ some n)
        → (r' : Rebuilt h5) × (add_shards h5 (list_shards k i m) r ≡ some r') × IsRebuilt z es r r'
    unfolding add_shards
    add_shards-Shards live k i a [] z r h l here gap q kinds rows = (
      r,
      rw (list_shards-none k i m (λ j x. gap j (omega arith)), add_shards) refl,
      record {
        completed = sym (append_nil r.completed_shards);
        kinds = kinds;
        reached = q ∙ h;
        rows = rows;
      },
    )
    add_shards-Shards live zero i a (e ∷ es) z r h l here gap q kinds rows =
        absurd (omega (arith, l))
    add_shards-Shards live (suc k) i a (e ∷ es) z r h l here gap q kinds rows =
        let (f, x) = here i (omega arith) (omega arith) in
        let (r1, step, y) = one_shard live k i a e es z f r h x q (subst Agrees (sym kinds) refl) in
        let (r2, rest, w) =
          add_shards-Shards live k (suc i) e.row_end es z r1 h.1 (omega (arith, l))
            (λ j u v. here j (omega arith) (omega arith)) (λ j u. gap j (omega arith)) y.reached
            y.kinds y.rows in
        (
          r2,
          step ∙ rest,
          record {
            completed =
                w.completed
                ∙ ap (λ xs. xs ++ map unpushed es) y.completed
                ∙ append_snoc r.completed_shards (unpushed e) (map unpushed es);
            kinds = w.kinds;
            reached = w.reached;
            rows = w.rows;
          },
        )

    -- What the script gives back for the shards `es`.
    pub record IsProgressOf (es : List Entry) (z : ℕ) (p : Progress H) : Type 0 where
      pub completed : p.completed_shards ≡ map unpushed es
      pub next_row : p.next_row ≡ z
      pub n_rows : p.n_rows ≡ z
      pub schema_read : p.schema ≡ schema
      pub attrs_read : p.attrs ≡ attrs

    -- A layer's shards, of which there are any, all lie on scratch, numbered below `limit`, at most
    -- 100000, with the layer's schema and with attributes that `int()`, applied to the numbers among
    -- them, turns into the layer's; and no other file does. The script finds again the list of shards
    -- that the writer had recorded, with no shard pushed, the number of rows, the schema and these
    -- converted attributes.
    pub reconstruct_progress-Shards :
        (live : Bool) (limit : ℕ) (e : Entry) (es : List Entry) (z : ℕ)
        → Shards H schema g live m s 0 0 (e ∷ es) z
        → length (e ∷ es) ≤ limit
        → limit ≤ 100000
        → ((j : ℕ) → j < length (e ∷ es) → (f : File H) × (m j ≡ some f))
        → ((j : ℕ) → length (e ∷ es) ≤ j → m j ≡ none)
        → (p : Progress H) × (reconstruct_progress h5 limit m ≡ some p) × IsProgressOf (e ∷ es) z p
    unfolding reconstruct_progress
    reconstruct_progress-Shards live zero e es z h l five here gap = absurd (omega (arith, l))
    reconstruct_progress-Shards live (suc k) e es z h l five here gap =
        let (f, x) = here 0 (omega arith) in
        let (r1, step, y) = one_shard live k 0 0 e es z f (nothing_yet h5) h x refl tt in
        let (r2, rest, w) =
          add_shards-Shards live k 1 e.row_end es z r1 h.1 (omega (arith, l))
            (λ j u v. here j (omega arith)) (λ j u. gap j (omega arith)) y.reached y.kinds y.rows in
        let (n, rows) = w.rows in
        (
          rebuilt_progress h5 r2 (schema, attrs) n,
          ap (progress_from h5) (step ∙ rest)
              ∙ ap (λ k. progress_of h5 r2 k r2.shard_rows) w.kinds
              ∙ ap (progress_of h5 r2 (some (schema, attrs))) rows,
          record {
            completed = w.completed ∙ ap (λ xs. xs ++ map unpushed es) y.completed;
            next_row = w.reached;
            n_rows = w.reached;
            schema_read = refl;
            attrs_read = refl;
          },
        )
