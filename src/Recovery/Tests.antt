-- ===== src/Recovery/Tests.antt =====
-- The repair scripts on the small layer, and their theorems at it.
use graph_extraction.Base.{
  Bool-cases, eq_iff, subst, ◌-◌, All, ℕ, zero, suc, ◌≤◌, ◌<◌, ◌≡◌, inl, inr, refl, true, false,
  none, some, [], ◌∷◌, str_eq, arith,
}
use graph_extraction.Base.Decimal.{read_number, show_padded}
use graph_extraction.Base.Dict.{dict_eq, Files, NodupKeys, lookup}
use graph_extraction.Base.Texts.{drop_chars, str_eq_self}
use graph_extraction.Base.Slices.{seg}
use graph_extraction.Writer.State.{Config, File, World, Progress, Entry}
use graph_extraction.Writer.Lifecycle.{load_shard_rows}
use graph_extraction.Writer.Loading.{InSchema}
use graph_extraction.Writer.Shards.{Shards, Holds, rows_of}
use graph_extraction.Writer.Sample.{lists, steady, config, value}
use graph_extraction.Recovery.Rebuild.{
  Reading, reconstruct_progress, list_shards, shard_file_name, shard_number, add_shard, add_shards,
  write_manifest_for_layer,
}
use graph_extraction.Recovery.Rebuilding.{IsOfLayer, IsProgressOf, reconstruct_progress-Shards}
use graph_extraction.Recovery.Recovering.{IsRecovered, write_manifest_for_layer-IsRecovered}
use graph_extraction.Recovery.Listing.{Lists, reconstruct_progress-Lists}

program : Unit {0}
unfolding load_shard_rows lookup seg rows_of write_manifest_for_layer reconstruct_progress
    add_shards add_shard list_shards shard_number shard_file_name
program = tt

-- A layer of three rows in two shards, on scratch; the process was killed before it pushed them.
abbrev small : Config lists
small = record config { n_rows = 3; schema = ("x", "float32") ∷ [] }

abbrev first_file : File lists
first_file = record { row_start = 0; row_end = 2; attrs = []; dsets = ("x", 0 ∷ 1 ∷ []) ∷ [] }

abbrev second_file : File lists
second_file = record { row_start = 2; row_end = 3; attrs = []; dsets = ("x", 2 ∷ []) ∷ [] }

abbrev files : Files (File lists)
files zero = some first_file
files (suc zero) = some second_file
files (suc (suc j)) = none

abbrev nowhere : Files (File lists)
nowhere j = none

abbrev first_entry : Entry
first_entry = record { shard_idx = 0; row_start = 0; row_end = 2; virtual_path = 0; pushed = false }

abbrev second_entry : Entry
second_entry = record {
  shard_idx = 1;
  row_start = 2;
  row_end = 3;
  virtual_path = 1;
  pushed = false;
}

holds_from :
    (f : File lists) (e : Entry)
    → f.row_start ≡ e.row_start
    → f.row_end ≡ e.row_end
    → rows_of lists f "x" ≡ some (seg (value "x") e.row_start (e.row_end - e.row_start))
    → Holds lists small.schema value f e
unfolding lookup
holds_from f e p q r = record {
  same_start = p;
  same_end = q;
  dataset = λ name spec known. elim (Bool-cases (str_eq "x" name)) [
    | inl t ↦
        subst (λ n. rows_of lists f n ≡ some (seg (value n) e.row_start (e.row_end - e.row_start)))
          ((eq_iff "x" name).0 t) r
    | inr t ↦ absurd (ground (arith, known, t))
  ];
}

some_file : {x y : File lists} → some x ≡ some y → x ≡ y
some_file q = ground arith

first_Holds : Holds lists small.schema value first_file first_entry
unfolding program
first_Holds = holds_from first_file first_entry refl refl refl

second_Holds : Holds lists small.schema value second_file second_entry
unfolding program
second_Holds = holds_from second_file second_entry refl refl refl

false_ne_true : {A : Type 0} → false ≡ true → A
false_ne_true q = absurd (ground arith)

files-Shards :
    Shards lists small.schema value true files nowhere 0 0 (first_entry ∷ second_entry ∷ []) 3
files-Shards = (
  record {
    idx = refl;
    path = refl;
    start = refl;
    nonempty = omega arith;
    on_scratch =
        λ f q. subst (λ x. Holds lists small.schema value x first_entry) (some_file q) first_Holds;
    in_store = λ q. false_ne_true q;
    present = λ p q. (first_file, refl);
  },
  (
    record {
      idx = refl;
      path = refl;
      start = refl;
      nonempty = omega arith;
      on_scratch = λ f q.
          subst (λ x. Holds lists small.schema value x second_entry) (some_file q) second_Holds;
      in_store = λ q. false_ne_true q;
      present = λ p q. (second_file, refl);
    },
    refl,
  ),
)

abbrev progress : Progress lists
progress = record {
  n_rows = 3;
  shard_rows = 2;
  schema = small.schema;
  attrs = [];
  completed_shards = first_entry ∷ second_entry ∷ [];
  next_row = 3;
}

abbrev killed : World lists
killed = record {
  scratch = files;
  store = nowhere;
  progress_file = some progress;
  manifest_file = none;
}

known : All (InSchema lists small.schema value) ("x" ∷ [])
unfolding program
known = (("float32", refl), tt)

-- All datasets of the layer have one description.
abbrev reading : Reading lists
reading = record {
  keys_in_order = λ d. d;
  spec_of = λ d. "float32";
  spec_eq = str_eq;
  int_of = λ v. v;
}

distinct : NodupKeys small.schema
unfolding program
distinct = (refl, tt)

files-IsOfLayer :
    (j : ℕ) (f : File lists)
    → files j ≡ some f
    → IsOfLayer reading str_eq_self small.schema [] distinct tt f
files-IsOfLayer zero f e =
    subst (IsOfLayer reading str_eq_self small.schema [] distinct tt) (some_file e) (refl, refl)
files-IsOfLayer (suc zero) f e =
    subst (IsOfLayer reading str_eq_self small.schema [] distinct tt) (some_file e) (refl, refl)
files-IsOfLayer (suc (suc j)) f e = absurd (ground arith)

shards_lie : (j : ℕ) → j < 2 → (f : File lists) × (files j ≡ some f)
shards_lie zero l = (first_file, refl)
shards_lie (suc zero) l = (second_file, refl)
shards_lie (suc (suc j)) l = absurd (omega (arith, l))

no_more : (j : ℕ) → 2 ≤ j → files j ≡ none
no_more zero l = absurd (omega (arith, l))
no_more (suc zero) l = absurd (omega (arith, l))
no_more (suc (suc j)) l = refl

reconstruct_progress-Shards_example :
    (p : Progress lists) × (reconstruct_progress reading 9 files ≡ some p)
    × IsProgressOf reading str_eq_self small.schema [] distinct tt value files nowhere
        files-IsOfLayer
        (first_entry ∷ second_entry ∷ [])
        3
        p
reconstruct_progress-Shards_example =
    reconstruct_progress-Shards reading str_eq_self small.schema [] distinct tt value files nowhere
      files-IsOfLayer true 9 first_entry (second_entry ∷ []) 3 files-Shards (omega arith)
      (omega arith) shards_lie no_more

-- Not even the progress file was written.
abbrev bare : World lists
bare = record killed { progress_file = none }

write_manifest_for_layer-IsRecovered_example :
    IsRecovered reading str_eq_self small value distinct [] tt steady "x" [] known bare
      files-IsOfLayer 3
      (write_manifest_for_layer reading false 9 bare)
write_manifest_for_layer-IsRecovered_example =
    write_manifest_for_layer-IsRecovered reading str_eq_self small value distinct [] tt steady "x"
      [] known bare files-IsOfLayer true false 9 first_entry (second_entry ∷ []) 3 files-Shards
      (omega arith) (omega arith) shards_lie no_more (inl (refl, refl))

reconstruct_progress-Lists_example :
    Lists files 9 0 0 (first_entry ∷ second_entry ∷ []) 3 × (progress.n_rows ≡ progress.next_row)
unfolding program read_number drop_chars show_padded dict_eq
reconstruct_progress-Lists_example =
    reconstruct_progress-Lists reading files 9 progress (omega arith) refl
