-- ===== src/Recovery/Rebuild.antt =====
-- The first pass of scripts/helper/reconstruct_perturbed_sweep_manifests.py: a layer's progress
-- from its shard files alone.
use Prim.Native.String.{◌++◌ as ◌<>◌}
use graph_extraction.Base.{
  ℕ, zero, suc, ◌-◌, String, Bool, true, false, ◌&&◌, ◌||◌, not, Option, none, some, List, [], ◌∷◌,
  ◌++◌, map, ltb, ◌==◌, str_eq, if◌then◌else◌,
}
use graph_extraction.Base.Decimal.{show_padded, read_number}
use graph_extraction.Base.Texts.{drop_chars}
use graph_extraction.Base.Dict.{Dict, Files, dict_eq}
use graph_extraction.Writer.H5.{H5}
use graph_extraction.Writer.Lifecycle.{manifest_of}
use graph_extraction.Writer.State.{
  assertion_error, Outcome, ok, raised, Entry, File, Progress, World,
}
use graph_extraction.Writer.Steps.{is_none, shard_virtual_path}

-- The name under which the writer keeps a shard.
unfoldable pub shard_file_name : ℕ → String
shard_file_name i = "shard_" <> (show_padded 5 i <> ".h5")

-- `int(...)` of what stands before the ending `.h5`; the writer's names have digits only there.
abbrev pub number_before : String → ℕ × String → Option ℕ
number_before text (n, left) = if str_eq left ".h5" && not (str_eq text ".h5") then some n else none

-- `int(os.path.basename(shard_path)[len("shard_"):-len(".h5")])`
unfoldable pub shard_number : String → Option ℕ
shard_number name = number_before (drop_chars 6 name) (read_number 0 (drop_chars 6 name))

-- `sorted(glob.glob(".../shard_*.h5"))` of the files whose number is from `i` on and has `k` numbers
-- before the end: with five digits, so below 100000, the order of the names is that of the numbers.
unfoldable pub list_shards : {F : Type 0} → ℕ → ℕ → Files F → List (String × F)
list_shards zero i m = []
list_shards (suc k) i m =
    let rest = list_shards k (suc i) m in
    elim (m i) [ none ↦ rest | some f ↦ (shard_file_name i, f) ∷ rest ]

-- What h5py tells of a file's datasets: their order, and each one's shape and dtype; and whether two
-- such descriptions are equal.
pub record Reading {V : Type 0} (H : H5 V) : Type 0 where
  pub keys_in_order : Dict H.Dset → Dict H.Dset
  pub spec_of : H.Dset → H.Spec
  pub spec_eq : H.Spec → H.Spec → Bool
  -- `int(v)` of an attribute that is a number, with its fraction cut off; a text stays as it is.
  pub int_of : String → String

module _ {V : Type 0} {H : H5 V} (h5 : Reading H) where
  abbrev pub schema_of : File H → Dict H.Spec
  schema_of f = map (λ (name, d). (name, h5.spec_of d)) (h5.keys_in_order f.dsets)

  -- `this_attrs`
  abbrev pub attrs_of : File H → Dict String
  attrs_of f = map (λ (name, v). (name, h5.int_of v)) f.attrs

  -- The local variables of `_reconstruct_progress`; `kinds` is the pair `schema`, `attrs`.
  pub record Rebuilt : Type 0 where
    pub completed_shards : List Entry
    pub kinds : Option (Dict H.Spec × Dict String)
    pub expected_row_start : ℕ
    pub shard_rows : Option ℕ

  abbrev pub same_kinds : Option (Dict H.Spec × Dict String) → File H → Bool
  same_kinds none f = true
  same_kinds (some (schema, attrs)) f =
      dict_eq h5.spec_eq (schema_of f) schema && dict_eq str_eq (attrs_of f) attrs

  abbrev pub first_kinds : Option (Dict H.Spec × Dict String) → File H → Dict H.Spec × Dict String
  first_kinds none f = (schema_of f, attrs_of f)
  first_kinds (some k) f = k

  abbrev pub most_rows : Option ℕ → ℕ → ℕ
  most_rows none n = n
  most_rows (some r) n = if ltb r n then n else r

  abbrev pub rebuilt_entry : ℕ → File H → Entry
  rebuilt_entry i f = record {
    shard_idx = i;
    row_start = f.row_start;
    row_end = f.row_end;
    virtual_path = shard_virtual_path i;
    pushed = false;
  }

  -- The variables after a shard that passes the assertions.
  abbrev pub added : ℕ → File H → Rebuilt → Rebuilt
  added i f r = record {
    completed_shards = r.completed_shards ++ rebuilt_entry i f ∷ [];
    kinds = some (first_kinds r.kinds f);
    expected_row_start = f.row_end;
    shard_rows = some (most_rows r.shard_rows (f.row_end - f.row_start));
  }

  -- The assertions, for shard number `i`; `none` is an exception.
  abbrev pub check_shard : Option ℕ → File H → Rebuilt → Option Rebuilt
  check_shard none f r = none
  check_shard (some i) f r =
      if not (f.row_start == r.expected_row_start) || not (same_kinds r.kinds f)
      then none
      else some (added i f r)

  -- One round of the loop.
  unfoldable pub add_shard : String → File H → Rebuilt → Option Rebuilt
  add_shard name f r = check_shard (shard_number name) f r

  unfoldable pub add_shards : List (String × File H) → Rebuilt → Option Rebuilt
  unfolding add_shard
  add_shards [] r = some r
  add_shards ((name, f) ∷ files) r = elim (add_shard name f r) [
    | none ↦ none
    | some r' ↦ add_shards files r'
  ]

  abbrev pub nothing_yet : Rebuilt
  nothing_yet = record {
    completed_shards = [];
    kinds = none;
    expected_row_start = 0;
    shard_rows = none;
  }

  abbrev pub rebuilt_progress : Rebuilt → Dict H.Spec × Dict String → ℕ → Progress H
  rebuilt_progress r (schema, attrs) rows = record {
    n_rows = r.expected_row_start;
    shard_rows = rows;
    schema = schema;
    attrs = attrs;
    completed_shards = r.completed_shards;
    next_row = r.expected_row_start;
  }

  -- The dict that is returned; without a shard there is none.
  abbrev pub progress_of :
      Rebuilt → Option (Dict H.Spec × Dict String) → Option ℕ → Option (Progress H)
  progress_of r none rows = none
  progress_of r (some k) none = none
  progress_of r (some k) (some rows) = some (rebuilt_progress r k rows)

  abbrev pub progress_from : Option Rebuilt → Option (Progress H)
  progress_from none = none
  progress_from (some r) = progress_of r r.kinds r.shard_rows

  -- For a layer's scratch directory whose shards are numbered below `limit`.
  unfoldable pub reconstruct_progress : ℕ → Files (File H) → Option (Progress H)
  unfolding add_shards list_shards
  reconstruct_progress limit m = progress_from (add_shards (list_shards limit 0 m) nothing_yet)

  abbrev pub write_rebuilt : Option (Progress H) → World H → Outcome (World H × Bool)
  write_rebuilt none d = raised assertion_error (d, false)
  write_rebuilt (some p) d =
      ok (record d { progress_file = some p; manifest_file = some (manifest_of H p) }, true)

  unfoldable pub write_manifest_for_layer : Bool → ℕ → World H → Outcome (World H × Bool)
  unfolding reconstruct_progress
  write_manifest_for_layer force limit d =
      if (not (is_none d.progress_file) || not (is_none d.manifest_file)) && not force
      then ok (d, false)
      else write_rebuilt (reconstruct_progress limit d.scratch) d
