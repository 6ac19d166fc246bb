-- ===== src/Writer/State.antt =====
-- The fields of `ShardedLayerWriter`, its progress file and the disk that it works on.
use graph_extraction.Base.{ℕ, String, Bool, Option, List}
use graph_extraction.Base.Dict.{Dict, Files}
use graph_extraction.Writer.H5.{H5}

pub data Error : Type 0 where
  value_error key_error type_error assertion_error upload_error file_not_found : Error
  -- The loop does not end.
  diverges : Error

-- A method returns, or raises; its object and the disk stay as it left them.
pub data Outcome (S : Type 0) : Type 0 where
  ok : S → Outcome S
  raised : Error → S → Outcome S

infixl 5 ◌>>=◌
abbrev pub ◌>>=◌ : {S : Type 0} → Outcome S → (S → Outcome S) → Outcome S
ok s >>= f = f s
raised e s >>= f = raised e s

-- The state in which a method stopped, either way.
abbrev pub state : {S : Type 0} → Outcome S → S
state (ok s) = s
state (raised e s) = s

-- An element of `completed_shards`.
pub record Entry : Type 0 where
  pub shard_idx : ℕ
  pub row_start : ℕ
  pub row_end : ℕ
  pub virtual_path : ℕ
  pub pushed : Bool

-- A submitted upload, and where in `completed_shards` its entry stands: the source keeps a
-- reference to that entry, and writes through it.
pub record Upload : Type 0 where
  pub ticket : ℕ
  pub auto_delete : Bool
  pub force : Bool
  pub local_path : ℕ
  pub virtual_path : ℕ
  pub position : ℕ

module _ {V : Type 0} (H : H5 V) where
  pub record Config : Type 0 where
    pub n_rows : ℕ
    pub schema : Dict H.Spec
    pub shard_rows : ℕ
    pub flush_every : ℕ
    pub attrs : Dict String
    pub no_push : Bool
    pub defer_push : Bool
    pub force_push : Bool
    pub auto_delete : Bool
    pub max_in_flight : ℕ

  -- An h5 file: its attributes and datasets.
  pub record File : Type 0 where
    pub row_start : ℕ
    pub row_end : ℕ
    pub attrs : Dict String
    pub dsets : Dict H.Dset

  -- The progress JSON.
  pub record Progress : Type 0 where
    pub n_rows : ℕ
    pub shard_rows : ℕ
    pub schema : Dict H.Spec
    pub attrs : Dict String
    pub completed_shards : List Entry
    pub next_row : ℕ

  pub record Manifest : Type 0 where
    pub n_rows : ℕ
    pub shard_rows : ℕ
    pub schema : Dict H.Spec
    pub attrs : Dict String
    pub complete : Bool
    pub next_row : ℕ
    pub shards : List Entry

  -- What outlives the process: scratch, the store, and the JSON files on NFS.
  pub record World : Type 0 where
    pub scratch : Files File
    pub store : Files File
    pub progress_file : Option Progress
    pub manifest_file : Option Manifest

  pub record Writer : Type 0 where
    pub scratch : Files File
    pub store : Files File
    pub progress_file : Option Progress
    pub manifest_file : Option Manifest
    pub progress : Progress
    pub pending_uploads : List Upload
    -- Uploads submitted so far.
    pub submitted : ℕ
    pub cur_h5 : Option File
    pub cur_shard_idx : ℕ
    pub cur_shard_start : ℕ
    pub next_row : ℕ
    pub blocks_since_flush : ℕ

  -- What a process that stops here leaves behind.
  abbrev pub world : Writer → World
  world w = record {
    scratch = w.scratch;
    store = w.store;
    progress_file = w.progress_file;
    manifest_file = w.manifest_file;
  }
