-- ===== src/Recovery/Reclaim.antt =====
-- scripts/helper/reclaim_pushed_shards.py: shards that have been pushed are deleted from scratch.
use Prim.Native.String.{◌++◌ as ◌<>◌}
use graph_extraction.Base.{
  ℕ, String, Bool, false, ◌&&◌, ◌||◌, Option, none, some, List, [], ◌∷◌, ◌++◌, leb, if◌then◌else◌,
}
use graph_extraction.Base.Dict.{Dict, lookup, erase}
use graph_extraction.Writer.State.{file_not_found, Outcome, ok, raised}
use graph_extraction.Recovery.Rebuild.{shard_file_name}

-- What `os.path.getsize` and `os.path.getmtime` tell of a file.
pub record Stat : Type 0 where
  pub size : ℕ
  pub mtime : ℕ

pub record Shard : Type 0 where
  pub shard_idx : ℕ
  pub virtual_path : String
  pub pushed : Bool

-- A `.progress.json`.
pub record Layer : Type 0 where
  pub layer_key : String
  pub completed_shards : List Shard

-- `--backend`
pub data Backend : Type 0 where
  hetzner nfs both : Backend

-- The node and the file systems that it sees: the files under the scratch root, whether a path
-- elsewhere exists, the staging root, and the progress files that `_find_progress_files` finds.
pub record Site : Type 0 where
  pub scratch : Dict Stat
  pub exists : String → Bool
  pub staging_root : String
  pub progress_files : List Layer

pub record Candidate : Type 0 where
  pub local_path : String
  pub size : ℕ
  pub mtime : ℕ

abbrev pub repo_root : String
repo_root = "/nfs-share/pa511/code_bases/new_jac"

-- Below the scratch root.
unfoldable pub local_path_of : String → ℕ → String
local_path_of layer_key i = layer_key <> ("/" <> shard_file_name i)

module _ (site : Site) where
  unfoldable pub hetzner_ptr_exists : String → Bool
  hetzner_ptr_exists virtual_path =
      site.exists (repo_root <> ("/.ptrs/" <> (virtual_path <> ".ptr")))

  unfoldable pub nfs_staged_exists : String → Bool
  nfs_staged_exists virtual_path = site.exists (site.staging_root <> ("/" <> virtual_path))

  -- What is taken for a copy of the shard: for hetzner that its local pointer file exists, for nfs
  -- its staged file.
  unfoldable pub is_backed : Backend → String → Bool
  unfolding hetzner_ptr_exists nfs_staged_exists
  is_backed hetzner virtual_path = hetzner_ptr_exists virtual_path
  is_backed nfs virtual_path = nfs_staged_exists virtual_path
  is_backed both virtual_path = hetzner_ptr_exists virtual_path || nfs_staged_exists virtual_path

  unfoldable pub candidate : Backend → String → Shard → Option Candidate
  unfolding is_backed
  candidate backend layer_key s = elim (lookup (local_path_of layer_key s.shard_idx) site.scratch) [
    | none ↦ none
    | some file ↦
        if s.pushed && is_backed backend s.virtual_path
        then some (record {
          local_path = local_path_of layer_key s.shard_idx;
          size = file.size;
          mtime = file.mtime;
        })
        else none
  ]

  unfoldable pub shard_candidates : Backend → String → List Shard → List Candidate
  unfolding candidate
  shard_candidates backend layer_key [] = []
  shard_candidates backend layer_key (s ∷ shards) =
      let rest = shard_candidates backend layer_key shards in
      elim (candidate backend layer_key s) [ none ↦ rest | some c ↦ c ∷ rest ]

  unfoldable pub candidates : Backend → List Layer → List Candidate
  unfolding shard_candidates
  candidates backend [] = []
  candidates backend (l ∷ layers) =
      shard_candidates backend l.layer_key l.completed_shards ++ candidates backend layers

-- `candidates.sort(key=lambda c: c["mtime"])`
unfoldable pub insert_by_mtime : Candidate → List Candidate → List Candidate
insert_by_mtime c [] = c ∷ []
insert_by_mtime c (x ∷ xs) =
    let rest = insert_by_mtime c xs in if leb c.mtime x.mtime then c ∷ x ∷ xs else x ∷ rest

unfoldable pub sort_by_mtime : List Candidate → List Candidate
unfolding insert_by_mtime
sort_by_mtime [] = []
sort_by_mtime (c ∷ cs) = insert_by_mtime c (sort_by_mtime cs)

unfoldable pub eligible_shards : Site → Backend → List Candidate
unfolding candidates sort_by_mtime
eligible_shards site backend = sort_by_mtime (candidates site backend site.progress_files)

-- `shutil.disk_usage` tells how much is free while the scratch root has these files.
module _ (free : Dict Stat → ℕ) where
  -- `--target-free-gb`, here in bytes.
  abbrev pub is_reached : Option ℕ → Dict Stat → Bool
  is_reached none scratch = false
  is_reached (some target) scratch = leb target (free scratch)

  -- The loop of `main`, with what is on scratch when it ends or raises.
  unfoldable pub reclaim : Bool → Option ℕ → List Candidate → Dict Stat → Outcome (Dict Stat)
  reclaim dry_run target [] scratch = ok scratch
  reclaim dry_run target (c ∷ cs) scratch =
      let kept = reclaim dry_run target cs scratch in
      let deleted = reclaim dry_run target cs (erase c.local_path scratch) in
      if is_reached target scratch
      then ok scratch
      else if dry_run
      then kept
      else elim (lookup c.local_path scratch) [
        | none ↦ raised file_not_found scratch
        | some file ↦ deleted
      ]

  unfoldable pub main : Bool → Option ℕ → Backend → Site → Outcome (Dict Stat)
  unfolding reclaim eligible_shards
  main dry_run target backend site =
      reclaim dry_run target (eligible_shards site backend) site.scratch
