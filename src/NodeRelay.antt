-- ===== src/NodeRelay.antt =====
-- execute/node_relay.py: shards travel from scratch over NFS staging to scratch.
pub mod Laws
pub mod Backend
mod Tests
use graph_extraction.Base.{ℕ, ◌≡◌, Bool, true, false, ◌&&◌, Option, none, some, if◌then◌else◌, ◌==◌}

-- The directories that a path of this module can lie under: a node's scratch (a `dest_dir`),
-- `PROJECT_ROOT` and `STAGING_ROOT`.
pub data Root : Type 0 where
  scratch project staging : Root

abbrev pub same_root : Root → Root → Bool
same_root scratch scratch = true
same_root project project = true
same_root staging staging = true
same_root _ _ = false

-- `os.path.join(root, virtual_path)`, with the virtual paths numbered, or the file
-- `<path>.tmp.<pid>` beside it.
pub record FilePath : Type 0 where
  pub root : Root
  pub virtual_path : ℕ
  pub temporary : Bool

abbrev pub under : Root → ℕ → FilePath
under r v = record { root = r; virtual_path = v; temporary = false }

abbrev pub tmp_of : FilePath → FilePath
tmp_of p = record p { temporary = true }

abbrev pub same_bool : Bool → Bool → Bool
same_bool true b = b
same_bool false true = false
same_bool false false = true

unfoldable pub same_path : FilePath → FilePath → Bool
same_path p q =
    same_root p.root q.root
    && ((p.virtual_path == q.virtual_path) && same_bool p.temporary q.temporary)

abbrev pub FileSystem : Type 0 → Type 0
FileSystem F = FilePath → Option F

abbrev pub write : {F : Type 0} → FilePath → Option F → FileSystem F → FileSystem F
write p o fs q = if same_path p q then o else fs q

abbrev pub exists : {F : Type 0} → Option F → Bool
exists none = false
exists (some f) = true

pub data Error : Type 0 where
  called_process_error file_not_found : Error

pub data Outcome (F A : Type 0) : Type 0 where
  ok : A → FileSystem F → Outcome F A
  raised : Error → FileSystem F → Outcome F A

-- One run of `rsync -a src tmp`: whether it exits with 0, and what stands at `tmp` afterwards, from
-- what stands at `src`. It is not in the repository; `IsCopy` is what its exit status means.
abbrev pub Rsync : Type 0 → Type 0
Rsync F = Option F → record { success : Bool; left : Option F }

pub record IsCopy {F : Type 0} (rsync : Rsync F) : Type 0 where
  pub copied :
      (src : Option F)
      → (rsync src).success ≡ true
      → (f : F) × (src ≡ some f) × ((rsync src).left ≡ some f)

abbrev pub staging_path : ℕ → FilePath
staging_path v = under staging v

-- Where a pulled file goes: the flag says whether a `dest_dir` is given. Without one the path is
-- taken relative to the project's root, where the programs run.
abbrev pub local_path : Bool → ℕ → FilePath
local_path true v = under scratch v
local_path false v = under project v

module _ {F : Type 0} where
  -- `remote_exists`
  abbrev pub remote_exists : ℕ → FileSystem F → Bool
  remote_exists v fs = exists (fs (staging_path v))

  -- `_rsync`: a copy to `tmp_dst`, then `os.replace(tmp_dst, dst)`.
  unfoldable pub rsync_file : Rsync F → FilePath → FilePath → FileSystem F → Outcome F (Unit {0})
  rsync_file rsync src dst fs =
      let run = rsync (fs src) in
      let fs' : FileSystem F = write (tmp_of dst) run.left fs in
      if run.success
      then ok tt (write (tmp_of dst) none (write dst run.left fs'))
      else raised called_process_error fs'

  abbrev remove_if : Bool → FilePath → Outcome F (Unit {0}) → Outcome F (Unit {0})
  remove_if true p (ok a fs) = ok a (write p none fs)
  remove_if false p (ok a fs) = ok a fs
  remove_if b p (raised e fs) = raised e fs

  -- `push(path, virtual_path, auto_delete)`
  unfoldable pub push : Rsync F → FilePath → ℕ → Bool → FileSystem F → Outcome F (Unit {0})
  unfolding rsync_file
  push rsync path v auto_delete fs =
      remove_if auto_delete path (rsync_file rsync path (staging_path v) fs)

  abbrev pulled : FilePath → Outcome F (Unit {0}) → Outcome F FilePath
  pulled p (ok _ fs) = ok p fs
  pulled p (raised e fs) = raised e fs

  -- `ensure_local(virtual_path, dest_dir)`
  unfoldable pub ensure_local : Rsync F → ℕ → Bool → FileSystem F → Outcome F FilePath
  unfolding rsync_file
  ensure_local rsync v dest_dir fs =
      if exists (fs (local_path dest_dir v))
      then ok (local_path dest_dir v) fs
      else if dest_dir && exists (fs (under project v))
      then ok (under project v) fs
      else if exists (fs (staging_path v))
      then pulled (local_path dest_dir v)
          (rsync_file rsync (staging_path v) (local_path dest_dir v) fs)
      else raised file_not_found fs
