-- ===== src/Upload/Maintain.antt =====
-- `_fetch_ptrs`, `cmd_purge`, `cmd_clean` and the deletion of `cmd_ls`.
pub mod Blobs
pub mod Cleaning
pub mod Deleting
use Prim.Native.String
use graph_extraction.Base.{
  ℕ, ◌-◌, ◌≡◌, String, Bool, true, false, ◌&&◌, ◌||◌, not, Option, none, some, List, [], ◌∷◌, ◌++◌,
  ◌==◌, leb, str_eq, if◌then◌else◌,
}
use graph_extraction.Base.Dict.{Dict, lookup, insert, erase}
use graph_extraction.Upload.State.{
  Library, LocalPath, in_project, has_slash, Ptr, Raw, pointer, corrupt, blank, macos_metadata,
  Answer, line, eof, File, State, remove_files, ptr_path_for, remote_index_path,
}
use graph_extraction.Upload.Push.{answered_yes, confirmed}

-- The pointers that `_fetch_ptrs` returns, in the order of its walk.
unfoldable pub read_ptrs : Dict Raw → List Ptr
read_ptrs [] = []
read_ptrs ((path, pointer p) ∷ entries) = p ∷ read_ptrs entries
read_ptrs ((path, corrupt) ∷ entries) = read_ptrs entries
read_ptrs ((path, blank) ∷ entries) = read_ptrs entries
read_ptrs ((path, macos_metadata) ∷ entries) = read_ptrs entries

-- `_fetch_ptrs` also removes metadata of macOS, where the server lets it (`removable`).
unfoldable pub drop_metadata : (String → Bool) → Dict Raw → Dict Raw → Dict Raw
drop_metadata removable [] index = index
drop_metadata removable ((path, macos_metadata) ∷ entries) index =
    let rest = drop_metadata removable entries index in
    if removable path then erase path rest else rest
drop_metadata removable ((path, pointer p) ∷ entries) index = drop_metadata removable entries index
drop_metadata removable ((path, corrupt) ∷ entries) index = drop_metadata removable entries index
drop_metadata removable ((path, blank) ∷ entries) index = drop_metadata removable entries index

-- `digest in {p["hash"] for p in ptrs}`
unfoldable pub referenced : String → List Ptr → Bool
referenced digest [] = false
referenced digest (p ∷ ptrs) = str_eq p.hash digest || referenced digest ptrs

-- `{p["filename"]: p for p in ptrs}[name]`: the last one wins.
unfoldable pub by_filename : String → List Ptr → Option Ptr
by_filename name [] = none
by_filename name (p ∷ ptrs) = elim (by_filename name ptrs) [
  | some q ↦ some q
  | none ↦ if str_eq p.filename name then some p else none
]

-- `abs(actual_mtime - local_mtime) <= 1`, in nanoseconds.
abbrev pub close_times : ℕ → ℕ → Bool
close_times a b = leb (a - b) 1000000000 && leb (b - a) 1000000000

module _ (L : Library) (removable : String → Bool) where
  unfoldable pub fetch_ptrs : State L → List Ptr × State L
  unfolding read_ptrs drop_metadata
  fetch_ptrs s = (read_ptrs s.index, record s { index = drop_metadata removable s.index s.index })

  unfoldable pub orphans : List Ptr → Dict L.Content → List String
  unfolding referenced
  orphans ptrs [] = []
  orphans ptrs ((digest, c) ∷ blobs) =
      let rest = orphans ptrs blobs in if referenced digest ptrs then rest else digest ∷ rest

  unfoldable pub remove_blobs : List String → Dict L.Content → Dict L.Content
  remove_blobs [] blobs = blobs
  remove_blobs (digest ∷ digests) blobs = remove_blobs digests (erase digest blobs)

  unfoldable pub cmd_purge : List Answer → State L → State L
  unfolding fetch_ptrs orphans remove_blobs confirmed
  cmd_purge answers s =
      let fetched = fetch_ptrs s in
      if confirmed answers
      then record fetched.1 { cache = remove_blobs (orphans fetched.0 s.cache) s.cache }
      else fetched.1

  -- One round of the deletion: the blob, the remote pointer, the local pointer.
  unfoldable pub delete_remote : Ptr → State L → State L
  delete_remote p s = record s {
    cache = erase p.hash s.cache;
    index = erase (remote_index_path p.original_path) s.index;
    ptrs = erase (ptr_path_for (in_project p.original_path) none) s.ptrs;
  }

  unfoldable pub delete_all : List Ptr → State L → State L
  unfolding delete_remote
  delete_all [] s = s
  delete_all (p ∷ ps) s = delete_all ps (delete_remote p s)

  -- `cmd_ls` once its browser has returned what to delete.
  unfoldable pub ls_delete : List Ptr → List Answer → State L → State L
  unfolding fetch_ptrs delete_all confirmed
  ls_delete to_delete answers s =
      let fetched = (fetch_ptrs s).1 in
      if confirmed answers then delete_all to_delete fetched else fetched

  -- Whether `cmd_clean` puts a pointer's file on its list.
  abbrev pub same_hash : Ptr → Option Ptr → Bool
  same_hash p none = false
  same_hash p (some remote) = str_eq remote.hash p.hash

  abbrev pub verified : List Ptr → Ptr → Option (File L) → Bool
  verified remote_ptrs p none = false
  verified remote_ptrs p (some f) =
      close_times f.mtime p.mtime && same_hash p (by_filename p.filename remote_ptrs)

  -- Only the pointers at the top of `.ptrs/` are listed.
  unfoldable pub clean_list : List Ptr → Dict Ptr → State L → List LocalPath
  unfolding by_filename has_slash
  clean_list remote_ptrs [] s = []
  clean_list remote_ptrs ((path, p) ∷ ptrs) s =
      let rest = clean_list remote_ptrs ptrs s in
      if not (has_slash path) && verified remote_ptrs p (s.files (in_project p.original_path))
      then in_project p.original_path ∷ rest
      else rest

  unfoldable pub cmd_clean : List Answer → State L → State L
  unfolding fetch_ptrs clean_list remove_files answered_yes
  cmd_clean answers s =
      let fetched = fetch_ptrs s in
      if answered_yes answers
      then remove_files L (clean_list fetched.0 s.ptrs s) fetched.1
      else fetched.1
