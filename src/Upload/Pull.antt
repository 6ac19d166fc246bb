-- ===== src/Upload/Pull.antt =====
-- `_pull_file` and `cmd_pull`.
pub mod Laws
use graph_extraction.Base.{
  ℕ, ◌+◌, ◌≡◌, String, Bool, true, false, ◌&&◌, Option, none, some, List, [], ◌∷◌, str_eq,
  if◌then◌else◌,
}
use graph_extraction.Base.Dict.{Dict, lookup, insert}
use graph_extraction.Upload.State.{
  Library, LocalPath, in_project, ptr_name, Ptr, File, State, set_file, ptr_path_for,
}
use graph_extraction.Upload.Push.{new_ptr}
use graph_extraction.Upload.Maintain.{fetch_ptrs}

module _ (L : Library) where
  -- What `sftp.get` does when there is a blob: it copies it, or it breaks off and leaves a part.
  pub data Transfer : Type 0 where
    whole : Transfer
    broken : L.Content → Transfer

  pub data Outcome : Type 0 where
    already_present pulled raised : State L → Outcome

  abbrev pub destination : Option String → Ptr → LocalPath
  destination (some dest_dir) p = record { dir = dest_dir; rel = p.original_path }
  destination none p = in_project p.original_path

  -- `now` is the time that the pointer records, `mtime` the one that the file gets.
  module _ (now mtime : ℕ) (transfer : Transfer) where
    abbrev pub download : Transfer → LocalPath → Ptr → Option L.Content → State L → Outcome
    download t dest p none s = raised s
    download whole dest p (some c) s =
        let f : File L = record { content = c; mtime = mtime } in
        pulled (record s {
          files = set_file L dest (some f) s.files;
          ptrs =
              insert (ptr_path_for dest (some p.original_path))
                (new_ptr L now dest (some p.original_path) p.hash p.size f) s.ptrs;
        })
    download (broken part) dest p (some c) s = raised (record s {
      files = set_file L dest (some (record { content = part; mtime = mtime })) s.files;
    })

    -- `os.path.exists(dest)` and `hash_file(dest) == digest`
    abbrev pub holds : String → Option (File L) → Bool
    holds digest none = false
    holds digest (some f) = str_eq (L.hash f.content) digest

    unfoldable pub pull_file : Ptr → Option String → State L → Outcome
    pull_file p dest_dir s =
        let dest = destination dest_dir p in
        if holds p.hash (s.files dest)
        then already_present s
        else download transfer dest p (lookup p.hash s.cache) s

    -- `cmd_pull` with a name: `none` where there is no such pointer.
    abbrev pub pull_found : Option Ptr → State L → Option Outcome
    pull_found none s = none
    pull_found (some p) s = some (pull_file p none s)

    unfoldable pub pull_name : String → State L → Option Outcome
    unfolding pull_file
    pull_name name s = pull_found (lookup (ptr_name name) s.ptrs) s

  -- `cmd_pull` without a name: the pointers of the remote index, and how many of them were new.
  unfoldable pub sync_ptrs : List Ptr → Dict Ptr → Dict Ptr
  sync_ptrs [] ptrs = ptrs
  sync_ptrs (p ∷ ps) ptrs =
      sync_ptrs ps (insert (ptr_path_for (in_project p.original_path) none) p ptrs)

  unfoldable pub pull_all : (String → Bool) → State L → State L
  unfolding sync_ptrs fetch_ptrs
  pull_all removable s =
      let fetched = fetch_ptrs L removable s in
      record fetched.1 { ptrs = sync_ptrs fetched.0 s.ptrs }
