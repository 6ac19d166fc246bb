-- ===== src/RemoteStorage.antt =====
-- execute/remote_storage.py: files that may only be on the server, and pushes to it.
pub mod Laws
mod Tests
use graph_extraction.Base.{
  ℕ, ◌≡◌, String, Bool, true, false, Option, none, some, List, [], ◌∷◌, ◌==◌, if◌then◌else◌,
}
use graph_extraction.Base.Dict.{lookup, insert}
use graph_extraction.Upload.State.{
  Library, LocalPath, in_project, ptr_name, Ptr, Raw, pointer, corrupt, blank, macos_metadata,
  Answer, File, State, remote_index_path,
}
use graph_extraction.Upload.Push.{single, PushEnd, cmd_push}
use graph_extraction.Upload.Pull.{Transfer, Outcome, already_present, pulled, raised, pull_file}

pub data Error : Type 0 where
  file_not_found json_decode_error pull_failed : Error

module _ (L : Library) where
  pub data Result : Type 0 where
    located : LocalPath → State L → Result
    failed : Error → State L → Result

  -- `_matches_known_size`
  abbrev pub matches_size : Option Ptr → File L → Bool
  matches_size none f = true
  matches_size (some p) f = L.size f.content == p.size

  unfoldable pub matches_known_size : String → File L → State L → Bool
  matches_known_size virtual_path f s = matches_size (lookup (ptr_name virtual_path) s.ptrs) f

  -- `os.path.exists(path) and _matches_known_size(path, virtual_path)`
  abbrev pub is_usable : String → Option (File L) → State L → Bool
  is_usable virtual_path none s = false
  is_usable virtual_path (some f) s = matches_known_size virtual_path f s

  unfoldable pub remote_exists : String → State L → Bool
  remote_exists virtual_path s = elim (lookup (remote_index_path virtual_path) s.index) [
    | none ↦ false
    | some r ↦ true
  ]

  abbrev pub local_path : String → Option String → LocalPath
  local_path virtual_path none = in_project virtual_path
  local_path virtual_path (some dest_dir) = record { dir = dest_dir; rel = virtual_path }

  module _ (now mtime : ℕ) (transfer : Transfer L) where
    abbrev pub end_pull : LocalPath → Outcome L → Result
    end_pull path (already_present s) = located path s
    end_pull path (pulled s) = located path s
    end_pull path (raised s) = failed pull_failed s

    abbrev pub pull_to : String → Option String → Ptr → State L → Result
    pull_to virtual_path dest_dir p s =
        end_pull (local_path virtual_path dest_dir) (pull_file L now mtime transfer p dest_dir s)

    abbrev pub pull_indexed : String → Option String → Option Raw → State L → Result
    pull_indexed virtual_path dest_dir (some (pointer p)) s =
        pull_to virtual_path dest_dir p
          (record s { ptrs = insert (ptr_name virtual_path) p s.ptrs })
    pull_indexed virtual_path dest_dir (some corrupt) s = failed json_decode_error s
    pull_indexed virtual_path dest_dir (some blank) s = failed json_decode_error s
    pull_indexed virtual_path dest_dir (some macos_metadata) s = failed json_decode_error s
    pull_indexed virtual_path dest_dir none s = failed file_not_found s

    abbrev pub fetch : String → Option String → Option Ptr → State L → Result
    fetch virtual_path dest_dir (some p) s = pull_to virtual_path dest_dir p s
    fetch virtual_path dest_dir none s =
        pull_indexed virtual_path dest_dir (lookup (remote_index_path virtual_path) s.index) s

    -- The copy in the project, which is looked for only with a `dest_dir`.
    abbrev pub nfs_copy : String → Option String → State L → Option (File L)
    nfs_copy virtual_path none s = none
    nfs_copy virtual_path (some dest_dir) s = s.files (in_project virtual_path)

    unfoldable pub ensure_local : String → Option String → State L → Result
    unfolding matches_known_size
    ensure_local virtual_path dest_dir s =
        let path = local_path virtual_path dest_dir in
        if is_usable virtual_path (s.files path) s
        then located path s
        else if is_usable virtual_path (nfs_copy virtual_path dest_dir s) s
        then located (in_project virtual_path) s
        else fetch virtual_path dest_dir (lookup (ptr_name virtual_path) s.ptrs) s

  unfoldable pub push :
      ℕ
      → LocalPath
      → Bool
      → Option String
      → Bool
      → List Answer
      → Bool
      → List Answer
      → State L
      → PushEnd L
  push now path auto_delete virtual_path force answers isatty last_answers s =
      cmd_push L now (single path virtual_path) force (λ q. answers) auto_delete isatty last_answers
        s

  -- `_push_worker`, which `AsyncPusher.submit` hands to a process without a terminal.
  unfoldable pub push_worker : ℕ → LocalPath → Bool → Option String → Bool → State L → PushEnd L
  unfolding push
  push_worker now path auto_delete virtual_path force s =
      push now path auto_delete virtual_path force [] false [] s
