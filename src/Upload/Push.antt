-- ===== src/Upload/Push.antt =====
-- `_push_file` and `cmd_push`. What a push writes is a list of effects, in
-- the order of the source, so that a push that breaks off has done some first of them.
pub mod Effects
pub mod Outcomes
pub mod Pointers
pub mod Commands
use Prim.Native.Char.{code}
use Prim.Native.String
use graph_extraction.Base.{
  ℕ, ◌≡◌, String, Bool, true, false, ◌&&◌, ◌||◌, not, Option, none, some, List, [], ◌∷◌, ◌++◌, map,
  ◌==◌, leb, str_eq, if◌then◌else◌,
}
use graph_extraction.Base.Dict.{Dict, lookup, insert, values}
use graph_extraction.Upload.State.{
  Library, LocalPath, in_project, basename, ends_with, Ptr, Raw, pointer, corrupt, blank,
  macos_metadata, Answer, line, eof, File, State, remove_files, ptr_path_for, original_path,
  remote_index_path,
}

is_space : ℕ → Bool
is_space c = c == 32 || (leb 9 c && leb c 13)

all_space : String → Bool
unfolding is_space
all_space String.[] = true
all_space (String.◌∷◌ c s) = is_space (code c) && all_space s

-- `answer.strip().lower() == "y"`
unfoldable pub is_yes : String → Bool
unfolding all_space
is_yes String.[] = false
is_yes (String.◌∷◌ c s) =
    let rest = is_yes s in
    if is_space (code c) then rest else (code c == b'y' || code c == b'Y') && all_space s

-- What the two questions about a conflict come to.
pub data Decision : Type 0 where
  overwrite skip defer : Decision

abbrev pub second_answer : List Answer → Decision
second_answer [] = defer
second_answer (eof ∷ rest) = defer
second_answer (line a ∷ rest) = if is_yes a then overwrite else skip

unfoldable pub decide_conflict : List Answer → Decision
decide_conflict [] = defer
decide_conflict (eof ∷ rest) = defer
decide_conflict (line a ∷ rest) = if is_yes a then second_answer rest else skip

-- One question, answered with yes.
unfoldable pub answered_yes : List Answer → Bool
answered_yes [] = false
answered_yes (eof ∷ rest) = false
answered_yes (line a ∷ rest) = is_yes a

-- Two questions, each of which has to be answered with yes; an `EOFError` ends the program.
unfoldable pub confirmed : List Answer → Bool
unfolding decide_conflict
confirmed answers = elim (decide_conflict answers) [
  | overwrite ↦ true
  | skip ↦ false
  | defer ↦ false
]

module _ (L : Library) where
  pub data Effect : Type 0 where
    -- `sftp_put` and `sftp_write_atomic`, which rename a finished temporary file; `write_ptr`.
    put_blob : String → L.Content → Effect
    write_ptr : String → Ptr → Effect
    write_index : String → Ptr → Effect

  unfoldable pub apply : Effect → State L → State L
  apply (put_blob digest c) s = record s { cache = insert digest c s.cache }
  apply (write_ptr path p) s = record s { ptrs = insert path p s.ptrs }
  apply (write_index path p) s = record s { index = insert path (pointer p) s.index }

  unfoldable pub run : List (Effect) → State L → State L
  unfolding apply
  run [] s = s
  run (e ∷ es) s = run es (apply e s)

  -- The effects of a push, and whether it counts as uploaded.
  pub record Plan : Type 0 where
    pub effects : List Effect
    pub uploaded : Bool

  -- `load_ptr`: the pointer, if the file has not been touched since.
  abbrev if_unchanged : File L → Option Ptr → Option Ptr
  if_unchanged f none = none
  if_unchanged f (some p) = if p.mtime == f.mtime then some p else none

  unfoldable pub load_ptr : LocalPath → Option String → File L → State L → Option Ptr
  load_ptr path virtual_path f s = if_unchanged f (lookup (ptr_path_for path virtual_path) s.ptrs)

  abbrev hash_or : File L → Option Ptr → String
  hash_or f none = L.hash f.content
  hash_or f (some p) = p.hash

  unfoldable pub digest_of : LocalPath → Option String → File L → State L → String
  unfolding load_ptr
  digest_of path virtual_path f s = hash_or f (load_ptr path virtual_path f s)

  -- What `write_ptr` writes.
  abbrev pub new_ptr : ℕ → LocalPath → Option String → String → ℕ → File L → Ptr
  new_ptr now path virtual_path digest size f = record {
    filename = basename path.rel;
    hash = digest;
    size = size;
    mtime = f.mtime;
    uploaded_at = some now;
    original_path = original_path path virtual_path;
    override = false;
    h5_meta = if ends_with path.rel ".h5" then L.h5_meta f.content else none;
  }

  -- What `_mark_override` writes.
  abbrev pub override_ptr : LocalPath → Option String → String → File L → Ptr
  override_ptr path virtual_path digest f = record {
    filename = basename path.rel;
    hash = digest;
    size = L.size f.content;
    mtime = f.mtime;
    uploaded_at = none;
    original_path = original_path path virtual_path;
    override = true;
    h5_meta = none;
  }

  module _ (now : ℕ) (path : LocalPath) (virtual_path : Option String) (f : File L) where
    abbrev pub put_if_absent : String → Option L.Content → List Effect
    put_if_absent digest none = put_blob digest f.content ∷ []
    put_if_absent digest (some c) = []

    -- The blob, then the local pointer, then the remote index.
    unfoldable pub upload_plan : String → State L → Plan
    upload_plan digest s =
        let p = new_ptr now path virtual_path digest (L.size f.content) f in
        record {
          effects =
              put_if_absent digest (lookup digest s.cache)
              ++ (write_ptr (ptr_path_for path virtual_path) p
                  ∷ write_index (remote_index_path (original_path path virtual_path)) p
                  ∷ []);
          uploaded = true;
        }

    abbrev pub settle : Decision → String → State L → Plan
    settle overwrite digest s = upload_plan digest s
    settle skip digest s = record { effects = []; uploaded = false }
    settle defer digest s = record {
      effects =
          write_ptr (ptr_path_for path virtual_path) (override_ptr path virtual_path digest f) ∷ [];
      uploaded = false;
    }

    abbrev pub against : Option Raw → List Answer → String → State L → Plan
    against (some (pointer existing)) answers digest s =
        if str_eq existing.hash digest
        then record {
          effects =
              write_ptr (ptr_path_for path virtual_path)
                (new_ptr now path virtual_path digest (L.size f.content) f)
              ∷ [];
          uploaded = true;
        }
        else settle (decide_conflict answers) digest s
    against (some corrupt) answers digest s = upload_plan digest s
    against (some blank) answers digest s = upload_plan digest s
    against (some macos_metadata) answers digest s = upload_plan digest s
    against none answers digest s = upload_plan digest s

    unfoldable pub push_plan : Bool → List Answer → State L → Plan
    unfolding upload_plan digest_of decide_conflict
    push_plan force answers s =
        let digest = digest_of path virtual_path f s in
        if force
        then upload_plan digest s
        else against (lookup (remote_index_path (original_path path virtual_path)) s.index) answers
            digest s

  -- `_push_file`: `none` where the file is missing.
  unfoldable pub push_file :
      ℕ → LocalPath → Option String → Bool → List Answer → State L → Option (Bool × State L)
  unfolding push_plan run
  push_file now path virtual_path force answers s = elim (s.files path) [
    | none ↦ none
    | some f ↦
        let plan = push_plan now path virtual_path f force answers s in
        some (plan.uploaded, run plan.effects s)
  ]

  -- What the pushes of `cmd_push` come to. The pool runs every one, also after one has raised.
  pub record Pushed : Type 0 where
    pub uploaded : List LocalPath
    pub skipped : List LocalPath
    pub raised : Bool
    pub state : State L

  abbrev pub state_after : Option (Bool × State L) → State L → State L
  state_after none s = s
  state_after (some (ok, s')) s = s'

  abbrev pub note_outcome : LocalPath → Option (Bool × State L) → Pushed → Pushed
  note_outcome path none rest = record rest { raised = true }
  note_outcome path (some (true, s')) rest = record rest { uploaded = path ∷ rest.uploaded }
  note_outcome path (some (false, s')) rest = record rest { skipped = path ∷ rest.skipped }

  module _ (now : ℕ) (virtual_path : Option String) (force : Bool)
      (answers : LocalPath → List Answer) where
    unfoldable pub push_files : List LocalPath → State L → Pushed
    unfolding push_file
    push_files [] s = record { uploaded = []; skipped = []; raised = false; state = s }
    push_files (path ∷ paths) s =
        let outcome = push_file now path virtual_path force (answers path) s in
        note_outcome path outcome (push_files paths (state_after outcome s))

  -- Whether the uploaded files are deleted: `auto_delete`, or the answer on a terminal.
  abbrev pub deletion_agreed : Bool → Bool → List Answer → Bool
  deletion_agreed auto_delete isatty answers =
      if auto_delete then true else if isatty then answered_yes answers else false

  abbrev pub delete_uploaded : Bool → Pushed → State L
  delete_uploaded agreed r =
      if r.raised then r.state else if agreed then remove_files L r.uploaded r.state else r.state

-- What `os.walk` gives for a directory, or a single file.
pub data Target : Type 0 where
  directory : List LocalPath → Target
  single : LocalPath → Option String → Target

-- `f.startswith(".")`
abbrev is_hidden : String → Bool
is_hidden String.[] = false
is_hidden (String.◌∷◌ c s) = code c == b'.'

unfoldable pub visible : List LocalPath → List LocalPath
visible [] = []
visible (p ∷ ps) = let rest = visible ps in if is_hidden (basename p.rel) then rest else p ∷ rest

unfoldable pub files_of : Target → List LocalPath
unfolding visible
files_of (directory walked) = visible walked
files_of (single path virtual_path) = path ∷ []

abbrev pub virtual_of : Target → Option String
virtual_of (directory walked) = none
virtual_of (single path virtual_path) = virtual_path

module _ (L : Library) where
  -- How `cmd_push` ends: it returns, or `fut.result()` raises what a push has raised, or it leaves
  -- the program before it begins.
  pub data PushEnd : Type 0 where
    returned raised exited : State L → PushEnd

  -- The state that it leaves.
  abbrev pub left_by : PushEnd → State L
  left_by (returned s) = s
  left_by (raised s) = s
  left_by (exited s) = s

  abbrev is_there : Option (File L) → Bool
  is_there none = false
  is_there (some f) = true

  -- The path exists, and a directory has a file to push.
  unfoldable pub can_start : Target → State L → Bool
  unfolding visible
  can_start (directory walked) s = elim (visible walked) [ [] ↦ false | p ∷ ps ↦ true ]
  can_start (single path virtual_path) s = is_there (s.files path)

  abbrev pub end_push : Bool → Pushed L → PushEnd
  end_push agreed r =
      if r.raised
      then raised (delete_uploaded L agreed r)
      else returned (delete_uploaded L agreed r)

  unfoldable pub cmd_push :
      ℕ → Target → Bool → (LocalPath → List Answer) → Bool → Bool → List Answer → State L → PushEnd
  unfolding push_files files_of answered_yes can_start
  cmd_push now target force answers auto_delete isatty last_answers s =
      if can_start target s
      then end_push (deletion_agreed L auto_delete isatty last_answers)
          (push_files L now (virtual_of target) force answers (files_of target) s)
      else exited s
