-- ===== src/Upload/State.antt =====
-- The files, pointers and remote objects that upload.py works on.
use Prim.Native.Char.{code}
use Prim.Native.String.{◌++◌ as ◌<>◌}
use graph_extraction.Base.{
  ℕ, ◌≡◌, refl, String, Bool, true, false, ◌&&◌, ◌||◌, Option, none, some, List, [], ◌∷◌, ◌==◌,
  str_eq, eq_iff, arith, if◌then◌else◌,
}
use graph_extraction.Base.Dict.{Dict}
unfoldable pub use graph_extraction.Base.Texts.{ends_with}

-- What upload.py uses of xxhash, of `os.path.getsize` and of h5py on the content of a file.
pub record Library : Type 1 where
  pub Content : Type 0
  pub hash : Content → String
  pub size : Content → ℕ
  pub h5_meta : Content → Option (Dict String)

-- A file's directory, relative to the project's root ("" for the root itself), and its path there.
pub record LocalPath : Type 0 where
  pub dir : String
  pub rel : String

abbrev pub same_local : LocalPath → LocalPath → Bool
same_local p q = str_eq p.dir q.dir && str_eq p.rel q.rel

-- `os.path.relpath(local_path, PROJECT_ROOT)`
abbrev pub relpath : LocalPath → String
relpath p = if str_eq p.dir "" then p.rel else p.dir <> ("/" <> p.rel)

abbrev pub in_project : String → LocalPath
in_project rel = record { dir = ""; rel = rel }

unfoldable pub has_slash : String → Bool
has_slash String.[] = false
has_slash (String.◌∷◌ c s) = (code c == b'/') || has_slash s

-- `os.path.basename`
unfoldable pub basename : String → String
unfolding has_slash
basename String.[] = ""
basename (String.◌∷◌ c s) =
    let rest = basename s in
    if has_slash s then rest else if code c == b'/' then s else String.◌∷◌ c s

unfoldable pub ptr_name : String → String
unfolding ends_with
ptr_name filename = if ends_with filename ".ptr" then filename else filename <> ".ptr"

-- A pointer file.
pub record Ptr : Type 0 where
  pub filename : String
  pub hash : String
  pub size : ℕ
  pub mtime : ℕ
  pub uploaded_at : Option ℕ
  pub original_path : String
  pub override : Bool
  pub h5_meta : Option (Dict String)

-- What stands at a path of the remote index: a pointer, or bytes that are none.
pub data Raw : Type 0 where
  pointer : Ptr → Raw
  corrupt blank macos_metadata : Raw

-- What `input` gives: a line, or an `EOFError`.
pub data Answer : Type 0 where
  line : String → Answer
  eof : Answer

module _ (L : Library) where
  -- Times are in nanoseconds.
  pub record File : Type 0 where
    pub content : L.Content
    pub mtime : ℕ

  pub record State : Type 0 where
    pub files : LocalPath → Option File
    -- `.ptrs/`, by the path of a pointer file below it.
    pub ptrs : Dict Ptr
    -- `<remote_path>/index/`, by the path below it.
    pub index : Dict Raw
    -- `<remote_path>/cache/`, by the digest that a path spells.
    pub cache : Dict L.Content

  abbrev pub set_file :
      LocalPath → Option File → (LocalPath → Option File) → LocalPath → Option File
  set_file p o files q = if same_local p q then o else files q

  -- `os.remove`, of one file after the other.
  unfoldable pub remove_files : List LocalPath → State → State
  remove_files [] s = s
  remove_files (p ∷ ps) s = remove_files ps (record s { files = set_file p none s.files })

-- `_ptr_path_for` below `.ptrs/`, and `remote_index_path` below the index.
abbrev pub ptr_path_for : LocalPath → Option String → String
ptr_path_for p (some virtual_path) = ptr_name virtual_path
ptr_path_for p none = ptr_name (relpath p)

abbrev pub original_path : LocalPath → Option String → String
original_path p (some virtual_path) = virtual_path
original_path p none = relpath p

abbrev pub remote_index_path : String → String
remote_index_path path = ptr_name path

unfoldable pub in_list : LocalPath → List LocalPath → Bool
in_list q [] = false
in_list q (p ∷ ps) = same_local p q || in_list q ps

pub same_local_eq : (p q : LocalPath) → same_local p q ≡ true → p ≡ q
same_local_eq p q h =
    let a : str_eq p.dir q.dir ≡ true = ground (arith, h) in
    let b : str_eq p.rel q.rel ≡ true = ground (arith, h) in
    let ea = (eq_iff p.dir q.dir).0 a in
    let eb = (eq_iff p.rel q.rel).0 b in λ i. record { dir = ea i; rel = eb i }

module _ (L : Library) where
  pub files-remove_files :
      (q : LocalPath) (ps : List LocalPath) (s : State L)
      → (remove_files L ps s).files q ≡ (if in_list q ps then none else s.files q)
  unfolding remove_files in_list
  files-remove_files q [] s = refl
  files-remove_files q (p ∷ ps) s =
      ground (arith, files-remove_files q ps (record s { files = set_file L p none s.files }))

  pub cache-remove_files :
      (ps : List LocalPath) (s : State L) → (remove_files L ps s).cache ≡ s.cache
  unfolding remove_files
  cache-remove_files [] s = refl
  cache-remove_files (p ∷ ps) s =
      cache-remove_files ps (record s { files = set_file L p none s.files })
