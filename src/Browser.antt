-- ===== src/Browser.antt =====
-- browser.py, the selection of files in `upload.py ls`, and `_build_tree` of upload.py. Directories
-- are the lists of their names, which the source joins with slashes ("." for the root); a set of
-- directories is a list that is kept free of repetitions. Drawing is left out.
use Prim.Native.Char.{Char, code}
use Prim.Native.String
use graph_extraction.Base.{
  ℕ, zero, suc, String, Bool, true, false, ◌&&◌, ◌||◌, not, Option, none, some, List, [], ◌∷◌, ◌++◌,
  map, length, ◌==◌, str_eq, ltb, if◌then◌else◌,
}
use graph_extraction.Base.Texts.{mem}
use graph_extraction.Upload.State.{Ptr}
pub mod App
mod Sets
mod Marks
mod Toggles
mod Pressing
mod Session
mod Depth
mod Tests

abbrev pub Dir : Type 0
Dir = List String

pub record Node : Type 0 where
  pub subdirs : List Dir
  pub files : List Ptr

abbrev pub Tree : Type 0
Tree = List (Dir × Node)

abbrev pub empty_node : Node
empty_node = record { subdirs = []; files = [] }

unfoldable pub same_dir : Dir → Dir → Bool
same_dir [] [] = true
same_dir [] (y ∷ ys) = false
same_dir (x ∷ xs) [] = false
same_dir (x ∷ xs) (y ∷ ys) = str_eq x y && same_dir xs ys

unfoldable pub dir_mem : Dir → List Dir → Bool
unfolding same_dir
dir_mem d [] = false
dir_mem d (x ∷ xs) = same_dir x d || dir_mem d xs

-- `tree.get(dir_path, {"subdirs": set(), "files": []})`
unfoldable pub node_at : Dir → Tree → Node
unfolding same_dir
node_at d [] = empty_node
node_at d ((e, node) ∷ tree) = if same_dir e d then node else node_at d tree

-- A change of a directory's node, which is made when it is not there.
unfoldable pub change_node : Dir → (Node → Node) → Tree → Tree
unfolding same_dir
change_node d f [] = (d, f empty_node) ∷ []
change_node d f ((e, node) ∷ tree) =
    let rest = change_node d f tree in if same_dir e d then (e, f node) ∷ tree else (e, node) ∷ rest

abbrev pub add_subdir : Dir → Node → Node
add_subdir child node = record node {
  subdirs = if dir_mem child node.subdirs then node.subdirs else node.subdirs ++ child ∷ [];
}

abbrev pub add_file : Ptr → Node → Node
add_file p node = record node { files = node.files ++ p ∷ [] }

abbrev pub extend_head : Char → List String → List String
extend_head c [] = String.◌∷◌ c "" ∷ []
extend_head c (part ∷ parts) = String.◌∷◌ c part ∷ parts

-- `p["original_path"].replace("\\", "/").split("/")`
unfoldable pub parts_of : String → List String
parts_of String.[] = "" ∷ []
parts_of (String.◌∷◌ c s) =
    let rest = parts_of s in
    if (code c == b'/') || (code c == b'\\') then "" ∷ rest else extend_head c rest

-- `for depth in range(len(parts))`, with `parts[:depth]` and the parts behind it.
unfoldable pub add_parts : Dir → List String → Ptr → Tree → Tree
unfolding change_node dir_mem
add_parts above [] p tree = tree
add_parts above (name ∷ []) p tree = change_node above (add_file p) tree
add_parts above (part ∷ next ∷ parts) p tree =
    let child = above ++ part ∷ [] in
    add_parts child (next ∷ parts) p (change_node above (add_subdir child) tree)

abbrev pub no_change : Node → Node
no_change node = node

unfoldable pub add_ptrs : List Ptr → Tree → Tree
unfolding add_parts parts_of
add_ptrs [] tree = tree
add_ptrs (p ∷ ps) tree = add_ptrs ps (add_parts [] (parts_of p.original_path) p tree)

unfoldable pub build_tree : List Ptr → Tree
unfolding add_ptrs change_node
build_tree ptrs = change_node [] no_change (add_ptrs ptrs [])

-- The files of the directories, each by the function.
unfoldable pub files_of_all : (Dir → List Ptr) → List Dir → List Ptr
files_of_all f [] = []
files_of_all f (d ∷ ds) = f d ++ files_of_all f ds

unfoldable pub files_below : ℕ → Dir → Tree → List Ptr
unfolding files_of_all node_at
files_below zero d tree = []
files_below (suc fuel) d tree =
    (node_at d tree).files ++ files_of_all (λ e. files_below fuel e tree) (node_at d tree).subdirs

-- The length of the longest path of a directory.
unfoldable pub depth : Tree → ℕ
depth [] = 0
depth ((d, node) ∷ tree) = let rest = depth tree in if ltb rest (length d) then length d else rest

-- `_files_under`: a subdirectory's path is longer, so the recursion goes no deeper than the tree.
unfoldable pub files_under : Dir → Tree → List Ptr
unfolding files_below depth
files_under d tree = files_below (suc (depth tree)) d tree

-- `_all_files`
unfoldable pub all_files : Tree → List Ptr
all_files [] = []
all_files ((d, node) ∷ tree) = node.files ++ all_files tree
