-- ===== src/Browser/App.antt =====
-- The keys of `BrowserApp` and what they do to its fields.
use graph_extraction.Base.{
  String, Bool, true, false, ◌&&◌, not, Option, none, some, List, [], ◌∷◌, ◌++◌, map, str_eq,
  if◌then◌else◌,
}
use graph_extraction.Base.Texts.{mem}
use graph_extraction.Upload.State.{Ptr}
use graph_extraction.Browser.{Dir, Tree, files_under, all_files}

-- An `Entry` of the list.
pub data Item : Type 0 where
  file : Ptr → Item
  dir parent : Dir → Item

-- A key, with the entry that is highlighted or chosen, if one is.
pub data Event : Type 0 where
  select toggle_pull toggle_delete : Option Item → Event
  confirm_pull confirm_delete quit_app : Event

pub record App : Type 0 where
  pub tree : Tree
  pub cwd : Dir
  pub pull_sel : List String
  pub del_sel : List String
  pub chosen_pull : List Ptr
  pub chosen_delete : List Ptr
  pub exited : Bool

-- `s.add(key)`, `s.discard(key)`, `s |= keys` and `s -= keys`
abbrev pub add : String → List String → List String
add key s = key ∷ s

unfoldable pub discard : String → List String → List String
discard key [] = []
discard key (x ∷ s) = let rest = discard key s in if str_eq key x then rest else x ∷ rest

abbrev pub union : List String → List String → List String
union keys s = keys ++ s

unfoldable pub minus : List String → List String → List String
unfolding mem
minus keys [] = []
minus keys (x ∷ s) = let rest = minus keys s in if mem x keys then rest else x ∷ rest

abbrev pub all_true : {A : Type 0} → (A → Bool) → List A → Bool
all_true f [] = true
all_true f (x ∷ xs) = f x && all_true f xs

abbrev pub is_empty : {A : Type 0} → List A → Bool
is_empty [] = true
is_empty (x ∷ xs) = false

-- `keys and keys.issubset(selected)`
unfoldable pub covered : List String → List String → Bool
unfolding mem
covered keys selected = not (is_empty keys) && all_true (λ k. mem k selected) keys

abbrev pub keys_of : List Ptr → List String
keys_of ps = map (λ (p : Ptr). p.original_path) ps

unfoldable pub do_toggle_pull : Ptr → App → App
unfolding mem discard
do_toggle_pull p app =
    if mem p.original_path app.pull_sel
    then record app { pull_sel = discard p.original_path app.pull_sel }
    else record app {
      pull_sel = add p.original_path app.pull_sel;
      del_sel = discard p.original_path app.del_sel;
    }

unfoldable pub do_toggle_delete : Ptr → App → App
unfolding mem discard
do_toggle_delete p app =
    if mem p.original_path app.del_sel
    then record app { del_sel = discard p.original_path app.del_sel }
    else record app {
      del_sel = add p.original_path app.del_sel;
      pull_sel = discard p.original_path app.pull_sel;
    }

unfoldable pub do_toggle_pull_dir : Dir → App → App
unfolding covered minus files_under
do_toggle_pull_dir d app =
    let keys = keys_of (files_under d app.tree) in
    if covered keys app.pull_sel
    then record app { pull_sel = minus keys app.pull_sel }
    else record app { pull_sel = union keys app.pull_sel; del_sel = minus keys app.del_sel }

unfoldable pub do_toggle_delete_dir : Dir → App → App
unfolding covered minus files_under
do_toggle_delete_dir d app =
    let keys = keys_of (files_under d app.tree) in
    if covered keys app.del_sel
    then record app { del_sel = minus keys app.del_sel }
    else record app { del_sel = union keys app.del_sel; pull_sel = minus keys app.pull_sel }

-- `[p for p in self._all_files() if p["original_path"] in selected]`
unfoldable pub selected_files : (String → Bool) → List Ptr → List Ptr
selected_files selected [] = []
selected_files selected (p ∷ ps) =
    let rest = selected_files selected ps in if selected p.original_path then p ∷ rest else rest

unfoldable pub action_confirm_pull : App → App
unfolding all_files mem selected_files
action_confirm_pull app = if is_empty app.pull_sel then app else record app {
  chosen_pull = selected_files (λ k. mem k app.pull_sel) (all_files app.tree);
  exited = true;
}

unfoldable pub action_confirm_delete : App → App
unfolding all_files mem selected_files
action_confirm_delete app = if is_empty app.del_sel then app else record app {
  chosen_delete = selected_files (λ k. mem k app.del_sel) (all_files app.tree);
  exited = true;
}

unfoldable pub press : Event → App → App
unfolding do_toggle_pull do_toggle_delete do_toggle_pull_dir do_toggle_delete_dir
    action_confirm_pull action_confirm_delete
press (select (some (file p))) app = do_toggle_pull p app
press (select (some (dir d))) app = record app { cwd = d }
press (select (some (parent d))) app = record app { cwd = d }
press (select none) app = app
press (toggle_pull (some (file p))) app = do_toggle_pull p app
press (toggle_pull (some (dir d))) app = do_toggle_pull_dir d app
press (toggle_pull (some (parent d))) app = app
press (toggle_pull none) app = app
press (toggle_delete (some (file p))) app = do_toggle_delete p app
press (toggle_delete (some (dir d))) app = do_toggle_delete_dir d app
press (toggle_delete (some (parent d))) app = app
press (toggle_delete none) app = app
press confirm_pull app = action_confirm_pull app
press confirm_delete app = action_confirm_delete app
press quit_app app = record app { exited = true }

-- `app.run()`: events until one of them exits.
unfoldable pub run : List Event → App → App
unfolding press
run [] app = app
run (e ∷ events) app = let rest = run events (press e app) in if app.exited then app else rest

abbrev pub start : Tree → App
start tree = record {
  tree = tree;
  cwd = [];
  pull_sel = [];
  del_sel = [];
  chosen_pull = [];
  chosen_delete = [];
  exited = false;
}

-- `browse`, for the keys that the user presses.
unfoldable pub browse : List Event → Tree → List Ptr × List Ptr
unfolding run
browse events tree = let app = run events (start tree) in (app.chosen_pull, app.chosen_delete)
