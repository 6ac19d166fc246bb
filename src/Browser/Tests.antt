-- ===== src/Browser/Tests.antt =====
-- A session over three files in two directories.
use graph_extraction.Base.{◌≡◌, refl, String, none, some, List, [], ◌∷◌, false}
use graph_extraction.Base.Texts.{mem}
use graph_extraction.Upload.State.{Ptr}
use graph_extraction.Browser.{
  build_tree, add_ptrs, add_parts, parts_of, change_node, same_dir, dir_mem, node_at, files_under,
  files_below, files_of_all, depth, all_files,
}
use graph_extraction.Browser.App.{
  file, dir, Event, toggle_pull, toggle_delete, confirm_pull, press, run, browse, discard, minus,
  covered, selected_files, do_toggle_pull, do_toggle_delete, do_toggle_pull_dir,
  do_toggle_delete_dir, action_confirm_pull, action_confirm_delete,
}
use graph_extraction.Browser.Marks.{unmarked, named_by, outcome}
use graph_extraction.Browser.Session.{browse-marks}

abbrev ptr : String → String → Ptr
ptr filename path = record {
  filename = filename;
  hash = path;
  size = 1;
  mtime = 0;
  uploaded_at = none;
  original_path = path;
  override = false;
  h5_meta = none;
}

abbrev ptrs : List Ptr
ptrs = ptr "a" "m/a" ∷ ptr "b" "m/deep/b" ∷ ptr "c" "c" ∷ []

-- The directory m is marked to pull, and then a file of it to delete.
abbrev keys : List Event
keys =
    toggle_pull (some (dir ("m" ∷ [])))
    ∷ toggle_delete (some (file (ptr "a" "m/a")))
    ∷ confirm_pull
    ∷ toggle_pull (some (file (ptr "c" "c")))
    ∷ []

only_b : browse keys (build_tree ptrs) ≡ (ptr "b" "m/deep/b" ∷ [], [])
unfolding mem build_tree add_ptrs add_parts parts_of change_node same_dir dir_mem node_at
    files_under files_below files_of_all depth all_files press run browse discard minus covered
    selected_files do_toggle_pull do_toggle_delete do_toggle_pull_dir do_toggle_delete_dir
    action_confirm_pull action_confirm_delete
only_b = refl

browse-marks_example :
    browse keys (build_tree ptrs)
    ≡ outcome (build_tree ptrs) (named_by (build_tree ptrs) keys) keys (λ k. unmarked)
browse-marks_example = browse-marks keys (build_tree ptrs)
