-- ===== src/Browser/Toggles.antt =====
-- The toggles of the browser, on its two sets and on the marks.
use graph_extraction.Base.{
  ◌≡◌, refl, sym, ap, ◌∙◌, inl, inr, String, Bool, true, false, ◌&&◌, ◌||◌, not, List, ◌∷◌, ◌++◌,
  str_eq, eq_iff, Bool-cases, arith,
}
use graph_extraction.Base.Texts.{mem}
use graph_extraction.Upload.State.{Ptr}
use graph_extraction.Browser.{Dir, files_under}
use graph_extraction.Browser.App.{
  App, discard, minus, all_true, is_empty, covered, keys_of, do_toggle_pull, do_toggle_delete,
  do_toggle_pull_dir, do_toggle_delete_dir,
}
use graph_extraction.Browser.Sets.{mem-discard, mem-append, mem-minus}
use graph_extraction.Browser.Marks.{
  Mark, to_pull, to_delete, is_to_pull, is_to_delete, toggled, mark_file, mark_files, mark_in,
  IsDisjoint, is_to_pull-mark_of, is_to_delete-mark_of, all_true-cong, all_true-mem, Follows,
  pull_step, delete_step,
}

-- The browser after an event: its marks are the ones that are expected, and all else is as before.
pub record Stepped (app app' : App) (spec : String → Mark) : Type 0 where
  pub follows : Follows app.pull_sel app.del_sel app'.pull_sel app'.del_sel spec
  pub same_tree : app'.tree ≡ app.tree
  pub same_pull : app'.chosen_pull ≡ app.chosen_pull
  pub same_delete : app'.chosen_delete ≡ app.chosen_delete
  pub same_exited : app'.exited ≡ app.exited

pub mem-add : (j k : String) (s : List String) → mem k (j ∷ s) ≡ (str_eq j k || mem k s)
unfolding mem
mem-add j k s = refl

with_test :
    (ps ds : List String) (which : Mark) (x : String → Bool) (t t' : Bool) (qs rs : List String)
    → t ≡ t'
    → Follows ps ds qs rs (λ k. toggled which (x k) t (mark_in ps ds k))
    → Follows ps ds qs rs (λ k. toggled which (x k) t' (mark_in ps ds k))
with_test ps ds which x t t' qs rs e h = rw⁻¹ e h

pub do_toggle_pull-Stepped :
    (p : Ptr) (app : App)
    → IsDisjoint app.pull_sel app.del_sel
    → Stepped app
        (do_toggle_pull p app)
        (mark_file to_pull is_to_pull p (mark_in app.pull_sel app.del_sel))
unfolding do_toggle_pull
do_toggle_pull-Stepped p app d =
    let key = p.original_path in
    let test = sym (is_to_pull-mark_of (mem key app.pull_sel) (mem key app.del_sel)) in
    elim (Bool-cases (mem key app.pull_sel)) [
      | inl t ↦ rw t (record {
        follows = with_test _ _ to_pull (str_eq key) true _ _ _ (sym t ∙ test) (
            pull_step app.pull_sel app.del_sel (discard key app.pull_sel) app.del_sel true
              (str_eq key) d (λ k. mem-discard key k app.pull_sel) (λ k. refl)
              (λ k u e. ap (λ j. mem j app.pull_sel) (sym ((eq_iff key k).0 e)) ∙ t));
        same_tree = refl;
        same_pull = refl;
        same_delete = refl;
        same_exited = refl;
      })
      | inr t ↦ rw t (record {
        follows = with_test _ _ to_pull (str_eq key) false _ _ _ (sym t ∙ test) (
            pull_step app.pull_sel app.del_sel (key ∷ app.pull_sel) (discard key app.del_sel) false
              (str_eq key) d (λ k. mem-add key k app.pull_sel) (λ k. mem-discard key k app.del_sel)
              (λ k u e. absurd (ground arith)));
        same_tree = refl;
        same_pull = refl;
        same_delete = refl;
        same_exited = refl;
      })
    ]

pub do_toggle_delete-Stepped :
    (p : Ptr) (app : App)
    → IsDisjoint app.pull_sel app.del_sel
    → Stepped app
        (do_toggle_delete p app)
        (mark_file to_delete is_to_delete p (mark_in app.pull_sel app.del_sel))
unfolding do_toggle_delete
do_toggle_delete-Stepped p app d =
    let key = p.original_path in
    let test = sym (is_to_delete-mark_of (mem key app.pull_sel) (mem key app.del_sel) (d key)) in
    elim (Bool-cases (mem key app.del_sel)) [
      | inl t ↦ rw t (record {
        follows = with_test _ _ to_delete (str_eq key) true _ _ _ (sym t ∙ test) (
            delete_step app.pull_sel app.del_sel app.pull_sel (discard key app.del_sel) true
              (str_eq key) d (λ k. refl) (λ k. mem-discard key k app.del_sel)
              (λ k u e. ap (λ j. mem j app.del_sel) (sym ((eq_iff key k).0 e)) ∙ t));
        same_tree = refl;
        same_pull = refl;
        same_delete = refl;
        same_exited = refl;
      })
      | inr t ↦ rw t (record {
        follows = with_test _ _ to_delete (str_eq key) false _ _ _ (sym t ∙ test) (
            delete_step app.pull_sel app.del_sel (discard key app.pull_sel) (key ∷ app.del_sel)
              false (str_eq key) d (λ k. mem-discard key k app.pull_sel)
              (λ k. mem-add key k app.del_sel) (λ k u e. absurd (ground arith)));
        same_tree = refl;
        same_pull = refl;
        same_delete = refl;
        same_exited = refl;
      })
    ]

-- The test whether all the files are selected, read off the marks.
covered_marks :
    (f g : String → Bool) (keys : List String)
    → ((k : String) → f k ≡ g k)
    → (not (is_empty keys) && all_true f keys) ≡ (not (is_empty keys) && all_true g keys)
covered_marks f g keys h = rw (all_true-cong f g keys h) refl

covered-mem :
    (keys s : List String) (k : String) → covered keys s ≡ true → mem k keys ≡ true → mem k s ≡ true
unfolding covered
covered-mem keys s k c m =
    all_true-mem (λ j. mem j s) keys k
      (and_right (not (is_empty keys)) (all_true (λ j. mem j s) keys) c) m
  where
    and_right : (a b : Bool) → (a && b) ≡ true → b ≡ true
    and_right a b q = ground (arith, q)

pub do_toggle_pull_dir-Stepped :
    (e : Dir) (app : App)
    → IsDisjoint app.pull_sel app.del_sel
    → Stepped app (do_toggle_pull_dir e app) (
        mark_files to_pull is_to_pull
          (keys_of (files_under e app.tree))
          (mark_in app.pull_sel app.del_sel))
unfolding do_toggle_pull_dir covered
do_toggle_pull_dir-Stepped e app d =
    let keys = keys_of (files_under e app.tree) in
    let test =
      covered_marks (λ j. mem j app.pull_sel) (λ j. is_to_pull (mark_in app.pull_sel app.del_sel j))
        keys (λ k. sym (is_to_pull-mark_of (mem k app.pull_sel) (mem k app.del_sel))) in
    elim (Bool-cases (covered keys app.pull_sel)) [
      | inl t ↦ rw t (record {
        follows =
            with_test _ _ to_pull (λ k. mem k keys) true _ _ _ (sym t ∙ test)
              (pull_step app.pull_sel app.del_sel (minus keys app.pull_sel) app.del_sel true
                (λ k. mem k keys) d (λ k. mem-minus k keys app.pull_sel) (λ k. refl)
                (λ k u x. covered-mem keys app.pull_sel k t x));
        same_tree = refl;
        same_pull = refl;
        same_delete = refl;
        same_exited = refl;
      })
      | inr t ↦ rw t (record {
        follows =
            with_test _ _ to_pull (λ k. mem k keys) false _ _ _ (sym t ∙ test)
              (pull_step app.pull_sel app.del_sel (keys ++ app.pull_sel) (minus keys app.del_sel)
                false (λ k. mem k keys) d (λ k. mem-append k keys app.pull_sel)
                (λ k. mem-minus k keys app.del_sel) (λ k u x. absurd (ground arith)));
        same_tree = refl;
        same_pull = refl;
        same_delete = refl;
        same_exited = refl;
      })
    ]

pub do_toggle_delete_dir-Stepped :
    (e : Dir) (app : App)
    → IsDisjoint app.pull_sel app.del_sel
    → Stepped app (do_toggle_delete_dir e app) (
        mark_files to_delete is_to_delete
          (keys_of (files_under e app.tree))
          (mark_in app.pull_sel app.del_sel))
unfolding do_toggle_delete_dir covered
do_toggle_delete_dir-Stepped e app d =
    let keys = keys_of (files_under e app.tree) in
    let test =
      covered_marks (λ j. mem j app.del_sel)
        (λ j. is_to_delete (mark_in app.pull_sel app.del_sel j)) keys
        (λ k. sym (is_to_delete-mark_of (mem k app.pull_sel) (mem k app.del_sel) (d k))) in
    elim (Bool-cases (covered keys app.del_sel)) [
      | inl t ↦ rw t (record {
        follows =
            with_test _ _ to_delete (λ k. mem k keys) true _ _ _ (sym t ∙ test)
              (delete_step app.pull_sel app.del_sel app.pull_sel (minus keys app.del_sel) true
                (λ k. mem k keys) d (λ k. refl) (λ k. mem-minus k keys app.del_sel)
                (λ k u x. covered-mem keys app.del_sel k t x));
        same_tree = refl;
        same_pull = refl;
        same_delete = refl;
        same_exited = refl;
      })
      | inr t ↦ rw t (record {
        follows =
            with_test _ _ to_delete (λ k. mem k keys) false _ _ _ (sym t ∙ test)
              (delete_step app.pull_sel app.del_sel (minus keys app.pull_sel) (keys ++ app.del_sel)
                false (λ k. mem k keys) d (λ k. mem-minus k keys app.pull_sel)
                (λ k. mem-append k keys app.del_sel) (λ k u x. absurd (ground arith)));
        same_tree = refl;
        same_pull = refl;
        same_delete = refl;
        same_exited = refl;
      })
    ]
