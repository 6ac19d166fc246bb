-- ===== src/Browser/Pressing.antt =====
-- What a key does to the browser, and to the marks.
use graph_extraction.Base.{
  ◌≡◌, refl, sym, ap, ◌∙◌, inl, inr, String, Bool, true, false, not, List, [], ◌∷◌, Option, some,
  none, ◌⊎◌, Bool-cases, arith, str_eq, eq_iff,
}
use graph_extraction.Base.Texts.{mem}
use graph_extraction.Upload.State.{Ptr}
use graph_extraction.Browser.{Tree, all_files}
use graph_extraction.Browser.App.{
  file, dir, parent, Event, select, toggle_pull, toggle_delete, confirm_pull, confirm_delete,
  quit_app, App, is_empty, selected_files, action_confirm_pull, action_confirm_delete, press,
}
use graph_extraction.Browser.Marks.{
  Mark, unmarked, is_to_pull, is_to_delete, press_mark, mark_in, IsDisjoint, is_to_pull-mark_of,
  is_to_delete-mark_of, named, any_true, ends,
}
use graph_extraction.Browser.Toggles.{
  Stepped, do_toggle_pull-Stepped, do_toggle_delete-Stepped, do_toggle_pull_dir-Stepped,
  do_toggle_delete_dir-Stepped,
}

selected_files-cong :
    (f g : String → Bool) (ps : List Ptr)
    → ((k : String) → f k ≡ g k)
    → selected_files f ps ≡ selected_files g ps
unfolding selected_files
selected_files-cong f g [] h = refl
selected_files-cong f g (p ∷ ps) h = rw (h p.original_path, selected_files-cong f g ps h) refl

any_true-mem :
    (f : String → Bool) (keys : List String) (k : String)
    → f k ≡ true
    → mem k keys ≡ true
    → any_true f keys ≡ true
unfolding mem
any_true-mem f [] k a m = absurd (ground (arith, m))
any_true-mem f (x ∷ xs) k a m = elim (Bool-cases (str_eq x k)) [
  | inl t ↦ rw (ap f ((eq_iff x k).0 t) ∙ a) refl
  | inr t ↦ let rest = any_true-mem f xs k a (ground (arith, m, t)) in ground (arith, rest)
]

any_true-none :
    (f : String → Bool) (keys : List String)
    → ((k : String) → f k ≡ false)
    → any_true f keys ≡ false
any_true-none f [] h = refl
any_true-none f (x ∷ xs) h = rw (h x, any_true-none f xs h) refl

-- A set is empty when no key of a list that covers it has the mark.
is_empty-any_true :
    (s keys : List String) (f : String → Bool)
    → ((k : String) → f k ≡ mem k s)
    → ((k : String) → mem k keys ≡ false → mem k s ≡ false)
    → is_empty s ≡ not (any_true f keys)
unfolding mem
is_empty-any_true [] keys f h b = rw (any_true-none f keys h) refl
is_empty-any_true (x ∷ xs) keys f h b =
    let here : mem x (x ∷ xs) ≡ true = rw ((eq_iff x x).1 refl) refl in
    elim (Bool-cases (mem x keys)) [
      | inl t ↦ rw (any_true-mem f keys x (h x ∙ here) t) refl
      | inr t ↦ absurd (ground (arith, here, b x t))
    ]

-- A browser that runs, in which the keys cover all that is marked.
pub record Live (keys : List String) (app : App) : Type 0 where
  pub no_pull : app.chosen_pull ≡ []
  pub no_delete : app.chosen_delete ≡ []
  pub running : app.exited ≡ false
  pub disjoint : IsDisjoint app.pull_sel app.del_sel
  pub within : (k : String) → mem k keys ≡ false → mark_in app.pull_sel app.del_sel k ≡ unmarked

abbrev pub marks_of : App → String → Mark
marks_of app = mark_in app.pull_sel app.del_sel

pull_is_empty :
    (keys : List String) (app : App)
    → Live keys app
    → is_empty app.pull_sel ≡ not (any_true (λ k. is_to_pull (marks_of app k)) keys)
pull_is_empty keys app l =
    is_empty-any_true app.pull_sel keys _
      (λ k. is_to_pull-mark_of (mem k app.pull_sel) (mem k app.del_sel))
      (λ k u.
        sym (is_to_pull-mark_of (mem k app.pull_sel) (mem k app.del_sel))
        ∙ ap is_to_pull (l.within k u))

delete_is_empty :
    (keys : List String) (app : App)
    → Live keys app
    → is_empty app.del_sel ≡ not (any_true (λ k. is_to_delete (marks_of app k)) keys)
delete_is_empty keys app l =
    is_empty-any_true app.del_sel keys _
      (λ k. is_to_delete-mark_of (mem k app.pull_sel) (mem k app.del_sel) (l.disjoint k))
      (λ k u.
        sym (is_to_delete-mark_of (mem k app.pull_sel) (mem k app.del_sel) (l.disjoint k))
        ∙ ap is_to_delete (l.within k u))

pub record Goes (keys : List String) (app app' : App) (m : String → Mark)
    (end : Option (List Ptr × List Ptr)) : Type 0 where
  pub goes_on : end ≡ none
  pub live : Live keys app'
  pub marks : marks_of app' ≡ m
  pub same_tree : app'.tree ≡ app.tree

-- What a key does to a browser that runs: it goes on with the marks, or ends with the files chosen.
abbrev pub Pressed :
    List String → App → App → (String → Mark) → Option (List Ptr × List Ptr) → Type 0
Pressed keys app app' m end =
    Goes keys app app' m end
    ⊎ (end ≡ some (app'.chosen_pull, app'.chosen_delete)) × (app'.exited ≡ true)

-- A toggle leaves the marks of the files that it is not about.
press_mark-named :
    (tree : Tree) (e : Event) (m : String → Mark) (k : String)
    → mem k (named tree e) ≡ false
    → press_mark tree e m k ≡ m k
unfolding mem
press_mark-named tree (select (some (file p))) m k h =
    let other : str_eq p.original_path k ≡ false = ground (arith, h) in rw other refl
press_mark-named tree (select (some (dir d))) m k h = refl
press_mark-named tree (select (some (parent d))) m k h = refl
press_mark-named tree (select none) m k h = refl
press_mark-named tree (toggle_pull (some (file p))) m k h =
    let other : str_eq p.original_path k ≡ false = ground (arith, h) in rw other refl
press_mark-named tree (toggle_pull (some (dir d))) m k h = rw h refl
press_mark-named tree (toggle_pull (some (parent d))) m k h = refl
press_mark-named tree (toggle_pull none) m k h = refl
press_mark-named tree (toggle_delete (some (file p))) m k h =
    let other : str_eq p.original_path k ≡ false = ground (arith, h) in rw other refl
press_mark-named tree (toggle_delete (some (dir d))) m k h = rw h refl
press_mark-named tree (toggle_delete (some (parent d))) m k h = refl
press_mark-named tree (toggle_delete none) m k h = refl
press_mark-named tree confirm_pull m k h = refl
press_mark-named tree confirm_delete m k h = refl
press_mark-named tree quit_app m k h = refl

abbrev pub Covers : List String → List String → Type 0
Covers keys used = (k : String) → mem k keys ≡ false → mem k used ≡ false

Stepped-Goes :
    (keys : List String) (e : Event) (app app' : App)
    → Live keys app
    → Covers keys (named app.tree e)
    → ends app.tree keys e (marks_of app) ≡ none
    → Stepped app app' (press_mark app.tree e (marks_of app))
    → Pressed keys app app'
        (press_mark app.tree e (marks_of app))
        (ends app.tree keys e (marks_of app))
Stepped-Goes keys e app app' l c g h = inl (record {
  goes_on = g;
  live = record {
    no_pull = h.same_pull ∙ l.no_pull;
    no_delete = h.same_delete ∙ l.no_delete;
    running = h.same_exited ∙ l.running;
    disjoint = h.follows.disjoint;
    within = λ k u.
        ap (λ m. m k) h.follows.marks
        ∙ press_mark-named app.tree e (marks_of app) k (c k u)
        ∙ l.within k u;
  };
  marks = h.follows.marks;
  same_tree = h.same_tree;
})

same : (keys : List String) (app : App) → Live keys app → Goes keys app app (marks_of app) none
same keys app l = record { goes_on = refl; live = l; marks = refl; same_tree = refl }

moved :
    (keys d : List String) (app : App)
    → Live keys app
    → Goes keys app (record app { cwd = d }) (marks_of app) none
moved keys d app l = record {
  goes_on = refl;
  live = record {
    no_pull = l.no_pull;
    no_delete = l.no_delete;
    running = l.running;
    disjoint = l.disjoint;
    within = l.within;
  };
  marks = refl;
  same_tree = refl;
}

both : {a b c d : List Ptr} → a ≡ b → c ≡ d → ◌≡◌ {A = List Ptr × List Ptr} (a, c) (b, d)
both p q = rw (p, q) refl

confirm_pull-Pressed :
    (keys : List String) (app : App)
    → Live keys app
    → Pressed keys app
        (action_confirm_pull app)
        (marks_of app)
        (ends app.tree keys confirm_pull (marks_of app))
unfolding action_confirm_pull
confirm_pull-Pressed keys app l =
    elim (Bool-cases (any_true (λ k. is_to_pull (marks_of app k)) keys)) [
      | inl t ↦
          rw (pull_is_empty keys app l, t)
            (inr (
              ap some (
                  both
                    (sym (
                      selected_files-cong (λ k. mem k app.pull_sel)
                        (λ k. is_to_pull (marks_of app k)) (all_files app.tree)
                        (λ k. sym (is_to_pull-mark_of (mem k app.pull_sel) (mem k app.del_sel)))))
                    (sym l.no_delete)),
              refl,
            ))
      | inr t ↦ rw (pull_is_empty keys app l, t) (inl (same keys app l))
    ]

confirm_delete-Pressed :
    (keys : List String) (app : App)
    → Live keys app
    → Pressed keys app
        (action_confirm_delete app)
        (marks_of app)
        (ends app.tree keys confirm_delete (marks_of app))
unfolding action_confirm_delete
confirm_delete-Pressed keys app l =
    elim (Bool-cases (any_true (λ k. is_to_delete (marks_of app k)) keys)) [
      | inl t ↦
          rw (delete_is_empty keys app l, t)
            (inr (
              ap some (
                  both (sym l.no_pull) (
                    sym (
                      selected_files-cong (λ k. mem k app.del_sel)
                        (λ k. is_to_delete (marks_of app k)) (all_files app.tree)
                        (λ k. sym (
                          is_to_delete-mark_of (mem k app.pull_sel) (mem k app.del_sel)
                            (l.disjoint k)))))),
              refl,
            ))
      | inr t ↦ rw (delete_is_empty keys app l, t) (inl (same keys app l))
    ]

pub press-Pressed :
    (keys : List String) (e : Event) (app : App)
    → Live keys app
    → Covers keys (named app.tree e)
    → Pressed keys app
        (press e app)
        (press_mark app.tree e (marks_of app))
        (ends app.tree keys e (marks_of app))
unfolding press
press-Pressed keys (select (some (file p))) app l c =
    Stepped-Goes keys (select (some (file p))) app _ l c refl
      (do_toggle_pull-Stepped p app l.disjoint)
press-Pressed keys (select (some (dir d))) app l c = inl (moved keys d app l)
press-Pressed keys (select (some (parent d))) app l c = inl (moved keys d app l)
press-Pressed keys (select none) app l c = inl (same keys app l)
press-Pressed keys (toggle_pull (some (file p))) app l c =
    Stepped-Goes keys (toggle_pull (some (file p))) app _ l c refl
      (do_toggle_pull-Stepped p app l.disjoint)
press-Pressed keys (toggle_pull (some (dir d))) app l c =
    Stepped-Goes keys (toggle_pull (some (dir d))) app _ l c refl
      (do_toggle_pull_dir-Stepped d app l.disjoint)
press-Pressed keys (toggle_pull (some (parent d))) app l c = inl (same keys app l)
press-Pressed keys (toggle_pull none) app l c = inl (same keys app l)
press-Pressed keys (toggle_delete (some (file p))) app l c =
    Stepped-Goes keys (toggle_delete (some (file p))) app _ l c refl
      (do_toggle_delete-Stepped p app l.disjoint)
press-Pressed keys (toggle_delete (some (dir d))) app l c =
    Stepped-Goes keys (toggle_delete (some (dir d))) app _ l c refl
      (do_toggle_delete_dir-Stepped d app l.disjoint)
press-Pressed keys (toggle_delete (some (parent d))) app l c = inl (same keys app l)
press-Pressed keys (toggle_delete none) app l c = inl (same keys app l)
press-Pressed keys confirm_pull app l c = confirm_pull-Pressed keys app l
press-Pressed keys confirm_delete app l c = confirm_delete-Pressed keys app l
press-Pressed keys quit_app app l c = inr (rw (l.no_pull, l.no_delete) refl, refl)
