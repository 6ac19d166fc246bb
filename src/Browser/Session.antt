-- ===== src/Browser/Session.antt =====
-- A whole session of the browser.
use graph_extraction.Base.{
  ◌≡◌, refl, sym, ap, ◌∙◌, inl, inr, String, true, false, ◌||◌, List, [], ◌∷◌, arith,
}
use graph_extraction.Base.Texts.{mem}
use graph_extraction.Upload.State.{Ptr}
use graph_extraction.Browser.{Tree}
use graph_extraction.Browser.App.{Event, App, press, run, start, browse}
use graph_extraction.Browser.Marks.{unmarked, press_mark, named, named_by, or_else, outcome}
use graph_extraction.Browser.Sets.{mem-append}
use graph_extraction.Browser.Pressing.{Live, marks_of, Covers, press-Pressed}

run-exited : (events : List Event) (app : App) → app.exited ≡ true → run events app ≡ app
unfolding run
run-exited [] app t = refl
run-exited (e ∷ events) app t = rw t refl

run-running :
    (e : Event) (events : List Event) (app : App)
    → app.exited ≡ false
    → run (e ∷ events) app ≡ run events (press e app)
unfolding run
run-running e events app t = rw t refl

abbrev chosen : App → List Ptr × List Ptr
chosen app = (app.chosen_pull, app.chosen_delete)

run-outcome :
    (keys : List String) (events : List Event) (app : App)
    → Live keys app
    → Covers keys (named_by app.tree events)
    → chosen (run events app) ≡ outcome app.tree keys events (marks_of app)
unfolding run
run-outcome keys [] app l c = rw (l.no_pull, l.no_delete) refl
run-outcome keys (e ∷ events) app l c =
    ap chosen (run-running e events app l.running)
    ∙ elim (press-Pressed keys e app l (λ k u. before k u)) [
      | inl g ↦
          run-outcome keys events (press e app) g.live
            (λ k u. ap (λ t. mem k (named_by t events)) g.same_tree ∙ behind k u)
          ∙ ap (λ t. outcome t keys events (marks_of (press e app))) g.same_tree
          ∙ ap (λ m. outcome app.tree keys events m) g.marks
          ∙ sym (
              ap
                (λ o.
                  or_else o (outcome app.tree keys events (press_mark app.tree e (marks_of app))))
                g.goes_on)
      | inr (x, t) ↦
          ap chosen (run-exited events (press e app) t)
          ∙ sym (
              ap
                (λ o.
                  or_else o (outcome app.tree keys events (press_mark app.tree e (marks_of app))))
                x)
    ]
  where
    split :
        (k : String)
        → mem k keys ≡ false
        → (mem k (named app.tree e) || mem k (named_by app.tree events)) ≡ false
    split k u = sym (mem-append k (named app.tree e) (named_by app.tree events)) ∙ c k u

    before : (k : String) → mem k keys ≡ false → mem k (named app.tree e) ≡ false
    before k u = ground (arith, split k u)

    behind : (k : String) → mem k keys ≡ false → mem k (named_by app.tree events) ≡ false
    behind k u = ground (arith, split k u)

-- `browse` returns what a session on the marks returns, in which no file is marked at the start: a
-- toggle sets the mark to pull or to delete on the file, or on all files under the directory, or
-- takes it off if all that it is about have it. The first key that ends the session decides: to
-- confirm pulling ends it, when a file that the keys are about has the mark to pull, with the files
-- of the tree so marked and none to delete, to confirm deleting likewise with those marked to
-- delete and none to pull, and to quit ends it with two empty lists, as when the keys run out.
pub browse-marks :
    (events : List Event) (tree : Tree)
    → browse events tree ≡ outcome tree (named_by tree events) events (λ k. unmarked)
unfolding browse mem
browse-marks events tree =
    run-outcome (named_by tree events) events (start tree)
      (record {
        no_pull = refl;
        no_delete = refl;
        running = refl;
        disjoint = λ k. refl;
        within = λ k u. refl;
      })
      (λ k u. u)
