-- ===== src/Browser/Marks.antt =====
-- One mark for each file, in place of the two sets of the browser.
use mathlib.Core.Path.{fun_ext}
use graph_extraction.Base.{
  ◌++◌, Option, ◌≡◌, refl, sym, ap, ◌∙◌, inl, inr, String, Bool, true, false, ◌&&◌, ◌||◌, not, none,
  some, List, [], ◌∷◌, str_eq, eq_iff, Bool-cases, if◌then◌else◌, arith,
}
use graph_extraction.Base.Texts.{mem}
use graph_extraction.Upload.State.{Ptr}
use graph_extraction.Browser.{Tree, files_under, all_files}
use graph_extraction.Browser.App.{
  selected_files, file, dir, parent, Event, select, toggle_pull, toggle_delete, confirm_pull,
  confirm_delete, quit_app, all_true, is_empty, keys_of,
}

pub data Mark : Type 0 where
  unmarked to_pull to_delete : Mark

abbrev pub mark_of : Bool → Bool → Mark
mark_of true b = to_pull
mark_of false true = to_delete
mark_of false false = unmarked

abbrev pub is_to_pull : Mark → Bool
is_to_pull unmarked = false
is_to_pull to_pull = true
is_to_pull to_delete = false

abbrev pub is_to_delete : Mark → Bool
is_to_delete unmarked = false
is_to_delete to_pull = false
is_to_delete to_delete = true

-- The mark `which` is set on a file that is meant, or taken off if all that are meant have it.
abbrev pub toggled : Mark → Bool → Bool → Mark → Mark
toggled which false t m = m
toggled which true true m = unmarked
toggled which true false m = which

abbrev pub mark_file : Mark → (Mark → Bool) → Ptr → (String → Mark) → String → Mark
mark_file which is_which p m k =
    toggled which (str_eq p.original_path k) (is_which (m p.original_path)) (m k)

abbrev pub mark_files : Mark → (Mark → Bool) → List String → (String → Mark) → String → Mark
mark_files which is_which keys m k =
    toggled which (mem k keys) (not (is_empty keys) && all_true (λ j. is_which (m j)) keys) (m k)

-- What a key of the keyboard does to the marks.
abbrev pub press_mark : Tree → Event → (String → Mark) → String → Mark
press_mark tree (select (some (file p))) m = mark_file to_pull is_to_pull p m
press_mark tree (select (some (dir d))) m = m
press_mark tree (select (some (parent d))) m = m
press_mark tree (select none) m = m
press_mark tree (toggle_pull (some (file p))) m = mark_file to_pull is_to_pull p m
press_mark tree (toggle_pull (some (dir d))) m =
    mark_files to_pull is_to_pull (keys_of (files_under d tree)) m
press_mark tree (toggle_pull (some (parent d))) m = m
press_mark tree (toggle_pull none) m = m
press_mark tree (toggle_delete (some (file p))) m = mark_file to_delete is_to_delete p m
press_mark tree (toggle_delete (some (dir d))) m =
    mark_files to_delete is_to_delete (keys_of (files_under d tree)) m
press_mark tree (toggle_delete (some (parent d))) m = m
press_mark tree (toggle_delete none) m = m
press_mark tree confirm_pull m = m
press_mark tree confirm_delete m = m
press_mark tree quit_app m = m

-- The mark that the two sets give a file.
abbrev pub mark_in : List String → List String → String → Mark
mark_in pull_sel del_sel k = mark_of (mem k pull_sel) (mem k del_sel)

abbrev pub IsDisjoint : List String → List String → Type 0
IsDisjoint pull_sel del_sel = (k : String) → (mem k pull_sel && mem k del_sel) ≡ false

-- A toggle of the set `xs`, for one key: is it meant, is it in `xs`, is it in the other set.
pull_mark :
    (t x a b : Bool)
    → (a && b) ≡ false
    → (t ≡ true → x ≡ true → a ≡ true)
    → mark_of (if t then not x && a else x || a) (if t then b else not x && b)
      ≡ toggled to_pull x t (mark_of a b)
pull_mark true true true false d h = refl
pull_mark true true true true d h = absurd (ground (arith, d))
pull_mark true true false b d h = absurd (ground (arith, h refl refl))
pull_mark true false true b d h = refl
pull_mark true false false true d h = refl
pull_mark true false false false d h = refl
pull_mark false true a b d h = refl
pull_mark false false true b d h = refl
pull_mark false false false true d h = refl
pull_mark false false false false d h = refl

delete_mark :
    (t x a b : Bool)
    → (a && b) ≡ false
    → (t ≡ true → x ≡ true → b ≡ true)
    → mark_of (if t then a else not x && a) (if t then not x && b else x || b)
      ≡ toggled to_delete x t (mark_of a b)
delete_mark true true true true d h = absurd (ground (arith, d))
delete_mark true true false true d h = refl
delete_mark true true a false d h = absurd (ground (arith, h refl refl))
delete_mark true false true b d h = refl
delete_mark true false false true d h = refl
delete_mark true false false false d h = refl
delete_mark false true a b d h = refl
delete_mark false false true b d h = refl
delete_mark false false false true d h = refl
delete_mark false false false false d h = refl

pub is_to_pull-mark_of : (a b : Bool) → is_to_pull (mark_of a b) ≡ a
is_to_pull-mark_of true b = refl
is_to_pull-mark_of false true = refl
is_to_pull-mark_of false false = refl

pub is_to_delete-mark_of : (a b : Bool) → (a && b) ≡ false → is_to_delete (mark_of a b) ≡ b
is_to_delete-mark_of true true d = absurd (ground (arith, d))
is_to_delete-mark_of true false d = refl
is_to_delete-mark_of false true d = refl
is_to_delete-mark_of false false d = refl

pub all_true-cong :
    (f g : String → Bool) (keys : List String)
    → ((k : String) → f k ≡ g k)
    → all_true f keys ≡ all_true g keys
all_true-cong f g [] h = refl
all_true-cong f g (k ∷ keys) h = rw (h k, all_true-cong f g keys h) refl

pub all_true-mem :
    (f : String → Bool) (keys : List String) (k : String)
    → all_true f keys ≡ true
    → mem k keys ≡ true
    → f k ≡ true
unfolding mem
all_true-mem f [] k a m = absurd (ground arith)
all_true-mem f (x ∷ xs) k a m = elim (Bool-cases (str_eq x k)) [
  | inl t ↦ let here : f x ≡ true = ground (arith, a) in ap f (sym ((eq_iff x k).0 t)) ∙ here
  | inr t ↦ all_true-mem f xs k (ground (arith, a)) (ground (arith, m, t))
]

pub record Follows (pull_sel del_sel pull_sel' del_sel' : List String) (spec : String → Mark)
    : Type 0 where
  pub disjoint : IsDisjoint pull_sel' del_sel'
  pub marks : mark_in pull_sel' del_sel' ≡ spec

pub pull_step :
    (ps ds ps' ds' : List String) (t : Bool) (x : String → Bool)
    → IsDisjoint ps ds
    → ((k : String) → mem k ps' ≡ (if t then not (x k) && mem k ps else x k || mem k ps))
    → ((k : String) → mem k ds' ≡ (if t then mem k ds else not (x k) && mem k ds))
    → ((k : String) → t ≡ true → x k ≡ true → mem k ps ≡ true)
    → Follows ps ds ps' ds' (λ k. toggled to_pull (x k) t (mark_in ps ds k))
pull_step ps ds ps' ds' t x d hp hd h = record {
  disjoint = λ k. ground (arith, d k, hp k, hd k);
  marks = fun_ext (λ k. rw (hp k, hd k) (pull_mark t (x k) (mem k ps) (mem k ds) (d k) (h k)));
}

pub delete_step :
    (ps ds ps' ds' : List String) (t : Bool) (x : String → Bool)
    → IsDisjoint ps ds
    → ((k : String) → mem k ps' ≡ (if t then mem k ps else not (x k) && mem k ps))
    → ((k : String) → mem k ds' ≡ (if t then not (x k) && mem k ds else x k || mem k ds))
    → ((k : String) → t ≡ true → x k ≡ true → mem k ds ≡ true)
    → Follows ps ds ps' ds' (λ k. toggled to_delete (x k) t (mark_in ps ds k))
delete_step ps ds ps' ds' t x d hp hd h = record {
  disjoint = λ k. ground (arith, d k, hp k, hd k);
  marks = fun_ext (λ k. rw (hp k, hd k) (delete_mark t (x k) (mem k ps) (mem k ds) (d k) (h k)));
}

-- The files that a key of the keyboard is about.
abbrev pub named : Tree → Event → List String
named tree (select (some (file p))) = p.original_path ∷ []
named tree (select (some (dir d))) = []
named tree (select (some (parent d))) = []
named tree (select none) = []
named tree (toggle_pull (some (file p))) = p.original_path ∷ []
named tree (toggle_pull (some (dir d))) = keys_of (files_under d tree)
named tree (toggle_pull (some (parent d))) = []
named tree (toggle_pull none) = []
named tree (toggle_delete (some (file p))) = p.original_path ∷ []
named tree (toggle_delete (some (dir d))) = keys_of (files_under d tree)
named tree (toggle_delete (some (parent d))) = []
named tree (toggle_delete none) = []
named tree confirm_pull = []
named tree confirm_delete = []
named tree quit_app = []

abbrev pub named_by : Tree → List Event → List String
named_by tree [] = []
named_by tree (e ∷ events) = named tree e ++ named_by tree events

abbrev pub any_true : (String → Bool) → List String → Bool
any_true f [] = false
any_true f (k ∷ keys) = f k || any_true f keys

-- What a key of the keyboard makes `browse` return, if it ends the session: to confirm takes a file,
-- among `keys`, that has the mark.
abbrev pub ends : Tree → List String → Event → (String → Mark) → Option (List Ptr × List Ptr)
ends tree keys (select item) m = none
ends tree keys (toggle_pull item) m = none
ends tree keys (toggle_delete item) m = none
ends tree keys confirm_pull m =
    if any_true (λ k. is_to_pull (m k)) keys
    then some (selected_files (λ k. is_to_pull (m k)) (all_files tree), [])
    else none
ends tree keys confirm_delete m =
    if any_true (λ k. is_to_delete (m k)) keys
    then some ([], selected_files (λ k. is_to_delete (m k)) (all_files tree))
    else none
ends tree keys quit_app m = some ([], [])

abbrev pub or_else : Option (List Ptr × List Ptr) → List Ptr × List Ptr → List Ptr × List Ptr
or_else none rest = rest
or_else (some r) rest = r

-- A session on the marks.
abbrev pub outcome : Tree → List String → List Event → (String → Mark) → List Ptr × List Ptr
outcome tree keys [] m = ([], [])
outcome tree keys (e ∷ events) m =
    or_else (ends tree keys e m) (outcome tree keys events (press_mark tree e m))
