-- ===== src/Upload/Tests.antt =====
-- A store of texts, each of which is its own hash.
use graph_extraction.Base.{
  ◌≡◌, ◌⊎◌, refl, sym, ap, ◌∙◌, subst, String, true, false, ◌&&◌, ◌||◌, not, none, some, List, [],
  ◌∷◌, take, if◌then◌else◌, arith,
}
use graph_extraction.Base.Dict.{lookup, insert, erase, lookup-nil}
use graph_extraction.Upload.State.{
  Library, LocalPath, same_local, same_local_eq, in_list, in_project, basename, ptr_name, ends_with,
  has_slash, Ptr, Raw, pointer, Answer, line, File, State, set_file, remove_files, ptr_path_for,
}
use graph_extraction.Upload.Push.{
  is_yes, decide_conflict, confirmed, answered_yes, run, load_ptr, new_ptr, override_ptr, push_plan,
  push_file, Target, directory, files_of, visible, deletion_agreed, can_start, returned, left_by,
  cmd_push,
}
use graph_extraction.Upload.Pull.{whole, already_present, pulled, pull_file, pull_name}
use graph_extraction.Upload.Pull.Laws.{IsPulled, pull_file_lem, pull_name-push_file}
use graph_extraction.Upload.Maintain.{
  read_ptrs, drop_metadata, referenced, fetch_ptrs, cmd_purge, delete_remote, delete_all, ls_delete,
  cmd_clean,
}
use graph_extraction.Upload.Overrides.{pending, cmd_apply_overrides, cmd_apply_overrides_lem}
use graph_extraction.Upload.Maintain.Blobs.{cmd_purge_lem}
use graph_extraction.Upload.Maintain.Cleaning.{IsBackedUp, cmd_clean_lem}
use graph_extraction.Upload.Maintain.Deleting.{
  deletes_hash, deletes_path, IsUnshared, ls_delete_lem, push_file-ls_delete,
}
use graph_extraction.Upload.Push.Effects.{HasBlob, IsFresh, IsSound, push_plan-IsSound}
use graph_extraction.Upload.Push.Outcomes.{IsUploaded, IsRemoteSame, push_file_lem}
use graph_extraction.Upload.Push.Pointers.{AllFresh, IsApart}
use graph_extraction.Upload.Push.Commands.{cmd_push_lem}

abbrev texts : Library
texts = record { Content = String; hash = λ c. c; size = λ c. 4; h5_meta = λ c. none }

abbrev path : LocalPath
path = in_project "a.h5"

abbrev file : File texts
file = record { content = "data"; mtime = 7 }

abbrev start : State texts
start = record {
  files = set_file texts path (some file) (λ q. none);
  ptrs = [];
  index = [];
  cache = [];
}

start-IsSound : IsSound texts start
start-IsSound = record {
  hashed = λ digest c x. absurd (ground (arith, x, lookup-nil {V = String} digest));
  backed = λ k p x. absurd (ground (arith, x, lookup-nil {V = Raw} k));
}

start-IsFresh : IsFresh texts path none file start
unfolding load_ptr lookup
start-IsFresh p x = absurd (ground (arith, x))

abbrev ptr : Ptr
ptr = new_ptr texts 9 path none "data" 4 file

abbrev stored : State texts
stored = record start {
  ptrs = ("a.h5.ptr", ptr) ∷ [];
  index = ("a.h5.ptr", pointer ptr) ∷ [];
  cache = ("data", "data") ∷ [];
}

is_stored : push_file texts 9 path none false [] start ≡ some (true, stored)
unfolding push_file basename ptr_name ends_with lookup insert
is_stored = refl

push_plan-IsSound_example :
    IsSound texts
      (run texts (take 2 (push_plan texts 9 path none file false [] start).effects) start)
push_plan-IsSound_example =
    push_plan-IsSound texts 9 path none file start start-IsSound 2 false [] start-IsFresh

push_file_lem_example :
    IsSound texts stored
    × ((true ≡ true) × IsUploaded texts path none "data" start stored
        ⊎ (true ≡ false) × (false ≡ false) × IsRemoteSame texts start stored)
push_file_lem_example =
    push_file_lem texts 9 path none file start false [] true stored refl start-IsFresh start-IsSound
      is_stored

stored-IsSound : IsSound texts stored
stored-IsSound = push_file_lem_example.0

-- A directory with a hidden file, whose uploaded files are deleted.
abbrev target : Target
target = directory (in_project ".hidden" ∷ path ∷ [])

abbrev deleted : State texts
deleted = record stored { files = set_file texts path none start.files }

is_deleted : cmd_push texts 9 target false (λ q. []) true false [] start ≡ returned deleted
unfolding cmd_push can_start visible push_file basename ptr_name ends_with lookup insert files_of
    remove_files
is_deleted = refl

only_path : (q : LocalPath) → in_list q (files_of target) ≡ true → path ≡ q
unfolding in_list files_of basename has_slash
only_path q i =
    let y : (same_local path q || false) ≡ true = i in same_local_eq path q (ground (arith, y))

only_file : (q : LocalPath) (g : File texts) → path ≡ q → start.files q ≡ some g → file ≡ g
only_file q g e x =
    let y : start.files path ≡ some g = ap start.files e ∙ x in
    let z : some file ≡ some g = y in ground (arith, z)

target-IsApart : IsApart texts 9 none false (λ q. []) (files_of target) start
target-IsApart p q f g i j x y e m =
    ap (λ (k : File texts). k.content)
      (sym (only_file p f (only_path p i) x) ∙ only_file q g (only_path q j) y)

target-AllFresh : AllFresh texts 9 none false (λ q. []) (files_of target) start
unfolding load_ptr
target-AllFresh q g i x p y = absurd (ground (arith, y, lookup-nil {V = Ptr} (ptr_path_for q none)))

cmd_push_lem_example :
    IsSound texts deleted
    × ((q : LocalPath) (f : File texts)
        → start.files q ≡ some f
        → (deleted.files q ≡ some f)
          ⊎ (deleted.files q ≡ none)
            × (in_list q (files_of target) ≡ true)
            × (deletion_agreed texts true false [] ≡ true)
            × HasBlob texts f.content deleted)
cmd_push_lem_example =
    cmd_push_lem texts 9 target false (λ q. []) true false [] start deleted target-IsApart
      target-AllFresh start-IsSound (ap (left_by texts) is_deleted)

pull_file_lem_example :
    (s' : State texts) × ((pull_file texts 11 8 whole ptr (some "/scratch") stored
          ≡ already_present s')
        × (s' ≡ stored)
      ⊎ (pull_file texts 11 8 whole ptr (some "/scratch") stored ≡ pulled s'))
    × IsPulled texts 11 8 ptr (record { dir = "/scratch"; rel = "a.h5" }) stored s'
unfolding lookup basename ends_with
pull_file_lem_example = pull_file_lem texts 11 8 ptr (some "/scratch") stored ("data", refl, refl)

pull_name-push_file_example :
    (t' : State texts) × (g : File texts) × ((pull_name texts 11 8 whole "a.h5" deleted
          ≡ some (already_present t'))
        × (t' ≡ deleted)
      ⊎ (pull_name texts 11 8 whole "a.h5" deleted ≡ some (pulled t')))
    × (t'.files path ≡ some g)
    × (g.content ≡ "data")
pull_name-push_file_example =
    pull_name-push_file texts 11 8 9 path none file false [] start stored deleted "a.h5" refl
      start-IsFresh start-IsSound is_stored refl refl refl

cmd_purge_lem_example :
    IsSound texts (cmd_purge texts (λ k. true) (line "y" ∷ line " Y" ∷ []) stored)
    × ((digest : String)
        → lookup digest (cmd_purge texts (λ k. true) (line "y" ∷ line " Y" ∷ []) stored).cache ≡ (
            if confirmed (line "y" ∷ line " Y" ∷ [])
              && not (referenced digest (read_ptrs stored.index))
            then none
            else lookup digest stored.cache))
cmd_purge_lem_example =
    cmd_purge_lem texts (λ k. true) (line "y" ∷ line " Y" ∷ []) stored stored-IsSound

cmd_clean_lem_example :
    IsSound texts (cmd_clean texts (λ k. true) (line "y" ∷ []) stored)
    × ((cmd_clean texts (λ k. true) (line "y" ∷ []) stored).cache ≡ stored.cache)
    × ((q : LocalPath) (f : File texts)
        → stored.files q ≡ some f
        → ((cmd_clean texts (λ k. true) (line "y" ∷ []) stored).files q ≡ some f)
          ⊎ ((cmd_clean texts (λ k. true) (line "y" ∷ []) stored).files q ≡ none)
            × (answered_yes (line "y" ∷ []) ≡ true)
            × IsBackedUp texts (λ k. true) q f stored)
unfolding lookup
cmd_clean_lem_example =
    cmd_clean_lem texts (λ k. true) (line "y" ∷ []) stored stored-IsSound (refl, tt) (refl, tt)

-- Both questions are answered with yes.
abbrev yes_yes : List Answer
yes_yes = line "y" ∷ line "y" ∷ []

is_confirmed : confirmed yes_yes ≡ true
unfolding confirmed decide_conflict is_yes
is_confirmed = refl

-- The only pointer is the one to delete.
ptr-IsUnshared : IsUnshared texts (λ k. true) (ptr ∷ []) (fetch_ptrs texts (λ k. true) stored).1
unfolding fetch_ptrs drop_metadata deletes_path basename ends_with lookup ptr_name
ptr-IsUnshared k q x kept = absurd (ground (arith, x, kept))

ls_delete_lem_example :
    IsSound texts (ls_delete texts (λ k. true) (ptr ∷ []) yes_yes stored)
    × ((digest : String)
        → lookup digest (ls_delete texts (λ k. true) (ptr ∷ []) yes_yes stored).cache
          ≡ (if deletes_hash digest (ptr ∷ []) then none else lookup digest stored.cache))
    × ((k : String)
        → lookup k (ls_delete texts (λ k. true) (ptr ∷ []) yes_yes stored).index ≡ (
            if deletes_path k (ptr ∷ [])
            then none
            else lookup k (fetch_ptrs texts (λ k. true) stored).1.index))
    × ((ls_delete texts (λ k. true) (ptr ∷ []) yes_yes stored).files ≡ stored.files)
ls_delete_lem_example =
    ls_delete_lem texts (λ k. true) (ptr ∷ []) yes_yes stored is_confirmed ptr-IsUnshared
      stored-IsSound

-- Another pointer has the same content.
abbrev copy : Ptr
copy = new_ptr texts 9 (in_project "b.h5") none "data" 4 file

abbrev shared : State texts
shared = record stored { index = ("b.h5.ptr", pointer copy) ∷ stored.index; ptrs = [] }

shared-IsFresh :
    IsFresh texts path none file (ls_delete texts (λ k. true) (copy ∷ []) yes_yes shared)
unfolding ls_delete load_ptr lookup confirmed decide_conflict is_yes fetch_ptrs delete_all
    delete_remote erase
shared-IsFresh p x = absurd (ground (arith, x))

push_file-ls_delete_example :
    (s' : State texts) × (push_file texts 10 path none false []
        (ls_delete texts (λ k. true) (copy ∷ []) yes_yes shared)
      ≡ some (true, s'))
    × (lookup "a.h5.ptr" s'.index ≡ some (pointer ptr))
    × (lookup "data" s'.cache ≡ none)
unfolding lookup deletes_path deletes_hash fetch_ptrs drop_metadata basename ends_with ptr_name
push_file-ls_delete_example =
    push_file-ls_delete texts (λ k. true) (copy ∷ []) yes_yes [] shared 10 path none file ptr
      is_confirmed refl refl refl refl refl shared-IsFresh

-- A push that found no terminal has marked the file.
abbrev marked : State texts
marked = record start { ptrs = ("a.h5.ptr", override_ptr texts path none "data" file) ∷ [] }

marked-IsSound : IsSound texts marked
marked-IsSound = record {
  hashed = λ digest c x. absurd (ground (arith, x, lookup-nil {V = String} digest));
  backed = λ k p x. absurd (ground (arith, x, lookup-nil {V = Raw} k));
}

only_pending : (q : LocalPath) → in_list q (pending texts marked.ptrs marked) ≡ true → path ≡ q
unfolding in_list pending
only_pending q i =
    let y : (same_local path q || false) ≡ true = i in same_local_eq path q (ground (arith, y))

marked-IsApart : IsApart texts 9 none true (λ q. []) (pending texts marked.ptrs marked) marked
marked-IsApart p q f g i j x y e m =
    ap (λ (k : File texts). k.content)
      (sym (only_file p f (only_pending p i) x) ∙ only_file q g (only_pending q j) y)

marked-IsFresh : IsFresh texts path none file marked
unfolding load_ptr lookup ptr_name ends_with
marked-IsFresh p x =
    let y : some (override_ptr texts path none "data" file) ≡ some p = x in
    let z : override_ptr texts path none "data" file ≡ p = ground (arith, y) in
    ap (λ (k : Ptr). k.hash) (sym z)

marked-AllFresh : AllFresh texts 9 none true (λ q. []) (pending texts marked.ptrs marked) marked
marked-AllFresh q g i e =
    let here = only_pending q i in
    subst (λ (k : LocalPath). IsFresh texts k none g marked) here
      (subst (λ (k : File texts). IsFresh texts path none k marked) (only_file q g here e)
        marked-IsFresh)

cmd_apply_overrides_lem_example :
    IsSound texts (cmd_apply_overrides texts 9 yes_yes marked)
    × ((cmd_apply_overrides texts 9 yes_yes marked).files ≡ marked.files)
    × ((q : LocalPath) (f : File texts)
        → in_list q (pending texts marked.ptrs marked) ≡ true
        → marked.files q ≡ some f
        → HasBlob texts f.content (cmd_apply_overrides texts 9 yes_yes marked))
cmd_apply_overrides_lem_example =
    cmd_apply_overrides_lem texts 9 yes_yes marked is_confirmed marked-IsApart marked-AllFresh
      marked-IsSound
