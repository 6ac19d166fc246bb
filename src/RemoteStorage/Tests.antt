-- ===== src/RemoteStorage/Tests.antt =====
-- A store of texts with one of them on the server, and another text under its path.
use graph_extraction.Base.{
  ◌≡◌, ◌≢◌, eq_iff, ◌⊎◌, inr, refl, String, true, false, none, some, [], ◌∷◌, arith,
}
use graph_extraction.Base.Dict.{lookup}
use graph_extraction.Upload.State.{
  Library, LocalPath, in_project, ptr_name, ends_with, basename, has_slash, Ptr, pointer, File,
  State, set_file,
}
use graph_extraction.Upload.Push.{load_ptr, new_ptr, returned}
use graph_extraction.Upload.Push.Effects.{IsFresh}
use graph_extraction.Upload.Pull.{whole}
use graph_extraction.RemoteStorage.{located, matches_known_size, ensure_local, push_worker}
use graph_extraction.RemoteStorage.Laws.{ensure_local_lem, push_worker-conflict}

abbrev texts : Library
texts = record { Content = String; hash = λ c. c; size = λ c. 4; h5_meta = λ c. none }

abbrev path : LocalPath
path = in_project "a.h5"

abbrev old : File texts
old = record { content = "data"; mtime = 7 }

abbrev ptr : Ptr
ptr = new_ptr texts 9 path none "data" 4 old

abbrev remote : State texts
remote = record {
  files = λ q. none;
  ptrs = [];
  index = ("a.h5.ptr", pointer ptr) ∷ [];
  cache = ("data", "data") ∷ [];
}

ensure_local_lem_example :
    (q : LocalPath) × (s' : State texts) × (g : File texts) × (ensure_local texts 11 8 whole "a.h5"
        (some "/scratch")
        remote
      ≡ located q s')
    × (s'.files q ≡ some g)
    × ((g.content ≡ "data") ⊎ (s' ≡ remote) × (matches_known_size texts "a.h5" g remote ≡ true))
unfolding lookup ptr_name ends_with basename has_slash
ensure_local_lem_example =
    ensure_local_lem texts 11 8 "a.h5" (some "/scratch") ptr remote (inr (refl, refl)) refl
      ("data", refl, refl)

abbrev new : File texts
new = record { content = "other"; mtime = 20 }

abbrev regenerated : State texts
regenerated = record remote { files = set_file texts path (some new) (λ q. none) }

regenerated-IsFresh : IsFresh texts path none new regenerated
unfolding load_ptr lookup
regenerated-IsFresh p x = absurd (ground (arith, x))

data-other : ptr.hash ≢ new.content
data-other e = let t : false ≡ true = (eq_iff "data" "other").1 e in absurd (ground (arith, t))

push_worker-conflict_example :
    (s' : State texts) × (push_worker texts 21 path true none false regenerated ≡ returned s')
    × (s'.cache ≡ remote.cache)
    × (s'.index ≡ remote.index)
    × (s'.files ≡ regenerated.files)
unfolding lookup ptr_name ends_with
push_worker-conflict_example =
    push_worker-conflict texts 21 path true none new ptr regenerated refl regenerated-IsFresh refl
      data-other
