-- ===== src/Upload/Pull/Laws.antt =====
-- The branches of `_pull_file`, and a pull after a push.
use graph_extraction.Base.{
  ℕ, ◌≡◌, ◌⊎◌, refl, sym, ap, ◌∙◌, subst, String, Bool, true, false, Bool-cases, inl, inr, Option,
  none, some, List, eq_iff, arith,
}
use graph_extraction.Base.Dict.{lookup, insert}
use graph_extraction.Upload.State.{
  Library, LocalPath, same_local, in_project, ptr_name, Ptr, Answer, File, State, set_file,
  ptr_path_for, original_path,
}
use graph_extraction.Upload.Push.{push_file, new_ptr}
use graph_extraction.Upload.Push.Effects.{HasBlob, IsFresh, IsSound}
use graph_extraction.Upload.Push.Outcomes.{push_file_lem}
use graph_extraction.Upload.Pull.{
  whole, already_present, pulled, destination, holds, pull_file, pull_name,
}

module _ (L : Library) (now mtime : ℕ) where
  -- A pull ended well: the file at its destination has the pointer's hash, and all that changed is
  -- this file and its pointer.
  pub record IsPulled (p : Ptr) (dest : LocalPath) (s s' : State L) : Type 0 where
    pub file : File L
    pub present : s'.files dest ≡ some file
    pub right_hash : L.hash file.content ≡ p.hash
    pub same_cache : s'.cache ≡ s.cache
    pub same_index : s'.index ≡ s.index
    pub other_files : (q : LocalPath) → same_local dest q ≡ false → s'.files q ≡ s.files q

  -- A pull that the server does not break off, of a pointer whose blob is in the cache, ends well:
  -- it either finds the hash at the destination and does nothing, or downloads. After it the file
  -- at the destination has the pointer's hash, and the remote store and all other files are as they
  -- were.
  pub pull_file_lem :
      (p : Ptr) (dest_dir : Option String) (s : State L)
      → HasBlob L p.hash s
      → (s' : State L) × ((pull_file L now mtime whole p dest_dir s ≡ already_present s') × (s' ≡ s)
          ⊎ (pull_file L now mtime whole p dest_dir s ≡ pulled s'))
        × IsPulled p (destination L dest_dir p) s s'
  unfolding pull_file
  pull_file_lem p dest_dir s (c, e, h) =
      let dest = destination L dest_dir p in
      let f : File L = record { content = c; mtime = mtime } in
      elim (Bool-cases (holds L now mtime whole p.hash (s.files dest))) [
        | inl t ↦
            let (g, eg, hg) = found (s.files dest) t in
            (
              s,
              inl (rw t refl, refl),
              record {
                file = g;
                present = eg;
                right_hash = hg;
                same_cache = refl;
                same_index = refl;
                other_files = λ q x. refl;
              },
            )
        | inr t ↦ (
          record s {
            files = set_file L dest (some f) s.files;
            ptrs =
                insert (ptr_path_for dest (some p.original_path))
                  (new_ptr L now dest (some p.original_path) p.hash p.size f) s.ptrs;
          },
          inr (rw (t, e) refl),
          record {
            file = f;
            present =
                rw ((eq_iff dest.dir dest.dir).1 refl, (eq_iff dest.rel dest.rel).1 refl) refl;
            right_hash = h;
            same_cache = refl;
            same_index = refl;
            other_files = λ q x. rw x refl;
          },
        )
      ]
    where
      found :
          (o : Option (File L))
          → holds L now mtime whole p.hash o ≡ true
          → (g : File L) × (o ≡ some g) × (L.hash g.content ≡ p.hash)
      found none x = absurd (ground (arith, x))
      found (some g) x = (g, refl, (eq_iff (L.hash g.content) p.hash).0 x)

  -- A push of a file from a sound store, whose cached hash (if it has one) is right, that counts
  -- as uploaded can be undone by a pull. In any state with the pointers and the blobs that the
  -- push left, and whatever files, a pull of its name that the server does not break off ends
  -- well, and the project has a file with the hash of the pushed content at the original path.
  pub pull_name-push_file :
      (pushed_at : ℕ) (path : LocalPath) (virtual_path : Option String) (f : File L) (force : Bool)
      (answers : List Answer) (s s' t : State L) (name : String)
      → s.files path ≡ some f
      → IsFresh L path virtual_path f s
      → IsSound L s
      → push_file L pushed_at path virtual_path force answers s ≡ some (true, s')
      → t.ptrs ≡ s'.ptrs
      → t.cache ≡ s'.cache
      → ptr_name name ≡ ptr_path_for path virtual_path
      → (t' : State L) × (g : File L) × ((pull_name L now mtime whole name t
              ≡ some (already_present t'))
            × (t' ≡ t)
          ⊎ (pull_name L now mtime whole name t ≡ some (pulled t')))
        × (t'.files (in_project (original_path path virtual_path)) ≡ some g)
        × (L.hash g.content ≡ L.hash f.content)
  unfolding pull_name
  pull_name-push_file pushed_at path virtual_path f force answers s s' t name e fresh h pushed ep ec
        en =
      elim (push_file_lem L pushed_at path virtual_path f s force answers true s' e fresh h
        pushed).1 [
          | inr (x, y, z) ↦ absurd (ground (arith, x))
          | inl (x, up) ↦
              let p = up.local_ptr in
              let (c, y, z) = up.blob in
              let same_digest : up.remote.hash ≡ p.hash = up.remote_hash ∙ sym up.local_hash in
              let blob : HasBlob L p.hash t =
                subst (λ d. HasBlob L d t) same_digest (c, ap (lookup up.remote.hash) ec ∙ y, z) in
              let there : lookup (ptr_name name) t.ptrs ≡ some p =
                ap (lookup (ptr_name name)) ep ∙ ap (λ k. lookup k s'.ptrs) en ∙ up.recorded in
              let (t', ended, good) = pull_file_lem p none t blob in
              (
                t',
                good.file,
                rw there (elim ended [ inl (a, b) ↦ inl (ap some a, b) | inr a ↦ inr (ap some a) ]),
                subst (λ o. t'.files (in_project o) ≡ some good.file) up.local_path good.present,
                good.right_hash ∙ up.local_hash,
              )
        ]
