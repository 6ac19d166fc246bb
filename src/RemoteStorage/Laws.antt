-- ===== src/RemoteStorage/Laws.antt =====
-- What `ensure_local` hands out, and what a `push` in conflict with the server does.
use graph_extraction.Base.{
  ℕ, ◌≡◌, ◌≢◌, ◌⊎◌, refl, sym, ap, subst, String, Bool, true, false, Bool-cases, inl, inr, Option,
  none, some, [], ◌∷◌, str_eq, eq_iff, arith,
}
use graph_extraction.Base.Dict.{lookup, insert}
use graph_extraction.Upload.State.{
  Library, LocalPath, in_project, ptr_name, Ptr, pointer, File, State, ptr_path_for, original_path,
  remote_index_path, remove_files,
}
use graph_extraction.Upload.Push.{
  run, apply, write_ptr, override_ptr, decide_conflict, push_plan, push_file, push_files, files_of,
  digest_of, cmd_push, returned, can_start,
}
use graph_extraction.Upload.Push.Effects.{HasBlob, IsFresh, digest_of-IsFresh}
use graph_extraction.Upload.Pull.{whole, destination}
use graph_extraction.Upload.Pull.Laws.{pull_file_lem}
use graph_extraction.RemoteStorage.{
  located, matches_known_size, is_usable, local_path, pull_to, fetch, nfs_copy, ensure_local, push,
  push_worker,
}

module _ (L : Library) (now mtime : ℕ) where
  -- A pull of a pointer that has its blob hands out a file with the pointer's hash.
  pull_to_lem :
      (virtual_path : String) (dest_dir : Option String) (p : Ptr) (s : State L)
      → p.original_path ≡ virtual_path
      → HasBlob L p.hash s
      → (q : LocalPath) × (s' : State L) × (g : File L) × (pull_to L now mtime whole virtual_path
            dest_dir p s
          ≡ located q s')
        × (s'.files q ≡ some g)
        × (L.hash g.content ≡ p.hash)
  pull_to_lem virtual_path dest_dir p s e blob =
      let (s', ended, good) = pull_file_lem L now mtime p dest_dir s blob in
      (
        local_path L virtual_path dest_dir,
        s',
        good.file,
        elim ended [ inl (a, b) ↦ rw a refl | inr a ↦ rw a refl ],
        subst (λ q. s'.files q ≡ some good.file) (same dest_dir) good.present,
        good.right_hash,
      )
    where
      same : (d : Option String) → destination L d p ≡ local_path L virtual_path d
      same none = ap in_project e
      same (some dir) = ap (λ r. record { dir = dir; rel = r }) e

  -- The pointer that `ensure_local` goes by: the local one, or else the one of the remote index.
  abbrev pub IsKnown : String → Ptr → State L → Type 0
  IsKnown virtual_path p s =
      (lookup (ptr_name virtual_path) s.ptrs ≡ some p)
      ⊎ (lookup (ptr_name virtual_path) s.ptrs ≡ none)
        × (lookup (remote_index_path virtual_path) s.index ≡ some (pointer p))

  usable_file :
      (virtual_path : String) (o : Option (File L)) (s : State L)
      → is_usable L virtual_path o s ≡ true
      → (g : File L) × (o ≡ some g) × (matches_known_size L virtual_path g s ≡ true)
  usable_file virtual_path none s h = absurd (ground (arith, h))
  usable_file virtual_path (some g) s h = (g, refl, h)

  nfs_copy_file :
      (virtual_path : String) (dest_dir : Option String) (g : File L) (s : State L)
      → nfs_copy L now mtime whole virtual_path dest_dir s ≡ some g
      → s.files (in_project virtual_path) ≡ some g
  nfs_copy_file virtual_path none g s h = absurd (ground (arith, h))
  nfs_copy_file virtual_path (some d) g s h = h

  fetch_lem :
      (virtual_path : String) (dest_dir : Option String) (p : Ptr) (s : State L)
      → IsKnown virtual_path p s
      → p.original_path ≡ virtual_path
      → HasBlob L p.hash s
      → (q : LocalPath) × (s' : State L) × (g : File L) × (fetch L now mtime whole virtual_path
            dest_dir
            (lookup (ptr_name virtual_path) s.ptrs)
            s
          ≡ located q s')
        × (s'.files q ≡ some g)
        × (L.hash g.content ≡ p.hash)
  fetch_lem virtual_path dest_dir p s (inl k) e blob =
      rw k (pull_to_lem virtual_path dest_dir p s e blob)
  fetch_lem virtual_path dest_dir p s (inr (k, x)) e blob =
      rw (k, x)
        (pull_to_lem virtual_path dest_dir p
          (record s { ptrs = insert (ptr_name virtual_path) p s.ptrs }) e blob)

  -- If there is a pointer for a path, at hand or in the remote index, that is for this path and has
  -- its blob, `ensure_local` with a server that does not break off hands out a file that is there.
  -- Either it has downloaded it or found it by its hash, and the file has the pointer's hash; or it
  -- has done nothing, and the size of the file is the one that the local pointer records, if there
  -- is a local pointer.
  pub ensure_local_lem :
      (virtual_path : String) (dest_dir : Option String) (p : Ptr) (s : State L)
      → IsKnown virtual_path p s
      → p.original_path ≡ virtual_path
      → HasBlob L p.hash s
      → (q : LocalPath) × (s' : State L) × (g : File L) × (ensure_local L now mtime whole
            virtual_path dest_dir s
          ≡ located q s')
        × (s'.files q ≡ some g)
        × ((L.hash g.content ≡ p.hash) ⊎ (s' ≡ s) × (matches_known_size L virtual_path g s ≡ true))
  unfolding ensure_local
  ensure_local_lem virtual_path dest_dir p s known e blob =
      let path = local_path L virtual_path dest_dir in
      elim (Bool-cases (is_usable L virtual_path (s.files path) s)) [
        | inl t ↦
            let (g, x, m) = usable_file virtual_path (s.files path) s t in
            (path, s, g, rw t refl, x, inr (refl, m))
        | inr t ↦
            elim (Bool-cases
              (is_usable L virtual_path (nfs_copy L now mtime whole virtual_path dest_dir s) s)) [
                | inl u ↦
                    let (g, x, m) =
                      usable_file virtual_path (nfs_copy L now mtime whole virtual_path dest_dir s)
                        s u in
                    (
                      in_project virtual_path,
                      s,
                      g,
                      rw (t, u) refl,
                      nfs_copy_file virtual_path dest_dir g s x,
                      inr (refl, m),
                    )
                | inr u ↦
                    let (q, s', g, x, y, z) = fetch_lem virtual_path dest_dir p s known e blob in
                    (q, s', g, rw (t, u) x, y, inl z)
              ]
      ]

module _ (L : Library) where
  conflict_plan :
      (now : ℕ) (path : LocalPath) (virtual_path : Option String) (f : File L) (q : Ptr)
      (s : State L)
      → lookup (remote_index_path (original_path path virtual_path)) s.index ≡ some (pointer q)
      → q.hash ≢ digest_of L path virtual_path f s
      → push_plan L now path virtual_path f false [] s ≡ record {
        effects =
            write_ptr
              (ptr_path_for path virtual_path)
              (override_ptr L path virtual_path (digest_of L path virtual_path f s) f)
            ∷ [];
        uploaded = false;
      }
  unfolding push_plan decide_conflict
  conflict_plan now path virtual_path f q s x h =
      elim (Bool-cases (str_eq q.hash (digest_of L path virtual_path f s))) [
        | inl t ↦ absurd (h ((eq_iff q.hash (digest_of L path virtual_path f s)).0 t))
        | inr t ↦ rw (x, t) refl
      ]

  conflict_push :
      (now : ℕ) (path : LocalPath) (virtual_path : Option String) (f : File L) (q : Ptr)
      (s : State L)
      → s.files path ≡ some f
      → lookup (remote_index_path (original_path path virtual_path)) s.index ≡ some (pointer q)
      → q.hash ≢ digest_of L path virtual_path f s
      → push_file L now path virtual_path false [] s
        ≡ some (
          false,
          run L
              (write_ptr
                  (ptr_path_for path virtual_path)
                  (override_ptr L path virtual_path (digest_of L path virtual_path f s) f)
                ∷ [])
              s,
        )
  unfolding push_file
  conflict_push now path virtual_path f q s e x h =
      rw (push_file, e, conflict_plan now path virtual_path f q s x h) refl

  -- A push by a worker without force, of a file that is there, for which a local pointer that the
  -- push may reuse has the hash of its content, and for whose path the remote index has a pointer
  -- with another hash, returns and does not raise, with `auto_delete` or without: the remote store,
  -- and every local file, stays as it was.
  pub push_worker-conflict :
      (now : ℕ) (path : LocalPath) (auto_delete : Bool) (virtual_path : Option String) (f : File L)
      (q : Ptr) (s : State L)
      → s.files path ≡ some f
      → IsFresh L path virtual_path f s
      → lookup (remote_index_path (original_path path virtual_path)) s.index ≡ some (pointer q)
      → q.hash ≢ L.hash f.content
      → (s' : State L) × (push_worker L now path auto_delete virtual_path false s ≡ returned s')
        × (s'.cache ≡ s.cache)
        × (s'.index ≡ s.index)
        × (s'.files ≡ s.files)
  unfolding push_worker push cmd_push can_start push_files files_of remove_files run apply
  push_worker-conflict now path auto_delete virtual_path f q s e fresh x h =
      let differs : q.hash ≢ digest_of L path virtual_path f s =
        subst (λ d. q.hash ≢ d) (sym (digest_of-IsFresh L path virtual_path f s fresh)) h in
      let pushed = conflict_push now path virtual_path f q s e x differs in
      let w =
        write_ptr (ptr_path_for path virtual_path)
          (override_ptr L path virtual_path (digest_of L path virtual_path f s) f) in
      elim (Bool-cases auto_delete) [
        | inl t ↦ (run L (w ∷ []) s, rw (e, pushed, t) refl, refl, refl, refl)
        | inr t ↦ (run L (w ∷ []) s, rw (e, pushed, t) refl, refl, refl, refl)
      ]
