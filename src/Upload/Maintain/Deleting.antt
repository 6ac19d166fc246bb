-- ===== src/Upload/Maintain/Deleting.antt =====
-- A deletion in `cmd_ls`: what it leaves when the deleted blobs are shared, and when they are not.
use graph_extraction.Base.{
  ℕ, ◌≡◌, refl, sym, ◌∙◌, String, Bool, true, false, ◌||◌, Bool-cases, inl, inr, Option, none, some,
  List, [], ◌∷◌, str_eq, eq_iff, if◌then◌else◌, arith,
}
use graph_extraction.Base.Dict.{lookup, lookup-erase}
use graph_extraction.Upload.State.{
  Library, LocalPath, Ptr, pointer, Answer, File, State, ptr_path_for, original_path,
  remote_index_path,
}
use graph_extraction.Upload.Push.{
  confirmed, write_ptr, new_ptr, run, push_plan, push_file, digest_of, apply,
}
use graph_extraction.Upload.Push.Effects.{IsFresh, IsSound, digest_of-IsFresh}
use graph_extraction.Upload.Maintain.{fetch_ptrs, delete_remote, delete_all, ls_delete}
use graph_extraction.Upload.Maintain.Blobs.{fetch_ptrs-IsSound}

-- Whether one of the pointers to delete has a hash, and whether one stands at a path of the index.
unfoldable pub deletes_hash : String → List Ptr → Bool
deletes_hash digest [] = false
deletes_hash digest (p ∷ ps) = str_eq p.hash digest || deletes_hash digest ps

unfoldable pub deletes_path : String → List Ptr → Bool
deletes_path path [] = false
deletes_path path (p ∷ ps) = str_eq (remote_index_path p.original_path) path || deletes_path path ps

module _ (L : Library) (removable : String → Bool) where
  -- No pointer that stays shares its blob with one that goes.
  abbrev pub IsUnshared : List Ptr → State L → Type 0
  IsUnshared ps s =
      (path : String) (q : Ptr)
      → lookup path s.index ≡ some (pointer q)
      → deletes_path path ps ≡ false
      → deletes_hash q.hash ps ≡ false

  cache-delete_all :
      (digest : String) (ps : List Ptr) (s : State L)
      → lookup digest (delete_all L removable ps s).cache
        ≡ (if deletes_hash digest ps then none else lookup digest s.cache)
  unfolding delete_all delete_remote deletes_hash
  cache-delete_all digest [] s = refl
  cache-delete_all digest (p ∷ ps) s = ground (
    arith,
    cache-delete_all digest ps (delete_remote L removable p s),
    lookup-erase p.hash digest s.cache,
  )

  index-delete_all :
      (path : String) (ps : List Ptr) (s : State L)
      → lookup path (delete_all L removable ps s).index
        ≡ (if deletes_path path ps then none else lookup path s.index)
  unfolding delete_all delete_remote deletes_path
  index-delete_all path [] s = refl
  index-delete_all path (p ∷ ps) s = ground (
    arith,
    index-delete_all path ps (delete_remote L removable p s),
    lookup-erase (remote_index_path p.original_path) path s.index,
  )

  files-delete_all : (ps : List Ptr) (s : State L) → (delete_all L removable ps s).files ≡ s.files
  unfolding delete_all delete_remote
  files-delete_all [] s = refl
  files-delete_all (p ∷ ps) s = files-delete_all ps (delete_remote L removable p s)

  delete_all-IsSound :
      (ps : List Ptr) (s : State L)
      → IsUnshared ps s
      → IsSound L s
      → IsSound L (delete_all L removable ps s)
  delete_all-IsSound ps s u h = record {
    hashed = λ digest c x. elim (Bool-cases (deletes_hash digest ps)) [
      | inl t ↦ absurd (ground (arith, t, x, cache-delete_all digest ps s))
      | inr t ↦ h.hashed digest c (ground (arith, t, x, cache-delete_all digest ps s))
    ];
    backed = λ path q x. elim (Bool-cases (deletes_path path ps)) [
      | inl t ↦ absurd (ground (arith, t, x, index-delete_all path ps s))
      | inr t ↦
          let y : lookup path s.index ≡ some (pointer q) =
            ground (arith, t, x, index-delete_all path ps s) in
          let (c, z, e) = h.backed path q y in
          (c, ground (arith, u path q y t, z, cache-delete_all q.hash ps s), e)
    ];
  }

  -- A deletion in `cmd_ls` that both questions confirm, of pointers that share no blob with a
  -- pointer that stays, leaves a sound store sound. Of the blobs it takes just those that the
  -- pointers name, of the remote index just the pointers themselves, and of the files none.
  pub ls_delete_lem :
      (ps : List Ptr) (answers : List Answer) (s : State L)
      → confirmed answers ≡ true
      → IsUnshared ps (fetch_ptrs L removable s).1
      → IsSound L s
      → IsSound L (ls_delete L removable ps answers s)
        × ((digest : String)
            → lookup digest (ls_delete L removable ps answers s).cache
              ≡ (if deletes_hash digest ps then none else lookup digest s.cache))
        × ((path : String)
            → lookup path (ls_delete L removable ps answers s).index ≡ (
                if deletes_path path ps
                then none
                else lookup path (fetch_ptrs L removable s).1.index))
        × ((ls_delete L removable ps answers s).files ≡ s.files)
  unfolding ls_delete fetch_ptrs
  ls_delete_lem ps answers s e u h = rw e (
    delete_all-IsSound ps _ u (fetch_ptrs-IsSound L removable s h),
    λ digest. cache-delete_all digest ps _,
    λ path. index-delete_all path ps _,
    files-delete_all ps _,
  )

  matching_plan :
      (now : ℕ) (path : LocalPath) (virtual_path : Option String) (f : File L)
      (answers : List Answer) (q : Ptr) (s : State L)
      → digest_of L path virtual_path f s ≡ q.hash
      → lookup (remote_index_path (original_path path virtual_path)) s.index ≡ some (pointer q)
      → push_plan L now path virtual_path f false answers s ≡ record {
        effects =
            write_ptr (ptr_path_for path virtual_path) (
              new_ptr L now path virtual_path
                (digest_of L path virtual_path f s)
                (L.size f.content)
                f)
            ∷ [];
        uploaded = true;
      }
  unfolding push_plan
  matching_plan now path virtual_path f answers q s d x =
      let t : str_eq q.hash (digest_of L path virtual_path f s) ≡ true =
        (eq_iff q.hash (digest_of L path virtual_path f s)).1 (sym d) in
      rw (x, t) refl

  -- A push without force of a file whose hash the remote index has.
  matching_push :
      (now : ℕ) (path : LocalPath) (virtual_path : Option String) (f : File L)
      (answers : List Answer) (q : Ptr) (s : State L)
      → s.files path ≡ some f
      → digest_of L path virtual_path f s ≡ q.hash
      → lookup (remote_index_path (original_path path virtual_path)) s.index ≡ some (pointer q)
      → (s' : State L) × (push_file L now path virtual_path false answers s ≡ some (true, s'))
        × (s'.cache ≡ s.cache)
        × (s'.index ≡ s.index)
  unfolding push_file run apply
  matching_push now path virtual_path f answers q s e d x =
      let p =
        new_ptr L now path virtual_path (digest_of L path virtual_path f s) (L.size f.content) f in
      let w = write_ptr (ptr_path_for path virtual_path) p in
      let m = matching_plan now path virtual_path f answers q s d x in
      (run L (w ∷ []) s, rw (push_file, e, m) refl, refl, refl)

  -- A deletion in `cmd_ls` that both questions confirm, of pointers one of which has the hash of a
  -- pointer that stays in the index, leaves that pointer there and takes its blob away. A push
  -- without force of a local file with that hash to that pointer's path then counts as uploaded,
  -- whatever is answered, and the blob is still missing.
  pub push_file-ls_delete :
      (ps : List Ptr) (answers answers' : List Answer) (s : State L) (now : ℕ) (path : LocalPath)
      (virtual_path : Option String) (f : File L) (q : Ptr)
      → confirmed answers ≡ true
      → s.files path ≡ some f
      → lookup
          (remote_index_path (original_path path virtual_path))
          (fetch_ptrs L removable s).1.index
        ≡ some (pointer q)
      → deletes_path (remote_index_path (original_path path virtual_path)) ps ≡ false
      → deletes_hash q.hash ps ≡ true
      → q.hash ≡ L.hash f.content
      → IsFresh L path virtual_path f (ls_delete L removable ps answers s)
      → (s' : State L) × (push_file L now path virtual_path false answers'
            (ls_delete L removable ps answers s)
          ≡ some (true, s'))
        × (lookup (remote_index_path (original_path path virtual_path)) s'.index ≡ some (pointer q))
        × (lookup q.hash s'.cache ≡ none)
  push_file-ls_delete ps answers answers' s now path virtual_path f q e ef eq kept gone eh fresh =
      let t = ls_delete L removable ps answers s in
      let index_path = remote_index_path (original_path path virtual_path) in
      let there : lookup index_path t.index ≡ some (pointer q) =
        unfold ls_delete in rw (e, index-delete_all, kept) eq in
      let lost : lookup q.hash t.cache ≡ none =
        unfold ls_delete in rw (e, cache-delete_all, gone) in
      let same : t.files path ≡ some f =
        unfold ls_delete fetch_ptrs in rw (e, files-delete_all) ef in
      let (s', pushed, ec, ei) =
        matching_push now path virtual_path f answers' q t same
          (digest_of-IsFresh L path virtual_path f t fresh ∙ sym eh) there in
      (s', pushed, rw ei there, rw ec lost)
