-- ===== src/NodeRelay/Laws.antt =====
-- What a push and a pull leave on the file system, whether they succeed or fail.
use graph_extraction.Base.{
  ℕ, ◌≡◌, ◌↔◌, ◌&&◌, Bool, true, false, none, some, Bool-cases, inl, inr, if◌then◌else◌, arith,
}
use graph_extraction.NodeRelay.{
  scratch, project, FilePath, under, same_path, FileSystem, exists, local_path, Error,
  called_process_error, file_not_found, ok, raised, Rsync, IsCopy, staging_path, remote_exists,
  push, ensure_local,
}

module _ {F : Type 0} (rsync : Rsync F) (C : IsCopy rsync) where
  -- A push that succeeds: the staged file is the local one, which is gone exactly if `auto_delete`
  -- is set, and no other file has changed.
  pub push-ok :
      (l v : ℕ) (auto_delete : Bool) (fs fs' : FileSystem F)
      → push rsync (under scratch l) v auto_delete fs ≡ ok tt fs'
      → (f : F) × (fs (under scratch l) ≡ some f)
        × (fs' (staging_path v) ≡ some f)
        × (fs' (under scratch l) ≡ (if auto_delete then none else some f))
        × ((q : FilePath)
            → q.temporary ≡ false
            → same_path (staging_path v) q ≡ false
            → same_path (under scratch l) q ≡ false
            → fs' q ≡ fs q)
  unfolding push same_path
  push-ok l v auto_delete fs fs' h = elim (Bool-cases (rsync (fs (under scratch l))).success) [
    | inl s ↦
        let (f, x, y) = C.copied (fs (under scratch l)) s in
        (f, x, ground (arith, s, y), ground (arith, s, y, x), λ q t a b. ground (arith, s))
    | inr s ↦ absurd (ground (arith, s))
  ]

  -- A push that fails has changed no file but the temporary one: whatever was staged before is
  -- still whole, and the local file is there.
  pub push-raised :
      (l v : ℕ) (auto_delete : Bool) (fs fs' : FileSystem F) (e : Error)
      → push rsync (under scratch l) v auto_delete fs ≡ raised e fs'
      → (e ≡ called_process_error) × ((q : FilePath) → q.temporary ≡ false → fs' q ≡ fs q)
  unfolding push same_path
  push-raised l v auto_delete fs fs' e h =
      elim (Bool-cases (rsync (fs (under scratch l))).success) [
        | inl s ↦ absurd (ground (arith, s))
        | inr s ↦ (ground (arith, s), λ q t. ground (arith, s))
      ]

  -- When `ensure_local` returns a path, a file is there: the local one if there was one, else
  -- the project's, else the staged one.
  pub ensure_local-ok :
      (v : ℕ) (dest_dir : Bool) (fs fs' : FileSystem F) (p : FilePath)
      → ensure_local rsync v dest_dir fs ≡ ok p fs'
      → fs' p ≡ (
          if exists (fs (local_path dest_dir v))
          then fs (local_path dest_dir v)
          else if dest_dir && exists (fs (under project v))
          then fs (under project v)
          else fs (staging_path v))
  unfolding ensure_local same_path
  ensure_local-ok v true fs fs' p h = elim (Bool-cases (rsync (fs (staging_path v))).success) [
    | inl s ↦ let (f, x, y) = C.copied (fs (staging_path v)) s in ground (arith, s, y, x)
    | inr s ↦ ground (arith, s)
  ]
  ensure_local-ok v false fs fs' p h = elim (Bool-cases (rsync (fs (staging_path v))).success) [
    | inl s ↦ let (f, x, y) = C.copied (fs (staging_path v)) s in ground (arith, s, y, x)
    | inr s ↦ ground (arith, s)
  ]

  -- It reports a missing file exactly when the file is in none of the places it looks at.
  pub ensure_local-file_not_found :
      (v : ℕ) (dest_dir : Bool) (fs : FileSystem F)
      → (ensure_local rsync v dest_dir fs ≡ raised file_not_found fs) ↔ (
          (exists (fs (local_path dest_dir v)) ≡ false)
          × ((dest_dir && exists (fs (under project v))) ≡ false)
          × (remote_exists v fs ≡ false))
  unfolding ensure_local
  ensure_local-file_not_found v dest_dir fs = (λ h. ground (arith, h), λ h. ground (arith, h))

  -- A file pushed from one node is pulled with the same content on another, whose scratch and
  -- project have no copy of it: the staging area is all that the two file systems share.
  pub ensure_local-push :
      (l v : ℕ) (auto_delete dest_dir : Bool) (fs fs' there there' : FileSystem F) (p : FilePath)
      → push rsync (under scratch l) v auto_delete fs ≡ ok tt fs'
      → there (staging_path v) ≡ fs' (staging_path v)
      → there (under scratch v) ≡ none
      → there (under project v) ≡ none
      → ensure_local rsync v dest_dir there ≡ ok p there'
      → there' p ≡ fs (under scratch l)
  ensure_local-push l v auto_delete dest_dir fs fs' there there' p h shared a b q =
      let (f, x, y, left, others) = push-ok l v auto_delete fs fs' h in
      ground (arith, ensure_local-ok v dest_dir there there' p q, x, y)
