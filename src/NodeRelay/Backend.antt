-- ===== src/NodeRelay/Backend.antt =====
-- The relay as a backend of the writer and the loader.
use mathlib.Core.Path.{fun_ext}
use graph_extraction.Base.{
  ℕ, ◌&&◌, ◌≡◌, refl, sym, ap, ◌∙◌, Bool, true, false, Option, none, some, Bool-cases, inl, inr,
  if◌then◌else◌, ◌==◌, arith,
}
use graph_extraction.Base.Dict.{Files, update, update_self}
use graph_extraction.Writer.Transport.{Disk, uploaded, Transport, IsBackend}
use graph_extraction.NodeRelay.Laws.{push-ok}
use graph_extraction.NodeRelay.{
  Root, scratch, project, staging, FilePath, under, same_path, FileSystem, Outcome, ok, raised,
  Rsync, IsCopy, push, ensure_local,
}

-- Copying a file that is there succeeds. The loader needs it; the writer does not.
pub record IsAvailable {F : Type 0} (rsync : Rsync F) : Type 0 where
  pub succeeds : (f : F) → ((rsync (some f)).success ≡ true) × ((rsync (some f)).left ≡ some f)

module _ {F : Type 0} where
  -- The file system that the writer's disk is a part of, with the copies in the project's tree and
  -- no temporary file.
  abbrev at_root : Files F → Disk F → Root → ℕ → Option F
  at_root copies d scratch v = d.scratch v
  at_root copies d project v = copies v
  at_root copies d staging v = d.store v

  abbrev unless : Bool → Option F → Option F
  unless true o = none
  unless false o = o

  abbrev files_of : Files F → Disk F → FileSystem F
  files_of copies d p = unless p.temporary (at_root copies d p.root p.virtual_path)

  abbrev disk_of : FileSystem F → Disk F
  disk_of fs = record { scratch = λ v. fs (under scratch v); store = λ v. fs (under staging v) }

  abbrev disk_after : {A : Type 0} → Outcome F A → Option (Disk F)
  disk_after (ok a fs) = some (disk_of fs)
  disk_after (raised e fs) = none

  -- What is read at the path that `ensure_local` returns.
  abbrev read_at : Option F → Disk F → Option (F × Disk F)
  read_at none d = none
  read_at (some f) d = some (f, d)

  abbrev file_after : Outcome F FilePath → Option (F × Disk F)
  file_after (ok p fs) = read_at (fs p) (disk_of fs)
  file_after (raised e fs) = none

  -- `submit` and `result` of the relay's `AsyncPusher`, with the `rsync` run of each upload; and the
  -- relay's `ensure_local` with scratch as `dest_dir`.
  unfoldable pub relay : Files F → (ℕ → Rsync F) → Rsync F → Transport F
  unfolding push ensure_local
  relay copies runs pull = record {
    push = λ ticket force auto_delete l v d.
        disk_after (push (runs ticket) (under scratch l) v auto_delete (files_of copies d));
    ensure_local = λ v d. file_after (ensure_local pull v true (files_of copies d));
  }

module _ {F : Type 0} where
  disk_after-some :
      {A : Type 0} (r : Outcome F A) (d' : Disk F)
      → disk_after r ≡ some d'
      → (a : A) × (fs : FileSystem F) × (r ≡ ok a fs) × (d' ≡ disk_of fs)
  disk_after-some (ok a fs) d' h = (a, fs, refl, ground arith)
  disk_after-some (raised e fs) d' h = absurd (ground arith)

  own_file :
      (auto_delete : Bool) (l : ℕ) (d : Disk F) (f : F)
      → d.scratch l ≡ some f
      → (if auto_delete then none else some f)
        ≡ (if auto_delete then update d.scratch l none else d.scratch) l
  own_file true l d f x = sym (update_self d.scratch l l none refl)
  own_file false l d f x = sym x

  other_file :
      (auto_delete : Bool) (l j : ℕ) (d : Disk F)
      → (l == j) ≡ false
      → d.scratch j ≡ (if auto_delete then update d.scratch l none else d.scratch) j
  other_file true l j d e = rw e
  other_file false l j d e = refl

  module _ (copies : Files F) (runs : ℕ → Rsync F) (pull : Rsync F)
      (C : (n : ℕ) → IsCopy (runs n)) where
    relay_push-some :
        (ticket : ℕ) (force auto_delete : Bool) (l v : ℕ) (d d' : Disk F)
        → (relay copies runs pull).push ticket force auto_delete l v d ≡ some d'
        → (f : F) × (d.scratch l ≡ some f) × (d' ≡ uploaded auto_delete l v f d)
    unfolding relay same_path
    relay_push-some ticket force auto_delete l v d d' h =
        let (a, fs, p, q) = disk_after-some _ d' h in
        let (f, x, y, left, others) =
          push-ok (runs ticket) (C ticket) l v auto_delete (files_of copies d) fs p in
        let on_scratch : (j : ℕ) → fs (under scratch j) ≡ (uploaded auto_delete l v f d).scratch j =
          λ j. elim (Bool-cases (l == j)) [
            | inl e ↦
                let k : j ≡ l = ground arith in
                ap (λ i. fs (under scratch i)) k
                ∙ left
                ∙ own_file auto_delete l d f x
                ∙ ap (uploaded auto_delete l v f d).scratch (sym k)
            | inr e ↦ others (under scratch j) refl refl (rw e) ∙ other_file auto_delete l j d e
          ] in
        let in_store : (j : ℕ) → fs (under staging j) ≡ (uploaded auto_delete l v f d).store j =
          λ j. elim (Bool-cases (v == j)) [
            | inl e ↦ let k : j ≡ v = ground arith in rw e (ap (λ i. fs (under staging i)) k ∙ y)
            | inr e ↦ rw e (others (under staging j) refl (rw e) refl)
          ] in
        (f, x, q ∙ λ i. record { scratch = fun_ext on_scratch i; store = fun_ext in_store i })

    ensure_local_here :
        (v : ℕ) (d : Disk F) (f : F)
        → d.scratch v ≡ some f
        → (relay copies runs pull).ensure_local v d ≡ some (f, d)
    unfolding relay
    ensure_local_here v d f e = rw e (ap (λ o. read_at o d) e)

    ensure_local_copy :
        (v : ℕ) (d : Disk F) (f : F)
        → d.scratch v ≡ none
        → copies v ≡ some f
        → (relay copies runs pull).ensure_local v d ≡ some (f, d)
    unfolding relay
    ensure_local_copy v d f e x = rw (e, x) (ap (λ o. read_at o d) x)

    ensure_local_nowhere :
        (v : ℕ) (d : Disk F)
        → d.scratch v ≡ none
        → copies v ≡ none
        → d.store v ≡ none
        → (relay copies runs pull).ensure_local v d ≡ none
    unfolding relay
    ensure_local_nowhere v d e x y = rw (e, x, y) refl

    module _ (A : IsAvailable pull) where
      pull_staged :
          (v : ℕ) (d : Disk F) (f : F)
          → d.scratch v ≡ none
          → copies v ≡ none
          → d.store v ≡ some f
          → (relay copies runs pull).ensure_local v d
            ≡ some (f, record d { scratch = update d.scratch v (some f) })
      unfolding relay same_path
      pull_staged v d f e c x =
          let same : (v == v) ≡ true = ground arith in
          rw (e, c, x, (A.succeeds f).0, (A.succeeds f).1, same)
            (ap (λ (b : Disk F). some (f, b))
              (λ i. record { scratch = fun_ext at_scratch i; store = d.store }))
        where
          at_scratch :
              (j : ℕ)
              → (if (v == j) && false
                  then none
                  else if (v == j) && true
                  then some f
                  else if (v == j) && false
                  then some f
                  else d.scratch j)
                ≡ (if v == j then some f else d.scratch j)
          at_scratch j = ground arith

      -- The relay is a backend, if a zero exit status means a copy and a pull of a staged file
      -- succeeds. An upload that ends well has put the file of scratch into staging, and has taken
      -- it off scratch if that was asked. The loader gets the copy on scratch, or else the one in
      -- the project's tree, or else the staged one, which is then on scratch; and it fails where
      -- there is none.
      pub relay-IsBackend : IsBackend copies (relay copies runs pull)
      relay-IsBackend = record {
        push-some = relay_push-some;
        ensure_local_present = ensure_local_here;
        ensure_local_copied = ensure_local_copy;
        ensure_local_pulled = pull_staged;
        ensure_local_missing = ensure_local_nowhere;
      }
