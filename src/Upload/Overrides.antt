-- ===== src/Upload/Overrides.antt =====
-- `cmd_apply_overrides`: the pushes that a conflict has put off, with force.
use graph_extraction.Base.{
  ℕ, ◌≡◌, refl, sym, ap, ◌∙◌, subst, Bool, true, false, ◌&&◌, Bool-cases, Option-cases, inl, inr,
  Option, none, some, List, [], ◌∷◌, if◌then◌else◌, arith,
}
use graph_extraction.Base.Dict.{Dict}
use graph_extraction.Upload.State.{
  Library, LocalPath, same_local, same_local_eq, in_list, in_project, Ptr, Answer, File, State,
}
use graph_extraction.Upload.Push.{
  Effect, put_blob, write_ptr, write_index, run, apply, confirmed, push_plan, push_files,
}
use graph_extraction.Upload.Push.Effects.{HasBlob, IsSound}
use graph_extraction.Upload.Push.Outcomes.{forced_uploads}
use graph_extraction.Upload.Push.Pointers.{AllFresh, IsApart, push_file_present, push_file_missing}
use graph_extraction.Upload.Push.Commands.{push_files_lem}

abbrev is_present : {A : Type 0} → Option A → Bool
is_present none = false
is_present (some x) = true

module _ (L : Library) where
  -- The files of the pointers that are marked, as far as they are there.
  unfoldable pub pending : Dict Ptr → State L → List LocalPath
  pending [] s = []
  pending ((path, p) ∷ ptrs) s =
      let rest = pending ptrs s in
      if p.override && is_present (s.files (in_project p.original_path))
      then in_project p.original_path ∷ rest
      else rest

  unfoldable pub cmd_apply_overrides : ℕ → List Answer → State L → State L
  unfolding pending push_files confirmed
  cmd_apply_overrides now answers s =
      if confirmed answers
      then (push_files L now none true (λ q. []) (pending s.ptrs s) s).state
      else s

  run-files : (es : List (Effect L)) (s : State L) → (run L es s).files ≡ s.files
  unfolding run apply
  run-files [] s = refl
  run-files (put_blob d c ∷ es) s = run-files es (apply L (put_blob d c) s)
  run-files (write_ptr x p ∷ es) s = run-files es (apply L (write_ptr x p) s)
  run-files (write_index x p ∷ es) s = run-files es (apply L (write_index x p) s)

  -- With force, every file that is there counts as uploaded.
  forced_files :
      (now : ℕ) (paths : List LocalPath) (q : LocalPath) (f : File L) (s : State L)
      → in_list q paths ≡ true
      → s.files q ≡ some f
      → in_list q (push_files L now none true (λ q. []) paths s).uploaded ≡ true
  unfolding in_list push_files
  forced_files now [] q f s i e = absurd (ground (arith, i))
  forced_files now (p ∷ paths) q f s i e = elim (Option-cases (s.files p)) [
    | inl x ↦ elim (Bool-cases (same_local p q)) [
      | inl t ↦
          let y : s.files q ≡ none = subst (λ k. s.files k ≡ none) (same_local_eq p q t) x in
          absurd (ground (arith, y, e))
      | inr t ↦
          rw (push_file_missing L now none true (λ q. []) p [] s x)
            (forced_files now paths q f s (rw t at i) e)
    ]
    | inr (g, x) ↦
        let es = (push_plan L now p none g true [] s).effects in
        let u = forced_uploads L now p none g s true [] true refl in
        rw (push_file_present L now none true (λ q. []) p g [] s x, u)
          (elim (Bool-cases (same_local p q)) [
            | inl t ↦ rw t refl
            | inr t ↦ rw t (
                forced_files now paths q f (run L es s) (rw t at i)
                  (ap (λ fs. fs q) (run-files es s) ∙ e))
          ])
  ]

  -- `cmd_apply_overrides` that both questions confirm, from a sound store in which the hashes that
  -- the pending files may reuse are right and files with one pointer and one time have one hash,
  -- ends in a sound store, leaves every file as it was, and the cache has a blob with the hash of
  -- every pending file's content.
  pub cmd_apply_overrides_lem :
      (now : ℕ) (answers : List Answer) (s : State L)
      → confirmed answers ≡ true
      → IsApart L now none true (λ q. []) (pending s.ptrs s) s
      → AllFresh L now none true (λ q. []) (pending s.ptrs s) s
      → IsSound L s
      → IsSound L (cmd_apply_overrides now answers s)
        × ((cmd_apply_overrides now answers s).files ≡ s.files)
        × ((q : LocalPath) (f : File L)
            → in_list q (pending s.ptrs s) ≡ true
            → s.files q ≡ some f
            → HasBlob L (L.hash f.content) (cmd_apply_overrides now answers s))
  unfolding cmd_apply_overrides
  cmd_apply_overrides_lem now answers s e apart fresh h =
      let paths = pending s.ptrs s in
      let r = push_files_lem L now none true (λ q. []) paths paths s (λ q j. j) apart fresh h in
      rw e (
        r.sound,
        r.same_files,
        λ q f i x.
            let (a, (g, y, b)) = r.stored q (forced_files now paths q f s i x) in
            let same : some g ≡ some f = sym y ∙ x in
            let eq : g ≡ f = ground (arith, same) in
            subst
              (λ (k : File L).
                HasBlob L (L.hash k.content) (push_files L now none true (λ q. []) paths s).state)
              eq b,
      )
