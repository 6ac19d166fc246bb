-- ===== src/Upload/Push/Pointers.antt =====
-- The local pointers that `_push_file` writes, and the hashes that later pushes may reuse.
use graph_extraction.Base.{
  ℕ, ◌≡◌, ◌⊎◌, inl, inr, refl, sym, ap, ◌∙◌, subst, String, Bool, true, false, Bool-cases,
  Option-cases, Option, none, some, List, [], ◌∷◌, str_eq, eq_iff, if◌then◌else◌, arith, ◌==◌, All,
}
use graph_extraction.Base.Dict.{lookup, lookup-insert}
use graph_extraction.Upload.State.{
  Library, LocalPath, in_list, Ptr, Raw, pointer, corrupt, blank, macos_metadata, Answer, File,
  State, ptr_path_for, original_path, remote_index_path,
}
use graph_extraction.Upload.Push.{
  Effect, put_blob, write_ptr, write_index, apply, run, load_ptr, digest_of, upload_plan, push_plan,
  push_file, settle, against, Decision, decide_conflict, overwrite, skip, defer,
}
use graph_extraction.Upload.Push.Effects.{IsFresh, digest_of-IsFresh}

module _ (L : Library) where
  -- A blob that is there stays there, whatever is written.
  pub run-HasBlob :
      (es : List (Effect L)) (digest : String) (c : L.Content) (s : State L)
      → lookup digest s.cache ≡ some c
      → (c' : L.Content) × (lookup digest (run L es s).cache ≡ some c')
  unfolding run apply
  run-HasBlob [] digest c s e = (c, e)
  run-HasBlob (put_blob d b ∷ es) digest c s e = elim (Bool-cases (str_eq d digest)) [
    | inl t ↦ run-HasBlob es digest b (apply L (put_blob d b) s) (rw (lookup-insert, t) refl)
    | inr t ↦ run-HasBlob es digest c (apply L (put_blob d b) s) (rw (lookup-insert, t) e)
  ]
  run-HasBlob (write_ptr x p ∷ es) digest c s e =
      run-HasBlob es digest c (apply L (write_ptr x p) s) e
  run-HasBlob (write_index x p ∷ es) digest c s e =
      run-HasBlob es digest c (apply L (write_index x p) s) e

  module _ (path : LocalPath) (virtual_path : Option String) (f : File L) (digest : String) where
    -- The only pointers written are for this file.
    IsOwn : Effect L → Type 0
    IsOwn (put_blob d b) = Unit
    IsOwn (write_index x p) = Unit
    IsOwn (write_ptr x p) =
        (ptr_path_for path virtual_path ≡ x) × (p.hash ≡ digest) × (p.mtime ≡ f.mtime)

    run-ptrs :
        (es : List (Effect L)) (x : String) (r : Ptr) (s : State L)
        → All IsOwn es
        → lookup x (run L es s).ptrs ≡ some r
        → (lookup x s.ptrs ≡ some r)
          ⊎ (ptr_path_for path virtual_path ≡ x) × (r.hash ≡ digest) × (r.mtime ≡ f.mtime)
    unfolding run apply IsOwn
    run-ptrs [] x r s h e = inl e
    run-ptrs (put_blob d b ∷ es) x r s (u, h) e = run-ptrs es x r (apply L (put_blob d b) s) h e
    run-ptrs (write_index y p ∷ es) x r s (u, h) e =
        run-ptrs es x r (apply L (write_index y p) s) h e
    run-ptrs (write_ptr y p ∷ es) x r s ((a, b, c), h) e =
        elim (run-ptrs es x r (apply L (write_ptr y p) s) h e) [
          | inr z ↦ inr z
          | inl z ↦ elim (Bool-cases (str_eq y x)) [
            | inr t ↦ inl (rw (lookup-insert, t) at z)
            | inl t ↦
                let w : some p ≡ some r = rw (lookup-insert, t) at z in
                let q : p ≡ r = ground (arith, w) in
                inr (
                  a ∙ (eq_iff y x).0 t,
                  subst (λ k. k.hash ≡ digest) q b,
                  subst (λ k. k.mtime ≡ f.mtime) q c,
                )
          ]
        ]

    module _ (now : ℕ) (s : State L) where
      upload_plan-IsOwn : All IsOwn (upload_plan L now path virtual_path f digest s).effects
      unfolding upload_plan IsOwn
      upload_plan-IsOwn = elim (Option-cases (lookup digest s.cache)) [
        | inl e ↦ rw e (tt, ((refl, refl, refl), (tt, tt)))
        | inr (c, e) ↦ rw e ((refl, refl, refl), (tt, tt))
      ]

      settle-IsOwn :
          (d : Decision) → All IsOwn (settle L now path virtual_path f d digest s).effects
      unfolding IsOwn
      settle-IsOwn overwrite = upload_plan-IsOwn
      settle-IsOwn skip = tt
      settle-IsOwn defer = ((refl, refl, refl), tt)

      against-IsOwn :
          (o : Option Raw) (answers : List Answer)
          → All IsOwn (against L now path virtual_path f o answers digest s).effects
      unfolding IsOwn
      against-IsOwn (some (pointer p)) answers = elim (Bool-cases (str_eq p.hash digest)) [
        | inl t ↦ rw t ((refl, refl, refl), tt)
        | inr t ↦ rw t (settle-IsOwn (decide_conflict answers))
      ]
      against-IsOwn (some corrupt) answers = upload_plan-IsOwn
      against-IsOwn (some blank) answers = upload_plan-IsOwn
      against-IsOwn (some macos_metadata) answers = upload_plan-IsOwn
      against-IsOwn none answers = upload_plan-IsOwn

  push_plan-IsOwn :
      (now : ℕ) (path : LocalPath) (virtual_path : Option String) (f : File L) (force : Bool)
      (answers : List Answer) (s : State L)
      → All
          (IsOwn path virtual_path f (digest_of L path virtual_path f s))
          (push_plan L now path virtual_path f force answers s).effects
  unfolding push_plan
  push_plan-IsOwn now path virtual_path f true answers s =
      upload_plan-IsOwn path virtual_path f _ now s
  push_plan-IsOwn now path virtual_path f false answers s =
      against-IsOwn path virtual_path f (digest_of L path virtual_path f s) now s
        (lookup (remote_index_path (original_path path virtual_path)) s.index) answers

  module _ (now : ℕ) (virtual_path : Option String) (force : Bool)
      (answers : LocalPath → List Answer) where
    -- Every pointer by which one of the files would reuse a hash was written for its content.
    abbrev pub AllFresh : List LocalPath → State L → Type 0
    AllFresh paths s =
        (q : LocalPath) (g : File L)
        → in_list q paths ≡ true
        → s.files q ≡ some g
        → IsFresh L q virtual_path g s

    -- Files that share a pointer and a time share their content's hash.
    abbrev pub IsApart : List LocalPath → State L → Type 0
    IsApart paths s =
        (p q : LocalPath) (f g : File L)
        → in_list p paths ≡ true
        → in_list q paths ≡ true
        → s.files p ≡ some f
        → s.files q ≡ some g
        → ptr_path_for p virtual_path ≡ ptr_path_for q virtual_path
        → f.mtime ≡ g.mtime
        → L.hash f.content ≡ L.hash g.content

    pub push_file_present :
        (path : LocalPath) (f : File L) (a : List Answer) (s : State L)
        → s.files path ≡ some f
        → push_file L now path virtual_path force a s
          ≡ some (
            (push_plan L now path virtual_path f force a s).uploaded,
            run L (push_plan L now path virtual_path f force a s).effects s,
          )
    unfolding push_file
    push_file_present path f a s e = rw (push_file, e) refl

    pub push_file_missing :
        (path : LocalPath) (a : List Answer) (s : State L)
        → s.files path ≡ none
        → push_file L now path virtual_path force a s ≡ none
    unfolding push_file
    push_file_missing path a s e = rw (push_file, e) refl

    load_ptr_found :
        (q : LocalPath) (g : File L) (s : State L) (r : Ptr)
        → load_ptr L q virtual_path g s ≡ some r
        → (lookup (ptr_path_for q virtual_path) s.ptrs ≡ some r) × (r.mtime ≡ g.mtime)
    unfolding load_ptr
    load_ptr_found q g s r e = elim (Option-cases (lookup (ptr_path_for q virtual_path) s.ptrs)) [
      | inl x ↦ absurd (ground (arith, rw x at e))
      | inr (p, x) ↦
          let y : (if p.mtime == g.mtime then some p else none) ≡ some r = rw x at e in
          let z : p ≡ r = ground (arith, y) in
          let m : p.mtime ≡ g.mtime = ground (arith, y) in
          (x ∙ ap some z, subst (λ k. k.mtime ≡ g.mtime) z m)
    ]

    found_load_ptr :
        (q : LocalPath) (g : File L) (s : State L) (r : Ptr)
        → lookup (ptr_path_for q virtual_path) s.ptrs ≡ some r
        → r.mtime ≡ g.mtime
        → load_ptr L q virtual_path g s ≡ some r
    unfolding load_ptr
    found_load_ptr q g s r e m = rw e (ground (arith, m))

    -- After the push of one of the files, the store is still fit for the others.
    pub push_file-AllFresh :
        (paths : List LocalPath) (path : LocalPath) (f : File L) (a : List Answer) (s s' : State L)
        → in_list path paths ≡ true
        → s.files path ≡ some f
        → s'.files ≡ s.files
        → run L (push_plan L now path virtual_path f force a s).effects s ≡ s'
        → IsApart paths s
        → AllFresh paths s
        → AllFresh paths s'
    push_file-AllFresh paths path f a s s' i e same w apart fresh q g j eg r er =
        let (x, m) = load_ptr_found q g s' r er in
        let eg' : s.files q ≡ some g = rw same at eg in
        let x' =
          subst (λ (t : State L). lookup (ptr_path_for q virtual_path) t.ptrs ≡ some r) (sym w) x in
        elim (run-ptrs path virtual_path f (digest_of L path virtual_path f s) _ _ r s
          (push_plan-IsOwn now path virtual_path f force a s) x') [
            | inl y ↦ fresh q g j eg' r (found_load_ptr q g s r y m)
            | inr (k, d, mf) ↦
                d
                ∙ digest_of-IsFresh L path virtual_path f s (fresh path f i e)
                ∙ apart path q f g i j e eg' k (sym mf ∙ m)
          ]
