-- ===== src/Upload/Push/Effects.antt =====
-- The writes of a push in `_push_file`, one by one, and the soundness of the store.
use graph_extraction.Base.{
  ℕ, ◌≡◌, inl, inr, refl, sym, ap, ◌∙◌, subst, String, Bool, true, false, Bool-cases, Option-cases,
  Option, none, some, List, [], ◌∷◌, take, str_eq, eq_iff, arith, zero, suc,
}
use graph_extraction.Base.Dict.{lookup, lookup-insert}
use graph_extraction.Upload.State.{
  Library, LocalPath, Ptr, Raw, pointer, corrupt, blank, macos_metadata, Answer, File, State,
  set_file, remove_files, ptr_path_for, original_path, remote_index_path,
}
use graph_extraction.Upload.Push.{
  put_blob, write_ptr, write_index, apply, run, load_ptr, digest_of, new_ptr, upload_plan,
  push_plan, settle, against, Decision, decide_conflict, overwrite, skip, defer,
}

module _ (L : Library) where
  -- The cache holds, under a digest, a content with that digest.
  abbrev pub HasBlob : String → State L → Type 0
  HasBlob digest s = (c : L.Content) × (lookup digest s.cache ≡ some c) × (L.hash c ≡ digest)

  -- Every pointer of the remote index leads to a blob with its hash.
  abbrev pub IsBacked : State L → Type 0
  IsBacked s = (path : String) (p : Ptr) → lookup path s.index ≡ some (pointer p) → HasBlob p.hash s

  -- The pointer by which a hash is reused was written for this content.
  abbrev pub IsFresh : LocalPath → Option String → File L → State L → Type 0
  IsFresh path virtual_path f s =
      (p : Ptr) → load_ptr L path virtual_path f s ≡ some p → p.hash ≡ L.hash f.content

  pub digest_of-IsFresh :
      (path : LocalPath) (virtual_path : Option String) (f : File L) (s : State L)
      → IsFresh path virtual_path f s
      → digest_of L path virtual_path f s ≡ L.hash f.content
  unfolding digest_of
  digest_of-IsFresh path virtual_path f s fresh =
      elim (Option-cases (load_ptr L path virtual_path f s)) [
        | inl e ↦ ground (arith, e)
        | inr (p, e) ↦ ground (arith, e, fresh p e)
      ]

  -- The cache is content-addressed, and the index points into it.
  pub record IsSound (s : State L) : Type 0 where
    pub hashed :
        (digest : String) (c : L.Content) → lookup digest s.cache ≡ some c → L.hash c ≡ digest
    pub backed : IsBacked s

  pub remove_files-IsSound :
      (ps : List LocalPath) (s : State L) → IsSound s → IsSound (remove_files L ps s)
  unfolding remove_files
  remove_files-IsSound [] s h = h
  remove_files-IsSound (p ∷ ps) s h =
      remove_files-IsSound ps (record s { files = set_file L p none s.files })
        (record { hashed = h.hashed; backed = h.backed })

  put_blob-IsSound :
      (digest : String) (c : L.Content) (s : State L)
      → L.hash c ≡ digest
      → IsSound s
      → IsSound (apply L (put_blob digest c) s)
  unfolding apply
  put_blob-IsSound digest c s e h = record {
    hashed = λ digest' c' x. elim (Bool-cases (str_eq digest digest')) [
      | inl t ↦
          let y : some c ≡ some c' = rw (lookup-insert, t) at x in
          let q : c ≡ c' = ground arith in ap L.hash (sym q) ∙ e ∙ (eq_iff digest digest').0 t
      | inr t ↦ h.hashed digest' c' (rw (lookup-insert, t) at x)
    ];
    backed = λ path p x. elim (Bool-cases (str_eq digest p.hash)) [
      | inl t ↦
          let q : digest ≡ p.hash = (eq_iff digest p.hash).0 t in (c, rw (lookup-insert, t), e ∙ q)
      | inr t ↦ let (c', y, z) = h.backed path p x in (c', rw (lookup-insert, t) y, z)
    ];
  }

  put_blob-HasBlob :
      (digest : String) (c : L.Content) (s : State L)
      → L.hash c ≡ digest
      → HasBlob digest (apply L (put_blob digest c) s)
  unfolding apply
  put_blob-HasBlob digest c s e = (c, rw (lookup-insert, (eq_iff digest digest).1 refl), e)

  write_index-IsSound :
      (path : String) (p : Ptr) (s : State L)
      → HasBlob p.hash s
      → IsSound s
      → IsSound (apply L (write_index path p) s)
  unfolding apply
  write_index-IsSound path p s b h = record {
    hashed = h.hashed;
    backed = λ path' p' x. elim (Bool-cases (str_eq path path')) [
      | inl t ↦
          let y : some (pointer p) ≡ some (pointer p') = rw (lookup-insert, t) at x in
          let e : p ≡ p' = ground arith in subst (λ (q : Ptr). HasBlob q.hash s) e b
      | inr t ↦ h.backed path' p' (rw (lookup-insert, t) at x)
    ];
  }

  write_ptr-IsSound :
      (path : String) (p : Ptr) (s : State L) → IsSound s → IsSound (apply L (write_ptr path p) s)
  unfolding apply
  write_ptr-IsSound path p s h = record { hashed = h.hashed; backed = h.backed }

  -- The last two effects of an upload.
  pointers-IsSound :
      (k : ℕ) (ptr_path index_path : String) (p : Ptr) (s : State L)
      → HasBlob p.hash s
      → IsSound s
      → IsSound (run L (take k (write_ptr ptr_path p ∷ write_index index_path p ∷ [])) s)
  unfolding run apply
  pointers-IsSound zero ptr_path index_path p s b h = h
  pointers-IsSound (suc zero) ptr_path index_path p s b h = write_ptr-IsSound ptr_path p s h
  pointers-IsSound (suc (suc zero)) ptr_path index_path p s b h =
      write_index-IsSound index_path p _ b (write_ptr-IsSound ptr_path p s h)
  pointers-IsSound (suc (suc (suc k))) ptr_path index_path p s b h =
      write_index-IsSound index_path p _ b (write_ptr-IsSound ptr_path p s h)

  one_ptr-IsSound :
      (k : ℕ) (ptr_path : String) (p : Ptr) (s : State L)
      → IsSound s
      → IsSound (run L (take k (write_ptr ptr_path p ∷ [])) s)
  unfolding run apply
  one_ptr-IsSound zero ptr_path p s h = h
  one_ptr-IsSound (suc zero) ptr_path p s h = write_ptr-IsSound ptr_path p s h
  one_ptr-IsSound (suc (suc k)) ptr_path p s h = write_ptr-IsSound ptr_path p s h

  module _ (now : ℕ) (path : LocalPath) (virtual_path : Option String) (f : File L) (s : State L)
      (h : IsSound s) where
    upload_plan-IsSound :
        (k : ℕ) (digest : String)
        → L.hash f.content ≡ digest
        → IsSound (run L (take k (upload_plan L now path virtual_path f digest s).effects) s)
    unfolding upload_plan run
    upload_plan-IsSound k digest e = elim (Option-cases (lookup digest s.cache)) [
      | inr (c, x) ↦ rw x (pointers-IsSound k _ _ _ s (c, x, h.hashed digest c x) h)
      | inl x ↦ rw x (fresh k)
    ]
      where
        fresh :
            (k : ℕ)
            → IsSound (
                run L
                  (take k (
                    put_blob digest f.content
                    ∷ write_ptr
                        (ptr_path_for path virtual_path)
                        (new_ptr L now path virtual_path digest (L.size f.content) f)
                    ∷ write_index
                        (remote_index_path (original_path path virtual_path))
                        (new_ptr L now path virtual_path digest (L.size f.content) f)
                    ∷ []))
                  s)
        fresh zero = h
        fresh (suc k) =
            pointers-IsSound k _ _ _ _ (put_blob-HasBlob digest f.content s e)
              (put_blob-IsSound digest f.content s e h)

    settle-IsSound :
        (k : ℕ) (digest : String) (d : Decision)
        → L.hash f.content ≡ digest
        → IsSound (run L (take k (settle L now path virtual_path f d digest s).effects) s)
    settle-IsSound k digest overwrite e = upload_plan-IsSound k digest e
    settle-IsSound k digest skip e = nothing k
      where
        nothing : (k : ℕ) → IsSound (run L (take k []) s)
        nothing zero = unfold run in h
        nothing (suc k) = unfold run in h
    settle-IsSound k digest defer e = one_ptr-IsSound k _ _ s h

    against-IsSound :
        (k : ℕ) (o : Option Raw) (answers : List Answer) (digest : String)
        → L.hash f.content ≡ digest
        → IsSound (run L (take k (against L now path virtual_path f o answers digest s).effects) s)
    against-IsSound k (some (pointer p)) answers digest e =
        elim (Bool-cases (str_eq p.hash digest)) [
          | inl t ↦ rw t (one_ptr-IsSound k _ _ s h)
          | inr t ↦ rw t (settle-IsSound k digest (decide_conflict answers) e)
        ]
    against-IsSound k (some corrupt) answers digest e = upload_plan-IsSound k digest e
    against-IsSound k (some blank) answers digest e = upload_plan-IsSound k digest e
    against-IsSound k (some macos_metadata) answers digest e = upload_plan-IsSound k digest e
    against-IsSound k none answers digest e = upload_plan-IsSound k digest e

    -- A push that breaks off after any number of its writes, or runs to its end, leaves a sound
    -- store, if the hash it may have taken from a pointer was this content's.
    pub push_plan-IsSound :
        (k : ℕ) (force : Bool) (answers : List Answer)
        → IsFresh path virtual_path f s
        → IsSound (run L (take k (push_plan L now path virtual_path f force answers s).effects) s)
    unfolding push_plan
    push_plan-IsSound k true answers fresh =
        upload_plan-IsSound k _ (sym (digest_of-IsFresh path virtual_path f s fresh))
    push_plan-IsSound k false answers fresh =
        against-IsSound k _ answers _ (sym (digest_of-IsFresh path virtual_path f s fresh))
