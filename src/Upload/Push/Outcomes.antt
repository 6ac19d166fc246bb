-- ===== src/Upload/Push/Outcomes.antt =====
-- What a push that ran to its end has done: one that counts as uploaded, and one that does not.
use graph_extraction.Base.{
  ℕ, ◌≡◌, ◌⊎◌, inl, inr, refl, sym, ◌∙◌, subst, String, Bool, true, false, Bool-cases, Option-cases,
  Option, none, some, List, [], ◌∷◌, take-length, length, str_eq, eq_iff, arith,
}
use graph_extraction.Base.Dict.{lookup, insert, lookup-insert}
use graph_extraction.Upload.State.{
  Library, LocalPath, Ptr, Raw, pointer, corrupt, blank, macos_metadata, Answer, File, State,
  ptr_path_for, original_path, remote_index_path,
}
use graph_extraction.Upload.Push.{
  write_ptr, write_index, apply, run, Plan, digest_of, new_ptr, upload_plan, push_plan, push_file,
  settle, against, Decision, decide_conflict, overwrite, skip, defer,
}
use graph_extraction.Upload.Push.Effects.{
  HasBlob, IsFresh, IsSound, digest_of-IsFresh, push_plan-IsSound,
}

module _ (L : Library) where
  -- The index and the local pointer name a digest, for which there is a blob.
  pub record IsUploaded (path : LocalPath) (virtual_path : Option String) (digest : String)
      (s s' : State L) : Type 0 where
    pub remote : Ptr
    pub indexed :
        lookup (remote_index_path (original_path path virtual_path)) s'.index
        ≡ some (pointer remote)
    pub remote_hash : remote.hash ≡ digest
    pub blob : HasBlob L remote.hash s'
    pub local_ptr : Ptr
    pub recorded : lookup (ptr_path_for path virtual_path) s'.ptrs ≡ some local_ptr
    pub local_hash : local_ptr.hash ≡ digest
    pub local_path : local_ptr.original_path ≡ original_path path virtual_path
    pub settled : local_ptr.override ≡ false
    pub same_files : s'.files ≡ s.files

  -- The remote store is as it was, and so are the local files.
  pub record IsRemoteSame (s s' : State L) : Type 0 where
    pub index : s'.index ≡ s.index
    pub cache : s'.cache ≡ s.cache
    pub files : s'.files ≡ s.files

  module _ (now : ℕ) (path : LocalPath) (virtual_path : Option String) (f : File L) (s : State L)
      (digest : String) where
    abbrev Result : Plan L → Type 0
    Result plan =
        IsSound L (run L plan.effects s)
        → (plan.uploaded ≡ true) × IsUploaded path virtual_path digest s (run L plan.effects s)
          ⊎ (plan.uploaded ≡ false) × IsRemoteSame s (run L plan.effects s)

    upload_plan-Result : Result (upload_plan L now path virtual_path f digest s)
    unfolding upload_plan run apply
    upload_plan-Result = elim (Option-cases (lookup digest s.cache)) [
      | inl e ↦
          rw e (λ h.
            inl (refl, uploaded (record s { cache = insert digest f.content s.cache }) refl h))
      | inr (c, e) ↦ rw e (λ h. inl (refl, uploaded s refl h))
    ]
      where
        uploaded :
            (t : State L)
            → t.files ≡ s.files
            → IsSound L (
                run L
                  (write_ptr
                      (ptr_path_for path virtual_path)
                      (new_ptr L now path virtual_path digest (L.size f.content) f)
                    ∷ write_index
                        (remote_index_path (original_path path virtual_path))
                        (new_ptr L now path virtual_path digest (L.size f.content) f)
                    ∷ [])
                  t)
            → IsUploaded path virtual_path digest s (
                run L
                  (write_ptr
                      (ptr_path_for path virtual_path)
                      (new_ptr L now path virtual_path digest (L.size f.content) f)
                    ∷ write_index
                        (remote_index_path (original_path path virtual_path))
                        (new_ptr L now path virtual_path digest (L.size f.content) f)
                    ∷ [])
                  t)
        uploaded t e h =
            let index_path = remote_index_path (original_path path virtual_path) in
            let ptr_path = ptr_path_for path virtual_path in
            let p = new_ptr L now path virtual_path digest (L.size f.content) f in
            let found : lookup index_path (insert index_path (pointer p) t.index)
                ≡ some (pointer p) =
              rw (lookup-insert, (eq_iff index_path index_path).1 refl) in
            record {
              remote = p;
              indexed = found;
              remote_hash = refl;
              blob = h.backed index_path p found;
              local_ptr = p;
              recorded = rw (lookup-insert, (eq_iff ptr_path ptr_path).1 refl);
              local_hash = refl;
              local_path = refl;
              settled = refl;
              same_files = e;
            }

    settle-Result : (d : Decision) → Result (settle L now path virtual_path f d digest s)
    unfolding run apply
    settle-Result overwrite h = upload_plan-Result h
    settle-Result skip h = inr (refl, record { index = refl; cache = refl; files = refl })
    settle-Result defer h = inr (refl, record { index = refl; cache = refl; files = refl })

    against-Result :
        (o : Option Raw) (answers : List Answer)
        → lookup (remote_index_path (original_path path virtual_path)) s.index ≡ o
        → Result (against L now path virtual_path f o answers digest s)
    unfolding run apply
    against-Result (some (pointer p)) answers x = elim (Bool-cases (str_eq p.hash digest)) [
      | inl t ↦
          let ptr_path = ptr_path_for path virtual_path in
          rw t (λ h. inl (
            refl,
            record {
              remote = p;
              indexed = x;
              remote_hash = (eq_iff p.hash digest).0 t;
              blob = h.backed _ p x;
              local_ptr = new_ptr L now path virtual_path digest (L.size f.content) f;
              recorded = rw (lookup-insert, (eq_iff ptr_path ptr_path).1 refl);
              local_hash = refl;
              local_path = refl;
              settled = refl;
              same_files = refl;
            },
          ))
      | inr t ↦ rw t (settle-Result (decide_conflict answers))
    ]
    against-Result (some corrupt) answers x = upload_plan-Result
    against-Result (some blank) answers x = upload_plan-Result
    against-Result (some macos_metadata) answers x = upload_plan-Result
    against-Result none answers x = upload_plan-Result

  module _ (now : ℕ) (path : LocalPath) (virtual_path : Option String) (f : File L) (s : State L)
      (force : Bool) (answers : List Answer) where
    push_plan-Result :
        (b : Bool)
        → force ≡ b
        → Result now path virtual_path f s
            (digest_of L path virtual_path f s)
            (push_plan L now path virtual_path f b answers s)
    unfolding push_plan
    push_plan-Result true e = upload_plan-Result now path virtual_path f s _
    push_plan-Result false e = against-Result now path virtual_path f s _ _ answers refl

    pub forced_uploads :
        (b : Bool) → b ≡ true → (push_plan L now path virtual_path f b answers s).uploaded ≡ true
    unfolding push_plan upload_plan
    forced_uploads true e = refl
    forced_uploads false e = absurd (ground arith)

    whole-IsSound :
        IsFresh L path virtual_path f s
        → IsSound L s
        → IsSound L (run L (push_plan L now path virtual_path f force answers s).effects s)
    whole-IsSound fresh h =
        let plan = push_plan L now path virtual_path f force answers s in
        subst (λ es. IsSound L (run L es s)) (take-length plan.effects)
          (push_plan-IsSound L now path virtual_path f s h (length plan.effects) force answers
            fresh)

    -- A push of a file that is there, whose cached hash (if it has one) is right, from a sound
    -- store, ends in a sound store. Either it counts as uploaded: then the remote index and the
    -- local pointer name the hash of the file's content, the cache holds a blob of that hash, the
    -- override flag is off and no file has changed. Or it does not: then it was not forced, and
    -- neither the remote store nor any file has changed.
    pub push_file_lem :
        (b : Bool) (s' : State L)
        → s.files path ≡ some f
        → IsFresh L path virtual_path f s
        → IsSound L s
        → push_file L now path virtual_path force answers s ≡ some (b, s')
        → IsSound L s'
          × ((b ≡ true) × IsUploaded path virtual_path (L.hash f.content) s s'
              ⊎ (b ≡ false) × (force ≡ false) × IsRemoteSame s s')
    unfolding push_file
    push_file_lem b s' e fresh h q =
        let plan = push_plan L now path virtual_path f force answers s in
        let q' : some (plan.uploaded, run L plan.effects s) ≡ some (b, s') =
          rw (e, push_file) at q in
        let eb : plan.uploaded ≡ b = ground arith in
        let es : run L plan.effects s ≡ s' = ground arith in
        let sound = whole-IsSound fresh h in
        (
          subst (IsSound L) es sound,
          elim (push_plan-Result force refl sound) [
            | inl (t, u) ↦ inl (
              sym eb ∙ t,
              subst (IsUploaded path virtual_path (L.hash f.content) s) es (
                  subst (λ d. IsUploaded path virtual_path d s (run L plan.effects s))
                    (digest_of-IsFresh L path virtual_path f s fresh) u),
            )
            | inr (t, u) ↦ inr (
              sym eb ∙ t,
              elim (Bool-cases force) [
                | inl y ↦ absurd (ground (arith, forced_uploads force y, t))
                | inr y ↦ y
              ],
              subst (IsRemoteSame s) es u,
            )
          ],
        )
