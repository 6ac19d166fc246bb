-- ===== src/Upload/Push/Commands.antt =====
-- `cmd_push`: the pushes of its files one after the other, and what it deletes at the end.
use graph_extraction.Base.{
  ℕ, ◌≡◌, ◌⊎◌, inl, inr, refl, sym, ap, ◌∙◌, subst, String, Bool, true, false, Bool-cases,
  Option-cases, Option, none, some, List, [], ◌∷◌, eq_iff, arith,
}
use graph_extraction.Base.Dict.{lookup}
use graph_extraction.Upload.State.{
  Library, LocalPath, same_local, same_local_eq, in_list, Answer, File, State, remove_files,
  files-remove_files, cache-remove_files,
}
use graph_extraction.Upload.Push.{
  run, push_plan, push_file, Pushed, note_outcome, push_files, deletion_agreed, delete_uploaded,
  Target, files_of, virtual_of, left_by, end_push, can_start, cmd_push,
}
use graph_extraction.Upload.Push.Effects.{HasBlob, IsSound, remove_files-IsSound}
use graph_extraction.Upload.Push.Outcomes.{push_file_lem}
use graph_extraction.Upload.Push.Pointers.{
  AllFresh, IsApart, run-HasBlob, push_file_present, push_file_missing, push_file-AllFresh,
}

module _ (L : Library) where
  module _ (now : ℕ) (virtual_path : Option String) (force : Bool)
      (answers : LocalPath → List Answer) where
    -- What a series of pushes of files from `whole` has done.
    pub record IsPushed (paths : List LocalPath) (s : State L) (r : Pushed L) : Type 0 where
      pub sound : IsSound L r.state
      pub same_files : r.state.files ≡ s.files
      pub stored :
          (q : LocalPath)
          → in_list q r.uploaded ≡ true
          → (in_list q paths ≡ true)
            × ((f : File L) × (s.files q ≡ some f) × HasBlob L (L.hash f.content) r.state)

    note_outcome_state :
        (p : LocalPath) (o : Option (Bool × State L)) (r : Pushed L)
        → (note_outcome L p o r).state ≡ r.state
    note_outcome_state p none r = refl
    note_outcome_state p (some (true, s')) r = refl
    note_outcome_state p (some (false, s')) r = refl

    -- Blobs stay there through the pushes.
    push_files-HasBlob :
        (paths : List LocalPath) (digest : String) (c : L.Content) (s : State L)
        → lookup digest s.cache ≡ some c
        → (c' : L.Content) × (lookup digest
              (push_files L now virtual_path force answers paths s).state.cache
            ≡ some c')
    unfolding push_files
    push_files-HasBlob [] digest c s e = (c, e)
    push_files-HasBlob (p ∷ paths) digest c s e =
        rw note_outcome_state (elim (Option-cases (s.files p)) [
          | inl x ↦
              rw (push_file_missing L now virtual_path force answers p (answers p) s x)
                (push_files-HasBlob paths digest c s e)
          | inr (f, x) ↦
              let es = (push_plan L now p virtual_path f force (answers p) s).effects in
              let (c', e') = run-HasBlob L es digest c s e in
              rw (push_file_present L now virtual_path force answers p f (answers p) s x)
                (push_files-HasBlob paths digest c' (run L es s) e')
        ])

    -- One more file that counts as uploaded or is skipped, before the others.
    uploaded_first :
        (paths : List LocalPath) (p : LocalPath) (f : File L) (s s' : State L) (r : Pushed L)
        → in_list p paths ≡ true
        → s.files p ≡ some f
        → s'.files ≡ s.files
        → HasBlob L (L.hash f.content) r.state
        → IsPushed paths s' r
        → IsPushed paths s (note_outcome L p (some (true, s')) r)
    unfolding in_list
    uploaded_first paths p f s s' r i e same blob h = record {
      sound = h.sound;
      same_files = h.same_files ∙ same;
      stored = λ q j. elim (Bool-cases (same_local p q)) [
        | inl t ↦
            let pq : p ≡ q = same_local_eq p q t in
            (
              subst (λ x. in_list x paths ≡ true) pq i,
              (f, subst (λ x. s.files x ≡ some f) pq e, blob),
            )
        | inr t ↦
            let (a, (g, b, c)) = h.stored q (rw t at j) in
            (a, (g, subst (λ fs. fs q ≡ some g) same b, c))
      ];
    }

    skipped_first :
        (paths : List LocalPath) (p : LocalPath) (s s' : State L) (r : Pushed L)
        → s'.files ≡ s.files
        → IsPushed paths s' r
        → IsPushed paths s (note_outcome L p (some (false, s')) r)
    skipped_first paths p s s' r same h = record {
      sound = h.sound;
      same_files = h.same_files ∙ same;
      stored = λ q j.
          let (a, (g, b, c)) = h.stored q j in (a, (g, subst (λ fs. fs q ≡ some g) same b, c));
    }

    -- The push of a file that is there, and then the others.
    push_file-IsPushed :
        (all paths : List LocalPath) (p : LocalPath) (f : File L) (s s' : State L) (b : Bool)
        → in_list p all ≡ true
        → s.files p ≡ some f
        → (push_plan L now p virtual_path f force (answers p) s).uploaded ≡ b
        → run L (push_plan L now p virtual_path f force (answers p) s).effects s ≡ s'
        → IsApart L now virtual_path force answers all s
        → AllFresh L now virtual_path force answers all s
        → IsSound L s
        → ((t : State L)
            → IsApart L now virtual_path force answers all t
            → AllFresh L now virtual_path force answers all t
            → IsSound L t
            → IsPushed all t (push_files L now virtual_path force answers paths t))
        → IsPushed all s
            (note_outcome L p (some (b, s')) (push_files L now virtual_path force answers paths s'))
    push_file-IsPushed all paths p f s s' b here x eb w apart fresh h ih =
        let done : push_file L now p virtual_path force (answers p) s ≡ some (b, s') =
          push_file_present L now virtual_path force answers p f (answers p) s x
          ∙ ap some (λ i. (eb i, w i)) in
        let (sound, how) =
          push_file_lem L now p virtual_path f s force (answers p) b s' x (fresh p f here x) h
            done in
        let rest = λ (same : s'.files ≡ s.files).
          ih s' (λ a c g k ia ic ea ec. apart a c g k ia ic (rw same at ea) (rw same at ec))
            (push_file-AllFresh L now virtual_path force answers all p f (answers p) s s' here x
              same w apart fresh)
            sound in
        elim how [
          | inl (t, up) ↦
              let r = rest up.same_files in
              let (c, y, z) = up.blob in
              let (c', y') = push_files-HasBlob paths up.remote.hash c s' y in
              let blob : HasBlob L up.remote.hash
                  (push_files L now virtual_path force answers paths s').state =
                (c', y', r.sound.hashed _ c' y') in
              rw t (
                uploaded_first all p f s s' _ here x up.same_files
                  (subst
                    (λ d. HasBlob L d (push_files L now virtual_path force answers paths s').state)
                    up.remote_hash blob)
                  r)
          | inr (t, u, away) ↦ rw t (skipped_first all p s s' _ away.files (rest away.files))
        ]

    pub push_files_lem :
        (all paths : List LocalPath) (s : State L)
        → ((q : LocalPath) → in_list q paths ≡ true → in_list q all ≡ true)
        → IsApart L now virtual_path force answers all s
        → AllFresh L now virtual_path force answers all s
        → IsSound L s
        → IsPushed all s (push_files L now virtual_path force answers paths s)
    unfolding push_files in_list
    push_files_lem all [] s part apart fresh h = record {
      sound = h;
      same_files = refl;
      stored = λ q j. absurd (ground (arith, j));
    }
    push_files_lem all (p ∷ paths) s part apart fresh h =
        let later = λ (q : LocalPath) (j : in_list q paths ≡ true). part q (ground (arith, j)) in
        elim (Option-cases (s.files p)) [
          | inl x ↦
              let rest = push_files_lem all paths s later apart fresh h in
              rw (push_file_missing L now virtual_path force answers p (answers p) s x)
                (record { sound = rest.sound; same_files = rest.same_files; stored = rest.stored })
          | inr (f, x) ↦
              let here =
                part p (ground (arith, (eq_iff p.dir p.dir).1 refl, (eq_iff p.rel p.rel).1 refl)) in
              rw (push_file_present L now virtual_path force answers p f (answers p) s x) (
                push_file-IsPushed all paths p f s _ _ here x refl refl apart fresh h
                  (λ t. push_files_lem all paths t later))
        ]

  left_by-end_push :
      (agreed : Bool) (r : Pushed L) → left_by L (end_push L agreed r) ≡ delete_uploaded L agreed r
  left_by-end_push agreed r = elim (Bool-cases r.raised) [ inl t ↦ rw t refl | inr t ↦ rw t refl ]

  -- What is deleted once the pushes are done.
  delete_uploaded_lem :
      (now : ℕ) (virtual_path : Option String) (force : Bool) (answers : LocalPath → List Answer)
      (paths : List LocalPath) (agreed : Bool) (s : State L) (r : Pushed L)
      → IsPushed now virtual_path force answers paths s r
      → IsSound L (delete_uploaded L agreed r)
        × ((q : LocalPath) (f : File L)
            → s.files q ≡ some f
            → ((delete_uploaded L agreed r).files q ≡ some f)
              ⊎ ((delete_uploaded L agreed r).files q ≡ none)
                × (in_list q paths ≡ true)
                × (agreed ≡ true)
                × HasBlob L (L.hash f.content) (delete_uploaded L agreed r))
  delete_uploaded_lem now virtual_path force answers paths agreed s r h =
      let kept =
        λ (q : LocalPath) (f : File L) (x : s.files q ≡ some f). ap (λ fs. fs q) h.same_files ∙ x in
      elim (Bool-cases r.raised) [
        | inl t ↦ rw t (h.sound, λ q f x. inl (kept q f x))
        | inr t ↦ elim (Bool-cases agreed) [
          | inr a ↦ rw (t, a) (h.sound, λ q f x. inl (kept q f x))
          | inl a ↦
              rw (t, a)
                (
                  remove_files-IsSound L r.uploaded r.state h.sound,
                  λ q f x. elim (Bool-cases (in_list q r.uploaded)) [
                    | inr g ↦
                        inl
                          (ground (arith, g, kept q f x, files-remove_files L q r.uploaded r.state))
                    | inl g ↦
                        let (i, (f', y, (c, z, hc))) = h.stored q g in
                        let ff : some f' ≡ some f = sym y ∙ x in
                        let same : f' ≡ f = ground (arith, ff) in
                        inr (
                          ground (arith, g, files-remove_files L q r.uploaded r.state),
                          i,
                          refl,
                          subst
                              (λ k.
                                HasBlob L (L.hash k.content) (remove_files L r.uploaded r.state))
                              same
                              (
                                c,
                                ap (lookup (L.hash f'.content))
                                      (cache-remove_files L r.uploaded r.state)
                                    ∙ z,
                                hc,
                              ),
                        )
                  ],
                )
        ]
      ]

  -- However it ends, `cmd_push` from a sound store, in which the hashes that its files may reuse are right and
  -- files with one pointer and one time have one hash, leaves a sound store. A file is still
  -- there with its content, or it is gone; then it was one of those to push, the deletion was
  -- agreed, and the cache has a blob with the hash of its content.
  pub cmd_push_lem :
      (now : ℕ) (target : Target) (force : Bool) (answers : LocalPath → List Answer)
      (auto_delete isatty : Bool) (last_answers : List Answer) (s s' : State L)
      → IsApart L now (virtual_of target) force answers (files_of target) s
      → AllFresh L now (virtual_of target) force answers (files_of target) s
      → IsSound L s
      → left_by L (cmd_push L now target force answers auto_delete isatty last_answers s) ≡ s'
      → IsSound L s'
        × ((q : LocalPath) (f : File L)
            → s.files q ≡ some f
            → (s'.files q ≡ some f)
              ⊎ (s'.files q ≡ none)
                × (in_list q (files_of target) ≡ true)
                × (deletion_agreed L auto_delete isatty last_answers ≡ true)
                × HasBlob L (L.hash f.content) s')
  unfolding cmd_push
  cmd_push_lem now target force answers auto_delete isatty last_answers s s' apart fresh h e =
      let files = files_of target in
      let r = push_files L now (virtual_of target) force answers files s in
      let agreed = deletion_agreed L auto_delete isatty last_answers in
      elim (Bool-cases (can_start L target s)) [
        | inl c ↦ subst Good (sym (left_by-end_push agreed r) ∙ (rw c at e)) (
            delete_uploaded_lem now (virtual_of target) force answers files agreed s r (
              push_files_lem now (virtual_of target) force answers files files s (λ q j. j) apart
                fresh h))
        | inr c ↦ subst Good (rw c at e) (h, λ q f x. inl x)
      ]
    where
      Good : State L → Type 0
      Good t =
          IsSound L t
          × ((q : LocalPath) (f : File L)
              → s.files q ≡ some f
              → (t.files q ≡ some f)
                ⊎ (t.files q ≡ none)
                  × (in_list q (files_of target) ≡ true)
                  × (deletion_agreed L auto_delete isatty last_answers ≡ true)
                  × HasBlob L (L.hash f.content) t)
