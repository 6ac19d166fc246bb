-- ===== src/Upload/Maintain/Cleaning.antt =====
-- `cmd_clean`: what has to hold of a file before it is deleted.
use graph_extraction.Base.{
  ◌≡◌, ◌⊎◌, refl, ap, ◌∙◌, subst, String, Bool, true, false, ◌&&◌, ◌||◌, not, Bool-cases,
  Option-cases, inl, inr, none, some, List, [], ◌∷◌, str_eq, eq_iff, if◌then◌else◌, arith,
}
use graph_extraction.Base.Dict.{Dict, NodupKeys, lookup, lookup-cons}
use graph_extraction.Upload.State.{
  Library, LocalPath, same_local, in_project, has_slash, Ptr, Raw, pointer, corrupt, blank,
  macos_metadata, Answer, File, State, in_list, same_local_eq, files-remove_files,
  cache-remove_files,
}
use graph_extraction.Upload.Push.{answered_yes}
use graph_extraction.Upload.Push.Effects.{HasBlob, IsSound, remove_files-IsSound}
use graph_extraction.Upload.Maintain.{
  read_ptrs, by_filename, close_times, same_hash, verified, fetch_ptrs, clean_list, cmd_clean,
}
use graph_extraction.Upload.Maintain.Blobs.{fetch_ptrs-IsSound}

lookup-tail :
    {V : Type 0} (k path : String) (r₀ r : V) (entries : Dict V)
    → lookup k entries ≡ none
    → lookup path entries ≡ some r
    → lookup path ((k, r₀) ∷ entries) ≡ some r
lookup-tail k path r₀ r entries a x = elim (Bool-cases (str_eq k path)) [
  | inl t ↦
      let e : lookup path entries ≡ none =
        subst (λ y. lookup y entries ≡ none) ((eq_iff k path).0 t) a in
      absurd (ground (arith, e, x))
  | inr t ↦ ground (arith, t, x, lookup-cons path k r₀ entries)
]

lookup-later :
    (k : String) (r₀ r : Raw) (entries : Dict Raw)
    → lookup k entries ≡ none
    → (path : String) × (lookup path entries ≡ some r)
    → (path : String) × (lookup path ((k, r₀) ∷ entries) ≡ some r)
lookup-later k r₀ r entries a (path, x) = (path, lookup-tail k path r₀ r entries a x)

-- The remote pointer that a name finds stands in the index.
by_filename-lookup :
    (name : String) (r : Ptr) (index : Dict Raw)
    → NodupKeys index
    → by_filename name (read_ptrs index) ≡ some r
    → (path : String) × (lookup path index ≡ some (pointer r))
unfolding by_filename read_ptrs
by_filename-lookup name r [] u h = absurd (ground (arith, h))
by_filename-lookup name r ((k, corrupt) ∷ entries) (a, u) h =
    lookup-later k _ _ entries a (by_filename-lookup name r entries u h)
by_filename-lookup name r ((k, blank) ∷ entries) (a, u) h =
    lookup-later k _ _ entries a (by_filename-lookup name r entries u h)
by_filename-lookup name r ((k, macos_metadata) ∷ entries) (a, u) h =
    lookup-later k _ _ entries a (by_filename-lookup name r entries u h)
by_filename-lookup name r ((k, pointer p) ∷ entries) (a, u) h =
    elim (Option-cases (by_filename name (read_ptrs entries))) [
      | inr (q, e) ↦
          let y : some q ≡ some r = rw e at h in
          lookup-later k _ _ entries a (by_filename-lookup name r entries u (e ∙ y))
      | inl e ↦
          let y : (if str_eq p.filename name then some p else none) ≡ some r = rw e at h in
          let z : p ≡ r = ground (arith, y) in
          (k, rw (lookup-cons, (eq_iff k k).1 refl) (ap (λ x. some (pointer x)) z))
    ]

module _ (L : Library) (removable : String → Bool) where
  -- Why `cmd_clean` deletes a file: a pointer at the top of `.ptrs/` is for this path, its time is
  -- within a second of the file's, and the cache has a blob of the pointer's hash.
  pub record IsBackedUp (q : LocalPath) (f : File L) (s : State L) : Type 0 where
    pub ptr : Ptr
    pub path : String
    pub listed : lookup path s.ptrs ≡ some ptr
    pub at_top : has_slash path ≡ false
    pub for_path : same_local (in_project ptr.original_path) q ≡ true
    pub on_time : close_times f.mtime ptr.mtime ≡ true
    pub blob : HasBlob L ptr.hash s

  verified-IsBackedUp :
      (s : State L) (path : String) (p : Ptr) (q : LocalPath) (f : File L)
      → IsSound L s
      → NodupKeys s.index
      → lookup path s.ptrs ≡ some p
      → has_slash path ≡ false
      → same_local (in_project p.original_path) q ≡ true
      → s.files q ≡ some f
      → verified L removable (read_ptrs s.index) p (s.files (in_project p.original_path)) ≡ true
      → IsBackedUp q f s
  verified-IsBackedUp s path p q f h u e top same ef v =
      let ef' : s.files (in_project p.original_path) ≡ some f =
        ap s.files (same_local_eq _ q same) ∙ ef in
      let v' : (close_times f.mtime p.mtime
            && same_hash L removable p (by_filename p.filename (read_ptrs s.index)))
          ≡ true =
        rw ef' at v in
      elim (Option-cases (by_filename p.filename (read_ptrs s.index))) [
        | inl x ↦ absurd (ground (arith, v', x))
        | inr (r, x) ↦
            let v'' : (close_times f.mtime p.mtime && str_eq r.hash p.hash) ≡ true = rw x at v' in
            let (k, y) = by_filename-lookup p.filename r s.index u x in
            let t : str_eq r.hash p.hash ≡ true = ground (arith, v'') in
            let o : close_times f.mtime p.mtime ≡ true = ground (arith, v'') in
            record {
              ptr = p;
              path = path;
              listed = e;
              at_top = top;
              for_path = same;
              on_time = o;
              blob = subst (λ d. HasBlob L d s) ((eq_iff r.hash p.hash).0 t) (h.backed k r y);
            }
      ]

  -- Part of the pointers, each of which stands in the whole.
  clean_list-IsBackedUp :
      (s : State L) (q : LocalPath) (f : File L) (ptrs : Dict Ptr)
      → IsSound L s
      → NodupKeys s.index
      → NodupKeys ptrs
      → ((path : String) (p : Ptr) → lookup path ptrs ≡ some p → lookup path s.ptrs ≡ some p)
      → s.files q ≡ some f
      → in_list q (clean_list L removable (read_ptrs s.index) ptrs s) ≡ true
      → IsBackedUp q f s
  unfolding in_list clean_list
  clean_list-IsBackedUp s q f [] h u v part ef g = absurd (ground (arith, g))
  clean_list-IsBackedUp s q f ((path, p) ∷ ptrs) h u (a, v) part ef g =
      elim (Bool-cases (in_list q (clean_list L removable (read_ptrs s.index) ptrs s))) [
        | inl x ↦
            clean_list-IsBackedUp s q f ptrs h u v
              (λ k p' y. part k p' (lookup-tail path k p p' ptrs a y)) ef x
        | inr x ↦
            elim (Bool-cases (
              not (has_slash path)
              && verified L removable (read_ptrs s.index) p
                  (s.files (in_project p.original_path)))) [
                    | inr y ↦ absurd (ground (arith, x, rw y at g))
                    | inl y ↦
                        let g' : (same_local (in_project p.original_path) q
                              || in_list q (clean_list L removable (read_ptrs s.index) ptrs s))
                            ≡ true =
                          rw y at g in
                        verified-IsBackedUp s path p q f h u
                          (part path p (rw (lookup-cons, (eq_iff path path).1 refl)))
                          (ground (arith, y)) (ground (arith, g', x)) ef (ground (arith, y))
                  ]
      ]

  -- On a sound store whose dictionaries have distinct keys, `cmd_clean` leaves a sound store and
  -- the blobs as they are. A file is still there with its content, or it is gone; then the
  -- question was answered with yes, a pointer at the top of `.ptrs/` is for its path, the
  -- pointer's time is within a second of the file's, and the cache has a blob of the pointer's hash.
  pub cmd_clean_lem :
      (answers : List Answer) (s : State L)
      → IsSound L s
      → NodupKeys s.index
      → NodupKeys s.ptrs
      → IsSound L (cmd_clean L removable answers s)
        × ((cmd_clean L removable answers s).cache ≡ s.cache)
        × ((q : LocalPath) (f : File L)
            → s.files q ≡ some f
            → ((cmd_clean L removable answers s).files q ≡ some f)
              ⊎ ((cmd_clean L removable answers s).files q ≡ none)
                × (answered_yes answers ≡ true)
                × IsBackedUp q f s)
  unfolding cmd_clean fetch_ptrs
  cmd_clean_lem answers s h u v = elim (Bool-cases (answered_yes answers)) [
    | inr e ↦ rw e (fetch_ptrs-IsSound L removable s h, refl, λ q f x. inl x)
    | inl e ↦
        let gone = clean_list L removable (read_ptrs s.index) s.ptrs s in
        rw e (
          remove_files-IsSound L gone _ (fetch_ptrs-IsSound L removable s h),
          cache-remove_files L gone _,
          λ q f x. elim (Bool-cases (in_list q gone)) [
            | inr g ↦
                inl (ground (arith, g, x, files-remove_files L q gone (fetch_ptrs L removable s).1))
            | inl g ↦ inr (
              ground (arith, g, files-remove_files L q gone (fetch_ptrs L removable s).1),
              refl,
              clean_list-IsBackedUp s q f s.ptrs h u v (λ path p y. y) x g,
            )
          ],
        )
  ]
