-- ===== src/Upload/Maintain/Blobs.antt =====
-- The blobs of the remote cache under `cmd_purge`, and `_fetch_ptrs` on the index.
use graph_extraction.Base.{
  ◌≡◌, refl, ap, ◌∙◌, String, Bool, true, false, ◌&&◌, ◌||◌, not, Bool-cases, inl, inr, none, some,
  List, [], ◌∷◌, str_eq, eq_iff, if◌then◌else◌, arith,
}
use graph_extraction.Base.Dict.{Dict, lookup, erase, lookup-erase, lookup-cons, lookup-nil}
use graph_extraction.Upload.State.{
  Library, Ptr, Raw, pointer, corrupt, blank, macos_metadata, Answer, State,
}
use graph_extraction.Upload.Push.{confirmed}
use graph_extraction.Upload.Push.Effects.{IsSound}
use graph_extraction.Upload.Maintain.{
  read_ptrs, drop_metadata, referenced, fetch_ptrs, orphans, remove_blobs, cmd_purge,
}

-- What is in the index after the metadata is gone was there before.
pub lookup-drop_metadata :
    (removable : String → Bool) (path : String) (r : Raw) (entries index : Dict Raw)
    → lookup path (drop_metadata removable entries index) ≡ some r
    → lookup path index ≡ some r
unfolding drop_metadata
lookup-drop_metadata removable path r [] index h = h
lookup-drop_metadata removable path r ((k, pointer p) ∷ entries) index h =
    lookup-drop_metadata removable path r entries index h
lookup-drop_metadata removable path r ((k, corrupt) ∷ entries) index h =
    lookup-drop_metadata removable path r entries index h
lookup-drop_metadata removable path r ((k, blank) ∷ entries) index h =
    lookup-drop_metadata removable path r entries index h
lookup-drop_metadata removable path r ((k, macos_metadata) ∷ entries) index h =
    elim (Bool-cases (removable k)) [
      | inr e ↦ lookup-drop_metadata removable path r entries index (rw e at h)
      | inl e ↦
          let h' : lookup path (erase k (drop_metadata removable entries index)) ≡ some r =
            rw e at h in
          elim (Bool-cases (str_eq k path)) [
            | inl t ↦
                absurd (
                  ground
                    (arith, lookup-erase k path (drop_metadata removable entries index), h', t))
            | inr t ↦
                lookup-drop_metadata removable path r entries index (
                  ground
                    (arith, lookup-erase k path (drop_metadata removable entries index), h', t))
          ]
    ]

-- A pointer of the index is among those fetched.
pub referenced-read_ptrs :
    (path : String) (p : Ptr) (index : Dict Raw)
    → lookup path index ≡ some (pointer p)
    → referenced p.hash (read_ptrs index) ≡ true
unfolding referenced read_ptrs
referenced-read_ptrs path p [] h = absurd (ground (arith, h, lookup-nil {V = Raw} path))
referenced-read_ptrs path p ((k, r) ∷ entries) h = elim (Bool-cases (str_eq k path)) [
  | inl t ↦
      let y : some r ≡ some (pointer p) = rw (lookup-cons, t) at h in
      let e : r ≡ pointer p = ground arith in rw (e, (eq_iff p.hash p.hash).1 refl)
  | inr t ↦ later r (referenced-read_ptrs path p entries (rw (lookup-cons, t) at h))
]
  where
    later :
        (r : Raw)
        → referenced p.hash (read_ptrs entries) ≡ true
        → referenced p.hash (read_ptrs ((k, r) ∷ entries)) ≡ true
    later (pointer q) e = ground arith
    later corrupt e = e
    later blank e = e
    later macos_metadata e = e

module _ (L : Library) (removable : String → Bool) where
  pub fetch_ptrs-IsSound : (s : State L) → IsSound L s → IsSound L (fetch_ptrs L removable s).1
  unfolding fetch_ptrs
  fetch_ptrs-IsSound s h = record {
    hashed = h.hashed;
    backed = λ path p x. h.backed path p (lookup-drop_metadata removable path _ s.index s.index x);
  }

  named : String → List String → Bool
  named digest [] = false
  named digest (d ∷ ds) = str_eq d digest || named digest ds

  lookup-remove_blobs :
      (digest : String) (ds : List String) (blobs : Dict L.Content)
      → lookup digest (remove_blobs L removable ds blobs)
        ≡ (if named digest ds then none else lookup digest blobs)
  unfolding remove_blobs named
  lookup-remove_blobs digest [] blobs = refl
  lookup-remove_blobs digest (d ∷ ds) blobs =
      ground (arith, lookup-remove_blobs digest ds (erase d blobs), lookup-erase d digest blobs)

  named-orphans-kept :
      (digest : String) (ptrs : List Ptr) (blobs : Dict L.Content)
      → referenced digest ptrs ≡ true
      → named digest (orphans L removable ptrs blobs) ≡ false
  unfolding named orphans
  named-orphans-kept digest ptrs [] e = refl
  named-orphans-kept digest ptrs ((d, c) ∷ blobs) e = elim (Bool-cases (str_eq d digest)) [
    | inl t ↦
        let q : d ≡ digest = (eq_iff d digest).0 t in
        rw (q, e) (named-orphans-kept digest ptrs blobs e)
    | inr t ↦ ground (arith, named-orphans-kept digest ptrs blobs e)
  ]

  named-orphans-gone :
      (digest : String) (ptrs : List Ptr) (blobs : Dict L.Content)
      → referenced digest ptrs ≡ false
      → (if named digest (orphans L removable ptrs blobs) then none else lookup digest blobs) ≡ none
  unfolding named orphans
  named-orphans-gone digest ptrs [] e = lookup-nil digest
  named-orphans-gone digest ptrs ((d, c) ∷ blobs) e = elim (Bool-cases (str_eq d digest)) [
    | inl t ↦
        let q : d ≡ digest = (eq_iff d digest).0 t in
        let e' : referenced d ptrs ≡ false = ap (λ x. referenced x ptrs) q ∙ e in rw (e', t)
    | inr t ↦
        ground (arith, t, named-orphans-gone digest ptrs blobs e, lookup-cons digest d c blobs)
  ]

  -- After `cmd_purge` on a sound store, the store is sound, and a blob of the cache is gone just
  -- when both questions were answered with yes and no pointer that the index holds names it.
  pub cmd_purge_lem :
      (answers : List Answer) (s : State L)
      → IsSound L s
      → IsSound L (cmd_purge L removable answers s)
        × ((digest : String)
            → lookup digest (cmd_purge L removable answers s).cache ≡ (
                if confirmed answers && not (referenced digest (read_ptrs s.index))
                then none
                else lookup digest s.cache))
  unfolding cmd_purge fetch_ptrs
  cmd_purge_lem answers s h = elim (Bool-cases (confirmed answers)) [
    | inr t ↦ rw t (fetch_ptrs-IsSound s h, λ digest. refl)
    | inl t ↦ rw t (
      record {
        hashed = λ digest c x. h.hashed digest c (kept_before digest c x);
        backed = λ path p x.
            let x' = lookup-drop_metadata removable path _ s.index s.index x in
            let (c, y, z) = h.backed path p x' in
            let r = referenced-read_ptrs path p s.index x' in
            (c, (after p.hash ∙ ground (arith, r)) ∙ y, z);
      },
      after,
    )
  ]
    where
      after :
          (digest : String)
          → lookup digest
              (remove_blobs L removable (orphans L removable (read_ptrs s.index) s.cache) s.cache)
            ≡ (if not (referenced digest (read_ptrs s.index)) then none else lookup digest s.cache)
      after digest = elim (Bool-cases (referenced digest (read_ptrs s.index))) [
        | inl r ↦ ground (
          arith,
          r,
          named-orphans-kept digest (read_ptrs s.index) s.cache r,
          lookup-remove_blobs digest (orphans L removable (read_ptrs s.index) s.cache) s.cache,
        )
        | inr r ↦ ground (
          arith,
          r,
          named-orphans-gone digest (read_ptrs s.index) s.cache r,
          lookup-remove_blobs digest (orphans L removable (read_ptrs s.index) s.cache) s.cache,
        )
      ]

      kept_before :
          (digest : String) (c : L.Content)
          → lookup digest
              (remove_blobs L removable (orphans L removable (read_ptrs s.index) s.cache) s.cache)
            ≡ some c
          → lookup digest s.cache ≡ some c
      kept_before digest c x = elim (Bool-cases (referenced digest (read_ptrs s.index))) [
        | inl r ↦ ground (arith, r, x, after digest)
        | inr r ↦ absurd (ground (arith, r, x, after digest))
      ]
