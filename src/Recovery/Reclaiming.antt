-- ===== src/Recovery/Reclaiming.antt =====
-- scripts/helper/reclaim_pushed_shards.py: which files it deletes.
use graph_extraction.Base.{
  ℕ, ◌≡◌, ◌≢◌, ◌⊎◌, refl, sym, ap, ◌∙◌, subst, inl, inr, String, Bool, true, false, ◌&&◌, Option,
  Option-cases, Bool-cases, none, some, List, [], ◌∷◌, All, All-append, All-mono, Any, leb, str_eq,
  eq_iff, arith,
}
use graph_extraction.Base.Dict.{Dict, lookup, erase, lookup-erase}
use graph_extraction.Writer.State.{state}
use graph_extraction.Recovery.Reclaim.{
  Stat, Shard, Layer, Backend, Site, Candidate, local_path_of, is_backed, candidate,
  shard_candidates, candidates, insert_by_mtime, sort_by_mtime, eligible_shards, is_reached,
  reclaim, main,
}

module _ (site : Site) (backend : Backend) where
  -- The path is that of a shard that is marked as pushed and has a copy on the backend.
  abbrev pub IsReclaimed : String → String → Shard → Type 0
  IsReclaimed path layer_key s =
      (s.pushed ≡ true)
      × (is_backed site backend s.virtual_path ≡ true)
      × (path ≡ local_path_of layer_key s.shard_idx)

  abbrev pub IsReclaimable : String → List Layer → Type 0
  IsReclaimable path layers =
      Any (λ (l : Layer). Any (IsReclaimed path l.layer_key) l.completed_shards) layers

  candidate-some :
      (layer_key : String) (s : Shard) (c : Candidate)
      → candidate site backend layer_key s ≡ some c
      → IsReclaimed c.local_path layer_key s
  unfolding candidate
  candidate-some layer_key s c h =
      elim (Option-cases (lookup (local_path_of layer_key s.shard_idx) site.scratch)) [
        | inl gone ↦ absurd (none_ne (rw (gone, candidate) at h))
        | inr (file, here) ↦ elim (Bool-cases (s.pushed && is_backed site backend s.virtual_path)) [
          | inr f ↦ absurd (none_ne (rw f at (rw (here, candidate) at h)))
          | inl t ↦
              let same = some_inj (rw t at (rw (here, candidate) at h)) in
              (ground arith, ground arith, ap (λ (x : Candidate). x.local_path) (sym same))
        ]
      ]
    where
      none_ne : {x : Candidate} → none ≢ some x
      none_ne q = absurd (ground arith)

      some_inj : {x y : Candidate} → some x ≡ some y → x ≡ y
      some_inj q = ground arith

  shard_candidates-All :
      (layer_key : String) (shards : List Shard)
      → All
          (λ (c : Candidate). Any (IsReclaimed c.local_path layer_key) shards)
          (shard_candidates site backend layer_key shards)
  unfolding shard_candidates
  shard_candidates-All layer_key [] = tt
  shard_candidates-All layer_key (s ∷ shards) =
      let rest =
        All-mono _ (λ (c : Candidate). Any (IsReclaimed c.local_path layer_key) (s ∷ shards)) _
          (λ c x. inr x) (shard_candidates-All layer_key shards) in
      elim (Option-cases (candidate site backend layer_key s)) [
        | inl e ↦ rw (e, All) rest
        | inr (c, e) ↦ rw (e, All) (inl (candidate-some layer_key s c e), rest)
      ]

  candidates-All :
      (layers : List Layer)
      → All (λ (c : Candidate). IsReclaimable c.local_path layers) (candidates site backend layers)
  unfolding candidates
  candidates-All [] = tt
  candidates-All (l ∷ layers) =
      All-append (λ (c : Candidate). IsReclaimable c.local_path (l ∷ layers)) _ _
        (All-mono _ (λ (c : Candidate). IsReclaimable c.local_path (l ∷ layers)) _ (λ c x. inl x)
          (shard_candidates-All l.layer_key l.completed_shards))
        (All-mono _ (λ (c : Candidate). IsReclaimable c.local_path (l ∷ layers)) _ (λ c x. inr x)
          (candidates-All layers))

pub All-insert :
    (P : Candidate → Type 0) (c : Candidate) (cs : List Candidate)
    → P c
    → All P cs
    → All P (insert_by_mtime c cs)
unfolding insert_by_mtime
All-insert P c [] p h = (p, tt)
All-insert P c (x ∷ xs) p h = elim (Bool-cases (leb c.mtime x.mtime)) [
  | inl t ↦ rw (t, All) (p, h)
  | inr t ↦ rw (t, All) (h.0, All-insert P c xs p h.1)
]

pub All-sort : (P : Candidate → Type 0) (cs : List Candidate) → All P cs → All P (sort_by_mtime cs)
unfolding sort_by_mtime
All-sort P [] h = tt
All-sort P (c ∷ cs) h = All-insert P c (sort_by_mtime cs) h.0 (All-sort P cs h.1)

module _ (free : Dict Stat → ℕ) where
  -- A file on scratch is as it was, or it is gone and was allowed to go.
  abbrev pub IsKeptOr : (String → Type 0) → Dict Stat → Dict Stat → String → Type 0
  IsKeptOr P scratch scratch' path =
      (lookup path scratch' ≡ lookup path scratch) ⊎ (lookup path scratch' ≡ none) × P path

  reclaim-IsKeptOr :
      (P : String → Type 0) (dry_run : Bool) (target : Option ℕ) (cs : List Candidate)
      (scratch : Dict Stat)
      → All (λ (c : Candidate). P c.local_path) cs
      → (path : String) → IsKeptOr P scratch (state (reclaim free dry_run target cs scratch)) path
  unfolding reclaim
  reclaim-IsKeptOr P dry_run target [] scratch h path = inl refl
  reclaim-IsKeptOr P dry_run target (c ∷ cs) scratch h path =
      elim (Bool-cases (is_reached free target scratch)) [
        | inl t ↦ inl (rw t refl)
        | inr t ↦ elim (Bool-cases dry_run) [
          | inl d ↦ rw (t, d) (reclaim-IsKeptOr P dry_run target cs scratch h.1 path)
          | inr d ↦ elim (Option-cases (lookup c.local_path scratch)) [
            | inl gone ↦ inl (rw (t, d) (rw gone refl))
            | inr (file, here) ↦
                rw (t, d)
                  (rw here (
                    erased (Bool-cases (str_eq c.local_path path))
                      (reclaim-IsKeptOr P dry_run target cs (erase c.local_path scratch) h.1 path)))
          ]
        ]
      ]
    where
      erased :
          {after : Option Stat}
          → (str_eq c.local_path path ≡ true) ⊎ (str_eq c.local_path path ≡ false)
          → (after ≡ lookup path (erase c.local_path scratch)) ⊎ (after ≡ none) × P path
          → (after ≡ lookup path scratch) ⊎ (after ≡ none) × P path
      erased (inl e) (inl x) = inr (
        x ∙ lookup-erase c.local_path path scratch ∙ rw e refl,
        subst P ((eq_iff c.local_path path).0 e) h.0,
      )
      erased (inr e) (inl x) = inl (x ∙ lookup-erase c.local_path path scratch ∙ rw e refl)
      erased b (inr y) = inr y

  -- However the run ends, an exception included, a file of scratch is as it was, or it is gone and
  -- is the file of a shard that a progress file marks as pushed and for which, by the backend asked
  -- for, a local pointer file stands below `.ptrs/` (hetzner), a staged file (nfs), or one of the
  -- two (both).
  pub main-IsKeptOr :
      (dry_run : Bool) (target : Option ℕ) (backend : Backend) (site : Site) (path : String)
      → IsKeptOr
          (λ path. IsReclaimable site backend path site.progress_files)
          site.scratch
          (state (main free dry_run target backend site))
          path
  unfolding main eligible_shards
  main-IsKeptOr dry_run target backend site path =
      reclaim-IsKeptOr _ dry_run target (eligible_shards site backend) site.scratch
        (All-sort _ (candidates site backend site.progress_files)
          (candidates-All site backend site.progress_files))
        path
