-- ===== src/Recovery/Oldest.antt =====
-- scripts/helper/reclaim_pushed_shards.py: the order of its deletions, and where they end.
use graph_extraction.Base.{
  ℕ, zero, suc, ◌≤◌, ◌<◌, ◌≡◌, ◌≢◌, ◌⊎◌, refl, sym, ap, ◌∙◌, inl, inr, String, true, false, ◌&&◌,
  Option, Option-cases, Bool-cases, none, some, List, [], ◌∷◌, All, All-append, All-mono, leb,
  length, take, arith,
}
use graph_extraction.Base.Texts.{str_ne}
use graph_extraction.Base.Dict.{Dict, lookup, erase, lookup-erase}
use graph_extraction.Writer.State.{Outcome, ok}
use graph_extraction.Recovery.Reclaim.{
  Stat, Shard, Layer, Backend, Site, Candidate, local_path_of, is_backed, candidate,
  shard_candidates, candidates, insert_by_mtime, sort_by_mtime, eligible_shards, is_reached,
  reclaim, main,
}
use graph_extraction.Recovery.Reclaiming.{All-insert, All-sort}

-- Oldest first.
abbrev pub IsSorted : List Candidate → Type 0
IsSorted [] = Unit
IsSorted (c ∷ cs) = All (λ (x : Candidate). c.mtime ≤ x.mtime) cs × IsSorted cs

insert-IsSorted :
    (c : Candidate) (cs : List Candidate) → IsSorted cs → IsSorted (insert_by_mtime c cs)
unfolding insert_by_mtime
insert-IsSorted c [] h = (tt, tt)
insert-IsSorted c (x ∷ xs) h = elim (Bool-cases (leb c.mtime x.mtime)) [
  | inl t ↦
      let l : c.mtime ≤ x.mtime = ground (arith, t) in
      rw (t, IsSorted)
        ((l, All-mono _ _ xs (λ y (u : x.mtime ≤ y.mtime). omega (arith, l, u)) h.0), h)
  | inr t ↦
      let l : x.mtime ≤ c.mtime = ground (arith, t) in
      rw (t, IsSorted)
        (All-insert (λ (y : Candidate). x.mtime ≤ y.mtime) c xs l h.0, insert-IsSorted c xs h.1)
]

sort-IsSorted : (cs : List Candidate) → IsSorted (sort_by_mtime cs)
unfolding sort_by_mtime
sort-IsSorted [] = tt
sort-IsSorted (c ∷ cs) = insert-IsSorted c (sort_by_mtime cs) (sort-IsSorted cs)

-- No file is listed twice.
abbrev pub AreDistinct : List Candidate → Type 0
AreDistinct [] = Unit
AreDistinct (c ∷ cs) = All (λ (x : Candidate). c.local_path ≢ x.local_path) cs × AreDistinct cs

insert-AreDistinct :
    (c : Candidate) (cs : List Candidate)
    → All (λ (x : Candidate). c.local_path ≢ x.local_path) cs
    → AreDistinct cs
    → AreDistinct (insert_by_mtime c cs)
unfolding insert_by_mtime
insert-AreDistinct c [] n h = (tt, tt)
insert-AreDistinct c (x ∷ xs) n h = elim (Bool-cases (leb c.mtime x.mtime)) [
  | inl t ↦ rw (t, AreDistinct) (n, h)
  | inr t ↦
      rw (t, AreDistinct)
        (
          All-insert (λ (y : Candidate). x.local_path ≢ y.local_path) c xs (λ e. n.0 (sym e)) h.0,
          insert-AreDistinct c xs n.1 h.1,
        )
]

sort-AreDistinct : (cs : List Candidate) → AreDistinct cs → AreDistinct (sort_by_mtime cs)
unfolding sort_by_mtime
sort-AreDistinct [] h = tt
sort-AreDistinct (c ∷ cs) h =
    insert-AreDistinct c (sort_by_mtime cs)
      (All-sort (λ (x : Candidate). c.local_path ≢ x.local_path) cs h.0) (sort-AreDistinct cs h.1)

abbrev IsPresent : Dict Stat → Candidate → Type 0
IsPresent scratch c = (file : Stat) × (lookup c.local_path scratch ≡ some file)

module _ (site : Site) (backend : Backend) where
  candidate-IsPresent :
      (layer_key : String) (s : Shard) (c : Candidate)
      → candidate site backend layer_key s ≡ some c
      → IsPresent site.scratch c
  unfolding candidate
  candidate-IsPresent layer_key s c h =
      elim (Option-cases (lookup (local_path_of layer_key s.shard_idx) site.scratch)) [
        | inl gone ↦ absurd (none_ne (rw (gone, candidate) at h))
        | inr (file, here) ↦ elim (Bool-cases (s.pushed && is_backed site backend s.virtual_path)) [
          | inr f ↦ absurd (none_ne (rw f at (rw (here, candidate) at h)))
          | inl t ↦
              let same = some_inj (rw t at (rw (here, candidate) at h)) in
              (file, ap (λ (x : Candidate). lookup x.local_path site.scratch) (sym same) ∙ here)
        ]
      ]
    where
      none_ne : {x : Candidate} → none ≢ some x
      none_ne q = absurd (ground arith)

      some_inj : {x y : Candidate} → some x ≡ some y → x ≡ y
      some_inj q = ground arith

  shard_candidates-IsPresent :
      (layer_key : String) (shards : List Shard)
      → All (IsPresent site.scratch) (shard_candidates site backend layer_key shards)
  unfolding shard_candidates
  shard_candidates-IsPresent layer_key [] = tt
  shard_candidates-IsPresent layer_key (s ∷ shards) =
      elim (Option-cases (candidate site backend layer_key s)) [
        | inl e ↦ rw (e, All) (shard_candidates-IsPresent layer_key shards)
        | inr (c, e) ↦
            rw (e, All)
              (candidate-IsPresent layer_key s c e, shard_candidates-IsPresent layer_key shards)
      ]

  candidates-IsPresent :
      (layers : List Layer) → All (IsPresent site.scratch) (candidates site backend layers)
  unfolding candidates
  candidates-IsPresent [] = tt
  candidates-IsPresent (l ∷ layers) =
      All-append (IsPresent site.scratch) _ _
        (shard_candidates-IsPresent l.layer_key l.completed_shards) (candidates-IsPresent layers)

-- What is left of scratch without these files.
abbrev pub erase_all : List Candidate → Dict Stat → Dict Stat
erase_all [] scratch = scratch
erase_all (c ∷ cs) scratch = erase_all cs (erase c.local_path scratch)

module _ (free : Dict Stat → ℕ) (target : Option ℕ) where
  -- The run ends without an exception when it has deleted the first `count` candidates: all of
  -- them, or as many as the target took and no more.
  pub record IsThrifty (cs : List Candidate) (scratch : Dict Stat) (r : Outcome (Dict Stat))
      : Type 0 where
    pub count : ℕ
    pub within : count ≤ length cs
    pub ended : r ≡ ok (erase_all (take count cs) scratch)
    pub enough :
        (count ≡ length cs) ⊎ (is_reached free target (erase_all (take count cs) scratch) ≡ true)
    pub needed :
        (j : ℕ) → j < count → is_reached free target (erase_all (take j cs) scratch) ≡ false

  erase-IsPresent :
      (c : Candidate) (cs : List Candidate) (scratch : Dict Stat)
      → All (λ (x : Candidate). c.local_path ≢ x.local_path) cs
      → All (IsPresent scratch) cs
      → All (IsPresent (erase c.local_path scratch)) cs
  erase-IsPresent c [] scratch n h = tt
  erase-IsPresent c (x ∷ xs) scratch n h =
      let (file, e) = h.0 in
      (
        (
          file,
          lookup-erase c.local_path x.local_path scratch
              ∙ rw (str_ne c.local_path x.local_path n.0) e,
        ),
        erase-IsPresent c xs scratch n.1 h.1,
      )

  reclaim-IsThrifty :
      (cs : List Candidate) (scratch : Dict Stat)
      → AreDistinct cs
      → All (IsPresent scratch) cs
      → IsThrifty cs scratch (reclaim free false target cs scratch)
  unfolding reclaim
  reclaim-IsThrifty [] scratch n h = record {
    count = 0;
    within = omega arith;
    ended = refl;
    enough = inl refl;
    needed = λ j l. absurd (omega arith);
  }
  reclaim-IsThrifty (c ∷ cs) scratch n h = elim (Bool-cases (is_reached free target scratch)) [
    | inl t ↦ record {
      count = 0;
      within = omega arith;
      ended = rw t refl;
      enough = inr t;
      needed = λ j l. absurd (omega arith);
    }
    | inr t ↦
        let (file, here) = h.0 in
        let rest =
          reclaim-IsThrifty cs (erase c.local_path scratch) n.1
            (erase-IsPresent c cs scratch n.0 h.1) in
        let w : rest.count ≤ length cs = rest.within in
        record {
          count = suc rest.count;
          within = omega (arith, w);
          ended = rw t (rw here rest.ended);
          enough = elim rest.enough [ inl a ↦ inl (ap suc a) | inr b ↦ inr b ];
          needed = needed_from t rest;
        }
  ]
    where
      needed_from :
          is_reached free target scratch ≡ false
          → (rest : IsThrifty cs
              (erase c.local_path scratch)
              (reclaim free false target cs (erase c.local_path scratch)))
          → (j : ℕ) → j < suc rest.count
          → is_reached free target (erase_all (take j (c ∷ cs)) scratch) ≡ false
      needed_from t rest zero l = t
      needed_from t rest (suc j) l = rest.needed j (omega (arith, l))

  -- No file is listed twice: then a run that is not a dry run raises nothing. It deletes eligible
  -- shards in the order of their age, the oldest first; it stops when the target is reached or none
  -- is left; and before each deletion the target was not yet reached.
  pub main-IsThrifty :
      (backend : Backend) (site : Site)
      → AreDistinct (candidates site backend site.progress_files)
      → IsSorted (eligible_shards site backend)
        × IsThrifty
            (eligible_shards site backend)
            site.scratch
            (main free false target backend site)
  unfolding main eligible_shards
  main-IsThrifty backend site n = (
    sort-IsSorted (candidates site backend site.progress_files),
    reclaim-IsThrifty (eligible_shards site backend) site.scratch
        (sort-AreDistinct (candidates site backend site.progress_files) n)
        (All-sort (IsPresent site.scratch) (candidates site backend site.progress_files)
          (candidates-IsPresent site backend site.progress_files)),
  )
