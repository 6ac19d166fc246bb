-- ===== src/Writer/Loading.antt =====
-- `load_shard_rows` reads back every row of the recorded shards, wherever their files are.
use mathlib.Core.Path.{ap₂}
use graph_extraction.Base.{
  ℕ, suc, ◌-◌, ◌≤◌, ◌<◌, ◌≡◌, ◌≢◌, refl, sym, ap, ◌∙◌, String, true, false, Bool-cases,
  Option-cases, inl, inr, some, List, [], ◌∷◌, ◌++◌, map, All, leb, arith,
}
use graph_extraction.Base.Dict.{Dict, Files, update, update_ne, lookup}
use graph_extraction.Base.Slices.{seg, seg-append, seg-zero}
use graph_extraction.Writer.H5.{H5}
use graph_extraction.Writer.Transport.{Disk, Transport, IsReliable}
use graph_extraction.Writer.State.{Entry, File, World, Manifest}
use graph_extraction.Writer.Lifecycle.{
  loaded, append_rows, fetch_shard, load_shards, insert_sorted, sort_shards, load_shard_rows,
  start_names,
}
use graph_extraction.Writer.Shards.{Holds, IsKept, Shards, Shards-irrelevant}
use graph_extraction.Writer.Filling.{rows_of-some}

module _ {V : Type 0} (H : H5 V) (schema : Dict H.Spec) (g : String → ℕ → V) where
  -- The name is one of the schema's.
  abbrev pub InSchema : String → Type 0
  InSchema name = (spec : H.Spec) × (lookup name schema ≡ some spec)

  -- The first `z` rows of each dataset.
  abbrev pub rows_up_to : List String → ℕ → Dict (List V)
  rows_up_to names z = map (λ name. (name, seg (g name) 0 z)) names

  append_rows-Holds :
      (names : List String) (a : ℕ) (e : Entry) (f : File H)
      → All InSchema names
      → e.row_start ≡ a
      → a ≤ e.row_end
      → Holds H schema g f e
      → append_rows H (rows_up_to names a) f ≡ some (rows_up_to names e.row_end)
  unfolding append_rows
  append_rows-Holds [] a e f known s le h = refl
  append_rows-Holds (name ∷ names) a e f ((spec, k), known) s le h =
      let (d, x, y) = rows_of-some H f name _ (h.dataset name spec k) in
      let rest = append_rows-Holds names a e f known s le h in
      let joined : seg (g name) 0 a ++ H.rows d ≡ seg (g name) 0 e.row_end =
        ap (λ ys. seg (g name) 0 a ++ ys) y
        ∙ seg-append (g name) 0 a (e.row_end - e.row_start) e.row_start e.row_end (omega arith)
            (omega arith) in
      rw (x, append_rows) (rw (rest, append_rows) (rw joined))

  -- The shards of a sound list are in order.
  sort_shards-Shards :
      (m s : Files (File H)) (i a : ℕ) (es : List Entry) (z : ℕ)
      → Shards H schema g true m s i a es z
      → sort_shards H es ≡ es
  unfolding sort_shards insert_sorted
  sort_shards-Shards m s i a [] z h = refl
  sort_shards-Shards m s i a (e ∷ []) z h = refl
  sort_shards-Shards m s i a (e ∷ x ∷ es) z h =
      let t : leb e.shard_idx x.shard_idx ≡ true = ground (arith, h.0.idx, h.1.0.idx) in
      ap (insert_sorted H e) (sort_shards-Shards m s (suc i) e.row_end (x ∷ es) z h.1) ∙ rw t

  module _ (T : Transport (File H)) where
    -- The file of a kept shard is found, and no other file changes on the way.
    pub record Fetched (i : ℕ) (e : Entry) (d : Disk (File H)) : Type 0 where
      file : File H
      disk : Disk (File H)
      found : fetch_shard H T e d ≡ some (file, disk)
      holds : Holds H schema g file e
      others : (j : ℕ) → j ≢ i → disk.scratch j ≡ d.scratch j
      same_store : (j : ℕ) → disk.store j ≡ d.store j

    fetch_local :
        (i a : ℕ) (e : Entry) (d : Disk (File H))
        → IsKept H schema g true d.scratch d.store i a e
        → e.pushed ≡ false
        → Fetched i e d
    unfolding fetch_shard
    fetch_local i a e d k p =
        let (f, x) = k.present refl p in
        let x' : d.scratch e.shard_idx ≡ some f = ap d.scratch k.idx ∙ x in
        record {
          file = f;
          disk = d;
          found = rw (p) (rw x');
          holds = k.on_scratch f x;
          others = λ j n. refl;
          same_store = λ j. refl;
        }

    -- The shards for which `Q` holds can be fetched.
    module _ (Q : Entry → Type 0)
        (fetch : (i a : ℕ) (e : Entry) (d : Disk (File H))
          → Q e
          → IsKept H schema g true d.scratch d.store i a e
          → Fetched i e d) where
      load_shards-Shards :
          (names : List String) (i a : ℕ) (es : List Entry) (z : ℕ) (d : Disk (File H))
          → All InSchema names
          → All Q es
          → Shards H schema g true d.scratch d.store i a es z
          → load_shards H T es (rows_up_to names a) d ≡ loaded (rows_up_to names z)
      unfolding load_shards
      load_shards-Shards names i a [] z d known q h = rw h
      load_shards-Shards names i a (e ∷ es) z d known q h =
          let got = fetch i a e d q.0 h.0 in
          let n : a < e.row_end = h.0.nonempty in
          let added =
            append_rows-Holds names a e got.file known h.0.start (omega arith) got.holds in
          rw (got.found, load_shards)
            (rw (added, load_shards)
              (load_shards-Shards names (suc i) e.row_end es z got.disk known q.1 (
                Shards-irrelevant H schema g true d.scratch d.store got.disk.scratch got.disk.store
                  (suc i) e.row_end es z (λ j x y. got.others j (λ t. absurd (omega arith)))
                  (λ j x y. got.same_store j) h.1)))

      rows_up_to-zero : (names : List String) → start_names H names ≡ rows_up_to names 0
      rows_up_to-zero [] = refl
      rows_up_to-zero (n ∷ ns) =
          ap₂ (λ (x : List V) (ys : Dict (List V)). (n, x) ∷ ys) (sym (seg-zero (g n) 0))
            (rows_up_to-zero ns)

      load_with :
          (n : String) (ns : List String) (es : List Entry) (z : ℕ) (d : World H) (m : Manifest H)
          → d.manifest_file ≡ some m
          → m.shards ≡ es
          → 0 < z
          → All InSchema (n ∷ ns)
          → All Q es
          → Shards H schema g true d.scratch d.store 0 0 es z
          → load_shard_rows H T (some (n ∷ ns)) d ≡ loaded (rows_up_to (n ∷ ns) z)
      unfolding load_shard_rows
      load_with n ns [] z d m e q pos known each h = absurd (omega (arith, h))
      load_with n ns (x ∷ es) z d m e q pos known each h =
          let ordered : sort_shards H m.shards ≡ x ∷ es =
            ap (sort_shards H) q ∙ sort_shards-Shards d.scratch d.store 0 0 (x ∷ es) z h in
          rw (e, load_shard_rows)
            (rw (ordered, load_shard_rows)
              (ap
                  (λ out.
                    load_shards H T (x ∷ es) out (record { scratch = d.scratch; store = d.store }))
                  (rows_up_to-zero (n ∷ ns))
                ∙ load_shards-Shards (n ∷ ns) 0 0 (x ∷ es) z _ known each h))

    module _ (R : IsReliable T) where
      fetch_pushed :
          (i a : ℕ) (e : Entry) (d : Disk (File H))
          → IsKept H schema g true d.scratch d.store i a e
          → e.pushed ≡ true
          → Fetched i e d
      unfolding fetch_shard
      fetch_pushed i a e d k p = elim (Option-cases (d.scratch e.virtual_path)) [
        | inl gone ↦
            let (f, x, good) = k.in_store p in
            let x' : d.store e.virtual_path ≡ some f = ap d.store k.path ∙ x in
            record {
              file = f;
              disk = record d { scratch = update d.scratch e.virtual_path (some f) };
              found = rw (p, R.ensure_local_pulled e.virtual_path d f gone x') refl;
              holds = good;
              others = λ j n. update_ne d.scratch e.virtual_path j (some f) (λ t. n (t ∙ k.path));
              same_store = λ j. refl;
            }
        | inr (f, x) ↦ record {
          file = f;
          disk = d;
          found = rw (p, R.ensure_local_present e.virtual_path d f x) refl;
          holds = k.on_scratch f (ap d.scratch (sym k.path) ∙ x);
          others = λ j n. refl;
          same_store = λ j. refl;
        }
      ]

      fetch_kept :
          (i a : ℕ) (e : Entry) (d : Disk (File H))
          → IsKept H schema g true d.scratch d.store i a e
          → Fetched i e d
      fetch_kept i a e d k = elim (Bool-cases e.pushed) [
        | inl p ↦ fetch_pushed i a e d k p
        | inr p ↦ fetch_local i a e d k p
      ]

      each_tt : (es : List Entry) → All (λ (e : Entry). Unit {0}) es
      each_tt [] = tt
      each_tt (e ∷ es) = (tt, each_tt es)

      pub load_shard_rows-Shards :
          (n : String) (ns : List String) (es : List Entry) (z : ℕ) (d : World H) (m : Manifest H)
          → d.manifest_file ≡ some m
          → m.shards ≡ es
          → 0 < z
          → All InSchema (n ∷ ns)
          → Shards H schema g true d.scratch d.store 0 0 es z
          → load_shard_rows H T (some (n ∷ ns)) d ≡ loaded (rows_up_to (n ∷ ns) z)
      load_shard_rows-Shards n ns es z d m e q pos known h =
          load_with (λ (x : Entry). Unit {0}) (λ i a x b u k. fetch_kept i a x b k) n ns es z d m e
            q pos known (each_tt es) h

    -- Shards that are not pushed are read off scratch, whatever the backend.
    pub load_shard_rows-unpushed :
        (n : String) (ns : List String) (es : List Entry) (z : ℕ) (d : World H) (m : Manifest H)
        → d.manifest_file ≡ some m
        → m.shards ≡ es
        → 0 < z
        → All InSchema (n ∷ ns)
        → All (λ (e : Entry). e.pushed ≡ false) es
        → Shards H schema g true d.scratch d.store 0 0 es z
        → load_shard_rows H T (some (n ∷ ns)) d ≡ loaded (rows_up_to (n ∷ ns) z)
    load_shard_rows-unpushed n ns es z d m e q pos known each h =
        load_with (λ (x : Entry). x.pushed ≡ false) (λ i a x b u k. fetch_local i a x b k u) n ns es
          z d m e q pos known each h
