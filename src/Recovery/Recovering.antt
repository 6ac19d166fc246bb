-- ===== src/Recovery/Recovering.antt =====
-- The first pass of scripts/helper/reconstruct_perturbed_sweep_manifests.py, and the loader.
use graph_extraction.Base.{
  ℕ, suc, ◌+◌, ◌≤◌, ◌<◌, ◌≡◌, ◌⊎◌, refl, sym, subst, inl, inr, String, Bool, true, false, ◌&&◌,
  ◌||◌, not, none, some, List, [], ◌∷◌, map, length, All, if◌then◌else◌, arith,
}
use graph_extraction.Base.Dict.{Dict, Files, NodupKeys}
use graph_extraction.Writer.H5.{H5}
use graph_extraction.Writer.Transport.{Transport}
use graph_extraction.Writer.State.{Outcome, ok, raised, ok, Entry, Config, File, Progress, World}
use graph_extraction.Writer.Steps.{is_none}
use graph_extraction.Writer.Lifecycle.{load_shard_rows, loaded, manifest_of}
use graph_extraction.Writer.Shards.{Shards, Shards-le}
use graph_extraction.Writer.Loading.{InSchema, rows_up_to, load_shard_rows-unpushed}
use graph_extraction.Recovery.Rebuild.{
  Reading, reconstruct_progress, write_rebuilt, write_manifest_for_layer,
}
use graph_extraction.Recovery.Rebuilding.{
  unpushed, IsOfLayer, IsProgressOf, reconstruct_progress-Shards,
}

module _ {V : Type 0} {H : H5 V} (h5 : Reading H)
    (spec_eq_refl : (s : H.Spec) → h5.spec_eq s s ≡ true) (cfg : Config H) (g : String → ℕ → V)
    (distinct : NodupKeys cfg.schema) (attrs : Dict String) (distinct_attrs : NodupKeys attrs) where
  each-unpushed : (es : List Entry) → All (λ (e : Entry). e.pushed ≡ false) (map unpushed es)
  each-unpushed [] = tt
  each-unpushed (e ∷ es) = (refl, each-unpushed es)

  -- Shards whose files all lie on scratch are as good without their marks.
  Shards-unpushed :
      (live : Bool) (m s : Files (File H)) (i a : ℕ) (es : List Entry) (z : ℕ)
      → ((j : ℕ) → i ≤ j → j < i + length es → (f : File H) × (m j ≡ some f))
      → Shards H cfg.schema g live m s i a es z
      → Shards H cfg.schema g true m s i a (map unpushed es) z
  Shards-unpushed live m s i a [] z here h = h
  Shards-unpushed live m s i a (e ∷ es) z here h = (
    record {
      idx = h.0.idx;
      path = h.0.path;
      start = h.0.start;
      nonempty = h.0.nonempty;
      on_scratch = λ f x.
          let good = h.0.on_scratch f x in
          record { same_start = good.same_start; same_end = good.same_end; dataset = good.dataset };
      in_store = λ t. absurd (ground arith);
      present = λ t u. here i (omega arith) (omega arith);
    },
    Shards-unpushed live m s (suc i) e.row_end es z (λ j u v. here j (omega arith) (omega arith))
        h.1,
  )

  module _ (T : Transport (File H)) (name : String) (names : List String)
      (known : All (InSchema H cfg.schema g) (name ∷ names)) (d : World H)
      (of_layer : (j : ℕ) (f : File H)
        → d.scratch j ≡ some f
        → IsOfLayer h5 spec_eq_refl cfg.schema attrs distinct distinct_attrs f) where
    -- The first pass returns, with the layer due for the second, and the rows up to `z` load.
    abbrev pub IsRecovered : ℕ → Outcome (World H × Bool) → Type 0
    IsRecovered z (raised e r) = ⊥
    IsRecovered z (ok (d', due)) =
        (due ≡ true)
        × (load_shard_rows H T (some (name ∷ names)) d'
            ≡ loaded (rows_up_to H cfg.schema g (name ∷ names) z))

    rebuilt-IsRecovered :
        (z : ℕ) (es : List Entry) (p : Progress H)
        → 0 < z
        → Shards H cfg.schema g true d.scratch d.store 0 0 (map unpushed es) z
        → IsProgressOf h5 spec_eq_refl cfg.schema attrs distinct distinct_attrs g d.scratch d.store
            of_layer es z p
        → IsRecovered z (write_rebuilt h5 (some p) d)
    rebuilt-IsRecovered z es p pos h q = (
      refl,
      load_shard_rows-unpushed H cfg.schema g T name names (map unpushed es) z
          (record d { progress_file = some p; manifest_file = some (manifest_of H p) })
          (manifest_of H p) refl q.completed pos known (each-unpushed es) h,
    )

    -- A layer's shards, of which there are any, all lie on scratch, numbered below `limit`, at most
    -- 100000, with the layer's schema and with attributes that agree once `int()` is applied to the
    -- numbers among them; no other shard file does; and there is neither a progress file nor a
    -- manifest, or `force` is set. The first pass then returns, and
    -- counts the layer as one whose shards are to be pushed; and with the manifest that it has
    -- written, all the rows of these shards load on the node, for datasets that the schema names.
    pub write_manifest_for_layer-IsRecovered :
        (live force : Bool) (limit : ℕ) (e : Entry) (es : List Entry) (z : ℕ)
        → Shards H cfg.schema g live d.scratch d.store 0 0 (e ∷ es) z
        → length (e ∷ es) ≤ limit
        → limit ≤ 100000
        → ((j : ℕ) → j < length (e ∷ es) → (f : File H) × (d.scratch j ≡ some f))
        → ((j : ℕ) → length (e ∷ es) ≤ j → d.scratch j ≡ none)
        → (d.progress_file ≡ none) × (d.manifest_file ≡ none) ⊎ (force ≡ true)
        → IsRecovered z (write_manifest_for_layer h5 force limit d)
    unfolding write_manifest_for_layer
    write_manifest_for_layer-IsRecovered live force limit e es z h l five here gap due =
        let (p, x, q) =
          reconstruct_progress-Shards h5 spec_eq_refl cfg.schema attrs distinct distinct_attrs g
            d.scratch d.store of_layer live limit e es z h l five here gap in
        let shards =
          Shards-unpushed live d.scratch d.store 0 0 (e ∷ es) z (λ j u v. here j (omega (arith, v)))
            h in
        let n : 0 < e.row_end = h.0.nonempty in
        let pos : 0 < z =
          omega (arith, n, Shards-le H cfg.schema g live d.scratch d.store 1 e.row_end es z h.1) in
        let t : ((not (is_none d.progress_file) || not (is_none d.manifest_file)) && not force)
            ≡ false =
          runs due in
        subst
          (λ b. IsRecovered z (
            if b
            then ok (d, false)
            else write_rebuilt h5 (reconstruct_progress h5 limit d.scratch) d))
          (sym t)
          (subst (λ o. IsRecovered z (write_rebuilt h5 o d)) (sym x)
            (rebuilt-IsRecovered z (e ∷ es) p pos shards q))
      where
        and_false : (b : Bool) → (b && false) ≡ false
        and_false true = refl
        and_false false = refl

        runs :
            (d.progress_file ≡ none) × (d.manifest_file ≡ none) ⊎ (force ≡ true)
            → ((not (is_none d.progress_file) || not (is_none d.manifest_file)) && not force)
              ≡ false
        runs (inl (x, y)) = rw (x, y) refl
        runs (inr x) =
            rw x (and_false (not (is_none d.progress_file) || not (is_none d.manifest_file)))
