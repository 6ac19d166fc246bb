-- ===== src/Recovery/ReclaimTests.antt =====
-- Two shards with a copy and one without, and the theorems at that node.
use graph_extraction.Base.{
  ℕ, ◌+◌, ◌-◌, ◌≡◌, ◌≢◌, refl, true, false, none, some, [], ◌∷◌, ◌||◌, str_eq, eq_iff, arith,
}
use graph_extraction.Base.Decimal.{show_padded}
use graph_extraction.Base.Dict.{Dict, lookup, erase}
use graph_extraction.Writer.State.{ok, state}
use graph_extraction.Recovery.Rebuild.{shard_file_name}
use graph_extraction.Recovery.Reclaim.{
  Stat, Layer, both, Site, local_path_of, hetzner_ptr_exists, nfs_staged_exists, is_backed,
  candidate, shard_candidates, candidates, insert_by_mtime, sort_by_mtime, eligible_shards, reclaim,
  main,
}
use graph_extraction.Recovery.Reclaiming.{IsKeptOr, IsReclaimable, main-IsKeptOr}
use graph_extraction.Recovery.Oldest.{AreDistinct, IsSorted, IsThrifty, main-IsThrifty}

program : Unit {0}
unfolding main eligible_shards sort_by_mtime insert_by_mtime candidates shard_candidates candidate
    is_backed hetzner_ptr_exists nfs_staged_exists local_path_of lookup erase reclaim
    shard_file_name show_padded
program = tt

abbrev layer : Layer
layer = record {
  layer_key = "sweep/add_6";
  completed_shards =
      record { shard_idx = 0; virtual_path = "v0"; pushed = true }
      ∷ record { shard_idx = 1; virtual_path = "v1"; pushed = true }
      ∷ record { shard_idx = 2; virtual_path = "v2"; pushed = true }
      ∷ [];
}

-- The second shard is the oldest, and the third has no copy.
abbrev node : Site
node = record {
  scratch =
      ("sweep/add_6/shard_00000.h5", record { size = 10; mtime = 7 })
      ∷ ("sweep/add_6/shard_00001.h5", record { size = 10; mtime = 5 })
      ∷ ("sweep/add_6/shard_00002.h5", record { size = 10; mtime = 6 })
      ∷ [];
  exists = λ path.
      str_eq path "/staging/v0" || str_eq path "/nfs-share/pa511/code_bases/new_jac/.ptrs/v1.ptr";
  staging_root = "/staging";
  progress_files = layer ∷ [];
}

sizes : Dict Stat → ℕ
sizes [] = 0
sizes ((path, file) ∷ rest) = file.size + sizes rest

-- A disk of 40 bytes.
free : Dict Stat → ℕ
unfolding sizes
free scratch = 40 - sizes scratch

two_go :
    main free false (some 30) both node
    ≡ ok (("sweep/add_6/shard_00002.h5", record { size = 10; mtime = 6 }) ∷ [])
unfolding program free
two_go = refl

one_goes :
    main free false (some 20) both node
    ≡ ok (
        ("sweep/add_6/shard_00000.h5", record { size = 10; mtime = 7 })
        ∷ ("sweep/add_6/shard_00002.h5", record { size = 10; mtime = 6 })
        ∷ [])
unfolding program free
one_goes = refl

main-IsKeptOr_example :
    IsKeptOr free
      (λ path. IsReclaimable node both path node.progress_files)
      node.scratch
      (state (main free false none both node))
      "sweep/add_6/shard_00001.h5"
main-IsKeptOr_example = main-IsKeptOr free false none both node "sweep/add_6/shard_00001.h5"

false_ne_true : false ≢ true
false_ne_true q = absurd (ground arith)

differ : AreDistinct (candidates node both node.progress_files)
unfolding program
differ = (
  (
    λ e.
        absurd
          (false_ne_true ((eq_iff "sweep/add_6/shard_00000.h5" "sweep/add_6/shard_00001.h5").1 e)),
    tt,
  ),
  (tt, tt),
)

main-IsThrifty_example :
    IsSorted (eligible_shards node both)
    × IsThrifty free
        (some 20)
        (eligible_shards node both)
        node.scratch
        (main free false (some 20) both node)
main-IsThrifty_example = main-IsThrifty free (some 20) both node differ
