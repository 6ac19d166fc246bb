-- ===== src/BatchSize/Tests.antt =====
-- A node on which sizes up to 100 fit.
use graph_extraction.Base.{
  true, ◌≡◌, ◌<◌, ◌⊎◌, refl, ℕ, leb, if◌then◌else◌, inl, inr, arith, Bool-cases,
}
use graph_extraction.BatchSize.{
  Attempt, completes, runtime_error, ok, is_oom_error, fits, find_max_batch_size,
}
use graph_extraction.BatchSize.Laws.{
  Ends, Found, find_max_batch_size_lem, find_max_batch_size-capacity,
}

abbrev node : ℕ → Attempt
node batch =
    if leb batch 100
    then completes
    else runtime_error "Failed to allocate memory for requested buffer" "RuntimeException"

is_oom : is_oom_error "[E] Failed to allocate memory" "Fail" ≡ true
unfolding is_oom_error
is_oom = refl

finds_100 : find_max_batch_size node 3 65_536 ≡ ok 100
unfolding find_max_batch_size
finds_100 = refl

node_fits : (batch : ℕ) → fits node batch ≡ ok (leb batch 100)
unfolding fits
node_fits batch = elim (Bool-cases (leb batch 100)) [ inl e ↦ rw e refl | inr e ↦ rw e refl ]

find_max_batch_size_lem_example : Ends node (find_max_batch_size node 3 50) (Found node 3 50)
find_max_batch_size_lem_example = find_max_batch_size_lem node 3 50 (omega arith) (node_fits 3)

find_max_batch_size-capacity_example :
    (r : ℕ) × (find_max_batch_size node 3 50 ≡ ok r) × ((r ≡ 100) ⊎ (50 < r) × (r < 100))
find_max_batch_size-capacity_example =
    find_max_batch_size-capacity node 100 3 50 node_fits (omega arith) (omega arith)
