-- ===== src/Writer/Tests.antt =====
-- A small layer, and the theorems at that layer.
use graph_extraction.Base.{◌≡◌, inr, refl, none, some, [], ◌∷◌, arith}
use graph_extraction.Base.Dict.{update, lookup, insert}
use graph_extraction.Base.Slices.{seg}
use graph_extraction.Writer.State.{raised, value_error, type_error, Writer, world, state}
use graph_extraction.Writer.Steps.{
  init, open_shard, close_and_upload_shard, flush, submit_upload, wait_pending_uploads, wait_times,
  record_shard, wait_oldest_pending_upload,
}
use graph_extraction.Writer.Rows.{write_rows, write_loop, write_chunk, write_datasets, end_chunk}
use graph_extraction.Writer.Invariant.{IsDurable, IsValid, Ensures}
use graph_extraction.Writer.Resuming.{init-IsValid}
use graph_extraction.Writer.Writing.{At, write_rows-Ensures, write_rows_refused}
use graph_extraction.Writer.Finishing.{close_early}
use graph_extraction.Writer.Loading.{rows_up_to}
use graph_extraction.Writer.Runs.{
  alive, down, Reach, here, next, start, write, lose, kill, Reach-IsGood, run-load_shard_rows,
}
use graph_extraction.Writer.Lifecycle.{close, load_shard_rows, loaded}
use graph_extraction.Writer.Sample.{
  block-IsBlock, lists, lists-IsLawful, lists-IsFixed, steady, steady-IsReliable, config, value,
  block, empty_world,
}

program : Unit {0}
unfolding init write_rows close load_shard_rows lookup insert seg write_loop write_chunk open_shard
    write_datasets end_chunk close_and_upload_shard flush submit_upload wait_pending_uploads
    wait_times record_shard wait_oldest_pending_upload
program = tt

abbrev first_writer : Writer lists
first_writer = init lists config empty_world

abbrev all_written : Writer lists
all_written = state (write_rows lists steady config 0 5 (block 0 5) first_writer)

run_of_five :
    load_shard_rows lists steady
      (some ("x" ∷ "k" ∷ []))
      (world lists (state (close lists steady config all_written)))
    ≡ loaded (("x", 0 ∷ 1 ∷ 2 ∷ 3 ∷ 4 ∷ []) ∷ ("k", 100 ∷ 101 ∷ 102 ∷ 103 ∷ 104 ∷ []) ∷ [])
unfolding program
run_of_five = refl

first-IsValid : IsValid lists config value first_writer
first-IsValid = init-IsValid lists config value empty_world (λ p e. absurd (ground (arith, e)))

init-IsValid_example : IsValid lists config value (init lists config empty_world)
init-IsValid_example =
    init-IsValid lists config value empty_world (λ p e. absurd (ground (arith, e)))

write_rows-Ensures_example :
    Ensures lists config value
      (At lists config value lists-IsLawful (omega arith) steady steady-IsReliable (omega arith) 5)
      (write_rows lists steady config 0 5 (block 0 5) first_writer)
unfolding program
write_rows-Ensures_example =
    write_rows-Ensures lists config value lists-IsLawful (omega arith) steady steady-IsReliable
      (omega arith) 0 5 (block 0 5) (block-IsBlock 0 5) (omega arith) first_writer first-IsValid
      refl (omega arith)

write_rows_refused_example :
    write_rows lists steady config 0 6 (block 0 6) first_writer ≡ raised value_error first_writer
write_rows_refused_example =
    write_rows_refused lists steady config 0 6 (block 0 6) first_writer (omega arith)
      (inr (omega arith))

run_to_end : Reach lists config value steady (down empty_world) (alive all_written)
unfolding program
run_to_end =
    next (next here (start empty_world))
      (write first_writer 5 (block 0 5) (omega arith) (omega arith) (block-IsBlock 0 5))

run-load_shard_rows_example :
    Ensures lists config value
      (λ w'.
        load_shard_rows lists steady (some ("x" ∷ "k" ∷ [])) (world lists w')
        ≡ loaded (rows_up_to lists config.schema value ("x" ∷ "k" ∷ []) 5))
      (close lists steady config all_written)
unfolding program
run-load_shard_rows_example =
    run-load_shard_rows lists config value lists-IsLawful (omega arith) steady steady-IsReliable
      (omega arith) empty_world all_written "x" ("k" ∷ []) refl run_to_end refl (omega arith)
      (("float32", refl), (("float32", refl), tt))

-- The process is killed after three rows, and the file that was being written is lost.
abbrev three_written : Writer lists
three_written = state (write_rows lists steady config 0 3 (block 0 3) first_writer)

run_killed :
    Reach lists config value steady
      (down empty_world)
      (down (record (world lists three_written) { scratch = update three_written.scratch 1 none }))
unfolding program
run_killed =
    next
      (next
        (next (next here (start empty_world))
          (write first_writer 3 (block 0 3) (omega arith) (omega arith) (block-IsBlock 0 3)))
        (kill three_written))
      (lose (world lists three_written) 1)

Reach-IsGood_example :
    IsDurable lists config value
      (record (world lists three_written) { scratch = update three_written.scratch 1 none })
Reach-IsGood_example =
    Reach-IsGood lists config value lists-IsLawful (omega arith) steady steady-IsReliable
      (omega arith) run_killed (λ p e. absurd (ground (arith, e)))

three-IsValid : IsValid lists config value three_written
unfolding program
three-IsValid =
    (write_rows-Ensures lists config value lists-IsLawful (omega arith) steady steady-IsReliable
      (omega arith) 0 3 (block 0 3) (block-IsBlock 0 3) (omega arith) first_writer first-IsValid
      refl (omega arith)).0

-- One row into the second shard, `close` raises.
close_early_example : close lists steady config three_written ≡ raised type_error three_written
unfolding program
close_early_example =
    close_early lists config value steady lists-IsFixed three_written _ "x" "float32"
      (("k", "float32") ∷ []) three-IsValid refl refl
