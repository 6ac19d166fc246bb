-- ===== src/Recovery/FinishTests.antt =====
-- A layer of two shards, the second of which has other content on the server.
use graph_extraction.Base.{ℕ, ◌≡◌, refl, String, false, none, some, List, [], ◌∷◌}
use graph_extraction.Base.Dict.{lookup, insert}
use graph_extraction.Base.Decimal.{show_padded}
use graph_extraction.Upload.State.{
  Library, LocalPath, ptr_name, ends_with, basename, has_slash, pointer, File, State, set_file,
}
use graph_extraction.Upload.Push.{
  load_ptr, new_ptr, digest_of, decide_conflict, upload_plan, push_plan, apply, run, push_file,
  push_files, can_start, files_of, answered_yes, cmd_push,
}
use graph_extraction.RemoteStorage.{push}
use graph_extraction.Recovery.Rebuild.{shard_file_name}
use graph_extraction.Recovery.Finish.{
  LayerShard, mark, LayerSite, LayerEnd, finished, Sitting, scratch_path, push_shard, finish_shards,
  finish_layer,
}

abbrev texts : Library
texts = record { Content = String; hash = λ c. c; size = λ c. 4; h5_meta = λ c. none }

abbrev night : Sitting
night = record {
  now = λ i. 9;
  isatty = false;
  answers = λ i. [];
  last_answers = λ i. [];
  breaks = λ i. none;
}

abbrev shard : ℕ → String → LayerShard
shard i virtual_path = record {
  shard_idx = i;
  row_start = i;
  row_end = i;
  virtual_path = virtual_path;
  pushed = false;
}

abbrev file : String → File texts
file content = record { content = content; mtime = 7 }

abbrev place : ℕ → LocalPath
place i = scratch_path "/s" "l" i

abbrev node : State texts
node = record {
  files =
      set_file texts (place 0) (some (file "zero"))
        (set_file texts (place 1) (some (file "ones")) (λ q. none));
  ptrs = [];
  index = ("b.ptr", pointer (new_ptr texts 1 (place 1) (some "b") "old" 3 (file "old"))) ∷ [];
  cache = ("old", "old") ∷ [];
}

abbrev layer : LayerSite texts String
layer = record {
  remote = node;
  progress = record {
    n_rows = 2;
    next_row = 2;
    kinds = "f32";
    completed_shards = shard 0 "a" ∷ shard 1 "b" ∷ [];
  };
  manifest = none;
}

abbrev after : LayerEnd texts String
after = finish_layer texts String "/s" "l" night false layer

abbrev blobs : LayerEnd texts String → List (String × String)
blobs (finished site) = site.remote.cache
blobs (LayerEnd.broken_off site) = []

-- The second shard is not stored, but it is marked as pushed with the first one.
abbrev shards_after : LayerEnd texts String → List LayerShard
shards_after (finished site) = site.progress.completed_shards
shards_after (LayerEnd.broken_off site) = []

all_marked : shards_after after ≡ mark (shard 0 "a") ∷ mark (shard 1 "b") ∷ []
unfolding finish_layer finish_shards push_shard push cmd_push push_files push_file push_plan
    upload_plan digest_of load_ptr decide_conflict run apply can_start files_of answered_yes lookup
    insert shard_file_name show_padded ptr_name ends_with basename has_slash
all_marked = refl
