-- ===== src/Recovery/Marking.antt =====
-- The shards of `finish_layer`, which are marked one by one, and its pushes.
use graph_extraction.Base.{
  ℕ, ◌≡◌, ◌⊎◌, refl, ap, ◌∙◌, inl, inr, String, Bool, true, false, Bool-cases, Option-cases, Option,
  none, some, List, [], ◌∷◌, ◌++◌, take, Any,
}
use graph_extraction.Upload.State.{Library, LocalPath, Answer, File, State}
use graph_extraction.Upload.Push.{
  left_by, state_after, Pushed, note_outcome, end_push, single, Effect, put_blob, write_ptr,
  write_index, apply, run, push_plan, push_file, push_files, cmd_push, can_start, files_of,
}
use graph_extraction.RemoteStorage.{push}
use graph_extraction.Recovery.Finish.{LayerShard, mark, Sitting, scratch_path, push_shard}

-- The shards with some more of them marked as pushed.
abbrev pub IsMarked : LayerShard → LayerShard → Type 0
IsMarked o s = (s ≡ o) ⊎ (s ≡ mark o)

abbrev pub AreMarked : List LayerShard → List LayerShard → Type 0
AreMarked [] [] = Unit
AreMarked [] (t ∷ ts) = ⊥
AreMarked (s ∷ ss) [] = ⊥
AreMarked (s ∷ ss) (t ∷ ts) = IsMarked s t × AreMarked ss ts

pub AreMarked-refl : (ss : List LayerShard) → AreMarked ss ss
AreMarked-refl [] = tt
AreMarked-refl (s ∷ ss) = (inl refl, AreMarked-refl ss)

-- One shard changes.
pub AreMarked-change :
    (os done rest : List LayerShard) (s t : LayerShard)
    → ((o : LayerShard) → IsMarked o s → IsMarked o t)
    → AreMarked os (done ++ s ∷ rest)
    → AreMarked os ((done ++ t ∷ []) ++ rest)
AreMarked-change [] [] rest s t f h = h
AreMarked-change (o ∷ os) [] rest s t f h = (f o h.0, h.1)
AreMarked-change [] (d ∷ done) rest s t f h = h
AreMarked-change (o ∷ os) (d ∷ done) rest s t f h = (h.0, AreMarked-change os done rest s t f h.1)

pub IsMarked-mark : (s o : LayerShard) → IsMarked o s → IsMarked o (mark s)
IsMarked-mark s o (inl e) = inr (ap mark e)
IsMarked-mark s o (inr e) = inr (ap mark e)

pub AreMarked-nil : (os done : List LayerShard) → AreMarked os (done ++ []) → AreMarked os done
AreMarked-nil [] [] h = h
AreMarked-nil (o ∷ os) [] h = h
AreMarked-nil [] (d ∷ done) h = h
AreMarked-nil (o ∷ os) (d ∷ done) h = (h.0, AreMarked-nil os done h.1)

pub Any-behind :
    (P : LayerShard → Type 0) (done rest : List LayerShard) (s : LayerShard)
    → P s
    → Any P (done ++ s ∷ rest)
Any-behind P [] rest s p = inl p
Any-behind P (d ∷ done) rest s p = inr (Any-behind P done rest s p)

abbrev pub IsPushed : LayerShard → Type 0
IsPushed s = s.pushed ≡ true

module _ (L : Library) where
  run-files : (es : List (Effect L)) (t : State L) → (run L es t).files ≡ t.files
  unfolding run apply
  run-files [] t = refl
  run-files (put_blob digest c ∷ es) t = run-files es _
  run-files (write_ptr path p ∷ es) t = run-files es _
  run-files (write_index path p ∷ es) t = run-files es _

  push_file-files :
      (now : ℕ) (path : LocalPath) (virtual_path : Option String) (force : Bool)
      (answers : List Answer) (t : State L)
      → (state_after L (push_file L now path virtual_path force answers t) t).files ≡ t.files
  unfolding push_file
  push_file-files now path virtual_path force answers t = elim (Option-cases (t.files path)) [
    | inl x ↦ rw (state_after, x) refl
    | inr (f, x) ↦
        rw (state_after, x)
          (run-files (push_plan L now path virtual_path f force answers t).effects t)
  ]

  note_outcome-state :
      (path : LocalPath) (o : Option (Bool × State L)) (r : Pushed L)
      → (note_outcome L path o r).state ≡ r.state
  note_outcome-state path none r = refl
  note_outcome-state path (some (true, t)) r = refl
  note_outcome-state path (some (false, t)) r = refl

  end_push-files : (r : Pushed L) → (left_by L (end_push L false r)).files ≡ r.state.files
  end_push-files r = elim (Bool-cases r.raised) [ inl e ↦ rw e refl | inr e ↦ rw e refl ]

  -- A push of one file, without a terminal and without `auto_delete`, leaves the local files.
  push-files :
      (now : ℕ) (path : LocalPath) (virtual_path : Option String) (force : Bool)
      (answers last_answers : List Answer) (t : State L)
      → (left_by L (push L now path false virtual_path force answers false last_answers t)).files
        ≡ t.files
  unfolding push cmd_push files_of push_files
  push-files now path virtual_path force answers last_answers t =
      elim (Bool-cases (can_start L (single path virtual_path) t)) [
        | inl x ↦ rw x (
            end_push-files (push_files L now virtual_path force (λ q. answers) (path ∷ []) t)
            ∙ ap (λ (u : State L). u.files)
                (note_outcome-state path (push_file L now path virtual_path force answers t) _)
            ∙ push_file-files now path virtual_path force answers t)
        | inr x ↦ rw x refl
      ]

  module _ (scratch_root layer_key : String) (sitting : Sitting)
      (unattended : sitting.isatty ≡ false) where
    pub push_shard-files :
        (s : LayerShard) (f : File L) (t : State L)
        → (left_by L (push_shard L scratch_root layer_key sitting s f t)).files ≡ t.files
    unfolding push_shard
    push_shard-files s f t = elim (Option-cases (sitting.breaks s.shard_idx)) [
      | inl x ↦ rw (left_by, x, unattended) (push-files _ _ _ false _ _ t)
      | inr (k, x) ↦
          rw (left_by, x)
            (run-files
              (take k
                (push_plan L (sitting.now s.shard_idx)
                  (scratch_path scratch_root layer_key s.shard_idx) (some s.virtual_path) f false
                  (sitting.answers s.shard_idx) t).effects)
              t)
    ]
