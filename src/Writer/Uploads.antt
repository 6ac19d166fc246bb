-- ===== src/Writer/Uploads.antt =====
-- Waiting for uploads and submitting them keeps every recorded shard within reach.
use graph_extraction.Base.{
  ℕ, zero, suc, ◌-◌, ◌<◌, ◌≡◌, ◌≢◌, ◌⊎◌, inl, inr, refl, ap, ◌∙◌, String, Bool, true, false, none,
  some, List, [], ◌∷◌, ◌++◌, length, All, All-append, Option-cases, if◌then◌else◌, arith,
}
use graph_extraction.Base.Dict.{Files, update, update_self, update_ne}
use graph_extraction.Writer.H5.{H5}
use graph_extraction.Writer.Transport.{Disk, Transport, IsReliable, uploaded}
use graph_extraction.Writer.State.{Entry, Upload, Config, File, Writer}
use graph_extraction.Writer.Steps.{
  mark_pushed, save_progress, finish_upload, pop_oldest, wait_oldest_pending_upload, wait_times,
  wait_pending_uploads, make_room, submit_upload,
}
use graph_extraction.Writer.Shards.{Shards-mark_pushed}
use graph_extraction.Writer.Invariant.{
  NamesShard, IsStored, IsStored-IsDurable, Ensures, Ensures-bind, Ensures-mono,
}

length-mark_pushed : (i : ℕ) (es : List Entry) → length (mark_pushed i es) ≡ length es
unfolding mark_pushed
length-mark_pushed zero [] = refl
length-mark_pushed (suc i) [] = refl
length-mark_pushed zero (e ∷ es) = refl
length-mark_pushed (suc i) (e ∷ es) = ap suc (length-mark_pushed i es)

module _ {F : Type 0} (m : Files F) (j : ℕ) where
  after_delete_self :
      (auto_delete : Bool) (i : ℕ)
      → i ≡ j
      → ((if auto_delete then update m i none else m) j ≡ none)
        ⊎ ((if auto_delete then update m i none else m) j ≡ m j)
  after_delete_self true i h = inl (update_self m i j none h)
  after_delete_self false i h = inr refl

  after_delete_ne :
      (auto_delete : Bool) (i k : ℕ)
      → i ≡ j
      → k ≢ j
      → (if auto_delete then update m i none else m) k ≡ m k
  after_delete_ne true i k h n = update_ne m i k none (λ e. n (e ∙ h))
  after_delete_ne false i k h n = refl

-- What waiting for uploads leaves alone.
pub record IsUntouched {V : Type 0} {H : H5 V} (w w' : Writer H) : Type 0 where
  pub next_row : w'.next_row ≡ w.next_row
  pub cur_h5 : w'.cur_h5 ≡ w.cur_h5
  pub cur_shard_idx : w'.cur_shard_idx ≡ w.cur_shard_idx
  pub cur_shard_start : w'.cur_shard_start ≡ w.cur_shard_start
  pub count : length w'.progress.completed_shards ≡ length w.progress.completed_shards

module _ {V : Type 0} {H : H5 V} where
  pub IsUntouched-refl : (w : Writer H) → IsUntouched w w
  IsUntouched-refl w = record {
    next_row = refl;
    cur_h5 = refl;
    cur_shard_idx = refl;
    cur_shard_start = refl;
    count = refl;
  }

  pub IsUntouched-trans :
      {w w' w'' : Writer H} → IsUntouched w w' → IsUntouched w' w'' → IsUntouched w w''
  IsUntouched-trans a b = record {
    next_row = b.next_row ∙ a.next_row;
    cur_h5 = b.cur_h5 ∙ a.cur_h5;
    cur_shard_idx = b.cur_shard_idx ∙ a.cur_shard_idx;
    cur_shard_start = b.cur_shard_start ∙ a.cur_shard_start;
    count = b.count ∙ a.count;
  }

module _ {V : Type 0} (H : H5 V) (cfg : Config H) (g : String → ℕ → V) (T : Transport (File H))
    (R : IsReliable T) where
  abbrev pub Waited : ℕ → Writer H → Writer H → Type 0
  Waited z w w' = IsStored H cfg g z w' × IsUntouched w w'

  IsStored-finish_upload :
      (z : ℕ) (u : Upload) (w : Writer H) (f : File H)
      → IsStored H cfg g z w
      → w.next_row ≡ z
      → NamesShard (length w.progress.completed_shards) u
      → w.scratch u.local_path ≡ some f
      → (d : Disk (File H))
      → d
        ≡ uploaded u.auto_delete u.local_path u.virtual_path f
            (record { scratch = w.scratch; store = w.store })
      → IsStored H cfg g z (
          save_progress H (record w {
            scratch = d.scratch;
            store = d.store;
            progress = record w.progress {
              completed_shards = mark_pushed u.position w.progress.completed_shards;
            };
          }))
  unfolding save_progress
  IsStored-finish_upload z u w f h n (a, b, c) found d q = record {
    shards = rw q (
        Shards-mark_pushed H cfg.schema g true w.scratch w.store
          (if u.auto_delete then update w.scratch u.local_path none else w.scratch)
          (update w.store u.virtual_path (some f)) u.position f (rw (← a) found)
          (after_delete_self w.scratch u.position u.auto_delete u.local_path a)
          (update_self w.store u.virtual_path u.position (some f) b)
          (λ k x. after_delete_ne w.scratch u.position u.auto_delete u.local_path k a x)
          (λ k x. update_ne w.store u.virtual_path k (some f) (λ t. x (t ∙ b))) u.position 0 0
          w.progress.completed_shards z (omega arith) h.shards);
    pending = rw length-mark_pushed h.pending;
    bounded = h.bounded;
    reached = n;
    same_n = h.same_n;
    same_schema = h.same_schema;
    saved = inl refl;
  }

  finish_upload-Ensures :
      (z : ℕ) (u : Upload) (w : Writer H)
      → IsStored H cfg g z w
      → w.next_row ≡ z
      → NamesShard (length w.progress.completed_shards) u
      → Ensures H cfg g (Waited z w) (finish_upload H T u w)
  unfolding finish_upload
  finish_upload-Ensures z u w h n names =
      elim (Option-cases (
        T.push u.ticket u.force u.auto_delete u.local_path u.virtual_path
          (record { scratch = w.scratch; store = w.store }))) [
            | inl e ↦ rw (e, Ensures) (refl, IsStored-IsDurable H cfg g z w h)
            | inr (d, e) ↦
                let (f, found, q) =
                  R.push-some u.ticket u.force u.auto_delete u.local_path u.virtual_path _ d e in
                rw (e, Ensures)
                  (
                    IsStored-finish_upload z u w f h n names found d q,
                    record {
                      next_row = refl;
                      cur_h5 = refl;
                      cur_shard_idx = refl;
                      cur_shard_start = refl;
                      count = length-mark_pushed u.position w.progress.completed_shards;
                    },
                  )
          ]

  pop_oldest-Ensures :
      (z : ℕ) (us : List Upload) (w : Writer H)
      → All (NamesShard (length w.progress.completed_shards)) us
      → IsStored H cfg g z w
      → w.next_row ≡ z
      → Ensures H cfg g (Waited z w) (pop_oldest H T us w)
  pop_oldest-Ensures z [] w names h n = (h, IsUntouched-refl w)
  pop_oldest-Ensures z (u ∷ us) w names h n =
      let popped : Writer H = record w { pending_uploads = us } in
      let h' : IsStored H cfg g z popped = record {
        shards = h.shards;
        pending = names.1;
        bounded = h.bounded;
        reached = h.reached;
        same_n = h.same_n;
        same_schema = h.same_schema;
        saved = h.saved;
      } in
      Ensures-mono H cfg g (Waited z popped) (Waited z w) (finish_upload H T u popped)
        (finish_upload-Ensures z u popped h' n names.0)
        (λ w' x. (
          x.0,
          record {
            next_row = x.1.next_row;
            cur_h5 = x.1.cur_h5;
            cur_shard_idx = x.1.cur_shard_idx;
            cur_shard_start = x.1.cur_shard_start;
            count = x.1.count;
          },
        ))

  wait_oldest-Ensures :
      (z : ℕ) (w : Writer H)
      → IsStored H cfg g z w
      → w.next_row ≡ z
      → Ensures H cfg g (Waited z w) (wait_oldest_pending_upload H T w)
  unfolding wait_oldest_pending_upload
  wait_oldest-Ensures z w h n = pop_oldest-Ensures z w.pending_uploads w h.pending h n

  wait_times-Ensures :
      (z n : ℕ) (w : Writer H)
      → IsStored H cfg g z w
      → w.next_row ≡ z
      → Ensures H cfg g (Waited z w) (wait_times H T n w)
  unfolding wait_times
  wait_times-Ensures z zero w h n = (h, IsUntouched-refl w)
  wait_times-Ensures z (suc k) w h n =
      Ensures-bind H cfg g (Waited z w) (Waited z w) (wait_oldest_pending_upload H T w) _
        (wait_oldest-Ensures z w h n)
        (λ w' x.
          Ensures-mono H cfg g (Waited z w') (Waited z w) _
            (wait_times-Ensures z k w' x.0 (x.1.next_row ∙ n))
            (λ w'' y. (y.0, IsUntouched-trans x.1 y.1)))

  pub wait_pending_uploads-Ensures :
      (z keep : ℕ) (w : Writer H)
      → IsStored H cfg g z w
      → w.next_row ≡ z
      → Ensures H cfg g (Waited z w) (wait_pending_uploads H T keep w)
  unfolding wait_pending_uploads
  wait_pending_uploads-Ensures z keep w h n =
      wait_times-Ensures z (length w.pending_uploads - keep) w h n

  -- A shard's upload is submitted when there is room for it.
  submitted-IsStored :
      (z local_path position : ℕ) (e : Entry) (w : Writer H)
      → NamesShard (length w.progress.completed_shards) (record {
        ticket = w.submitted;
        auto_delete = cfg.auto_delete;
        force = cfg.force_push;
        local_path = local_path;
        virtual_path = e.virtual_path;
        position = position;
      })
      → IsStored H cfg g z w
      → IsStored H cfg g z (record w {
        pending_uploads =
            w.pending_uploads
            ++ record {
              ticket = w.submitted;
              auto_delete = cfg.auto_delete;
              force = cfg.force_push;
              local_path = local_path;
              virtual_path = e.virtual_path;
              position = position;
            }
              ∷ [];
        submitted = suc w.submitted;
      })
  submitted-IsStored z local_path position e w names h = record {
    shards = h.shards;
    pending =
        All-append (NamesShard (length w.progress.completed_shards)) w.pending_uploads _ h.pending
          (names, tt);
    bounded = h.bounded;
    reached = h.reached;
    same_n = h.same_n;
    same_schema = h.same_schema;
    saved = h.saved;
  }

  make_room-Ensures :
      (z k : ℕ) (w : Writer H)
      → 0 < k
      → IsStored H cfg g z w
      → w.next_row ≡ z
      → Ensures H cfg g (Waited z w) (make_room H T cfg k w)
  make_room-Ensures z zero w b h n = absurd (omega arith)
  make_room-Ensures z (suc keep) w b h n = wait_pending_uploads-Ensures z keep w h n

  pub submit_upload-Ensures :
      (z local_path position : ℕ) (e : Entry) (w : Writer H)
      → 0 < cfg.max_in_flight
      → local_path ≡ position
      → e.virtual_path ≡ position
      → position < length w.progress.completed_shards
      → IsStored H cfg g z w
      → w.next_row ≡ z
      → Ensures H cfg g (Waited z w) (submit_upload H T cfg local_path e position w)
  unfolding submit_upload
  submit_upload-Ensures z local_path position e w b p q r h n =
      Ensures-bind H cfg g (Waited z w) (Waited z w) (make_room H T cfg cfg.max_in_flight w) _
        (make_room-Ensures z cfg.max_in_flight w b h n)
        (λ w' x. (
          submitted-IsStored z local_path position e w' (p, q, rw x.1.count r) x.0,
          record {
            next_row = x.1.next_row;
            cur_h5 = x.1.cur_h5;
            cur_shard_idx = x.1.cur_shard_idx;
            cur_shard_start = x.1.cur_shard_start;
            count = x.1.count;
          },
        ))
