-- ===== src/NodeRelay/Tests.antt =====
-- The relay with an `rsync` that copies what is there.
use graph_extraction.Base.{
  ℕ, ◌≡◌, ◌↔◌, refl, Bool, true, false, Option, none, some, arith, if◌then◌else◌, ◌==◌,
}
use graph_extraction.Base.Dict.{Files}
use graph_extraction.Writer.Transport.{IsReliable, IsBackend, IsBackend-IsReliable}
use graph_extraction.NodeRelay.{
  scratch, staging, FilePath, under, tmp_of, same_path, FileSystem, write, called_process_error,
  file_not_found, raised, Rsync, IsCopy, staging_path, push, ensure_local,
}
use graph_extraction.NodeRelay.Laws.{
  push-ok, push-raised, ensure_local-ok, ensure_local-file_not_found, ensure_local-push,
}
use graph_extraction.NodeRelay.Backend.{relay, relay-IsBackend}

abbrev copying : Rsync ℕ
copying none = record { success = false; left = none }
copying (some f) = record { success = true; left = some f }

-- The transfer is cut off: a torn file stays at the temporary path.
abbrev broken : Rsync ℕ
broken o = record { success = false; left = some 0 }

copying-IsCopy : IsCopy copying
copying-IsCopy = record { copied = copied_by }
  where
    copied_by :
        (src : Option ℕ)
        → (copying src).success ≡ true
        → (f : ℕ) × (src ≡ some f) × ((copying src).left ≡ some f)
    copied_by none h = absurd (ground (arith, h))
    copied_by (some f) h = (f, refl, refl)

broken-IsCopy : IsCopy broken
broken-IsCopy = record { copied = λ src h. absurd (ground (arith, h)) }

abbrev here : FileSystem ℕ
here = write (under scratch 3) (some 42) (λ p. none)

abbrev staged : FileSystem ℕ
staged =
    write (tmp_of (under staging 3)) none
      (write (under staging 3) (some 42) (write (tmp_of (under staging 3)) (some 42) here))

-- Another node sees the staging area and nothing else.
abbrev there : FileSystem ℕ
there = write (under staging 3) (some 42) (λ p. none)

push-ok_example :
    (f : ℕ) × (here (under scratch 3) ≡ some f)
    × (staged (staging_path 3) ≡ some f)
    × (staged (under scratch 3) ≡ some f)
    × ((q : FilePath)
        → q.temporary ≡ false
        → same_path (staging_path 3) q ≡ false
        → same_path (under scratch 3) q ≡ false
        → staged q ≡ here q)
unfolding push same_path
push-ok_example = push-ok copying copying-IsCopy 3 3 false here staged refl

push-raised_example :
    (called_process_error ≡ called_process_error)
    × ((q : FilePath)
        → q.temporary ≡ false
        → write (tmp_of (under staging 3)) (some 0) here q ≡ here q)
unfolding push
push-raised_example =
    push-raised broken broken-IsCopy 3 3 true here (write (tmp_of (under staging 3)) (some 0) here)
      called_process_error refl

ensure_local-file_not_found_example :
    (ensure_local copying 3 true (λ p. none) ≡ raised file_not_found (λ p. none))
    ↔ (◌≡◌ {A = Bool} false false) × (◌≡◌ {A = Bool} false false) × (◌≡◌ {A = Bool} false false)
ensure_local-file_not_found_example =
    ensure_local-file_not_found copying copying-IsCopy 3 true (λ p. none)

abbrev pulled : FileSystem ℕ
pulled =
    write (tmp_of (under scratch 3)) none
      (write (under scratch 3) (some 42) (write (tmp_of (under scratch 3)) (some 42) there))

ensure_local-ok_example : pulled (under scratch 3) ≡ there (staging_path 3)
unfolding ensure_local same_path
ensure_local-ok_example =
    ensure_local-ok copying copying-IsCopy 3 true there pulled (under scratch 3) refl

ensure_local-push_example : pulled (under scratch 3) ≡ here (under scratch 3)
unfolding push ensure_local same_path
ensure_local-push_example =
    ensure_local-push copying copying-IsCopy 3 3 false true here staged there pulled
      (under scratch 3) refl refl refl refl refl

-- The project's tree has a copy of shard 5.
abbrev copies : Files ℕ
copies v = if v == 5 then some 50 else none

relay-IsBackend_example : IsBackend copies (relay copies (λ ticket. copying) copying)
relay-IsBackend_example =
    relay-IsBackend copies (λ ticket. copying) copying (λ ticket. copying-IsCopy)
      (record { succeeds = λ f. (refl, refl) })

relay-IsReliable : IsReliable (relay (λ v. none) (λ ticket. copying) copying)
relay-IsReliable =
    IsBackend-IsReliable (λ v. none) (relay (λ v. none) (λ ticket. copying) copying)
      (relay-IsBackend (λ v. none) (λ ticket. copying) copying (λ ticket. copying-IsCopy)
        (record { succeeds = λ f. (refl, refl) }))
      (λ v. refl)
