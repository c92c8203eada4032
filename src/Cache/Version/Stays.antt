-- ===== src/Cache/Version/Stays.antt =====
-- That a run leaves the version of src/common/cache/corpus-version.ts alone until it is through.
use docent.Base.{
  ℕ, ◌≡◌, refl, ap, ◌∙◌, inl, inr, Bool, true, false, ◌&&◌, List, [], ◌∷◌, ◌++◌, arith, Bool-cases,
  if_elim, length, All, Text,
}
use docent.Ingestion.Tables.{SourceRow, Database, update_rows, has_id, is_insertable}
use docent.Ingestion.Counts.{
  Operation, create, delete, delete_content, to_processing, claim, touch, to_ready, to_failed,
  skipped, insert, tick, run, run_all,
}
use docent.Cache.Version.{is_ready, iso_or_none, latest, ready_sources, version_of}

-- The rows that a test takes are not ready.
abbrev NoneReady : (SourceRow → Bool) → List SourceRow → Type 0
NoneReady where_row sources =
    All (λ (s : SourceRow). where_row s ≡ true → is_ready s.status ≡ false) sources

update_rows-ready_sources :
    (where_row : SourceRow → Bool) (set_row : SourceRow → SourceRow) (sources : List SourceRow)
    → ((s : SourceRow) → is_ready s.status ≡ false → is_ready (set_row s).status ≡ false)
    → NoneReady where_row sources
    → ready_sources (update_rows where_row set_row sources) ≡ ready_sources sources
unfolding update_rows
update_rows-ready_sources where_row set_row [] stays h = refl
update_rows-ready_sources where_row set_row (s ∷ sources) stays (h, hs) =
    let rest = update_rows-ready_sources where_row set_row sources stays hs in
    elim (Bool-cases (where_row s)) [
      | inl e ↦ rw (e, h e, stays s (h e)) rest
      | inr e ↦ rw (e, rest)
    ]

module _ (Embedding : Type 0) where
  -- What a run does to its source before it is ready, and the clock going on.
  abbrev IsWorkOn : ℕ → Operation Embedding → Type 0
  IsWorkOn id (create uri kind) = ⊥
  IsWorkOn id (delete j) = ⊥
  IsWorkOn id (delete_content j) = j ≡ id
  IsWorkOn id (to_processing j commit_sha) = j ≡ id
  IsWorkOn id (claim j stale_before) = j ≡ id
  IsWorkOn id (touch j) = j ≡ id
  IsWorkOn id (to_ready j) = ⊥
  IsWorkOn id (to_failed j message) = j ≡ id
  IsWorkOn id (skipped j n) = j ≡ id
  IsWorkOn id (insert j document chunks) = j ≡ id
  IsWorkOn id (tick now) = Unit

  module _ (show to_iso : ℕ → Text) (id : ℕ) where
    -- The ready sources are the same, and the source is not among them.
    abbrev Stays : Database Embedding → Database Embedding → Type 0
    Stays db db' =
        (ready_sources db'.sources ≡ ready_sources db.sources) × NoneReady (has_id id) db'.sources

    update-NoneReady :
        (where_row : SourceRow → Bool) (set_row : SourceRow → SourceRow) (sources : List SourceRow)
        → ((s : SourceRow) → is_ready s.status ≡ false → is_ready (set_row s).status ≡ false)
        → ((s : SourceRow) → (set_row s).id ≡ s.id)
        → NoneReady (has_id id) sources
        → NoneReady (has_id id) (update_rows where_row set_row sources)
    unfolding update_rows
    update-NoneReady where_row set_row [] stays same h = tt
    update-NoneReady where_row set_row (s ∷ sources) stays same (h, hs) = (
      if_elim (λ (r : SourceRow). has_id id r ≡ true → is_ready r.status ≡ false) (where_row s)
          (set_row s) s (λ _ k. stays s (h (rw (same s) at k))) (λ _. h),
      update-NoneReady where_row set_row sources stays same hs,
    )

    weaken :
        (where_row : SourceRow → Bool) (sources : List SourceRow)
        → ((s : SourceRow) → where_row s ≡ true → has_id id s ≡ true)
        → NoneReady (has_id id) sources
        → NoneReady where_row sources
    weaken where_row [] implies h = tt
    weaken where_row (s ∷ sources) implies (h, hs) =
        (λ k. h (implies s k), weaken where_row sources implies hs)

    update-Stays :
        (db : Database Embedding) (where_row : SourceRow → Bool) (set_row : SourceRow → SourceRow)
        → ((s : SourceRow) → where_row s ≡ true → has_id id s ≡ true)
        → ((s : SourceRow) → is_ready s.status ≡ false → is_ready (set_row s).status ≡ false)
        → ((s : SourceRow) → (set_row s).id ≡ s.id)
        → NoneReady (has_id id) db.sources
        → Stays db (record db { sources = update_rows where_row set_row db.sources })
    update-Stays db where_row set_row implies stays same h = (
      update_rows-ready_sources where_row set_row db.sources stays
          (weaken where_row db.sources implies h),
      update-NoneReady where_row set_row db.sources stays same h,
    )

    both : (a b : Bool) → a && b ≡ true → a ≡ true
    both a b k = ground arith

    run-Stays :
        (operation : Operation Embedding) (db : Database Embedding)
        → IsWorkOn id operation
        → NoneReady (has_id id) db.sources
        → Stays db (run Embedding operation db)
    unfolding run
    run-Stays (create uri kind) db work h = absurd work
    run-Stays (delete j) db work h = absurd work
    run-Stays (delete_content j) db work h =
        rw work (update-Stays db (has_id id) _ (λ s k. k) (λ s k. k) (λ s. refl) h)
    run-Stays (to_processing j commit_sha) db work h =
        rw work (update-Stays db (has_id id) _ (λ s k. k) (λ s k. refl) (λ s. refl) h)
    run-Stays (claim j stale_before) db work h =
        rw work (update-Stays db _ _ (λ s k. both (has_id id s) _ k) (λ s k. refl) (λ s. refl) h)
    run-Stays (touch j) db work h =
        rw work (update-Stays db _ _ (λ s k. both (has_id id s) _ k) (λ s k. k) (λ s. refl) h)
    run-Stays (to_ready j) db work h = absurd work
    run-Stays (to_failed j message) db work h =
        rw work (update-Stays db (has_id id) _ (λ s k. k) (λ s k. refl) (λ s. refl) h)
    run-Stays (skipped j n) db work h =
        rw work (update-Stays db (has_id id) _ (λ s k. k) (λ s k. k) (λ s. refl) h)
    run-Stays (insert j document chunks) db work h = rw work (
        if_elim (λ (r : Bool × Database Embedding). Stays db r.1)
          (is_insertable Embedding id document chunks db) _ _
          (λ _. update-Stays db (has_id id) _ (λ s k. k) (λ s k. k) (λ s. refl) h) (λ _. (refl, h)))
    run-Stays (tick now) db work h = (refl, h)

    run_all-ready_sources :
        (operations : List (Operation Embedding)) (db : Database Embedding)
        → All (IsWorkOn id) operations
        → NoneReady (has_id id) db.sources
        → ready_sources (run_all Embedding operations db).sources ≡ ready_sources db.sources
    unfolding run_all
    run_all-ready_sources [] db work h = refl
    run_all-ready_sources (operation ∷ operations) db (w, work) h =
        let (same, stays) = run-Stays operation db w h in
        run_all-ready_sources operations (run Embedding operation db) work stays ∙ same

    -- Whatever sequence of claims, renewals, deletions of content, inserts, counts and failures a
    -- run on a source makes, the version of the corpus stays as it is, provided that no row of
    -- that source is ready at its start.
    pub run_all-version :
        (operations : List (Operation Embedding)) (db : Database Embedding)
        → All (IsWorkOn id) operations
        → NoneReady (has_id id) db.sources
        → version_of show to_iso (run_all Embedding operations db).sources
          ≡ version_of show to_iso db.sources
    run_all-version operations db work h =
        unfold version_of in
        ap
          (λ (rows : List SourceRow).
            show (length rows) ++ (b'-' ∷ iso_or_none show to_iso (latest rows)))
          (run_all-ready_sources operations db work h)
