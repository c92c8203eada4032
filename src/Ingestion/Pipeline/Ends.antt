-- ===== src/Ingestion/Pipeline/Ends.antt =====
-- The end of a run: `runPipeline` of src/ingestion/ingestion.service.ts.
use docent.Base.{
  true, ℕ, ◌≡◌, refl, ◌≢◌, ◌⊎◌, inl, inr, some, List, [], ◌∷◌, if_elim, keep, All, Text, Result, ok,
  err, any_of, ◌∙◌,
}
use docent.Errors.{Thrown, describe_thrown, describe_thrown-ne-nil}
use docent.Ingestion.Tables
use docent.Ingestion.Tables.{
  SourceRow, Database, has_id, update_rows, mark_ready, mark_failed, record_skipped,
  mark_processing,
}
use docent.Ingestion.Loader.{LoadedDocument}
use docent.Ingestion.Pipeline.Present.{run_pipeline-present}
use docent.Ingestion.Fetcher.{FetchedSource, fetch_source}
use docent.Ingestion.Pipeline.{
  Environment, State, execute, after_connect, then_ready, after_documents, after_load,
  after_mark_processing, ingest_fetched, catch_error, rethrow, after_cleanup, clean_up, after_fetch,
  run_pipeline,
}

abbrev IsReady : SourceRow → Type 0
IsReady row = row.status ≡ Tables.ready

-- Failed, with an error that says something.
abbrev IsFailed : SourceRow → Type 0
IsFailed row = (row.status ≡ Tables.failed) × ((e : Text) × ((row.error ≡ some e) × (e ≢ [])))

abbrev rows_of : ℕ → List SourceRow → List SourceRow
rows_of id sources = keep (has_id id) sources

set_rows-All :
    (P : SourceRow → Type 0) (id : ℕ) (set_row : SourceRow → SourceRow) (sources : List SourceRow)
    → ((s : SourceRow) → P (set_row s))
    → All P (rows_of id (update_rows (has_id id) set_row sources))
unfolding update_rows
set_rows-All P id set_row [] h = tt
set_rows-All P id set_row (s ∷ sources) h =
    if_elim (λ (r : SourceRow). All P (rows_of id (r ∷ update_rows (has_id id) set_row sources)))
      (has_id id s) (set_row s) s
      (λ _.
        if_elim (All P) (has_id id (set_row s))
          (set_row s ∷ rows_of id (update_rows (has_id id) set_row sources))
          (rows_of id (update_rows (has_id id) set_row sources))
          (λ _. (h s, set_rows-All P id set_row sources h))
          (λ _. set_rows-All P id set_row sources h))
      (λ e. rw e (set_rows-All P id set_row sources h))

module _ (W Embedding : Type 0) (env : Environment W Embedding) (id : ℕ) where
  -- What has become of the source: it is ready after a run that returns, and ready or failed
  -- after one that throws.
  abbrev pub HasEnded : Result {0, 0} Thrown Unit × State W Embedding → Type 0
  HasEnded (ok _, s) = All IsReady (rows_of id s.db.sources)
  HasEnded (err _, s) =
      All IsReady (rows_of id s.db.sources) ⊎ All IsFailed (rows_of id s.db.sources)

  abbrev IsReadyIfOk : Result {0, 0} Thrown Unit × State W Embedding → Type 0
  IsReadyIfOk (ok _, s) = All IsReady (rows_of id s.db.sources)
  IsReadyIfOk (err _, s) = Unit

  after_connect-ready :
      (db : Database Embedding) (c : Result {0, 0} Thrown Unit × W)
      → IsReadyIfOk (after_connect W Embedding env (mark_ready Embedding id) db c)
  after_connect-ready db (ok _, w) = set_rows-All IsReady id _ db.sources (λ _. refl)
  after_connect-ready db (err _, w) = tt

  then_ready-ready :
      (p : Result {0, 0} Thrown Unit × State W Embedding)
      → IsReadyIfOk (then_ready W Embedding env id p)
  unfolding execute
  then_ready-ready (ok _, s) = after_connect-ready s.db (env.connect s.outside)
  then_ready-ready (err _, s) = tt

  after_documents-ready :
      (p : Result {0, 0} Thrown ℕ × State W Embedding)
      → IsReadyIfOk (after_documents W Embedding env id p)
  after_documents-ready (ok skipped, s) = then_ready-ready _
  after_documents-ready (err _, s) = tt

  after_load-ready :
      (r : Result Thrown (List LoadedDocument)) (s : State W Embedding)
      → IsReadyIfOk (after_load W Embedding env id r s)
  after_load-ready (ok documents) s = after_documents-ready _
  after_load-ready (err _) s = tt

  after_mark_processing-ready :
      (include directory : Text) (p : Result {0, 0} Thrown Unit × State W Embedding)
      → IsReadyIfOk (after_mark_processing W Embedding env id include directory p)
  after_mark_processing-ready include directory (ok _, s) = after_load-ready _ _
  after_mark_processing-ready include directory (err _, s) = tt

  rethrow-failed :
      (error : Thrown) (db : Database Embedding) (c : Result {0, 0} Thrown Unit × W)
      → c.0 ≡ ok tt
      → HasEnded (
          rethrow W Embedding env error
            (after_connect W Embedding env (mark_failed Embedding id (describe_thrown error)) db c))
  rethrow-failed error db (ok _, w) h = inr (
      set_rows-All IsFailed id _ db.sources
        (λ _. (refl, (describe_thrown error, (refl, describe_thrown-ne-nil error)))))
  rethrow-failed error db (err _, w) h = absurd (cc)

  catch_error-HasEnded :
      (p : Result {0, 0} Thrown Unit × State W Embedding)
      → ((w : W) → (env.connect w).0 ≡ ok tt)
      → IsReadyIfOk p
      → HasEnded (catch_error W Embedding env id p)
  unfolding catch_error execute
  catch_error-HasEnded (ok _, s) h k = k
  catch_error-HasEnded (err error, s) h k =
      rethrow-failed error s.db (env.connect s.outside) (h s.outside)

  after_cleanup-HasEnded :
      (r : Result {0, 0} Thrown Unit) (s : State W Embedding) (c : Result {0, 0} Thrown Unit × W)
      → HasEnded (r, s)
      → HasEnded (after_cleanup W Embedding env r s.db c)
  after_cleanup-HasEnded (ok _) s (ok _, w) h = h
  after_cleanup-HasEnded (err _) s (ok _, w) h = h
  after_cleanup-HasEnded (ok _) s (err _, w) h = inl h
  after_cleanup-HasEnded (err _) s (err _, w) h = h

  clean_up-HasEnded :
      (cleanup : W → Result {0, 0} Thrown Unit × W)
      (p : Result {0, 0} Thrown Unit × State W Embedding)
      → HasEnded p
      → HasEnded (clean_up W Embedding env cleanup p)
  clean_up-HasEnded cleanup (r, s) h = after_cleanup-HasEnded r s (cleanup s.outside) h

  after_fetch-HasEnded :
      (include : Text) (db : Database Embedding) (f : Result Thrown (FetchedSource W) × W)
      → ((w : W) → (env.connect w).0 ≡ ok tt)
      → HasEnded (after_fetch W Embedding env id include db f)
  unfolding ingest_fetched
  after_fetch-HasEnded include db (err error, w) h = catch_error-HasEnded _ h tt
  after_fetch-HasEnded include db (ok fetched, w) h =
      clean_up-HasEnded fetched.cleanup _
        (catch_error-HasEnded _ h (after_mark_processing-ready include fetched.directory _))

  -- Where every statement reaches the database and the source is there, a run ends, whatever it
  -- meets in fetching, loading, embedding and inserting, with the source still there: after one
  -- that returns, its row is ready, and after one that throws, it is ready or has failed with an
  -- error text that is not empty. Rows with the same identifier would all be so.
  pub run_pipeline-HasEnded :
      (uri include : Text) (s : State W Embedding)
      → ((w : W) → (env.connect w).0 ≡ ok tt)
      → any_of (has_id id) s.db.sources ≡ true
      → (any_of (has_id id) (run_pipeline W Embedding env id uri include s).1.db.sources ≡ true)
        × HasEnded (run_pipeline W Embedding env id uri include s)
  unfolding run_pipeline
  run_pipeline-HasEnded uri include s h there = (
    run_pipeline-present W Embedding env id uri include s ∙ there,
    after_fetch-HasEnded include s.db (fetch_source W env.host env.paths env.files uri s.outside) h,
  )
