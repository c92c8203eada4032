-- ===== src/Ingestion/Pipeline/Present.antt =====
-- The sources that there are during a run: `runPipeline` of src/ingestion/ingestion.service.ts.
use docent.Base.{
  Option, none, some, ℕ, zero, suc, ◌≡◌, refl, sym, ap, ◌∙◌, inl, inr, Bool, List, [], ◌∷◌, map,
  ◌==◌, Bool-cases, if_elim, length, keep, any_of, Text, Result, ok, err,
}
use docent.Errors.{Thrown, describe_thrown}
use docent.Chunker.Chunks.{Chunk}
use docent.Ingestion.Tables.{
  SourceRow, DocumentInput, ChunkInput, Database, has_id, update_rows, mark_processing,
  touch_processing, mark_ready, mark_failed, record_skipped, insert_document_with_chunks,
  is_insertable,
}
use docent.Ingestion.Loader.{LoadedDocument, load_markdown_files}
use docent.Ingestion.Fetcher.{FetchedSource, fetch_source}
use docent.Ingestion.Pipeline.{
  Environment, State, Parsed, parse_document, after_parse, is_filled, inputs_of, document_input,
  execute, after_connect, beat, beat_since, after_insert, insert_connected, insert_inputs,
  after_embed_chunks, ingest_parsed, go_on, ingest_documents, then_ready, after_documents,
  after_load, after_mark_processing, ingest_fetched, rethrow, catch_error, after_cleanup, clean_up,
  after_fetch, run_pipeline,
}

ids_of : List SourceRow → List ℕ
ids_of sources = map (λ (s : SourceRow). s.id) sources

update_rows-ids :
    (where_row : SourceRow → Bool) (set_row : SourceRow → SourceRow) (sources : List SourceRow)
    → ((s : SourceRow) → (set_row s).id ≡ s.id)
    → ids_of (update_rows where_row set_row sources) ≡ ids_of sources
unfolding update_rows ids_of
update_rows-ids where_row set_row [] h = refl
update_rows-ids where_row set_row (s ∷ sources) h = elim (Bool-cases (where_row s)) [
  | inl e ↦
      rw (e, h s) (ap (λ (ids : List ℕ). s.id ∷ ids) (update_rows-ids where_row set_row sources h))
  | inr e ↦ rw e (ap (λ (ids : List ℕ). s.id ∷ ids) (update_rows-ids where_row set_row sources h))
]

module _ (W Embedding : Type 0) (env : Environment W Embedding) (id : ℕ) where
  -- The identifiers of the sources are these.
  abbrev Has : List ℕ → Database Embedding → Type 0
  Has ids db = ids_of db.sources ≡ ids

  abbrev Statement : Type 0
  Statement = Database Embedding → Database Embedding

  abbrev Keeps : Statement → Type 0
  Keeps statement = (db : Database Embedding) → Has (ids_of db.sources) (statement db)

  after_connect-Has :
      (ids : List ℕ) (statement : Statement) (db : Database Embedding)
      (c : Result {0, 0} Thrown Unit × W)
      → Keeps statement
      → Has ids db
      → Has ids (after_connect W Embedding env statement db c).1.db
  after_connect-Has ids statement db (ok _, w) keeps h = keeps db ∙ h
  after_connect-Has ids statement db (err _, w) keeps h = h

  execute-Has :
      (ids : List ℕ) (statement : Statement) (s : State W Embedding)
      → Keeps statement
      → Has ids s.db
      → Has ids (execute W Embedding env statement s).1.db
  unfolding execute
  execute-Has ids statement s keeps h =
      after_connect-Has ids statement s.db (env.connect s.outside) keeps h

  touch-Keeps : Keeps (touch_processing Embedding id)
  touch-Keeps db = update_rows-ids _ _ db.sources (λ _. refl)

  beat-Has :
      (ids : List ℕ) (n : ℕ) (s : State W Embedding)
      → Has ids s.db
      → Has ids (beat W Embedding env n id s).db
  beat-Has ids zero s h = h
  beat-Has ids (suc n) s h =
      beat-Has ids n _ (execute-Has ids (touch_processing Embedding id) s touch-Keeps h)

  insert-Has :
      (ids : List ℕ) (document : DocumentInput) (inputs : List (ChunkInput Embedding))
      (db : Database Embedding) (w : W)
      → Has ids db
      → Has ids
          (after_insert W Embedding env
            (insert_document_with_chunks Embedding id document inputs db)
            w).1.db
  unfolding insert_document_with_chunks
  insert-Has ids document inputs db w h =
      if_elim (λ (p : Bool × Database Embedding). Has ids (after_insert W Embedding env p w).1.db)
        (is_insertable Embedding id document inputs db) _ _
        (λ _. update_rows-ids _ _ db.sources (λ _. refl) ∙ h) (λ _. h)

  insert_connected-Has :
      (ids : List ℕ) (document : DocumentInput) (inputs : List (ChunkInput Embedding))
      (db : Database Embedding) (c : Result {0, 0} Thrown Unit × W)
      → Has ids db
      → Has ids (insert_connected W Embedding env id document inputs db c).1.db
  insert_connected-Has ids document inputs db (ok _, w) h = insert-Has ids document inputs db w h
  insert_connected-Has ids document inputs db (err _, w) h = h

  insert_inputs-Has :
      (ids : List ℕ) (document : DocumentInput) (r : Result Thrown (List (ChunkInput Embedding)))
      (s : State W Embedding)
      → Has ids s.db
      → Has ids (insert_inputs W Embedding env id document r s).1.db
  insert_inputs-Has ids document (err _) s h = h
  insert_inputs-Has ids document (ok inputs) s h =
      insert_connected-Has ids document inputs s.db (env.connect s.outside) h

  after_embed-Has :
      (ids : List ℕ) (d : LoadedDocument) (parsed : Parsed) (db : Database Embedding)
      (e : Result Thrown (List Embedding) × W)
      → Has ids db
      → Has ids (after_embed_chunks W Embedding env id d parsed db e).1.db
  after_embed-Has ids d parsed db (err _, w) h =
      beat-Has ids (env.beats w) (record { outside = w; db = db }) h
  after_embed-Has ids d parsed db (ok vectors, w) h =
      insert_inputs-Has ids (document_input W Embedding env d)
        (inputs_of W Embedding env (keep is_filled parsed.cleaned.filenames) parsed.chunks vectors)
        (beat_since W Embedding env id (record { outside = w; db = db }))
        (beat-Has ids (env.beats w) (record { outside = w; db = db }) h)

  go_on-Has :
      (ids : List ℕ) (rest : State W Embedding → Result {0, 0} Thrown ℕ × State W Embedding)
      (p : Result {0, 0} Thrown Unit × State W Embedding)
      → ((t : State W Embedding) → Has ids t.db → Has ids (rest t).1.db)
      → Has ids p.1.db
      → Has ids (go_on W Embedding env rest p).1.db
  go_on-Has ids rest (ok _, s) k h = k s h
  go_on-Has ids rest (err _, s) k h = h

  after_parse-Has :
      (ids : List ℕ) (d : LoadedDocument) (skip : Result {0, 0} Thrown ℕ × State W Embedding)
      (rest : State W Embedding → Result {0, 0} Thrown ℕ × State W Embedding)
      (s : State W Embedding) (o : Option Parsed)
      → Has ids skip.1.db
      → ((t : State W Embedding) → Has ids t.db → Has ids (rest t).1.db)
      → Has ids s.db
      → Has ids (after_parse W Embedding env id d skip rest s o).1.db
  after_parse-Has ids d skip rest s none h k present = h
  after_parse-Has ids d skip rest s (some parsed) h k present =
      if_elim (λ (p : Result {0, 0} Thrown ℕ × State W Embedding). Has ids p.1.db)
        (length parsed.chunks == 0) _ _ (λ _. h)
        (λ _. go_on-Has ids rest (ingest_parsed W Embedding env id d parsed s) k (
          after_embed-Has ids d parsed s.db
            (env.embed (map (λ (chunk : Chunk). chunk.content) parsed.chunks) s.outside) present))

  ingest_documents-Has :
      (ids : List ℕ) (n : ℕ) (documents : List LoadedDocument) (s : State W Embedding)
      → Has ids s.db
      → Has ids (ingest_documents W Embedding env id n documents s).1.db
  unfolding ingest_documents
  ingest_documents-Has ids n [] s h = h
  ingest_documents-Has ids n (d ∷ documents) s h =
      after_parse-Has ids d (ingest_documents W Embedding env id (suc n) documents s)
        (λ t. ingest_documents W Embedding env id n documents t) s
        (parse_document W Embedding env d.raw) (ingest_documents-Has ids (suc n) documents s h)
        (λ t. ingest_documents-Has ids n documents t) h

  then_ready-Has :
      (ids : List ℕ) (p : Result {0, 0} Thrown Unit × State W Embedding)
      → Has ids p.1.db
      → Has ids (then_ready W Embedding env id p).1.db
  then_ready-Has ids (err _, s) h = h
  then_ready-Has ids (ok _, s) h =
      execute-Has ids (mark_ready Embedding id) s (λ db. update_rows-ids _ _ db.sources (λ _. refl))
        h

  after_documents-Has :
      (ids : List ℕ) (p : Result {0, 0} Thrown ℕ × State W Embedding)
      → Has ids p.1.db
      → Has ids (after_documents W Embedding env id p).1.db
  after_documents-Has ids (err _, s) h = h
  after_documents-Has ids (ok skipped, s) h =
      then_ready-Has ids (execute W Embedding env (record_skipped Embedding id skipped) s) (
        execute-Has ids (record_skipped Embedding id skipped) s
          (λ db. update_rows-ids _ _ db.sources (λ _. refl)) h)

  after_load-Has :
      (ids : List ℕ) (r : Result Thrown (List LoadedDocument)) (s : State W Embedding)
      → Has ids s.db
      → Has ids (after_load W Embedding env id r s).1.db
  after_load-Has ids (err _) s h = h
  after_load-Has ids (ok documents) s h =
      after_documents-Has ids (ingest_documents W Embedding env id 0 documents s)
        (ingest_documents-Has ids 0 documents s h)

  after_mark_processing-Has :
      (ids : List ℕ) (include directory : Text) (p : Result {0, 0} Thrown Unit × State W Embedding)
      → Has ids p.1.db
      → Has ids (after_mark_processing W Embedding env id include directory p).1.db
  after_mark_processing-Has ids include directory (err _, s) h = h
  after_mark_processing-Has ids include directory (ok _, s) h =
      after_load-Has ids
        (load_markdown_files env.paths (env.files s.outside) env.precedes directory include)
        (beat_since W Embedding env id s) (beat-Has ids (env.beats s.outside) s h)

  rethrow-Has :
      (ids : List ℕ) (error : Thrown) (p : Result {0, 0} Thrown Unit × State W Embedding)
      → Has ids p.1.db
      → Has ids (rethrow W Embedding env error p).1.db
  rethrow-Has ids error (ok _, s) h = h
  rethrow-Has ids error (err _, s) h = h

  catch_error-Has :
      (ids : List ℕ) (p : Result {0, 0} Thrown Unit × State W Embedding)
      → Has ids p.1.db
      → Has ids (catch_error W Embedding env id p).1.db
  unfolding catch_error
  catch_error-Has ids (ok _, s) h = h
  catch_error-Has ids (err error, s) h =
      rethrow-Has ids error
        (execute W Embedding env (mark_failed Embedding id (describe_thrown error)) s)
        (execute-Has ids (mark_failed Embedding id (describe_thrown error)) s
          (λ db. update_rows-ids _ _ db.sources (λ _. refl)) h)

  after_cleanup-Has :
      (ids : List ℕ) (r : Result {0, 0} Thrown Unit) (db : Database Embedding)
      (c : Result {0, 0} Thrown Unit × W)
      → Has ids db
      → Has ids (after_cleanup W Embedding env r db c).1.db
  after_cleanup-Has ids r db (ok _, w) h = h
  after_cleanup-Has ids r db (err _, w) h = h

  clean_up-Has :
      (ids : List ℕ) (cleanup : W → Result {0, 0} Thrown Unit × W)
      (p : Result {0, 0} Thrown Unit × State W Embedding)
      → Has ids p.1.db
      → Has ids (clean_up W Embedding env cleanup p).1.db
  clean_up-Has ids cleanup (r, s) h = after_cleanup-Has ids r s.db (cleanup s.outside) h

  after_fetch-Has :
      (ids : List ℕ) (include : Text) (db : Database Embedding)
      (f : Result Thrown (FetchedSource W) × W)
      → Has ids db
      → Has ids (after_fetch W Embedding env id include db f).1.db
  unfolding ingest_fetched
  after_fetch-Has ids include db (err error, w) h =
      catch_error-Has ids (err error, record { outside = w; db = db }) h
  after_fetch-Has ids include db (ok fetched, w) h =
      let begun : State W Embedding = record { outside = w; db = db } in
      clean_up-Has ids fetched.cleanup
        (catch_error W Embedding env id (ingest_fetched W Embedding env id include fetched begun))
        (catch_error-Has ids (ingest_fetched W Embedding env id include fetched begun) (
          after_mark_processing-Has ids include fetched.directory
            (execute W Embedding env (mark_processing Embedding id fetched.commit_sha) begun)
            (execute-Has ids (mark_processing Embedding id fetched.commit_sha)
              (record { outside = w; db = db }) (λ db'. update_rows-ids _ _ db'.sources (λ _. refl))
              h)))

  any_of-ids :
      (sources : List SourceRow)
      → any_of (has_id id) sources ≡ any_of (λ j. j == id) (ids_of sources)
  unfolding ids_of
  any_of-ids [] = refl
  any_of-ids (s ∷ sources) = rw (any_of-ids sources) refl

  -- A run neither adds nor removes a source.
  pub run_pipeline-present :
      (uri include : Text) (s : State W Embedding)
      → any_of (has_id id) (run_pipeline W Embedding env id uri include s).1.db.sources
        ≡ any_of (has_id id) s.db.sources
  unfolding run_pipeline
  run_pipeline-present uri include s =
      any_of-ids (run_pipeline W Embedding env id uri include s).1.db.sources
      ∙ ap (λ (ids : List ℕ). any_of (λ j. j == id) ids)
          (after_fetch-Has (ids_of s.db.sources) include s.db
            (fetch_source W env.host env.paths env.files uri s.outside) refl)
      ∙ sym (any_of-ids s.db.sources)
