-- ===== src/Ingestion/Pipeline.antt =====
-- The run of an ingestion: `runPipeline` of src/ingestion/ingestion.service.ts.
pub mod Present
pub mod Ends
pub mod Documents
pub mod Cleanup
use docent.Base.{
  ℕ, zero, suc, Bool, true, false, Option, none, some, List, [], ◌∷◌, ◌++◌, map, ltb, ◌==◌,
  if◌then◌else◌, length, keep, Text, codes, Result, ok, err, ◌>>=◌, decimal,
}
use docent.Errors.{Thrown, new_error, describe_thrown}
use docent.Chunker.Chunks.{Chunk, no_options, chunk_markdown}
use docent.Ingestion.Tables.{
  DocumentInput, ChunkInput, Database, mark_processing, touch_processing, mark_ready, mark_failed,
  record_skipped, insert_document_with_chunks,
}
use docent.Ingestion.Cleaner.{CleanedMarkdown, clean_markdown}
use docent.Ingestion.Loader.{LoadedDocument, Paths, Files, load_markdown_files}
use docent.Ingestion.Fetcher.{Host, FetchedSource, fetch_source}

pub record Parsed : Type 0 where
  pub cleaned : CleanedMarkdown
  pub chunks : List Chunk

abbrev pub is_filled : Text → Bool
is_filled s = ltb 0 (length s)

-- `W` is the host and the network.
module _ (W Embedding : Type 0) where
  -- What the run calls. `connect` is the way of a statement to the database, which may fail, and
  -- `beats` tells how often the heartbeat fired during the call before. `refusal` is the error
  -- that the database throws where a constraint is not met. `parse_failure` is what the cleaning or
  -- the chunking of a text throws, if anything: the tokeniser, or the engine at its limits.
  pub record Environment : Type 1 where
    pub host : Host W
    pub files : W → Files
    pub paths : Paths
    pub precedes : Text → Text → Bool
    pub count_tokens : Text → ℕ
    pub parse_failure : Text → Option Thrown
    pub embed : List Text → W → Result Thrown (List Embedding) × W
    pub connect : W → Result {0, 0} Thrown Unit × W
    pub beats : W → ℕ
    pub refusal : Thrown

  -- The host, and the database.
  pub record State : Type 0 where
    pub outside : W
    pub db : Database Embedding

  module _ (env : Environment) where
    -- `none` is the `null` that the `catch` returns.
    unfoldable pub parse_document : Text → Option Parsed
    parse_document raw = elim (env.parse_failure raw) [
      | some error ↦ none
      | none ↦
          (let cleaned = clean_markdown raw in
            some (record {
              cleaned = cleaned;
              chunks = chunk_markdown env.count_tokens cleaned.content no_options;
            }))
    ]

    -- A statement whose result the run does not read.
    abbrev pub after_connect :
        (Database Embedding → Database Embedding)
        → Database Embedding
        → Result {0, 0} Thrown Unit × W
        → Result {0, 0} Thrown Unit × State
    after_connect statement db (ok _, w) = (ok tt, record { outside = w; db = statement db })
    after_connect statement db (err error, w) = (err error, record { outside = w; db = db })

    pub execute :
        (Database Embedding → Database Embedding) → State → Result {0, 0} Thrown Unit × State
    execute statement s = after_connect statement s.db (env.connect s.outside)

    -- The heartbeat, which is not stopped by an error of its own.
    abbrev pub beat : ℕ → ℕ → State → State
    beat zero id s = s
    beat (suc n) id s = beat n id (execute (touch_processing Embedding id) s).1

    abbrev pub beat_since : ℕ → State → State
    beat_since id s = beat (env.beats s.outside) id s

    abbrev pub to_input : Chunk → Embedding → List Text → ChunkInput Embedding
    to_input chunk embedding filenames = record {
      ordinal = chunk.ordinal;
      content = chunk.content;
      heading_path = chunk.heading_path;
      token_count = chunk.token_count;
      embedding = embedding;
      filenames = filenames;
    }

    decimal_of : ℕ → Text
    decimal_of n = decimal n

    -- `chunks.map(…)`, with the vectors at the same places.
    pub inputs_of :
        List Text → List Chunk → List Embedding → Result Thrown (List (ChunkInput Embedding))
    unfolding decimal_of
    inputs_of filenames [] vectors = ok []
    inputs_of filenames (chunk ∷ chunks) [] =
        err (new_error (codes "no embedding returned for chunk " ++ decimal_of chunk.ordinal))
    inputs_of filenames (chunk ∷ chunks) (vector ∷ vectors) =
        let rest = inputs_of filenames chunks vectors in
        rest >>= λ inputs. ok (to_input chunk vector filenames ∷ inputs)

    abbrev pub after_insert : Bool × Database Embedding → W → Result {0, 0} Thrown Unit × State
    after_insert (true, db) w = (ok tt, record { outside = w; db = db })
    after_insert (false, db) w = (err env.refusal, record { outside = w; db = db })

    abbrev pub insert_connected :
        ℕ
        → DocumentInput
        → List (ChunkInput Embedding)
        → Database Embedding
        → Result {0, 0} Thrown Unit × W
        → Result {0, 0} Thrown Unit × State
    insert_connected id document inputs db (ok _, w) =
        after_insert (insert_document_with_chunks Embedding id document inputs db) w
    insert_connected id document inputs db (err error, w) =
        (err error, record { outside = w; db = db })

    abbrev pub insert_inputs :
        ℕ
        → DocumentInput
        → Result Thrown (List (ChunkInput Embedding))
        → State
        → Result {0, 0} Thrown Unit × State
    insert_inputs id document (err error) s = (err error, s)
    insert_inputs id document (ok inputs) s =
        insert_connected id document inputs s.db (env.connect s.outside)

    abbrev pub document_input : LoadedDocument → DocumentInput
    document_input document = record { path = document.path; title = some document.title }

    abbrev pub after_embed_chunks :
        ℕ
        → LoadedDocument
        → Parsed
        → Database Embedding
        → Result Thrown (List Embedding) × W
        → Result {0, 0} Thrown Unit × State
    after_embed_chunks id document parsed db (err error, w) =
        (err error, beat_since id (record { outside = w; db = db }))
    after_embed_chunks id document parsed db (ok vectors, w) =
        insert_inputs id (document_input document)
          (inputs_of (keep is_filled parsed.cleaned.filenames) parsed.chunks vectors)
          (beat_since id (record { outside = w; db = db }))

    abbrev pub ingest_parsed :
        ℕ → LoadedDocument → Parsed → State → Result {0, 0} Thrown Unit × State
    ingest_parsed id document parsed s =
        after_embed_chunks id document parsed s.db
          (env.embed (map (λ (chunk : Chunk). chunk.content) parsed.chunks) s.outside)

    abbrev pub go_on :
        (State → Result {0, 0} Thrown ℕ × State)
        → Result {0, 0} Thrown Unit × State
        → Result {0, 0} Thrown ℕ × State
    go_on rest (ok _, s) = rest s
    go_on rest (err error, s) = (err error, s)

    -- A round of the loop: a document that is `null` or has no chunks is skipped.
    abbrev pub after_parse :
        ℕ
        → LoadedDocument
        → Result {0, 0} Thrown ℕ × State
        → (State → Result {0, 0} Thrown ℕ × State)
        → State
        → Option Parsed
        → Result {0, 0} Thrown ℕ × State
    after_parse id document skip rest s none = skip
    after_parse id document skip rest s (some parsed) =
        if length parsed.chunks == 0 then skip else go_on rest (ingest_parsed id document parsed s)

    -- The loop over the documents, with the number of those that were skipped.
    pub ingest_documents : ℕ → ℕ → List LoadedDocument → State → Result {0, 0} Thrown ℕ × State
    unfolding parse_document inputs_of
    ingest_documents id skipped [] s = (ok skipped, s)
    ingest_documents id skipped (document ∷ documents) s =
        let skip = ingest_documents id (suc skipped) documents s in
        let rest : State → Result {0, 0} Thrown ℕ × State =
          λ t. ingest_documents id skipped documents t in
        after_parse id document skip rest s (parse_document document.raw)

    abbrev pub then_ready :
        ℕ → Result {0, 0} Thrown Unit × State → Result {0, 0} Thrown Unit × State
    then_ready id (err error, s) = (err error, s)
    then_ready id (ok _, s) = execute (mark_ready Embedding id) s

    abbrev pub after_documents :
        ℕ → Result {0, 0} Thrown ℕ × State → Result {0, 0} Thrown Unit × State
    after_documents id (err error, s) = (err error, s)
    after_documents id (ok skipped, s) =
        then_ready id (execute (record_skipped Embedding id skipped) s)

    abbrev pub after_load :
        ℕ → Result Thrown (List LoadedDocument) → State → Result {0, 0} Thrown Unit × State
    after_load id (err error) s = (err error, s)
    after_load id (ok documents) s = after_documents id (ingest_documents id 0 documents s)

    abbrev pub after_mark_processing :
        ℕ → Text → Text → Result {0, 0} Thrown Unit × State → Result {0, 0} Thrown Unit × State
    after_mark_processing id include directory (err error, s) = (err error, s)
    after_mark_processing id include directory (ok _, s) =
        after_load id
          (load_markdown_files env.paths (env.files s.outside) env.precedes directory include)
          (beat_since id s)

    -- The body of the `try` behind the fetch.
    pub ingest_fetched : ℕ → Text → FetchedSource W → State → Result {0, 0} Thrown Unit × State
    unfolding ingest_documents execute
    ingest_fetched id include fetched s =
        after_mark_processing id include fetched.directory
          (execute (mark_processing Embedding id fetched.commit_sha) s)

    -- The `catch`
    abbrev pub rethrow :
        Thrown → Result {0, 0} Thrown Unit × State → Result {0, 0} Thrown Unit × State
    rethrow error (ok _, s) = (err error, s)
    rethrow error (err failure, s) = (err failure, s)

    pub catch_error : ℕ → Result {0, 0} Thrown Unit × State → Result {0, 0} Thrown Unit × State
    unfolding execute
    catch_error id (ok _, s) = (ok tt, s)
    catch_error id (err error, s) =
        rethrow error (execute (mark_failed Embedding id (describe_thrown error)) s)

    -- The `finally`
    abbrev pub after_cleanup :
        Result {0, 0} Thrown Unit
        → Database Embedding
        → Result {0, 0} Thrown Unit × W
        → Result {0, 0} Thrown Unit × State
    after_cleanup result db (ok _, w) = (result, record { outside = w; db = db })
    after_cleanup result db (err failure, w) = (err failure, record { outside = w; db = db })

    abbrev pub clean_up :
        (W → Result {0, 0} Thrown Unit × W)
        → Result {0, 0} Thrown Unit × State
        → Result {0, 0} Thrown Unit × State
    clean_up cleanup (result, s) = after_cleanup result s.db (cleanup s.outside)

    abbrev pub after_fetch :
        ℕ
        → Text
        → Database Embedding
        → Result Thrown (FetchedSource W) × W
        → Result {0, 0} Thrown Unit × State
    after_fetch id include db (err error, w) =
        catch_error id (err error, record { outside = w; db = db })
    after_fetch id include db (ok fetched, w) =
        clean_up fetched.cleanup
          (catch_error id (ingest_fetched id include fetched (record { outside = w; db = db })))

    pub run_pipeline : ℕ → Text → Text → State → Result {0, 0} Thrown Unit × State
    unfolding ingest_fetched catch_error
    run_pipeline id uri include s =
        after_fetch id include s.db (fetch_source W env.host env.paths env.files uri s.outside)
