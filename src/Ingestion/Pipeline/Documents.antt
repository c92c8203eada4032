-- ===== src/Ingestion/Pipeline/Documents.antt =====
-- The documents that a run writes: the loop of `runPipeline` in src/ingestion/ingestion.service.ts.
use docent.Base.{
  ℕ, ◌≡◌, Bool, Option, none, some, not, List, [], ◌∷◌, ◌++◌, map, ◌==◌, length, keep, Result, ok,
  err,
}
use docent.Errors.{Thrown}
use docent.Chunker.Chunks.{Chunk}
use docent.Ingestion.Tables.{DocumentInput, ChunkInput, DocumentRow}
use docent.Ingestion.Loader.{LoadedDocument}
use docent.Ingestion.Pipeline.{Environment, State, Parsed, parse_document}

-- A row of `documents` with its chunks, without the vectors.
pub record Written : Type 0 where
  pub source_id : ℕ
  pub document : DocumentInput
  pub chunks : List Chunk

module _ (W Embedding : Type 0) (env : Environment W Embedding) (id : ℕ) where
  abbrev chunk_of : ChunkInput Embedding → Chunk
  chunk_of c = record {
    content = c.content;
    heading_path = c.heading_path;
    token_count = c.token_count;
    ordinal = c.ordinal;
  }

  abbrev written_row : DocumentRow Embedding → Written
  written_row d = record {
    source_id = d.source_id;
    document = d.document;
    chunks = map chunk_of d.chunks;
  }

  abbrev pub written : State W Embedding → List Written
  written s = map written_row s.db.documents

  abbrev chunks_of : Option Parsed → List Chunk
  chunks_of none = []
  chunks_of (some parsed) = parsed.chunks

  -- None, where the parsing fails.
  abbrev chunks_in : LoadedDocument → List Chunk
  chunks_in d = chunks_of (parse_document W Embedding env d.raw)

  abbrev pub is_empty : LoadedDocument → Bool
  is_empty d = length (chunks_in d) == 0

  abbrev row_of : LoadedDocument → List Chunk → Written
  row_of d chunks = record {
    source_id = id;
    document = record { path = d.path; title = some d.title };
    chunks = chunks;
  }

  -- What the loader's document is to become.
  abbrev pub to_write : LoadedDocument → Written
  to_write d = row_of d (chunks_in d)

  -- The documents with chunks are written in their order, and the others are counted; on an error
  -- some of the first are written.
  abbrev pub HasWritten : List Written → ℕ → Result {0, 0} Thrown ℕ × State W Embedding → Type 0
  HasWritten rows n (ok skipped, s) = (written s ≡ rows) × (skipped ≡ n)
  HasWritten rows n (err _, s) = (missing : List Written) × (written s ++ missing ≡ rows)

  -- One row is added, or none on an error.
  abbrev WritesAll : List Written → Written → Result {0, 0} Thrown Unit × State W Embedding → Type 0
  WritesAll rows row (ok _, s) = written s ≡ rows ++ (row ∷ [])
  WritesAll rows row (err _, s) = written s ≡ rows

  abbrev pub kept : List LoadedDocument → List LoadedDocument
  kept documents = keep (λ d. not (is_empty d)) documents

  abbrev pub skipped : List LoadedDocument → List LoadedDocument
  skipped documents = keep is_empty documents
