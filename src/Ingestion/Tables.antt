-- ===== src/Ingestion/Tables.antt =====
-- The tables behind src/ingestion/ingestion.repository.ts and the operations on them.
use docent.Base.{
  ℕ, suc, ◌+◌, Bool, true, false, not, ◌&&◌, ◌||◌, Option, none, some, List, [], ◌∷◌, ◌++◌, map,
  ltb, ◌==◌, if◌then◌else◌, length, keep, any_of, Text, text_eq,
}

pub data Status : Type 0 where
  pending : Status
  processing : Status
  ready : Status
  failed : Status

-- A row of `sources`. Times are the database's clock, in milliseconds.
pub record SourceRow : Type 0 where
  pub id : ℕ
  pub uri : Text
  pub kind : Text
  pub status : Status
  pub commit_sha : Option Text
  pub error : Option Text
  pub document_count : ℕ
  pub chunk_count : ℕ
  pub skipped_documents : Option ℕ
  pub updated_at : ℕ

pub record DocumentInput : Type 0 where
  pub path : Text
  pub title : Option Text

-- `UPDATE sources SET … WHERE …`
unfoldable pub update_rows :
    (SourceRow → Bool) → (SourceRow → SourceRow) → List SourceRow → List SourceRow
update_rows where_row set_row [] = []
update_rows where_row set_row (s ∷ sources) =
    (if where_row s then set_row s else s) ∷ update_rows where_row set_row sources

abbrev pub has_id : ℕ → SourceRow → Bool
has_id id s = s.id == id

abbrev pub first : List SourceRow → Option SourceRow
first [] = none
first (s ∷ sources) = some s

abbrev pub is_running : Status → Bool
is_running pending = true
is_running processing = true
is_running ready = false
is_running failed = false

abbrev is_processing : Status → Bool
is_processing pending = false
is_processing processing = true
is_processing ready = false
is_processing failed = false

abbrev pub is_claimable : ℕ → ℕ → SourceRow → Bool
is_claimable id stale_before s =
    has_id id s && (not (is_running s.status) || ltb s.updated_at stale_before)

abbrev pub claimed : ℕ → SourceRow → SourceRow
claimed now s = record s { status = processing; commit_sha = none; error = none; updated_at = now }

-- `Embedding` is the type of the vectors, which the embeddings API gives.
module _ (Embedding : Type 0) where
  pub record ChunkInput : Type 0 where
    pub ordinal : ℕ
    pub content : Text
    pub heading_path : List Text
    pub token_count : ℕ
    pub embedding : Embedding
    pub filenames : List Text

  -- A row of `documents` with its rows of `chunks`, which reference it and go with it.
  pub record DocumentRow : Type 0 where
    pub source_id : ℕ
    pub document : DocumentInput
    pub chunks : List ChunkInput

  -- The tables, the next identifier, and the clock.
  pub record Database : Type 0 where
    pub sources : List SourceRow
    pub documents : List DocumentRow
    pub next_id : ℕ
    pub now : ℕ

  abbrev pub is_of_source : ℕ → DocumentRow → Bool
  is_of_source id d = d.source_id == id

  abbrev pub find_source_by_uri : Text → Database → Option SourceRow
  find_source_by_uri uri db = first (keep (λ s. text_eq s.uri uri) db.sources)

  abbrev find_source : ℕ → Database → Option SourceRow
  find_source id db = first (keep (has_id id) db.sources)

  -- The insert, which `none` refuses: the column `uri` is unique.
  unfoldable pub create_source : Text → Text → Database → Option ℕ × Database
  create_source uri kind db = if any_of (λ s. text_eq s.uri uri) db.sources then (none, db) else (
    some db.next_id,
    record db {
      next_id = suc db.next_id;
      sources =
          db.sources
          ++ (record {
            id = db.next_id;
            uri = uri;
            kind = kind;
            status = pending;
            commit_sha = none;
            error = none;
            document_count = 0;
            chunk_count = 0;
            skipped_documents = none;
            updated_at = db.now;
          }
              ∷ []);
    },
  )

  unfoldable pub delete_source : ℕ → Database → Database
  delete_source id db = record db {
    sources = keep (λ s. not (has_id id s)) db.sources;
    documents = keep (λ d. not (is_of_source id d)) db.documents;
  }

  unfoldable pub delete_source_content : ℕ → Database → Database
  unfolding update_rows
  delete_source_content id db = record db {
    documents = keep (λ d. not (is_of_source id d)) db.documents;
    sources =
        update_rows (has_id id)
          (λ s. record s { document_count = 0; chunk_count = 0; updated_at = db.now }) db.sources;
  }

  abbrev update_source : ℕ → (SourceRow → SourceRow) → Database → Database
  update_source id set_row db = record db { sources = update_rows (has_id id) set_row db.sources }

  abbrev pub mark_processing : ℕ → Option Text → Database → Database
  mark_processing id commit_sha db =
      update_source id
        (λ s. record s {
          status = processing;
          commit_sha = commit_sha;
          error = none;
          updated_at = db.now;
        })
        db

  -- One conditional update. The rows that `RETURNING` gives are the updated ones.
  unfoldable pub claim_for_processing : ℕ → ℕ → Database → Option SourceRow × Database
  unfolding update_rows
  claim_for_processing id stale_before db = (
    first (map (claimed db.now) (keep (is_claimable id stale_before) db.sources)),
    record db { sources = update_rows (is_claimable id stale_before) (claimed db.now) db.sources },
  )

  abbrev pub touch_processing : ℕ → Database → Database
  touch_processing id db = record db {
    sources =
        update_rows (λ s. has_id id s && is_processing s.status)
          (λ s. record s { updated_at = db.now }) db.sources;
  }

  abbrev pub mark_ready : ℕ → Database → Database
  mark_ready id db = update_source id (λ s. record s { status = ready; updated_at = db.now }) db

  abbrev pub mark_failed : ℕ → Text → Database → Database
  mark_failed id error db =
      update_source id (λ s. record s { status = failed; error = some error; updated_at = db.now })
        db

  abbrev pub record_skipped : ℕ → ℕ → Database → Database
  record_skipped id skipped db =
      update_source id (λ s. record s { skipped_documents = some skipped; updated_at = db.now }) db

  pub has_distinct_ordinals : List ChunkInput → Bool
  has_distinct_ordinals [] = true
  has_distinct_ordinals (c ∷ chunks) =
      not (any_of (λ (d : ChunkInput). d.ordinal == c.ordinal) chunks)
      && has_distinct_ordinals chunks

  -- The constraints on `documents` and `chunks`: the source exists, it has no document at this
  -- path, and no two chunks have one ordinal.
  abbrev pub is_insertable : ℕ → DocumentInput → List ChunkInput → Database → Bool
  is_insertable source_id document chunks db =
      any_of (has_id source_id) db.sources
      && not (
          any_of (λ d. is_of_source source_id d && text_eq d.document.path document.path)
            db.documents)
      && has_distinct_ordinals chunks

  -- The transaction, with whether it was committed. One that meets a constraint changes nothing.
  unfoldable pub insert_document_with_chunks :
      ℕ → DocumentInput → List ChunkInput → Database → Bool × Database
  unfolding update_rows has_distinct_ordinals
  insert_document_with_chunks source_id document chunks db =
      if is_insertable source_id document chunks db
      then (
        true,
        record db {
          documents =
              db.documents
              ++ (record { source_id = source_id; document = document; chunks = chunks } ∷ []);
          sources =
              update_rows (has_id source_id)
                (λ s. record s {
                  document_count = s.document_count + 1;
                  chunk_count = s.chunk_count + length chunks;
                  updated_at = db.now;
                })
                db.sources;
        },
      )
      else (false, db)
