-- ===== src/Ingestion/Counts.antt =====
-- The counts that src/ingestion/ingestion.repository.ts keeps beside the documents.
use docent.Base.{
  ℕ, suc, ◌+◌, ◌<◌, ◌≡◌, refl, Bool, true, false, not, Option, List, [], ◌∷◌, ◌++◌, arith, ◌==◌,
  if◌then◌else◌, if_elim, length, keep, All, Text,
}
use docent.Ingestion.Tables.{
  SourceRow, DocumentInput, ChunkInput, DocumentRow, Database, update_rows, is_of_source,
  create_source, delete_source, delete_source_content, mark_processing, claim_for_processing,
  touch_processing, mark_ready, mark_failed, record_skipped, insert_document_with_chunks,
}

module _ (Embedding : Type 0) where
  -- A statement that the repository runs, and the clock going on.
  pub data Operation : Type 0 where
    create : Text → Text → Operation
    delete : ℕ → Operation
    delete_content : ℕ → Operation
    to_processing : ℕ → Option Text → Operation
    claim : ℕ → ℕ → Operation
    touch : ℕ → Operation
    to_ready : ℕ → Operation
    to_failed : ℕ → Text → Operation
    skipped : ℕ → ℕ → Operation
    insert : ℕ → DocumentInput → List (ChunkInput Embedding) → Operation
    tick : ℕ → Operation

  unfoldable pub run : Operation → Database Embedding → Database Embedding
  unfolding create_source delete_source delete_source_content claim_for_processing
      insert_document_with_chunks update_rows
  run (create uri kind) db = (create_source Embedding uri kind db).1
  run (delete id) db = delete_source Embedding id db
  run (delete_content id) db = delete_source_content Embedding id db
  run (to_processing id commit_sha) db = mark_processing Embedding id commit_sha db
  run (claim id stale_before) db = (claim_for_processing Embedding id stale_before db).1
  run (touch id) db = touch_processing Embedding id db
  run (to_ready id) db = mark_ready Embedding id db
  run (to_failed id error) db = mark_failed Embedding id error db
  run (skipped id n) db = record_skipped Embedding id n db
  run (insert id document chunks) db =
      (insert_document_with_chunks Embedding id document chunks db).1
  run (tick now) db = record db { now = now }

  unfoldable pub run_all : List Operation → Database Embedding → Database Embedding
  run_all [] db = db
  run_all (operation ∷ operations) db = run_all operations (run operation db)

  abbrev chunks_of : ℕ → List (DocumentRow Embedding) → ℕ
  chunks_of id [] = 0
  chunks_of id (d ∷ documents) =
      let rest = chunks_of id documents in
      if is_of_source Embedding id d then length d.chunks + rest else rest

  abbrev documents_of : ℕ → List (DocumentRow Embedding) → ℕ
  documents_of id [] = 0
  documents_of id (d ∷ documents) =
      let rest = documents_of id documents in if is_of_source Embedding id d then suc rest else rest

  abbrev pub IsCounted : List (DocumentRow Embedding) → SourceRow → Type 0
  IsCounted documents s =
      (s.document_count ≡ documents_of s.id documents) × (s.chunk_count ≡ chunks_of s.id documents)

  -- Every source counts its documents and their chunks, and the identifiers of the documents'
  -- sources have been given out.
  abbrev AreCounted : Database Embedding → Type 0
  AreCounted db =
      All (IsCounted db.documents) db.sources
      × All (λ (d : DocumentRow Embedding). d.source_id < db.next_id) db.documents

  -- An update that leaves identifier and counts alone leaves the invariant alone.
  pub update_rows-All :
      (P Q : SourceRow → Type 0) (where_row : SourceRow → Bool) (set_row : SourceRow → SourceRow)
      (sources : List SourceRow)
      → ((s : SourceRow) → P s → where_row s ≡ true → Q (set_row s))
      → ((s : SourceRow) → P s → where_row s ≡ false → Q s)
      → All P sources
      → All Q (update_rows where_row set_row sources)
  unfolding update_rows
  update_rows-All P Q where_row set_row [] hit miss all = tt
  update_rows-All P Q where_row set_row (s ∷ sources) hit miss (h, all) = (
    if_elim Q (where_row s) (set_row s) s (hit s h) (miss s h),
    update_rows-All P Q where_row set_row sources hit miss all,
  )

  -- What is left of a source's documents when those of one source go.
  pub kept-counts :
      (id j : ℕ) (documents : List (DocumentRow Embedding))
      → (let left = keep (λ d. not (is_of_source Embedding id d)) documents in
          (documents_of j left ≡ (if j == id then 0 else documents_of j documents))
          × (chunks_of j left ≡ (if j == id then 0 else chunks_of j documents)))
  kept-counts id j [] = (ground arith, ground arith)
  kept-counts id j (d ∷ documents) =
      let (docs, chunks) = kept-counts id j documents in (ground arith, ground arith)

  pub added-counts :
      (j : ℕ) (documents : List (DocumentRow Embedding)) (d : DocumentRow Embedding)
      → (documents_of j (documents ++ (d ∷ [])) ≡ (
          if is_of_source Embedding j d
          then suc (documents_of j documents)
          else documents_of j documents))
        × (chunks_of j (documents ++ (d ∷ [])) ≡ (
            if is_of_source Embedding j d
            then chunks_of j documents + length d.chunks
            else chunks_of j documents))
  added-counts j [] d = (refl, ground arith)
  added-counts j (e ∷ documents) d =
      let (docs, chunks) = added-counts j documents d in (ground arith, ground arith)

  pub fresh-counts :
      (j : ℕ) (documents : List (DocumentRow Embedding))
      → All (λ (d : DocumentRow Embedding). d.source_id < j) documents
      → (documents_of j documents ≡ 0) × (chunks_of j documents ≡ 0)
  fresh-counts j [] h = (refl, refl)
  fresh-counts j (d ∷ documents) (h, hs) =
      let (docs, chunks) = fresh-counts j documents hs in (ground arith, ground arith)

  -- With it the identifiers of the sources have been given out.
  abbrev pub IsWellFormed : Database Embedding → Type 0
  IsWellFormed db = AreCounted db × All (λ (s : SourceRow). s.id < db.next_id) db.sources
