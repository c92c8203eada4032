-- ===== src/Ingestion/Claims.antt =====
-- `claimSource` and `reuse` of src/ingestion/ingestion.service.ts.
use docent.Base.{ℕ, ◌-◌, Option, none, some, Text, codes, Result, ok, err}
use docent.Ingestion.Tables.{
  SourceRow, Database, find_source_by_uri, create_source, delete_source_content,
  claim_for_processing,
}

-- What a claim throws: the `ConflictException`, or the violation of the unique constraint.
pub data ClaimError : Type 0 where
  in_progress : Text → ClaimError
  unique_violation : Text → ClaimError

module _ (Embedding : Type 0) (lease_ms : ℕ) where
  -- A date before the epoch and the epoch are the same threshold, for times are not negative.
  abbrev pub stale_before : Database Embedding → ℕ
  stale_before db = db.now - lease_ms

  abbrev pub after_claim :
      Text → Option SourceRow × Database Embedding → Result ClaimError ℕ × Database Embedding
  after_claim uri (none, db) = (err (in_progress uri), db)
  after_claim uri (some row, db) = (ok row.id, delete_source_content Embedding row.id db)

  unfoldable pub reuse :
      SourceRow → Text → Database Embedding → Result ClaimError ℕ × Database Embedding
  reuse source uri db =
      after_claim uri (claim_for_processing Embedding source.id (stale_before db) db)

  abbrev reuse_winner :
      Option SourceRow → Text → Database Embedding → Result ClaimError ℕ × Database Embedding
  reuse_winner none uri db = (err (unique_violation uri), db)
  reuse_winner (some winner) uri db = reuse winner uri db

  abbrev after_insert :
      Text → Option ℕ × Database Embedding → Result ClaimError ℕ × Database Embedding
  after_insert uri (some id, db) = (ok id, db)
  after_insert uri (none, db) = reuse_winner (find_source_by_uri Embedding uri db) uri db

  abbrev after_read :
      Text → Option SourceRow → Database Embedding → Result ClaimError ℕ × Database Embedding
  after_read uri (some existing) db = reuse existing uri db
  after_read uri none db = after_insert uri (create_source Embedding uri (codes "docs") db)

  -- `others` is what other requests do to the database between the read and the insert.
  unfoldable pub claim_source :
      (Database Embedding → Database Embedding)
      → Text
      → Database Embedding
      → Result ClaimError ℕ × Database Embedding
  unfolding reuse
  claim_source others uri db = after_read uri (find_source_by_uri Embedding uri db) (others db)
