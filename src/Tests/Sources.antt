-- ===== src/Tests/Sources.antt =====
-- Claims of a source and the counts, on a database with one source and one document.
use docent.Base.{ℕ, ◌≡◌, refl, none, some, [], ◌∷◌, arith, codes, text_eq, ok, err}
use docent.Ingestion.Tables
use docent.Ingestion.Tables.{
  SourceRow, DocumentInput, ChunkInput, DocumentRow, Database, delete_source_content,
  claim_for_processing,
}
use docent.Ingestion.Claims.{in_progress, reuse, claim_source}
use docent.Ingestion.Exclusive.{reuse-excludes}
use docent.Ingestion.Counts.{insert, run, IsWellFormed}
use docent.Ingestion.Preserved.{run-IsWellFormed}

abbrev a_source : SourceRow
a_source = record {
  id = 1;
  uri = codes "docs";
  kind = codes "docs";
  status = Tables.ready;
  commit_sha = some (codes "ab12");
  error = none;
  document_count = 1;
  chunk_count = 1;
  skipped_documents = none;
  updated_at = 500;
}

abbrev a_chunk : ℕ → ChunkInput ℕ
a_chunk ordinal = record {
  ordinal = ordinal;
  content = codes "A guard.";
  heading_path = [];
  token_count = 3;
  embedding = 7;
  filenames = [];
}

abbrev a_document : DocumentRow ℕ
a_document = record {
  source_id = 1;
  document = record { path = codes "guards.md"; title = none };
  chunks = a_chunk 0 ∷ [];
}

abbrev pub database : Database ℕ
database = record { sources = a_source ∷ []; documents = a_document ∷ []; next_id = 2; now = 1000 }

-- Behind the claim: the run is on, and the old content is gone.
abbrev claimed_database : Database ℕ
claimed_database = record {
  sources =
      record a_source {
        status = Tables.processing;
        commit_sha = none;
        document_count = 0;
        chunk_count = 0;
        updated_at = 1000;
      }
      ∷ [];
  documents = [];
  next_id = 2;
  now = 1000;
}

first_claim : reuse ℕ 900 a_source (codes "docs") database ≡ (ok 1, claimed_database)
unfolding reuse claim_for_processing delete_source_content
first_claim = refl

-- Past the lease a run that is no longer renewed is taken over.
stale_claim :
    (reuse ℕ 900 a_source (codes "docs") (record claimed_database { now = 1901 })).0 ≡ ok 1
unfolding reuse claim_for_processing
stale_claim = refl

-- Between the read and the insert another request creates the source: the loser meets its lease.
lost_race :
    (claim_source ℕ 900
      (λ db. (Tables.create_source ℕ (codes "new") (codes "docs") db).1)
      (codes "new")
      database).0
    ≡ err (in_progress (codes "new"))
unfolding claim_source claim_for_processing Tables.create_source text_eq
lost_race = refl

reuse-excludes_example :
    reuse ℕ 900 a_source (codes "docs") (record claimed_database { now = 1900 })
    ≡ (err (in_progress (codes "docs")), record claimed_database { now = 1900 })
reuse-excludes_example =
    reuse-excludes ℕ 900 a_source (codes "docs") (codes "docs") database claimed_database 1 1900
      (tt, tt) first_claim (omega arith)

abbrev new_document : DocumentInput
new_document = record { path = codes "pipes.md"; title = some (codes "Pipes") }

database-IsWellFormed : IsWellFormed ℕ database
database-IsWellFormed = ((((refl, refl), tt), (omega arith, tt)), (omega arith, tt))

run-IsWellFormed_example :
    IsWellFormed ℕ (run ℕ (insert 1 new_document (a_chunk 0 ∷ a_chunk 1 ∷ [])) database)
run-IsWellFormed_example =
    run-IsWellFormed ℕ (insert 1 new_document (a_chunk 0 ∷ a_chunk 1 ∷ [])) database
      database-IsWellFormed
