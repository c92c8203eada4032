-- ===== src/Ingestion/Starts.antt =====
-- The two ways to start a run: `startIngestion` and `ingestInline` of
-- src/ingestion/ingestion.service.ts.
use docent.Base.{ℕ, Text, Result, ok, err}
use docent.Errors.{Thrown}
use docent.Ingestion.Tables.{Database}
use docent.Ingestion.Claims.{ClaimError, claim_source}
use docent.Ingestion.Pipeline.{Environment, State, run_pipeline}

-- What a start throws: the error of the claim, or that of the run.
pub data StartError : Type 0 where
  claim_failed : ClaimError → StartError
  run_failed : Thrown → StartError

module _ (W Embedding : Type 0) (env : Environment W Embedding) (lease_ms : ℕ) where
  abbrev finished :
      ℕ → Result {0, 0} Thrown Unit × State W Embedding → Result StartError ℕ × State W Embedding
  finished id (ok _, s) = (ok id, s)
  finished id (err error, s) = (err (run_failed error), s)

  abbrev run_claimed :
      Text
      → Text
      → W
      → Result ClaimError ℕ × Database Embedding
      → Result StartError ℕ × State W Embedding
  run_claimed uri include w (err error, db) =
      (err (claim_failed error), record { outside = w; db = db })
  run_claimed uri include w (ok id, db) =
      finished id (run_pipeline W Embedding env id uri include (record { outside = w; db = db }))

  -- `others` is what other requests do between the read and the insert of the claim.
  unfoldable pub ingest_inline :
      (Database Embedding → Database Embedding)
      → Text
      → Text
      → State W Embedding
      → Result StartError ℕ × State W Embedding
  ingest_inline others uri include s =
      run_claimed uri include s.outside (claim_source Embedding lease_ms others uri s.db)

  -- What the request is answered, and the run behind it, whose error is only logged.
  abbrev launch : Text → Text → ℕ → State W Embedding → State W Embedding
  launch uri include id s = (run_pipeline W Embedding env id uri include s).1

  abbrev launched :
      Text
      → Text
      → W
      → Result ClaimError ℕ × Database Embedding
      → Result ClaimError ℕ × State W Embedding
  launched uri include w (err error, db) = (err error, record { outside = w; db = db })
  launched uri include w (ok id, db) =
      (ok id, launch uri include id (record { outside = w; db = db }))

  unfoldable pub start_ingestion :
      (Database Embedding → Database Embedding)
      → Text
      → Text
      → State W Embedding
      → Result ClaimError ℕ × State W Embedding
  start_ingestion others uri include s =
      launched uri include s.outside (claim_source Embedding lease_ms others uri s.db)
