-- ===== src/Ingestion/Pipeline/Cleanup.antt =====
-- The temporary directory of a run: `cloneRepository` of src/ingestion/source-fetcher.ts and the
-- `finally` of `runPipeline`.
use docent.Base.{none, ℕ, ◌≡◌, sym, Bool, true, false, some, [], ◌∷◌, Text, codes, Result, ok, err}
use mathlib.Core.Path.{subst}
use docent.Errors.{Thrown, describe_thrown}
use docent.Ingestion.Tables.{Database, mark_failed}
use docent.Ingestion.Fetcher.{
  FetchedSource, after_remove, after_rev_parse, after_clone, after_make_directory, clone_repository,
  is_url, fetch_source,
}
use docent.Ingestion.Pipeline.{
  Environment, State, execute, after_connect, catch_error, rethrow, after_cleanup, clean_up,
  after_fetch, run_pipeline,
}

module _ (W Embedding : Type 0) (env : Environment W Embedding) (id : ℕ)
    (exists : Text → W → Bool) where
  -- The host removes a directory when it is asked to, and a statement makes none.
  abbrev pub RemovesDirectories : Type 0
  RemovesDirectories =
      ((d : Text) (w : W)
        → ((env.host.remove d w).0 ≡ ok tt) × (exists d (env.host.remove d w).1 ≡ false))
      × ((d : Text) (w : W) → exists d w ≡ false → exists d (env.connect w).1 ≡ false)

  -- What a fetch leaves: nothing, or the removal of the directory as its cleanup.
  abbrev IsTidy : Text → Result Thrown (FetchedSource W) × W → Type 0
  IsTidy d (err _, w) = exists d w ≡ false
  IsTidy d (ok fetched, w) = (w' : W) → exists d (fetched.cleanup w').1 ≡ false

  after_remove-IsTidy :
      (d url : Text) (error : Thrown) (c : Result {0, 0} Thrown Unit × W)
      → exists d c.1 ≡ false
      → IsTidy d (after_remove W env.host url error c)
  after_remove-IsTidy d url error (ok _, w) h = h
  after_remove-IsTidy d url error (err _, w) h = h

  after_rev_parse-IsTidy :
      (d url : Text) (c : Result Thrown Text × W)
      → RemovesDirectories
      → IsTidy d (after_rev_parse W env.host url d c)
  after_rev_parse-IsTidy d url (ok _, w) (h, _) = λ w'. (h d w').1
  after_rev_parse-IsTidy d url (err error, w) (h, _) =
      after_remove-IsTidy d url error (env.host.remove d w) (h d w).1

  after_clone-IsTidy :
      (d url : Text) (c : Result Thrown Text × W)
      → RemovesDirectories
      → IsTidy d (after_clone W env.host url d c)
  after_clone-IsTidy d url (ok _, w) h =
      after_rev_parse-IsTidy d url (env.host.git (codes "rev-parse" ∷ codes "HEAD" ∷ []) (some d) w)
        h
  after_clone-IsTidy d url (err error, w) (h, _) =
      after_remove-IsTidy d url error (env.host.remove d w) (h d w).1

  clone_repository-IsTidy :
      (d url : Text) (w w' : W)
      → RemovesDirectories
      → env.host.make_directory w ≡ (ok d, w')
      → IsTidy d (clone_repository W env.host url w)
  unfolding clone_repository
  clone_repository-IsTidy d url w w' h k =
      subst (λ c. IsTidy d (after_make_directory W env.host url c)) (sym k)
        (after_clone-IsTidy d url
          (env.host.git (codes "clone" ∷ codes "--depth" ∷ codes "1" ∷ url ∷ d ∷ []) none w') h)

  after_cleanup-Gone :
      (d : Text) (r : Result {0, 0} Thrown Unit) (db : Database Embedding)
      (c : Result {0, 0} Thrown Unit × W)
      → exists d c.1 ≡ false
      → exists d (after_cleanup W Embedding env r db c).1.outside ≡ false
  after_cleanup-Gone d r db (ok _, w) h = h
  after_cleanup-Gone d r db (err _, w) h = h

  rethrow-Gone :
      (d : Text) (error : Thrown) (statement : Database Embedding → Database Embedding)
      (db : Database Embedding) (c : Result {0, 0} Thrown Unit × W)
      → exists d c.1 ≡ false
      → exists d
          (rethrow W Embedding env error (after_connect W Embedding env statement db c)).1.outside
        ≡ false
  rethrow-Gone d error statement db (ok _, w) h = h
  rethrow-Gone d error statement db (err _, w) h = h

  clean_up-Gone :
      (d : Text) (cleanup : W → Result {0, 0} Thrown Unit × W)
      (p : Result {0, 0} Thrown Unit × State W Embedding)
      → ((w : W) → exists d (cleanup w).1 ≡ false)
      → exists d (clean_up W Embedding env cleanup p).1.outside ≡ false
  clean_up-Gone d cleanup (r, s) h = after_cleanup-Gone d r s.db (cleanup s.outside) (h s.outside)

  fetch_source-IsTidy :
      (d uri : Text) (w w' : W)
      → RemovesDirectories
      → is_url W env.host uri ≡ true
      → env.host.make_directory w ≡ (ok d, w')
      → IsTidy d (fetch_source W env.host env.paths env.files uri w)
  unfolding fetch_source
  fetch_source-IsTidy d uri w w' h u k = rw u (clone_repository-IsTidy d uri w w' h k)

  after_fetch-Gone :
      (d include : Text) (db : Database Embedding) (f : Result Thrown (FetchedSource W) × W)
      → RemovesDirectories
      → IsTidy d f
      → exists d (after_fetch W Embedding env id include db f).1.outside ≡ false
  unfolding catch_error execute
  after_fetch-Gone d include db (err error, w) (_, h) k =
      rethrow-Gone d error (mark_failed Embedding id (describe_thrown error)) db (env.connect w)
        (h d w k)
  after_fetch-Gone d include db (ok fetched, w) h k = clean_up-Gone d fetched.cleanup _ k

  -- For a source with an http or https address, on a host that removes a directory when asked and
  -- where a statement to the database makes none, the temporary directory of the clone does not
  -- exist after the run, whether the clone, the run or nothing failed.
  pub run_pipeline-Gone :
      (d uri include : Text) (s : State W Embedding) (w : W)
      → RemovesDirectories
      → is_url W env.host uri ≡ true
      → env.host.make_directory s.outside ≡ (ok d, w)
      → exists d (run_pipeline W Embedding env id uri include s).1.outside ≡ false
  unfolding run_pipeline
  run_pipeline-Gone d uri include s w h u k =
      after_fetch-Gone d include s.db (fetch_source W env.host env.paths env.files uri s.outside) h
        (fetch_source-IsTidy d uri s.outside w h u k)
