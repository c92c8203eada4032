-- ===== src/Ask/Service/Twice.antt =====
-- A question that is asked again: src/ask/ask.service.ts with its cache.
use docent.Base.{
  ℕ, ◌≡◌, refl, ap, ◌∙◌, inl, inr, ◌&&◌, Option, none, some, List, ltb, if_elim, length, Text,
  Result, ok, err, Result-cases,
}
use docent.Errors.{Thrown}
use docent.Llm.Types.{CompletionRequest, CompletionResult}
use docent.Retrieval.Rrf
use docent.Retrieval.Rrf.{RetrievedChunk}
use docent.Cost
use docent.Ask.Types.{DbError, Citation, AskResult, CachedAnswer, RecordInput}
use docent.Ask.Prompt.{to_citations, build_prompt}
use docent.Ask.Service.{
  Collaborators, answer_key, after_record, persist, record_cache_hit, record_refusal,
  retrieve_grounded, cached_answer, after_completion, after_retrieval, after_lookup, ask,
  write_cache, without_citations, is_foreign_key_violation, cached_refusal,
}

module _ (S : Rrf.Arithmetic) (C : Cost.Arithmetic) where
  -- A corpus that does not change meanwhile and a cache that is reached and keeps what it is given:
  -- an operation leaves the version alone, recording leaves the cache alone, and what is set is
  -- read back.
  pub record IsSteady (env : Collaborators S C) : Type 0 where
    pub version_set_json :
        (k : Text) (c : CachedAnswer S C) (ttl : ℕ) (w : env.World)
        → env.current_version (env.set_json k c ttl w) ≡ env.current_version w
    pub version_record_row :
        (input : RecordInput S C) (w : env.World)
        → env.current_version (env.record_row input w).1 ≡ env.current_version w
    pub version_search :
        (question : Text) (w : env.World)
        → env.current_version (env.search question w).1 ≡ env.current_version w
    pub version_complete :
        (request : CompletionRequest) (w : env.World)
        → env.current_version (env.complete request w).1 ≡ env.current_version w
    pub get_json_record_row :
        (k : Text) (input : RecordInput S C) (w : env.World)
        → env.get_json k (env.record_row input w).1 ≡ env.get_json k w
    pub get_json_set_json :
        (k : Text) (c : CachedAnswer S C) (ttl : ℕ) (w : env.World)
        → env.get_json k (env.set_json k c ttl w) ≡ some c

  module _ (env : Collaborators S C) (steady : IsSteady env) where
    -- What every write of a row keeps, persisting keeps.
    after_record_keeps :
        (P : env.World → Type 0) (input : RecordInput S C) (r : Result DbError ℕ × env.World)
        → ((i : RecordInput S C) (v : env.World) → P v → P (env.record_row i v).1)
        → P r.1
        → P (after_record S C env input r)
    after_record_keeps P input (ok _, w) keep_row h = h
    after_record_keeps P input (err error, w) keep_row h =
        if_elim P (ltb 0 (length input.citations) && is_foreign_key_violation S C env error) _ w
          (λ _. keep_row (without_citations S C env input) w h) (λ _. h)

    persist_keeps :
        (P : env.World → Type 0) (input : RecordInput S C) (w : env.World)
        → ((i : RecordInput S C) (v : env.World) → P v → P (env.record_row i v).1)
        → P w
        → P (persist S C env input w)
    unfolding persist
    persist_keeps P input w keep_row h =
        after_record_keeps P input (env.record_row input w) keep_row (keep_row input w h)

    version_persist :
        (input : RecordInput S C) (w : env.World)
        → env.current_version (persist S C env input w) ≡ env.current_version w
    version_persist input w =
        persist_keeps (λ v. env.current_version v ≡ env.current_version w) input w
          (λ i v h. steady.version_record_row i v ∙ h) refl

    get_json_persist :
        (k : Text) (input : RecordInput S C) (w : env.World)
        → env.get_json k (persist S C env input w) ≡ env.get_json k w
    get_json_persist k input w =
        persist_keeps (λ v. env.get_json k v ≡ env.get_json k w) input w
          (λ i v h. steady.get_json_record_row k i v ∙ h) refl

    -- The world in which a question is served from the cache with a certain result.
    abbrev Serves : Text → AskResult S C → env.World → Type 0
    Serves question result w =
        (cached : CachedAnswer S C) × (cached.result ≡ result)
        × (version : Text) × (env.current_version w ≡ ok version)
        × (env.get_json (answer_key S C env version question) w ≡ some cached)

    Serves-written :
        (question version : Text) (cached : CachedAnswer S C) (input : RecordInput S C)
        (v w : env.World)
        → env.current_version w ≡ ok version
        → env.current_version v ≡ env.current_version w
        → Serves question cached.result
            (write_cache S C env question version cached (persist S C env input v))
    Serves-written question version cached input v w e same = (
      cached,
      refl,
      version,
      steady.version_set_json _ cached env.answer_cache_ttl_s (persist S C env input v)
          ∙ version_persist input v
          ∙ same
          ∙ e,
      steady.get_json_set_json _ cached env.answer_cache_ttl_s (persist S C env input v),
    )

    -- What a fresh answer leaves.
    abbrev LeavesServed : Text → Result Thrown (AskResult S C) × env.World → Type 0
    LeavesServed question (ok result, w) = Serves question result w
    LeavesServed question (err error, w) = Unit

    after_completion-served :
        (question version : Text) (w : env.World) (citations : List (Citation S C))
        (r : Result Thrown (CompletionResult C.Number) × env.World)
        → env.current_version w ≡ ok version
        → env.current_version r.1 ≡ env.current_version w
        → LeavesServed question (after_completion S C env question version citations r)
    after_completion-served question version w citations (err error, v) e same = tt
    after_completion-served question version w citations (ok c, v) e same =
        Serves-written question version _ _ v w e same

    after_retrieval-served :
        (question version : Text) (w : env.World)
        (r : Result Thrown (Option (List (RetrievedChunk S))) × env.World)
        → env.current_version w ≡ ok version
        → env.current_version r.1 ≡ env.current_version w
        → LeavesServed question (after_retrieval S C env question version r)
    unfolding record_refusal
    after_retrieval-served question version w (err error, v) e same = tt
    after_retrieval-served question version w (ok none, v) e same =
        Serves-written question version (cached_refusal S C env) _ v w e same
    after_retrieval-served question version w (ok (some chunks), v) e same =
        after_completion-served question version w (to_citations S C chunks) _ e
          (steady.version_complete (build_prompt S C env.show question chunks) v ∙ same)

    hit-served :
        (question version : Text) (cached : CachedAnswer S C) (w : env.World)
        → env.current_version w ≡ ok version
        → env.get_json (answer_key S C env version question) w ≡ some cached
        → Serves question cached.result (record_cache_hit S C env question cached w)
    unfolding record_cache_hit
    hit-served question version cached w e found =
        (cached, refl, version, version_persist _ w ∙ e, get_json_persist _ _ w ∙ found)

    lookup-served :
        (question : Text) (w : env.World) (found : Option (CachedAnswer S C)) (version : Text)
        → env.current_version w ≡ ok version
        → env.get_json (answer_key S C env version question) w ≡ found
        → LeavesServed question (after_lookup S C env question (ok (version, found)) w)
    unfolding retrieve_grounded
    lookup-served question w (some cached) version e f = hit-served question version cached w e f
    lookup-served question w none version e f =
        after_retrieval-served question version w (retrieve_grounded S C env question w) e
          (steady.version_search question w)

    ask-served : (question : Text) (w : env.World) → LeavesServed question (ask S C env question w)
    unfolding ask cached_answer
    ask-served question w = elim (Result-cases (env.current_version w)) [
      | inl (version, e) ↦ rw e (lookup-served question w _ version e refl)
      | inr (error, e) ↦ rw e tt
    ]

    serve :
        (question : Text) (w : env.World) (cached : CachedAnswer S C) (version : Text)
        → env.current_version w ≡ ok version
        → env.get_json (answer_key S C env version question) w ≡ some cached
        → ask S C env question w ≡ (ok cached.result, record_cache_hit S C env question cached w)
    unfolding ask cached_answer
    serve question w cached version e found = rw (e, found)

    -- With a corpus that does not change and a cache that keeps what it is given, after a question
    -- was answered or refused, asking it again gives the same result from the cache: nothing is
    -- retrieved and no model is called, and all that happens is that the hit is recorded.
    pub ask_twice :
        (question : Text) (w w' : env.World) (result : AskResult S C)
        → ask S C env question w ≡ (ok result, w')
        → (cached : CachedAnswer S C) × (cached.result ≡ result)
          × (ask S C env question w' ≡ (ok result, record_cache_hit S C env question cached w'))
    ask_twice question w w' result h =
        let (cached, same, version, e, found) = rw h at (ask-served question w) in
        (
          cached,
          same,
          serve question w' cached version e found
              ∙ ap
                  (λ (r : AskResult S C).
                    let out : Result Thrown (AskResult S C) × env.World =
                      (ok r, record_cache_hit S C env question cached w') in
                    out)
                  same,
        )
