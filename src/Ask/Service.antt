-- ===== src/Ask/Service.antt =====
-- `AskService` of src/ask/ask.service.ts over the operations of its collaborators.
pub mod Recorded
pub mod Persist
pub mod Twice
use docent.Base.{
  ℕ, Bool, true, false, ◌&&◌, Option, none, some, List, [], ◌∷◌, ◌++◌, ltb, if◌then◌else◌, length,
  Text, codes, text_eq, Result, ok, err, ◌>>=◌,
}
use docent.Errors.{Thrown}
use docent.Llm.Types.{CompletionRequest, CompletionResult, StreamOutcome, TokenUsage}
use docent.Retrieval.Rrf
use docent.Retrieval.Rrf.{RetrievedChunk}
use docent.Cost
use docent.Cost.{ComputedCost, compute_cost}
use docent.Ask.Types.{DbError, Citation, AskResult, CachedAnswer, RecordCost, RecordInput}
use docent.Ask.Prompt.{to_citations, build_prompt}
use docent.Ask.Repository.{foreign_key_violation_code}

-- The collaborators of the service over a world that they change, and its configuration. The
-- cache neither throws on a read nor on a write; `within_bound` is `distance <= maxDistance`.
pub record Collaborators (S : Rrf.Arithmetic) (C : Cost.Arithmetic) : Type 1 where
  pub World : Type 0
  pub Distance : Type 0
  pub current_version : World → Result Thrown Text
  pub get_json : Text → World → Option (CachedAnswer S C)
  pub set_json : Text → CachedAnswer S C → ℕ → World → World
  pub search : Text → World → Result Thrown (List (RetrievedChunk S) × Option Distance) × World
  pub complete : CompletionRequest → World → Result Thrown (CompletionResult C.Number) × World
  pub record_row : RecordInput S C → World → Result DbError ℕ × World
  pub within_bound : Distance → Bool
  pub question_hash : Text → Text
  pub config_fingerprint : Text
  pub answer_cache_ttl_s : ℕ
  pub show : ℕ → Text

module _ (S : Rrf.Arithmetic) (C : Cost.Arithmetic) (env : Collaborators S C) where
  -- `answerKey` of src/common/cache/cache.keys.ts
  abbrev pub answer_key : Text → Text → Text
  answer_key version question =
      codes "ans:"
      ++ (version ++ (b':' ∷ (env.config_fingerprint ++ (b':' ∷ env.question_hash question))))

  abbrev code_is : Option Text → Text → Bool
  code_is none code = false
  code_is (some c) code = text_eq c code

  abbrev pub is_foreign_key_violation : DbError → Bool
  is_foreign_key_violation error = code_is error.code foreign_key_violation_code

  abbrev pub without_citations : RecordInput S C → RecordInput S C
  without_citations input = record input { citations = [] }

  -- The handler of `record`'s failure.
  abbrev pub after_record : RecordInput S C → Result DbError ℕ × env.World → env.World
  after_record input (ok _, w) = w
  after_record input (err error, w) =
      if ltb 0 (length input.citations) && is_foreign_key_violation error
      then (env.record_row (without_citations input) w).1
      else w

  pub persist : RecordInput S C → env.World → env.World
  persist input w = after_record input (env.record_row input w)

  pub stored_answer : Text → Option Text
  stored_answer text = if ltb 0 (length text) then some text else none

  abbrev or_zero : Option TokenUsage → (TokenUsage → ℕ) → ℕ
  or_zero none field = 0
  or_zero (some usage) field = field usage

  -- `buildCost`, of a completion or of a stream's outcome
  abbrev build_cost :
      Text → Text → Text → Option TokenUsage → Option C.Number → Text → RecordCost S C
  build_cost provider model configured_model usage reported_cost_usd model_reason =
      let cost = compute_cost C (record {
        provider = provider;
        configured_model = configured_model;
        usage = usage;
        reported_cost_usd = reported_cost_usd;
      }) in
      record {
        provider = provider;
        model = model;
        prompt_tokens = or_zero usage (λ u. u.prompt_tokens);
        completion_tokens = or_zero usage (λ u. u.completion_tokens);
        cached_tokens = or_zero usage (λ u. u.cached_tokens);
        usd_cost = cost.usd_cost;
        cost_source = cost.cost_source;
        model_reason = model_reason;
      }

  abbrev cached_row : Option Text → Option Text → Option (RecordCost S C)
  cached_row none model = none
  cached_row (some provider) none = none
  cached_row (some provider) (some model) = some (record {
    provider = provider;
    model = model;
    prompt_tokens = 0;
    completion_tokens = 0;
    cached_tokens = 0;
    usd_cost = some (C.literal 0 0);
    cost_source = Cost.cached;
    model_reason = codes "cached";
  })

  abbrev cached_cost : CachedAnswer S C → Option (RecordCost S C)
  cached_cost cached = cached_row cached.provider cached.model

  abbrev stored : Option Text → Option Text
  stored none = none
  stored (some text) = stored_answer text

  pub record_cache_hit : Text → CachedAnswer S C → env.World → env.World
  unfolding persist stored_answer
  record_cache_hit question cached w =
      persist
        (record {
          question = question;
          answer = stored cached.result.answer;
          grounded = cached.result.grounded;
          model = cached.model;
          provider = cached.provider;
          finish_reason = cached.finish_reason;
          citations = cached.result.citations;
          cost = cached_cost cached;
        })
        w

  abbrev pub write_cache : Text → Text → CachedAnswer S C → env.World → env.World
  write_cache question version cached w =
      env.set_json (answer_key version question) cached env.answer_cache_ttl_s w

  abbrev refusal : AskResult S C
  refusal = record { answer = none; grounded = false; citations = [] }

  abbrev pub cached_refusal : CachedAnswer S C
  cached_refusal = record { result = refusal; provider = none; model = none; finish_reason = none }

  pub record_refusal : Text → Text → env.World → env.World
  unfolding persist
  record_refusal question version w = write_cache question version cached_refusal (
      persist
        (record {
          question = question;
          answer = none;
          grounded = false;
          model = none;
          provider = none;
          finish_reason = none;
          citations = [];
          cost = none;
        })
        w)

  -- The row and the cache entry of an answer that was produced.
  abbrev record_produced :
      Text
      → Text
      → Text
      → List (Citation S C)
      → Text
      → Text
      → Option Text
      → RecordCost S C
      → env.World
      → env.World
  record_produced question version text citations provider model finish_reason cost w =
      write_cache question version
        (record {
          result = record { answer = some text; grounded = true; citations = citations };
          provider = some provider;
          model = some model;
          finish_reason = finish_reason;
        })
        (persist
          (record {
            question = question;
            answer = stored_answer text;
            grounded = true;
            model = some model;
            provider = some provider;
            finish_reason = finish_reason;
            citations = citations;
            cost = some cost;
          })
          w)

  unfoldable pub record_streamed :
      Text → List (RetrievedChunk S) → Text → StreamOutcome C.Number → Text → env.World → env.World
  unfolding persist stored_answer
  record_streamed question chunks text outcome version w =
      record_produced question version text (to_citations S C chunks) outcome.provider outcome.model
        outcome.finish_reason
        (build_cost outcome.provider outcome.model outcome.configured_model outcome.usage
          outcome.reported_cost_usd outcome.model_reason)
        w

  abbrev is_grounded : Option env.Distance → Bool
  is_grounded none = false
  is_grounded (some distance) = env.within_bound distance

  pub retrieve_grounded :
      Text → env.World → Result Thrown (Option (List (RetrievedChunk S))) × env.World
  retrieve_grounded question w =
      let (found, w') = env.search question w in
      (
        found >>= λ (chunks, best_distance).
            ok (if is_grounded best_distance then some chunks else none),
        w',
      )

  pub cached_answer : Text → env.World → Result Thrown (Text × Option (CachedAnswer S C))
  cached_answer question w = env.current_version w >>= λ version.
      ok (version, env.get_json (answer_key version question) w)

  abbrev pub after_completion :
      Text
      → Text
      → List (Citation S C)
      → Result Thrown (CompletionResult C.Number) × env.World
      → Result Thrown (AskResult S C) × env.World
  after_completion question version citations (err error, w) = (err error, w)
  after_completion question version citations (ok c, w) = (
    ok (record { answer = some c.text; grounded = true; citations = citations }),
    record_produced question version c.text citations c.provider c.model (some c.finish_reason)
        (build_cost c.provider c.model c.configured_model c.usage c.reported_cost_usd
          c.model_reason)
        w,
  )

  abbrev pub after_retrieval :
      Text
      → Text
      → Result Thrown (Option (List (RetrievedChunk S))) × env.World
      → Result Thrown (AskResult S C) × env.World
  after_retrieval question version (err error, w) = (err error, w)
  after_retrieval question version (ok none, w) = (ok refusal, record_refusal question version w)
  after_retrieval question version (ok (some chunks), w) =
      after_completion question version (to_citations S C chunks)
        (env.complete (build_prompt S C env.show question chunks) w)

  abbrev pub after_lookup :
      Text
      → Result Thrown (Text × Option (CachedAnswer S C))
      → env.World
      → Result Thrown (AskResult S C) × env.World
  after_lookup question (err error) w = (err error, w)
  after_lookup question (ok (version, some cached)) w =
      (ok cached.result, record_cache_hit question cached w)
  after_lookup question (ok (version, none)) w =
      after_retrieval question version (retrieve_grounded question w)

  unfoldable pub ask : Text → env.World → Result Thrown (AskResult S C) × env.World
  unfolding record_cache_hit record_refusal retrieve_grounded cached_answer
  ask question w = after_lookup question (cached_answer question w) w
