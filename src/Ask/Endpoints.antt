-- ===== src/Ask/Endpoints.antt =====
-- The two endpoints of src/ask/ask.controller.ts, behind the check of the request's body in
-- src/ask/dto/ask-request.dto.ts.
pub mod Order
pub mod Agree
use docent.Base.{
  Bool, true, false, ◌&&◌, Option, none, some, List, [], ◌∷◌, ◌++◌, map, ltb, leb, if◌then◌else◌,
  length, concat, Text, trim, Result, ok, err,
}
use docent.Errors.{Thrown}
use docent.Llm.Types.{CompletionRequest, StreamOutcome}
use docent.Retrieval.Rrf
use docent.Retrieval.Rrf.{RetrievedChunk}
use docent.Cost
use docent.Ask.Types.{Citation, AskResult, CachedAnswer}
use docent.Ask.Prompt.{to_citations, build_prompt}
use docent.Ask.Service.{
  Collaborators, ask, cached_answer, retrieve_grounded, record_cache_hit, record_refusal,
  record_streamed,
}

-- `askRequestSchema`, of the question in the body if it is a string.
parse_question : Option Text → Option Text
parse_question none = none
parse_question (some question) =
    let trimmed = trim question in
    if leb 1 (length trimmed) && leb (length trimmed) 2000 then some trimmed else none

-- The exceptions of the handlers: the statuses 400 and 503.
pub data HttpError : Type 0 where
  bad_request : HttpError
  service_unavailable : HttpError

module _ (S : Rrf.Arithmetic) (C : Cost.Arithmetic) where
  -- What `sse` writes. The text of an error event is fixed.
  pub data SseEvent : Type 0 where
    citations : List (Citation S C) → SseEvent
    token : Text → SseEvent
    done : Bool → SseEvent
    error : SseEvent

  module _ (env : Collaborators S C) where
    abbrev masked :
        Result Thrown (AskResult S C) × env.World → Result HttpError (AskResult S C) × env.World
    masked (ok result, w) = (ok result, w)
    masked (err _, w) = (err service_unavailable, w)

    abbrev ask_parsed : Option Text → env.World → Result HttpError (AskResult S C) × env.World
    ask_parsed none w = (err bad_request, w)
    ask_parsed (some question) w = masked (ask S C env question w)

    -- `POST /ask`
    unfoldable pub ask_endpoint :
        Option Text → env.World → Result HttpError (AskResult S C) × env.World
    unfolding parse_question
    ask_endpoint body w = ask_parsed (parse_question body) w

    -- What a stream of the model gives when it is read to its end: its texts, and its outcome or
    -- what it throws.
    abbrev pub StreamRun : Type 0
    StreamRun = (List Text × Result Thrown (StreamOutcome C.Number)) × env.World

    module _ (read_stream : CompletionRequest → env.World → StreamRun) where
      abbrev pub cached_token : Option Text → List SseEvent
      cached_token none = []
      cached_token (some answer) = if ltb 0 (length answer) then token answer ∷ [] else []

      abbrev serve_cached : Text → CachedAnswer S C → env.World → List SseEvent × env.World
      serve_cached question cached w = (
        citations cached.result.citations
            ∷ (cached_token cached.result.answer ++ (done cached.result.grounded ∷ [])),
        record_cache_hit S C env question cached w,
      )

      abbrev pub after_stream :
          Text → Text → List (RetrievedChunk S) → StreamRun → List SseEvent × env.World
      after_stream question version chunks ((texts, ok outcome), w) = (
        citations (to_citations S C chunks) ∷ (map token texts ++ (done true ∷ [])),
        record_streamed S C env question chunks (concat texts) outcome version w,
      )
      after_stream question version chunks ((texts, err _), w) =
          (citations (to_citations S C chunks) ∷ (map token texts ++ (error ∷ [])), w)

      abbrev pub stream_retrieved :
          Text
          → Text
          → Result Thrown (Option (List (RetrievedChunk S))) × env.World
          → List SseEvent × env.World
      stream_retrieved question version (err _, w) = (error ∷ [], w)
      stream_retrieved question version (ok none, w) =
          (citations [] ∷ done false ∷ [], record_refusal S C env question version w)
      stream_retrieved question version (ok (some chunks), w) =
          after_stream question version chunks
            (read_stream (build_prompt S C env.show question chunks) w)

      abbrev pub stream_looked_up :
          Text
          → Result Thrown (Text × Option (CachedAnswer S C))
          → env.World
          → List SseEvent × env.World
      stream_looked_up question (err _) w = (error ∷ [], w)
      stream_looked_up question (ok (version, some cached)) w = serve_cached question cached w
      stream_looked_up question (ok (version, none)) w =
          stream_retrieved question version (retrieve_grounded S C env question w)

      -- The events of a question that was parsed, up to `res.end()`.
      unfoldable pub stream : Text → env.World → List SseEvent × env.World
      stream question w = stream_looked_up question (cached_answer S C env question w) w

      abbrev stream_parsed : Option Text → env.World → Result HttpError (List SseEvent) × env.World
      stream_parsed none w = (err bad_request, w)
      stream_parsed (some question) w = let (events, w') = stream question w in (ok events, w')

      -- `POST /ask/stream`
      unfoldable pub stream_endpoint :
          Option Text → env.World → Result HttpError (List SseEvent) × env.World
      unfolding parse_question stream
      stream_endpoint body w = stream_parsed (parse_question body) w
