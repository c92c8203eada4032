-- ===== src/Ask/Endpoints/Order.antt =====
-- The order of the events that src/ask/ask.controller.ts writes.
use docent.Base.{
  true, Option, none, some, List, [], ◌∷◌, ◌++◌, map, ltb, if_elim, length, Text, Result, ok, err,
}
use docent.Errors.{Thrown}
use docent.Llm.Types.{CompletionRequest}
use docent.Retrieval.Rrf
use docent.Retrieval.Rrf.{RetrievedChunk}
use docent.Cost
use docent.Ask.Types.{CachedAnswer}
use docent.Ask.Prompt.{build_prompt}
use docent.Ask.Service.{Collaborators, cached_answer, retrieve_grounded}
use docent.Ask.Endpoints.{
  SseEvent, citations, token, done, error, StreamRun, cached_token, after_stream, stream_retrieved,
  stream_looked_up, stream,
}

module _ (S : Rrf.Arithmetic) (C : Cost.Arithmetic) where
  -- Tokens, and then one event that ends the stream.
  abbrev IsTail : List (SseEvent S C) → Type 0
  IsTail [] = ⊥
  IsTail (citations _ ∷ events) = ⊥
  IsTail (token _ ∷ events) = IsTail events
  IsTail (done _ ∷ []) = Unit
  IsTail (done _ ∷ _ ∷ _) = ⊥
  IsTail (error ∷ []) = Unit
  IsTail (error ∷ _ ∷ _) = ⊥

  -- One error, or the citations and what follows them.
  abbrev pub IsTranscript : List (SseEvent S C) → Type 0
  IsTranscript [] = ⊥
  IsTranscript (citations _ ∷ events) = IsTail events
  IsTranscript (token _ ∷ events) = ⊥
  IsTranscript (done _ ∷ events) = ⊥
  IsTranscript (error ∷ []) = Unit
  IsTranscript (error ∷ _ ∷ _) = ⊥

  tokens-IsTail :
      (texts : List Text) (end : List (SseEvent S C)) → IsTail end → IsTail (map token texts ++ end)
  tokens-IsTail [] end h = h
  tokens-IsTail (text ∷ texts) end h = tokens-IsTail texts end h

  cached_token-IsTail :
      (env : Collaborators S C) (read_stream : CompletionRequest → env.World → StreamRun S C env)
      (answer : Option Text) (end : List (SseEvent S C))
      → IsTail end
      → IsTail (cached_token S C env read_stream answer ++ end)
  cached_token-IsTail env read_stream none end h = h
  cached_token-IsTail env read_stream (some answer) end h =
      if_elim (λ events. IsTail (events ++ end)) (ltb 0 (length answer)) (token answer ∷ []) []
        (λ _. h) (λ _. h)

  module _ (env : Collaborators S C)
      (read_stream : CompletionRequest → env.World → StreamRun S C env) where
    after_stream-IsTranscript :
        (question version : Text) (chunks : List (RetrievedChunk S)) (run : StreamRun S C env)
        → IsTranscript (after_stream S C env read_stream question version chunks run).0
    after_stream-IsTranscript question version chunks ((texts, ok outcome), w) =
        tokens-IsTail texts (done true ∷ []) tt
    after_stream-IsTranscript question version chunks ((texts, err _), w) =
        tokens-IsTail texts (error ∷ []) tt

    retrieved-IsTranscript :
        (question version : Text) (r : Result Thrown (Option (List (RetrievedChunk S))) × env.World)
        → IsTranscript (stream_retrieved S C env read_stream question version r).0
    retrieved-IsTranscript question version (err _, w) = tt
    retrieved-IsTranscript question version (ok none, w) = tt
    retrieved-IsTranscript question version (ok (some chunks), w) =
        after_stream-IsTranscript question version chunks
          (read_stream (build_prompt S C env.show question chunks) w)

    looked_up-IsTranscript :
        (question : Text) (r : Result Thrown (Text × Option (CachedAnswer S C))) (w : env.World)
        → IsTranscript (stream_looked_up S C env read_stream question r w).0
    looked_up-IsTranscript question (err _) w = tt
    looked_up-IsTranscript question (ok (version, some cached)) w =
        cached_token-IsTail env read_stream cached.result.answer (done cached.result.grounded ∷ [])
          tt
    looked_up-IsTranscript question (ok (version, none)) w =
        retrieved-IsTranscript question version (retrieve_grounded S C env question w)

    -- What the streaming endpoint writes is one error event, or the citations, then tokens, then
    -- exactly one event that ends the stream, `done` or an error.
    pub stream-IsTranscript :
        (question : Text) (w : env.World) → IsTranscript (stream S C env read_stream question w).0
    unfolding stream
    stream-IsTranscript question w =
        looked_up-IsTranscript question (cached_answer S C env question w) w
