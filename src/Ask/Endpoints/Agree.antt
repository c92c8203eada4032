-- ===== src/Ask/Endpoints/Agree.antt =====
-- That both endpoints of src/ask/ask.controller.ts give one answer.
use docent.Base.{
  suc, ◌≡◌, refl, sym, ap, ◌∙◌, Bool, true, Option, none, some, List, [], ◌∷◌, ◌++◌, map,
  append-nil, append_assoc, arith, lt→ltb, length, concat, Text, Result, ok, err,
}
use docent.Errors.{Thrown}
use docent.Llm.Types.{CompletionRequest, CompletionResult}
use docent.Retrieval.Rrf
use docent.Retrieval.Rrf.{RetrievedChunk}
use docent.Cost
use docent.Ask.Types.{Citation, AskResult, CachedAnswer}
use docent.Ask.Prompt.{to_citations, build_prompt}
use docent.Ask.Service.{
  Collaborators, ask, after_lookup, after_retrieval, after_completion, cached_answer,
  retrieve_grounded, record_streamed,
}
use docent.Ask.Endpoints.{
  SseEvent, citations, token, done, error, StreamRun, cached_token, after_stream, stream_retrieved,
  stream_looked_up, stream,
}

module _ (S : Rrf.Arithmetic) (C : Cost.Arithmetic) where
  -- What the page makes of the events: the sources, the text, and whether the answer is grounded,
  -- which a stream that ends in an error leaves open.
  abbrev cited : List (SseEvent S C) → List (Citation S C)
  cited [] = []
  cited (citations sources ∷ events) = sources
  cited (token _ ∷ events) = cited events
  cited (done _ ∷ events) = cited events
  cited (error ∷ events) = cited events

  abbrev pub text_of : List (SseEvent S C) → Text
  text_of [] = []
  text_of (citations _ ∷ events) = text_of events
  text_of (token text ∷ events) = text ++ text_of events
  text_of (done _ ∷ events) = text_of events
  text_of (error ∷ events) = text_of events

  abbrev grounding_of : List (SseEvent S C) → Option Bool
  grounding_of [] = none
  grounding_of (citations _ ∷ events) = grounding_of events
  grounding_of (token _ ∷ events) = grounding_of events
  grounding_of (done grounded ∷ events) = some grounded
  grounding_of (error ∷ events) = none

  -- A stream whose last event, and no other, is an error, and which ends without `done`.
  abbrev FailsAtEnd : List (SseEvent S C) → Type 0
  FailsAtEnd [] = ⊥
  FailsAtEnd (citations _ ∷ events) = FailsAtEnd events
  FailsAtEnd (token _ ∷ events) = FailsAtEnd events
  FailsAtEnd (done _ ∷ events) = ⊥
  FailsAtEnd (error ∷ events) = events ≡ []

  FailsAtEnd-tokens : (texts : List Text) → FailsAtEnd (map token texts ++ (error ∷ []))
  FailsAtEnd-tokens [] = refl
  FailsAtEnd-tokens (text ∷ texts) = FailsAtEnd-tokens texts

  abbrev text_or_empty : Option Text → Text
  text_or_empty none = []
  text_or_empty (some answer) = answer

  text_of-tokens :
      (texts : List Text) (end : List (SseEvent S C))
      → text_of (map token texts ++ end) ≡ concat texts ++ text_of end
  text_of-tokens [] end = refl
  text_of-tokens (text ∷ texts) end = rw (text_of-tokens texts end) (sym (append_assoc text _ _))

  grounding_of-tokens :
      (texts : List Text) (end : List (SseEvent S C))
      → grounding_of (map token texts ++ end) ≡ grounding_of end
  grounding_of-tokens [] end = refl
  grounding_of-tokens (text ∷ texts) end = grounding_of-tokens texts end

  module _ (env : Collaborators S C)
      (read_stream : CompletionRequest → env.World → StreamRun S C env) where
    -- The model answers both ways alike, or fails both ways.
    abbrev pub AgreesOn :
        Result Thrown (CompletionResult C.Number) × env.World → StreamRun S C env → Type 0
    AgreesOn (ok c, w) ((texts, ok o), w') =
        (concat texts ≡ c.text)
        × (o.model ≡ c.model)
        × (o.configured_model ≡ c.configured_model)
        × (o.provider ≡ c.provider)
        × (o.finish_reason ≡ some c.finish_reason)
        × (o.usage ≡ c.usage)
        × (o.reported_cost_usd ≡ c.reported_cost_usd)
        × (o.model_reason ≡ c.model_reason)
        × (w' ≡ w)
    AgreesOn (ok c, w) ((texts, err _), w') = ⊥
    AgreesOn (err _, w) ((texts, ok o), w') = ⊥
    AgreesOn (err _, w) ((texts, err _), w') = w' ≡ w

    -- The page shows what the plain endpoint returns, and both leave the same behind.
    abbrev pub SamePage :
        Result Thrown (AskResult S C) × env.World → List (SseEvent S C) × env.World → Type 0
    SamePage (ok result, w) (events, w') =
        (cited events ≡ result.citations)
        × (text_of events ≡ text_or_empty result.answer)
        × (grounding_of events ≡ some result.grounded)
        × (w' ≡ w)
    SamePage (err _, w) (events, w') = FailsAtEnd events × (grounding_of events ≡ none) × (w' ≡ w)

    after_stream-SamePage :
        (question version : Text) (chunks : List (RetrievedChunk S))
        (completed : Result Thrown (CompletionResult C.Number) × env.World)
        (run : StreamRun S C env)
        → AgreesOn completed run
        → SamePage
            (after_completion S C env question version (to_citations S C chunks) completed)
            (after_stream S C env read_stream question version chunks run)
    unfolding record_streamed
    after_stream-SamePage question version chunks (ok c, w) ((texts, ok o), w')
          (same_text, model, configured, provider, reason, usage, cost, why, world) =
        (
          refl,
          text_of-tokens texts (done true ∷ []) ∙ append-nil (concat texts) ∙ same_text,
          grounding_of-tokens texts (done true ∷ []),
          rw (same_text, model, configured, provider, reason, usage, cost, why, world),
        )
    after_stream-SamePage question version chunks (ok c, w) ((texts, err _), w') h = absurd h
    after_stream-SamePage question version chunks (err _, w) ((texts, ok o), w') h = absurd h
    after_stream-SamePage question version chunks (err _, w) ((texts, err _), w') h =
        (FailsAtEnd-tokens texts, grounding_of-tokens texts (error ∷ []), h)

    cached_token-text :
        (answer : Option Text) (grounded : Bool)
        → text_of (cached_token S C env read_stream answer ++ (done grounded ∷ []))
          ≡ text_or_empty answer
    cached_token-text none grounded = refl
    cached_token-text (some []) grounded = refl
    cached_token-text (some (c ∷ answer)) grounded =
        rw (lt→ltb 0 (suc (length answer)) (omega arith))
          (ap (λ (t : Text). c ∷ t) (append-nil answer))

    cached_token-grounding :
        (answer : Option Text) (grounded : Bool)
        → grounding_of (cached_token S C env read_stream answer ++ (done grounded ∷ []))
          ≡ some grounded
    cached_token-grounding none grounded = refl
    cached_token-grounding (some answer) grounded = ground arith

    module _
        (agrees : (request : CompletionRequest) (w : env.World)
          → AgreesOn (env.complete request w) (read_stream request w)) where
      retrieved-SamePage :
          (question version : Text)
          (r : Result Thrown (Option (List (RetrievedChunk S))) × env.World)
          → SamePage
              (after_retrieval S C env question version r)
              (stream_retrieved S C env read_stream question version r)
      retrieved-SamePage question version (err _, w) = (refl, refl, refl)
      retrieved-SamePage question version (ok none, w) = (refl, refl, refl, refl)
      retrieved-SamePage question version (ok (some chunks), w) =
          let request = build_prompt S C env.show question chunks in
          after_stream-SamePage question version chunks (env.complete request w)
            (read_stream request w) (agrees request w)

      looked_up-SamePage :
          (question : Text) (r : Result Thrown (Text × Option (CachedAnswer S C))) (w : env.World)
          → SamePage
              (after_lookup S C env question r w)
              (stream_looked_up S C env read_stream question r w)
      looked_up-SamePage question (err _) w = (refl, refl, refl)
      looked_up-SamePage question (ok (version, some cached)) w = (
        refl,
        cached_token-text cached.result.answer cached.result.grounded,
        cached_token-grounding cached.result.answer cached.result.grounded,
        refl,
      )
      looked_up-SamePage question (ok (version, none)) w =
          retrieved-SamePage question version (retrieve_grounded S C env question w)

      -- Where the model answers a prompt the same way as a stream and at once, or fails both ways,
      -- the events of the stream give a page the citations, the text and the groundedness that the
      -- plain endpoint's service returns, and leave the same world behind; where that throws, the
      -- stream's last event is an error, which comes once and with no `done`, and the stream
      -- leaves the same world.
      pub stream-SamePage :
          (question : Text) (w : env.World)
          → SamePage (ask S C env question w) (stream S C env read_stream question w)
      unfolding ask stream
      stream-SamePage question w = looked_up-SamePage question (cached_answer S C env question w) w
