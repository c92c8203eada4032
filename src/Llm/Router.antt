-- ===== src/Llm/Router.antt =====
-- The router of src/llm/llm.router.ts: a request goes down a chain of links, and falls through to
-- the next link when one fails.
pub mod Complete
pub mod Stream
use docent.Base.{ℕ, zero, suc, none, List, [], ◌∷◌, ◌++◌, Text, codes, join, Result, ok, err}
use docent.Errors.{Thrown, new_error, describe_thrown}
use docent.Llm.Types.{
  CompletionRequest, CompletionResult, StreamOutcome, Script, done, fails, delta, LlmStream,
  LlmProvider,
}
use docent.Llm.Chain.{ChainLink}

pub reason_for : List Text → Text
reason_for [] = codes "primary"
reason_for (failure ∷ []) = codes "fallback: " ++ failure
reason_for (_ ∷ next ∷ failures) = reason_for (next ∷ failures)

abbrev pub failure_of : ChainLink → Thrown → Text
failure_of chain error = chain.provider ++ (codes ": " ++ describe_thrown error)

abbrev pub every_failed : List Text → Text
every_failed failures = codes "every provider failed: " ++ join (codes " | ") failures

-- What the router does to the links' streams, in order: it opens the iterator of the link at a
-- position of the chain, passes on a delta, and closes the iterator. A close that fails is logged.
pub data Event : Type 0 where
  opened : ℕ → Event
  passed : Text → Event
  closed : ℕ → Event

-- The consumer met the end, stopped of its own accord, or was thrown at.
pub data Ending : Type 0 where
  ended : Ending
  stopped : Ending
  failed : Thrown → Ending

module _ (Number : Type 0) where
  pub record RoutedLink : Type 0 where
    pub chain : ChainLink
    pub provider : LlmProvider Number

  pub complete_loop :
      CompletionRequest → List Text → List RoutedLink → Result Thrown (CompletionResult Number)
  complete_loop request failures [] = err (new_error (every_failed failures))
  complete_loop request failures (link ∷ links) = elim (link.provider.complete request) [
    | ok completion ↦ ok (record completion { model_reason = reason_for failures })
    | err error ↦ complete_loop request (failures ++ (failure_of link.chain error ∷ [])) links
  ]

  unfoldable pub complete :
      List RoutedLink → CompletionRequest → Result Thrown (CompletionResult Number)
  unfolding complete_loop reason_for
  complete links request = complete_loop request [] links

  -- The deltas that the consumer takes from an open stream, at most as many as it asks for, with
  -- the number of calls of `next()`.
  pub relay : ℕ → Script Number → List Event × Ending × ℕ
  relay zero script = ([], stopped, 0)
  relay (suc demand) done = ([], ended, 1)
  relay (suc demand) (fails error) = ([], failed error, 1)
  relay (suc demand) (delta text script) =
      let (events, ending, pulls) = relay demand script in (passed text ∷ events, ending, suc pulls)

  -- A stream of the router once the consumer is through with it.
  pub record Streamed : Type 0 where
    pub events : List Event
    pub ending : Ending
    pub outcome : StreamOutcome Number

  abbrev pub unknown_outcome : Text → StreamOutcome Number
  unknown_outcome reason = record {
    model = codes "unknown";
    configured_model = codes "unknown";
    provider = codes "unknown";
    finish_reason = none;
    usage = none;
    reported_cost_usd = none;
    model_reason = reason;
  }

  abbrev pub outcome_for : LlmStream Number → List Text → ℕ → StreamOutcome Number
  outcome_for candidate failures pulls = record (candidate.outcome pulls) {
    model_reason = reason_for failures;
  }

  -- The generator at one link, by what its first `next()` gives. `further` goes on with the links
  -- behind, given the failures so far.
  pub first_pull :
      ℕ
      → List Text
      → ℕ
      → ChainLink
      → LlmStream Number
      → (List Text → Streamed)
      → Script Number
      → Streamed
  unfolding relay
  first_pull position failures demand chain candidate further (fails error) =
      let rest = further (failures ++ (failure_of chain error ∷ [])) in
      record rest { events = opened position ∷ closed position ∷ rest.events }
  first_pull position failures demand chain candidate further done = record {
    events = opened position ∷ closed position ∷ [];
    ending = ended;
    outcome = outcome_for candidate failures 1;
  }
  first_pull position failures demand chain candidate further (delta text script) =
      let (events, ending, pulls) = relay demand script in
      record {
        events = opened position ∷ passed text ∷ (events ++ (closed position ∷ []));
        ending = ending;
        outcome = outcome_for candidate failures (suc pulls);
      }

  -- The generator, for a consumer that makes `suc demand` calls of `next()` unless it meets the
  -- end, and then calls `return()`.
  pub deltas : CompletionRequest → ℕ → List Text → ℕ → List RoutedLink → Streamed
  unfolding first_pull
  deltas request position failures demand [] = record {
    events = [];
    ending = failed (new_error (every_failed failures));
    outcome = unknown_outcome (every_failed failures);
  }
  deltas request position failures demand (link ∷ links) =
      let candidate = link.provider.stream request in
      first_pull position failures demand link.chain candidate
        (λ failures'. deltas request (suc position) failures' demand links) candidate.script

  -- The stream for a consumer that makes this many calls of `next()` at most. With none the
  -- generator never starts.
  unfoldable pub stream : List RoutedLink → CompletionRequest → ℕ → Streamed
  unfolding deltas reason_for
  stream links request zero = record {
    events = [];
    ending = stopped;
    outcome = unknown_outcome (codes "not started");
  }
  stream links request (suc demand) = deltas request 0 [] demand links
