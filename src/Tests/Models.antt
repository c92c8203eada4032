-- ===== src/Tests/Models.antt =====
-- The router and the chain of src/llm on concrete links, prices and thrown values.
use docent.Base.{
  ℕ, ◌≡◌, refl, ◌≢◌, none, some, [], ◌∷◌, All, codes, is_space, trim, join, text_eq, text_differs,
  ok, err, Holds,
}
use docent.Errors.{
  Value, Thrown, string, throws, array, broken_array, object_item, object, new_error,
  describe_error, describe_thrown, failure_in, IsDescription, describe_error-IsDescription,
}
use docent.Llm.Types.{CompletionRequest, CompletionResult, done, fails, delta, StreamOutcome}
use docent.Llm.Chain.{ChainLink, repeated_link, parse_llm_chain}
use docent.Llm.Chain.Sound.{IsLink, IsDistinct, parse_llm_chain_sound}
use docent.Llm.Chain.Written.{IsWritable, format_chain, parse_llm_chain-format_chain}
use docent.Llm.Router.{RoutedLink, opened, closed, passed, complete, stream}
use docent.Llm.Router.Complete.{IsAnswer, complete-IsAnswer}
use docent.Llm.Router.Stream.{ClosesAll, IsStream, stream-ClosesAll, stream-IsStream}

-- An error without a message whose `code` getter throws, with one inner error.
abbrev aggregate : Thrown
aggregate = object (string []) throws (array (object_item (string (codes "refused")) ∷ [])) none

aggregate_described : describe_thrown aggregate ≡ codes "refused"
unfolding describe_thrown join
aggregate_described = refl

-- The same with an array that throws the number 7 when it is read.
abbrev broken : Value ℕ
broken = object (string []) throws (broken_array 7) none

broken_throws : failure_in broken ≡ some 7
unfolding failure_in
broken_throws = refl

describe_error-IsDescription_example : IsDescription (failure_in broken) (describe_error broken)
describe_error-IsDescription_example = describe_error-IsDescription broken

abbrev openai : ChainLink
openai = record { provider = codes "openai"; model = codes "gpt-4.1-mini" }

abbrev free_model : ChainLink
free_model = record { provider = codes "openrouter"; model = codes "llama:free" }

repeated_rejected :
    parse_llm_chain (codes "openai:a, openai : a") ≡ err (repeated_link (codes "openai:a"))
unfolding parse_llm_chain trim text_eq
repeated_rejected = refl

parse_llm_chain_sound_example :
    Holds
      (λ links. (links ≢ []) × All IsLink links × IsDistinct links)
      (parse_llm_chain (codes " openai:gpt-4.1-mini ,openrouter:llama:free"))
parse_llm_chain_sound_example =
    parse_llm_chain_sound (codes " openai:gpt-4.1-mini ,openrouter:llama:free")

both-IsWritable : All IsWritable (openai ∷ free_model ∷ [])
unfolding trim text_eq is_space
both-IsWritable = (((refl, refl, refl), refl), (((refl, refl, refl), refl), tt))

both-IsDistinct : IsDistinct (openai ∷ free_model ∷ [])
unfolding text_eq
both-IsDistinct = ((text_differs _ _ refl, tt), (tt, tt))

parse_llm_chain-format_chain_example :
    parse_llm_chain (format_chain (openai ∷ free_model ∷ [])) ≡ ok (openai ∷ free_model ∷ [])
parse_llm_chain-format_chain_example =
    parse_llm_chain-format_chain openai (free_model ∷ []) both-IsWritable both-IsDistinct

abbrev a_result : CompletionResult ℕ
a_result = record {
  text = codes "Use a guard [1].";
  model = codes "gpt-4.1-mini-2025";
  configured_model = codes "gpt-4.1-mini";
  provider = codes "openai";
  finish_reason = codes "stop";
  usage = none;
  reported_cost_usd = none;
  model_reason = codes "primary";
}

abbrev an_outcome : StreamOutcome ℕ
an_outcome = record {
  model = codes "gpt-4.1-mini-2025";
  configured_model = codes "gpt-4.1-mini";
  provider = codes "openai";
  finish_reason = none;
  usage = none;
  reported_cost_usd = none;
  model_reason = codes "primary";
}

-- A link that fails on both paths, and one that answers.
abbrev failing : RoutedLink ℕ
failing = record {
  chain = free_model;
  provider = record {
    complete = λ _. err (new_error (codes "429"));
    stream = λ _. record { script = fails (new_error (codes "429")); outcome = λ _. an_outcome };
  };
}

abbrev answering : RoutedLink ℕ
answering = record {
  chain = openai;
  provider = record {
    complete = λ _. ok a_result;
    stream = λ _. record {
      script = delta (codes "Use ") (delta (codes "a guard") done);
      outcome = λ _. an_outcome;
    };
  };
}

abbrev a_request : CompletionRequest
a_request = record { system = codes "Answer."; user = codes "How?" }

fallback_reason :
    complete ℕ (failing ∷ answering ∷ []) a_request
    ≡ ok (record a_result { model_reason = codes "fallback: openrouter: 429" })
unfolding complete describe_thrown
fallback_reason = refl

-- A consumer that leaves after one text: both streams are closed.
left_early :
    (stream ℕ (failing ∷ answering ∷ []) a_request 1).events
    ≡ opened 0 ∷ closed 0 ∷ opened 1 ∷ passed (codes "Use ") ∷ closed 1 ∷ []
unfolding stream
left_early = refl

complete-IsAnswer_example :
    IsAnswer ℕ a_request
      (failing ∷ answering ∷ [])
      (complete ℕ (failing ∷ answering ∷ []) a_request)
complete-IsAnswer_example = complete-IsAnswer ℕ a_request (failing ∷ answering ∷ [])

stream-ClosesAll_example : ClosesAll none (stream ℕ (failing ∷ answering ∷ []) a_request 1).events
stream-ClosesAll_example = stream-ClosesAll ℕ a_request (failing ∷ answering ∷ []) 1

stream-IsStream_example :
    IsStream ℕ a_request
      (failing ∷ answering ∷ [])
      2
      (stream ℕ (failing ∷ answering ∷ []) a_request 2)
stream-IsStream_example = stream-IsStream ℕ a_request (failing ∷ answering ∷ []) 1
