-- ===== src/Tests/Endpoints.antt =====
-- The endpoints and the provider at concrete data.
use docent.Base.{ℕ, ◌<◌, ◌≡◌, refl, none, some, [], ◌∷◌, arith, length, codes, ok, err}
use docent.Errors.{new_error}
use docent.Llm.Types.{CompletionRequest}
use docent.Llm.Provider
use docent.Llm.Provider.{Choice, Part, Parts, part, end, RawUsage}
use docent.Llm.Provider.Outcome.{texts_of, last_of, script_texts, stream-outcome}
use docent.Ask.Service.{ask}
use docent.Ask.Endpoints.{StreamRun, stream}
use docent.Ask.Endpoints.Order.{IsTranscript, stream-IsTranscript}
use docent.Ask.Endpoints.Agree.{AgreesOn, SamePage, stream-SamePage}
use docent.Tests.Answers.{
  millionths, micro_dollars, desk_service, Desk, empty_desk, question, completion,
}

-- The model's answer in two pieces.
abbrev read_stream : CompletionRequest → Desk → StreamRun millionths micro_dollars desk_service
read_stream request w = (
  (
    codes "It decides" ∷ codes " [1]." ∷ [],
    ok (record {
      model = completion.model;
      configured_model = completion.configured_model;
      provider = completion.provider;
      finish_reason = some completion.finish_reason;
      usage = completion.usage;
      reported_cost_usd = completion.reported_cost_usd;
      model_reason = completion.model_reason;
    }),
  ),
  w,
)

stream-IsTranscript_example :
    IsTranscript millionths micro_dollars
      (stream millionths micro_dollars desk_service read_stream question empty_desk).0
stream-IsTranscript_example =
    stream-IsTranscript millionths micro_dollars desk_service read_stream question empty_desk

both_agree :
    (request : CompletionRequest) (w : Desk)
    → AgreesOn millionths micro_dollars desk_service read_stream
        (desk_service.complete request w)
        (read_stream request w)
both_agree request w = (refl, refl, refl, refl, refl, refl, refl, refl, refl)

stream-SamePage_example :
    SamePage millionths micro_dollars desk_service read_stream
      (ask millionths micro_dollars desk_service question empty_desk)
      (stream millionths micro_dollars desk_service read_stream question empty_desk)
stream-SamePage_example =
    stream-SamePage millionths micro_dollars desk_service read_stream both_agree question empty_desk

-- The usage comes in a last part of its own, the reason in the part before.
abbrev some_parts : Parts ℕ
some_parts =
    part
      (record {
        usage = none;
        model = some (codes "mini-1");
        choices = record { content = some (codes "Yes"); finish_reason = none } ∷ [];
      })
      (part
        (record {
          usage = none;
          model = some (codes "mini-1");
          choices = record { content = some []; finish_reason = some (codes "stop") } ∷ [];
        })
        (part
          (record {
            usage = some (record {
              prompt_tokens = some 9;
              completion_tokens = some 2;
              cached_tokens = none;
              cost = none;
            });
            model = some (codes "mini-1");
            choices = [];
          })
          end))

abbrev some_client : Provider.Client ℕ
some_client = record {
  create = λ model request. err (new_error (codes "no"));
  create_stream = λ model request. some_parts;
}

abbrev a_request : CompletionRequest
a_request = record { system = codes "Answer."; user = codes "Really?" }

one_text : length (texts_of ℕ some_parts) < 2
unfolding Provider.text_of
one_text = omega arith

stream-outcome_example :
    (let streamed = Provider.stream ℕ some_client (codes "openai") (codes "mini") a_request in
      (script_texts ℕ some_client (codes "openai") (codes "mini") streamed.script
        ≡ texts_of ℕ some_parts)
      × (streamed.outcome 2 ≡ record {
        model =
            Provider.or_else (last_of ℕ (λ p. Provider.truthy p.model) some_parts) (codes "mini");
        configured_model = codes "mini";
        provider = codes "openai";
        finish_reason = last_of ℕ (Provider.reason_of ℕ) some_parts;
        usage = Provider.normalise_usage ℕ (last_of ℕ (λ p. p.usage) some_parts);
        reported_cost_usd = Provider.cost_of ℕ (last_of ℕ (λ p. p.usage) some_parts);
        model_reason = codes "primary";
      }))
stream-outcome_example =
    stream-outcome ℕ some_client (codes "openai") (codes "mini") a_request 2 one_text

-- The reason is the one of the part before the last.
stop_found : last_of ℕ (Provider.reason_of ℕ) some_parts ≡ some (codes "stop")
unfolding Provider.reason_of
stop_found = refl
