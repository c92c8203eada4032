-- ===== src/Llm/Provider.antt =====
-- The provider of src/llm/openai-compatible.provider.ts over a client of the openai package.
pub mod Outcome
use docent.Base.{
  ℕ, zero, suc, Option, none, some, List, [], ◌∷◌, Text, codes, Result, ok, err, ◌>>=◌,
}
use docent.Errors.{Thrown, new_error}
use docent.Llm.Types.{
  CompletionRequest, TokenUsage, CompletionResult, StreamOutcome, Script, done, fails, delta,
  LlmStream, LlmProvider,
}

abbrev pub or_else {ℓ} : {A : Type ℓ} → Option A → A → A
or_else none other = other
or_else (some a) other = a

-- A text that is there and not empty: what a test for truth makes of an optional string.
abbrev pub truthy : Option Text → Option Text
truthy none = none
truthy (some []) = none
truthy (some (c ∷ s)) = some (c ∷ s)

module _ (Number : Type 0) where
  -- `cached_tokens` stands in `prompt_tokens_details`.
  pub record RawUsage : Type 0 where
    pub prompt_tokens : Option ℕ
    pub completion_tokens : Option ℕ
    pub cached_tokens : Option ℕ
    pub cost : Option Number

  abbrev pub normalised : RawUsage → TokenUsage
  normalised raw = record {
    prompt_tokens = or_else raw.prompt_tokens 0;
    completion_tokens = or_else raw.completion_tokens 0;
    cached_tokens = or_else raw.cached_tokens 0;
  }

  abbrev pub normalise_usage : Option RawUsage → Option TokenUsage
  normalise_usage none = none
  normalise_usage (some raw) = some (normalised raw)

  abbrev pub cost_of : Option RawUsage → Option Number
  cost_of none = none
  cost_of (some raw) = raw.cost

  -- What the package gives for a completion, and for each part of a stream.
  pub record Choice : Type 0 where
    pub content : Option Text
    pub finish_reason : Text

  pub record Response : Type 0 where
    pub choices : List Choice
    pub model : Text
    pub usage : Option RawUsage

  pub record DeltaChoice : Type 0 where
    pub content : Option Text
    pub finish_reason : Option Text

  pub record Part : Type 0 where
    pub usage : Option RawUsage
    pub model : Option Text
    pub choices : List DeltaChoice

  -- The parts of a stream, up to its end or to what it throws.
  pub data Parts : Type 0 where
    end : Parts
    breaks : Thrown → Parts
    part : Part → Parts → Parts

  -- `chat.completions.create`, of a model and the two messages. A stream whose request is rejected
  -- is one that breaks before the first part.
  pub record Client : Type 0 where
    pub create : Text → CompletionRequest → Result Thrown Response
    pub create_stream : Text → CompletionRequest → Parts

  abbrev first_choice {ℓ} : {A : Type ℓ} → List A → Option A
  first_choice [] = none
  first_choice (choice ∷ _) = some choice

  unfoldable pub reason_of : Part → Option Text
  reason_of p = elim (first_choice p.choices) [
    | none ↦ none
    | some choice ↦ truthy choice.finish_reason
  ]

  -- What a part yields.
  unfoldable pub text_of : Part → Option Text
  text_of p = elim (first_choice p.choices) [ none ↦ none | some choice ↦ truthy choice.content ]

  -- What `next()` gives, call after call: a part without text is passed over.
  pub script_of : Parts → Script Number
  script_of end = done
  script_of (breaks e) = fails e
  script_of (part p parts) =
      let rest = script_of parts in elim (text_of p) [ none ↦ rest | some text ↦ delta text rest ]

  module _ (client : Client) (provider_name model : Text) where
    abbrev result_of : Response → Text → Text → CompletionResult Number
    result_of response content finish_reason = record {
      text = content;
      model = response.model;
      configured_model = model;
      provider = provider_name;
      finish_reason = finish_reason;
      usage = normalise_usage response.usage;
      reported_cost_usd = cost_of response.usage;
      model_reason = codes "primary";
    }

    abbrev read_choice : Response → List Choice → Result Thrown (CompletionResult Number)
    read_choice response [] = err (new_error (codes "completion response carried no choice"))
    read_choice response (choice ∷ _) = elim (choice.content) [
      | none ↦ err (new_error (codes "completion response carried no content"))
      | some content ↦ ok (result_of response content choice.finish_reason)
    ]

    unfoldable pub complete : CompletionRequest → Result Thrown (CompletionResult Number)
    complete request =
        client.create model request >>= λ response. read_choice response response.choices

    -- The variables that the generator fills.
    pub record Folding : Type 0 where
      pub served_model : Text
      pub finish_reason : Option Text
      pub usage : Option TokenUsage
      pub reported_cost_usd : Option Number

    abbrev pub no_parts : Folding
    no_parts = record {
      served_model = model;
      finish_reason = none;
      usage = none;
      reported_cost_usd = none;
    }

    abbrev pub take_usage : Option RawUsage → Folding → Folding
    take_usage none f = f
    take_usage (some raw) f = record f {
      usage = some (normalised raw);
      reported_cost_usd = raw.cost;
    }

    abbrev pub take_model : Option Text → Folding → Folding
    take_model none f = f
    take_model (some served) f = record f { served_model = served }

    abbrev pub take_reason : Option Text → Folding → Folding
    take_reason none f = f
    take_reason (some reason) f = record f { finish_reason = some reason }

    pub take_part : Part → Folding → Folding
    take_part p f = take_reason (reason_of p) (take_model (truthy p.model) (take_usage p.usage f))

    -- The variables after so many calls of `next()`.
    pub folded : ℕ → Folding → Parts → Folding
    unfolding take_part
    folded zero f parts = f
    folded (suc pulls) f end = f
    folded (suc pulls) f (breaks e) = f
    folded (suc pulls) f (part p parts) =
        let passed = folded (suc pulls) (take_part p f) parts in
        let yielded = folded pulls (take_part p f) parts in
        elim (text_of p) [ none ↦ passed | some text ↦ yielded ]

    abbrev outcome_of : Folding → StreamOutcome Number
    outcome_of f = record {
      model = f.served_model;
      configured_model = model;
      provider = provider_name;
      finish_reason = f.finish_reason;
      usage = f.usage;
      reported_cost_usd = f.reported_cost_usd;
      model_reason = codes "primary";
    }

    unfoldable pub stream : CompletionRequest → LlmStream Number
    unfolding script_of folded
    stream request = record {
      script = script_of (client.create_stream model request);
      outcome = λ pulls. outcome_of (folded pulls no_parts (client.create_stream model request));
    }

    abbrev as_provider : LlmProvider Number
    as_provider = record { complete = complete; stream = stream }
