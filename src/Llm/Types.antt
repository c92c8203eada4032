-- ===== src/Llm/Types.antt =====
-- The types of src/llm/llm.types.ts. `Number` is the type of JavaScript numbers that are no counts,
-- here an amount of US dollars.
use docent.Base.{ℕ, Option, Text, Result}
use docent.Errors.{Thrown}

pub record CompletionRequest : Type 0 where
  pub system : Text
  pub user : Text

pub record TokenUsage : Type 0 where
  pub prompt_tokens : ℕ
  pub completion_tokens : ℕ
  pub cached_tokens : ℕ

module _ (Number : Type 0) where
  pub record CompletionResult : Type 0 where
    pub text : Text
    pub model : Text
    pub configured_model : Text
    pub provider : Text
    pub finish_reason : Text
    pub usage : Option TokenUsage
    pub reported_cost_usd : Option Number
    pub model_reason : Text

  pub record StreamOutcome : Type 0 where
    pub model : Text
    pub configured_model : Text
    pub provider : Text
    pub finish_reason : Option Text
    pub usage : Option TokenUsage
    pub reported_cost_usd : Option Number
    pub model_reason : Text

  -- What the calls of `next()` on an open stream give, one after the other.
  pub data Script : Type 0 where
    done : Script
    fails : Thrown → Script
    delta : Text → Script → Script

  -- A stream with its outcome after a number of calls of `next()`.
  pub record LlmStream : Type 0 where
    pub script : Script
    pub outcome : ℕ → StreamOutcome

  pub record LlmProvider : Type 0 where
    pub complete : CompletionRequest → Result Thrown CompletionResult
    pub stream : CompletionRequest → LlmStream
