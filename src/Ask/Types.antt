-- ===== src/Ask/Types.antt =====
-- The types of src/ask/ask.types.ts and of src/ask/ask.repository.ts.
use docent.Base.{ℕ, Bool, Option, List, Text}
use docent.Retrieval.Rrf
use docent.Cost
use docent.Cost.{CostSource}

-- A driver's error: its code, if it has one, and what stands in the log.
pub record DbError : Type 0 where
  pub code : Option Text
  pub message : Text

module _ (S : Rrf.Arithmetic) (C : Cost.Arithmetic) where
  pub record Citation : Type 0 where
    pub ordinal : ℕ
    pub chunk_id : Text
    pub path : Text
    pub heading_path : List Text
    pub score : S.Score

  pub record AskResult : Type 0 where
    pub answer : Option Text
    pub grounded : Bool
    pub citations : List Citation

  pub record CachedAnswer : Type 0 where
    pub result : AskResult
    pub provider : Option Text
    pub model : Option Text
    pub finish_reason : Option Text

  pub record RecordCost : Type 0 where
    pub provider : Text
    pub model : Text
    pub prompt_tokens : ℕ
    pub completion_tokens : ℕ
    pub cached_tokens : ℕ
    pub usd_cost : Option C.Number
    pub cost_source : CostSource
    pub model_reason : Text

  pub record RecordInput : Type 0 where
    pub question : Text
    pub answer : Option Text
    pub grounded : Bool
    pub model : Option Text
    pub provider : Option Text
    pub finish_reason : Option Text
    pub citations : List Citation
    pub cost : Option RecordCost
