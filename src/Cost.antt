-- ===== src/Cost.antt =====
-- The price of an answer: src/cost/cost.calculator.ts and src/cost/model-prices.ts.
pub mod Laws
pub mod Report
use docent.Base.{
  ℕ, ◌-◌, Bool, not, Option, none, some, List, [], ◌∷◌, ◌++◌, map, ltb, if◌then◌else◌, keep, any_of,
  Text, codes, text_eq,
}
use docent.Maps.{lookup}
use docent.Llm.Types.{TokenUsage}
use docent.Llm.Chain.{ChainLink, pair_of}

-- The arithmetic of JavaScript numbers that the price needs. `literal m d` is the decimal
-- numeral with the digits of `m`, the last `d` of them behind the point.
pub record Arithmetic : Type 1 where
  pub Number : Type 0
  pub literal : ℕ → ℕ → Number
  pub plus : Number → Number → Number
  pub times : Number → Number → Number
  pub over : Number → Number → Number

pub data CostSource : Type 0 where
  reported : CostSource
  table : CostSource
  cached : CostSource
  unknown : CostSource

module _ (A : Arithmetic) where
  pub record ComputedCost : Type 0 where
    pub usd_cost : Option A.Number
    pub cost_source : CostSource

  pub record ModelPrice : Type 0 where
    input_per_million : A.Number
    output_per_million : A.Number
    cached_input_per_million : A.Number

  abbrev pub model_prices : List (Text × ModelPrice)
  model_prices =
      (
        codes "openai:gpt-4.1-mini",
        record {
          input_per_million = A.literal 4 1;
          output_per_million = A.literal 16 1;
          cached_input_per_million = A.literal 1 1;
        },
      )
      ∷ (
        codes "openrouter:google/gemini-2.5-flash",
        record {
          input_per_million = A.literal 3 1;
          output_per_million = A.literal 25 1;
          cached_input_per_million = A.literal 3 2;
        },
      )
      ∷ []

  abbrev pub no_cost : ComputedCost
  no_cost = record { usd_cost = none; cost_source = unknown }

  -- `tokens / PER_MILLION * price`
  abbrev rate : ℕ → A.Number → A.Number
  rate tokens price = A.times (A.over (A.literal tokens 0) (A.literal 1_000_000 0)) price

  price_usage : TokenUsage → ModelPrice → ComputedCost
  price_usage usage price =
      if ltb usage.prompt_tokens usage.cached_tokens then no_cost else record {
        usd_cost = some (
            A.plus
              (A.plus (rate (usage.prompt_tokens - usage.cached_tokens) price.input_per_million)
                (rate usage.cached_tokens price.cached_input_per_million))
              (rate usage.completion_tokens price.output_per_million));
        cost_source = table;
      }

  pub table_cost : Option TokenUsage → Option ModelPrice → ComputedCost
  unfolding price_usage
  table_cost none price = no_cost
  table_cost (some usage) none = no_cost
  table_cost (some usage) (some price) = price_usage usage price

  pub record CostInput : Type 0 where
    pub provider : Text
    pub configured_model : Text
    pub usage : Option TokenUsage
    pub reported_cost_usd : Option A.Number

  abbrev pub price_of : Text → Text → Option ModelPrice
  price_of provider model = lookup (provider ++ (b':' ∷ model)) model_prices

  abbrev pub reported_or : Option A.Number → ComputedCost → ComputedCost
  reported_or none otherwise = otherwise
  reported_or (some cost) otherwise = record { usd_cost = some cost; cost_source = reported }

  unfoldable pub compute_cost : CostInput → ComputedCost
  unfolding table_cost
  compute_cost input =
      reported_or input.reported_cost_usd
        (table_cost input.usage (price_of input.provider input.configured_model))

  abbrev pub is_priced : Text → Bool
  is_priced pair = any_of (text_eq pair) (map (λ (e : Text × ModelPrice). e.0) model_prices)

  unfoldable pub missing_prices : List ChainLink → List Text
  missing_prices links = keep (λ pair. not (is_priced pair)) (map pair_of links)
