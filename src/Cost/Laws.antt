-- ===== src/Cost/Laws.antt =====
-- What the cost of src/cost/cost.calculator.ts is known from.
use docent.Base.{
  ◌≤◌, ◌≡◌, refl, sym, ◌≢◌, ◌↔◌, inl, inr, Bool, true, false, not, Option, none, some, List, [],
  ◌∷◌, map, arith, ltb, if◌then◌else◌, ltb→lt, Bool-cases, if_elim, any_of, Text, text_eq,
  text_eq_iff, text_eq-ne,
}
use docent.Maps.{lookup}
use docent.Llm.Types.{TokenUsage}
use docent.Llm.Chain.{ChainLink, pair_of}
use docent.Cost.{
  Arithmetic, unknown, ComputedCost, ModelPrice, model_prices, no_cost, table_cost, compute_cost,
  is_priced, missing_prices,
}

module _ (A : Arithmetic) where
  -- A cost without an amount is exactly one of unknown source.
  abbrev pub IsHonest : ComputedCost A → Type 0
  IsHonest cost = (cost.usd_cost ≡ none) ↔ (cost.cost_source ≡ unknown)

  is_priced-lookup :
      (pair : Text) (prices : List (Text × ModelPrice A))
      → any_of (text_eq pair) (map (λ (e : Text × ModelPrice A). e.0) prices) ≡ true
      → (price : ModelPrice A) × (lookup pair prices ≡ some price)
  unfolding lookup
  is_priced-lookup pair [] h = absurd (cc)
  is_priced-lookup pair ((k, price) ∷ prices) h = elim (Bool-cases (text_eq k pair)) [
    | inl e ↦ (price, rw e)
    | inr e ↦
        let (found, f) = is_priced-lookup pair prices (skip (text_eq pair k) _ h (other e)) in
        (found, rw e f)
  ]
    where
      skip : (a b : Bool) → (if a then true else b) ≡ true → a ≡ false → b ≡ true
      skip a b h e = ground arith

      other : text_eq k pair ≡ false → text_eq pair k ≡ false
      other e = text_eq-ne pair k (λ p. clash _ e ((text_eq_iff k pair).1 (sym p)))
        where
          clash : (a : Bool) → a ≡ false → a ≡ true → ⊥
          clash a h k = cc

  priced_usage :
      (usage : TokenUsage) (price : ModelPrice A)
      → usage.cached_tokens ≤ usage.prompt_tokens
      → (table_cost A (some usage) (some price)).cost_source ≢ unknown
  unfolding table_cost
  priced_usage usage price c =
      if_elim (λ (cost : ComputedCost A). cost.cost_source ≢ unknown)
        (ltb usage.prompt_tokens usage.cached_tokens) (no_cost A) _
        (λ h. absurd (omega (arith, ltb→lt _ _ h))) (λ _ e. cc)

  -- A link that the check of the chain at start does not name has its answers priced: with usage
  -- that does not count more cached tokens than prompt tokens, the source is not `unknown`.
  pub missing_prices-compute_cost :
      (link : ChainLink) (usage : TokenUsage) (charge : Option A.Number)
      → missing_prices A (link ∷ []) ≡ []
      → usage.cached_tokens ≤ usage.prompt_tokens
      → (compute_cost A (record {
        provider = link.provider;
        configured_model = link.model;
        usage = some usage;
        reported_cost_usd = charge;
      })).cost_source
        ≢ unknown
  unfolding missing_prices compute_cost
  missing_prices-compute_cost link usage (some cost) h c e = cc
  missing_prices-compute_cost link usage none h c e =
      let (price, found) =
        is_priced-lookup (pair_of link) (model_prices A)
          (priced (is_priced A (pair_of link)) (pair_of link) h) in
      priced_usage usage price c (rw found at e)
    where
      priced : (b : Bool) (p : Text) → (if not b then p ∷ [] else []) ≡ [] → b ≡ true
      priced true p h = refl
      priced false p h = absurd (cc)
