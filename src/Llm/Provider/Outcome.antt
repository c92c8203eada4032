-- ===== src/Llm/Provider/Outcome.antt =====
-- What a stream of src/llm/openai-compatible.provider.ts leaves behind: of every part that carries
-- something, the last one counts.
use docent.Base.{
  ℕ, zero, suc, ◌<◌, ◌≡◌, refl, ap, ◌∙◌, inl, inr, Option, none, some, List, [], ◌∷◌, arith,
  Option-cases, length, Text, codes,
}
use docent.Llm.Types.{CompletionRequest, TokenUsage, Script, done, fails, delta}
use docent.Llm.Provider.{
  or_else, truthy, RawUsage, normalised, normalise_usage, cost_of, Part, Parts, end, breaks, part,
  Client, Folding, no_parts, take_usage, take_model, take_reason, reason_of, text_of, take_part,
  script_of, folded, stream,
}

abbrev pub later {ℓ} : {A : Type ℓ} → Option A → Option A → Option A
later none before = before
later (some a) before = some a

module _ (Number : Type 0) where
  -- What the last part that carries it says.
  abbrev pub last_of {ℓ} : {A : Type ℓ} → (Part Number → Option A) → Parts Number → Option A
  last_of g end = none
  last_of g (breaks _) = none
  last_of g (part p parts) = later (last_of g parts) (g p)

  abbrev pub texts_of : Parts Number → List Text
  texts_of end = []
  texts_of (breaks _) = []
  texts_of (part p parts) =
      let rest = texts_of parts in elim (text_of Number p) [ none ↦ rest | some text ↦ text ∷ rest ]

  module _ (client : Client Number) (provider_name model : Text) where
    abbrev usage_or : Option (RawUsage Number) → Option TokenUsage → Option TokenUsage
    usage_or none before = before
    usage_or (some raw) before = some (normalised Number raw)

    abbrev cost_or : Option (RawUsage Number) → Option Number → Option Number
    cost_or none before = before
    cost_or (some raw) before = raw.cost

    abbrev shape :
        Option (RawUsage Number)
        → Option Text
        → Option Text
        → Folding Number client provider_name model
        → Folding Number client provider_name model
    shape usage served reason f = record {
      served_model = or_else served f.served_model;
      finish_reason = later reason f.finish_reason;
      usage = usage_or usage f.usage;
      reported_cost_usd = cost_or usage f.reported_cost_usd;
    }

    shape-take :
        (f : Folding Number client provider_name model) (usage u : Option (RawUsage Number))
        (served m reason r : Option Text)
        → shape usage served reason (
            take_reason Number client provider_name model r (
              take_model Number client provider_name model m
                (take_usage Number client provider_name model u f)))
          ≡ shape (later usage u) (later served m) (later reason r) f
    shape-take f usage u served m reason r = ground arith

    folded-shape :
        (pulls : ℕ) (f : Folding Number client provider_name model) (parts : Parts Number)
        → length (texts_of parts) < pulls
        → folded Number client provider_name model pulls f parts
          ≡ shape
              (last_of (λ p. p.usage) parts)
              (last_of (λ p. truthy p.model) parts)
              (last_of (reason_of Number) parts)
              f
    unfolding folded
    folded-shape zero f parts h = absurd (omega arith)
    folded-shape (suc pulls) f end h = refl
    folded-shape (suc pulls) f (breaks e) h = refl
    folded-shape (suc pulls) f (part p parts) h = elim (Option-cases (text_of Number p)) [
      | inl e ↦
          rw (folded, e)
            (folded-shape (suc pulls) (take_part Number client provider_name model p f) parts
                (rw (texts_of, e) at h)
              ∙ unfold take_part in
                shape-take f (last_of (λ p. p.usage) parts) p.usage
                  (last_of (λ p. truthy p.model) parts) (truthy p.model)
                  (last_of (reason_of Number) parts) (reason_of Number p))
      | inr (text, e) ↦
          let fewer = rw (texts_of, e) at h in
          rw (folded, e)
            (folded-shape pulls (take_part Number client provider_name model p f) parts
                (omega (arith, fewer))
              ∙ unfold take_part in
                shape-take f (last_of (λ p. p.usage) parts) p.usage
                  (last_of (λ p. truthy p.model) parts) (truthy p.model)
                  (last_of (reason_of Number) parts) (reason_of Number p))
    ]

    -- All the text of a script, in order.
    abbrev pub script_texts : Script Number → List Text
    script_texts done = []
    script_texts (fails e) = []
    script_texts (delta text script) = text ∷ script_texts script

    script_of-texts :
        (parts : Parts Number) → script_texts (script_of Number parts) ≡ texts_of parts
    unfolding script_of
    script_of-texts end = refl
    script_of-texts (breaks e) = refl
    script_of-texts (part p parts) = elim (Option-cases (text_of Number p)) [
      | inl e ↦ rw (script_of, texts_of, e) (script_of-texts parts)
      | inr (text, e) ↦
          rw (script_of, texts_of, e) (ap (λ (ts : List Text). text ∷ ts) (script_of-texts parts))
    ]

    usage_or-none :
        (usage : Option (RawUsage Number)) → usage_or usage none ≡ normalise_usage Number usage
    usage_or-none none = refl
    usage_or-none (some raw) = refl

    cost_or-none : (usage : Option (RawUsage Number)) → cost_or usage none ≡ cost_of Number usage
    cost_or-none none = refl
    cost_or-none (some raw) = refl

    later-none : (reason : Option Text) → later reason none ≡ reason
    later-none none = refl
    later-none (some r) = refl

    -- The texts of a provider's stream are those that its parts carry, in order, and for a
    -- consumer that has read past the last of them the outcome is made of the last part that names
    -- a model, of the last that has a reason, and of the last that has a usage.
    pub stream-outcome :
        (request : CompletionRequest) (pulls : ℕ)
        → length (texts_of (client.create_stream model request)) < pulls
        → (let parts = client.create_stream model request in
            let streamed = stream Number client provider_name model request in
            (script_texts streamed.script ≡ texts_of parts)
            × (streamed.outcome pulls ≡ record {
              model = or_else (last_of (λ p. truthy p.model) parts) model;
              configured_model = model;
              provider = provider_name;
              finish_reason = last_of (reason_of Number) parts;
              usage = normalise_usage Number (last_of (λ p. p.usage) parts);
              reported_cost_usd = cost_of Number (last_of (λ p. p.usage) parts);
              model_reason = codes "primary";
            }))
    unfolding stream
    stream-outcome request pulls h =
        let parts = client.create_stream model request in
        let usage = last_of (λ p. p.usage) parts in
        (
          script_of-texts parts,
          rw (folded-shape pulls (no_parts Number client provider_name model) parts h) (
              rw (
                later-none (last_of (reason_of Number) parts),
                usage_or-none usage,
                cost_or-none usage,
              )),
        )
