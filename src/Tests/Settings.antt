-- ===== src/Tests/Settings.antt =====
-- Configurations that are accepted and refused.
use docent.Base.{
  ◌≡◌, refl, none, [], ◌∷◌, codes, trim, text_eq, ok, err, Holds, is_digit, lower_case, read_from,
}
use docent.Llm.Chain.{parse_llm_chain}
use docent.Config
use docent.Config.{Variables, lowered, parse_trust_proxy, key_issues, validate_env}
use docent.Config.Keys.{IsAccepted, validate_env-IsAccepted}

abbrev variables : Variables
variables = record {
  node_env = Config.production;
  openai_api_key = codes "k";
  openrouter_api_key = none;
  embedding_dimensions = 3072;
  llm_chain = codes "openai:mini";
  trust_proxy = codes "1";
  log_format = none;
}

accepted :
    validate_env variables
    ≡ ok (record { variables = variables; trust_proxy = Config.hops 1; log_format = Config.json })
unfolding validate_env parse_llm_chain trim text_eq lower_case is_digit read_from
accepted = refl

-- The second link has no key.
keyless :
    validate_env (record variables { llm_chain = codes "openai:a,openrouter:b" })
    ≡ err (Config.needs_key (record { provider = codes "openrouter"; model = codes "b" }) ∷ [])
unfolding validate_env parse_llm_chain trim text_eq lower_case is_digit read_from
keyless = refl

true_refused : parse_trust_proxy (codes " True ") ≡ err Config.trusts_every_hop
unfolding parse_trust_proxy trim text_eq lower_case
true_refused = refl

validate_env-IsAccepted_example : Holds IsAccepted (validate_env variables)
validate_env-IsAccepted_example = validate_env-IsAccepted variables
