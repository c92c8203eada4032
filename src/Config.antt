-- ===== src/Config.antt =====
-- The checks of the configuration that src/common/config/env.schema.ts adds to its schema. What the
-- zod package checks of each variable by itself is left to it.
pub mod Keys
use docent.Base.{
  ℕ, Bool, true, false, ◌&&◌, ◌||◌, Option, none, some, List, [], ◌∷◌, ◌++◌, map, ltb, ◌==◌,
  if◌then◌else◌, length, any_of, all_of, Text, codes, trim, text_eq, split_on, Result, ok, err,
  is_digit, lower_case, read_from,
}
use docent.Llm.Chain.{ChainLink, ChainError, pair_of, parse_llm_chain}

-- A value for Express: `false`, a number of hops, or a preset or a list of addresses.
pub data TrustProxy : Type 0 where
  trusts_none : TrustProxy
  hops : ℕ → TrustProxy
  trusts : Text → TrustProxy

pub data Issue : Type 0 where
  trusts_every_hop : Issue
  no_trust_proxy : Issue
  wrong_dimensions : Issue
  wrong_chain : ChainError → Issue
  needs_key : ChainLink → Issue

abbrev trust_proxy_presets : List Text
trust_proxy_presets = codes "loopback" ∷ codes "linklocal" ∷ codes "uniquelocal" ∷ []

-- `toLowerCase`, as far as it decides on equality with a word of ASCII letters but for `k`.
pub lowered : Text → Text
lowered s = map lower_case s

abbrev pub is_preset : Text → Bool
is_preset value = any_of (text_eq value) trust_proxy_presets

-- `/^\d+$/`
abbrev pub is_number : Text → Bool
is_number value = ltb 0 (length value) && all_of is_digit value

abbrev pub is_blank : Text → Bool
is_blank entry = length (trim entry) == 0

abbrev pub parse_addresses : Text → Result Issue TrustProxy
parse_addresses value =
    if any_of is_blank (split_on b',' value) then err no_trust_proxy else ok (trusts value)

abbrev pub parse_value : Text → Result Issue TrustProxy
parse_value value =
    if text_eq value [] || text_eq value (codes "false")
    then ok trusts_none
    else if is_number value
    then ok (hops (read_from 0 value))
    else if is_preset value
    then ok (trusts value)
    else parse_addresses value

unfoldable pub parse_trust_proxy : Text → Result Issue TrustProxy
unfolding lowered
parse_trust_proxy raw =
    if text_eq (lowered (trim raw)) (codes "true")
    then err trusts_every_hop
    else parse_value (trim raw)

pub data NodeEnv : Type 0 where
  development : NodeEnv
  test : NodeEnv
  production : NodeEnv

pub data LogFormat : Type 0 where
  json : LogFormat
  pretty : LogFormat

-- The variables that the added checks read, each as the schema gives it.
pub record Variables : Type 0 where
  pub node_env : NodeEnv
  pub openai_api_key : Text
  pub openrouter_api_key : Option Text
  pub embedding_dimensions : ℕ
  pub llm_chain : Text
  pub trust_proxy : Text
  pub log_format : Option LogFormat

pub record Env : Type 0 where
  pub variables : Variables
  pub trust_proxy : TrustProxy
  pub log_format : LogFormat

abbrev pub chunk_embedding_dimensions : ℕ
chunk_embedding_dimensions = 3072

abbrev pub dimension_issues : Variables → List Issue
dimension_issues env =
    if env.embedding_dimensions == chunk_embedding_dimensions then [] else wrong_dimensions ∷ []

-- `keys[provider]`
abbrev pub key_for : Variables → Text → Option Text
key_for env provider =
    if text_eq provider (codes "openai")
    then some env.openai_api_key
    else if text_eq provider (codes "openrouter")
    then env.openrouter_api_key
    else none

abbrev pub has_key : Option Text → Bool
has_key none = false
has_key (some []) = false
has_key (some (c ∷ key)) = true

pub key_issues : Variables → List ChainLink → List Issue
key_issues env [] = []
key_issues env (link ∷ links) =
    let rest = key_issues env links in
    if has_key (key_for env link.provider) then rest else needs_key link ∷ rest

abbrev pub links_issues : Variables → Result ChainError (List ChainLink) → List Issue
links_issues env (err error) = wrong_chain error ∷ []
links_issues env (ok links) = key_issues env links

-- The last `transform`
abbrev default_format : NodeEnv → LogFormat
default_format development = pretty
default_format test = json
default_format production = json

abbrev format_of : Option LogFormat → NodeEnv → LogFormat
format_of (some format) node_env = format
format_of none node_env = default_format node_env

abbrev pub checked : Variables → TrustProxy → List Issue → Result (List Issue) Env
checked env proxy [] = ok (record {
  variables = env;
  trust_proxy = proxy;
  log_format = format_of env.log_format env.node_env;
})
checked env proxy (issue ∷ issues) = err (issue ∷ issues)

abbrev pub after_trust_proxy : Variables → Result Issue TrustProxy → Result (List Issue) Env
after_trust_proxy env (err issue) = err (issue ∷ [])
after_trust_proxy env (ok proxy) =
    checked env proxy (dimension_issues env ++ links_issues env (parse_llm_chain env.llm_chain))

-- With a variable that fails there is an issue whether or not the checks of the whole run.
unfoldable pub validate_env : Variables → Result (List Issue) Env
unfolding parse_trust_proxy key_issues
validate_env env = after_trust_proxy env (parse_trust_proxy env.trust_proxy)
