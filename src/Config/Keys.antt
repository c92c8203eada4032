-- ===== src/Config/Keys.antt =====
-- What an accepted configuration holds: src/common/config/env.schema.ts.
use docent.Base.{
  ℕ, ◌≡◌, refl, sym, ◌⊎◌, inl, inr, true, false, ◌||◌, Option, none, some, List, [], ◌∷◌, ◌++◌,
  ◌==◌, ==_iff, Bool-cases, if_elim, any_of, All, Text, codes, trim, text_eq, split_on, Result, ok,
  err, Holds, read_from,
}
use docent.Llm.Chain.{ChainLink, ChainError, parse_llm_chain}
use docent.Config.{
  TrustProxy, trusts_none, hops, trusts, Issue, lowered, is_preset, is_number, is_blank,
  parse_addresses, parse_value, parse_trust_proxy, Variables, Env, chunk_embedding_dimensions,
  dimension_issues, key_for, has_key, key_issues, links_issues, checked, after_trust_proxy,
  validate_env,
}

-- A setting that is not the word that trusts every hop, and whose entries are there.
abbrev IsBounded : TrustProxy → Type 0
IsBounded trusts_none = Unit
IsBounded (hops n) = Unit
IsBounded (trusts s) =
    (text_eq (lowered s) (codes "true") ≡ false)
    × ((is_preset s ≡ true) ⊎ (any_of is_blank (split_on b',' s) ≡ false))

-- Every link of the chain has a key that is not empty.
abbrev HasKey : Variables → ChainLink → Type 0
HasKey env link = (c : ℕ) × (key : Text) × (key_for env link.provider ≡ some (c ∷ key))

abbrev pub IsAccepted : Env → Type 0
IsAccepted env =
    IsBounded env.trust_proxy
    × (env.variables.embedding_dimensions ≡ chunk_embedding_dimensions)
    × ((links : List ChainLink) × (parse_llm_chain env.variables.llm_chain ≡ ok links)
        × All (HasKey env.variables) links)

parse_value-IsBounded :
    (value : Text)
    → text_eq (lowered value) (codes "true") ≡ false
    → Holds IsBounded (parse_value value)
parse_value-IsBounded value h =
    if_elim (Holds IsBounded) (text_eq value [] || text_eq value (codes "false")) (ok trusts_none) _
      (λ _. tt)
      (λ _.
        if_elim (Holds IsBounded) (is_number value) (ok (hops (read_from 0 value))) _ (λ _. tt)
          (λ _.
            if_elim (Holds IsBounded) (is_preset value) (ok (trusts value)) (parse_addresses value)
              (λ e. (h, inl e))
              (λ _.
                if_elim (Holds {0, 0, 0} IsBounded) (any_of is_blank (split_on b',' value)) (err _)
                  (ok (trusts value)) (λ _. tt) (λ e. (h, inr e)))))

parse_trust_proxy-IsBounded : (raw : Text) → Holds IsBounded (parse_trust_proxy raw)
unfolding parse_trust_proxy
parse_trust_proxy-IsBounded raw =
    if_elim (Holds IsBounded) (text_eq (lowered (trim raw)) (codes "true")) _ _ (λ _. tt)
      (λ e. parse_value-IsBounded (trim raw) e)

has_key-some :
    (key : Option Text) → has_key key ≡ true → (c : ℕ) × (rest : Text) × (key ≡ some (c ∷ rest))
has_key-some none h = absurd (cc)
has_key-some (some []) h = absurd (cc)
has_key-some (some (c ∷ rest)) h = (c, rest, refl)

key_issues-HasKey :
    (env : Variables) (links : List ChainLink) → key_issues env links ≡ [] → All (HasKey env) links
unfolding key_issues
key_issues-HasKey env [] h = tt
key_issues-HasKey env (link ∷ links) h = elim (Bool-cases (has_key (key_for env link.provider))) [
  | inl e ↦ (has_key-some (key_for env link.provider) e, key_issues-HasKey env links (rw e at h))
  | inr e ↦ absurd (cc (rw e at h))
]

links_issues-HasKey :
    (env : Variables) (r : Result ChainError (List ChainLink))
    → links_issues env r ≡ []
    → (links : List ChainLink) × (r ≡ ok links) × All (HasKey env) links
links_issues-HasKey env (err error) h = absurd (cc)
links_issues-HasKey env (ok links) h = (links, refl, key_issues-HasKey env links h)

dimensions_right :
    (env : Variables) (issues : List Issue)
    → dimension_issues env ++ issues ≡ []
    → (env.embedding_dimensions ≡ chunk_embedding_dimensions) × (issues ≡ [])
dimensions_right env issues h =
    elim (Bool-cases (env.embedding_dimensions == chunk_embedding_dimensions)) [
      | inl e ↦ ((==_iff env.embedding_dimensions chunk_embedding_dimensions).0 e, rw e at h)
      | inr e ↦ absurd (cc (rw e at h))
    ]

checked-IsAccepted :
    (env : Variables) (proxy : TrustProxy) (issues : List Issue)
    → IsBounded proxy
    → (issues ≡ dimension_issues env ++ links_issues env (parse_llm_chain env.llm_chain))
    → Holds IsAccepted (checked env proxy issues)
checked-IsAccepted env proxy (issue ∷ issues) h k = tt
checked-IsAccepted env proxy [] h k =
    let (right, none_left) =
      dimensions_right env (links_issues env (parse_llm_chain env.llm_chain)) (sym k) in
    (h, right, links_issues-HasKey env (parse_llm_chain env.llm_chain) none_left)

after_trust_proxy-IsAccepted :
    (env : Variables) (r : Result Issue TrustProxy)
    → Holds IsBounded r
    → Holds IsAccepted (after_trust_proxy env r)
after_trust_proxy-IsAccepted env (err issue) h = tt
after_trust_proxy-IsAccepted env (ok proxy) h = checked-IsAccepted env proxy _ h refl

-- An accepted configuration trusts no proxy, a number of hops, or a text that is not the word
-- `true` in any case and is a preset or a list without an empty entry; its dimensions are those of
-- the chunks' column; and its chain parses into links each of which has a key that is not empty.
pub validate_env-IsAccepted : (env : Variables) → Holds IsAccepted (validate_env env)
unfolding validate_env
validate_env-IsAccepted env =
    after_trust_proxy-IsAccepted env (parse_trust_proxy env.trust_proxy)
      (parse_trust_proxy-IsBounded env.trust_proxy)
