-- ===== src/Llm/Chain.antt =====
-- `parseLlmChain` of src/llm/llm-chain.ts.
pub mod Sound
pub mod Written
use mathlib.Core.Option
use docent.Base.{
  Bool, not, ◌||◌, Option, none, some, List, [], ◌∷◌, ◌++◌, map, ◌==◌, if◌then◌else◌, length,
  any_of, all_of, Text, codes, trim, text_eq, add_char, split_on, Result, ok, err, ◌>>=◌,
}

pub record ChainLink : Type 0 where
  pub provider : Text
  pub model : Text

abbrev supported_providers : List Text
supported_providers = codes "openai" ∷ codes "openrouter" ∷ []

pub data ChainError : Type 0 where
  empty_chain : ChainError
  empty_link : ChainError
  malformed_link : Text → ChainError
  unknown_provider : Text → ChainError
  repeated_link : Text → ChainError

abbrev pub is_empty : Text → Bool
is_empty s = length s == 0

abbrev pub is_supported : Text → Bool
is_supported provider = any_of (text_eq provider) supported_providers

-- The text before the first colon and the text behind it, if there is a colon.
pub cut_at_colon : Text → Option (Text × Text)
cut_at_colon [] = none
cut_at_colon (c ∷ s) =
    let rest = Option.map (λ (parts : Text × Text). (c ∷ parts.0, parts.1)) (cut_at_colon s) in
    if c == b':' then some ([], s) else rest

abbrev pub check_link : Text → Text → Text → Result ChainError ChainLink
check_link entry provider model =
    if is_empty provider || is_empty model
    then err (malformed_link entry)
    else if not (is_supported provider)
    then err (unknown_provider provider)
    else ok (record { provider = provider; model = model })

pub link_of_parts : Text → Option (Text × Text) → Result ChainError ChainLink
link_of_parts entry none = err (malformed_link entry)
link_of_parts entry (some (before, after)) = check_link entry (trim before) (trim after)

pub parse_link : Text → Result ChainError ChainLink
unfolding cut_at_colon link_of_parts
parse_link entry = link_of_parts entry (cut_at_colon entry)

pub parse_links : List Text → Result ChainError (List ChainLink)
unfolding parse_link
parse_links [] = ok []
parse_links (entry ∷ entries) = do
  link ← parse_link entry
  links ← parse_links entries
  ok (link ∷ links)

abbrev pub pair_of : ChainLink → Text
pair_of link = link.provider ++ (b':' ∷ link.model)

-- The loop over the links with the set of pairs seen.
pub check_repeats : List Text → List ChainLink → Result ChainError (Unit {0})
check_repeats seen [] = ok tt
check_repeats seen (link ∷ links) =
    let rest = check_repeats (pair_of link ∷ seen) links in
    if any_of (text_eq (pair_of link)) seen then err (repeated_link (pair_of link)) else rest

-- Everything behind the trimming of the segments.
pub parse_entries : List Text → Result ChainError (List ChainLink)
unfolding parse_links check_repeats
parse_entries entries =
    if all_of is_empty entries
    then err empty_chain
    else if any_of is_empty entries
    then err empty_link
    else parse_links entries >>= λ links. check_repeats [] links >>= λ _. ok links

unfoldable pub parse_llm_chain : Text → Result ChainError (List ChainLink)
unfolding parse_entries split_on add_char
parse_llm_chain raw = parse_entries (map trim (split_on b',' raw))
