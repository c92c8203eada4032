-- ===== src/Llm/Chain/Written.antt =====
-- That `parseLlmChain` of src/llm/llm-chain.ts reads back a chain that is written.
use docent.Base.{
  ◌≡◌, refl, sym, ap, ◌∙◌, ◌≢◌, ◌⊎◌, inl, inr, Bool, true, false, not, some, List, [], ◌∷◌, ◌++◌,
  map, arith, ◌==◌, if◌then◌else◌, Bool-cases, any_of, All, all_of-append, Text, codes, trim_start,
  trim_end, trim, join, text_eq, text_eq_iff, split_on-join, lacks, trim_end-append,
  trim_end-trim_end, ok,
}
use docent.Llm.Chain.{
  ChainLink, is_empty, is_supported, cut_at_colon, parse_link, link_of_parts, parse_links, pair_of,
  check_repeats, parse_entries, parse_llm_chain,
}
use docent.Llm.Chain.Sound.{IsLink, IsDistinct}

-- The text of a chain.
abbrev pub format_chain : List ChainLink → Text
format_chain links = join (b',' ∷ []) (map pair_of links)

supported-cases :
    (provider : Text)
    → is_supported provider ≡ true
    → (provider ≡ codes "openai") ⊎ (provider ≡ codes "openrouter")
supported-cases provider h = elim (Bool-cases (text_eq provider (codes "openai"))) [
  | inl e ↦ inl ((text_eq_iff provider (codes "openai")).0 e)
  | inr e ↦ inr ((text_eq_iff provider (codes "openrouter")).0 (second _ _ h e))
]
  where
    second :
        (a b : Bool) → (if a then true else if b then true else false) ≡ true → a ≡ false → b ≡ true
    second a b h e = ground arith

trim_end_of_trim : (s : Text) → trim s ≡ s → trim_end s ≡ s
unfolding trim
trim_end_of_trim s h = ap trim_end (sym h) ∙ trim_end-trim_end (trim_start s) ∙ h

trim-pair :
    (provider model : Text)
    → (provider ≡ codes "openai") ⊎ (provider ≡ codes "openrouter")
    → trim model ≡ model
    → trim (provider ++ (b':' ∷ model)) ≡ provider ++ (b':' ∷ model)
unfolding trim
trim-pair provider model (inl e) h = rw e (
    trim_end-append (codes "openai") b':' model refl
    ∙ ap (λ (t : Text). codes "openai" ++ (b':' ∷ t)) (trim_end_of_trim model h))
trim-pair provider model (inr e) h = rw e (
    trim_end-append (codes "openrouter") b':' model refl
    ∙ ap (λ (t : Text). codes "openrouter" ++ (b':' ∷ t)) (trim_end_of_trim model h))

cut-pair :
    (provider model : Text)
    → (provider ≡ codes "openai") ⊎ (provider ≡ codes "openrouter")
    → (cut_at_colon (provider ++ (b':' ∷ model)) ≡ some (provider, model))
      × (trim provider ≡ provider)
      × (lacks b',' provider ≡ true)
      × (is_empty provider ≡ false)
unfolding cut_at_colon trim
cut-pair provider model (inl e) = rw e (refl, refl, refl, refl)
cut-pair provider model (inr e) = rw e (refl, refl, refl, refl)

parse_link-pair : (link : ChainLink) → IsLink link → parse_link (pair_of link) ≡ ok link
unfolding parse_link
parse_link-pair link (supported, nonempty, trimmed) =
    let (cut, trimmed_provider, _, nonempty_provider) =
      cut-pair link.provider link.model (supported-cases link.provider supported) in
    rw (cut, link_of_parts, trimmed_provider, trimmed, nonempty, nonempty_provider, supported)

parse_links-pairs :
    (links : List ChainLink) → All IsLink links → parse_links (map pair_of links) ≡ ok links
unfolding parse_links
parse_links-pairs [] all = refl
parse_links-pairs (link ∷ links) (h, hs) = rw (parse_link-pair link h, parse_links-pairs links hs)

-- A link that can stand in a chain: its model holds no comma.
abbrev pub IsWritable : ChainLink → Type 0
IsWritable link = IsLink link × (lacks b',' link.model ≡ true)

writable-pair :
    (link : ChainLink)
    → IsWritable link
    → (lacks b',' (pair_of link) ≡ true)
      × (trim (pair_of link) ≡ pair_of link)
      × (is_empty (pair_of link) ≡ false)
writable-pair link ((supported, _, trimmed), no_comma) =
    let known = supported-cases link.provider supported in
    let (_, _, provider_no_comma, _) = cut-pair link.provider link.model known in
    (
      all_of-append (λ c. not (c == b',')) link.provider (b':' ∷ link.model) provider_no_comma
          no_comma,
      trim-pair link.provider link.model known trimmed,
      filled link.provider (b':' ∷ link.model) (ground arith),
    )
  where
    filled : (s t : Text) → is_empty t ≡ false → is_empty (s ++ t) ≡ false
    filled [] t h = h
    filled (_ ∷ s) t h = ground arith

pairs-written :
    (links : List ChainLink)
    → All IsWritable links
    → All (λ p. lacks b',' p ≡ true) (map pair_of links)
      × (map trim (map pair_of links) ≡ map pair_of links)
      × (any_of is_empty (map pair_of links) ≡ false)
      × All IsLink links
pairs-written [] all = (tt, refl, refl, tt)
pairs-written (link ∷ links) (h, hs) =
    let (no_comma, trimmed, filled) = writable-pair link h in
    let (no_commas, all_trimmed, all_filled, all_links) = pairs-written links hs in
    ((no_comma, no_commas), rw (trimmed, all_trimmed), rw (filled, all_filled), (h.0, all_links))

not-seen :
    (pair : Text) (seen : List Text) → All (λ s. s ≢ pair) seen → any_of (text_eq pair) seen ≡ false
not-seen pair [] all = refl
not-seen pair (s ∷ seen) (ne, all) = elim (Bool-cases (text_eq pair s)) [
  | inl e ↦ absurd (ne (sym ((text_eq_iff pair s).0 e)))
  | inr e ↦ rw (e, not-seen pair seen all)
]

abbrev NewFor : List Text → List ChainLink → Type 0
NewFor seen = All (λ l. All (λ s. s ≢ pair_of l) seen)

NewFor-cons :
    (pair : Text) (seen : List Text) (links : List ChainLink)
    → NewFor seen links
    → All (λ l. pair ≢ pair_of l) links
    → NewFor (pair ∷ seen) links
NewFor-cons pair seen [] new ne = tt
NewFor-cons pair seen (link ∷ links) (new, news) (ne, nes) =
    ((ne, new), NewFor-cons pair seen links news nes)

check_repeats-distinct :
    (seen : List Text) (links : List ChainLink)
    → NewFor seen links
    → IsDistinct links
    → check_repeats seen links ≡ ok tt
unfolding check_repeats
check_repeats-distinct seen [] new distinct = refl
check_repeats-distinct seen (link ∷ links) (new, news) (ne, distinct) =
    rw (not-seen (pair_of link) seen new) (
      check_repeats-distinct (pair_of link ∷ seen) links
        (NewFor-cons (pair_of link) seen links news ne) distinct)

NewFor-nil : (links : List ChainLink) → NewFor [] links
NewFor-nil [] = tt
NewFor-nil (link ∷ links) = (tt, NewFor-nil links)

parse_entries-pairs :
    (link : ChainLink) (links : List ChainLink)
    → is_empty (pair_of link) ≡ false
    → any_of is_empty (map pair_of links) ≡ false
    → All IsLink (link ∷ links)
    → IsDistinct (link ∷ links)
    → parse_entries (map pair_of (link ∷ links)) ≡ ok (link ∷ links)
unfolding parse_entries
parse_entries-pairs link links first_filled filled all distinct = rw (
  first_filled,
  filled,
  parse_links-pairs (link ∷ links) all,
  check_repeats-distinct [] (link ∷ links) (NewFor-nil (link ∷ links)) distinct,
)

-- A chain of at least one link, each of a supported provider and a model that is trimmed, not
-- empty and without a comma, no two the same, is read back from its text. A model may hold colons.
pub parse_llm_chain-format_chain :
    (link : ChainLink) (links : List ChainLink)
    → All IsWritable (link ∷ links)
    → IsDistinct (link ∷ links)
    → parse_llm_chain (format_chain (link ∷ links)) ≡ ok (link ∷ links)
unfolding parse_llm_chain
parse_llm_chain-format_chain link links all distinct =
    let (no_commas, trimmed, _, all_links) = pairs-written (link ∷ links) all in
    let (_, _, filled, _) = pairs-written links all.1 in
    let (_, _, first_filled) = writable-pair link all.0 in
    ap (λ (entries : List Text). parse_entries (map trim entries))
      (split_on-join b',' (pair_of link) (map pair_of links) no_commas)
    ∙ ap parse_entries trimmed
    ∙ parse_entries-pairs link links first_filled filled all_links distinct
