-- ===== src/Llm/Chain/Sound.antt =====
-- What `parseLlmChain` of src/llm/llm-chain.ts accepts.
use docent.Base.{
  suc, ◌≡◌, refl, sym, ap, ◌≢◌, Bool, true, false, not, ◌||◌, Option, none, some, List, [], ◌∷◌,
  map, arith, if◌then◌else◌, if_elim, length, any_of, all_of, All, Text, trim, text_eq, text_eq_iff,
  trim-trim, split_on, ok, err, Holds, Holds-bind, Holds-map,
}
use docent.Llm.Chain.{
  ChainLink, is_empty, is_supported, cut_at_colon, check_link, parse_link, link_of_parts,
  parse_links, pair_of, check_repeats, parse_llm_chain, malformed_link, unknown_provider,
  repeated_link, empty_chain, empty_link,
}

abbrev pub IsLink : ChainLink → Type 0
IsLink link =
    (is_supported link.provider ≡ true)
    × (is_empty link.model ≡ false)
    × (trim link.model ≡ link.model)

-- No two links are the same provider and model.
abbrev pub IsDistinct : List ChainLink → Type 0
IsDistinct [] = Unit
IsDistinct (link ∷ links) = All (λ l. pair_of link ≢ pair_of l) links × IsDistinct links

check_link-IsLink :
    (entry provider model : Text)
    → trim model ≡ model
    → Holds IsLink (check_link entry provider model)
check_link-IsLink entry provider model t =
    if_elim (Holds IsLink) (is_empty provider || is_empty model) (err (malformed_link entry)) _
      (λ _. tt)
      λ e.
        if_elim (Holds IsLink) (not (is_supported provider)) (err (unknown_provider provider))
          (ok (record { provider = provider; model = model })) (λ _. tt)
          λ s. (is_true _ s, or_right _ _ e, t)
  where
    is_true : (b : Bool) → not b ≡ false → b ≡ true
    is_true b h = ground arith

    or_right : (a b : Bool) → a || b ≡ false → b ≡ false
    or_right a b h = ground arith

link_of_parts-IsLink :
    (entry : Text) (parts : Option (Text × Text)) → Holds IsLink (link_of_parts entry parts)
unfolding link_of_parts
link_of_parts-IsLink entry none = tt
link_of_parts-IsLink entry (some (before, after)) =
    check_link-IsLink entry (trim before) (trim after) (trim-trim after)

parse_links-IsLink :
    (entries : List Text)
    → Holds (λ links. All IsLink links × (length links ≡ length entries)) (parse_links entries)
unfolding parse_links parse_link
parse_links-IsLink [] = (tt, refl)
parse_links-IsLink (entry ∷ entries) =
    Holds-bind IsLink _ (parse_link entry) _ (link_of_parts-IsLink entry (cut_at_colon entry))
      λ link h.
        Holds-bind (λ links. All IsLink links × (length links ≡ length entries)) _
          (parse_links entries) _ (parse_links-IsLink entries) λ links (hs, e). ((h, hs), ap suc e)

abbrev AllNew : List Text → List ChainLink → Type 0
AllNew seen = All (λ l. any_of (text_eq (pair_of l)) seen ≡ false)

AllNew-tail :
    (pair : Text) (seen : List Text) (links : List ChainLink)
    → AllNew (pair ∷ seen) links
    → AllNew seen links × All (λ l. pair ≢ pair_of l) links
AllNew-tail pair seen [] h = (tt, tt)
AllNew-tail pair seen (link ∷ links) (h, hs) =
    let (new, ne) = AllNew-tail pair seen links hs in
    (
      (seen_tail _ _ h, new),
      (
        λ e. clash (text_eq (pair_of link) pair) _ h ((text_eq_iff (pair_of link) pair).1 (sym e)),
        ne,
      ),
    )
  where
    seen_tail : (a b : Bool) → (if a then true else b) ≡ false → b ≡ false
    seen_tail a b h = ground arith

    clash : (a b : Bool) → (if a then true else b) ≡ false → a ≡ true → ⊥
    clash a b h e = ground arith

check_repeats-IsDistinct :
    (seen : List Text) (links : List ChainLink)
    → Holds (λ _. AllNew seen links × IsDistinct links) (check_repeats seen links)
unfolding check_repeats
check_repeats-IsDistinct seen [] = (tt, tt)
check_repeats-IsDistinct seen (link ∷ links) =
    if_elim (Holds (λ _. AllNew seen (link ∷ links) × IsDistinct (link ∷ links)))
      (any_of (text_eq (pair_of link)) seen) (err (repeated_link (pair_of link)))
      (check_repeats (pair_of link ∷ seen) links) (λ _. tt)
      λ e.
        Holds-map _ _ (check_repeats (pair_of link ∷ seen) links)
          (check_repeats-IsDistinct (pair_of link ∷ seen) links)
          λ _ (new, distinct).
            let (newer, ne) = AllNew-tail (pair_of link) seen links new in
            ((e, newer), (ne, distinct))

some_left :
    (links : List ChainLink) (entries : List Text)
    → length links ≡ length entries
    → all_of is_empty entries ≡ false
    → links ≢ []
some_left [] [] e h = cc
some_left [] (_ ∷ _) e h = absurd (omega arith)
some_left (_ ∷ _) entries e h = λ n. cc

-- An accepted chain has a link, its links name supported providers and models that are trimmed and
-- not empty, and no two links are the same.
pub parse_llm_chain_sound :
    (raw : Text)
    → Holds (λ links. (links ≢ []) × All IsLink links × IsDistinct links) (parse_llm_chain raw)
unfolding parse_llm_chain
parse_llm_chain_sound raw =
    if_elim (Holds Good) (all_of is_empty entries) (err empty_chain) _ (λ _. tt)
      λ e.
        if_elim (Holds Good) (any_of is_empty entries) (err empty_link) _ (λ _. tt)
          λ _.
            Holds-bind (λ links. All IsLink links × (length links ≡ length entries)) Good
              (parse_links entries) _ (parse_links-IsLink entries)
              λ links (hs, len).
                Holds-bind (λ _. AllNew [] links × IsDistinct links) Good (check_repeats [] links) _
                  (check_repeats-IsDistinct [] links)
                  λ _ (_, distinct). (some_left links entries len e, hs, distinct)
  where
    entries : List Text
    entries = map trim (split_on b',' raw)

    Good : List ChainLink → Type 0
    Good links = (links ≢ []) × All IsLink links × IsDistinct links
