-- ===== src/Chunker/Merge.antt =====
-- `mergeUndersizedSections` of src/ingestion/chunker.ts.
pub mod Laws
use docent.Base.{ℕ, List, [], ◌∷◌, ◌++◌, map, ltb, leb, if◌then◌else◌, length, Text, join}
use docent.Chunker.Split.{newline}
use docent.Chunker.Sections.{Section}

pub record Contribution : Type 0 where
  pub heading_path : List Text
  pub tokens : ℕ

pub record MergeGroup : Type 0 where
  pub lines : List Text
  pub contributions : List Contribution

abbrev pub no_group : MergeGroup
no_group = record { lines = []; contributions = [] }

-- The reduction keeps the first of the largest contributions. It starts at the first contribution,
-- which is then compared with itself.
pub largest : Contribution → List Contribution → Contribution
largest best [] = best
largest best (contribution ∷ rest) =
    largest (if ltb best.tokens contribution.tokens then contribution else best) rest

unfoldable pub dominant_heading_path : List Contribution → List Text
unfolding largest
dominant_heading_path [] = []
dominant_heading_path (first ∷ rest) = (largest first (first ∷ rest)).heading_path

abbrev join_groups : MergeGroup → MergeGroup → MergeGroup
join_groups previous last = record {
  lines = previous.lines ++ last.lines;
  contributions = previous.contributions ++ last.contributions;
}

abbrev pub to_section : MergeGroup → Section
to_section group = record {
  heading_path = dominant_heading_path group.contributions;
  lines = group.lines;
}

module _ (count_tokens : Text → ℕ) where
  abbrev pub group_tokens : MergeGroup → ℕ
  group_tokens group = count_tokens (join newline group.lines)

  abbrev pub add_section : MergeGroup → Section → MergeGroup
  add_section pending section = record {
    lines = pending.lines ++ section.lines;
    contributions =
        pending.contributions
        ++ (record {
          heading_path = section.heading_path;
          tokens = count_tokens (join newline section.lines);
        }
            ∷ []);
  }

  -- The loop, with the group that is being filled. `groups.push` is the head of the result.
  pub group_loop : ℕ → MergeGroup → List Section → List MergeGroup
  group_loop min_tokens pending [] =
      if ltb 0 (length pending.contributions) then pending ∷ [] else []
  group_loop min_tokens pending (section ∷ sections) =
      let pending' = add_section pending section in
      let closed = pending' ∷ group_loop min_tokens no_group sections in
      let open_on = group_loop min_tokens pending' sections in
      if leb min_tokens (group_tokens pending') then closed else open_on

  pub group_by_minimum : ℕ → List Section → List MergeGroup
  unfolding group_loop
  group_by_minimum min_tokens sections = group_loop min_tokens no_group sections

  pub fold_trailing_shortfall_backward : ℕ → List MergeGroup → List MergeGroup
  fold_trailing_shortfall_backward min_tokens [] = []
  fold_trailing_shortfall_backward min_tokens (last ∷ []) = last ∷ []
  fold_trailing_shortfall_backward min_tokens (previous ∷ last ∷ []) =
      if leb min_tokens (group_tokens last)
      then previous ∷ last ∷ []
      else join_groups previous last ∷ []
  fold_trailing_shortfall_backward min_tokens (group ∷ next ∷ further ∷ groups) =
      group ∷ fold_trailing_shortfall_backward min_tokens (next ∷ further ∷ groups)

  unfoldable pub merge_undersized_sections : ℕ → List Section → List Section
  unfolding group_by_minimum fold_trailing_shortfall_backward
  merge_undersized_sections min_tokens sections =
      if leb min_tokens 0
      then sections
      else map to_section
          (fold_trailing_shortfall_backward min_tokens (group_by_minimum min_tokens sections))
