-- ===== src/Chunker/Merge/Laws.antt =====
-- Merging the sections of src/ingestion/chunker.ts loses no line, leaves no group below the
-- minimum but a trailing one, and gives a group its largest contribution's heading.
use docent.Base.{
  ℕ, ◌≤◌, ◌<◌, ◌≡◌, refl, ap, ◌∙◌, ◌≢◌, List, [], ◌∷◌, ◌++◌, map, append-nil, append_assoc, arith,
  ltb, leb, ltb→lt, leb→le, if_elim, length, concat, All, length-append, All-append, Text, join,
}
use docent.Chunker.Split.{newline}
use docent.Chunker.Sections.{Section}
use docent.Chunker.Merge.{
  Contribution, MergeGroup, no_group, largest, dominant_heading_path, group_tokens, add_section,
  group_loop, group_by_minimum, fold_trailing_shortfall_backward, to_section,
  merge_undersized_sections,
}

abbrev pub section_lines : List Section → List Text
section_lines sections = concat (map (λ (s : Section). s.lines) sections)

abbrev group_lines : List MergeGroup → List Text
group_lines groups = concat (map (λ (g : MergeGroup). g.lines) groups)

-- The first of the largest: those before it are smaller, those behind it no larger.
abbrev pub IsFirstLargest : List Contribution → Contribution → Type 0
IsFirstLargest contributions c =
    (before after : List Contribution) × (contributions ≡ before ++ (c ∷ after))
    × All (λ d. d.tokens < c.tokens) before
    × All (λ d. d.tokens ≤ c.tokens) after

All-weaken :
    (low high : ℕ) (cs : List Contribution)
    → low < high
    → All (λ c. c.tokens ≤ low) cs
    → All (λ c. c.tokens < high) cs
All-weaken low high [] h all = tt
All-weaken low high (c ∷ cs) h (p, all) = (omega arith, All-weaken low high cs h all)

All-raise :
    (low high : ℕ) (cs : List Contribution)
    → low < high
    → All (λ c. c.tokens < low) cs
    → All (λ c. c.tokens < high) cs
All-raise low high [] h all = tt
All-raise low high (c ∷ cs) h (p, all) = (omega arith, All-raise low high cs h all)

regroup :
    (before after : List Contribution) (c : Contribution) (rest : List Contribution)
    (best : Contribution)
    → (before ++ (best ∷ after)) ++ (c ∷ rest) ≡ (before ++ (best ∷ (after ++ (c ∷ [])))) ++ rest
regroup before after c rest best = simp append_assoc

largest-IsFirstLargest :
    (before after rest : List Contribution) (best : Contribution)
    → All (λ c. c.tokens < best.tokens) before
    → All (λ c. c.tokens ≤ best.tokens) after
    → IsFirstLargest ((before ++ (best ∷ after)) ++ rest) (largest best rest)
unfolding largest
largest-IsFirstLargest before after [] best hb ha =
    (before, after, append-nil (before ++ (best ∷ after)), hb, ha)
largest-IsFirstLargest before after (c ∷ rest) best hb ha =
    if_elim (λ b. IsFirstLargest ((before ++ (best ∷ after)) ++ (c ∷ rest)) (largest b rest))
      (ltb best.tokens c.tokens) c best
      (λ h.
        let up = ltb→lt _ _ h in
        rw (append_assoc (before ++ (best ∷ after)) (c ∷ []) rest) at (
          largest-IsFirstLargest (before ++ (best ∷ after)) [] rest c
            (All-append (λ d. d.tokens < c.tokens) before (best ∷ after)
              (All-raise best.tokens c.tokens before up hb)
              (up, All-weaken best.tokens c.tokens after up ha))
            tt))
      (λ h. rw (regroup before after c rest best) (
        largest-IsFirstLargest before (after ++ (c ∷ [])) rest best hb
          (All-append (λ d. d.tokens ≤ best.tokens) after (c ∷ []) ha (ground arith, tt))))

-- A merged group of at least one contribution takes its heading from its first largest
-- contribution.
pub dominant_heading_path-IsFirstLargest :
    (contributions : List Contribution)
    → contributions ≢ []
    → (c : Contribution) × (dominant_heading_path contributions ≡ c.heading_path)
      × IsFirstLargest contributions c
unfolding dominant_heading_path
dominant_heading_path-IsFirstLargest [] h = absurd (h refl)
dominant_heading_path-IsFirstLargest (first ∷ rest) h =
    if_elim
      (λ b.
        (c : Contribution) × ((largest b rest).heading_path ≡ c.heading_path)
        × IsFirstLargest (first ∷ rest) c)
      (ltb first.tokens first.tokens) first first (λ e. absurd (omega (arith, ltb→lt _ _ e)))
      (λ _. (largest first rest, refl, largest-IsFirstLargest [] [] rest first tt tt))

module _ (count_tokens : Text → ℕ) (min_tokens : ℕ) where
  one_more-ne-zero :
      (contributions : List Contribution) (c : Contribution)
      → length (contributions ++ (c ∷ [])) ≢ 0
  one_more-ne-zero contributions c h = omega (arith, length-append contributions (c ∷ []))

  -- A group that is closed and not emptied of its lines: without contributions it has none.
  group_loop-lines :
      (pending : MergeGroup) (sections : List Section)
      → (length pending.contributions ≡ 0 → pending.lines ≡ [])
      → group_lines (group_loop count_tokens min_tokens pending sections)
        ≡ pending.lines ++ section_lines sections
  unfolding group_loop
  group_loop-lines pending [] h =
      if_elim (λ groups. group_lines groups ≡ pending.lines ++ [])
        (ltb 0 (length pending.contributions)) (pending ∷ []) [] (λ _. refl)
        (λ e. rw (h (ground arith)))
  group_loop-lines pending (section ∷ sections) h =
      if_elim
        (λ groups. group_lines groups ≡ pending.lines ++ (section.lines ++ section_lines sections))
        (leb min_tokens (group_tokens count_tokens (add_section count_tokens pending section))) _ _
        (λ _. rw (append_assoc, group_loop-lines no_group sections (λ _. refl)))
        (λ _.
          group_loop-lines (add_section count_tokens pending section) sections
            (λ e. absurd (one_more-ne-zero pending.contributions _ e))
          ∙ append_assoc pending.lines section.lines (section_lines sections))

  fold-lines :
      (groups : List MergeGroup)
      → group_lines (fold_trailing_shortfall_backward count_tokens min_tokens groups)
        ≡ group_lines groups
  unfolding fold_trailing_shortfall_backward
  fold-lines [] = refl
  fold-lines (last ∷ []) = refl
  fold-lines (previous ∷ last ∷ []) =
      if_elim (λ groups. group_lines groups ≡ previous.lines ++ (last.lines ++ []))
        (leb min_tokens (group_tokens count_tokens last)) _ _ (λ _. refl)
        (λ _. append_assoc previous.lines last.lines [])
  fold-lines (group ∷ next ∷ further ∷ groups) =
      ap (λ (rest : List Text). group.lines ++ rest) (fold-lines (next ∷ further ∷ groups))

  to_section-lines :
      (groups : List MergeGroup) → section_lines (map to_section groups) ≡ group_lines groups
  to_section-lines [] = refl
  to_section-lines (group ∷ groups) =
      ap (λ (rest : List Text). group.lines ++ rest) (to_section-lines groups)

  -- Merging loses no line and keeps their order, whatever the minimum.
  pub merge_undersized_sections-lines :
      (sections : List Section)
      → section_lines (merge_undersized_sections count_tokens min_tokens sections)
        ≡ section_lines sections
  unfolding merge_undersized_sections
  merge_undersized_sections-lines sections =
      if_elim (λ merged. section_lines merged ≡ section_lines sections) (leb min_tokens 0) sections
        _ (λ _. refl)
        (λ _.
          to_section-lines (
            fold_trailing_shortfall_backward count_tokens min_tokens
              (group_by_minimum count_tokens min_tokens sections))
          ∙ fold-lines (group_by_minimum count_tokens min_tokens sections)
          ∙ group_loop-lines no_group sections (λ _. refl))

  abbrev ReachesMinimum : List Text → Type 0
  ReachesMinimum lines = min_tokens ≤ count_tokens (join newline lines)

  -- All groups but the last one.
  abbrev pub AllButLast : List Section → Type 0
  AllButLast [] = Unit
  AllButLast (last ∷ []) = Unit
  AllButLast (section ∷ next ∷ sections) =
      ReachesMinimum section.lines × AllButLast (next ∷ sections)

  AllButLast-cons :
      (section : Section) (sections : List Section)
      → ReachesMinimum section.lines
      → AllButLast sections
      → AllButLast (section ∷ sections)
  AllButLast-cons section [] h all = tt
  AllButLast-cons section (_ ∷ _) h all = (h, all)

  abbrev plain : MergeGroup → Section
  plain group = record { heading_path = []; lines = group.lines }

  group_loop-AllButLast :
      (pending : MergeGroup) (sections : List Section)
      → AllButLast (map to_section (group_loop count_tokens min_tokens pending sections))
  unfolding group_loop
  group_loop-AllButLast pending [] =
      if_elim (λ groups. AllButLast (map to_section groups)) (ltb 0 (length pending.contributions))
        (pending ∷ []) [] (λ _. tt) (λ _. tt)
  group_loop-AllButLast pending (section ∷ sections) =
      if_elim (λ groups. AllButLast (map to_section groups))
        (leb min_tokens (group_tokens count_tokens (add_section count_tokens pending section))) _ _
        (λ h.
          AllButLast-cons (to_section (add_section count_tokens pending section)) _ (leb→le _ _ h)
            (group_loop-AllButLast no_group sections))
        (λ _. group_loop-AllButLast (add_section count_tokens pending section) sections)

  fold-AllButLast :
      (groups : List MergeGroup)
      → AllButLast (map to_section groups)
      → AllButLast
          (map to_section (fold_trailing_shortfall_backward count_tokens min_tokens groups))
  unfolding fold_trailing_shortfall_backward
  fold-AllButLast [] h = tt
  fold-AllButLast (last ∷ []) h = tt
  fold-AllButLast (previous ∷ last ∷ []) h =
      if_elim (λ groups. AllButLast (map to_section groups))
        (leb min_tokens (group_tokens count_tokens last)) _ _ (λ _. h) (λ _. tt)
  fold-AllButLast (group ∷ next ∷ further ∷ groups) (h, all) =
      AllButLast-cons (to_section group) _ h (fold-AllButLast (next ∷ further ∷ groups) all)

  -- With a minimum above zero every merged section but the last reaches it.
  pub merge_undersized_sections-AllButLast :
      (sections : List Section)
      → 0 < min_tokens
      → AllButLast (merge_undersized_sections count_tokens min_tokens sections)
  unfolding merge_undersized_sections group_by_minimum
  merge_undersized_sections-AllButLast sections h =
      if_elim AllButLast (leb min_tokens 0) sections _
        (λ e. absurd (omega (arith, leb→le min_tokens 0 e)))
        (λ _.
          fold-AllButLast (group_loop count_tokens min_tokens no_group sections)
            (group_loop-AllButLast no_group sections))
