-- ===== src/Chunker/Chunks/Content.antt =====
-- Chunking by src/ingestion/chunker.ts loses no character of the document but white space and the
-- headings, and repeats none.
use docent.Base.{
  ℕ, ◌≡◌, refl, sym, ap, ◌∙◌, inl, inr, true, not, List, [], ◌∷◌, ◌++◌, map, append-nil,
  append_assoc, arith, ltb, leb, ◌==◌, ==_iff, Bool-cases, if_elim, length, concat, keep, all_of,
  concat-append, keep-append, Text, is_space, trim_start, trim_end, trim, join,
}
use docent.Chunker.Trackers.{new_fence}
use docent.Chunker.Split.{
  newline, is_blank, split_at_safe_boundaries, fold_short_trailing_body, split_oversized_section,
}
use docent.Chunker.Split.Groups.{kept}
use docent.Chunker.Split.Ceiling.{split-KeepsCeiling}
use docent.Chunker.Sections.{Section, has_content, split_lines, split_into_sections}
use docent.Chunker.Sections.Partition.{content_lines, split_into_sections-content_lines}
use docent.Chunker.Merge.{merge_undersized_sections}
use docent.Chunker.Merge.Laws.{section_lines, merge_undersized_sections-lines}
use docent.Chunker.Chunks.{
  Chunk, ChunkOptions, push_chunk, push_bodies, push_sections, chunk_markdown, target_of, max_of,
  min_of,
}

-- The characters that are no white space.
abbrev ink : Text → Text
ink = keep (λ c. not (is_space c))

abbrev pub ink_of : List Text → Text
ink_of lines = ink (concat lines)

ink-join : (sep : Text) (lines : List Text) → ink sep ≡ [] → ink (join sep lines) ≡ ink_of lines
unfolding join
ink-join sep [] h = refl
ink-join sep (line ∷ []) h = rw append-nil
ink-join sep (line ∷ next ∷ lines) h =
    simp (keep-append, h, append-nil, ink-join sep (next ∷ lines) h)

ink-spaces : (s : Text) → all_of is_space s ≡ true → ink s ≡ []
ink-spaces [] h = refl
ink-spaces (c ∷ s) h = ground (arith, ink-spaces s)

ink-trim_start : (s : Text) → ink (trim_start s) ≡ ink s
unfolding trim_start
ink-trim_start [] = refl
ink-trim_start (c ∷ s) = ground (arith, ink-trim_start s)

ink-trim_end : (s : Text) → ink (trim_end s) ≡ ink s
unfolding trim_end
ink-trim_end [] = refl
ink-trim_end (c ∷ s) = ground (arith, ink-trim_end s, ink-spaces (c ∷ s))

ink-trim : (s : Text) → ink (trim s) ≡ ink s
unfolding trim
ink-trim s = ink-trim_end (trim_start s) ∙ ink-trim_start s

ink-blank : (s : Text) → is_blank s ≡ true → ink s ≡ []
ink-blank s h = sym (ink-trim s) ∙ empty (trim s) h
  where
    empty : (t : Text) → (length t == 0) ≡ true → ink t ≡ []
    empty [] e = refl
    empty (_ ∷ _) e = absurd (omega (arith, (==_iff _ 0).0 e))

ink-newline : ink newline ≡ []
unfolding is_space
ink-newline = refl

ink-kept : (groups : List (List Text)) → ink_of (kept groups) ≡ ink_of (concat groups)
ink-kept [] = refl
ink-kept (group ∷ groups) = elim (Bool-cases (is_blank (join [] group))) [
  | inl b ↦
      rw b (
        ink-kept groups
        ∙ (rw (concat-append, keep-append, ← ink-join [] group refl, ink-blank _ b)))
  | inr b ↦
      rw (b, keep-append, ink-join newline group ink-newline, ink-kept groups)
        (rw (concat-append, keep-append))
]

abbrev pub ink_of_chunks : List Chunk → Text
ink_of_chunks chunks = ink_of (map (λ (c : Chunk). c.content) chunks)

ink-snoc :
    (chunks : List Chunk) (c : Chunk)
    → ink_of_chunks (chunks ++ (c ∷ [])) ≡ ink_of_chunks chunks ++ ink c.content
ink-snoc [] c = ap ink (append-nil c.content)
ink-snoc (d ∷ chunks) c = simp (keep-append, ink-snoc chunks c, append_assoc)

module _ (count_tokens : Text → ℕ) where
  ink-split :
      (target_tokens max_tokens : ℕ) (lines : List Text)
      → ink_of (split_at_safe_boundaries count_tokens target_tokens max_tokens lines) ≡ ink_of lines
  ink-split target_tokens max_tokens lines =
      let (groups, lines_eq, bodies_eq, _) =
        split-KeepsCeiling count_tokens target_tokens max_tokens lines in
      ap ink_of bodies_eq ∙ ink-kept groups ∙ ap ink_of lines_eq

  ink-fold :
      (min_tokens max_tokens : ℕ) (bodies : List Text)
      → ink_of (fold_short_trailing_body count_tokens min_tokens max_tokens bodies) ≡ ink_of bodies
  unfolding fold_short_trailing_body
  ink-fold min_tokens max_tokens [] = refl
  ink-fold min_tokens max_tokens (last ∷ []) = refl
  ink-fold min_tokens max_tokens (previous ∷ last ∷ []) =
      let same : ink_of ((previous ++ newline ++ last) ∷ []) ≡ ink_of (previous ∷ last ∷ []) =
        simp (keep-append, ink-newline, append-nil) in
      if_elim (λ bodies. ink_of bodies ≡ ink_of (previous ∷ last ∷ []))
        (leb min_tokens (count_tokens last)) _ _ (λ _. refl)
        λ _.
          if_elim (λ bodies. ink_of bodies ≡ ink_of (previous ∷ last ∷ []))
            (ltb max_tokens (count_tokens (previous ++ newline ++ last))) _ _ (λ _. refl)
            (λ _. same)
  ink-fold min_tokens max_tokens (body ∷ next ∷ further ∷ bodies) =
      simp (keep-append, ink-fold min_tokens max_tokens (next ∷ further ∷ bodies))

  ink-oversized :
      (target_tokens max_tokens min_tokens : ℕ) (lines : List Text)
      → ink_of (split_oversized_section count_tokens target_tokens max_tokens min_tokens lines)
        ≡ ink_of lines
  unfolding split_oversized_section
  ink-oversized target_tokens max_tokens min_tokens lines =
      if_elim (λ bodies. ink_of bodies ≡ ink_of lines)
        (leb (count_tokens (join newline lines)) max_tokens) _ _
        (λ _. ap ink (append-nil (join newline lines)) ∙ ink-join newline lines ink-newline)
        (λ _. ink-fold min_tokens max_tokens _ ∙ ink-split target_tokens max_tokens lines)

  ink-push_chunk :
      (heading_path : List Text) (chunks : List Chunk) (body : Text)
      → ink_of_chunks (push_chunk count_tokens heading_path chunks body)
        ≡ ink_of_chunks chunks ++ ink body
  unfolding push_chunk
  ink-push_chunk heading_path chunks body =
      if_elim (λ result. ink_of_chunks result ≡ ink_of_chunks chunks ++ ink body)
        (length (trim body) == 0) chunks _
        (λ e. rw (ink-blank body e) (sym (append-nil (ink_of_chunks chunks))))
        (λ _. rw (ink-snoc, ink-trim))

  ink-push_bodies :
      (heading_path : List Text) (chunks : List Chunk) (bodies : List Text)
      → ink_of_chunks (push_bodies count_tokens heading_path chunks bodies)
        ≡ ink_of_chunks chunks ++ ink_of bodies
  unfolding push_bodies
  ink-push_bodies heading_path chunks [] = sym (append-nil (ink_of_chunks chunks))
  ink-push_bodies heading_path chunks (body ∷ bodies) =
      ink-push_bodies heading_path (push_chunk count_tokens heading_path chunks body) bodies
      ∙ (rw (ink-push_chunk, keep-append, append_assoc))

  ink-push_sections :
      (target_tokens max_tokens min_tokens : ℕ) (chunks : List Chunk) (sections : List Section)
      → ink_of_chunks
          (push_sections count_tokens target_tokens max_tokens min_tokens chunks sections)
        ≡ ink_of_chunks chunks ++ ink_of (section_lines sections)
  unfolding push_sections
  ink-push_sections target_tokens max_tokens min_tokens chunks [] =
      sym (append-nil (ink_of_chunks chunks))
  ink-push_sections target_tokens max_tokens min_tokens chunks (section ∷ sections) =
      let bodies =
        split_oversized_section count_tokens target_tokens max_tokens min_tokens section.lines in
      ink-push_sections target_tokens max_tokens min_tokens
        (push_bodies count_tokens section.heading_path chunks bodies) sections
      ∙ (rw (ink-push_bodies, ink-oversized, concat-append, keep-append, append_assoc))

  ink-has_content :
      (sections : List Section)
      → ink_of (section_lines (keep has_content sections)) ≡ ink_of (section_lines sections)
  ink-has_content [] = refl
  ink-has_content (section ∷ sections) = elim (Bool-cases (is_blank (join [] section.lines))) [
    | inl b ↦ rw b (
        ink-has_content sections
        ∙ (rw (
          concat-append,
          keep-append,
          ← ink-join [] section.lines refl,
          ink-blank (join [] section.lines) b,
        )))
    | inr b ↦ rw b (simp (concat-append, keep-append, ink-has_content sections))
  ]

  -- The characters of the chunks that are no white space are, in order, those of the document
  -- without its headings, whatever the tokeniser and the options.
  pub ink-chunk_markdown :
      (content : Text) (options : ChunkOptions)
      → ink_of_chunks (chunk_markdown count_tokens content options)
        ≡ ink_of (content_lines new_fence (split_lines content))
  unfolding chunk_markdown
  ink-chunk_markdown content options =
      let (sections, lines_eq, sections_eq) = split_into_sections-content_lines content in
      ink-push_sections (target_of options) (max_of options) (min_of options) []
        (merge_undersized_sections count_tokens (min_of options) (split_into_sections content))
      ∙ ap ink_of (
          merge_undersized_sections-lines count_tokens (min_of options)
            (split_into_sections content))
      ∙ ap (λ (s : List Section). ink_of (section_lines s)) sections_eq
      ∙ ink-has_content sections
      ∙ ap ink_of lines_eq
