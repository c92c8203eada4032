-- ===== src/Chunker/Sections/Partition.antt =====
-- The sections of src/ingestion/chunker.ts hold every line of the document but the headings, in
-- order, and a heading inside a fence is a line like any other.
use docent.Base.{
  ◌≡◌, refl, sym, ◌∙◌, inl, inr, Bool, true, false, not, ◌||◌, none, some, List, [], ◌∷◌, ◌++◌, map,
  append-nil, append_assoc, arith, if◌then◌else◌, Bool-cases, if_elim, concat, keep, keep-append,
  Text,
}
use docent.Chunker.Lines.{page_heading, section_heading}
use docent.Chunker.Trackers.{Fence, new_fence, consume_fence}
use docent.Chunker.Sections.{
  Section, Sectioner, new_sectioner, has_content, flush, take_line, section_loop, split_lines,
  split_into_sections,
}

-- `#### title` or `### title`
abbrev is_heading : Text → Bool
is_heading line = elim (page_heading line) [
  | some _ ↦ true
  | none ↦ elim (section_heading line) [ some _ ↦ true | none ↦ false ]
]

abbrev is_content : Fence × Bool → Text → Bool
is_content (fence, fence_marker) line = fence_marker || fence.inside_fence || not (is_heading line)

-- The lines that no section starts at: fence markers, the lines inside a fence, and all but the
-- headings outside.
abbrev pub content_lines : Fence → List Text → List Text
content_lines f [] = []
content_lines f (line ∷ lines) =
    let rest = content_lines (consume_fence f line).0 lines in
    if is_content (consume_fence f line) line then line ∷ rest else rest

abbrev pub lines_of : List Section → List Text
lines_of sections = concat (map (λ (s : Section). s.lines) sections)

-- The sections flushed so far, with the blank ones that were dropped.
record Progress (seen : List Text) (s : Sectioner) : Type 0 where
  all_sections : List Section
  lines_eq : lines_of all_sections ++ s.current.lines ≡ seen
  sections_eq : s.sections ≡ keep has_content all_sections

lines_of-push :
    (sections : List Section) (section : Section)
    → lines_of (sections ++ (section ∷ [])) ≡ lines_of sections ++ section.lines
lines_of-push [] section = append-nil section.lines
lines_of-push (s ∷ sections) section = rw (lines_of-push sections section) (rw append_assoc)

flush-keep :
    (s : Sectioner) (all_sections : List Section)
    → s.sections ≡ keep has_content all_sections
    → flush s ≡ keep has_content (all_sections ++ (s.current ∷ []))
unfolding flush
flush-keep s all_sections e =
    rw (keep-append, e)
      (if_elim
        (λ x.
          x
          ≡ keep has_content all_sections ++ (if has_content s.current then s.current ∷ [] else []))
        (has_content s.current) _ _ (λ b. rw b)
        (λ b. rw b (sym (append-nil (keep has_content all_sections)))))

-- A heading closes the current section.
start-Progress :
    (seen : List Text) (s t : Sectioner)
    → t.sections ≡ flush s
    → t.current.lines ≡ []
    → Progress seen s
    → Progress seen t
start-Progress seen s t e n p = record {
  all_sections = p.all_sections ++ (s.current ∷ []);
  lines_eq = rw (n, append-nil, lines_of-push) p.lines_eq;
  sections_eq = e ∙ flush-keep s p.all_sections p.sections_eq;
}

push-Progress :
    (seen : List Text) (s t : Sectioner) (line : Text)
    → t.sections ≡ s.sections
    → t.current.lines ≡ s.current.lines ++ (line ∷ [])
    → Progress seen s
    → Progress (seen ++ (line ∷ [])) t
push-Progress seen s t line e n p = record {
  all_sections = p.all_sections;
  lines_eq = rw (n, ← append_assoc, p.lines_eq);
  sections_eq = e ∙ p.sections_eq;
}

take_line-content :
    (s : Sectioner) (line : Text) (r : Fence × Bool)
    → is_content r line ≡ true
    → ((take_line s line r).sections ≡ s.sections)
      × ((take_line s line r).current.lines ≡ s.current.lines ++ (line ∷ []))
unfolding take_line
take_line-content s line r c = (ground arith, ground arith)

take_line-heading :
    (s : Sectioner) (line : Text) (r : Fence × Bool)
    → is_content r line ≡ false
    → ((take_line s line r).sections ≡ flush s) × ((take_line s line r).current.lines ≡ [])
unfolding take_line
take_line-heading s line r c = (ground arith, ground arith)

take_line-fence :
    (s : Sectioner) (line : Text) (r : Fence × Bool) → (take_line s line r).fence ≡ r.0
unfolding take_line
take_line-fence s line r = ground arith

section_loop-Progress :
    (seen : List Text) (s : Sectioner) (lines : List Text)
    → Progress seen s
    → (all_sections : List Section) × (lines_of all_sections ≡ seen ++ content_lines s.fence lines)
      × (section_loop s lines ≡ keep has_content all_sections)
unfolding section_loop
section_loop-Progress seen s [] p = (
  p.all_sections ++ (s.current ∷ []),
  rw (append-nil, lines_of-push) p.lines_eq,
  flush-keep s p.all_sections p.sections_eq,
)
section_loop-Progress seen s (line ∷ lines) p =
    let r = consume_fence s.fence line in
    let s' = take_line s line r in
    let fence_eq = take_line-fence s line r in
    elim (Bool-cases (is_content r line)) [
      | inl c ↦
          let (sections_eq, lines_eq) = take_line-content s line r c in
          let (all_sections, e, f) =
            section_loop-Progress (seen ++ (line ∷ [])) s' lines
              (push-Progress seen s s' line sections_eq lines_eq p) in
          (all_sections, rw c (e ∙ (rw fence_eq (append_assoc seen (line ∷ []) _))), f)
      | inr c ↦
          let (sections_eq, lines_eq) = take_line-heading s line r c in
          let (all_sections, e, f) =
            section_loop-Progress seen s' lines (start-Progress seen s s' sections_eq lines_eq p) in
          (all_sections, rw c (e ∙ (rw fence_eq)), f)
    ]

-- The sections are those with content among a sequence of sections whose lines are, in order, the
-- lines of the document without its headings; a line inside a fence is no heading.
pub split_into_sections-content_lines :
    (content : Text)
    → (all_sections : List Section) × (lines_of all_sections
        ≡ content_lines new_fence (split_lines content))
      × (split_into_sections content ≡ keep has_content all_sections)
unfolding split_into_sections
split_into_sections-content_lines content =
    section_loop-Progress [] new_sectioner (split_lines content)
      (record { all_sections = []; lines_eq = refl; sections_eq = refl })
