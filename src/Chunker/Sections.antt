-- ===== src/Chunker/Sections.antt =====
-- `splitIntoSections` of src/ingestion/chunker.ts.
pub mod Partition
use docent.Base.{
  Bool, not, Option, none, some, List, [], ◌∷◌, ◌++◌, if◌then◌else◌, Text, join, add_char, split_on,
}
use docent.Chunker.Lines.{page_heading, section_heading}
use docent.Chunker.Trackers.{Fence, new_fence, consume_fence}
use docent.Chunker.Split.{is_blank}

pub record Section : Type 0 where
  pub heading_path : List Text
  pub lines : List Text

-- The variables of the loop.
pub record Sectioner : Type 0 where
  pub sections : List Section
  page_title : Option Text
  pub current : Section
  pub fence : Fence

abbrev pub new_sectioner : Sectioner
new_sectioner = record {
  sections = [];
  page_title = none;
  current = record { heading_path = []; lines = [] };
  fence = new_fence;
}

abbrev pub has_content : Section → Bool
has_content section = not (is_blank (join [] section.lines))

unfoldable pub flush : Sectioner → List Section
flush s = if has_content s.current then s.sections ++ (s.current ∷ []) else s.sections

abbrev pub push : Text → Section → Section
push line section = record section { lines = section.lines ++ (line ∷ []) }

abbrev heading_trail : Option Text → Text → List Text
heading_trail none title = title ∷ []
heading_trail (some page) title = page ∷ title ∷ []

-- One round, with the fence tracker's answer for the line.
unfoldable pub take_line : Sectioner → Text → Fence × Bool → Sectioner
unfolding flush
take_line s line (fence, fence_marker) =
    let s' = record s { fence = fence } in
    let kept_line = record s' { current = push line s.current } in
    if fence_marker
    then kept_line
    else if fence.inside_fence
    then kept_line
    else elim (page_heading line) [
      | some title ↦ record s' {
        sections = flush s;
        page_title = some title;
        current = record { heading_path = title ∷ []; lines = [] };
      }
      | none ↦ elim (section_heading line) [
        | some title ↦ record s' {
          sections = flush s;
          current = record { heading_path = heading_trail s.page_title title; lines = [] };
        }
        | none ↦ kept_line
      ]
    ]

pub section_loop : Sectioner → List Text → List Section
section_loop s [] = flush s
section_loop s (line ∷ lines) = section_loop (take_line s line (consume_fence s.fence line)) lines

-- `content.split('\n')`
pub split_lines : Text → List Text
unfolding split_on add_char
split_lines content = split_on 10 content

unfoldable pub split_into_sections : Text → List Section
unfolding section_loop take_line flush split_lines
split_into_sections content = section_loop new_sectioner (split_lines content)
