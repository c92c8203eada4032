-- ===== src/Tests/Chunking.antt =====
-- The chunker of src/ingestion/chunker.ts on a short page, with one token for every character.
use docent.Base.{
  ℕ, ◌≡◌, refl, true, false, some, List, [], ◌∷◌, arith, length, concat, keep, All, Text, codes,
  is_space, trim, join, starts_with,
}
use docent.Chunker.Split
use docent.Chunker.Trackers
use docent.Chunker.Lines
use docent.Chunker.Lines.{is_fence, opens_table, page_heading, quote_depth}
use docent.Chunker.Trackers.{new_fence}
use docent.Chunker.Split.{newline, new_trackers, split_at_safe_boundaries}
use docent.Chunker.Split.Groups.{kept, AllFrom}
use docent.Chunker.Split.Safe.{BeginsOutside, split-BeginsOutside}
use docent.Chunker.Split.Ceiling.{KeepsCeiling, split-KeepsCeiling}
use docent.Chunker.Sections.{Section, has_content, split_lines, split_into_sections}
use docent.Chunker.Sections.Partition.{content_lines, lines_of, split_into_sections-content_lines}
use docent.Chunker.Merge.{Contribution, dominant_heading_path, merge_undersized_sections}
use docent.Chunker.Merge.Laws.{
  section_lines, IsFirstLargest, AllButLast, dominant_heading_path-IsFirstLargest,
  merge_undersized_sections-lines, merge_undersized_sections-AllButLast,
}
use docent.Chunker.Chunks.{ChunkOptions, no_options, chunk_markdown}
use docent.Chunker.Chunks.Ordinals.{AreChunksFrom, chunk_markdown-AreChunksFrom}
use docent.Chunker.Chunks.Content.{ink_of, ink_of_chunks, ink-chunk_markdown}

abbrev fenced_lines : List Text
fenced_lines =
    codes "Run it:"
    ∷ codes "```"
    ∷ codes "npm start"
    ∷ []
    ∷ codes "# <table>"
    ∷ codes "```"
    ∷ codes "<table>"
    ∷ codes "</table>"
    ∷ codes "Then stop."
    ∷ []

-- The fence stays whole although it is longer than the ceiling.
fence_is_whole :
    split_at_safe_boundaries length 4 12 fenced_lines
    ≡ codes "Run it:\n```\nnpm start\n\n# <table>\n```"
      ∷ codes "<table>\n</table>"
      ∷ codes "Then stop."
      ∷ []
unfolding split_at_safe_boundaries Split.flush trim join Split.scan_line Trackers.consume_fence
    is_fence starts_with quote_depth Trackers.consume_table opens_table Trackers.consume_md_table
    Lines.is_md_table_row Lines.closes_table is_space
fence_is_whole = refl

-- A closing marker with a `<table` tag is cut away from its fence.
marker_cut_off :
    split_at_safe_boundaries length 4 40
      (codes "```" ∷ codes "npm start" ∷ codes "``` <table>" ∷ [])
    ≡ codes "```\nnpm start" ∷ codes "``` <table>" ∷ []
unfolding split_at_safe_boundaries Split.flush trim join Split.scan_line Trackers.consume_fence
    is_fence starts_with quote_depth Trackers.consume_table opens_table Trackers.consume_md_table
    Lines.is_md_table_row Lines.closes_table is_space
marker_cut_off = refl

quoted_depth : quote_depth (codes " > > text > 1") ≡ 2
unfolding quote_depth is_space
quoted_depth = refl

heading_capture : page_heading (codes "###  Guards   ") ≡ some (codes "Guards")
unfolding page_heading is_space mathlib.Core.Option.bind mathlib.Core.Option.or_else
heading_capture = refl

abbrev page : Text
page =
    codes
      "### Guards\nA guard says yes or no.\n#### Roles\nadmin\n```\n#### no heading\n```\n### Pipes\nx"

abbrev options : ChunkOptions
options = record { target_tokens = some 20; max_tokens = some 30; min_tokens = some 4 }

page_chunks :
    chunk_markdown length page options
    ≡ record {
      content = codes "A guard says yes or no.";
      heading_path = codes "Guards" ∷ [];
      token_count = 23;
      ordinal = 0;
    }
      ∷ record {
        content = codes "admin\n```\n#### no heading\n```";
        heading_path = codes "Guards" ∷ codes "Roles" ∷ [];
        token_count = 29;
        ordinal = 1;
      }
      ∷ record {
        content = codes "x";
        heading_path = codes "Guards" ∷ codes "Roles" ∷ [];
        token_count = 1;
        ordinal = 2;
      }
      ∷ []
unfolding chunk_markdown merge_undersized_sections split_into_sections trim join
    Trackers.consume_fence is_fence starts_with page_heading mathlib.Core.Option.bind
    mathlib.Core.Option.or_else Lines.section_heading quote_depth Split.split_oversized_section
    Split.fold_short_trailing_body split_at_safe_boundaries Split.flush Split.scan_line
    Trackers.consume_table opens_table is_space Lines.closes_table Lines.is_md_table_row
    Trackers.consume_md_table dominant_heading_path
page_chunks = refl

abbrev some_sections : List Section
some_sections =
    record { heading_path = codes "A" ∷ []; lines = codes "one" ∷ codes "two" ∷ [] }
    ∷ record { heading_path = codes "B" ∷ []; lines = codes "three" ∷ [] }
    ∷ []

abbrev contribution : Text → ℕ → Contribution
contribution heading tokens = record { heading_path = heading ∷ []; tokens = tokens }

abbrev some_contributions : List Contribution
some_contributions =
    contribution (codes "A") 3 ∷ contribution (codes "B") 7 ∷ contribution (codes "C") 7 ∷ []

-- A fence marker holds no `<table` tag here.
markers_hold_no_tag : All (λ line. is_fence line ≡ true → opens_table line ≡ false) fenced_lines
unfolding is_fence opens_table is_space starts_with
markers_hold_no_tag = (
  λ _. refl,
  (
    λ _. refl,
    (
      λ _. refl,
      (
        λ _. refl,
        (λ h. absurd (cc), (λ _. refl, (λ h. absurd (cc), (λ _. refl, (λ _. refl, tt))))),
      ),
    ),
  ),
)

split-BeginsOutside_example :
    (groups : List (List Text)) × (concat groups ≡ fenced_lines)
    × (split_at_safe_boundaries length 4 12 fenced_lines ≡ kept groups)
    × AllFrom length BeginsOutside new_trackers groups
split-BeginsOutside_example = split-BeginsOutside length 4 12 fenced_lines markers_hold_no_tag

split-KeepsCeiling_example :
    (groups : List (List Text)) × (concat groups ≡ fenced_lines)
    × (split_at_safe_boundaries length 4 12 fenced_lines ≡ kept groups)
    × AllFrom length (KeepsCeiling length 4 12) new_trackers groups
split-KeepsCeiling_example = split-KeepsCeiling length 4 12 fenced_lines

ink-chunk_markdown_example :
    ink_of_chunks (chunk_markdown length page options)
    ≡ ink_of (content_lines new_fence (split_lines page))
ink-chunk_markdown_example = ink-chunk_markdown length page options

chunk_markdown-AreChunksFrom_example :
    AreChunksFrom length 0 (chunk_markdown length page no_options)
chunk_markdown-AreChunksFrom_example = chunk_markdown-AreChunksFrom length page no_options

split_into_sections-content_lines_example :
    (all_sections : List Section) × (lines_of all_sections
      ≡ content_lines new_fence (split_lines page))
    × (split_into_sections page ≡ keep has_content all_sections)
split_into_sections-content_lines_example = split_into_sections-content_lines page

merge_undersized_sections-lines_example :
    section_lines (merge_undersized_sections length 8 some_sections) ≡ section_lines some_sections
merge_undersized_sections-lines_example = merge_undersized_sections-lines length 8 some_sections

merge_undersized_sections-AllButLast_example :
    AllButLast length 4 (merge_undersized_sections length 4 some_sections)
merge_undersized_sections-AllButLast_example =
    merge_undersized_sections-AllButLast length 4 some_sections (omega arith)

dominant_heading_path-IsFirstLargest_example :
    (c : Contribution) × (dominant_heading_path some_contributions ≡ c.heading_path)
    × IsFirstLargest some_contributions c
dominant_heading_path-IsFirstLargest_example =
    dominant_heading_path-IsFirstLargest some_contributions (λ h. cc)
