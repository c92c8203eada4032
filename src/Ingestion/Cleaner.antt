-- ===== src/Ingestion/Cleaner.antt =====
-- The cleaning of the documentation's markup: src/ingestion/markdown-cleaner.ts.
pub mod Fences
pub mod Blank
use docent.Base.{
  ℕ, zero, suc, Bool, true, false, not, ◌&&◌, ◌||◌, Option, none, some, List, [], ◌∷◌, ◌++◌, leb,
  ◌==◌, if◌then◌else◌, length, get_elem?, take, keep, all_of, Text, codes, is_space, trim_start,
  trim, join, text_eq, starts_with, split_on, drop, replace_from, replace_all, matches_of, literal,
  either, followed_by, run_of, run_then, up_to, not_char, placeholder, is_placeholder, index_of,
}
use docent.Chunker.Lines.{opens_table, closes_table}
use docent.Ingestion.HtmlTable.{convert_html_table}

pub record CleanedMarkdown : Type 0 where
  pub content : Text
  pub filenames : List Text

-- `FENCE`
unfoldable pub is_fence : Text → Bool
is_fence line = starts_with (trim_start line) (codes "```")

-- `FILENAME_DIRECTIVE`, with its capture.
abbrev filename_open : Text → ℕ
filename_open s = literal (codes "@@filename(") s

abbrev closed_filename : Text → Text → Option Text
closed_filename name [] = none
closed_filename name (_ ∷ rest) = if all_of is_space rest then some name else none

abbrev filename_in : Text → Option Text
filename_in s =
    closed_filename (take (run_of (not_char b')') s) s) (drop (run_of (not_char b')') s) s)

unfoldable pub filename_directive : Text → Option Text
filename_directive line = elim (filename_open (trim_start line)) [
  | zero ↦ none
  | suc k ↦ filename_in (drop (suc k) (trim_start line))
]

-- `SWITCH_DIRECTIVE`
unfoldable pub is_switch_directive : Text → Bool
is_switch_directive line = text_eq (trim line) (codes "@@switch")

-- `FENCED_BLOCK`
abbrev is_fenced_block : Text → ℕ
is_fenced_block s = followed_by (literal (codes "```")) (up_to (literal (codes "```"))) s

-- `INLINE_CODE`
abbrev is_span_char : ℕ → Bool
is_span_char c = not (c == b'`' || c == 10)

abbrev is_inline_code : Text → ℕ
is_inline_code s = followed_by (literal (codes "`")) (run_then is_span_char (literal (codes "`"))) s

-- `FIGURE_BLOCK`
abbrev is_figure : Text → ℕ
is_figure s = followed_by (literal (codes "<figure>")) (up_to (literal (codes "</figure>"))) s

-- `ANGULAR_COMPONENT`: a close begins with no character of a name.
abbrev is_name_char : ℕ → Bool
is_name_char c = leb 97 c && leb c 122 || c == b'-'

abbrev name_then : (Text → ℕ) → Text → ℕ
name_then p s = elim (run_of is_name_char s) [ zero ↦ 0 | suc _ ↦ run_then is_name_char p s ]

abbrev component_close : Text → ℕ
component_close s =
    either (followed_by (literal (codes "</app-")) (name_then (literal (codes ">"))))
      (literal (codes "/>")) s

abbrev is_component : Text → ℕ
is_component s = followed_by (literal (codes "<app-")) (name_then (up_to component_close)) s

-- `PLACEHOLDER_MARK`
abbrev placeholder_mark : ℕ
placeholder_mark = 0xe001

abbrev extracted_text : List Text → Text → Text
extracted_text extracted m = elim (get_elem? extracted (index_of m)) [
  | none ↦ []
  | some code ↦ code
]

unfoldable pub strip_decorative_markup : Text → Text
strip_decorative_markup text =
    let sanitized = keep (not_char placeholder_mark) text in
    let fences = matches_of is_fenced_block sanitized in
    let without_fences =
      replace_from is_fenced_block (λ i _. placeholder placeholder_mark i) 0 0 sanitized in
    let spans = matches_of is_inline_code without_fences in
    let without_inline_code =
      replace_from is_inline_code (λ i _. placeholder placeholder_mark i) (length fences) 0
        without_fences in
    let stripped =
      replace_all is_component (λ _. []) (replace_all is_figure (λ _. []) without_inline_code) in
    replace_all (is_placeholder placeholder_mark) (extracted_text (fences ++ spans)) stripped

-- `/\n{3}/g`
abbrev pub is_newline : ℕ → Bool
is_newline c = c == 10

abbrev pub is_blank_run : Text → ℕ
is_blank_run s = if leb 3 (run_of is_newline s) then run_of is_newline s else 0

pub collapse_blank_runs : Text → Text
collapse_blank_runs s = replace_all is_blank_run (λ _. 10 ∷ 10 ∷ []) s

-- The variables of the loop.
pub record Cleaner : Type 0 where
  pub filenames : List Text
  pub output : List Text
  pub inside_fence : Bool
  pub skipping_switch_branch : Bool
  pub table_buffer : Option (List Text)

abbrev pub new_cleaner : Cleaner
new_cleaner = record {
  filenames = [];
  output = [];
  inside_fence = false;
  skipping_switch_branch = false;
  table_buffer = none;
}

abbrev pub push : Text → Cleaner → Cleaner
push line s = record s { output = s.output ++ (line ∷ []) }

abbrev toggle_fence : Cleaner → Cleaner
toggle_fence s =
    if s.inside_fence
    then record s { inside_fence = false; skipping_switch_branch = false }
    else record s { inside_fence = true }

-- A table with its last line, converted where that line closes it.
abbrev buffer_line : List Text → Text → Cleaner → Cleaner
buffer_line buffer line s =
    if closes_table line
    then record (push (convert_html_table (join (10 ∷ []) buffer)) s) { table_buffer = none }
    else record s { table_buffer = some buffer }

abbrev take_filename : Option Text → Text → Cleaner → Cleaner
take_filename (some filename) line s = record s { filenames = s.filenames ++ (filename ∷ []) }
take_filename none line s =
    if is_switch_directive line then record s { skipping_switch_branch = true } else push line s

abbrev take_text : Text → Cleaner → Cleaner
take_text line s =
    if not s.inside_fence && opens_table (replace_all is_inline_code (λ _. []) line)
    then buffer_line (line ∷ []) line s
    else if s.inside_fence
    then take_filename (filename_directive line) line s
    else push line s

abbrev take_buffered : Option (List Text) → Text → Cleaner → Cleaner
take_buffered none line s = take_text line s
take_buffered (some buffer) line s = buffer_line (buffer ++ (line ∷ [])) line s

pub clean_line : Text → Cleaner → Cleaner
unfolding is_fence filename_directive is_switch_directive
clean_line line s =
    if is_fence line
    then push line (toggle_fence s)
    else if s.skipping_switch_branch
    then s
    else take_buffered s.table_buffer line s

pub clean_lines : List Text → Cleaner → Cleaner
unfolding clean_line
clean_lines [] s = s
clean_lines (line ∷ lines) s = clean_lines lines (clean_line line s)

abbrev flush_table : Option (List Text) → List Text → List Text
flush_table none output = output
flush_table (some buffer) output = output ++ (join (10 ∷ []) buffer ∷ [])

pub clean_markdown : Text → CleanedMarkdown
unfolding strip_decorative_markup collapse_blank_runs clean_lines
clean_markdown raw =
    let s = clean_lines (split_on 10 raw) new_cleaner in
    record {
      content =
          collapse_blank_runs
            (strip_decorative_markup (join (10 ∷ []) (flush_table s.table_buffer s.output)));
      filenames = s.filenames;
    }
