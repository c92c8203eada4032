-- ===== src/Ingestion/HtmlTable.antt =====
-- The conversion of HTML tables: src/ingestion/html-table.ts.
pub mod Lines
pub mod Conversion
use docent.Base.{
  ℕ, zero, suc, ◌+◌, ◌-◌, Bool, false, not, ◌&&◌, ◌||◌, Option, none, some, List, [], ◌∷◌, ◌++◌,
  map, ltb, leb, ◌==◌, if◌then◌else◌, length, get_elem?, take, keep, any_of, Text, codes, is_space,
  trim_start, trim, join, drop, replace_from, replace_all, matches_of, literal, literal_i, either,
  followed_by, run_of, run_then, up_to, before, between, not_char, rest_of_tag, is_digit,
  placeholder, is_placeholder, index_of,
}

-- `ROW`
abbrev row_open : Text → ℕ
row_open s = followed_by (literal_i (codes "<tr")) rest_of_tag s

abbrev row_close : Text → ℕ
row_close s = literal_i (codes "</tr>") s

abbrev pub is_row : Text → ℕ
is_row s = followed_by row_open (up_to row_close) s

-- `CELL`: a cell runs up to its closing tag, to the next cell or to the end.
abbrev pub cell_open : Text → ℕ
cell_open s = followed_by (either (literal_i (codes "<td")) (literal_i (codes "<th"))) rest_of_tag s

abbrev cell_close : Text → ℕ
cell_close s =
    followed_by (either (literal_i (codes "</td")) (literal_i (codes "</th")))
      (run_then is_space (literal (codes ">"))) s

abbrev cell_end : Text → ℕ
cell_end s = either cell_close cell_open s

abbrev is_cell : Text → ℕ
is_cell s = elim (cell_open s) [ zero ↦ 0 | suc k ↦ suc k + before cell_end (drop (suc k) s) ]

-- `CODE`
abbrev code_open : Text → ℕ
code_open s = literal_i (codes "<code>") s

abbrev code_close : Text → ℕ
code_close s = literal_i (codes "</code>") s

abbrev is_code : Text → ℕ
is_code s = followed_by code_open (up_to code_close) s

-- `LINK`: behind the name no letter, digit or underscore goes on.
abbrev is_word_char : ℕ → Bool
is_word_char c = is_digit c || leb 65 c && leb c 90 || leb 97 c && leb c 122 || c == b'_'

abbrev starts_word : Text → Bool
starts_word [] = false
starts_word (c ∷ s) = is_word_char c

abbrev attributes_end : Text → ℕ
attributes_end s = if starts_word s then 0 else rest_of_tag s

abbrev link_open : Text → ℕ
link_open s = followed_by (literal_i (codes "<a")) attributes_end s

abbrev link_close : Text → ℕ
link_close s = followed_by (literal_i (codes "</a")) (run_then is_space (literal (codes ">"))) s

abbrev is_link : Text → ℕ
is_link s = followed_by link_open (up_to link_close) s

-- `HREF_ATTR`
abbrev is_unquoted : ℕ → Bool
is_unquoted c = not (is_space c || c == b'"' || c == 39 || c == b'>')

abbrev quoted_by : ℕ → Text → Option Text
quoted_by quote s = elim (drop (run_of (not_char quote) s) s) [
  | [] ↦ none
  | _ ∷ _ ↦ some (take (run_of (not_char quote) s) s)
]

abbrev attribute_value : Text → Option Text
attribute_value [] = none
attribute_value (c ∷ s) =
    if c == b'"'
    then quoted_by b'"' s
    else if c == 39
    then quoted_by 39 s
    else if is_unquoted c
    then some (take (run_of is_unquoted (c ∷ s)) (c ∷ s))
    else none

abbrev href_start : Text → ℕ
href_start s = followed_by (literal_i (codes "href")) (run_then is_space (literal (codes "="))) s

abbrev href_at : Text → Option Text
href_at s = elim (href_start s) [
  | zero ↦ none
  | suc k ↦ attribute_value (trim_start (drop (suc k) s))
]

find_href : Text → Option Text
find_href [] = none
find_href (c ∷ s) =
    let rest = find_href s in elim (href_at (c ∷ s)) [ none ↦ rest | some href ↦ some href ]

abbrev link_text : Text → Text
link_text m = between link_open link_close m

link_replacer : Text → Text
unfolding find_href
link_replacer m = elim (find_href (drop 2 (take (link_open m - 1) m))) [
  | none ↦ link_text m
  | some href ↦ codes "[" ++ (link_text m ++ (codes "](" ++ (href ++ codes ")")))
]

-- `EMPHASIS`, for either name
abbrev is_strong : Text → ℕ
is_strong s = followed_by (literal_i (codes "<strong>")) (up_to (literal_i (codes "</strong>"))) s

abbrev is_bold : Text → ℕ
is_bold s = followed_by (literal_i (codes "<b>")) (up_to (literal_i (codes "</b>"))) s

abbrev emphasised : Text → Text
emphasised m =
    codes "**"
    ++ ((elim (is_strong m) [
      | zero ↦ between (literal_i (codes "<b>")) (literal_i (codes "</b>")) m
      | suc _ ↦ between (literal_i (codes "<strong>")) (literal_i (codes "</strong>")) m
    ])
        ++ codes "**")

-- `BREAK` and `REMAINING_TAG`
abbrev is_break : Text → ℕ
is_break s =
    followed_by (literal_i (codes "<br"))
      (run_then is_space (either (literal (codes ">")) (literal (codes "/>")))) s

abbrev some_tag_end : Text → ℕ
some_tag_end s = elim (run_of (not_char b'>') s) [ zero ↦ 0 | suc _ ↦ rest_of_tag s ]

abbrev is_tag : Text → ℕ
is_tag s = followed_by (literal (codes "<")) some_tag_end s

pub decode_entities : Text → Text
decode_entities text =
    replace_all (literal (codes "&quot;")) (λ _. codes "\"")
      (replace_all (literal (codes "&amp;")) (λ _. codes "&")
        (replace_all (literal (codes "&gt;")) (λ _. codes ">")
          (replace_all (literal (codes "&lt;")) (λ _. codes "<")
            (replace_all (literal (codes "&#124;")) (λ _. codes "|")
              (replace_all (literal (codes "&#125;")) (λ _. codes "}")
                (replace_all (literal (codes "&#123;")) (λ _. codes "{") text))))))

-- `.replace(/\s+/g, ' ')` and `.replace(/\|/g, '\\|')`
pub single_spaces : Text → Text
single_spaces s = replace_all (run_of is_space) (λ _. codes " ") s

pub escape_pipes : Text → Text
escape_pipes s = replace_all (literal (codes "|")) (λ _. codes "\\|") s

-- `CODE_PLACEHOLDER_MARK`
abbrev code_mark : ℕ
code_mark = 0xe000

abbrev pub code_body : Text → Text
code_body m = trim (single_spaces (decode_entities (between code_open code_close m)))

abbrev restored_code : List Text → Text → Text
restored_code bodies m = elim (get_elem? bodies (index_of m)) [
  | none ↦ []
  | some body ↦ codes "`" ++ (escape_pipes body ++ codes "`")
]

-- The markup of a cell without its code, on one line.
pub render_markup : Text → Text
unfolding link_replacer decode_entities single_spaces escape_pipes
render_markup s = trim (
    escape_pipes (
      single_spaces (
        decode_entities (
          replace_all is_tag (λ _. [])
            (replace_all is_break (λ _. codes " ")
              (replace_all (either is_strong is_bold) emphasised
                (replace_all is_link link_replacer s)))))))

pub render_cell : Text → Text
unfolding render_markup
render_cell html =
    let sanitized = keep (not_char code_mark) html in
    let without_code = replace_from is_code (λ i _. placeholder code_mark i) 0 0 sanitized in
    let bodies = map code_body (matches_of is_code sanitized) in
    replace_all (is_placeholder code_mark) (restored_code bodies) (render_markup without_code)

pub record Row : Type 0 where
  pub is_header : Bool
  pub cells : List Text

abbrev is_header_cell : Text → Bool
is_header_cell m = ltb 0 (literal_i (codes "<th") m)

abbrev pub parse_row : Text → Row
parse_row m =
    let cells = matches_of is_cell (between row_open row_close m) in
    record {
      is_header = any_of is_header_cell cells;
      cells = map (λ (cell : Text). render_cell (drop (cell_open cell) cell)) cells;
    }

unfoldable pub parse_rows : Text → List Row
unfolding render_cell
parse_rows html =
    keep (λ (row : Row). ltb 0 (length row.cells)) (map parse_row (matches_of is_row html))

abbrev pub piped : List Text → Text
piped cells = codes "| " ++ (join (codes " | ") cells ++ codes " |")

abbrev pub dashes : List Text → List Text
dashes cells = map (λ (_ : Text). codes "---") cells

abbrev pub header_of : List Row → Option Row
header_of [] = none
header_of (row ∷ rows) = if row.is_header then some row else header_of rows

-- The lines of the converted table.
abbrev pub table_lines : Option Row → List Row → List Text
table_lines none rows = map (λ (row : Row). codes "- " ++ join (codes " — ") row.cells) rows
table_lines (some header) rows =
    piped header.cells
    ∷ piped (dashes header.cells)
    ∷ map (λ (row : Row). piped row.cells) (keep (λ (row : Row). not row.is_header) rows)

abbrev pub convert_rows : Text → List Row → Text
convert_rows html [] = html
convert_rows html (row ∷ rows) = join (10 ∷ []) (table_lines (header_of (row ∷ rows)) (row ∷ rows))

unfoldable pub convert_html_table : Text → Text
unfolding parse_rows
convert_html_table html = convert_rows html (parse_rows html)
