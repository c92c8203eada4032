-- ===== src/Ingestion/HtmlTable/Lines.antt =====
-- The lines of a converted table: src/ingestion/html-table.ts.
use docent.Base.{
  ℕ, zero, suc, ◌≡◌, refl, ◌≢◌, true, not, Option, none, some, List, [], ◌∷◌, ◌++◌, map, arith,
  ◌==◌, if_elim, get_elem?, take, All, keep-All, all_of-append, Text, codes, is_space, trim_start,
  trim_end, trim, join, split_on, split_on-join, lacks, drop, replace_from, match_elim, matches_of,
  run_of, index_of,
}
use docent.Ingestion.HtmlTable.{
  is_row, cell_open, code_body, single_spaces, escape_pipes, render_markup, render_cell, Row,
  parse_row, parse_rows, piped, dashes, header_of, table_lines, convert_rows,
}

-- What a text without a line break is.
abbrev OneLine : Text → Type 0
OneLine s = lacks 10 s ≡ true

OneLine-append : (s t : Text) → OneLine s → OneLine t → OneLine (s ++ t)
OneLine-append s t h k = all_of-append (λ c. not (c == 10)) s t h k

OneLine-replace_from :
    (matcher : Text → ℕ) (f : ℕ → Text → Text) (i skip : ℕ) (s : Text)
    → ((j : ℕ) (m : Text) → OneLine (f j m))
    → OneLine s
    → OneLine (replace_from matcher f i skip s)
unfolding replace_from
OneLine-replace_from matcher f i skip [] k h = refl
OneLine-replace_from matcher f i (suc skip) (c ∷ s) k h =
    OneLine-replace_from matcher f i skip s k (ground arith)
OneLine-replace_from matcher f i zero (c ∷ s) k h =
    match_elim OneLine (matcher (c ∷ s)) _ _
      (λ _.
        OneLine-append (c ∷ []) (replace_from matcher f i 0 s) (ground arith)
          (OneLine-replace_from matcher f i 0 s k (ground arith)))
      (λ n _.
        OneLine-append (f i (take (suc n) (c ∷ s))) (replace_from matcher f (suc i) n s)
          (k i (take (suc n) (c ∷ s)))
          (OneLine-replace_from matcher f (suc i) n s k (ground arith)))

break-is_space : (c : ℕ) (s : Text) → run_of is_space (c ∷ s) ≡ 0 → OneLine (c ∷ [])
unfolding run_of is_space
break-is_space c s h = ground arith

single_spaces-from :
    (i skip : ℕ) (s : Text) → OneLine (replace_from (run_of is_space) (λ _ _. codes " ") i skip s)
unfolding replace_from
single_spaces-from i skip [] = refl
single_spaces-from i (suc skip) (c ∷ s) = single_spaces-from i skip s
single_spaces-from i zero (c ∷ s) =
    match_elim OneLine (run_of is_space (c ∷ s)) _ _
      (λ e.
        OneLine-append (c ∷ []) (replace_from (run_of is_space) (λ _ _. codes " ") i 0 s)
          (break-is_space c s e) (single_spaces-from i 0 s))
      (λ n _. single_spaces-from (suc i) n s)

trim_start-OneLine : (s : Text) → OneLine s → OneLine (trim_start s)
unfolding trim_start
trim_start-OneLine [] h = refl
trim_start-OneLine (c ∷ s) h = ground (arith, trim_start-OneLine s)

trim_end-OneLine : (s : Text) → OneLine s → OneLine (trim_end s)
unfolding trim_end
trim_end-OneLine [] h = refl
trim_end-OneLine (c ∷ s) h = ground (arith, trim_end-OneLine s)

trim-OneLine : (s : Text) → OneLine s → OneLine (trim s)
unfolding trim
trim-OneLine s h = trim_end-OneLine (trim_start s) (trim_start-OneLine s h)

escape_pipes-OneLine : (s : Text) → OneLine s → OneLine (escape_pipes s)
unfolding escape_pipes
escape_pipes-OneLine s h = OneLine-replace_from _ _ 0 0 s (λ _ _. refl) h

single_spaces-OneLine : (s : Text) → OneLine (single_spaces s)
unfolding single_spaces
single_spaces-OneLine s = single_spaces-from 0 0 s

render_markup-OneLine : (s : Text) → OneLine (render_markup s)
unfolding render_markup
render_markup-OneLine s = trim-OneLine _ (escape_pipes-OneLine _ (single_spaces-OneLine _))

code_body-OneLine : (m : Text) → OneLine (code_body m)
code_body-OneLine m = trim-OneLine _ (single_spaces-OneLine _)

restored-OneLine :
    (ms : List Text) (n : ℕ)
    → OneLine (elim (get_elem? (map code_body ms) n) [
      | none ↦ []
      | some body ↦ codes "`" ++ (escape_pipes body ++ codes "`")
    ])
restored-OneLine [] n = refl
restored-OneLine (x ∷ ms) zero =
    OneLine-append (codes "`") (escape_pipes (code_body x) ++ codes "`") refl (
      OneLine-append (escape_pipes (code_body x)) (codes "`")
        (escape_pipes-OneLine _ (code_body-OneLine x)) refl)
restored-OneLine (x ∷ ms) (suc n) = restored-OneLine ms n

render_cell-OneLine : (html : Text) → OneLine (render_cell html)
unfolding render_cell
render_cell-OneLine html =
    OneLine-replace_from _ _ 0 0 _ (λ _ m. restored-OneLine _ (index_of m))
      (render_markup-OneLine _)

-- Every cell of a row is on one line.
abbrev pub OneLineRow : Row → Type 0
OneLineRow row = All OneLine row.cells

cells-OneLine :
    (cells : List Text)
    → All OneLine (map (λ (cell : Text). render_cell (drop (cell_open cell) cell)) cells)
cells-OneLine [] = tt
cells-OneLine (cell ∷ cells) = (render_cell-OneLine _, cells-OneLine cells)

parsed-OneLine : (ms : List Text) → All OneLineRow (map parse_row ms)
parsed-OneLine [] = tt
parsed-OneLine (m ∷ ms) = (cells-OneLine _, parsed-OneLine ms)

pub parse_rows-OneLine : (html : Text) → All OneLineRow (parse_rows html)
unfolding parse_rows
parse_rows-OneLine html = keep-All OneLineRow _ _ (parsed-OneLine (matches_of is_row html))

join-OneLine :
    (sep : Text) (cells : List Text) → OneLine sep → All OneLine cells → OneLine (join sep cells)
unfolding join
join-OneLine sep [] h all = refl
join-OneLine sep (cell ∷ []) h (k, _) = k
join-OneLine sep (cell ∷ next ∷ cells) h (k, all) =
    OneLine-append (cell ++ sep) (join sep (next ∷ cells)) (OneLine-append cell sep k h)
      (join-OneLine sep (next ∷ cells) h all)

piped-OneLine : (cells : List Text) → All OneLine cells → OneLine (piped cells)
piped-OneLine cells all =
    OneLine-append (codes "| ") (join (codes " | ") cells ++ codes " |") refl (
      OneLine-append (join (codes " | ") cells) (codes " |")
        (join-OneLine (codes " | ") cells refl all) refl)

dashes-OneLine : (cells : List Text) → All OneLine (dashes cells)
dashes-OneLine [] = tt
dashes-OneLine (cell ∷ cells) = (refl, dashes-OneLine cells)

body-OneLine :
    (rows : List Row)
    → All OneLineRow rows
    → All OneLine (map (λ (row : Row). piped row.cells) rows)
body-OneLine [] all = tt
body-OneLine (row ∷ rows) (h, all) = (piped-OneLine row.cells h, body-OneLine rows all)

items-OneLine :
    (rows : List Row)
    → All OneLineRow rows
    → All OneLine (map (λ (row : Row). codes "- " ++ join (codes " — ") row.cells) rows)
items-OneLine [] all = tt
items-OneLine (row ∷ rows) (h, all) = (
  OneLine-append (codes "- ") (join (codes " — ") row.cells) refl
      (join-OneLine (codes " — ") row.cells refl h),
  items-OneLine rows all,
)

HasOneLine : Option Row → Type 0
HasOneLine none = Unit
HasOneLine (some row) = OneLineRow row

header_of-OneLine : (rows : List Row) → All OneLineRow rows → HasOneLine (header_of rows)
unfolding HasOneLine
header_of-OneLine [] all = tt
header_of-OneLine (row ∷ rows) (h, all) =
    if_elim HasOneLine row.is_header (some row) (header_of rows) (λ _. h)
      (λ _. header_of-OneLine rows all)

table_lines-OneLine :
    (header : Option Row) (rows : List Row)
    → HasOneLine header
    → All OneLineRow rows
    → All OneLine (table_lines header rows)
unfolding HasOneLine
table_lines-OneLine none rows h all = items-OneLine rows all
table_lines-OneLine (some header) rows h all = (
  piped-OneLine header.cells h,
  (
    piped-OneLine (dashes header.cells) (dashes-OneLine header.cells),
    body-OneLine _ (keep-All OneLineRow _ rows all),
  ),
)

split-lines :
    (lines : List Text)
    → lines ≢ []
    → All OneLine lines
    → split_on 10 (join (10 ∷ []) lines) ≡ lines
split-lines [] h all = absurd (h refl)
split-lines (line ∷ lines) h all = split_on-join 10 line lines all

table_lines-ne-nil :
    (header : Option Row) (row : Row) (rows : List Row) → table_lines header (row ∷ rows) ≢ []
table_lines-ne-nil none row rows h = cc
table_lines-ne-nil (some header) row rows h = cc

-- Where a row was read, the lines of the result are those of the table: no cell breaks one.
pub convert_rows-lines :
    (html : Text) (rows : List Row)
    → rows ≢ []
    → All OneLineRow rows
    → split_on 10 (convert_rows html rows) ≡ table_lines (header_of rows) rows
convert_rows-lines html [] h all = absurd (h refl)
convert_rows-lines html (row ∷ rows) h all =
    split-lines _ (table_lines-ne-nil (header_of (row ∷ rows)) row rows) (
      table_lines-OneLine (header_of (row ∷ rows)) (row ∷ rows) (header_of-OneLine (row ∷ rows) all)
        all)
