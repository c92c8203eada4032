-- ===== src/Ingestion/HtmlTable/Conversion.antt =====
-- What a table is converted to: src/ingestion/html-table.ts.
use mathlib.Core.Path.{subst}
use docent.Base.{
  ℕ, zero, suc, ◌≡◌, refl, sym, ap, inl, inr, true, false, not, Bool-cases, Option, none, some,
  List, [], ◌∷◌, ◌++◌, map, length, keep, All, Text, codes, join, split_on,
}
use docent.Ingestion.HtmlTable.{
  Row, parse_rows, header_of, table_lines, dashes, convert_rows, convert_html_table,
}
use docent.Ingestion.HtmlTable.Lines.{OneLineRow, parse_rows-OneLine, convert_rows-lines}

-- A line of a table in Markdown.
abbrev between_bars : List Text → Text
between_bars cells = codes "| " ++ (join (codes " | ") cells ++ codes " |")

repeated : ℕ → Text → List Text
repeated zero s = []
repeated (suc n) s = s ∷ repeated n s

-- The lines below the rule: one for each row without a `th` cell, in their order.
data AreBody : List Row → List Text → Type 0 where
  no_rows : AreBody [] []
  header_row :
      (row : Row) {rows : List Row} {lines : List Text}
      → row.is_header ≡ true
      → AreBody rows lines
      → AreBody (row ∷ rows) lines
  body_row :
      (row : Row) {rows : List Row} {lines : List Text}
      → row.is_header ≡ false
      → AreBody rows lines
      → AreBody (row ∷ rows) (between_bars row.cells ∷ lines)

-- The items for rows of which none has a `th` cell.
data AreItems : List Row → List Text → Type 0 where
  no_items : AreItems [] []
  item :
      (row : Row) {rows : List Row} {lines : List Text}
      → row.is_header ≡ false
      → AreItems rows lines
      → AreItems (row ∷ rows) ((codes "- " ++ join (codes " — ") row.cells) ∷ lines)

abbrev IsPlain : Row → Type 0
IsPlain row = row.is_header ≡ false

-- The lines of a table with a header row, the first of the rows with a `th` cell, or of one
-- without.
data AreLines : List Row → List Text → Type 0 where
  with_header :
      (before : List Row) (header : Row) (after : List Row) {body : List Text}
      → All IsPlain before
      → header.is_header ≡ true
      → AreBody (before ++ (header ∷ after)) body
      → AreLines (before ++ (header ∷ after)) (
          between_bars header.cells
          ∷ between_bars (repeated (length header.cells) (codes "---"))
          ∷ body)
  without_header : {rows : List Row} {lines : List Text} → AreItems rows lines → AreLines rows lines

-- A text in which no row was read is left as it is.
pub IsConversion : Text → List Row → Text → Type 0
IsConversion html [] result = result ≡ html
IsConversion html (row ∷ rows) result = AreLines (row ∷ rows) (split_on 10 result)

dashes-repeated : (cells : List Text) → dashes cells ≡ repeated (length cells) (codes "---")
unfolding repeated
dashes-repeated [] = refl
dashes-repeated (cell ∷ cells) = ap (λ (ds : List Text). codes "---" ∷ ds) (dashes-repeated cells)

body-AreBody :
    (rows : List Row)
    → AreBody rows
        (map (λ (row : Row). between_bars row.cells) (keep (λ (row : Row). not row.is_header) rows))
body-AreBody [] = no_rows
body-AreBody (row ∷ rows) = elim (Bool-cases row.is_header) [
  | inl e ↦ simp e (header_row row e (body-AreBody rows))
  | inr e ↦ simp e (body_row row e (body-AreBody rows))
]

-- Where the header is found: behind rows that are none.
data Found : List Row → Option Row → Type 0 where
  found :
      (before : List Row) (header : Row) (after : List Row)
      → All IsPlain before
      → header.is_header ≡ true
      → Found (before ++ (header ∷ after)) (some header)
  missing : {rows : List Row} → All IsPlain rows → Found rows none

after_plain :
    (row : Row) {rows : List Row} {header : Option Row}
    → row.is_header ≡ false
    → Found rows header
    → Found (row ∷ rows) header
after_plain row e (found before header after all h) = found (row ∷ before) header after (e, all) h
after_plain row e (missing all) = missing (e, all)

header_of-Found : (rows : List Row) → Found rows (header_of rows)
header_of-Found [] = missing tt
header_of-Found (row ∷ rows) = elim (Bool-cases row.is_header) [
  | inl e ↦ simp e (found [] row rows tt e)
  | inr e ↦ simp e (after_plain row e (header_of-Found rows))
]

items-AreItems : (rows : List Row) → All IsPlain rows → AreItems rows (table_lines none rows)
items-AreItems [] all = no_items
items-AreItems (row ∷ rows) (e, all) = item row e (items-AreItems rows all)

table_lines-AreLines :
    (rows : List Row) {header : Option Row}
    → Found rows header
    → AreLines rows (table_lines header rows)
table_lines-AreLines rows (found before header after all h) =
    rw (dashes-repeated header.cells)
      (with_header before header after all h (body-AreBody (before ++ (header ∷ after))))
table_lines-AreLines rows (missing all) = without_header (items-AreItems rows all)

convert_rows-IsConversion :
    (html : Text) (rows : List Row)
    → All OneLineRow rows
    → IsConversion html rows (convert_rows html rows)
unfolding IsConversion
convert_rows-IsConversion html [] all = refl
convert_rows-IsConversion html (row ∷ rows) all =
    subst (AreLines (row ∷ rows)) (sym (convert_rows-lines html (row ∷ rows) (λ e. cc) all))
      (table_lines-AreLines (row ∷ rows) (header_of-Found (row ∷ rows)))

-- A table in which no row with cells is read stays as it is. Any other is converted to exactly
-- these lines: for a table with a row that has a `th` cell, the first such row between bars, a
-- rule with as many dashes as it has cells, and between bars each row without a `th` cell in
-- order, while further rows with one are dropped; for a table without, one item for each row. No
-- cell breaks a line.
pub convert_html_table-IsConversion :
    (html : Text) → IsConversion html (parse_rows html) (convert_html_table html)
unfolding convert_html_table
convert_html_table-IsConversion html =
    convert_rows-IsConversion html (parse_rows html) (parse_rows-OneLine html)
