-- ===== src/Tests/Pages.antt =====
-- The tables and pages of the documentation at concrete texts.
use docent.Base.{
  ◌≡◌, refl, true, [], ◌∷◌, ◌++◌, Text, codes, is_space, trim, text_eq, starts_with, join,
  replace_from, matches_from, literal, literal_i, run_of, up_to, before, is_digit, read_from,
  digits_from,
}
use docent.Ingestion.HtmlTable.{convert_html_table, parse_rows}
use docent.Ingestion.HtmlTable.Conversion.{IsConversion, convert_html_table-IsConversion}
use docent.Ingestion.Cleaner.{
  is_fence, filename_directive, is_switch_directive, strip_decorative_markup, new_cleaner,
  clean_lines, clean_markdown,
}
use docent.Ingestion.Cleaner.Fences.{example, IsExample, clean_lines-example}
use docent.Ingestion.Cleaner.Blank.{HasNoBlankRun, clean_markdown-HasNoBlankRun}

abbrev a_table : Text
a_table = codes "<tr><th>A</tr>"

a_table_rows : parse_rows a_table ≡ record { is_header = true; cells = codes "A" ∷ [] } ∷ []
unfolding parse_rows replace_from matches_from literal literal_i run_of up_to before is_space trim
a_table_rows = refl

convert_html_table-IsConversion_example :
    IsConversion a_table (parse_rows a_table) (convert_html_table a_table)
convert_html_table-IsConversion_example = convert_html_table-IsConversion a_table

-- The row with a header cell below the first header row is dropped.
second_header :
    convert_html_table (codes "<tr><th>A</tr><tr><th>x<td>1</tr><tr><td>b</tr>")
    ≡ join (10 ∷ []) (codes "| A |" ∷ codes "| --- |" ∷ codes "| b |" ∷ [])
unfolding convert_html_table parse_rows replace_from matches_from literal literal_i run_of up_to
    before is_space trim join
second_header = refl

strip_figure : strip_decorative_markup (codes "<figure>`b`</figure>`c`") ≡ codes "`c`"
unfolding strip_decorative_markup replace_from literal run_of up_to digits_from matches_from
    is_digit read_from
strip_figure = refl

-- A span that encloses a fence keeps the placeholder of the fence.
enclosed_fence :
    strip_decorative_markup (codes "`a ```x``` b`")
    ≡ codes "`a " ++ (0xe001 ∷ b'0' ∷ 0xe001 ∷ codes " b`")
unfolding strip_decorative_markup replace_from literal run_of up_to digits_from matches_from
    is_digit read_from
enclosed_fence = refl

-- An example in both languages: the JavaScript is dropped.
abbrev opening : Text
opening = codes "```typescript"

abbrev directive : Text
directive = codes "@@filename(a.ts)"

abbrev marker : Text
marker = codes "@@switch"

lines-IsExample :
    IsExample opening directive
      (codes "a.ts")
      (codes "let a: A;" ∷ [])
      marker
      (codes "var a;" ∷ [])
      (codes "```")
unfolding is_fence filename_directive is_switch_directive trim is_space starts_with literal run_of
    text_eq
lines-IsExample =
    (refl, (refl, (refl, (((refl, (refl, refl)), tt), (refl, (refl, (refl, ((refl, tt), refl))))))))

clean_lines-example_example :
    clean_lines
      (example opening directive (codes "let a: A;" ∷ []) marker (codes "var a;" ∷ []) (codes "```")
        ++ (codes "Behind." ∷ []))
      new_cleaner
    ≡ clean_lines (codes "Behind." ∷ []) (record new_cleaner {
      filenames = codes "a.ts" ∷ [];
      output = opening ∷ codes "let a: A;" ∷ codes "```" ∷ [];
    })
clean_lines-example_example =
    clean_lines-example new_cleaner opening directive (codes "a.ts") (codes "let a: A;" ∷ []) marker
      (codes "var a;" ∷ []) (codes "```") (codes "Behind." ∷ []) (refl, (refl, refl))
      lines-IsExample

clean_markdown-HasNoBlankRun_example : HasNoBlankRun (clean_markdown (codes "a\n\n\n\nb")).content
clean_markdown-HasNoBlankRun_example = clean_markdown-HasNoBlankRun (codes "a\n\n\n\nb")
