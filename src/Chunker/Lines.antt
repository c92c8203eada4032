-- ===== src/Chunker/Lines.antt =====
-- The line tests of src/ingestion/chunker.ts and src/ingestion/html-table.ts, which are regular
-- expressions there. A line is a text without a line feed.
use mathlib.Core.Option
use docent.Base.{
  ℕ, suc, ◌+◌, Bool, true, false, ◌&&◌, ◌||◌, Option, none, some, [], ◌∷◌, leb, ◌==◌, if◌then◌else◌,
  all_of, Text, codes, is_space, starts_with,
}

-- `QUOTE_PREFIX` and the count of `>` in what it matches: the greedy prefix is the longest run
-- of white space and `>` that ends in `>`.
unfoldable pub quote_depth : Text → ℕ
quote_depth [] = 0
quote_depth (c ∷ line) =
    let rest = quote_depth line in if c == b'>' then suc rest else if is_space c then rest else 0

-- `FENCE`: behind any white space and `>` stand three backquotes.
unfoldable pub is_fence : Text → Bool
is_fence [] = false
is_fence (c ∷ line) =
    let rest = is_fence line in
    if c == b'>' || is_space c then rest else starts_with (c ∷ line) (codes "```")

-- `MD_TABLE_ROW`: the first character that is no white space is `|`.
unfoldable pub is_md_table_row : Text → Bool
is_md_table_row [] = false
is_md_table_row (c ∷ line) =
    let rest = is_md_table_row line in if is_space c then rest else c == b'|'

-- Case folding of the flag `i`, which takes no character outside ASCII to one inside.
lower : ℕ → ℕ
lower c = if leb 65 c && leb c 90 then c + 32 else c

-- What follows a prefix given in small letters, the case of the text ignored.
strip_tag : Text → Text → Option Text
unfolding lower
strip_tag [] line = some line
strip_tag (_ ∷ _) [] = none
strip_tag (t ∷ tag) (c ∷ line) = if lower c == t then strip_tag tag line else none

ends_tag_name : Option Text → Bool
ends_tag_name none = false
ends_tag_name (some []) = false
ends_tag_name (some (c ∷ _)) = is_space c || c == b'>'

-- `TABLE_OPEN`, found anywhere in the line.
unfoldable pub opens_table : Text → Bool
unfolding strip_tag ends_tag_name
opens_table [] = false
opens_table (c ∷ line) = ends_tag_name (strip_tag (codes "<table") (c ∷ line)) || opens_table line

is_found : Option Text → Bool
is_found none = false
is_found (some _) = true

-- `TABLE_CLOSE`, found anywhere in the line.
unfoldable pub closes_table : Text → Bool
unfolding strip_tag is_found
closes_table [] = false
closes_table (c ∷ line) = is_found (strip_tag (codes "</table>") (c ∷ line)) || closes_table line

-- The characters that `.` does not match.
unfoldable pub is_line_end : ℕ → Bool
is_line_end c = c == 10 || c == 13 || c == 0x2028 || c == 0x2029

-- `(.+?)\s*$`: the shortest capture behind which only white space stands.
lazy_title : Text → Option Text
lazy_title [] = none
lazy_title (c ∷ line) =
    let rest = Option.map (λ title. c ∷ title) (lazy_title line) in
    if is_line_end c then none else if all_of is_space line then some (c ∷ []) else rest

-- `\s+(.+?)\s*$`: the white space is taken greedily, and given back one by one.
spaced_title : Text → Option Text
spaced_title [] = none
spaced_title (c ∷ line) =
    let rest = Option.or_else (spaced_title line) (lazy_title line) in
    if is_space c then rest else none

pub strip_prefix : Text → Text → Option Text
strip_prefix [] line = some line
strip_prefix (_ ∷ _) [] = none
strip_prefix (p ∷ prefix) (c ∷ line) = if c == p then strip_prefix prefix line else none

-- `PAGE_HEADING` and `SECTION_HEADING`, with their captures.
unfoldable pub page_heading : Text → Option Text
unfolding strip_prefix spaced_title lazy_title is_line_end
page_heading line = Option.bind (strip_prefix (codes "###") line) spaced_title

unfoldable pub section_heading : Text → Option Text
unfolding strip_prefix spaced_title lazy_title is_line_end
section_heading line = Option.bind (strip_prefix (codes "####") line) spaced_title
