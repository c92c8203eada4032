-- ===== src/Chunker/Split.antt =====
-- `splitAtSafeBoundaries`, `foldShortTrailingBody` and `splitOversizedSection` of
-- src/ingestion/chunker.ts.
pub mod Groups
pub mod Safe
pub mod Ceiling
use docent.Base.{
  ℕ, Bool, not, ◌&&◌, ◌||◌, List, [], ◌∷◌, ◌++◌, ltb, leb, ◌==◌, if◌then◌else◌, length, Text, trim,
  join,
}
use docent.Chunker.Lines.{is_md_table_row, opens_table}
use docent.Chunker.Trackers.{
  Fence, Table, MdTable, new_fence, new_table, new_md_table, consume_fence, consume_table,
  consume_md_table,
}

abbrev pub newline : Text
newline = 10 ∷ []

abbrev pub is_blank : Text → Bool
is_blank s = length (trim s) == 0

-- The bodies pushed so far, and the buffer.
pub record Output : Type 0 where
  pub bodies : List Text
  pub buffer : List Text

unfoldable pub flush : Output → Output
flush out =
    if not (is_blank (join [] out.buffer))
    then record { bodies = out.bodies ++ (join newline out.buffer ∷ []); buffer = [] }
    else record out { buffer = [] }

abbrev pub push : Text → Output → Output
push line out = record out { buffer = out.buffer ++ (line ∷ []) }

pub record Trackers : Type 0 where
  pub fence : Fence
  pub table : Table
  pub md_table : MdTable

abbrev pub new_trackers : Trackers
new_trackers = record { fence = new_fence; table = new_table; md_table = new_md_table }

-- What one round of the loop learns of its line from the trackers.
pub record Scan : Type 0 where
  pub trackers : Trackers
  pub fence_marker : Bool
  pub opens : Bool
  pub inside : Bool

module _ (count_tokens : Text → ℕ) where
  unfoldable pub scan_line : Trackers → Text → Scan
  scan_line t line =
      let (fence, fence_marker) = consume_fence t.fence line in
      let is_row = is_md_table_row line in
      let may_open_html =
        not fence.inside_fence
        && not t.table.inside_table
        && not (t.md_table.inside_table && is_row) in
      let may_open_md =
        not fence.inside_fence && not t.table.inside_table && not t.md_table.inside_table in
      let (table, inside_table) = consume_table count_tokens t.table line may_open_html in
      let (md_table, inside_md_table) = consume_md_table count_tokens t.md_table line may_open_md in
      record {
        trackers = record { fence = fence; table = table; md_table = md_table };
        fence_marker = fence_marker;
        opens = may_open_html && opens_table line || may_open_md && is_row;
        inside = inside_table || inside_md_table;
      }

  module _ (target_tokens max_tokens : ℕ) where
    -- The flush before a table opens.
    pub flush_before_table : Scan → Output → Output
    flush_before_table scan out =
        if scan.opens
          && ltb 0 (length out.buffer)
          && leb target_tokens (count_tokens (join newline out.buffer))
        then flush out
        else out

    -- The flush that keeps the ceiling.
    pub flush_at_ceiling : Scan → Text → Output → Output
    flush_at_ceiling scan line out =
        if not scan.trackers.fence.inside_fence
          && ltb 0 (length out.buffer)
          && ltb max_tokens (count_tokens (join newline (out.buffer ++ (line ∷ []))))
        then flush out
        else out

    -- The flush at a blank line.
    pub flush_at_break : Scan → Text → Output → Output
    flush_at_break scan line out =
        if scan.trackers.fence.inside_fence
        then out
        else if is_blank line && leb target_tokens (count_tokens (join newline out.buffer))
        then flush out
        else out

    unfoldable pub take_line : Scan → Text → Output → Output
    take_line scan line out =
        let out' = flush_before_table scan out in
        if scan.fence_marker
        then push line out'
        else if not scan.trackers.fence.inside_fence && scan.inside
        then push line out'
        else flush_at_break scan line (push line (flush_at_ceiling scan line out'))

    -- The loop and the flush behind it.
    pub split_loop : Trackers → Output → List Text → Output
    split_loop t out [] = flush out
    split_loop t out (line ∷ lines) =
        let scan = scan_line t line in split_loop scan.trackers (take_line scan line out) lines

    unfoldable pub split_at_safe_boundaries : List Text → List Text
    unfolding split_loop take_line flush_at_break flush_at_ceiling flush_before_table
    split_at_safe_boundaries lines =
        (split_loop new_trackers (record { bodies = []; buffer = [] }) lines).bodies

  unfoldable pub fold_short_trailing_body : ℕ → ℕ → List Text → List Text
  fold_short_trailing_body min_tokens max_tokens [] = []
  fold_short_trailing_body min_tokens max_tokens (last ∷ []) = last ∷ []
  fold_short_trailing_body min_tokens max_tokens (previous ∷ last ∷ []) =
      let combined = previous ++ newline ++ last in
      if leb min_tokens (count_tokens last)
      then previous ∷ last ∷ []
      else if ltb max_tokens (count_tokens combined)
      then previous ∷ last ∷ []
      else combined ∷ []
  fold_short_trailing_body min_tokens max_tokens (body ∷ next ∷ further ∷ bodies) =
      body ∷ fold_short_trailing_body min_tokens max_tokens (next ∷ further ∷ bodies)

  unfoldable pub split_oversized_section : ℕ → ℕ → ℕ → List Text → List Text
  split_oversized_section target_tokens max_tokens min_tokens lines =
      let whole = join newline lines in
      if leb (count_tokens whole) max_tokens
      then whole ∷ []
      else fold_short_trailing_body min_tokens max_tokens
          (split_at_safe_boundaries target_tokens max_tokens lines)
