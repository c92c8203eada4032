-- ===== src/Chunker/Trackers.antt =====
-- The three trackers of src/ingestion/chunker.ts: fenced code, HTML tables, pipe tables. A tracker
-- is a record, and `consume` returns the new record with the method's result.
use docent.Base.{ℕ, ◌+◌, ◌*◌, Bool, true, false, not, ◌&&◌, ◌||◌, ltb, ◌==◌, if◌then◌else◌, Text}
use docent.Chunker.Lines.{quote_depth, is_fence, is_md_table_row, opens_table, closes_table}

pub record Fence : Type 0 where
  pub inside_fence : Bool
  pub open_depth : ℕ

abbrev pub new_fence : Fence
new_fence = record { inside_fence = false; open_depth = 0 }

-- A quote that ends closes the fence that was opened in it.
leave_quote : Fence → Text → Fence
leave_quote f line =
    if f.inside_fence && ltb (quote_depth line) f.open_depth
    then record f { inside_fence = false }
    else f

unfoldable pub consume_fence : Fence → Text → Fence × Bool
unfolding leave_quote
consume_fence f line =
    let f' = leave_quote f line in
    if not (is_fence line)
    then (f', false)
    else if not f'.inside_fence
    then (record { inside_fence = true; open_depth = quote_depth line }, true)
    else if quote_depth line == f'.open_depth
    then (record f' { inside_fence = false }, true)
    else (f', true)

abbrev pub default_max_tokens : ℕ
default_max_tokens = 1200

-- `UNCLOSED_TABLE_TOKEN_BOUND`
abbrev pub unclosed_table_token_bound : ℕ
unclosed_table_token_bound = 5 * default_max_tokens

pub record Table : Type 0 where
  pub inside_table : Bool
  pub open_depth : ℕ
  pub tokens_since_open : ℕ

abbrev pub new_table : Table
new_table = record { inside_table = false; open_depth = 0; tokens_since_open = 0 }

pub record MdTable : Type 0 where
  pub inside_table : Bool
  pub tokens_since_open : ℕ

abbrev pub new_md_table : MdTable
new_md_table = record { inside_table = false; tokens_since_open = 0 }

-- `count_tokens` is the tokeniser of the package gpt-tokenizer.
module _ (count_tokens : Text → ℕ) where
  -- The first test of the method: the quote has ended, or the bound is passed.
  leave_table : Table → Text → Table
  leave_table t line =
      if t.inside_table
        && (ltb (quote_depth line) t.open_depth
            || ltb unclosed_table_token_bound t.tokens_since_open)
      then record t { inside_table = false }
      else t

  enter_table : Table → Text → Bool → Table
  enter_table t line may_open =
      if not t.inside_table && may_open && opens_table line
      then record { inside_table = true; open_depth = quote_depth line; tokens_since_open = 0 }
      else t

  unfoldable pub consume_table : Table → Text → Bool → Table × Bool
  unfolding leave_table enter_table
  consume_table t line may_open =
      let t' = enter_table (leave_table t line) line may_open in
      if t'.inside_table
      then (
        record t' {
          inside_table = not (closes_table line);
          tokens_since_open = t'.tokens_since_open + count_tokens line;
        },
        true,
      )
      else (t', false)

  leave_md_table : MdTable → MdTable
  leave_md_table m =
      if m.inside_table && ltb unclosed_table_token_bound m.tokens_since_open
      then record m { inside_table = false }
      else m

  enter_md_table : MdTable → Bool → Bool → MdTable
  enter_md_table m may_open is_row =
      if not m.inside_table && may_open && is_row
      then record { inside_table = true; tokens_since_open = 0 }
      else if m.inside_table && not is_row
      then record m { inside_table = false }
      else m

  unfoldable pub consume_md_table : MdTable → Text → Bool → MdTable × Bool
  unfolding leave_md_table enter_md_table
  consume_md_table m line may_open =
      let is_row = is_md_table_row line in
      let m' = enter_md_table (leave_md_table m) may_open is_row in
      if m'.inside_table && is_row
      then (record m' { tokens_since_open = m'.tokens_since_open + count_tokens line }, true)
      else (m', false)
