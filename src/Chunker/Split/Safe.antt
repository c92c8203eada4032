-- ===== src/Chunker/Split/Safe.antt =====
-- No boundary that the split of src/ingestion/chunker.ts chooses cuts a fence, an HTML table or a
-- pipe table in two.
use docent.Base.{
  ℕ, ◌≡◌, refl, sym, ap, ◌∙◌, ◌≢◌, Bool, true, false, not, ◌&&◌, ◌||◌, List, [], ◌∷◌, ◌++◌,
  append-nil, append_assoc, arith, leb, if_elim, length, concat, all_of, All, Text, is_space,
  trim_start, trim_end, trim, starts_with,
}
use docent.Chunker.Lines.{quote_depth, is_fence, is_md_table_row, opens_table}
use docent.Chunker.Trackers.{
  consume_fence, consume_table, consume_md_table, unclosed_table_token_bound,
}
use docent.Chunker.Split.{
  is_blank, Output, flush, push, Trackers, new_trackers, Scan, scan_line, flush_before_table,
  flush_at_ceiling, flush_at_break, take_line, split_loop, split_at_safe_boundaries,
}
use docent.Chunker.Split.Groups.{
  kept, run, run-append, AllFrom, Progress, flush-Progress, push-Progress, no_output,
  split_partition,
}

and_true_left : (a b : Bool) → a && b ≡ true → a ≡ true
and_true_left a b h = ground arith

and_false_right : (a b : Bool) → not a && b ≡ false → a ≡ false → b ≡ false
and_false_right a b h e = ground arith

not-true : (a : Bool) → not a ≡ true → a ≡ false
not-true a h = ground arith

-- A region that is open before a line goes on through it: the line does not end the quote the
-- region stands in, a table has not passed its bound, and a pipe table goes on by a row.
abbrev continues : Trackers → Text → Bool
continues t line =
    t.fence.inside_fence && leb t.fence.open_depth (quote_depth line)
    || (t.table.inside_table
        && leb t.table.open_depth (quote_depth line)
        && leb t.table.tokens_since_open unclosed_table_token_bound)
    || (t.md_table.inside_table
        && leb t.md_table.tokens_since_open unclosed_table_token_bound
        && is_md_table_row line)

-- A group that begins at these trackers does not begin inside a region.
abbrev pub BeginsOutside : Trackers → List Text → Type 0
BeginsOutside t [] = Unit
BeginsOutside t (line ∷ _) = continues t line ≡ false

fence-not-row : (line : Text) → is_fence line ≡ true → is_md_table_row line ≡ false
unfolding is_fence is_md_table_row starts_with is_space
fence-not-row [] h = refl
fence-not-row (c ∷ line) h = ground (arith, fence-not-row line)

blank-not-row : (line : Text) → all_of is_space line ≡ true → is_md_table_row line ≡ false
unfolding is_md_table_row
blank-not-row [] h = refl
blank-not-row (c ∷ line) h = ground (arith, blank-not-row line)

trim_end-empty : (s : Text) → length (trim_end s) ≡ 0 → all_of is_space s ≡ true
unfolding trim_end
trim_end-empty [] h = refl
trim_end-empty (c ∷ s) h = ground arith

trim_start-all : (s : Text) → all_of is_space (trim_start s) ≡ true → all_of is_space s ≡ true
unfolding trim_start
trim_start-all [] h = refl
trim_start-all (c ∷ s) h = ground (arith, trim_start-all s)

is_blank-not-row : (line : Text) → is_blank line ≡ true → is_md_table_row line ≡ false
unfolding trim
is_blank-not-row line h =
    blank-not-row line (trim_start-all line (trim_end-empty (trim_start line) (ground arith)))

module _ (count_tokens : Text → ℕ) where
  -- What the flush before a table and the flush at the ceiling know of the region before.
  opens-outside :
      (t : Trackers) (line : Text)
      → (is_fence line ≡ true → opens_table line ≡ false)
      → (scan_line count_tokens t line).opens ≡ true
      → continues t line ≡ false
  unfolding scan_line consume_fence
  opens-outside t line h o = ground (arith, fence-not-row line)

  scan-outside :
      (t : Trackers) (line : Text)
      → (scan_line count_tokens t line).fence_marker ≡ false
      → (scan_line count_tokens t line).trackers.fence.inside_fence ≡ false
      → (scan_line count_tokens t line).inside ≡ false
      → continues t line ≡ false
  unfolding scan_line consume_fence consume_table consume_md_table
  scan-outside t line m f i = ground arith

  -- After a blank line outside all regions nothing is open.
  blank-outside :
      (t : Trackers) (line next : Text)
      → (scan_line count_tokens t line).trackers.fence.inside_fence ≡ false
      → (scan_line count_tokens t line).inside ≡ false
      → is_md_table_row line ≡ false
      → continues (scan_line count_tokens t line).trackers next ≡ false
  unfolding scan_line consume_table consume_md_table
  blank-outside t line next f i b = ground arith

  BeginsOutside-push :
      (t : Trackers) (buffer : List Text) (line : Text)
      → BeginsOutside t buffer
      → (buffer ≡ [] → continues t line ≡ false)
      → BeginsOutside t (buffer ++ (line ∷ []))
  BeginsOutside-push t [] line h e = e refl
  BeginsOutside-push t (_ ∷ _) line h e = h

  -- The progress of the loop, with the trackers that it has reached.
  record SafeState (lines : List Text) (t : Trackers) (out : Output) : Type 0 where
    progress : Progress count_tokens BeginsOutside lines out
    reached : t ≡ run count_tokens new_trackers lines

  abbrev Resumes : Trackers → Output → Text → Type 0
  Resumes t out line = out.buffer ≡ [] → continues t line ≡ false

  whole : (xs buffer : List Text) → buffer ≡ [] → xs ++ buffer ≡ xs
  whole xs buffer e = rw e (append-nil xs)

  push-SafeState :
      (lines : List Text) (t : Trackers) (out : Output) (line : Text)
      → SafeState lines t out
      → Resumes t out line
      → SafeState (lines ++ (line ∷ [])) (scan_line count_tokens t line).trackers (push line out)
  push-SafeState lines t out line s r = record {
    progress = push-Progress count_tokens BeginsOutside lines out line s.progress (
        BeginsOutside-push (run count_tokens new_trackers (concat s.progress.groups)) out.buffer
          line s.progress.current λ e. rw (← start e) (r e));
    reached = rw (run-append, ← s.reached);
  }
    where
      start : out.buffer ≡ [] → t ≡ run count_tokens new_trackers (concat s.progress.groups)
      start e =
          s.reached
          ∙ ap (run count_tokens new_trackers)
              (sym s.progress.lines_eq ∙ whole (concat s.progress.groups) out.buffer e)

  flush-SafeState :
      (lines : List Text) (t : Trackers) (out : Output)
      → SafeState lines t out
      → SafeState lines t (flush out)
  flush-SafeState lines t out s = record {
    progress = flush-Progress count_tokens BeginsOutside lines out (λ _. tt) s.progress;
    reached = s.reached;
  }

  push-buffer : (line : Text) (out : Output) → (push line out).buffer ≢ []
  push-buffer line out h = nonempty out.buffer h
    where
      nonempty : (xs : List Text) → xs ++ (line ∷ []) ≢ []
      nonempty [] h = cc
      nonempty (_ ∷ _) h = cc

  module _ (target_tokens max_tokens : ℕ) where
    -- Each flush of a round keeps the state, and is made only outside all regions.
    before_table-SafeState :
        (lines : List Text) (t : Trackers) (out : Output) (line : Text)
        → (is_fence line ≡ true → opens_table line ≡ false)
        → SafeState lines t out
        → Resumes t out line
        → let out' =
            flush_before_table count_tokens target_tokens max_tokens
              (scan_line count_tokens t line)
              out in
          SafeState lines t out' × Resumes t out' line
    unfolding flush_before_table
    before_table-SafeState lines t out line h s r =
        if_elim (λ o. SafeState lines t o × Resumes t o line) _ (flush out) out
          (λ c. (
            flush-SafeState lines t out s,
            λ _. opens-outside t line h (and_true_left _ _ (and_true_left _ _ c)),
          ))
          (λ _. (s, r))

    ceiling-SafeState :
        (lines : List Text) (t : Trackers) (out : Output) (line : Text)
        → (scan_line count_tokens t line).fence_marker ≡ false
        → not (scan_line count_tokens t line).trackers.fence.inside_fence
            && (scan_line count_tokens t line).inside
          ≡ false
        → SafeState lines t out
        → Resumes t out line
        → let out' =
            flush_at_ceiling count_tokens target_tokens max_tokens
              (scan_line count_tokens t line)
              line
              out in
          SafeState lines t out' × Resumes t out' line
    unfolding flush_at_ceiling
    ceiling-SafeState lines t out line m i s r =
        if_elim (λ o. SafeState lines t o × Resumes t o line) _ (flush out) out
          (λ c. (
            flush-SafeState lines t out s,
            λ _.
                let f = not-true _ (and_true_left _ _ (and_true_left _ _ c)) in
                scan-outside t line m f (and_false_right _ _ i f),
          ))
          (λ _. (s, r))

    -- Behind a round: an empty buffer is met outside all regions only.
    abbrev Settled : List Text → Trackers → Output → Type 0
    Settled lines t out = SafeState lines t out × ((next : Text) → Resumes t out next)

    break-Settled :
        (lines : List Text) (t : Trackers) (out : Output) (line : Text)
        → not (scan_line count_tokens t line).trackers.fence.inside_fence
            && (scan_line count_tokens t line).inside
          ≡ false
        → SafeState lines (scan_line count_tokens t line).trackers out
        → out.buffer ≢ []
        → let scan = scan_line count_tokens t line in
          Settled lines scan.trackers
            (flush_at_break count_tokens target_tokens max_tokens scan line out)
    unfolding flush_at_break
    break-Settled lines t out line i s n =
        if_elim Good _ out _ (λ _. (s, stays))
          λ f.
            if_elim Good _ (flush out) out
              (λ b. (
                flush-SafeState lines _ out s,
                λ next _.
                    blank-outside t line next f (and_false_right _ _ i f)
                      (is_blank-not-row line (and_true_left _ _ b)),
              ))
              (λ _. (s, stays))
      where
        Good : Output → Type 0
        Good = Settled lines (scan_line count_tokens t line).trackers

        stays : (next : Text) → Resumes (scan_line count_tokens t line).trackers out next
        stays next e = absurd (n e)

    take_line-Settled :
        (lines : List Text) (t : Trackers) (out : Output) (line : Text)
        → (is_fence line ≡ true → opens_table line ≡ false)
        → Settled lines t out
        → let scan = scan_line count_tokens t line in
          Settled
            (lines ++ (line ∷ []))
            scan.trackers
            (take_line count_tokens target_tokens max_tokens scan line out)
    unfolding take_line
    take_line-Settled lines t out line h (s, r) =
        if_elim Good scan.fence_marker (push line out') _ (λ _. pushed)
          λ m.
            if_elim Good (not scan.trackers.fence.inside_fence && scan.inside) (push line out') _
              (λ _. pushed)
              λ i.
                let (s', r') = ceiling-SafeState lines t out' line m i before.0 before.1 in
                break-Settled (lines ++ (line ∷ [])) t
                  (push line
                    (flush_at_ceiling count_tokens target_tokens max_tokens scan line out'))
                  line i (push-SafeState lines t _ line s' r')
                  (push-buffer line
                    (flush_at_ceiling count_tokens target_tokens max_tokens scan line out'))
      where
        Good : Output → Type 0
        Good = Settled (lines ++ (line ∷ [])) (scan_line count_tokens t line).trackers

        scan : Scan
        scan = scan_line count_tokens t line

        out' : Output
        out' = flush_before_table count_tokens target_tokens max_tokens scan out

        before : SafeState lines t out' × Resumes t out' line
        before = before_table-SafeState lines t out line h s (r line)

        pushed : Settled (lines ++ (line ∷ [])) scan.trackers (push line out')
        pushed = (
          push-SafeState lines t out' line before.0 before.1,
          λ next e. absurd (push-buffer line out' e),
        )

    -- The settled states carry through the loop, and the last flush closes the groups.
    split_loop-Progress :
        (seen : List Text) (t : Trackers) (out : Output) (lines : List Text)
        → All (λ line. is_fence line ≡ true → opens_table line ≡ false) lines
        → Settled seen t out
        → Progress count_tokens BeginsOutside
            (seen ++ lines)
            (split_loop count_tokens target_tokens max_tokens t out lines)
    unfolding split_loop
    split_loop-Progress seen t out [] _ (s, r) =
        rw append-nil (flush-Progress count_tokens BeginsOutside seen out (λ _. tt) s.progress)
    split_loop-Progress seen t out (line ∷ lines) (h, hs) settled =
        let rest =
          split_loop-Progress (seen ++ (line ∷ [])) _ _ lines hs
            (take_line-Settled seen t out line h settled) in
        rw append_assoc at rest

    -- The bodies come from a partition of the lines into consecutive groups, of which only the
    -- blank ones are dropped, and no group after the first begins inside a fence, an HTML table or
    -- a pipe table that is open before it, provided that no fence marker holds a `<table` tag.
    pub split-BeginsOutside :
        (lines : List Text)
        → All (λ line. is_fence line ≡ true → opens_table line ≡ false) lines
        → (groups : List (List Text)) × (concat groups ≡ lines)
          × (split_at_safe_boundaries count_tokens target_tokens max_tokens lines ≡ kept groups)
          × AllFrom count_tokens BeginsOutside new_trackers groups
    split-BeginsOutside lines h =
        split_partition count_tokens target_tokens max_tokens BeginsOutside lines (
          split_loop-Progress [] new_trackers no_output lines h (
            record {
              progress = record {
                groups = [];
                lines_eq = refl;
                bodies_eq = refl;
                all = tt;
                current = tt;
              };
              reached = refl;
            },
            λ next _. refl,
          ))
