-- ===== src/Chunker/Split/Ceiling.antt =====
-- The ceiling of the split of src/ingestion/chunker.ts: a body passes it only for a fence, for a
-- table or for a single line.
use docent.Base.{
  ℕ, ◌≡◌, refl, sym, ap, ◌∙◌, Bool, true, false, not, ◌&&◌, ◌||◌, List, [], ◌∷◌, ◌++◌, append-nil,
  append_assoc, arith, ltb, leb, if_elim, length, concat, Text, join,
}
use docent.Chunker.Split.{
  is_blank, newline, Output, flush, push, Trackers, new_trackers, Scan, scan_line,
  flush_before_table, flush_at_ceiling, flush_at_break, take_line, split_loop,
  split_at_safe_boundaries,
}
use docent.Chunker.Split.Groups.{
  kept, run, run-append, AllFrom, Progress, flush_buffer, flush-Progress, push-Progress, no_output,
  split_partition,
}

module _ (count_tokens : Text → ℕ) where
  -- A line that may not be cut from its neighbours: it belongs to a fence or to a table.
  abbrev is_atomic : Scan → Bool
  is_atomic scan = scan.fence_marker || scan.trackers.fence.inside_fence || scan.inside

  abbrev has_atomic : Trackers → List Text → Bool
  has_atomic t [] = false
  has_atomic t (line ∷ lines) =
      is_atomic (scan_line count_tokens t line)
      || has_atomic (scan_line count_tokens t line).trackers lines

  has_atomic-push :
      (t : Trackers) (group : List Text) (line : Text)
      → has_atomic t (group ++ (line ∷ []))
        ≡ (has_atomic t group || is_atomic (scan_line count_tokens (run count_tokens t group) line))
  has_atomic-push t [] line = ground arith
  has_atomic-push t (x ∷ group) line =
      ground (arith, has_atomic-push (scan_line count_tokens t x).trackers group line)

  module _ (target_tokens max_tokens : ℕ) where
    -- A group of one line, or with an atomic line, or within the ceiling.
    abbrev pub KeepsCeiling : Trackers → List Text → Type 0
    KeepsCeiling t group =
        (leb (length group) 1
          || has_atomic t group
          || leb (count_tokens (join newline group)) max_tokens)
        ≡ true

    record CeilingState (lines : List Text) (t : Trackers) (out : Output) : Type 0 where
      progress : Progress count_tokens KeepsCeiling lines out
      reached : t ≡ run count_tokens new_trackers lines

    flush-CeilingState :
        (lines : List Text) (t : Trackers) (out : Output)
        → CeilingState lines t out
        → CeilingState lines t (flush out)
    flush-CeilingState lines t out s = record {
      progress = flush-Progress count_tokens KeepsCeiling lines out (λ _. refl) s.progress;
      reached = s.reached;
    }

    -- Why a line may be pushed: it is atomic, or it is the first, or it fits.
    abbrev MayPush : Trackers → Output → Text → Type 0
    MayPush t out line =
        (is_atomic (scan_line count_tokens t line)
          || not (ltb 0 (length out.buffer))
          || leb (count_tokens (join newline (out.buffer ++ (line ∷ [])))) max_tokens)
        ≡ true

    KeepsCeiling-push :
        (t : Trackers) (buffer : List Text) (line : Text)
        → (is_atomic (scan_line count_tokens (run count_tokens t buffer) line)
            || not (ltb 0 (length buffer))
            || leb (count_tokens (join newline (buffer ++ (line ∷ [])))) max_tokens)
          ≡ true
        → KeepsCeiling t (buffer ++ (line ∷ []))
    KeepsCeiling-push t [] line h = refl
    KeepsCeiling-push t (x ∷ buffer) line h =
        rw (has_atomic-push t (x ∷ buffer) line) (ground arith)

    push-CeilingState :
        (lines : List Text) (t : Trackers) (out : Output) (line : Text)
        → CeilingState lines t out
        → MayPush t out line
        → CeilingState
            (lines ++ (line ∷ []))
            (scan_line count_tokens t line).trackers
            (push line out)
    push-CeilingState lines t out line s h = record {
      progress = push-Progress count_tokens KeepsCeiling lines out line s.progress (
          KeepsCeiling-push (run count_tokens new_trackers (concat s.progress.groups)) out.buffer
            line (rw (← here) h));
      reached = rw (run-append, ← s.reached);
    }
      where
        here :
            t
            ≡ run count_tokens (run count_tokens new_trackers (concat s.progress.groups)) out.buffer
        here =
            s.reached
            ∙ ap (run count_tokens new_trackers) (sym s.progress.lines_eq)
            ∙ run-append count_tokens new_trackers (concat s.progress.groups) out.buffer

    before_table-CeilingState :
        (lines : List Text) (t : Trackers) (out : Output) (scan : Scan)
        → CeilingState lines t out
        → CeilingState lines t (flush_before_table count_tokens target_tokens max_tokens scan out)
    unfolding flush_before_table
    before_table-CeilingState lines t out scan s =
        if_elim (CeilingState lines t) _ (flush out) out (λ _. flush-CeilingState lines t out s)
          (λ _. s)

    at_break-CeilingState :
        (lines : List Text) (t : Trackers) (out : Output) (scan : Scan) (line : Text)
        → CeilingState lines t out
        → CeilingState lines t (flush_at_break count_tokens target_tokens max_tokens scan line out)
    unfolding flush_at_break
    at_break-CeilingState lines t out scan line s =
        if_elim (CeilingState lines t) scan.trackers.fence.inside_fence out _ (λ _. s)
          λ _.
            if_elim (CeilingState lines t)
              (is_blank line && leb target_tokens (count_tokens (join newline out.buffer)))
              (flush out) out (λ _. flush-CeilingState lines t out s) (λ _. s)

    at_ceiling-CeilingState :
        (lines : List Text) (t : Trackers) (out : Output) (line : Text)
        → CeilingState lines t out
        → let out' =
            flush_at_ceiling count_tokens target_tokens max_tokens
              (scan_line count_tokens t line)
              line
              out in
          CeilingState lines t out' × MayPush t out' line
    unfolding flush_at_ceiling
    at_ceiling-CeilingState lines t out line s =
        if_elim (λ o. CeilingState lines t o × MayPush t o line) _ (flush out) out
          (λ _. (flush-CeilingState lines t out s, rw flush_buffer (ground arith)))
          (λ c. (s, ground arith))

    take_line-CeilingState :
        (lines : List Text) (t : Trackers) (out : Output) (line : Text)
        → CeilingState lines t out
        → let scan = scan_line count_tokens t line in
          CeilingState
            (lines ++ (line ∷ []))
            scan.trackers
            (take_line count_tokens target_tokens max_tokens scan line out)
    unfolding take_line
    take_line-CeilingState lines t out line s =
        if_elim Good scan.fence_marker (push line out') _
          (λ m. push-CeilingState lines t out' line before (ground arith))
          λ m.
            if_elim Good (not scan.trackers.fence.inside_fence && scan.inside) (push line out') _
              (λ i. push-CeilingState lines t out' line before (ground arith))
              λ _.
                let (s', h) = at_ceiling-CeilingState lines t out' line before in
                at_break-CeilingState (lines ++ (line ∷ [])) scan.trackers
                  (push line
                    (flush_at_ceiling count_tokens target_tokens max_tokens scan line out'))
                  scan line (push-CeilingState lines t _ line s' h)
      where
        scan : Scan
        scan = scan_line count_tokens t line

        Good : Output → Type 0
        Good = CeilingState (lines ++ (line ∷ [])) (scan_line count_tokens t line).trackers

        out' : Output
        out' = flush_before_table count_tokens target_tokens max_tokens scan out

        before : CeilingState lines t out'
        before = before_table-CeilingState lines t out scan s

    split_loop-CeilingState :
        (seen : List Text) (t : Trackers) (out : Output) (lines : List Text)
        → CeilingState seen t out
        → Progress count_tokens KeepsCeiling
            (seen ++ lines)
            (split_loop count_tokens target_tokens max_tokens t out lines)
    unfolding split_loop
    split_loop-CeilingState seen t out [] s =
        rw append-nil (flush-CeilingState seen t out s).progress
    split_loop-CeilingState seen t out (line ∷ lines) s =
        let rest =
          split_loop-CeilingState (seen ++ (line ∷ [])) _ _ lines
            (take_line-CeilingState seen t out line s) in
        rw append_assoc at rest

    -- The bodies come from a partition of the lines into consecutive groups, of which only the
    -- blank ones are dropped, and a group has more tokens than the ceiling only if it is a single
    -- line or one of its lines belongs to a fence or to a table.
    pub split-KeepsCeiling :
        (lines : List Text)
        → (groups : List (List Text)) × (concat groups ≡ lines)
          × (split_at_safe_boundaries count_tokens target_tokens max_tokens lines ≡ kept groups)
          × AllFrom count_tokens KeepsCeiling new_trackers groups
    split-KeepsCeiling lines =
        split_partition count_tokens target_tokens max_tokens KeepsCeiling lines (
          split_loop-CeilingState [] new_trackers no_output lines (record {
            progress = record {
              groups = [];
              lines_eq = refl;
              bodies_eq = refl;
              all = tt;
              current = refl;
            };
            reached = refl;
          }))
