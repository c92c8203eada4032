-- ===== src/Chunker/Split/Groups.antt =====
-- The split of src/ingestion/chunker.ts seen as a partition of the lines into groups, each of
-- which is kept as a body or dropped as blank. A predicate on a group and on the trackers at its
-- first line is carried through the loop.
use docent.Base.{
  ℕ, ◌≡◌, refl, sym, ap, ◌∙◌, inl, inr, not, List, [], ◌∷◌, ◌++◌, map, append-nil, append_assoc,
  arith, if◌then◌else◌, Bool-cases, concat, keep, concat-append, Text, join,
}
use docent.Chunker.Split.{
  newline, is_blank, Output, flush, push, Trackers, new_trackers, scan_line, take_line, split_loop,
  split_at_safe_boundaries,
}

-- The bodies that groups of lines give.
abbrev pub kept : List (List Text) → List Text
kept groups = map (join newline) (keep (λ group. not (is_blank (join [] group))) groups)

kept-append :
    (groups : List (List Text)) (group : List Text)
    → kept (groups ++ (group ∷ []))
      ≡ kept groups ++ (if not (is_blank (join [] group)) then join newline group ∷ [] else [])
kept-append [] group = ground arith
kept-append (g ∷ groups) group = ground (arith, kept-append groups group)

flush_bodies :
    (out : Output) (groups : List (List Text))
    → out.bodies ≡ kept groups
    → (flush out).bodies ≡ kept (groups ++ (out.buffer ∷ []))
unfolding flush
flush_bodies out groups e = elim (Bool-cases (is_blank (join [] out.buffer))) [
  | inl b ↦ rw (kept-append, b) (rw append-nil e)
  | inr b ↦ rw (kept-append, b, e)
]

pub flush_buffer : (out : Output) → (flush out).buffer ≡ []
unfolding flush
flush_buffer out = ground arith

abbrev pub no_output : Output
no_output = record { bodies = []; buffer = [] }

module _ (count_tokens : Text → ℕ) where
  -- The trackers after some lines.
  abbrev pub run : Trackers → List Text → Trackers
  run t [] = t
  run t (line ∷ lines) = run (scan_line count_tokens t line).trackers lines

  abbrev pub AllFrom : (Trackers → List Text → Type 0) → Trackers → List (List Text) → Type 0
  AllFrom Q t [] = Unit
  AllFrom Q t (group ∷ groups) = Q t group × AllFrom Q (run t group) groups

  pub run-append : (t : Trackers) (xs ys : List Text) → run t (xs ++ ys) ≡ run (run t xs) ys
  run-append t [] ys = refl
  run-append t (x ∷ xs) ys = run-append (scan_line count_tokens t x).trackers xs ys

  AllFrom-append :
      (Q : Trackers → List Text → Type 0) (t : Trackers) (groups : List (List Text))
      (group : List Text)
      → AllFrom Q t groups
      → Q (run t (concat groups)) group
      → AllFrom Q t (groups ++ (group ∷ []))
  AllFrom-append Q t [] group _ q = (q, tt)
  AllFrom-append Q t (g ∷ groups) group (p, all) q = (
    p,
    AllFrom-append Q (run t g) groups group all (
        let e : run t (g ++ concat groups) ≡ run (run t g) (concat groups) =
          run-append t g (concat groups) in
        rw e at q),
  )

  pub record Progress (Q : Trackers → List Text → Type 0) (lines : List Text) (out : Output)
      : Type 0 where
    pub groups : List (List Text)
    pub lines_eq : concat groups ++ out.buffer ≡ lines
    pub bodies_eq : out.bodies ≡ kept groups
    pub all : AllFrom Q new_trackers groups
    pub current : Q (run new_trackers (concat groups)) out.buffer

  pub flush-Progress :
      (Q : Trackers → List Text → Type 0) (lines : List Text) (out : Output)
      → ((t : Trackers) → Q t [])
      → Progress Q lines out
      → Progress Q lines (flush out)
  flush-Progress Q lines out empty p = record {
    groups = p.groups ++ (out.buffer ∷ []);
    lines_eq = rw (flush_buffer, append-nil, concat-append) (rw append-nil p.lines_eq);
    bodies_eq = flush_bodies out p.groups p.bodies_eq;
    all = AllFrom-append Q new_trackers p.groups out.buffer p.all p.current;
    current = rw flush_buffer (empty _);
  }

  pub push-Progress :
      (Q : Trackers → List Text → Type 0) (lines : List Text) (out : Output) (line : Text)
      (p : Progress Q lines out)
      → Q (run new_trackers (concat p.groups)) (out.buffer ++ (line ∷ []))
      → Progress Q (lines ++ (line ∷ [])) (push line out)
  push-Progress Q lines out line p q = record {
    groups = p.groups;
    lines_eq = rw (← append_assoc, p.lines_eq);
    bodies_eq = p.bodies_eq;
    all = p.all;
    current = q;
  }

  module _ (target_tokens max_tokens : ℕ) where
    split_loop-buffer :
        (t : Trackers) (out : Output) (lines : List Text)
        → (split_loop count_tokens target_tokens max_tokens t out lines).buffer ≡ []
    unfolding split_loop
    split_loop-buffer t out [] = flush_buffer out
    split_loop-buffer t out (line ∷ lines) =
        let scan = scan_line count_tokens t line in
        split_loop-buffer scan.trackers
          (take_line count_tokens target_tokens max_tokens scan line out) lines

    -- What the progress at the end of the loop says of the bodies.
    pub split_partition :
        (Q : Trackers → List Text → Type 0) (lines : List Text)
        → Progress Q lines
            (split_loop count_tokens target_tokens max_tokens new_trackers no_output lines)
        → (groups : List (List Text)) × (concat groups ≡ lines)
          × (split_at_safe_boundaries count_tokens target_tokens max_tokens lines ≡ kept groups)
          × AllFrom Q new_trackers groups
    unfolding split_at_safe_boundaries
    split_partition Q lines p = (
      p.groups,
      sym (append-nil (concat p.groups))
          ∙ ap (λ (b : List Text). concat p.groups ++ b)
              (sym (split_loop-buffer new_trackers no_output lines))
          ∙ p.lines_eq,
      p.bodies_eq,
      p.all,
    )
