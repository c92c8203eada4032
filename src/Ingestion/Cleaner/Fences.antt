-- ===== src/Ingestion/Cleaner/Fences.antt =====
-- The switch branches of examples: src/ingestion/markdown-cleaner.ts.
use docent.Base.{
  ◌≡◌, refl, sym, ap, ◌∙◌, Bool, true, false, none, some, List, [], ◌∷◌, ◌++◌, append-nil,
  append_assoc, All, Text,
}
use docent.Ingestion.Cleaner.{
  is_fence, filename_directive, is_switch_directive, Cleaner, clean_line, clean_lines,
}

-- A line of an example that is no directive and no fence.
abbrev IsExampleLine : Text → Type 0
IsExampleLine line =
    (is_fence line ≡ false)
    × ((filename_directive line ≡ none) × (is_switch_directive line ≡ false))

abbrev IsNoFence : Text → Type 0
IsNoFence line = is_fence line ≡ false

-- Between the blocks: in no fence and in no table.
abbrev IsOutside : Cleaner → Type 0
IsOutside s =
    (s.inside_fence ≡ false) × ((s.skipping_switch_branch ≡ false) × (s.table_buffer ≡ none))

clean_lines-append :
    (xs ys : List Text) (s : Cleaner) → clean_lines (xs ++ ys) s ≡ clean_lines ys (clean_lines xs s)
unfolding clean_lines
clean_lines-append [] ys s = refl
clean_lines-append (x ∷ xs) ys s = clean_lines-append xs ys (clean_line x s)

abbrev in_fence : List Text → List Text → Bool → Cleaner
in_fence filenames output skipping = record {
  filenames = filenames;
  output = output;
  inside_fence = true;
  skipping_switch_branch = skipping;
  table_buffer = none;
}

abbrev outside : List Text → List Text → Cleaner
outside filenames output = record {
  filenames = filenames;
  output = output;
  inside_fence = false;
  skipping_switch_branch = false;
  table_buffer = none;
}

outside_eq : (s : Cleaner) → IsOutside s → s ≡ outside s.filenames s.output
outside_eq s (h, (m, n)) =
    λ i. record s { inside_fence = h i; skipping_switch_branch = m i; table_buffer = n i }

example_line :
    (filenames output : List Text) (line : Text)
    → IsExampleLine line
    → clean_line line (in_fence filenames output false)
      ≡ in_fence filenames (output ++ (line ∷ [])) false
unfolding clean_line
example_line filenames output line (h, (k, m)) = rw h (rw k (rw m))

skipped_line :
    (filenames output : List Text) (line : Text)
    → IsNoFence line
    → clean_line line (in_fence filenames output true) ≡ in_fence filenames output true
unfolding clean_line
skipped_line filenames output line h = rw h

example_lines :
    (lines filenames output : List Text)
    → All IsExampleLine lines
    → clean_lines lines (in_fence filenames output false)
      ≡ in_fence filenames (output ++ lines) false
unfolding clean_lines
example_lines [] filenames output all = rw (append-nil output)
example_lines (line ∷ lines) filenames output (h, all) =
    rw (example_line filenames output line h)
      (rw (example_lines lines filenames (output ++ (line ∷ [])) all) (rw append_assoc))

skipped_lines :
    (lines filenames output : List Text)
    → All IsNoFence lines
    → clean_lines lines (in_fence filenames output true) ≡ in_fence filenames output true
unfolding clean_lines
skipped_lines [] filenames output all = refl
skipped_lines (line ∷ lines) filenames output (h, all) =
    rw (skipped_line filenames output line h) (skipped_lines lines filenames output all)

open_line :
    (filenames output : List Text) (line : Text)
    → is_fence line ≡ true
    → clean_line line (outside filenames output) ≡ in_fence filenames (output ++ (line ∷ [])) false
unfolding clean_line
open_line filenames output line h = rw h

name_line :
    (filenames output : List Text) (line name : Text)
    → is_fence line ≡ false
    → filename_directive line ≡ some name
    → clean_line line (in_fence filenames output false)
      ≡ in_fence (filenames ++ (name ∷ [])) output false
unfolding clean_line
name_line filenames output line name h k = rw h (rw k)

switch_line :
    (filenames output : List Text) (line : Text)
    → is_fence line ≡ false
    → filename_directive line ≡ none
    → is_switch_directive line ≡ true
    → clean_line line (in_fence filenames output false) ≡ in_fence filenames output true
unfolding clean_line
switch_line filenames output line h k m = rw h (rw k (rw m))

close_line :
    (filenames output : List Text) (line : Text) (skipping : Bool)
    → is_fence line ≡ true
    → clean_line line (in_fence filenames output skipping)
      ≡ outside filenames (output ++ (line ∷ []))
unfolding clean_line
close_line filenames output line skipping h = rw h

-- The lines of an example: a fence, the name of its file, the code, the marker, the same in
-- JavaScript, and the closing fence.
abbrev pub example : Text → Text → List Text → Text → List Text → Text → List Text
example opening directive code marker twin closing =
    opening ∷ directive ∷ (code ++ (marker ∷ (twin ++ (closing ∷ []))))

abbrev pub IsExample : Text → Text → Text → List Text → Text → List Text → Text → Type 0
IsExample opening directive name code marker twin closing =
    (is_fence opening ≡ true)
    × ((is_fence directive ≡ false)
        × ((filename_directive directive ≡ some name)
            × (All IsExampleLine code
                × ((is_fence marker ≡ false)
                    × ((filename_directive marker ≡ none)
                        × ((is_switch_directive marker ≡ true)
                            × (All IsNoFence twin × (is_fence closing ≡ true))))))))

example_from :
    (filenames output : List Text) (opening directive name : Text) (code : List Text)
    (marker : Text) (twin : List Text) (closing : Text)
    → IsExample opening directive name code marker twin closing
    → clean_lines (example opening directive code marker twin closing) (outside filenames output)
      ≡ outside (filenames ++ (name ∷ [])) ((output ++ (opening ∷ []) ++ code) ++ (closing ∷ []))
unfolding clean_lines
example_from filenames output opening directive name code marker twin closing
      (ho, (hd, (hn, (hc, (hm, (hk, (hs, (ht, hf)))))))) =
    let names = filenames ++ (name ∷ []) in
    let opened = output ++ (opening ∷ []) in
    let behind = marker ∷ (twin ++ (closing ∷ [])) in
    ap (clean_lines (directive ∷ (code ++ behind))) (open_line filenames output opening ho)
    ∙ ap (clean_lines (code ++ behind)) (name_line filenames opened directive name hd hn)
    ∙ clean_lines-append code behind (in_fence names opened false)
    ∙ ap (clean_lines behind) (example_lines code names opened hc)
    ∙ ap (clean_lines (twin ++ (closing ∷ []))) (switch_line names (opened ++ code) marker hm hk hs)
    ∙ clean_lines-append twin (closing ∷ []) (in_fence names (opened ++ code) true)
    ∙ ap (clean_lines (closing ∷ [])) (skipped_lines twin names (opened ++ code) ht)
    ∙ close_line names (opened ++ code) closing true hf

-- Outside of every fence and table, an example that opens a fence, names its file, and repeats its
-- code in JavaScript behind the marker leaves its fences and its first code in the output, its
-- name in the list of names, and nothing of the repetition, and the lines behind it are cleaned as
-- from outside. No line of the code is a fence or a directive, and none of the repetition is a
-- fence.
pub clean_lines-example :
    (s : Cleaner) (opening directive name : Text) (code : List Text) (marker : Text)
    (twin : List Text) (closing : Text) (rest : List Text)
    → IsOutside s
    → IsExample opening directive name code marker twin closing
    → clean_lines (example opening directive code marker twin closing ++ rest) s
      ≡ clean_lines rest (record s {
        filenames = s.filenames ++ (name ∷ []);
        output = s.output ++ (opening ∷ (code ++ (closing ∷ [])));
      })
clean_lines-example s opening directive name code marker twin closing rest h k =
    clean_lines-append (example opening directive code marker twin closing) rest s
    ∙ ap
        (λ (t : Cleaner).
          clean_lines rest (clean_lines (example opening directive code marker twin closing) t))
        (outside_eq s h)
    ∙ ap (clean_lines rest) (
        example_from s.filenames s.output opening directive name code marker twin closing k
        ∙ ap (outside (s.filenames ++ (name ∷ []))) (
            append_assoc (s.output ++ (opening ∷ [])) code (closing ∷ [])
            ∙ append_assoc s.output (opening ∷ []) (code ++ (closing ∷ [])))
        ∙ sym (
            outside_eq
              (record s {
                filenames = s.filenames ++ (name ∷ []);
                output = s.output ++ (opening ∷ (code ++ (closing ∷ [])));
              })
              h))
