-- ===== src/Ingestion/Cleaner/Blank.antt =====
-- The blank runs of a cleaned page: src/ingestion/markdown-cleaner.ts.
use docent.Base.{
  ℕ, zero, suc, ◌≤◌, ◌≡◌, refl, inl, inr, true, false, [], ◌∷◌, arith, ◌==◌, Bool-cases, Text,
  replace_from, replace_from-kept, replace_from-replaced, run_of,
}
use docent.Ingestion.Cleaner.{is_newline, is_blank_run, collapse_blank_runs, clean_markdown}

-- Nowhere do three line feeds follow each other.
pub HasNoBlankRun : Text → Type 0
HasNoBlankRun [] = Unit
HasNoBlankRun (c ∷ s) = (run_of is_newline (c ∷ s) ≤ 2) × HasNoBlankRun s

abbrev collapsed : ℕ → ℕ → Text → Text
collapsed i skip s = replace_from is_blank_run (λ _ _. 10 ∷ 10 ∷ []) i skip s

kept_char :
    (i c : ℕ) (s : Text) → is_blank_run (c ∷ s) ≡ 0 → collapsed i 0 (c ∷ s) ≡ c ∷ collapsed i 0 s
kept_char = replace_from-kept is_blank_run (λ _ _. 10 ∷ 10 ∷ [])

cut_run :
    (i c k : ℕ) (s : Text)
    → is_blank_run (c ∷ s) ≡ suc k
    → collapsed i 0 (c ∷ s) ≡ 10 ∷ 10 ∷ collapsed (suc i) k s
cut_run = replace_from-replaced is_blank_run (λ _ _. 10 ∷ 10 ∷ [])

skipped_char : (i k c : ℕ) (s : Text) → collapsed i (suc k) (c ∷ s) ≡ collapsed i k s
unfolding replace_from
skipped_char i k c s = refl

run-break : (s : Text) → run_of is_newline (10 ∷ s) ≡ suc (run_of is_newline s)
unfolding run_of
run-break s = refl

run-other : (c : ℕ) (s : Text) → (c == 10) ≡ false → run_of is_newline (c ∷ s) ≡ 0
unfolding run_of
run-other c s h = rw h

run-newline :
    (c : ℕ) (s : Text) → (c == 10) ≡ true → run_of is_newline (c ∷ s) ≡ suc (run_of is_newline s)
unfolding run_of
run-newline c s h = rw h

collapsed-nil : (i k : ℕ) → collapsed i k [] ≡ []
unfolding replace_from
collapsed-nil i k = refl

-- Behind a run the next character is no line feed.
run-collapsed : (i : ℕ) (s : Text) → run_of is_newline (collapsed i (run_of is_newline s) s) ≡ 0
run-collapsed i [] = rw (collapsed-nil i (run_of is_newline [])) (unfold run_of in refl)
run-collapsed i (c ∷ s) = elim (Bool-cases (c == 10)) [
  | inl h ↦
      rw (run-newline c s h) (rw (skipped_char i (run_of is_newline s) c s) (run-collapsed i s))
  | inr h ↦
      rw (run-other c s h)
        (rw (kept_char i c s (blank_run-other c s h)) (run-other c (collapsed i 0 s) h))
]
  where
    blank_run-other : (c : ℕ) (s : Text) → (c == 10) ≡ false → is_blank_run (c ∷ s) ≡ 0
    blank_run-other c s h = rw (run-other c s h) refl

-- A short run stays.
short-collapsed :
    (i : ℕ) (s : Text)
    → run_of is_newline s ≤ 2
    → run_of is_newline (collapsed i 0 s) ≡ run_of is_newline s
short-collapsed i [] h = rw (collapsed-nil i 0)
short-collapsed i (c ∷ s) h = rw (kept_char i c s (ground arith)) (elim (Bool-cases (c == 10)) [
  | inl e ↦
      ground (arith, run-newline c s e, run-newline c (collapsed i 0 s) e, short-collapsed i s)
  | inr e ↦ ground (arith, run-other c s e, run-other c (collapsed i 0 s) e)
])

cons-HasNoBlankRun :
    (c : ℕ) (t : Text) → run_of is_newline (c ∷ t) ≤ 2 → HasNoBlankRun t → HasNoBlankRun (c ∷ t)
unfolding HasNoBlankRun
cons-HasNoBlankRun c t h k = (h, k)

kept_run :
    (i c : ℕ) (s : Text) → is_blank_run (c ∷ s) ≡ 0 → run_of is_newline (c ∷ collapsed i 0 s) ≤ 2
kept_run i c s h = elim (Bool-cases (c == 10)) [
  | inl e ↦
      ground (arith, run-newline c s e, run-newline c (collapsed i 0 s) e, short-collapsed i s)
  | inr e ↦ ground (arith, run-other c (collapsed i 0 s) e)
]

cut_length : (c k : ℕ) (s : Text) → is_blank_run (c ∷ s) ≡ suc k → k ≡ run_of is_newline s
cut_length c k s h = elim (Bool-cases (c == 10)) [
  | inl e ↦ ground (arith, run-newline c s e)
  | inr e ↦ ground (arith, run-other c s e)
]

cut_end :
    (i c k : ℕ) (s : Text)
    → is_blank_run (c ∷ s) ≡ suc k
    → run_of is_newline (collapsed (suc i) k s) ≡ 0
cut_end i c k s h = rw (cut_length c k s h) (run-collapsed (suc i) s)

cut_one :
    (i c k : ℕ) (s : Text)
    → is_blank_run (c ∷ s) ≡ suc k
    → run_of is_newline (10 ∷ collapsed (suc i) k s) ≤ 2
cut_one i c k s h = ground (arith, run-break (collapsed (suc i) k s), cut_end i c k s h)

cut_two :
    (i c k : ℕ) (s : Text)
    → is_blank_run (c ∷ s) ≡ suc k
    → run_of is_newline (10 ∷ 10 ∷ collapsed (suc i) k s) ≤ 2
cut_two i c k s h = ground (
  arith,
  run-break (10 ∷ collapsed (suc i) k s),
  run-break (collapsed (suc i) k s),
  cut_end i c k s h,
)

collapsed-HasNoBlankRun : (i skip : ℕ) (s : Text) → HasNoBlankRun (collapsed i skip s)
collapsed-HasNoBlankRun i skip [] = rw (collapsed-nil i skip) (unfold HasNoBlankRun in tt)
collapsed-HasNoBlankRun i (suc skip) (c ∷ s) =
    rw (skipped_char i skip c s) (collapsed-HasNoBlankRun i skip s)
collapsed-HasNoBlankRun i zero (c ∷ s) =
    go (is_blank_run (c ∷ s)) refl (collapsed-HasNoBlankRun i 0 s)
      (λ k. collapsed-HasNoBlankRun (suc i) k s)
  where
    go :
        (n : ℕ)
        → is_blank_run (c ∷ s) ≡ n
        → HasNoBlankRun (collapsed i 0 s)
        → ((k : ℕ) → HasNoBlankRun (collapsed (suc i) k s))
        → HasNoBlankRun (collapsed i 0 (c ∷ s))
    go zero h kept cut = rw (kept_char i c s h) (cons-HasNoBlankRun c _ (kept_run i c s h) kept)
    go (suc k) h kept cut = rw (cut_run i c k s h) (
        cons-HasNoBlankRun 10 _ (cut_two i c k s h)
          (cons-HasNoBlankRun 10 _ (cut_one i c k s h) (cut k)))

-- Nowhere in a cleaned page do three line feeds follow each other.
pub clean_markdown-HasNoBlankRun : (raw : Text) → HasNoBlankRun (clean_markdown raw).content
unfolding clean_markdown collapse_blank_runs
clean_markdown-HasNoBlankRun raw = collapsed-HasNoBlankRun 0 0 _
