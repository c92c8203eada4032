-- ===== src/Base/Scan/Digits.antt =====
-- Numbers in decimal, written and read back: the placeholders of src/ingestion/html-table.ts and
-- src/ingestion/markdown-cleaner.ts.
use Prim.Native.Nat.{ℕ, zero, suc, ◌+◌, ◌-◌, ◌*◌, ◌/◌, ◌%◌, ◌≤◌}
use mathlib.Core.Path.{◌≡◌, ap, ◌∙◌}
use mathlib.Core.Logic.{inl, inr}
use mathlib.Core.List.{[], ◌∷◌}
use native.Mathlib.Omega.{arith}
use docent.Base.Tests.{leb, Bool-cases}
use docent.Base.Strings.{Text}
use docent.Base.Scan.{read_from, digits_from, decimal}

whole : (n : ℕ) → 10 * (n / 10) + (48 + n % 10 - 48) ≡ n
whole n = omega arith

-- The digits are as many as the fuel where the number is no larger.
digits_from-read :
    (fuel n : ℕ) (s : Text) → n ≤ fuel → read_from 0 (digits_from fuel n s) ≡ read_from n s
unfolding read_from digits_from
digits_from-read zero n s h = ap (λ m. read_from m s) (omega arith)
digits_from-read (suc fuel) n s h = elim (Bool-cases (leb n 9)) [
  | inl e ↦ rw e (ap (λ m. read_from m s) (omega arith))
  | inr e ↦ rw e (
      digits_from-read fuel (n / 10) ((48 + n % 10) ∷ s) (ground arith)
      ∙ ap (λ m. read_from m s) (whole n))
]

-- A number that is written in decimal is read back.
read_from-decimal : (n : ℕ) → read_from 0 (decimal n) ≡ n
unfolding read_from
read_from-decimal n = digits_from-read n n [] (omega arith)
