-- ===== src/Cost/Report/Windows.antt =====
-- Reports of neighbouring windows: src/cost/cost.repository.ts.
use docent.Base.{
  ℕ, ◌+◌, ◌≤◌, ◌≡◌, refl, ◌⊎◌, inl, inr, Bool, true, false, ◌&&◌, Option, none, some, List, [], ◌∷◌,
  arith, ltb, leb, Bool-cases, length, keep, Text,
}
use docent.Cost.Report.{LedgerEntry, CostTotals, is_from, is_before, sum, unpriced, report}

module _ (Numeric : Type 0) (nought : Numeric) (plus : Numeric → Numeric → Numeric) where
  -- The counts of one window are those of two others together.
  abbrev AddUp :
      CostTotals Numeric nought plus
      → CostTotals Numeric nought plus
      → CostTotals Numeric nought plus
      → Type 0
  AddUp a b whole =
      (a.requests + b.requests ≡ whole.requests)
      × (a.prompt_tokens + b.prompt_tokens ≡ whole.prompt_tokens)
      × (a.completion_tokens + b.completion_tokens ≡ whole.completion_tokens)
      × (a.cached_tokens + b.cached_tokens ≡ whole.cached_tokens)
      × (a.unpriced_requests + b.unpriced_requests ≡ whole.unpriced_requests)

  abbrev Entry : Type 0
  Entry = LedgerEntry Numeric

  -- A row of the whole is in one part, and another row in none.
  abbrev Splits : (Entry → Bool) → (Entry → Bool) → (Entry → Bool) → Entry → Type 0
  Splits p q w r =
      ((p r ≡ true) × (q r ≡ false) × (w r ≡ true))
      ⊎ (((p r ≡ false) × (q r ≡ true) × (w r ≡ true))
          ⊎ ((p r ≡ false) × (q r ≡ false) × (w r ≡ false)))

  sum-Splits :
      (g : Entry → ℕ) (p q w : Entry → Bool) (rows : List Entry)
      → ((r : Entry) → Splits p q w r)
      → sum Numeric nought plus g (keep p rows) + sum Numeric nought plus g (keep q rows)
        ≡ sum Numeric nought plus g (keep w rows)
  unfolding sum
  sum-Splits g p q w [] h = omega arith
  sum-Splits g p q w (r ∷ rows) h = elim (h r) [
    | inl (a, b, c) ↦ rw (a, b, c) (omega (arith, sum-Splits g p q w rows h))
    | inr (inl (a, b, c)) ↦ rw (a, b, c) (omega (arith, sum-Splits g p q w rows h))
    | inr (inr (a, b, c)) ↦ rw (a, b, c) (sum-Splits g p q w rows h)
  ]

  length-Splits :
      (p q w : Entry → Bool) (rows : List Entry)
      → ((r : Entry) → Splits p q w r)
      → length (keep p rows) + length (keep q rows) ≡ length (keep w rows)
  length-Splits p q w [] h = omega arith
  length-Splits p q w (r ∷ rows) h = elim (h r) [
    | inl (a, b, c) ↦ rw (a, b, c) (omega (arith, length-Splits p q w rows h))
    | inr (inl (a, b, c)) ↦ rw (a, b, c) (omega (arith, length-Splits p q w rows h))
    | inr (inr (a, b, c)) ↦ rw (a, b, c) (length-Splits p q w rows h)
  ]

  unpriced-Splits :
      (p q w : Entry → Bool) (rows : List Entry)
      → ((r : Entry) → Splits p q w r)
      → unpriced Numeric nought plus (keep p rows) + unpriced Numeric nought plus (keep q rows)
        ≡ unpriced Numeric nought plus (keep w rows)
  unpriced-Splits p q w [] h = omega arith
  unpriced-Splits p q w (r ∷ rows) h = elim (h r) [
    | inl (a, b, c) ↦ rw (a, b, c) (ground (arith, unpriced-Splits p q w rows h))
    | inr (inl (a, b, c)) ↦ rw (a, b, c) (ground (arith, unpriced-Splits p q w rows h))
    | inr (inr (a, b, c)) ↦ rw (a, b, c) (unpriced-Splits p q w rows h)
  ]

  abbrev within : Option ℕ → Option ℕ → Entry → Bool
  within from to r = is_from from r.created_at && is_before to r.created_at

  is_from-later :
      (from : Option ℕ) (mid t : ℕ)
      → is_from from mid ≡ true
      → leb mid t ≡ true
      → is_from from t ≡ true
  is_from-later none mid t h k = refl
  is_from-later (some from) mid t h k = ground arith

  -- The window does not end before this time.
  abbrev Lasts : ℕ → Option ℕ → Type 0
  Lasts mid none = Unit
  Lasts mid (some to) = mid ≤ to

  is_before-earlier :
      (to : Option ℕ) (mid t : ℕ) → Lasts mid to → leb mid t ≡ false → is_before to t ≡ true
  is_before-earlier none mid t h k = refl
  is_before-earlier (some to) mid t h k = ground arith

  before_mid : (mid t : ℕ) → leb mid t ≡ true → ltb t mid ≡ false
  before_mid mid t h = ground arith

  after_mid : (mid t : ℕ) → leb mid t ≡ false → ltb t mid ≡ true
  after_mid mid t h = ground arith

  within-Splits :
      (from to : Option ℕ) (mid : ℕ)
      → is_from from mid ≡ true
      → Lasts mid to
      → (r : Entry) → Splits (within from (some mid)) (within (some mid) to) (within from to) r
  within-Splits from to mid h k r = elim (Bool-cases (leb mid r.created_at)) [
    | inl e ↦
        late (Bool-cases (is_before to r.created_at)) (is_from-later from mid r.created_at h e) e
          (before_mid mid r.created_at e)
    | inr e ↦
        early (Bool-cases (is_from from r.created_at)) (is_before-earlier to mid r.created_at k e) e
          (after_mid mid r.created_at e)
  ]
    where
      late :
          (is_before to r.created_at ≡ true) ⊎ (is_before to r.created_at ≡ false)
          → is_from from r.created_at ≡ true
          → leb mid r.created_at ≡ true
          → ltb r.created_at mid ≡ false
          → Splits (within from (some mid)) (within (some mid) to) (within from to) r
      late (inl b) f e l = inr (inl (rw (f, l) refl, rw (e, b) refl, rw (f, b) refl))
      late (inr b) f e l = inr (inr (rw (f, l) refl, rw (e, b) refl, rw (f, b) refl))

      early :
          (is_from from r.created_at ≡ true) ⊎ (is_from from r.created_at ≡ false)
          → is_before to r.created_at ≡ true
          → leb mid r.created_at ≡ false
          → ltb r.created_at mid ≡ true
          → Splits (within from (some mid)) (within (some mid) to) (within from to) r
      early (inl f) b e l = inl (rw (f, l) refl, rw e refl, rw (f, b) refl)
      early (inr f) b e l = inr (inr (rw f refl, rw e refl, rw f refl))

  -- The counts of the reports up to a time and from that time on add up to those of the whole window.
  report-AddUp :
      (precedes : Text → Text → Bool) (from to : Option ℕ) (mid : ℕ) (ledger : List Entry)
      → is_from from mid ≡ true
      → Lasts mid to
      → AddUp
          (report Numeric nought plus precedes from (some mid) ledger).totals
          (report Numeric nought plus precedes (some mid) to ledger).totals
          (report Numeric nought plus precedes from to ledger).totals
  unfolding report
  report-AddUp precedes from to mid ledger h k =
      let splits = within-Splits from to mid h k in
      (
        length-Splits (within from (some mid)) (within (some mid) to) (within from to) ledger
            splits,
        sum-Splits (λ r. r.prompt_tokens) (within from (some mid)) (within (some mid) to)
            (within from to) ledger splits,
        sum-Splits (λ r. r.completion_tokens) (within from (some mid)) (within (some mid) to)
            (within from to) ledger splits,
        sum-Splits (λ r. r.cached_tokens) (within from (some mid)) (within (some mid) to)
            (within from to) ledger splits,
        unpriced-Splits (within from (some mid)) (within (some mid) to) (within from to) ledger
            splits,
      )
