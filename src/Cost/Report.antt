-- ===== src/Cost/Report.antt =====
-- The report of costs: src/cost/cost.repository.ts behind the check of
-- src/cost/dto/costs-query.dto.ts.
pub mod Windows
use docent.Base.{
  ℕ, ◌+◌, Bool, true, false, ◌&&◌, Option, none, some, List, [], ◌∷◌, map, ltb, leb, if◌then◌else◌,
  length, keep, any_of, Text, text_eq,
}

-- A row of `cost_ledger`, as far as the report reads it. `Numeric` is the type of `numeric` columns.
module _ (Numeric : Type 0) where
  pub record LedgerEntry : Type 0 where
    pub provider : Text
    pub model : Text
    pub prompt_tokens : ℕ
    pub completion_tokens : ℕ
    pub cached_tokens : ℕ
    pub usd_cost : Option Numeric
    pub created_at : ℕ

-- `costsQuerySchema`: two times, the second after the first where both are given.
unfoldable pub check_window : Option ℕ → Option ℕ → Bool
check_window none to = true
check_window (some from) none = true
check_window (some from) (some to) = ltb from to

abbrev pub is_from : Option ℕ → ℕ → Bool
is_from none t = true
is_from (some from) t = leb from t

abbrev pub is_before : Option ℕ → ℕ → Bool
is_before none t = true
is_before (some to) t = ltb t to

-- `nought` and `plus` are those of the sums of the database, which pass over null.
module _ (Numeric : Type 0) (nought : Numeric) (plus : Numeric → Numeric → Numeric) where
  pub record CostTotals : Type 0 where
    pub requests : ℕ
    pub prompt_tokens : ℕ
    pub completion_tokens : ℕ
    pub cached_tokens : ℕ
    pub usd_cost : Numeric
    pub unpriced_requests : ℕ

  record CostByModel : Type 0 where
    pub provider : Text
    pub model : Text
    pub requests : ℕ
    pub usd_cost : Numeric
    pub unpriced_requests : ℕ

  pub record CostReport : Type 0 where
    pub totals : CostTotals
    by_model : List CostByModel

  abbrev in_window : Option ℕ → Option ℕ → List (LedgerEntry Numeric) → List (LedgerEntry Numeric)
  in_window from to rows =
      keep (λ (r : LedgerEntry Numeric). is_from from r.created_at && is_before to r.created_at)
        rows

  pub sum : (LedgerEntry Numeric → ℕ) → List (LedgerEntry Numeric) → ℕ
  sum column [] = 0
  sum column (r ∷ rows) = column r + sum column rows

  abbrev pub priced : Option Numeric → Numeric → Numeric
  priced none total = total
  priced (some cost) total = plus cost total

  sum_cost : List (LedgerEntry Numeric) → Numeric
  sum_cost [] = nought
  sum_cost (r ∷ rows) = priced r.usd_cost (sum_cost rows)

  abbrev is_null : Option Numeric → Bool
  is_null none = true
  is_null (some _) = false

  abbrev pub unpriced : List (LedgerEntry Numeric) → ℕ
  unpriced rows = length (keep (λ (r : LedgerEntry Numeric). is_null r.usd_cost) rows)

  abbrev totals_of : List (LedgerEntry Numeric) → CostTotals
  totals_of rows = record {
    requests = length rows;
    prompt_tokens = sum (λ r. r.prompt_tokens) rows;
    completion_tokens = sum (λ r. r.completion_tokens) rows;
    cached_tokens = sum (λ r. r.cached_tokens) rows;
    usd_cost = sum_cost rows;
    unpriced_requests = unpriced rows;
  }

  abbrev is_of_model : Text × Text → LedgerEntry Numeric → Bool
  is_of_model (provider, model) r = text_eq r.provider provider && text_eq r.model model

  -- `groupBy(['provider', 'model'])`: each pair once.
  pub groups : List (LedgerEntry Numeric) → List (Text × Text)
  groups [] = []
  groups (r ∷ rows) =
      let rest = groups rows in
      if any_of (is_of_model (r.provider, r.model)) rows then rest else (r.provider, r.model) ∷ rest

  -- `orderBy('provider').orderBy('model')`, in the collation of the database.
  module _ (precedes : Text → Text → Bool) where
    abbrev pair_precedes : Text × Text → Text × Text → Bool
    pair_precedes (p, m) (q, n) = if text_eq p q then precedes m n else precedes p q

    insert_group : Text × Text → List (Text × Text) → List (Text × Text)
    insert_group g [] = g ∷ []
    insert_group g (h ∷ gs) =
        let rest = insert_group g gs in if pair_precedes g h then g ∷ h ∷ gs else h ∷ rest

    sort_groups : List (Text × Text) → List (Text × Text)
    unfolding insert_group
    sort_groups [] = []
    sort_groups (g ∷ gs) = insert_group g (sort_groups gs)

    abbrev row_for : List (LedgerEntry Numeric) → Text × Text → CostByModel
    row_for rows (provider, model) =
        let group = keep (is_of_model (provider, model)) rows in
        record {
          provider = provider;
          model = model;
          requests = length group;
          usd_cost = sum_cost group;
          unpriced_requests = unpriced group;
        }

    pub report : Option ℕ → Option ℕ → List (LedgerEntry Numeric) → CostReport
    unfolding sum sum_cost groups sort_groups
    report from to ledger =
        let rows = in_window from to ledger in
        record {
          totals = totals_of rows;
          by_model = map (row_for rows) (sort_groups (groups rows));
        }
