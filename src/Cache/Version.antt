-- ===== src/Cache/Version.antt =====
-- The version of the corpus: src/common/cache/corpus-version.ts over the sources.
pub mod Moves
pub mod Stays
use docent.Base.{
  ℕ, ◌≡◌, refl, sym, ap, ◌≢◌, Bool, true, false, Option, none, some, List, [], ◌∷◌, ◌++◌, arith,
  ltb, if◌then◌else◌, length, keep, Text, codes, lacks,
}
use docent.Ingestion.Tables.{
  Status, pending, processing, ready, failed, SourceRow, Database, update_rows, has_id, mark_ready,
}

abbrev pub is_ready : Status → Bool
is_ready pending = false
is_ready processing = false
is_ready ready = true
is_ready failed = false

-- `max(updated_at)`, null where there is no row.
abbrev pub later_of : ℕ → Option ℕ → ℕ
later_of t none = t
later_of t (some u) = if ltb u t then t else u

pub latest : List SourceRow → Option ℕ
latest [] = none
latest (s ∷ sources) = some (later_of s.updated_at (latest sources))

abbrev pub ready_sources : List SourceRow → List SourceRow
ready_sources sources = keep (λ (s : SourceRow). is_ready s.status) sources

-- `show` writes a count, and `to_iso` a time, as `toISOString` does.
module _ (show to_iso : ℕ → Text) where
  abbrev pub iso_or_none : Option ℕ → Text
  iso_or_none none = codes "none"
  iso_or_none (some t) = to_iso t

  pub version_of : List SourceRow → Text
  unfolding latest
  version_of sources =
      let rows = ready_sources sources in show (length rows) ++ (b'-' ∷ iso_or_none (latest rows))

  -- What the two writers of text have in common with the program's: they tell numbers apart, a
  -- count has no dash, and no time reads `none`.
  pub record AreDistinct : Type 0 where
    pub show_injective : (m n : ℕ) → show m ≡ show n → m ≡ n
    pub show_dash : (n : ℕ) → lacks b'-' (show n) ≡ true
    pub to_iso_injective : (t u : ℕ) → to_iso t ≡ to_iso u → t ≡ u
    pub to_iso_none : (t : ℕ) → to_iso t ≢ codes "none"

  abbrev head : Text → ℕ
  head [] = 0
  head (c ∷ s) = c

  abbrev tail : Text → Text
  tail [] = []
  tail (c ∷ s) = s

  no_dash : (d : ℕ) (q : Text) → lacks b'-' (d ∷ q) ≡ true → b'-' ≡ d → ⊥
  no_dash d q h e = absurd (ground arith)

  tail_lacks : (c : ℕ) (p : Text) → lacks b'-' (c ∷ p) ≡ true → lacks b'-' p ≡ true
  tail_lacks c p h = ground arith

  -- Nothing in a text before the first dash is taken for the dash.
  cut_at_dash :
      (p q s t : Text)
      → lacks b'-' p ≡ true
      → lacks b'-' q ≡ true
      → p ++ (b'-' ∷ s) ≡ q ++ (b'-' ∷ t)
      → (p ≡ q) × (s ≡ t)
  cut_at_dash [] [] s t hp hq e = (refl, cc)
  cut_at_dash [] (d ∷ q) s t hp hq e = absurd (no_dash d q hq (ap head e))
  cut_at_dash (c ∷ p) [] s t hp hq e = absurd (no_dash c p hp (sym (ap head e)))
  cut_at_dash (c ∷ p) (d ∷ q) s t hp hq e =
      let (same, rest) = cut_at_dash p q s t (tail_lacks c p hp) (tail_lacks d q hq) (ap tail e) in
      (cons_same c d p q (ap head e) same, rest)
    where
      cons_same : (c d : ℕ) (p q : Text) → c ≡ d → p ≡ q → c ∷ p ≡ d ∷ q
      cons_same c d p q e k = cc

  -- One version, one time of the newest source.
  pub version_of-latest :
      (distinct : AreDistinct) (sources others : List SourceRow)
      → version_of sources ≡ version_of others
      → iso_or_none (latest (ready_sources sources)) ≡ iso_or_none (latest (ready_sources others))
  unfolding version_of
  version_of-latest distinct sources others e =
      (cut_at_dash (show (length (ready_sources sources))) (show (length (ready_sources others))) _
        _ (distinct.show_dash _) (distinct.show_dash _) e).1
