-- ===== src/Cache/Version/Moves.antt =====
-- That a source that becomes ready moves the version of src/common/cache/corpus-version.ts.
use docent.Base.{
  ℕ, ◌≤◌, ◌<◌, ◌≡◌, refl, ap, ◌≢◌, inl, inr, true, Option, none, some, List, [], ◌∷◌, arith, ◌==◌,
  Bool-cases, any_of, All, Text,
}
use docent.Ingestion.Tables.{SourceRow, Database, update_rows, has_id, mark_ready, ready}
use docent.Cache.Version.{
  is_ready, later_of, latest, ready_sources, iso_or_none, version_of, AreDistinct,
  version_of-latest,
}

-- A time is before another, if there is one.
abbrev IsBefore : ℕ → Option ℕ → Type 0
IsBefore now none = Unit
IsBefore now (some t) = t < now

abbrev IsUntil : ℕ → Option ℕ → Type 0
IsUntil now none = Unit
IsUntil now (some t) = t ≤ now

-- The clock stands behind every source that is ready.
abbrev IsPast : ℕ → List SourceRow → Type 0
IsPast now sources = All (λ (s : SourceRow). is_ready s.status ≡ true → s.updated_at < now) sources

later_of-IsBefore :
    (now t : ℕ) (o : Option ℕ) → t < now → IsBefore now o → IsBefore now (some (later_of t o))
later_of-IsBefore now t none h k = h
later_of-IsBefore now t (some u) h k = ground arith

latest-IsBefore :
    (now : ℕ) (sources : List SourceRow)
    → IsPast now sources
    → IsBefore now (latest (ready_sources sources))
unfolding latest
latest-IsBefore now [] h = tt
latest-IsBefore now (s ∷ sources) (h, hs) = elim (Bool-cases (is_ready s.status)) [
  | inl e ↦ rw e (later_of-IsBefore now s.updated_at _ (h e) (latest-IsBefore now sources hs))
  | inr e ↦ rw e (latest-IsBefore now sources hs)
]

abbrev made_ready : ℕ → ℕ → List SourceRow → List SourceRow
made_ready id now sources =
    update_rows (has_id id) (λ s. record s { status = ready; updated_at = now }) sources

later_of-IsUntil :
    (now t : ℕ) (o : Option ℕ) → t ≤ now → IsUntil now o → IsUntil now (some (later_of t o))
later_of-IsUntil now t none h k = h
later_of-IsUntil now t (some u) h k = ground arith

made_ready-IsUntil :
    (id now : ℕ) (sources : List SourceRow)
    → IsPast now sources
    → IsUntil now (latest (ready_sources (made_ready id now sources)))
unfolding latest update_rows
made_ready-IsUntil id now [] h = tt
made_ready-IsUntil id now (s ∷ sources) (h, hs) =
    let rest = made_ready-IsUntil id now sources hs in
    elim (Bool-cases (s.id == id)) [
      | inl e ↦ rw e (later_of-IsUntil now now _ (omega arith) rest)
      | inr e ↦ elim (Bool-cases (is_ready s.status)) [
        | inl k ↦
            (let early = h k in
              rw (e, k) (later_of-IsUntil now s.updated_at _ (omega (arith, early)) rest))
        | inr k ↦ rw (e, k) rest
      ]
    ]

later_of-newest : (now : ℕ) (o : Option ℕ) → IsUntil now o → later_of now o ≡ now
later_of-newest now none h = refl
later_of-newest now (some t) h = ground arith

made_ready-latest :
    (id now : ℕ) (sources : List SourceRow)
    → IsPast now sources
    → any_of (has_id id) sources ≡ true
    → latest (ready_sources (made_ready id now sources)) ≡ some now
unfolding latest update_rows
made_ready-latest id now [] h found = absurd (cc)
made_ready-latest id now (s ∷ sources) (h, hs) found = elim (Bool-cases (s.id == id)) [
  | inl e ↦
      rw e (ap (λ (t : ℕ). some t) (later_of-newest now _ (made_ready-IsUntil id now sources hs)))
  | inr e ↦
      let rest = made_ready-latest id now sources hs (rw e at found) in
      elim (Bool-cases (is_ready s.status)) [
        | inl k ↦ (let early = h k in rw (e, k, rest) (ap (λ (t : ℕ). some t) (ground arith)))
        | inr k ↦ rw (e, k) rest
      ]
]

module _ (show to_iso : ℕ → Text) where
  differs :
      (distinct : AreDistinct show to_iso) (now : ℕ) (o : Option ℕ)
      → IsBefore now o
      → iso_or_none show to_iso (some now) ≢ iso_or_none show to_iso o
  differs distinct now none h e = distinct.to_iso_none now e
  differs distinct now (some t) h e =
      (let same = distinct.to_iso_injective now t e in absurd (omega arith))

  -- Marking a source of the table as ready changes the version of the corpus, provided that every
  -- ready source was last written before the database's present time and that the version's
  -- numerals and times tell their numbers apart.
  pub mark_ready-version :
      (Embedding : Type 0) (distinct : AreDistinct show to_iso) (id : ℕ) (db : Database Embedding)
      → IsPast db.now db.sources
      → any_of (has_id id) db.sources ≡ true
      → version_of show to_iso (mark_ready Embedding id db).sources
        ≢ version_of show to_iso db.sources
  mark_ready-version Embedding distinct id db past found e =
      let same =
        version_of-latest show to_iso distinct (made_ready id db.now db.sources) db.sources e in
      differs distinct db.now (latest (ready_sources db.sources))
        (latest-IsBefore db.now db.sources past)
        (rw (made_ready-latest id db.now db.sources past found) at same)
