-- ===== src/Ingestion/Exclusive.antt =====
-- The claim of src/ingestion/ingestion.repository.ts and `reuse` of
-- src/ingestion/ingestion.service.ts: two runs do not hold one source.
use docent.Base.{
  ℕ, ◌+◌, ◌-◌, ◌≤◌, ◌≡◌, refl, sym, ap, ◌∙◌, inl, inr, Bool, true, false, not, ◌&&◌, ◌||◌, Option,
  none, some, List, [], ◌∷◌, map, arith, ltb, ◌==◌, ==_iff, Bool-cases, keep, All, Text, lacks, ok,
  err,
}
use mathlib.Core.Path.{subst}
use docent.Ingestion.Tables.{
  SourceRow, Database, update_rows, has_id, is_running, is_claimable, claimed, first,
  claim_for_processing, delete_source_content,
}
use docent.Ingestion.Claims.{in_progress, stale_before, after_claim, reuse}

abbrev LacksId : ℕ → List SourceRow → Type 0
LacksId id sources = All (λ (s : SourceRow). has_id id s ≡ false) sources

-- The identifiers of the sources are a primary key.
abbrev pub HasDistinctIds : List SourceRow → Type 0
HasDistinctIds [] = Unit
HasDistinctIds (s ∷ sources) = LacksId s.id sources × HasDistinctIds sources

module _ (Embedding : Type 0) (id stale now : ℕ) where
  abbrev emptied : SourceRow → SourceRow
  emptied s = record s { document_count = 0; chunk_count = 0; updated_at = now }

  -- The rows behind a claim and the clearing of the counts.
  abbrev taken : List SourceRow → List SourceRow
  taken sources =
      update_rows (has_id id) emptied (update_rows (is_claimable id stale) (claimed now) sources)

  lacks-taken :
      (later : ℕ) (sources : List SourceRow)
      → LacksId id sources
      → keep (is_claimable id later) (taken sources) ≡ []
  unfolding update_rows
  lacks-taken later [] h = refl
  lacks-taken later (s ∷ sources) (h, hs) = rw (h, h, h, lacks-taken later sources hs)

  lacks-claimable :
      (sources : List SourceRow) → LacksId id sources → keep (is_claimable id stale) sources ≡ []
  lacks-claimable [] h = refl
  lacks-claimable (s ∷ sources) (h, hs) = rw (h, lacks-claimable sources hs)

  -- Of rows of which one could be claimed, none can be claimed again while the lease lasts.
  claimed-taken :
      (later : ℕ) (sources : List SourceRow) (row : SourceRow)
      → later ≤ now
      → HasDistinctIds sources
      → first (map (claimed now) (keep (is_claimable id stale) sources)) ≡ some row
      → keep (is_claimable id later) (taken sources) ≡ []
  unfolding update_rows
  claimed-taken later [] row le distinct h = refl
  claimed-taken later (s ∷ sources) row le (lacks, distinct) h = elim (Bool-cases (s.id == id)) [
    | inr e ↦ rw (e, e, e, claimed-taken later sources row le distinct (rw e at h))
    | inl e ↦
        let lacks_id = subst (λ i. LacksId i sources) ((==_iff s.id id).0 e) lacks in
        elim (Bool-cases (not (is_running s.status) || ltb s.updated_at stale)) [
          | inl k ↦ rw (e, k, e, lacks-taken later sources lacks_id) (ground arith)
          | inr k ↦ absurd (nothing (rw (e, k, lacks-claimable sources lacks_id) at h))
        ]
  ]
    where
      nothing : {row : SourceRow} → none ≡ some row → ⊥
      nothing h = cc

update_rows-none :
    (where_row : SourceRow → Bool) (set_row : SourceRow → SourceRow) (sources : List SourceRow)
    → keep where_row sources ≡ []
    → update_rows where_row set_row sources ≡ sources
unfolding update_rows
update_rows-none where_row set_row [] h = refl
update_rows-none where_row set_row (s ∷ sources) h = elim (Bool-cases (where_row s)) [
  | inl e ↦ absurd (filled (rw e at h))
  | inr e ↦ rw (e, update_rows-none where_row set_row sources (rw e at h))
]
  where
    filled : {r : SourceRow} {rows : List SourceRow} → r ∷ rows ≡ [] → ⊥
    filled h = cc

first-claimed-id :
    (id stale now : ℕ) (sources : List SourceRow) (row : SourceRow)
    → first (map (claimed now) (keep (is_claimable id stale) sources)) ≡ some row
    → row.id ≡ id
first-claimed-id id stale now [] row h = absurd (cc)
first-claimed-id id stale now (s ∷ sources) row h = elim (Bool-cases (is_claimable id stale s)) [
  | inl e ↦ sym (ap (λ (o : Option SourceRow). id_or o) (rw e at h)) ∙ same s.id id _ e
  | inr e ↦ first-claimed-id id stale now sources row (rw e at h)
]
  where
    id_or : Option SourceRow → ℕ
    id_or none = 0
    id_or (some r) = r.id

    same : (i j : ℕ) (b : Bool) → (i == j) && b ≡ true → i ≡ j
    same i j b h = ground arith

module _ (Embedding : Type 0) (lease_ms : ℕ) where
  after_claim-ok :
      (uri : Text) (found : Option SourceRow) (db db' : Database Embedding) (taken_id : ℕ)
      → after_claim Embedding lease_ms uri (found, db) ≡ (ok taken_id, db')
      → (row : SourceRow) × (found ≡ some row) × (db' ≡ delete_source_content Embedding row.id db)
  after_claim-ok uri none db db' taken_id h = absurd (refused (ap (λ r. r.0) h))
    where
      refused : err (in_progress uri) ≡ ok taken_id → ⊥
      refused e = cc
  after_claim-ok uri (some row) db db' taken_id h = (row, refl, sym (ap (λ r. r.1) h))

  held :
      (source row : SourceRow) (uri : Text) (db : Database Embedding) (t : ℕ)
      → HasDistinctIds db.sources
      → t ≤ db.now + lease_ms
      → first (
          map
            (claimed db.now)
            (keep (is_claimable source.id (stale_before Embedding lease_ms db)) db.sources))
        ≡ some row
      → (let db' =
            record (delete_source_content Embedding source.id
              (claim_for_processing Embedding source.id
                (stale_before Embedding lease_ms db)
                db).1) { now = t } in
          reuse Embedding lease_ms source uri db' ≡ (err (in_progress uri), db'))
  unfolding reuse claim_for_processing delete_source_content
  held source row uri db t distinct le h =
      let none_left =
        claimed-taken Embedding source.id (stale_before Embedding lease_ms db) db.now (t - lease_ms)
          db.sources row (omega arith) distinct h in
      rw (none_left, update_rows-none _ _ _ none_left)

  -- Once a run has claimed a source, a second claim of it is refused with the conflict and changes
  -- nothing, as long as the database's clock has not passed the lease, whatever was the status
  -- before the first claim, provided that no two sources have one identifier.
  pub reuse-excludes :
      (source : SourceRow) (uri later_uri : Text) (db db' : Database Embedding) (taken_id t : ℕ)
      → HasDistinctIds db.sources
      → reuse Embedding lease_ms source uri db ≡ (ok taken_id, db')
      → t ≤ db.now + lease_ms
      → reuse Embedding lease_ms source later_uri (record db' { now = t })
        ≡ (err (in_progress later_uri), record db' { now = t })
  unfolding reuse claim_for_processing
  reuse-excludes source uri later_uri db db' taken_id t distinct h le =
      let (row, found, same) =
        after_claim-ok uri
          (first (
            map (claimed db.now)
              (keep (is_claimable source.id (stale_before Embedding lease_ms db)) db.sources)))
          (claim_for_processing Embedding source.id (stale_before Embedding lease_ms db) db).1 db'
          taken_id h in
      let id_eq = first-claimed-id source.id _ db.now db.sources row found in
      subst
        (λ d.
          reuse Embedding lease_ms source later_uri (record d { now = t })
          ≡ (err (in_progress later_uri), record d { now = t }))
        (sym (rw id_eq at same)) (held source row later_uri db t distinct le found)
