-- ===== src/Ingestion/Preserved.antt =====
-- That the statements of src/ingestion/ingestion.repository.ts keep the counts.
use docent.Base.{
  ℕ, suc, ◌<◌, ◌≡◌, refl, sym, inl, inr, Bool, true, false, not, ◌&&◌, Option, List, [], ◌∷◌, arith,
  ◌==◌, ==_iff, Bool-cases, if_elim, keep, any_of, All, All-append, Text, text_eq, keep-All,
}
use docent.Ingestion.Tables.{
  SourceRow, DocumentInput, ChunkInput, DocumentRow, Database, update_rows, has_id, is_of_source,
  is_insertable, create_source, delete_source, delete_source_content, claim_for_processing,
  insert_document_with_chunks,
}
use docent.Ingestion.Counts.{
  Operation, create, delete, delete_content, to_processing, claim, touch, to_ready, to_failed,
  skipped, insert, tick, run, IsCounted, IsWellFormed, update_rows-All, kept-counts, added-counts,
  fresh-counts,
}

module _ (Embedding : Type 0) where
  All-weaken {ℓ κ ι} :
      {A : Type ℓ} (P : A → Type κ) (Q : A → Type ι) (xs : List A)
      → ((x : A) → P x → Q x)
      → All P xs
      → All Q xs
  All-weaken P Q [] f h = tt
  All-weaken P Q (x ∷ xs) f (h, hs) = (f x h, All-weaken P Q xs f hs)

  known_below :
      (id bound : ℕ) (sources : List SourceRow)
      → All (λ (s : SourceRow). s.id < bound) sources
      → any_of (has_id id) sources ≡ true
      → id < bound
  known_below id bound [] all h = absurd (cc)
  known_below id bound (s ∷ sources) (b, all) h = elim (Bool-cases (s.id == id)) [
    | inl e ↦ (let same = (==_iff s.id id).0 e in omega (arith, same, b))
    | inr e ↦ known_below id bound sources all (rw e at h)
  ]

  -- The updates that leave the counts alone.
  update-IsWellFormed :
      (db : Database Embedding) (where_row : SourceRow → Bool) (set_row : SourceRow → SourceRow)
      → ((s : SourceRow) → (set_row s).id ≡ s.id)
      → ((s : SourceRow) → (set_row s).document_count ≡ s.document_count)
      → ((s : SourceRow) → (set_row s).chunk_count ≡ s.chunk_count)
      → IsWellFormed Embedding db
      → IsWellFormed Embedding (record db { sources = update_rows where_row set_row db.sources })
  update-IsWellFormed db where_row set_row same_id same_documents same_chunks
        ((counted, bounded), below) =
      (
        (
          update_rows-All Embedding (IsCounted Embedding db.documents)
              (IsCounted Embedding db.documents) where_row set_row db.sources
              (λ s h _. rw (same_id s, same_documents s, same_chunks s) h) (λ s h _. h) counted,
          bounded,
        ),
        update_rows-All Embedding (λ (s : SourceRow). s.id < db.next_id)
            (λ (s : SourceRow). s.id < db.next_id) where_row set_row db.sources
            (λ s h _. rw (same_id s) h) (λ s h _. h) below,
      )

  create-IsWellFormed :
      (uri kind : Text) (db : Database Embedding)
      → IsWellFormed Embedding db
      → IsWellFormed Embedding (create_source Embedding uri kind db).1
  unfolding create_source
  create-IsWellFormed uri kind db ((counted, bounded), below) =
      if_elim (λ (r : Option ℕ × Database Embedding). IsWellFormed Embedding r.1)
        (any_of (λ s. text_eq s.uri uri) db.sources) _ _ (λ _. ((counted, bounded), below))
        (λ _.
          let (docs, chunks) = fresh-counts Embedding db.next_id db.documents bounded in
          (
            (
              All-append (IsCounted Embedding db.documents) db.sources _ counted
                  ((sym docs, sym chunks), tt),
              All-weaken _ (λ (d : DocumentRow Embedding). d.source_id < suc db.next_id)
                  db.documents (λ d h. omega arith) bounded,
            ),
            All-append (λ (s : SourceRow). s.id < suc db.next_id) db.sources _
                (All-weaken _ _ db.sources (λ s h. omega arith) below) (omega arith, tt),
          ))

  delete-IsWellFormed :
      (id : ℕ) (db : Database Embedding)
      → IsWellFormed Embedding db
      → IsWellFormed Embedding (delete_source Embedding id db)
  unfolding delete_source
  delete-IsWellFormed id db ((counted, bounded), below) = (
    (kept_sources db.sources counted, keep-All _ _ db.documents bounded),
    keep-All _ _ db.sources below,
  )
    where
      kept_sources :
          (sources : List SourceRow)
          → All (IsCounted Embedding db.documents) sources
          → All
              (IsCounted Embedding (keep (λ d. not (is_of_source Embedding id d)) db.documents))
              (keep (λ s. not (has_id id s)) sources)
      kept_sources [] h = tt
      kept_sources (s ∷ sources) (h, hs) = elim (Bool-cases (s.id == id)) [
        | inl e ↦ rw e (kept_sources sources hs)
        | inr e ↦
            let (docs, chunks) = kept-counts Embedding id s.id db.documents in
            rw e (rw (docs, chunks, e) h, kept_sources sources hs)
      ]

  delete_content-IsWellFormed :
      (id : ℕ) (db : Database Embedding)
      → IsWellFormed Embedding db
      → IsWellFormed Embedding (delete_source_content Embedding id db)
  unfolding delete_source_content
  delete_content-IsWellFormed id db ((counted, bounded), below) = (
    (
      update_rows-All Embedding (IsCounted Embedding db.documents)
          (IsCounted Embedding (keep (λ d. not (is_of_source Embedding id d)) db.documents))
          (has_id id) (λ s. record s { document_count = 0; chunk_count = 0; updated_at = db.now })
          db.sources
          (λ s h e.
            let (docs, chunks) = kept-counts Embedding id s.id db.documents in
            rw (docs, chunks, e) (refl, refl))
          (λ s h e.
            let (docs, chunks) = kept-counts Embedding id s.id db.documents in
            rw (docs, chunks, e) h)
          counted,
      keep-All _ _ db.documents bounded,
    ),
    update_rows-All Embedding (λ (s : SourceRow). s.id < db.next_id) _ _ _ db.sources (λ s h _. h)
        (λ s h _. h) below,
  )

  insert-IsWellFormed :
      (id : ℕ) (document : DocumentInput) (chunks : List (ChunkInput Embedding))
      (db : Database Embedding)
      → IsWellFormed Embedding db
      → IsWellFormed Embedding (insert_document_with_chunks Embedding id document chunks db).1
  unfolding insert_document_with_chunks
  insert-IsWellFormed id document chunks db ((counted, bounded), below) =
      if_elim (λ (r : Bool × Database Embedding). IsWellFormed Embedding r.1)
        (is_insertable Embedding id document chunks db) _ _
        (λ e. (
          (
            update_rows-All Embedding (IsCounted Embedding db.documents) _ _ _ db.sources
                (λ s h k.
                  let (d, c) = added-counts Embedding s.id db.documents row in
                  let own = same_test s.id id k in
                  rw (d, c, own) (omega (arith, h.0), omega (arith, h.1)))
                (λ s h k.
                  let (d, c) = added-counts Embedding s.id db.documents row in
                  let own = other_test s.id id k in rw (d, c, own) h)
                counted,
            All-append (λ (d : DocumentRow Embedding). d.source_id < db.next_id) db.documents _
                bounded (known_below id db.next_id db.sources below (both _ _ _ e), tt),
          ),
          update_rows-All Embedding (λ (s : SourceRow). s.id < db.next_id) _ _ _ db.sources
              (λ s h _. h) (λ s h _. h) below,
        ))
        (λ _. ((counted, bounded), below))
    where
      row : DocumentRow Embedding
      row = record { source_id = id; document = document; chunks = chunks }

      both : (a b c : Bool) → a && b && c ≡ true → a ≡ true
      both a b c h = ground arith

      same_test : (i j : ℕ) → (i == j) ≡ true → (j == i) ≡ true
      same_test i j h = ground arith

      other_test : (i j : ℕ) → (i == j) ≡ false → (j == i) ≡ false
      other_test i j h = ground arith

  -- Every statement of the repository keeps each source's `document_count` and `chunk_count` equal
  -- to the number of its documents and of their chunks, also a transaction that is rolled back,
  -- and every source identifier in the tables below the next one.
  pub run-IsWellFormed :
      (operation : Operation Embedding) (db : Database Embedding)
      → IsWellFormed Embedding db
      → IsWellFormed Embedding (run Embedding operation db)
  unfolding run claim_for_processing
  run-IsWellFormed (create uri kind) db h = create-IsWellFormed uri kind db h
  run-IsWellFormed (delete id) db h = delete-IsWellFormed id db h
  run-IsWellFormed (delete_content id) db h = delete_content-IsWellFormed id db h
  run-IsWellFormed (to_processing id commit_sha) db h =
      update-IsWellFormed db _ _ (λ s. refl) (λ s. refl) (λ s. refl) h
  run-IsWellFormed (claim id stale_before) db h =
      update-IsWellFormed db _ _ (λ s. refl) (λ s. refl) (λ s. refl) h
  run-IsWellFormed (touch id) db h =
      update-IsWellFormed db _ _ (λ s. refl) (λ s. refl) (λ s. refl) h
  run-IsWellFormed (to_ready id) db h =
      update-IsWellFormed db _ _ (λ s. refl) (λ s. refl) (λ s. refl) h
  run-IsWellFormed (to_failed id error) db h =
      update-IsWellFormed db _ _ (λ s. refl) (λ s. refl) (λ s. refl) h
  run-IsWellFormed (skipped id n) db h =
      update-IsWellFormed db _ _ (λ s. refl) (λ s. refl) (λ s. refl) h
  run-IsWellFormed (insert id document chunks) db h = insert-IsWellFormed id document chunks db h
  run-IsWellFormed (tick now) db h = h
