-- ===== src/Retrieval/Rrf/Single.antt =====
-- The fusion of src/retrieval/rrf.ts when the lexical arm returns nothing.
use docent.Base.{
  ℕ, suc, ◌+◌, ◌≤◌, ◌≡◌, refl, ◌∙◌, ◌≢◌, none, some, List, [], ◌∷◌, ◌++◌, map, append-nil,
  append_assoc, arith, All, Text, text_eq_refl, text_eq-ne,
}
use docent.Maps.{lookup, put-new}
use docent.Retrieval.Rrf.{
  Arithmetic, IsArithmetic, RetrievedChunk, RankedChunk, Fusion, no_fusion, add_chunk, add_list,
  collect, insert_sorted, sort_descending, fuse_by_rrf,
}

-- No two chunks have one identifier.
abbrev pub HasDistinctIds : List RankedChunk → Type 0
HasDistinctIds [] = Unit
HasDistinctIds (c ∷ list) =
    All (λ (d : RankedChunk). c.chunk_id ≢ d.chunk_id) list × HasDistinctIds list

abbrev payload_entries : List RankedChunk → List (Text × RankedChunk)
payload_entries list = map (λ (c : RankedChunk). (c.chunk_id, c)) list

-- What holds of the entries behind a new first one.
lookup-behind :
    (c : RankedChunk) (entries : List (Text × RankedChunk)) (list : List RankedChunk)
    → All (λ (d : RankedChunk). c.chunk_id ≢ d.chunk_id) list
    → All (λ (d : RankedChunk). lookup d.chunk_id entries ≡ some d) list
    → All (λ (d : RankedChunk). lookup d.chunk_id ((c.chunk_id, c) ∷ entries) ≡ some d) list
unfolding lookup
lookup-behind c entries [] ne all = tt
lookup-behind c entries (d ∷ list) (h, ne) (e, all) =
    (rw (text_eq-ne c.chunk_id d.chunk_id h) e, lookup-behind c entries list ne all)

lookup-payload_entries :
    (list : List RankedChunk)
    → HasDistinctIds list
    → All (λ (c : RankedChunk). lookup c.chunk_id (payload_entries list) ≡ some c) list
unfolding lookup
lookup-payload_entries [] h = tt
lookup-payload_entries (c ∷ list) (ne, h) = (
  rw (text_eq_refl c.chunk_id),
  lookup-behind c (payload_entries list) list ne (lookup-payload_entries list h),
)

module _ (A : Arithmetic) where
  -- The vector ranking itself, each chunk with the score of its place.
  abbrev pub ranked : ℕ → List RankedChunk → List (RetrievedChunk A)
  ranked denominator [] = []
  ranked denominator (c ∷ list) =
      record { chunk = c; score = A.plus A.nought (A.reciprocal denominator) }
      ∷ ranked (suc denominator) list

  abbrev score_entries : ℕ → List RankedChunk → List (Text × A.Score)
  score_entries denominator [] = []
  score_entries denominator (c ∷ list) =
      (c.chunk_id, A.plus A.nought (A.reciprocal denominator))
      ∷ score_entries (suc denominator) list

  -- The chunk is new to both maps.
  abbrev IsNewTo : Fusion A → RankedChunk → Type 0
  IsNewTo f c = (lookup c.chunk_id f.scores ≡ none) × (lookup c.chunk_id f.payloads ≡ none)

  abbrev appended : Fusion A → ℕ → RankedChunk → Fusion A
  appended f denominator c = record {
    scores = f.scores ++ ((c.chunk_id, A.plus A.nought (A.reciprocal denominator)) ∷ []);
    payloads = f.payloads ++ ((c.chunk_id, c) ∷ []);
  }

  add_chunk-new :
      (denominator : ℕ) (f : Fusion A) (c : RankedChunk)
      → IsNewTo f c
      → add_chunk A denominator f c ≡ appended f denominator c
  unfolding add_chunk
  add_chunk-new denominator f c (h, k) =
      rw (h, k)
        (rw (
          put-new c.chunk_id (A.plus A.nought (A.reciprocal denominator)) f.scores h,
          put-new c.chunk_id c f.payloads k,
        ))

  lookup-append {ℓ} :
      {V : Type ℓ} (j k : Text) (v : V) (m : List (Text × V))
      → k ≢ j
      → lookup j m ≡ none
      → lookup j (m ++ ((k, v) ∷ [])) ≡ none
  unfolding lookup
  lookup-append j k v [] ne h = rw (text_eq-ne k j ne)
  lookup-append j k v ((i, w) ∷ m) ne h = ground (arith, lookup-append j k v m ne)

  still-new :
      (f : Fusion A) (denominator : ℕ) (c : RankedChunk) (list : List RankedChunk)
      → All (λ (d : RankedChunk). c.chunk_id ≢ d.chunk_id) list
      → All (IsNewTo f) list
      → All (IsNewTo (appended f denominator c)) list
  still-new f denominator c [] ne all = tt
  still-new f denominator c (d ∷ list) (h, ne) ((p, q), all) = (
    (
      lookup-append d.chunk_id c.chunk_id _ f.scores h p,
      lookup-append d.chunk_id c.chunk_id c f.payloads h q,
    ),
    still-new f denominator c list ne all,
  )

  add_list-new :
      (denominator : ℕ) (f : Fusion A) (list : List RankedChunk)
      → HasDistinctIds list
      → All (IsNewTo f) list
      → add_list A denominator f list ≡ record {
        scores = f.scores ++ score_entries denominator list;
        payloads = f.payloads ++ payload_entries list;
      }
  unfolding add_list
  add_list-new denominator f [] h all = rw (append-nil f.scores, append-nil f.payloads)
  add_list-new denominator f (c ∷ list) (ne, h) (new, all) =
      rw (add_chunk-new denominator f c new) (
        add_list-new (suc denominator) (appended f denominator c) list h
          (still-new f denominator c list ne all)
        ∙ (rw (append_assoc, append_assoc)))

  collect-score_entries :
      (denominator : ℕ) (payloads : List (Text × RankedChunk)) (list : List RankedChunk)
      → All (λ (c : RankedChunk). lookup c.chunk_id payloads ≡ some c) list
      → collect A payloads (score_entries denominator list) ≡ ranked denominator list
  unfolding collect
  collect-score_entries denominator payloads [] all = refl
  collect-score_entries denominator payloads (c ∷ list) (e, all) =
      rw (e, collect-score_entries (suc denominator) payloads list all)

  module _ (laws : IsArithmetic A) where
    insert_sorted-ranked :
        (m n : ℕ) (c : RankedChunk) (list : List RankedChunk)
        → m ≤ n
        → let a : RetrievedChunk A = record {
          chunk = c;
          score = A.plus A.nought (A.reciprocal m);
        } in
          insert_sorted A a (ranked n list) ≡ a ∷ ranked n list
    unfolding insert_sorted
    insert_sorted-ranked m n c [] h = refl
    insert_sorted-ranked m n c (d ∷ list) h = rw (
      laws.nought-plus (A.reciprocal m),
      laws.nought-plus (A.reciprocal n),
      laws.reciprocal_antitone m n h,
    )

    sort_descending-ranked :
        (denominator : ℕ) (list : List RankedChunk)
        → sort_descending A (ranked denominator list) ≡ ranked denominator list
    unfolding sort_descending
    sort_descending-ranked denominator [] = refl
    sort_descending-ranked denominator (c ∷ list) =
        rw (sort_descending-ranked (suc denominator) list)
          (insert_sorted-ranked denominator (suc denominator) c list (omega arith))

    every_new : (list : List RankedChunk) → All (IsNewTo (no_fusion A)) list
    unfolding lookup
    every_new [] = tt
    every_new (c ∷ list) = ((refl, refl), every_new list)

    -- With an empty lexical arm, and numbers whose reciprocals fall, the fusion returns exactly
    -- the vector arm's ranking, its chunks and their order, each scored by the reciprocal of
    -- `rrfK` plus its rank, provided that the vector arm names no chunk twice.
    pub fuse_by_rrf-ranked :
        (by_vector : List RankedChunk) (rrf_k : ℕ)
        → HasDistinctIds by_vector
        → fuse_by_rrf A (by_vector ∷ [] ∷ []) rrf_k ≡ ranked (rrf_k + 1) by_vector
    unfolding fuse_by_rrf
    fuse_by_rrf-ranked by_vector rrf_k h =
        rw (add_list-new (rrf_k + 1) (no_fusion A) by_vector h (every_new by_vector)) (
          rw
            (collect-score_entries (rrf_k + 1) (payload_entries by_vector) by_vector
              (lookup-payload_entries by_vector h))
            (sort_descending-ranked (rrf_k + 1) by_vector))
