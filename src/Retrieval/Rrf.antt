-- ===== src/Retrieval/Rrf.antt =====
-- `fuseByRrf` of src/retrieval/rrf.ts, with the types of src/retrieval/retrieval.types.ts.
pub mod Order
pub mod Single
use docent.Base.{
  ℕ, suc, ◌+◌, ◌*◌, ◌≤◌, ◌≡◌, Bool, true, false, Option, none, some, List, [], ◌∷◌, if◌then◌else◌,
  Text,
}
use docent.Maps.{lookup, put}

pub record RankedChunk : Type 0 where
  pub chunk_id : Text
  pub document_path : Text
  pub heading_path : List Text
  pub content : Text

-- The arithmetic of JavaScript numbers, as far as the fusion uses it: `0`, `+`, `1 / n`, and
-- whether a difference is positive.
pub record Arithmetic : Type 1 where
  pub Score : Type 0
  pub nought : Score
  pub plus : Score → Score → Score
  pub reciprocal : ℕ → Score
  pub exceeds : Score → Score → Bool

-- What is documented of those numbers while none is NaN: 0 is neutral, the order is that of a line,
-- and the reciprocal of a larger number is no larger.
pub record IsArithmetic (A : Arithmetic) : Type 0 where
  pub nought-plus : (x : A.Score) → A.plus A.nought x ≡ x
  pub exceeds_asym : (x y : A.Score) → A.exceeds x y ≡ true → A.exceeds y x ≡ false
  pub exceeds_trans :
      (x y z : A.Score) → A.exceeds y x ≡ false → A.exceeds z y ≡ false → A.exceeds z x ≡ false
  pub reciprocal_antitone : (m n : ℕ) → m ≤ n → A.exceeds (A.reciprocal n) (A.reciprocal m) ≡ false

module _ (A : Arithmetic) where
  pub record RetrievedChunk : Type 0 where
    pub chunk : RankedChunk
    pub open chunk use *
    pub score : A.Score

  -- The two maps.
  pub record Fusion : Type 0 where
    pub scores : List (Text × A.Score)
    pub payloads : List (Text × RankedChunk)

  abbrev pub no_fusion : Fusion
  no_fusion = record { scores = []; payloads = [] }

  abbrev score_or_nought : Option A.Score → A.Score
  score_or_nought none = A.nought
  score_or_nought (some score) = score

  abbrev put_missing :
      Text
      → RankedChunk
      → Option RankedChunk
      → List (Text × RankedChunk)
      → List (Text × RankedChunk)
  put_missing k chunk none payloads = put k chunk payloads
  put_missing k chunk (some _) payloads = payloads

  pub add_chunk : ℕ → Fusion → RankedChunk → Fusion
  add_chunk denominator fusion chunk = record {
    scores =
        put chunk.chunk_id
          (A.plus (score_or_nought (lookup chunk.chunk_id fusion.scores))
            (A.reciprocal denominator))
          fusion.scores;
    payloads =
        put_missing chunk.chunk_id chunk (lookup chunk.chunk_id fusion.payloads) fusion.payloads;
  }

  -- The loop over one list; `denominator` is `rrfK + rank` at its head.
  pub add_list : ℕ → Fusion → List RankedChunk → Fusion
  unfolding add_chunk
  add_list denominator fusion [] = fusion
  add_list denominator fusion (chunk ∷ list) =
      add_list (suc denominator) (add_chunk denominator fusion chunk) list

  pub add_lists : ℕ → Fusion → List (List RankedChunk) → Fusion
  unfolding add_list
  add_lists rrf_k fusion [] = fusion
  add_lists rrf_k fusion (list ∷ lists) = add_lists rrf_k (add_list (rrf_k + 1) fusion list) lists

  abbrev with_payload : Option RankedChunk → A.Score → List RetrievedChunk → List RetrievedChunk
  with_payload none score fused = fused
  with_payload (some chunk) score fused = record { chunk = chunk; score = score } ∷ fused

  pub collect : List (Text × RankedChunk) → List (Text × A.Score) → List RetrievedChunk
  collect payloads [] = []
  collect payloads ((k, score) ∷ scores) =
      with_payload (lookup k payloads) score (collect payloads scores)

  -- `fused.sort((a, b) => b.score - a.score)`, which is stable.
  pub insert_sorted : RetrievedChunk → List RetrievedChunk → List RetrievedChunk
  insert_sorted a [] = a ∷ []
  insert_sorted a (b ∷ rest) =
      if A.exceeds b.score a.score then b ∷ insert_sorted a rest else a ∷ b ∷ rest

  pub sort_descending : List RetrievedChunk → List RetrievedChunk
  unfolding insert_sorted
  sort_descending [] = []
  sort_descending (a ∷ rest) = insert_sorted a (sort_descending rest)

  unfoldable pub fuse_by_rrf : List (List RankedChunk) → ℕ → List RetrievedChunk
  unfolding add_lists collect sort_descending
  fuse_by_rrf lists rrf_k =
      let fusion = add_lists rrf_k no_fusion lists in
      sort_descending (collect fusion.payloads fusion.scores)
