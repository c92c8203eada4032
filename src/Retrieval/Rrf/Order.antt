-- ===== src/Retrieval/Rrf/Order.antt =====
-- The order of what src/retrieval/rrf.ts returns.
use mathlib.Core.List.{Perm}
use mathlib.Core.List.Perm
use docent.Base.{ℕ, ◌≡◌, false, List, [], ◌∷◌, if_elim, All}
use docent.Retrieval.Rrf.{
  Arithmetic, IsArithmetic, RetrievedChunk, RankedChunk, no_fusion, add_lists, collect,
  insert_sorted, sort_descending, fuse_by_rrf,
}

module _ (A : Arithmetic) where
  -- No chunk is followed by one with a larger score.
  abbrev pub IsDescending : List (RetrievedChunk A) → Type 0
  IsDescending [] = Unit
  IsDescending (a ∷ rest) =
      All (λ (b : RetrievedChunk A). A.exceeds b.score a.score ≡ false) rest × IsDescending rest

  module _ (laws : IsArithmetic A) where
    below_trans :
        (x y : A.Score) (rest : List (RetrievedChunk A))
        → A.exceeds y x ≡ false
        → All (λ (b : RetrievedChunk A). A.exceeds b.score y ≡ false) rest
        → All (λ (b : RetrievedChunk A). A.exceeds b.score x ≡ false) rest
    below_trans x y [] h all = tt
    below_trans x y (b ∷ rest) h (p, all) =
        (laws.exceeds_trans x y b.score h p, below_trans x y rest h all)

    below-insert :
        (x : A.Score) (a : RetrievedChunk A) (rest : List (RetrievedChunk A))
        → A.exceeds a.score x ≡ false
        → All (λ (b : RetrievedChunk A). A.exceeds b.score x ≡ false) rest
        → All (λ (b : RetrievedChunk A). A.exceeds b.score x ≡ false) (insert_sorted A a rest)
    unfolding insert_sorted
    below-insert x a [] h all = (h, tt)
    below-insert x a (b ∷ rest) h (p, all) =
        if_elim (All (λ (b : RetrievedChunk A). A.exceeds b.score x ≡ false))
          (A.exceeds b.score a.score) _ _ (λ _. (p, below-insert x a rest h all))
          (λ _. (h, (p, all)))

    insert_sorted-IsDescending :
        (a : RetrievedChunk A) (rest : List (RetrievedChunk A))
        → IsDescending rest
        → IsDescending (insert_sorted A a rest)
    unfolding insert_sorted
    insert_sorted-IsDescending a [] h = (tt, tt)
    insert_sorted-IsDescending a (b ∷ rest) (below, h) =
        if_elim IsDescending (A.exceeds b.score a.score) _ _
          (λ e. (
            below-insert b.score a rest (laws.exceeds_asym b.score a.score e) below,
            insert_sorted-IsDescending a rest h,
          ))
          (λ e. ((e, below_trans a.score b.score rest e below), (below, h)))

    sort_descending-IsDescending :
        (chunks : List (RetrievedChunk A)) → IsDescending (sort_descending A chunks)
    unfolding sort_descending
    sort_descending-IsDescending [] = tt
    sort_descending-IsDescending (a ∷ rest) =
        insert_sorted-IsDescending a (sort_descending A rest) (sort_descending-IsDescending rest)

  insert_sorted-perm :
      (a : RetrievedChunk A) (rest : List (RetrievedChunk A))
      → Perm (insert_sorted A a rest) (a ∷ rest)
  unfolding insert_sorted
  insert_sorted-perm a [] = Perm.refl (a ∷ [])
  insert_sorted-perm a (b ∷ rest) =
      if_elim (λ l. Perm l (a ∷ b ∷ rest)) (A.exceeds b.score a.score) _ _
        (λ _. Perm.trans (Perm.cons b (insert_sorted-perm a rest)) (Perm.swap a b rest))
        (λ _. Perm.refl (a ∷ b ∷ rest))

  sort_descending-perm : (chunks : List (RetrievedChunk A)) → Perm (sort_descending A chunks) chunks
  unfolding sort_descending
  sort_descending-perm [] = Perm.refl []
  sort_descending-perm (a ∷ rest) =
      Perm.trans (insert_sorted-perm a (sort_descending A rest))
        (Perm.cons a (sort_descending-perm rest))

  -- With numbers that are ordered like a line, the fused chunks are those collected from the two
  -- maps, each once, in an order in which no chunk is followed by one with a larger score.
  pub fuse_by_rrf-IsDescending :
      (laws : IsArithmetic A) (lists : List (List RankedChunk)) (rrf_k : ℕ)
      → IsDescending (fuse_by_rrf A lists rrf_k)
        × (let fusion = add_lists A rrf_k (no_fusion A) lists in
            Perm (fuse_by_rrf A lists rrf_k) (collect A fusion.payloads fusion.scores))
  unfolding fuse_by_rrf
  fuse_by_rrf-IsDescending laws lists rrf_k =
      let fusion = add_lists A rrf_k (no_fusion A) lists in
      let fused = collect A fusion.payloads fusion.scores in
      (sort_descending-IsDescending laws fused, sort_descending-perm fused)
