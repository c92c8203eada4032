-- ===== src/Retrieval/Service/Laws.antt =====
-- What a search gives, and that a repeated one calls no embeddings API.
use docent.Base.{
  ℕ, zero, suc, ◌≤◌, ◌≡◌, inl, inr, Option, some, List, [], ◌∷◌, arith, Option-cases, length, take,
  All, Text, Result, ok, err, Holds, Holds-bind, Holds-eq,
}
use docent.Errors.{Thrown}
use docent.Cache.Client.{Client, IsKept, get_vector, set_vector}
use docent.Retrieval.Rrf
use docent.Retrieval.Rrf.{RankedChunk, RetrievedChunk, IsArithmetic, fuse_by_rrf}
use docent.Retrieval.Rrf.Order.{IsDescending, fuse_by_rrf-IsDescending}
use docent.Retrieval.Service.{
  Backend, RetrievalResult, key_of, after_embed, embed_question, search_with, after_embedding,
  search,
}

module _ (S : Rrf.Arithmetic) where
  take-All {κ} :
      (P : RetrievedChunk S → Type κ) (n : ℕ) (chunks : List (RetrievedChunk S))
      → All P chunks
      → All P (take n chunks)
  take-All P zero chunks h = tt
  take-All P (suc n) [] h = tt
  take-All P (suc n) (c ∷ chunks) (h, hs) = (h, take-All P n chunks hs)

  take-IsDescending :
      (n : ℕ) (chunks : List (RetrievedChunk S))
      → IsDescending S chunks
      → IsDescending S (take n chunks)
  take-IsDescending zero chunks h = tt
  take-IsDescending (suc n) [] h = tt
  take-IsDescending (suc n) (c ∷ chunks) (below, h) =
      (take-All _ n chunks below, take-IsDescending n chunks h)

  length-take : (n : ℕ) (chunks : List (RetrievedChunk S)) → length (take n chunks) ≤ n
  length-take zero chunks = omega arith
  length-take (suc n) [] = omega arith
  length-take (suc n) (c ∷ chunks) = omega (arith, length-take n chunks)

module _ (S : Rrf.Arithmetic) (client : Client) (env : Backend client) where
  -- At most `topK` chunks, in an order in which none is followed by one with a larger score.
  abbrev pub IsRanking : RetrievalResult S env.Distance → Type 0
  IsRanking result = (length result.chunks ≤ env.top_k) × IsDescending S result.chunks

  search_with-IsRanking :
      (laws : IsArithmetic S) (embedding : env.Vector) (question : Text) (w : client.State)
      → Holds IsRanking (search_with S client env embedding question w)
  unfolding search_with
  search_with-IsRanking laws embedding question w =
      Holds-bind (λ _. Unit {0}) IsRanking (env.search_by_vector embedding env.top_n w) _
        (Holds-eq _ _ λ _ _. tt)
        λ by_vector _.
          Holds-bind (λ _. Unit {0}) IsRanking (env.search_by_text question env.top_n w) _
            (Holds-eq _ _ λ _ _. tt)
            λ by_text _. (
              length-take S env.top_k _,
              take-IsDescending S env.top_k _ (fuse_by_rrf-IsDescending S laws _ env.rrf_k).0,
            )

  -- With numbers that are ordered like a line, a search that succeeds returns at most `topK`
  -- chunks, and none is followed by one with a larger score.
  pub search-IsRanking :
      (laws : IsArithmetic S) (question : Text) (w : client.State)
      → Holds IsRanking (search S client env question w).0
  unfolding search
  search-IsRanking laws question w = go (embed_question S client env question w)
    where
      go :
          (r : Result Thrown env.Vector × client.State)
          → Holds IsRanking (after_embedding S client env question r).0
      go (err e, w) = tt
      go (ok embedding, w) = search_with-IsRanking laws embedding question w

  module _ (kept : IsKept client) where
    abbrev cached_vector : Text → client.State → Option env.Vector
    cached_vector question w =
        get_vector client env.encode env.decode (key_of S client env question) w

    -- Behind an embedding the cache holds a vector for the question.
    abbrev Keeps : {A : Type 0} → Text → Result Thrown A × client.State → Type 0
    Keeps question (ok _, w) = (v : env.Vector) × (cached_vector question w ≡ some v)
    Keeps question (err _, w) = Unit

    after_embed-Keeps :
        (question : Text) (r : Result Thrown (List env.Vector) × client.State)
        → Keeps question (after_embed S client env question r)
    unfolding get_vector set_vector
    after_embed-Keeps question (err _, w) = tt
    after_embed-Keeps question (ok [], w) = tt
    after_embed-Keeps question (ok (embedding ∷ _), w) = (
      env.decode (env.encode embedding),
      rw (
          kept.get_set (key_of S client env question) (env.encode embedding)
            env.embedding_cache_ttl_s w),
    )

    embed_question-Keeps :
        (question : Text) (w : client.State)
        → Keeps question (embed_question S client env question w)
    unfolding embed_question
    embed_question-Keeps question w = elim (Option-cases (cached_vector question w)) [
      | inl e ↦ rw e (after_embed-Keeps question (env.embed (question ∷ []) w))
      | inr (v, e) ↦ rw e (v, e)
    ]

    search-Keeps :
        (question : Text) (w : client.State) → Keeps question (search S client env question w)
    unfolding search
    search-Keeps question w =
        go (embed_question S client env question w) (embed_question-Keeps question w)
      where
        keep_ok :
            {A : Type 0} (r : Result Thrown A) (w : client.State)
            → ((v : env.Vector) × (cached_vector question w ≡ some v))
            → Keeps question (r, w)
        keep_ok (ok _) w h = h
        keep_ok (err _) w h = tt

        go :
            (r : Result Thrown env.Vector × client.State)
            → Keeps question r
            → Keeps question (after_embedding S client env question r)
        go (err _, w) h = tt
        go (ok embedding, w) h = keep_ok (search_with S client env embedding question w) w h

    -- With a cache that keeps what it is given, after a search that succeeded the vector of the
    -- question is cached, and a search for the same question runs the two queries with that
    -- vector: it calls no embedding provider and writes nothing.
    pub search_again :
        (question : Text) (w w' : client.State) (result : RetrievalResult S env.Distance)
        → search S client env question w ≡ (ok result, w')
        → (v : env.Vector) × (get_vector client env.encode env.decode
              (key_of S client env question)
              w'
            ≡ some v)
          × (search S client env question w' ≡ (search_with S client env v question w', w'))
    unfolding search embed_question
    search_again question w w' result h =
        let (v, e) = rw h at (search-Keeps question w) in (v, e, rw e)
