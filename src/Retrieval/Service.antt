-- ===== src/Retrieval/Service.antt =====
-- Retrieval: src/retrieval/retrieval.service.ts.
pub mod Laws
use docent.Base.{
  ◌>>=◌, ℕ, Option, none, some, List, [], ◌∷◌, map, take, Text, codes, Result, ok, err,
}
use docent.Errors.{Thrown, new_error}
use docent.Cache.Keys.{embedding_key}
use docent.Cache.Client.{Client, get_vector, set_vector}
use docent.Retrieval.Rrf
use docent.Retrieval.Rrf.{RankedChunk, RetrievedChunk, fuse_by_rrf}

-- What the service is given: its configuration, the digest and the numerals of the keys, the codec
-- of the cached vectors, the embeddings API, and the two queries, which only read. The state is
-- that of everything that they reach.
pub record Backend (client : Client) : Type 1 where
  pub Vector : Type 0
  pub Distance : Type 0
  pub embed : List Text → client.State → Result Thrown (List Vector) × client.State
  pub search_by_vector : Vector → ℕ → client.State → Result Thrown (List (RankedChunk × Distance))
  pub search_by_text : Text → ℕ → client.State → Result Thrown (List RankedChunk)
  pub encode : Vector → Text
  pub decode : Text → Vector
  pub sha256 : Text → Text
  pub show : ℕ → Text
  pub top_n : ℕ
  pub top_k : ℕ
  pub rrf_k : ℕ
  pub embedding_model : Text
  pub embedding_dimensions : ℕ
  pub embedding_cache_ttl_s : ℕ

module _ (S : Rrf.Arithmetic) (Distance : Type 0) where
  pub record RetrievalResult : Type 0 where
    pub chunks : List (RetrievedChunk S)
    pub best_distance : Option Distance

  -- `byVector[0]?.distance ?? null`
  abbrev nearest : List (RankedChunk × Distance) → Option Distance
  nearest [] = none
  nearest ((chunk, distance) ∷ rows) = some distance

module _ (S : Rrf.Arithmetic) (client : Client) (env : Backend client) where
  abbrev pub key_of : Text → Text
  key_of question =
      embedding_key env.sha256 env.show env.embedding_model env.embedding_dimensions question

  abbrev pub after_embed :
      Text
      → Result Thrown (List env.Vector) × client.State
      → Result Thrown env.Vector × client.State
  after_embed question (err e, w) = (err e, w)
  after_embed question (ok [], w) =
      (err (new_error (codes "no embedding was returned for the question")), w)
  after_embed question (ok (embedding ∷ _), w) = (
    ok embedding,
    set_vector client env.encode env.decode (key_of question) embedding env.embedding_cache_ttl_s w,
  )

  abbrev pub after_read :
      Text → Option env.Vector → client.State → Result Thrown env.Vector × client.State
  after_read question (some cached) w = (ok cached, w)
  after_read question none w = after_embed question (env.embed (question ∷ []) w)

  unfoldable pub embed_question : Text → client.State → Result Thrown env.Vector × client.State
  embed_question question w =
      after_read question (get_vector client env.encode env.decode (key_of question) w) w

  -- Both queries, and their fusion. Where both reject, the error of the first is taken.
  unfoldable pub search_with :
      env.Vector → Text → client.State → Result Thrown (RetrievalResult S env.Distance)
  search_with embedding question w = do
    by_vector ← env.search_by_vector embedding env.top_n w
    by_text ← env.search_by_text question env.top_n w
    ok (record {
      chunks = take env.top_k (
          fuse_by_rrf S (map (λ (row : RankedChunk × env.Distance). row.0) by_vector ∷ by_text ∷ [])
            env.rrf_k);
      best_distance = nearest S env.Distance by_vector;
    })

  abbrev pub after_embedding :
      Text
      → Result Thrown env.Vector × client.State
      → Result Thrown (RetrievalResult S env.Distance) × client.State
  after_embedding question (err e, w) = (err e, w)
  after_embedding question (ok embedding, w) = (search_with embedding question w, w)

  unfoldable pub search :
      Text → client.State → Result Thrown (RetrievalResult S env.Distance) × client.State
  unfolding embed_question search_with
  search question w = after_embedding question (embed_question question w)
