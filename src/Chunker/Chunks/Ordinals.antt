-- ===== src/Chunker/Chunks/Ordinals.antt =====
-- The chunks of src/ingestion/chunker.ts are numbered from zero without a gap, and each is a
-- trimmed text that is not empty, with its own count of tokens.
use docent.Base.{
  ℕ, suc, ◌+◌, ◌<◌, ◌≡◌, refl, false, List, [], ◌∷◌, ◌++◌, arith, ◌==◌, if_elim, length, Text, trim,
  trim-trim,
}
use docent.Chunker.Sections.{Section, split_into_sections}
use docent.Chunker.Merge.{merge_undersized_sections}
use docent.Chunker.Split.{split_oversized_section}
use docent.Chunker.Chunks.{
  Chunk, ChunkOptions, push_chunk, push_bodies, push_sections, chunk_markdown, target_of, max_of,
  min_of,
}

pos_of_test : (n : ℕ) → (n == 0) ≡ false → 0 < n
pos_of_test n h = ground arith

module _ (count_tokens : Text → ℕ) where
  abbrev IsChunk : ℕ → Chunk → Type 0
  IsChunk i c =
      (c.ordinal ≡ i)
      × (0 < length c.content)
      × (trim c.content ≡ c.content)
      × (c.token_count ≡ count_tokens c.content)

  abbrev pub AreChunksFrom : ℕ → List Chunk → Type 0
  AreChunksFrom i [] = Unit
  AreChunksFrom i (c ∷ chunks) = IsChunk i c × AreChunksFrom (suc i) chunks

  AreChunksFrom-append :
      (i : ℕ) (chunks : List Chunk) (c : Chunk)
      → AreChunksFrom i chunks
      → IsChunk (i + length chunks) c
      → AreChunksFrom i (chunks ++ (c ∷ []))
  AreChunksFrom-append i [] c _ (e, h, k, l) = ((omega arith, h, k, l), tt)
  AreChunksFrom-append i (d ∷ chunks) c (first, rest) (e, h, k, l) =
      (first, AreChunksFrom-append (suc i) chunks c rest (omega arith, h, k, l))

  push_chunk-AreChunksFrom :
      (heading_path : List Text) (chunks : List Chunk) (body : Text)
      → AreChunksFrom 0 chunks
      → AreChunksFrom 0 (push_chunk count_tokens heading_path chunks body)
  unfolding push_chunk
  push_chunk-AreChunksFrom heading_path chunks body h =
      if_elim (AreChunksFrom 0) (length (trim body) == 0) chunks _ (λ _. h)
        λ e.
          AreChunksFrom-append 0 chunks _ h
            (omega arith, pos_of_test (length (trim body)) e, trim-trim body, refl)

  push_bodies-AreChunksFrom :
      (heading_path : List Text) (chunks : List Chunk) (bodies : List Text)
      → AreChunksFrom 0 chunks
      → AreChunksFrom 0 (push_bodies count_tokens heading_path chunks bodies)
  unfolding push_bodies
  push_bodies-AreChunksFrom heading_path chunks [] h = h
  push_bodies-AreChunksFrom heading_path chunks (body ∷ bodies) h =
      push_bodies-AreChunksFrom heading_path (push_chunk count_tokens heading_path chunks body)
        bodies (push_chunk-AreChunksFrom heading_path chunks body h)

  push_sections-AreChunksFrom :
      (target_tokens max_tokens min_tokens : ℕ) (chunks : List Chunk) (sections : List Section)
      → AreChunksFrom 0 chunks
      → AreChunksFrom 0
          (push_sections count_tokens target_tokens max_tokens min_tokens chunks sections)
  unfolding push_sections
  push_sections-AreChunksFrom target_tokens max_tokens min_tokens chunks [] h = h
  push_sections-AreChunksFrom target_tokens max_tokens min_tokens chunks (section ∷ sections) h =
      push_sections-AreChunksFrom target_tokens max_tokens min_tokens
        (push_bodies count_tokens section.heading_path chunks
          (split_oversized_section count_tokens target_tokens max_tokens min_tokens section.lines))
        sections
        (push_bodies-AreChunksFrom section.heading_path chunks
          (split_oversized_section count_tokens target_tokens max_tokens min_tokens section.lines)
          h)

  -- Whatever the document and the options, the chunks are numbered 0, 1, 2 and so on in order, and
  -- each has a content that is trimmed and not empty and the number of tokens of that content.
  pub chunk_markdown-AreChunksFrom :
      (content : Text) (options : ChunkOptions)
      → AreChunksFrom 0 (chunk_markdown count_tokens content options)
  unfolding chunk_markdown
  chunk_markdown-AreChunksFrom content options =
      push_sections-AreChunksFrom (target_of options) (max_of options) (min_of options) []
        (merge_undersized_sections count_tokens (min_of options) (split_into_sections content)) tt
