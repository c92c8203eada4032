-- ===== src/Chunker/Chunks.antt =====
-- `chunkMarkdown` of src/ingestion/chunker.ts.
pub mod Ordinals
pub mod Content
use docent.Base.{
  ℕ, Option, none, some, List, [], ◌∷◌, ◌++◌, ◌==◌, if◌then◌else◌, length, Text, trim,
}
use docent.Chunker.Trackers.{default_max_tokens}
use docent.Chunker.Split.{split_oversized_section}
use docent.Chunker.Sections.{Section, split_into_sections}
use docent.Chunker.Merge.{merge_undersized_sections}

pub record Chunk : Type 0 where
  pub content : Text
  pub heading_path : List Text
  pub token_count : ℕ
  pub ordinal : ℕ

-- An option that is left out takes its default.
pub record ChunkOptions : Type 0 where
  pub target_tokens : Option ℕ
  pub max_tokens : Option ℕ
  pub min_tokens : Option ℕ

abbrev pub no_options : ChunkOptions
no_options = record { target_tokens = none; max_tokens = none; min_tokens = none }

abbrev or_default : Option ℕ → ℕ → ℕ
or_default none d = d
or_default (some n) d = n

-- `{ ...DEFAULTS, ...options }`
abbrev pub target_of : ChunkOptions → ℕ
target_of options = or_default options.target_tokens 800

abbrev pub max_of : ChunkOptions → ℕ
max_of options = or_default options.max_tokens default_max_tokens

abbrev pub min_of : ChunkOptions → ℕ
min_of options = or_default options.min_tokens 100

module _ (count_tokens : Text → ℕ) where
  pub push_chunk : List Text → List Chunk → Text → List Chunk
  push_chunk heading_path chunks body =
      let trimmed = trim body in
      if length trimmed == 0
      then chunks
      else chunks
        ++ (record {
          content = trimmed;
          heading_path = heading_path;
          token_count = count_tokens trimmed;
          ordinal = length chunks;
        }
            ∷ [])

  pub push_bodies : List Text → List Chunk → List Text → List Chunk
  push_bodies heading_path chunks [] = chunks
  push_bodies heading_path chunks (body ∷ bodies) =
      push_bodies heading_path (push_chunk heading_path chunks body) bodies

  pub push_sections : ℕ → ℕ → ℕ → List Chunk → List Section → List Chunk
  unfolding push_bodies push_chunk
  push_sections target_tokens max_tokens min_tokens chunks [] = chunks
  push_sections target_tokens max_tokens min_tokens chunks (section ∷ sections) =
      push_sections target_tokens max_tokens min_tokens
        (push_bodies section.heading_path chunks
          (split_oversized_section count_tokens target_tokens max_tokens min_tokens section.lines))
        sections

  unfoldable pub chunk_markdown : Text → ChunkOptions → List Chunk
  unfolding push_sections
  chunk_markdown content options =
      push_sections (target_of options) (max_of options) (min_of options) []
        (merge_undersized_sections count_tokens (min_of options) (split_into_sections content))
