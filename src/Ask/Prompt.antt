-- ===== src/Ask/Prompt.antt =====
-- The prompt and the citations: src/ask/prompt.ts.
use docent.Base.{ℕ, suc, List, [], ◌∷◌, ◌++◌, ltb, if◌then◌else◌, length, Text, codes, join}
use docent.Llm.Types.{CompletionRequest}
use docent.Retrieval.Rrf
use docent.Retrieval.Rrf.{RetrievedChunk}
use docent.Cost
use docent.Ask.Types.{Citation}

-- `SYSTEM`
unfoldable pub system_prompt : Text
system_prompt = join (10 ∷ []) (
    codes "You answer questions about a documentation corpus."
    ∷ []
    ∷ codes "Answer only from the numbered sources given to you. Never use knowledge"
    ∷ codes "from outside them, and never invent an API, an option or a file name that"
    ∷ codes "the sources do not contain."
    ∷ []
    ∷ codes "Cite inline with the source number in square brackets, like [1] or [2],"
    ∷ codes "immediately after the claim it supports. Cite every claim."
    ∷ []
    ∷ codes "If the sources do not answer the question, say so plainly instead of"
    ∷ codes "assembling a plausible answer."
    ∷ []
    ∷ codes "Answer in the same language as the question, even though the sources are"
    ∷ codes "in English."
    ∷ [])

-- `String(n)` of a whole number is the caller's.
module _ (S : Rrf.Arithmetic) (C : Cost.Arithmetic) where
  abbrev citation_of : ℕ → RetrievedChunk S → Citation S C
  citation_of ordinal chunk = record {
    ordinal = ordinal;
    chunk_id = chunk.chunk_id;
    path = chunk.document_path;
    heading_path = chunk.heading_path;
    score = chunk.score;
  }

  unfoldable pub citations_from : ℕ → List (RetrievedChunk S) → List (Citation S C)
  citations_from ordinal [] = []
  citations_from ordinal (chunk ∷ chunks) =
      citation_of ordinal chunk ∷ citations_from (suc ordinal) chunks

  unfoldable pub to_citations : List (RetrievedChunk S) → List (Citation S C)
  unfolding citations_from
  to_citations chunks = citations_from 1 chunks

  module _ (show : ℕ → Text) where
    abbrev label_of : RetrievedChunk S → Text
    label_of chunk =
        let heading = join (codes " > ") chunk.heading_path in
        if ltb 0 (length heading)
        then chunk.document_path ++ (codes " — " ++ heading)
        else chunk.document_path

    abbrev source_of : ℕ → RetrievedChunk S → Text
    source_of ordinal chunk =
        codes "[" ++ (show ordinal ++ (codes "] " ++ (label_of chunk ++ (10 ∷ chunk.content))))

    sources_from : ℕ → List (RetrievedChunk S) → List Text
    sources_from ordinal [] = []
    sources_from ordinal (chunk ∷ chunks) =
        source_of ordinal chunk ∷ sources_from (suc ordinal) chunks

    unfoldable pub build_prompt : Text → List (RetrievedChunk S) → CompletionRequest
    unfolding sources_from
    build_prompt question chunks = record {
      system = system_prompt;
      user =
          codes "Sources:\n\n"
          ++ (join (codes "\n\n---\n\n") (sources_from 1 chunks)
              ++ (codes "\n\n---\n\nQuestion: " ++ question));
    }
