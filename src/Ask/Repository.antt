-- ===== src/Ask/Repository.antt =====
-- The answer tables behind src/ask/ask.repository.ts. A transaction that meets two citations with one
-- ordinal, or a citation of a chunk that does not exist, changes nothing.
use docent.Base.{
  ℕ, suc, Bool, true, not, ◌&&◌, ◌==◌, Option, none, some, List, [], ◌∷◌, ◌++◌, map, if◌then◌else◌,
  any_of, all_of, Text, codes, text_eq, Result, ok, err,
}
use docent.Retrieval.Rrf
use docent.Cost
use docent.Ask.Types.{DbError, Citation, RecordCost, RecordInput}

abbrev pub foreign_key_violation_code : Text
foreign_key_violation_code = codes "23503"

abbrev unique_violation_code : Text
unique_violation_code = codes "23505"

module _ (S : Rrf.Arithmetic) (C : Cost.Arithmetic) where
  pub record AnswerRow : Type 0 where
    pub id : ℕ
    pub query_id : ℕ
    pub answer : Option Text
    pub grounded : Bool
    pub model : Option Text
    pub provider : Option Text
    pub finish_reason : Option Text

  pub record CitationRow : Type 0 where
    pub answer_id : ℕ
    pub chunk_id : Text
    pub ordinal : ℕ
    pub score : S.Score

  pub record LedgerRow : Type 0 where
    pub query_id : ℕ
    pub cost : RecordCost S C

  -- The tables, with the identifiers of the chunks that exist. Both generated identifiers come
  -- from one counter.
  pub record Tables : Type 0 where
    pub chunk_ids : List Text
    pub next_id : ℕ
    pub queries : List (ℕ × Text)
    pub answers : List AnswerRow
    pub citations : List CitationRow
    pub ledger : List LedgerRow

  abbrev pub citation_rows : ℕ → List (Citation S C) → List CitationRow
  citation_rows answer_id citations =
      map
        (λ (c : Citation S C). record {
          answer_id = answer_id;
          chunk_id = c.chunk_id;
          ordinal = c.ordinal;
          score = c.score;
        })
        citations

  abbrev pub ledger_rows : ℕ → Option (RecordCost S C) → List LedgerRow
  ledger_rows query_id none = []
  ledger_rows query_id (some cost) = record { query_id = query_id; cost = cost } ∷ []

  abbrev pub resolves : Tables → Citation S C → Bool
  resolves t citation = any_of (text_eq citation.chunk_id) t.chunk_ids

  -- `UNIQUE (answer_id, ordinal)` of `citations`, for the rows of one new answer.
  unfoldable pub has_unique_ordinals : List (Citation S C) → Bool
  has_unique_ordinals [] = true
  has_unique_ordinals (c ∷ citations) =
      not (any_of (λ (d : Citation S C). d.ordinal == c.ordinal) citations)
      && has_unique_ordinals citations

  abbrev violated : Text → Text → Tables → Result DbError ℕ × Tables
  violated code message t = (err (record { code = some code; message = message }), t)

  -- The insert of the citations meets a repeated ordinal at its row, and a chunk that is gone at
  -- its end.
  unfoldable pub record_answer : RecordInput S C → Tables → Result DbError ℕ × Tables
  unfolding has_unique_ordinals
  record_answer input t =
      if not (has_unique_ordinals input.citations)
      then violated unique_violation_code (codes "violates unique constraint") t
      else if all_of (resolves t) input.citations
      then (
        ok (suc t.next_id),
        record t {
          next_id = suc (suc t.next_id);
          queries = t.queries ++ ((t.next_id, input.question) ∷ []);
          answers =
              t.answers
              ++ (record {
                id = suc t.next_id;
                query_id = t.next_id;
                answer = input.answer;
                grounded = input.grounded;
                model = input.model;
                provider = input.provider;
                finish_reason = input.finish_reason;
              }
                  ∷ []);
          citations = t.citations ++ citation_rows (suc t.next_id) input.citations;
          ledger = t.ledger ++ ledger_rows t.next_id input.cost;
        },
      )
      else violated foreign_key_violation_code (codes "violates foreign key constraint") t
