-- ===== src/Ask/Service/Recorded.antt =====
-- What a transaction of src/ask/ask.repository.ts leaves in the tables.
use docent.Base.{
  ℕ, suc, ◌≡◌, refl, ap, true, false, Option, none, some, List, [], ◌∷◌, ◌++◌, arith, ltb, ◌<◌,
  ◌==◌, any_of, if◌then◌else◌, length, all_of, codes, text_eq, ok, err,
}
use docent.Retrieval.Rrf
use docent.Retrieval.Rrf.{RetrievedChunk}
use docent.Cost
use docent.Ask.Types.{DbError, Citation, RecordCost, RecordInput}
use docent.Ask.Prompt.{to_citations, citations_from}
use docent.Ask.Repository.{
  Tables, CitationRow, LedgerRow, citation_rows, ledger_rows, resolves, has_unique_ordinals,
  record_answer, foreign_key_violation_code,
}

module _ (S : Rrf.Arithmetic) (C : Cost.Arithmetic) where
  -- A row for each citation, with its chunk, its ordinal and its score.
  pub rows_of : ℕ → List (Citation S C) → List (CitationRow S C)
  rows_of answer_id [] = []
  rows_of answer_id (c ∷ citations) =
      record { answer_id = answer_id; chunk_id = c.chunk_id; ordinal = c.ordinal; score = c.score }
      ∷ rows_of answer_id citations

  pub costs_of : ℕ → Option (RecordCost S C) → List (LedgerRow S C)
  costs_of query_id none = []
  costs_of query_id (some cost) = record { query_id = query_id; cost = cost } ∷ []

  citation_rows-rows_of :
      (answer_id : ℕ) (citations : List (Citation S C))
      → citation_rows S C answer_id citations ≡ rows_of answer_id citations
  unfolding rows_of
  citation_rows-rows_of answer_id [] = refl
  citation_rows-rows_of answer_id (c ∷ citations) =
      ap
        (λ (rows : List (CitationRow S C)).
          record {
            answer_id = answer_id;
            chunk_id = c.chunk_id;
            ordinal = c.ordinal;
            score = c.score;
          }
          ∷ rows)
        (citation_rows-rows_of answer_id citations)

  ledger_rows-costs_of :
      (query_id : ℕ) (cost : Option (RecordCost S C))
      → ledger_rows S C query_id cost ≡ costs_of query_id cost
  unfolding costs_of
  ledger_rows-costs_of query_id none = refl
  ledger_rows-costs_of query_id (some cost) = refl

  -- One query, its answer and its cost are added, and the citations, unless one of them names a
  -- chunk that is gone: then none of them.
  abbrev pub IsRecorded : RecordInput S C → Tables S C → Tables S C → Type 0
  IsRecorded input before after =
      (after.queries ≡ before.queries ++ ((before.next_id, input.question) ∷ []))
      × (after.answers
          ≡ before.answers
            ++ (record {
              id = suc before.next_id;
              query_id = before.next_id;
              answer = input.answer;
              grounded = input.grounded;
              model = input.model;
              provider = input.provider;
              finish_reason = input.finish_reason;
            }
                ∷ []))
      × (after.citations
          ≡ before.citations
            ++ (if all_of (λ (c : Citation S C). any_of (text_eq c.chunk_id) before.chunk_ids)
                  input.citations
                then rows_of (suc before.next_id) input.citations
                else []))
      × (after.ledger ≡ before.ledger ++ costs_of before.next_id input.cost)
      × (after.chunk_ids ≡ before.chunk_ids)

  pub resolved-IsRecorded :
      (input : RecordInput S C) (t : Tables S C)
      → has_unique_ordinals S C input.citations ≡ true
      → all_of (resolves S C t) input.citations ≡ true
      → IsRecorded input t (record_answer S C input t).1
  unfolding record_answer has_unique_ordinals
  resolved-IsRecorded input t u h =
      rw (u, h)
        (
          refl,
          refl,
          ap (λ (rows : List (CitationRow S C)). t.citations ++ rows)
              (citation_rows-rows_of (suc t.next_id) input.citations),
          ap (λ (rows : List (LedgerRow S C)). t.ledger ++ rows)
              (ledger_rows-costs_of t.next_id input.cost),
          refl,
        )

  pub dropped-IsRecorded :
      (input : RecordInput S C) (t : Tables S C)
      → has_unique_ordinals S C input.citations ≡ true
      → all_of (resolves S C t) input.citations ≡ false
      → IsRecorded input t
          (record_answer S C (record input { citations = [] }) (record_answer S C input t).1).1
  unfolding record_answer has_unique_ordinals
  dropped-IsRecorded input t u h =
      rw (u, h)
        (
          refl,
          refl,
          refl,
          ap (λ (rows : List (LedgerRow S C)). t.ledger ++ rows)
              (ledger_rows-costs_of t.next_id input.cost),
          refl,
        )

  pub record_answer-ok :
      (input : RecordInput S C) (t : Tables S C)
      → has_unique_ordinals S C input.citations ≡ true
      → all_of (resolves S C t) input.citations ≡ true
      → (record_answer S C input t).0 ≡ ok (suc t.next_id)
  unfolding record_answer has_unique_ordinals
  record_answer-ok input t u h = rw (u, h)

  pub record_answer-err :
      (input : RecordInput S C) (t : Tables S C)
      → has_unique_ordinals S C input.citations ≡ true
      → all_of (resolves S C t) input.citations ≡ false
      → (error : DbError) × ((record_answer S C input t).0 ≡ err error)
        × (error.code ≡ some foreign_key_violation_code)
  unfolding record_answer has_unique_ordinals
  record_answer-err input t u h = (
    record {
      code = some foreign_key_violation_code;
      message = codes "violates foreign key constraint";
    },
    rw (u, h),
    refl,
  )

  later-ordinal :
      (n k : ℕ) (chunks : List (RetrievedChunk S))
      → n < k
      → any_of (λ (d : Citation S C). d.ordinal == n) (citations_from S C k chunks) ≡ false
  unfolding citations_from
  later-ordinal n k [] h = refl
  later-ordinal n k (chunk ∷ chunks) h =
      ground (arith, later-ordinal n (suc k) chunks (omega arith))

  has_unique_ordinals-citations_from :
      (n : ℕ) (chunks : List (RetrievedChunk S))
      → has_unique_ordinals S C (citations_from S C n chunks) ≡ true
  unfolding citations_from has_unique_ordinals
  has_unique_ordinals-citations_from n [] = refl
  has_unique_ordinals-citations_from n (chunk ∷ chunks) = rw (
    later-ordinal n (suc n) chunks (omega arith),
    has_unique_ordinals-citations_from (suc n) chunks,
  )

  -- The citations of an answer are numbered, so that no ordinal comes twice.
  pub has_unique_ordinals-to_citations :
      (chunks : List (RetrievedChunk S)) → has_unique_ordinals S C (to_citations S C chunks) ≡ true
  unfolding to_citations
  has_unique_ordinals-to_citations chunks = has_unique_ordinals-citations_from 1 chunks

  pub some-unresolved :
      (t : Tables S C) (citations : List (Citation S C))
      → all_of (resolves S C t) citations ≡ false
      → ltb 0 (length citations) ≡ true
  some-unresolved t [] h = absurd (cc)
  some-unresolved t (c ∷ citations) h = ground arith
