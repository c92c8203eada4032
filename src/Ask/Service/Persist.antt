-- ===== src/Ask/Service/Persist.antt =====
-- What `persist` of src/ask/ask.service.ts leaves in the tables.
use mathlib.Core.Path.{subst}
use docent.Base.{
  ℕ, suc, ◌≡◌, refl, sym, ap, ◌∙◌, inl, inr, true, false, Option, some, [], ltb, Bool-cases, length,
  all_of, Text, text_eq, Result, ok, err,
}
use docent.Retrieval.Rrf
use docent.Cost
use docent.Ask.Types.{DbError, RecordInput}
use docent.Ask.Repository.{
  Tables, resolves, has_unique_ordinals, record_answer, foreign_key_violation_code,
}
use docent.Ask.Service.{Collaborators, after_record, persist}
use docent.Ask.Service.Recorded.{
  IsRecorded, resolved-IsRecorded, dropped-IsRecorded, record_answer-ok, record_answer-err,
  some-unresolved,
}

module _ (S : Rrf.Arithmetic) (C : Cost.Arithmetic) where
  -- The service's world holds the tables, and its `record` is the repository's.
  pub record IsConnected (env : Collaborators S C) : Type 0 where
    pub tables : env.World → Tables S C
    pub record_row-result :
        (input : RecordInput S C) (w : env.World)
        → (env.record_row input w).0 ≡ (record_answer S C input (tables w)).0
    pub record_row-tables :
        (input : RecordInput S C) (w : env.World)
        → tables (env.record_row input w).1 ≡ (record_answer S C input (tables w)).1

  module _ (env : Collaborators S C) where
    after_record-ok :
        (input : RecordInput S C) (r : Result DbError ℕ × env.World) (n : ℕ)
        → r.0 ≡ ok n
        → after_record S C env input r ≡ r.1
    after_record-ok input (ok _, w) n h = refl
    after_record-ok input (err error, w) n h = absurd (cc)

    after_record-violation :
        (input : RecordInput S C) (r : Result DbError ℕ × env.World) (error : DbError)
        → r.0 ≡ err error
        → ltb 0 (length input.citations) ≡ true
        → error.code ≡ some foreign_key_violation_code
        → after_record S C env input r ≡ (env.record_row (record input { citations = [] }) r.1).1
    unfolding text_eq
    after_record-violation input (ok _, w) error h some_citation c = absurd (cc)
    after_record-violation input (err found, w) error h some_citation c =
        let e : found.code ≡ some foreign_key_violation_code = ap code_of (same h) ∙ c in
        rw (some_citation, e)
      where
        code_of : DbError → Option Text
        code_of d = d.code

        same : ◌≡◌ {A = Result DbError ℕ} (err found) (err error) → found ≡ error
        same h = cc

    module _ (connected : IsConnected env) where
      resolved :
          (input : RecordInput S C) (w : env.World)
          → has_unique_ordinals S C input.citations ≡ true
          → all_of (resolves S C (connected.tables w)) input.citations ≡ true
          → IsRecorded S C input (connected.tables w) (connected.tables (persist S C env input w))
      unfolding persist
      resolved input w u h =
          let done_eq =
            after_record-ok input (env.record_row input w) (suc (connected.tables w).next_id) (
              connected.record_row-result input w
              ∙ record_answer-ok S C input (connected.tables w) u h) in
          subst (IsRecorded S C input (connected.tables w))
            (sym (ap connected.tables done_eq ∙ connected.record_row-tables input w))
            (resolved-IsRecorded S C input (connected.tables w) u h)

      dropped :
          (input : RecordInput S C) (w : env.World)
          → has_unique_ordinals S C input.citations ≡ true
          → all_of (resolves S C (connected.tables w)) input.citations ≡ false
          → IsRecorded S C input (connected.tables w) (connected.tables (persist S C env input w))
      unfolding persist
      dropped input w u h =
          let bare : RecordInput S C = record input { citations = [] } in
          let (error, failed, code_eq) = record_answer-err S C input (connected.tables w) u h in
          let retried =
            after_record-violation input (env.record_row input w) error
              (connected.record_row-result input w ∙ failed)
              (some-unresolved S C (connected.tables w) input.citations h) code_eq in
          subst (IsRecorded S C input (connected.tables w))
            (sym (
              ap connected.tables retried
              ∙ connected.record_row-tables bare (env.record_row input w).1
              ∙ ap (λ (t : Tables S C). (record_answer S C bare t).1)
                  (connected.record_row-tables input w)))
            (dropped-IsRecorded S C input (connected.tables w) u h)

      -- With a service whose `record` is the repository's, whatever chunks have gone, persisting
      -- an input whose citations have distinct ordinals, as those of an answer's chunks have, adds
      -- the query, the answer and the cost, with a row for each citation if every one names a
      -- chunk that exists and with none if not.
      pub persist-IsRecorded :
          (input : RecordInput S C) (w : env.World)
          → has_unique_ordinals S C input.citations ≡ true
          → IsRecorded S C input (connected.tables w) (connected.tables (persist S C env input w))
      persist-IsRecorded input w u =
          elim (Bool-cases (all_of (resolves S C (connected.tables w)) input.citations)) [
            | inl h ↦ resolved input w u h
            | inr h ↦ dropped input w u h
          ]
