-- ===== src/Ingestion/Loader/Lengths.antt =====
-- The number of files that are read: src/ingestion/markdown-loader.ts.
use docent.Base.{
  ℕ, suc, ap, ◌∙◌, length, ◌≡◌, refl, Bool, Option, none, some, List, [], ◌∷◌, if_elim, Text,
  Result, ok, err, Holds, Holds-then,
}
use docent.Errors.{Thrown}
use docent.Ingestion.Loader.{
  LoadedDocument, Paths, Files, assert_within_directory, load_matches, insert_document,
  sort_documents, push_document, read_match, check_match,
}

module _ (paths : Paths) (files : Files) (directory : Text) where
  push_document-length :
      (m raw : Text) (n : ℕ) (rest : Result Thrown (List LoadedDocument))
      → Holds (λ documents. length documents ≡ n) rest
      → Holds (λ documents. length documents ≡ suc n) (push_document paths files m rest raw)
  push_document-length m raw n (ok documents) h = ap suc h
  push_document-length m raw n (err _) h = tt

  check_match-length :
      (real_directory m real : Text) (n : ℕ) (rest : Result Thrown (List LoadedDocument))
      → Holds (λ documents. length documents ≡ n) rest
      → Holds
          (λ documents. length documents ≡ suc n)
          (check_match paths files directory real_directory m rest real)
  check_match-length real_directory m real n rest h =
      Holds-then (λ documents. length documents ≡ suc n)
        (assert_within_directory paths files real_directory real m)
        (read_match paths files directory m rest)
        (λ _ _.
          Holds-then (λ documents. length documents ≡ suc n)
            (files.read_file (paths.join_path directory m)) (push_document paths files m rest)
            (λ raw _. push_document-length m raw n rest h))

  -- Each match gives one document.
  pub load_matches-length :
      (real_directory : Text) (end : Option Thrown) (matches : List Text)
      → Holds
          (λ documents. length documents ≡ length matches)
          (load_matches paths files directory real_directory end matches)
  unfolding load_matches
  load_matches-length real_directory none [] = refl
  load_matches-length real_directory (some _) [] = tt
  load_matches-length real_directory end (m ∷ matches) =
      let rest : Result Thrown (List LoadedDocument) =
        load_matches paths files directory real_directory end matches in
      let h : Holds (λ documents. length documents ≡ length matches) rest =
        load_matches-length real_directory end matches in
      Holds-then (λ documents. length documents ≡ suc (length matches))
        (files.realpath (paths.join_path directory m))
        (check_match paths files directory real_directory m rest)
        (λ real _. check_match-length real_directory m real (length matches) rest h)

  length-insert_document :
      (precedes : Text → Text → Bool) (d : LoadedDocument) (documents : List LoadedDocument)
      → length (insert_document paths files precedes d documents) ≡ suc (length documents)
  unfolding insert_document
  length-insert_document precedes d [] = refl
  length-insert_document precedes d (e ∷ documents) =
      if_elim (λ (ds : List LoadedDocument). length ds ≡ suc (suc (length documents)))
        (precedes d.path e.path) _ _ (λ _. refl)
        (λ _. ap suc (length-insert_document precedes d documents))

  pub length-sort_documents :
      (precedes : Text → Text → Bool) (documents : List LoadedDocument)
      → length (sort_documents paths files precedes documents) ≡ length documents
  unfolding sort_documents
  length-sort_documents precedes [] = refl
  length-sort_documents precedes (d ∷ documents) =
      length-insert_document precedes d _ ∙ ap suc (length-sort_documents precedes documents)
