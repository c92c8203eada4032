-- ===== src/Ingestion/Loader/Inside.antt =====
-- The files that are read lie in the directory: src/ingestion/markdown-loader.ts.
use docent.Base.{
  codes, join, split_on, ℕ, ◌∙◌, length, ◌≡◌, refl, ◌≢◌, Bool, true, false, any_of, text_eq_refl,
  ◌||◌, Option, none, some, List, [], ◌∷◌, ◌++◌, arith, if_elim, All, Text, text_eq, text_differs,
  starts_with, Result, ok, err, Holds, Holds-bind, Holds-then,
}
use docent.Errors.{Thrown}
use docent.Ingestion.Loader.{
  LoadedDocument, Paths, Files, parent_segment, assert_no_parent_segment, assert_within_directory,
  loaded, load_matches, insert_document, sort_documents, load_markdown_files, push_document,
  read_match, check_match, sorted, load_from, load_included,
}
use docent.Ingestion.Loader.Lengths.{load_matches-length, length-sort_documents}

module _ (paths : Paths) (files : Files) (directory include : Text) where
  -- The pattern's matches before the search ends.
  abbrev IsMatch : Text → Type 0
  IsMatch m = any_of (text_eq m) (files.glob directory include).0 ≡ true

  -- The way from the directory to the file does not lead out of it.
  abbrev StaysInside : Text → Type 0
  StaysInside way = (way ≢ codes "..") × (starts_with way (codes ".." ++ (paths.sep ∷ [])) ≡ false)

  -- A document is a match whose real path lies in the real directory, with its text.
  abbrev IsFrom : Text → LoadedDocument → Type 0
  IsFrom real_directory document =
      (m : Text) × (real : Text) × ((IsMatch m)
        × (files.realpath (paths.join_path directory m) ≡ ok real)
        × StaysInside (paths.relative real_directory real)
        × (files.read_file (paths.join_path directory m) ≡ ok document.raw)
        × (document.path ≡ join (codes "/") (split_on paths.sep m)))

  abbrev IsInside : LoadedDocument → Type 0
  IsInside document =
      (real_directory : Text) × ((files.realpath directory ≡ ok real_directory)
        × IsFrom real_directory document)

  or_false : (a b : Bool) → (a || b) ≡ false → (a ≡ false) × (b ≡ false)
  or_false a b e = ground arith

  assert_within-StaysInside :
      (real_directory real m : Text)
      → Holds
          (λ _. StaysInside (paths.relative real_directory real))
          (assert_within_directory paths files real_directory real m)
  unfolding assert_within_directory
  assert_within-StaysInside real_directory real m =
      if_elim (Holds {0, 0, 0} (λ _. StaysInside (paths.relative real_directory real)))
        (text_eq (paths.relative real_directory real) parent_segment
          || starts_with (paths.relative real_directory real) (parent_segment ++ (paths.sep ∷ [])))
        _ _ (λ _. tt) (λ e. (text_differs _ _ (or_false _ _ e).0, (or_false _ _ e).1))

  push_document-IsFrom :
      (real_directory m real raw : Text) (rest : Result Thrown (List LoadedDocument))
      → IsFrom real_directory (loaded paths files m raw)
      → Holds (All (IsFrom real_directory)) rest
      → Holds (All (IsFrom real_directory)) (push_document paths files m rest raw)
  push_document-IsFrom real_directory m real raw (ok documents) h all = (h, all)
  push_document-IsFrom real_directory m real raw (err _) h all = tt

  check_match-IsFrom :
      (real_directory m real : Text) (rest : Result Thrown (List LoadedDocument))
      → IsMatch m
      → files.realpath (paths.join_path directory m) ≡ ok real
      → Holds (All (IsFrom real_directory)) rest
      → Holds
          (All (IsFrom real_directory))
          (check_match paths files directory real_directory m rest real)
  check_match-IsFrom real_directory m real rest matched e all =
      Holds-bind (λ _. StaysInside (paths.relative real_directory real))
        (All (IsFrom real_directory)) (assert_within_directory paths files real_directory real m)
        (read_match paths files directory m rest) (assert_within-StaysInside real_directory real m)
        (λ _ h.
          Holds-then (All (IsFrom real_directory)) (files.read_file (paths.join_path directory m))
            (push_document paths files m rest)
            (λ raw k.
              push_document-IsFrom real_directory m real raw rest
                (m, real, (matched, e, h, k, refl)) all))

  All-any_of :
      (all matches : List Text)
      → ((m : Text) → any_of (text_eq m) matches ≡ true → any_of (text_eq m) all ≡ true)
      → All (λ m. any_of (text_eq m) all ≡ true) matches
  All-any_of all [] h = tt
  All-any_of all (m ∷ matches) h =
      (h m (rw (text_eq_refl m) refl), All-any_of all matches (λ n e. h n (ground arith)))

  matches-IsMatch : All IsMatch (files.glob directory include).0
  matches-IsMatch =
      All-any_of (files.glob directory include).0 (files.glob directory include).0 (λ m e. e)

  load_matches-IsFrom :
      (real_directory : Text) (end : Option Thrown) (matches : List Text)
      → All IsMatch matches
      → Holds
          (All (IsFrom real_directory))
          (load_matches paths files directory real_directory end matches)
  unfolding load_matches
  load_matches-IsFrom real_directory none [] each = tt
  load_matches-IsFrom real_directory (some _) [] each = tt
  load_matches-IsFrom real_directory end (m ∷ matches) (matched, each) =
      let rest : Result Thrown (List LoadedDocument) =
        load_matches paths files directory real_directory end matches in
      let all : Holds (All (IsFrom real_directory)) rest =
        load_matches-IsFrom real_directory end matches each in
      Holds-then (All (IsFrom real_directory)) (files.realpath (paths.join_path directory m))
        (check_match paths files directory real_directory m rest)
        (λ real e. check_match-IsFrom real_directory m real rest matched e all)

  insert_document-All :
      (P : LoadedDocument → Type 0) (precedes : Text → Text → Bool) (d : LoadedDocument)
      (documents : List LoadedDocument)
      → P d
      → All P documents
      → All P (insert_document paths files precedes d documents)
  unfolding insert_document
  insert_document-All P precedes d [] h all = (h, tt)
  insert_document-All P precedes d (e ∷ documents) h (k, all) =
      if_elim (All P) (precedes d.path e.path) _ _ (λ _. (h, (k, all)))
        (λ _. (k, insert_document-All P precedes d documents h all))

  sort_documents-All :
      (P : LoadedDocument → Type 0) (precedes : Text → Text → Bool)
      (documents : List LoadedDocument)
      → All P documents
      → All P (sort_documents paths files precedes documents)
  unfolding sort_documents
  sort_documents-All P precedes [] all = tt
  sort_documents-All P precedes (d ∷ documents) (h, all) =
      insert_document-All P precedes d _ h (sort_documents-All P precedes documents all)

  All-map :
      (P Q : LoadedDocument → Type 0) (documents : List LoadedDocument)
      → ((d : LoadedDocument) → P d → Q d)
      → All P documents
      → All Q documents
  All-map P Q [] f all = tt
  All-map P Q (d ∷ documents) f (h, all) = (f d h, All-map P Q documents f all)

  -- As many documents as matches, each from one of them.
  abbrev pub AreMatches : List LoadedDocument → Type 0
  AreMatches documents =
      All IsInside documents × (length documents ≡ length (files.glob directory include).0)

  both :
      (P : LoadedDocument → Type 0) (n : ℕ) (r : Result Thrown (List LoadedDocument))
      → Holds (All P) r
      → Holds (λ documents. length documents ≡ n) r
      → Holds (λ documents. All P documents × (length documents ≡ n)) r
  both P n (ok documents) h k = (h, k)
  both P n (err _) h k = tt

  -- A load that does not throw gives as many documents as the pattern has matches. Each is one of
  -- the matches of the given pattern in the directory, and its real path is reached from the real
  -- path of the directory without leaving it, as `path.relative` tells, and its path and text are
  -- those of that match.
  pub load_markdown_files-AreMatches :
      (precedes : Text → Text → Bool)
      → Holds AreMatches (load_markdown_files paths files precedes directory include)
  unfolding load_markdown_files
  load_markdown_files-AreMatches precedes =
      let matches : List Text = (files.glob directory include).0 in
      let end : Option Thrown = (files.glob directory include).1 in
      Holds-then AreMatches (assert_no_parent_segment include)
        (load_included paths files precedes directory include)
        (λ _ _.
          Holds-then AreMatches (files.realpath directory)
            (load_from paths files precedes directory include)
            (λ real e.
              Holds-bind
                (λ documents. All (IsFrom real) documents × (length documents ≡ length matches))
                AreMatches (load_matches paths files directory real end matches)
                (sorted paths files precedes)
                (both (IsFrom real) (length matches) _
                  (load_matches-IsFrom real end matches matches-IsMatch)
                  (load_matches-length paths files directory real end matches))
                (λ documents (all, count). (
                  sort_documents-All IsInside precedes documents
                      (All-map (IsFrom real) IsInside documents (λ d h. (real, (e, h))) all),
                  length-sort_documents paths files directory precedes documents ∙ count,
                ))))
