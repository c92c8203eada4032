-- ===== src/Ingestion/Loader.antt =====
-- The files of a source: src/ingestion/markdown-loader.ts. The file system and the paths of the
-- host are parameters.
pub mod Inside
pub mod Lengths
use mathlib.Core.Option
use docent.Base.{
  ℕ, Bool, true, false, not, ◌||◌, Option, none, some, List, [], ◌∷◌, ◌++◌, map, if◌then◌else◌,
  any_of, Text, codes, is_space, join, text_eq, starts_with, split_on, Result, ok, err, ◌>>=◌,
}
use docent.Errors.{Thrown, new_error}
use docent.Chunker.Lines.{is_line_end, strip_prefix}

pub record LoadedDocument : Type 0 where
  pub path : Text
  pub title : Text
  pub raw : Text

-- `node:path`
pub record Paths : Type 0 where
  pub sep : ℕ
  pub join_path : Text → Text → Text
  pub relative : Text → Text → Text
  pub is_absolute : Text → Bool
  pub basename : Text → Text → Text
  pub extname : Text → Text

-- What the file system answers: a glob gives its matches and the error that ends it, if one does.
pub record Files : Type 0 where
  pub realpath : Text → Result Thrown Text
  pub read_file : Text → Result Thrown Text
  pub glob : Text → Text → List Text × Option Thrown
  pub is_directory : Text → Option Bool

abbrev pub parent_segment : Text
parent_segment = codes ".."

pub assert_no_parent_segment : Text → Result {0, 0} Thrown Unit
assert_no_parent_segment include =
    if any_of (λ s. text_eq s parent_segment) (split_on b'/' include)
    then err (
        new_error (codes "include pattern must not climb out of the source directory: " ++ include))
    else ok tt

-- `\s*$` under the flag `m`
at_line_end : Text → Bool
at_line_end [] = true
at_line_end (c ∷ s) =
    let rest = at_line_end s in if is_line_end c then true else if is_space c then rest else false

-- `(.+?)\s*$` and `\s+(.+?)\s*$` under the flag `m`
line_title : Text → Option Text
unfolding at_line_end
line_title [] = none
line_title (c ∷ s) =
    let rest = Option.map (λ title. c ∷ title) (line_title s) in
    if is_line_end c then none else if at_line_end s then some (c ∷ []) else rest

spaced_line_title : Text → Option Text
unfolding line_title
spaced_line_title [] = none
spaced_line_title (c ∷ s) =
    let rest = Option.or_else (spaced_line_title s) (line_title s) in
    if is_space c then rest else none

abbrev heading_here : Text → Option Text
heading_here s = Option.bind (strip_prefix (codes "###") s) spaced_line_title

-- `PAGE_HEADING`: the first line that is one.
heading_from : Bool → Text → Option Text
unfolding spaced_line_title
heading_from starts [] = none
heading_from starts (c ∷ s) =
    let rest = heading_from (is_line_end c) s in
    if starts then Option.or_else (heading_here (c ∷ s)) rest else rest

module _ (paths : Paths) (files : Files) where
  pub assert_within_directory : Text → Text → Text → Result {0, 0} Thrown Unit
  assert_within_directory real_directory real_match_path match_path =
      let relative = paths.relative real_directory real_match_path in
      if text_eq relative parent_segment
        || starts_with relative (parent_segment ++ (paths.sep ∷ []))
      then err
          (new_error (codes "matched file resolves outside the source directory: " ++ match_path))
      else ok tt

  pub extract_title : Text → Text → Text
  unfolding heading_from
  extract_title raw relative_path = elim (heading_from true raw) [
    | none ↦ paths.basename relative_path (paths.extname relative_path)
    | some title ↦ title
  ]

  abbrev relative_path_of : Text → Text
  relative_path_of match_path = join (codes "/") (split_on paths.sep match_path)

  abbrev pub loaded : Text → Text → LoadedDocument
  loaded match_path raw = record {
    path = relative_path_of match_path;
    title = extract_title raw (relative_path_of match_path);
    raw = raw;
  }

  abbrev pub ended : Option Thrown → Result Thrown (List LoadedDocument)
  ended none = ok []
  ended (some error) = err error

  abbrev pub push_document :
      Text → Result Thrown (List LoadedDocument) → Text → Result Thrown (List LoadedDocument)
  push_document m rest raw = rest >>= λ documents. ok (loaded m raw ∷ documents)

  abbrev pub read_match :
      Text
      → Text
      → Result Thrown (List LoadedDocument)
      → Unit {0}
      → Result Thrown (List LoadedDocument)
  read_match directory m rest _ =
      files.read_file (paths.join_path directory m) >>= push_document m rest

  abbrev pub check_match :
      Text
      → Text
      → Text
      → Result Thrown (List LoadedDocument)
      → Text
      → Result Thrown (List LoadedDocument)
  check_match directory real_directory m rest real_match_path =
      assert_within_directory real_directory real_match_path m >>= read_match directory m rest

  -- The loop over the matches; `rest` are the documents of the further ones.
  pub load_matches : Text → Text → Option Thrown → List Text → Result Thrown (List LoadedDocument)
  unfolding assert_within_directory extract_title
  load_matches directory real_directory end [] = ended end
  load_matches directory real_directory end (m ∷ matches) =
      let rest = load_matches directory real_directory end matches in
      files.realpath (paths.join_path directory m) >>= check_match directory real_directory m rest

  -- `documents.sort(…)`, which is stable; `precedes a b` is `a.localeCompare(b) <= 0`.
  pub insert_document :
      (Text → Text → Bool) → LoadedDocument → List LoadedDocument → List LoadedDocument
  insert_document precedes d [] = d ∷ []
  insert_document precedes d (e ∷ documents) =
      let rest = insert_document precedes d documents in
      if precedes d.path e.path then d ∷ e ∷ documents else e ∷ rest

  pub sort_documents : (Text → Text → Bool) → List LoadedDocument → List LoadedDocument
  unfolding insert_document
  sort_documents precedes [] = []
  sort_documents precedes (d ∷ documents) =
      insert_document precedes d (sort_documents precedes documents)

  abbrev pub sorted :
      (Text → Text → Bool) → List LoadedDocument → Result Thrown (List LoadedDocument)
  sorted precedes documents = ok (sort_documents precedes documents)

  abbrev pub load_from :
      (Text → Text → Bool) → Text → Text → Text → Result Thrown (List LoadedDocument)
  load_from precedes directory include real_directory =
      load_matches directory real_directory (files.glob directory include).1
        (files.glob directory include).0
      >>= sorted precedes

  abbrev pub load_included :
      (Text → Text → Bool) → Text → Text → Unit {0} → Result Thrown (List LoadedDocument)
  load_included precedes directory include _ =
      files.realpath directory >>= load_from precedes directory include

  pub load_markdown_files : (Text → Text → Bool) → Text → Text → Result Thrown (List LoadedDocument)
  unfolding assert_no_parent_segment load_matches sort_documents
  load_markdown_files precedes directory include =
      assert_no_parent_segment include >>= load_included precedes directory include
