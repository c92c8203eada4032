-- ===== src/Tests/Runs.antt =====
-- A run of an ingestion on a host with one file.
use docent.Base.{
  ℕ, ◌+◌, ◌≡◌, refl, inl, inr, Bool, true, false, not, ◌||◌, if◌then◌else◌, none, some, List, [],
  ◌∷◌, ◌++◌, map, Bool-cases, length, keep, any_of, Text, codes, text_eq, starts_with, ok, Holds,
  drop,
}
use docent.Errors.{new_error}
use docent.Ingestion.Loader.{LoadedDocument, Paths, Files, load_markdown_files}
use docent.Ingestion.Loader.Inside.{AreMatches, load_markdown_files-AreMatches}
use docent.Ingestion.Fetcher.{Host}
use docent.Ingestion.Pipeline.{Environment, State, parse_document, run_pipeline}
use docent.Ingestion.Pipeline.Ends.{HasEnded, run_pipeline-HasEnded}
use docent.Ingestion.Pipeline.Cleanup.{RemovesDirectories, run_pipeline-Gone}
use docent.Ingestion.Tables.{has_id}
use docent.Tests.Sources.{database}

-- The host is the list of its temporary directories.
abbrev clone : Text
clone = codes "/tmp/docent-ingest-1"

abbrev host : Host (List Text)
host = record {
  make_directory = λ w. (ok clone, clone ∷ w);
  git = λ arguments cwd w. (ok (codes "ab12"), w);
  remove = λ d w. (ok tt, keep (λ e. not (text_eq d e)) w);
}

abbrev paths : Paths
paths = record {
  sep = b'/';
  join_path = λ a b. a ++ (codes "/" ++ b);
  relative = λ a b. drop (length a + 1) b;
  is_absolute = λ a. starts_with a (codes "/");
  basename = λ a b. a;
  extname = λ a. [];
}

abbrev files : Files
files = record {
  realpath = λ a. ok a;
  read_file = λ a. ok (codes "### Guards\nYes.");
  glob = λ directory include. (codes "guards.md" ∷ [], none);
  is_directory = λ a. some true;
}

abbrev env : Environment (List Text) ℕ
env = record {
  host = host;
  files = λ w. files;
  paths = paths;
  precedes = λ a b. true;
  count_tokens = λ s. length s;
  parse_failure = λ s.
      if starts_with s (codes "<|")
      then some (new_error (codes "disallowed special token"))
      else none;
  embed = λ texts w. (ok (map (λ _. 7) texts), w);
  connect = λ w. (ok tt, w);
  beats = λ w. 1;
  refusal = new_error (codes "duplicate key");
}

abbrev begin : State (List Text) ℕ
begin = record { outside = []; db = database }

abbrev exists : Text → List Text → Bool
exists d w = any_of (text_eq d) w

removed : (d : Text) (w : List Text) → exists d (keep (λ e. not (text_eq d e)) w) ≡ false
removed d [] = refl
removed d (e ∷ w) = elim (Bool-cases (text_eq d e)) [
  | inl h ↦ rw h (removed d w)
  | inr h ↦ rw (h, h) (removed d w)
]

host-RemovesDirectories : RemovesDirectories (List Text) ℕ env 1 exists
host-RemovesDirectories = ((λ d w. (refl, removed d w)), (λ d w h. h))

abbrev url : Text
url = codes "https://docs"

run_pipeline-HasEnded_example :
    (any_of (has_id 1) (run_pipeline (List Text) ℕ env 1 url (codes "**/*.md") begin).1.db.sources
      ≡ true)
    × HasEnded (List Text) ℕ env 1 (run_pipeline (List Text) ℕ env 1 url (codes "**/*.md") begin)
run_pipeline-HasEnded_example =
    run_pipeline-HasEnded (List Text) ℕ env 1 url (codes "**/*.md") begin (λ w. refl) refl

url-is_url : starts_with url (codes "http://") || starts_with url (codes "https://") ≡ true
unfolding starts_with
url-is_url = refl

run_pipeline-Gone_example :
    exists clone (run_pipeline (List Text) ℕ env 1 url (codes "**/*.md") begin).1.outside ≡ false
run_pipeline-Gone_example =
    run_pipeline-Gone (List Text) ℕ env 1 exists clone url (codes "**/*.md") begin (clone ∷ [])
      host-RemovesDirectories url-is_url refl

abbrev a_document : LoadedDocument
a_document = record {
  path = codes "guards.md";
  title = codes "Guards";
  raw = codes "### Guards\nYes.";
}

abbrev blank_document : LoadedDocument
blank_document = record { path = codes "blank.md"; title = codes "blank"; raw = [] }

-- A text that the tokeniser refuses.
abbrev refused_document : LoadedDocument
refused_document = record {
  path = codes "special.md";
  title = codes "special";
  raw = codes "<|endoftext|>";
}

refused_skipped : parse_document (List Text) ℕ env refused_document.raw ≡ none
unfolding parse_document starts_with
refused_skipped = refl

load_markdown_files-AreMatches_example :
    Holds
      (AreMatches paths files (codes "/docs") (codes "*.md"))
      (load_markdown_files paths files (λ a b. true) (codes "/docs") (codes "*.md"))
load_markdown_files-AreMatches_example =
    load_markdown_files-AreMatches paths files (codes "/docs") (codes "*.md") (λ a b. true)
