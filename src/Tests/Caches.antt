-- ===== src/Tests/Caches.antt =====
-- The caches, the version of the corpus and retrieval at concrete data.
use docent.Base.{
  ℕ, zero, suc, ◌≡◌, refl, ap, ◌≢◌, true, Option, none, some, [], ◌∷◌, map, arith, if◌then◌else◌,
  take, Text, codes, trim, join, text_eq, text_eq_refl, lacks, ok, Holds,
}
use docent.Cache.Keys.{normalise_question}
use docent.Cache.Words.{words, normalise_question-words}
use docent.Cache.Client.{Client, IsKept, get_vector, set_vector}
use docent.Cache.Version.{AreDistinct, version_of}
use docent.Cache.Version.Moves.{mark_ready-version}
use docent.Cache.Version.Stays.{run_all-version}
use docent.Ingestion.Tables
use docent.Ingestion.Tables.{Database, mark_ready, has_id}
use docent.Ingestion.Counts.{insert, touch, skipped, run_all}
use docent.Retrieval.Rrf.{fuse_by_rrf}
use docent.Retrieval.Service.{RetrievalResult, embed_question, Backend, key_of, search, search_with}
use docent.Retrieval.Service.Laws.{IsRanking, search-IsRanking, search_again}
use docent.Tests.Answers.{millionths, millionths-IsArithmetic, by_vector, question}

spaced_question : normalise_question (codes "  What \t is it? ") ≡ codes "What is it?"
unfolding normalise_question trim docent.Cache.Keys.collapse
spaced_question = refl

normalise_question-words_example :
    normalise_question (codes "  What \t is it? ")
    ≡ join (codes " ") (words (codes "  What \t is it? "))
normalise_question-words_example = normalise_question-words (codes "  What \t is it? ")

-- Numbers in strokes, and times behind a `t`.
abbrev strokes : ℕ → Text
strokes zero = []
strokes (suc n) = b'i' ∷ strokes n

abbrev time : ℕ → Text
time t = b't' ∷ strokes t

strokes_injective : (m n : ℕ) → strokes m ≡ strokes n → m ≡ n
strokes_injective zero zero h = refl
strokes_injective zero (suc n) h = absurd (cc)
strokes_injective (suc m) zero h = absurd (cc)
strokes_injective (suc m) (suc n) h = ap suc (strokes_injective m n (ap behind h))
  where
    behind : Text → Text
    behind [] = []
    behind (c ∷ s) = s

strokes_dash : (n : ℕ) → lacks b'-' (strokes n) ≡ true
strokes_dash zero = refl
strokes_dash (suc n) = strokes_dash n

behind_first : Text → Text
behind_first [] = []
behind_first (c ∷ s) = s

time_injective : (t u : ℕ) → time t ≡ time u → t ≡ u
unfolding behind_first
time_injective t u h = strokes_injective t u (ap behind_first h)

first_of : Text → ℕ
first_of [] = 0
first_of (c ∷ s) = c

time_none : (t : ℕ) → time t ≢ codes "none"
unfolding first_of
time_none t h = absurd (omega (arith, ap first_of h))

strokes-AreDistinct : AreDistinct strokes time
strokes-AreDistinct = record {
  show_injective = strokes_injective;
  show_dash = strokes_dash;
  to_iso_injective = time_injective;
  to_iso_none = time_none;
}

abbrev a_row : ℕ → Tables.Status → ℕ → Tables.SourceRow
a_row id status updated_at = record {
  id = id;
  uri = codes "docs";
  kind = codes "docs";
  status = status;
  commit_sha = none;
  error = none;
  document_count = 0;
  chunk_count = 0;
  skipped_documents = none;
  updated_at = updated_at;
}

abbrev two_sources : Database ℕ
two_sources = record {
  sources = a_row 1 Tables.ready 700 ∷ a_row 2 Tables.processing 900 ∷ [];
  documents = [];
  next_id = 3;
  now = 1000;
}

mark_ready-version_example :
    version_of strokes time (mark_ready ℕ 2 two_sources).sources
    ≢ version_of strokes time two_sources.sources
mark_ready-version_example =
    mark_ready-version strokes time ℕ strokes-AreDistinct 2 two_sources
      ((λ _. omega arith), ((λ h. absurd (cc)), tt)) refl

run_all-version_example :
    version_of strokes time
      (run_all ℕ
        (touch 2 ∷ insert 2 (record { path = codes "a.md"; title = none }) [] ∷ skipped 2 1 ∷ [])
        two_sources).sources
    ≡ version_of strokes time two_sources.sources
run_all-version_example =
    run_all-version ℕ strokes time 2
      (touch 2 ∷ insert 2 (record { path = codes "a.md"; title = none }) [] ∷ skipped 2 1 ∷ [])
      two_sources (refl, (refl, (refl, tt))) ((λ h. absurd (cc)), ((λ _. refl), tt))

-- A server that keeps everything.
abbrev server : Client
server = record {
  State = Text → Option Text;
  get = λ key s. ok (s key);
  set = λ key raw ttl s. (ok tt, λ k. if text_eq k key then some raw else s k);
}

server-IsKept : IsKept server
server-IsKept = record { get_set = λ key raw ttl s. rw (text_eq_refl key) }

abbrev backend : Backend server
backend = record {
  Vector = Text;
  Distance = ℕ;
  embed = λ texts w. (ok texts, w);
  search_by_vector = λ vector n w. ok (map (λ c. (c, 3)) by_vector);
  search_by_text = λ question n w. ok by_vector;
  encode = λ vector. vector;
  decode = λ raw. raw;
  sha256 = λ s. s;
  show = strokes;
  top_n = 20;
  top_k = 1;
  rrf_k = 60;
  embedding_model = codes "large";
  embedding_dimensions = 2;
  embedding_cache_ttl_s = 60;
}

abbrev no_entries : Text → Option Text
no_entries key = none

search-IsRanking_example :
    Holds
      (IsRanking millionths server backend)
      (search millionths server backend question no_entries).0
search-IsRanking_example =
    search-IsRanking millionths server backend millionths-IsArithmetic question no_entries

-- Behind the first search the vector is cached.
abbrev key_asked : Text
key_asked = key_of millionths server backend question

abbrev one_entry : Text → Option Text
one_entry key = if text_eq key key_asked then some question else none

abbrev first_result : RetrievalResult millionths ℕ
first_result = record {
  chunks = take 1 (fuse_by_rrf millionths (by_vector ∷ by_vector ∷ []) 60);
  best_distance = some 3;
}

first_search : search millionths server backend question no_entries ≡ (ok first_result, one_entry)
unfolding search embed_question search_with get_vector set_vector
first_search = refl

search_again_example :
    (v : Text) × (get_vector server backend.encode backend.decode key_asked one_entry ≡ some v)
    × (search millionths server backend question one_entry
        ≡ (search_with millionths server backend v question one_entry, one_entry))
search_again_example =
    search_again millionths server backend server-IsKept question no_entries one_entry first_result
      first_search
