-- ===== src/Tests/Answers.antt =====
-- Fusion, prices and answers at concrete data: scores count millionths, prices micro-dollars.
use docent.Base.{
  ℕ, zero, suc, ◌+◌, ◌-◌, ◌*◌, ◌/◌, ◌≡◌, refl, ◌≢◌, Bool, true, Option, none, some, List, [], ◌∷◌,
  map, arith, ltb, leb, if◌then◌else◌, Text, codes, text_eq, text_eq_refl, text_differs, ok,
}
use mathlib.Core.List.{Perm}
use docent.Llm.Types.{TokenUsage, CompletionResult}
use docent.Llm.Chain.{ChainLink}
use docent.Retrieval.Rrf
use docent.Retrieval.Rrf.{
  RankedChunk, RetrievedChunk, IsArithmetic, fuse_by_rrf, add_lists, no_fusion, collect,
}
use docent.Retrieval.Rrf.Order.{IsDescending, fuse_by_rrf-IsDescending}
use docent.Retrieval.Rrf.Single.{HasDistinctIds, ranked, fuse_by_rrf-ranked}
use docent.Cost
use docent.Cost.{CostInput, compute_cost, missing_prices}
use docent.Cost.Laws.{missing_prices-compute_cost}
use docent.Ask.Types.{AskResult, CachedAnswer, RecordInput}
use docent.Maps.{lookup}
use docent.Ask.Prompt.{to_citations}
use docent.Ask.Repository.{Tables, record_answer}
use docent.Ask.Service.{Collaborators, ask, persist, record_cache_hit}
use docent.Ask.Service.Persist.{IsConnected, persist-IsRecorded}
use docent.Ask.Service.Recorded.{IsRecorded, has_unique_ordinals-to_citations}
use docent.Ask.Service.Twice.{IsSteady, ask_twice}

abbrev exceeds : ℕ → ℕ → Bool
exceeds a b = ltb b a

abbrev pub millionths : Rrf.Arithmetic
millionths = record {
  Score = ℕ;
  nought = 0;
  plus = λ a b. a + b;
  reciprocal = λ n. 1_000_000 - n;
  exceeds = exceeds;
}

pub millionths-IsArithmetic : IsArithmetic millionths
millionths-IsArithmetic = record {
  nought-plus = λ x. omega arith;
  exceeds_asym = λ x y h. ground arith;
  exceeds_trans = λ x y z h k. ground arith;
  reciprocal_antitone = λ m n h. ground arith;
}

abbrev chunk : Text → RankedChunk
chunk chunk_id = record {
  chunk_id = chunk_id;
  document_path = codes "guards.md";
  heading_path = codes "Guards" ∷ [];
  content = codes "A guard says yes or no.";
}

abbrev pub by_vector : List RankedChunk
by_vector = chunk (codes "a") ∷ chunk (codes "b") ∷ []

-- A chunk that both arms name overtakes one that only one arm names.
both_arms_win :
    map
      (λ (c : RetrievedChunk millionths). c.chunk_id)
      (fuse_by_rrf millionths (by_vector ∷ (chunk (codes "b") ∷ []) ∷ []) 60)
    ≡ codes "b" ∷ codes "a" ∷ []
unfolding fuse_by_rrf docent.Maps.put text_eq lookup
both_arms_win = refl

ids_distinct : HasDistinctIds by_vector
unfolding text_eq
ids_distinct = ((text_differs _ _ refl, tt), (tt, tt))

fuse_by_rrf-ranked_example :
    fuse_by_rrf millionths (by_vector ∷ [] ∷ []) 60 ≡ ranked millionths (60 + 1) by_vector
fuse_by_rrf-ranked_example =
    fuse_by_rrf-ranked millionths millionths-IsArithmetic by_vector 60 ids_distinct

fuse_by_rrf-IsDescending_example :
    IsDescending millionths (fuse_by_rrf millionths (by_vector ∷ by_vector ∷ []) 60)
    × (let fusion = add_lists millionths 60 (no_fusion millionths) (by_vector ∷ by_vector ∷ []) in
        Perm
          (fuse_by_rrf millionths (by_vector ∷ by_vector ∷ []) 60)
          (collect millionths fusion.payloads fusion.scores))
fuse_by_rrf-IsDescending_example =
    fuse_by_rrf-IsDescending millionths millionths-IsArithmetic (by_vector ∷ by_vector ∷ []) 60

-- Whole numbers that stand for their tenth of a micro-dollar, which is enough for the table.
abbrev power : ℕ → ℕ
power zero = 1
power (suc d) = 10 * power d

abbrev pub micro_dollars : Cost.Arithmetic
micro_dollars = record {
  Number = ℕ;
  literal = λ m d. m * (1_000_000 / power d);
  plus = λ a b. a + b;
  times = λ a b. a * b / 1_000_000;
  over = λ a b. a * 1_000_000 / b;
}

abbrev usage : TokenUsage
usage = record { prompt_tokens = 2000; completion_tokens = 100; cached_tokens = 500 }

abbrev mini : ChainLink
mini = record { provider = codes "openai"; model = codes "gpt-4.1-mini" }

abbrev mini_input : CostInput micro_dollars
mini_input = record {
  provider = mini.provider;
  configured_model = mini.model;
  usage = some usage;
  reported_cost_usd = none;
}

-- 1500 at 0.40, 500 at 0.10 and 100 at 1.60 dollars for a million.
mini_price :
    compute_cost micro_dollars mini_input ≡ record { usd_cost = some 810; cost_source = Cost.table }
unfolding compute_cost lookup text_eq
mini_price = refl

mini_in_table : missing_prices micro_dollars (mini ∷ []) ≡ []
unfolding missing_prices text_eq
mini_in_table = refl

missing_prices-compute_cost_example :
    (compute_cost micro_dollars (record {
      provider = mini.provider;
      configured_model = mini.model;
      usage = some usage;
      reported_cost_usd = none;
    })).cost_source
    ≢ Cost.unknown
missing_prices-compute_cost_example =
    missing_prices-compute_cost micro_dollars mini usage none mini_in_table (omega arith)

-- A world is the tables and the cache.
pub record Desk : Type 0 where
  pub tables : Tables millionths micro_dollars
  cache : Text → Option (CachedAnswer millionths micro_dollars)

abbrev pub completion : CompletionResult ℕ
completion = record {
  text = codes "It decides [1].";
  model = codes "gpt-4.1-mini-2025";
  configured_model = codes "gpt-4.1-mini";
  provider = codes "openai";
  finish_reason = codes "stop";
  usage = some usage;
  reported_cost_usd = none;
  model_reason = codes "primary";
}

abbrev found : RetrievedChunk millionths
found = record { chunk = chunk (codes "a"); score = 16 }

abbrev pub desk_service : Collaborators millionths micro_dollars
desk_service = record {
  World = Desk;
  Distance = ℕ;
  current_version = λ w. ok (codes "v1");
  get_json = λ k w. w.cache k;
  set_json = λ k c ttl w. record w { cache = λ j. if text_eq k j then some c else w.cache j };
  search = λ question w. (ok (found ∷ [], some 3), w);
  complete = λ request w. (ok completion, w);
  record_row = λ input w.
      let answer = record_answer millionths micro_dollars input w.tables in
      (answer.0, record w { tables = answer.1 });
  within_bound = λ distance. leb distance 5;
  question_hash = λ question. question;
  config_fingerprint = codes "c";
  answer_cache_ttl_s = 3600;
  show = λ n. [];
}

desk-IsSteady : IsSteady millionths micro_dollars desk_service
desk-IsSteady = record {
  version_set_json = λ k c ttl w. refl;
  version_record_row = λ input w. refl;
  version_search = λ question w. refl;
  version_complete = λ request w. refl;
  get_json_record_row = λ k input w. refl;
  get_json_set_json = λ k c ttl w. rw (text_eq_refl k);
}

abbrev desk_connected : IsConnected millionths micro_dollars desk_service
desk_connected = record {
  tables = λ w. w.tables;
  record_row-result = λ input w. refl;
  record_row-tables = λ input w. refl;
}

-- The chunk `a` exists, and `gone` does not.
abbrev pub empty_desk : Desk
empty_desk = record {
  tables = record {
    chunk_ids = codes "a" ∷ [];
    next_id = 1;
    queries = [];
    answers = [];
    citations = [];
    ledger = [];
  };
  cache = λ k. none;
}

abbrev pub question : Text
question = codes "What is a guard?"

abbrev after_asking : Desk
after_asking = (ask millionths micro_dollars desk_service question empty_desk).1

abbrev expected : AskResult millionths micro_dollars
expected = record {
  answer = some completion.text;
  grounded = true;
  citations =
      record {
        ordinal = 1;
        chunk_id = codes "a";
        path = codes "guards.md";
        heading_path = codes "Guards" ∷ [];
        score = 16;
      }
      ∷ [];
}

asked : ask millionths micro_dollars desk_service question empty_desk ≡ (ok expected, after_asking)
unfolding ask to_citations
asked = refl

ask_twice_example :
    (cached : CachedAnswer millionths micro_dollars) × (cached.result ≡ expected)
    × (ask millionths micro_dollars desk_service question after_asking ≡ (
      ok expected,
      record_cache_hit millionths micro_dollars desk_service question cached after_asking,
    ))
ask_twice_example =
    ask_twice millionths micro_dollars desk_service desk-IsSteady question empty_desk after_asking
      expected asked

abbrev stale_chunk : RetrievedChunk millionths
stale_chunk = record { chunk = chunk (codes "gone"); score = 16 }

-- A citation of a chunk that is gone.
abbrev stale_input : RecordInput millionths micro_dollars
stale_input = record {
  question = question;
  answer = some (codes "Once.");
  grounded = true;
  model = none;
  provider = none;
  finish_reason = none;
  citations = to_citations millionths micro_dollars (stale_chunk ∷ []);
  cost = none;
}

persist-IsRecorded_example :
    IsRecorded millionths micro_dollars stale_input empty_desk.tables
      (persist millionths micro_dollars desk_service stale_input empty_desk).tables
persist-IsRecorded_example =
    persist-IsRecorded millionths micro_dollars desk_service desk_connected stale_input empty_desk
      (has_unique_ordinals-to_citations millionths micro_dollars (stale_chunk ∷ []))
