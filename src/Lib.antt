-- ===== src/Lib.antt =====
-- docent: a service that answers questions about a documentation corpus.
--
-- Markdown sources are cut into chunks and stored with their embeddings; a question is answered by
-- retrieving chunks, asking a chain of language models, and recording the answer, its citations and
-- its cost. Files here and the code they are about:
--
-- Base, Base/*           lists, strings of UTF-16 code units, tests on numbers, results of calls
-- Maps                   a JavaScript `Map` with string keys
-- Errors                 src/common/describe-error.ts
-- Chunker, Chunker/*     src/ingestion/chunker.ts, and the two table tests of html-table.ts beside it
-- Llm, Llm/*             src/llm/llm-chain.ts, llm.router.ts, llm.types.ts beside it, and
--                        openai-compatible.provider.ts in Llm/Provider
-- Retrieval, Retrieval/* src/retrieval/rrf.ts, retrieval.types.ts, retrieval.service.ts
-- Cache, Cache/*         src/common/cache/cache.keys.ts, cache.service.ts, corpus-version.ts
-- Cost, Cost/*           src/cost/cost.calculator.ts, model-prices.ts, and cost.repository.ts in
--                        Cost/Report
-- Ask, Ask/*             src/ask/ask.service.ts, prompt.ts, ask.types.ts, ask.repository.ts, and
--                        ask.controller.ts in Ask/Endpoints
-- Throttling             src/common/throttling/redis-throttler.storage.ts
-- Ingestion, Ingestion/* src/ingestion: Tables for ingestion.repository.ts, Claims, Pipeline and
--                        Starts for ingestion.service.ts, HtmlTable for html-table.ts, Cleaner for
--                        markdown-cleaner.ts, Loader for markdown-loader.ts, and Fetcher for
--                        source-fetcher.ts
-- Config, Config/*       src/common/config/env.schema.ts
-- Logging, Logging/*     src/common/logging/json.logger.ts, request-id.middleware.ts
-- Tests, Tests/*         runs on concrete data
--
-- A function has its source's name in small letters with underscores, so `splitAtSafeBoundaries` is
-- `split_at_safe_boundaries`; the rounds of a loop and the branches behind a call are functions of
-- their own. The closures of the chunker are records: `consume_fence` returns the tracker's next
-- record with the answer, and `Output` holds the bodies and the buffer. A thrown value is the `err`
-- of a result. A database or a cache is a value that an operation takes and returns; a transaction
-- that fails returns the tables as they were. A stream is the script of what its `next()` gives, and
-- a consumer is the number of calls it makes; what the router does to the streams is a list of events.
--
-- The service of Ask is over a record of its collaborators. Persist joins that record with the tables
-- of Ask/Repository, and the cost in every row is that of Cost. The router of Llm is one such
-- collaborator in the program, and the chunks that retrieval gives carry the scores of Retrieval.
--
-- A regular expression is a matcher of Base/Scan, the length of its match at the start of a text;
-- the replacement of all matches runs over the text with a count of the characters to skip. A run of
-- the pipeline takes and returns the host with the network, one parameter, beside the database; the
-- heartbeat is the number of its beats during a call.
--
-- Every loop runs over a list, a text or a number of calls. The only fuel is that of `digits_from`,
-- which writes a number in decimal: the number itself, and each round divides it by ten.
--
-- Parameters, for code of other packages: the tokeniser of gpt-tokenizer, the arithmetic of numbers
-- with a fraction, the commands of Redis, the hash of a question, the client of the openai package,
-- the embeddings API, the queries of retrieval, the file system, its paths, and git. What the
-- theorems ask of them is in the records `IsArithmetic`, `IsRedis`, `IsConnected`, `IsSteady`,
-- `IsKept` and `AreDistinct`, and in `RemovesDirectories`; `IsArithmetic` does not hold of NaN.
-- The chunker's count of tokens always returns; a tokeniser that throws, as for a text with a special
-- token, is `parse_failure` of the pipeline, which stops the parsing of that document. A thrown value
-- that the program catches is taken to be one that `describe_error` describes without throwing,
-- `Thrown` of Errors, where `describe_error` itself is over all values.
-- Counts and times are natural numbers. A generated identifier is the next number. A provider's
-- `stream` does not throw itself: only `next()` does, as with a generator.
--
-- Not modelled: the log lines of each part but for the severity that the rate limiter chooses, their
-- serialisation, timeouts, the text of error messages that the program throws itself where no one
-- reads it, connections, the headers of responses, the fields of the configuration's schema, which
-- the zod package checks, the health checks, and the wiring of the modules. A heartbeat beats only
-- during a call, and other requests change nothing during a run.
pub mod Base
pub mod Maps
pub mod Errors
pub mod Chunker
pub mod Llm
pub mod Retrieval
pub mod Cost
pub mod Ask
pub mod Throttling
pub mod Cache
pub mod Ingestion
pub mod Config
pub mod Logging
mod Tests
