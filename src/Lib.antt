-- ===== src/Lib.antt =====
-- Verification of the extraction and analysis core of Mapear-RN, a set of Python pipelines that
-- collects news articles and social media posts and looks for coordinated behaviour in them.
--
-- The program's parts and the files that model them:
--
--   * Breaker: libs/mapear-infra/src/mapear_infra/circuit_breaker.py, the in-memory circuit breaker
--     of a social platform. `CircuitBreaker` is the dataclass; `allow_call`, `on_success` and
--     `on_failure` are its methods, each a function from the breaker before to the breaker after.
--     The methods hold a lock, so a run of several threads is a sequence of these steps
--     (Breaker/Trace).
--   * ErrorClass, Cooldown: pipelines/mapear-rss/src/mapear_rss/extraction/domain_cooldown.py, the
--     classes of fetch errors and the parking of domains that block the scraper. `DomainCooldown`
--     is the tracker with a dictionary of `DomainState`; `record_block`, `is_cool`,
--     `record_success`, `reset`, `snapshot` and `total_skips` are its methods.
--   * Frontier: pipelines/mapear-rss/src/mapear_rss/discovery/url_frontier.py, the queue of
--     discovered URLs in the tables of pipelines/mapear-rss/scripts/init_db.sql. A `Frontier` is
--     the content of the two tables; a method is one transaction, hence one function. It returns
--     what the method returns beside the new tables.
--   * BlockDetector: pipelines/mapear-rss/src/mapear_rss/extraction/block_detector.py, which tells
--     anti-bot pages from parser failures (`detect`) and names a failed fetch
--     (`classify_failure`). The scraper hands this name to the cool-down, which reads it with
--     `error_class_for`.
--   * ClusterTracker: libs/mapear-nlp/src/mapear_nlp/graph/cluster_tracker.py, the identity of a
--     community of accounts from one day to the next.
--   * ClusterSeries: the same file's `track_cluster_series`, which chains the matchings of adjacent
--     days into series.
--   * Parallel: pipelines/mapear-social/src/mapear_social/parallel.py, the pipelines of all platforms
--     in threads of their own, each behind its breaker. `run_platform_in_thread` is one task;
--     `orchestrate` starts the tasks in order and ends the threads in a given order, which stands for
--     any interleaving, since a task gives control back only while its thread runs. Parallel/Report
--     has the figures of the latency report.
--   * Deduplicator: pipelines/mapear-rss/src/mapear_rss/transformation/deduplicator.py and
--     libs/mapear-storage/src/mapear_storage/transformation/url_canonicalizer.py. It loads what it
--     knows from the rows that the frontier has marked completed.
--   * FeedMonitor: pipelines/mapear-rss/src/mapear_rss/monitoring/feed_health.py, the availability of
--     the feeds and the history of their failures in the table of feeds.
--   * DiversityScorer: pipelines/mapear-rss/src/mapear_rss/analysis/diversity_scorer.py, the share of
--     the dominant source in a batch and the concentration index.
--   * Scraper: pipelines/mapear-rss/src/mapear_rss/extraction/scraper.py and diagnostics.py, where the
--     breaker, the cool-down and the block detector work together. `async_scrape_one` is the
--     coroutine of one URL: its guards, then `attempts`, the retry loop, each of whose rounds is
--     `one_attempt`; Scraper/Rendering has the two browsers. `scrape_url` and `scrape_batch_sync` are
--     the synchronous path, `gathered` the end of the asynchronous batch. Scraper/Reports has the
--     counts of the run report.
--   * RedisBreaker: pipelines/mapear-rss/src/mapear_rss/extraction/circuit_breaker.py, the breaker of a
--     domain that the scraper is given. Every command of the Redis client may raise; `Answer` is what
--     a method ends with, and `IsServing` (RedisBreaker/Recovery) says what the client does while the
--     connection holds.
--   * Watermark: libs/mapear-infra/src/mapear_infra/watermark.py, the times of the last runs, with
--     the exceptions of the storage.
--   * Quality: libs/mapear-infra/src/mapear_infra/quality.py, the inline gates between the layers.
--   * SocialPipeline: pipelines/mapear-social/src/mapear_social/pipeline.py, the stages of a run that
--     call no service: the items and their dead letters, the repeated posts, the mentions
--     (SocialPipeline/Regions), the volumes, and what the classifier is handed
--     (SocialPipeline/Inputs).
--   * PoliticalSentiment: libs/mapear-nlp/src/mapear_nlp/political_sentiment.py, the label that the
--     pipeline puts on a row.
--   * PersonResolver: libs/mapear-domain/src/mapear_domain/entity_resolution/person_resolver.py, the
--     monitored person of a mention and of a text. `resolve` goes through the tiers of the source:
--     `by_handle`, `by_name` with `resolve_exact`, `resolve_tokens`.
--   * AuthorResolver: libs/mapear-domain/src/mapear_domain/entity_resolution/author_resolver.py, the
--     decision on a pair of accounts and the union-find of `_connected_components`. The accounts are
--     numbered in their order.
--   * Base holds what the files share: tests and laws of native numbers, texts, lists and
--     dictionaries.
--
-- Representation. A clock's reading is an argument of the operation that reads it, in whole ticks
-- (whole seconds in the tables); a difference that a Python comparison forms is moved to the other
-- side, so it does not stop at 0. The growth factor of the cool-down is a natural number. A Jaccard
-- index and its threshold are exact fractions, compared by cross-multiplication, where the source
-- has floating-point numbers; a polarity is a number of ten-thousandths, moved up by one, a
-- confidence of the person resolver and a similarity of the author resolver are numbers of
-- hundredths, of which the closeness of two, a floating-point difference, is a parameter; the
-- position of a percentile is the exact integer part. The growth of the cool-down has no bound,
-- where a floating-point power overflows. The accounts of the union-find are gone through in the
-- order of their numbers. A Python dictionary is an association list in insertion order; a database
-- table is a list of rows.
--
-- Parameters. `netloc` is the part of `urllib.parse.urlparse` that the cool-down uses, `lower` is
-- `str.lower`, an `OrderBy` is SQL's sort with the law that it returns the rows it was given, and
-- `locked` says which rows another transaction holds. `UrlLib` is what the canonicaliser calls of
-- `urllib.parse` and `str`, `digest` the SHA-1 digest that names a series, a `HeadOutcome` what a
-- HEAD request does, and a `Run` what a platform's pipeline does in its thread, with the readings
-- of the clock. `Services` is what the scraper is given: the breaker's protocol, the parser, and
-- functions on texts; an `Attempt` is what the clock, the network and the browsers do at one
-- attempt. `SyncServices` is what the synchronous path is given, where each method of the breaker,
-- the netloc of a URL and the answer of robots.txt may be an exception; in a coroutine an exception
-- there would end it, and is not modelled. A `SyncFetch` is how a synchronous request ends after
-- its own retries. `Redis` is the client of that package, `Texts` the reading of stored numbers;
-- `Storage`, `Json` and `Datetimes` are what the watermarks use; `Pandas` is what the gates ask of
-- a data frame; `Lexicon` is the treatment of names by `unicodedata` and `str`. `Confidences` has
-- the classifier's `_compute_confidence` and the `round` to four digits; `parse_item` of an adapter
-- and the total of the confidence scorer are functions that the definitions are given.
--
-- Every loop of the modelled code is a recursion on a list, or on the number of its rounds where it
-- is a loop over a range; only `find` of the union-find runs on fuel, the number of the account and
-- one more, which is enough since a parent is smaller than its child (AuthorResolver/Components).
-- The decimal digits of a number (Base/Text) are produced with the number itself as the bound,
-- which no number has more digits than.
--
-- Not modelled: logging and metrics; the HTTP client and the browsers, the scraper's delays,
-- semaphores and latencies, its cache of robots.txt; the order in which the pipelines call their
-- stages; the exponentials and logarithms of the classifier's confidence and risk; the confidence
-- scorer, the similarities and the blocking of the author resolver, the region rules, the quality
-- report, the coactivation graph; the platform and discovery adapters, the storage loaders and the
-- services, which are calls of networks, databases and third-party packages; the language models
-- and embeddings; the dashboard; the dbt, Terraform and workflow files.
pub mod Base
pub mod Breaker
pub mod ErrorClass
pub mod Cooldown
pub mod Frontier
pub mod BlockDetector
pub mod ClusterTracker
pub mod Parallel
pub mod Deduplicator
pub mod FeedMonitor
pub mod ClusterSeries
pub mod DiversityScorer
pub mod Scraper
pub mod RedisBreaker
pub mod Watermark
pub mod SocialPipeline
pub mod Quality
pub mod PoliticalSentiment
pub mod PersonResolver
pub mod AuthorResolver
