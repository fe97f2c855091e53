-- ===== src/Scraper.antt =====
-- pipelines/mapear-rss/src/mapear_rss/extraction/scraper.py: fetching the pages, with the breaker,
-- the cool-down, the block detector and the diagnostics at work together. What the network, the
-- browsers and the clock do at each attempt is an argument.
pub mod State
pub mod Rendering
pub mod Attempts
pub mod Rendered
pub mod Outcomes
pub mod Branches
pub mod Retries
pub mod Budgets
pub mod Ends
pub mod Verdicts
pub mod Batches
pub mod SyncCounts
pub mod Accounts
pub mod Redirects
pub mod Reports
pub mod Tallies
mod Tests
