-- ===== src/Parallel.antt =====
-- pipelines/mapear-social/src/mapear_social/parallel.py: the pipelines of all social platforms, one
-- thread each, every platform behind its own circuit breaker. Up to the barrier the event loop asks
-- the breakers in the order of the platforms; the threads then finish in any order. What a thread
-- does is a `Run`: the injected pipeline's outcome, its counters, and the clock's readings.
pub mod Views
pub mod Outcomes
pub mod Failures
pub mod Report
pub mod Latencies
mod Tests
use mapear_rn.Base.{
  ℕ, zero, suc, ◌+◌, ◌-◌, ◌*◌, ◌/◌, String, Bool, true, false, ◌&&◌, not, Option, none, some, List,
  [], ◌∷◌, map, ltb, leb, ◌==◌, str_eq, if◌then◌else◌, length, select, Dict, lookup, insert, join,
  show, min, max,
}
use mapear_rn.Breaker.{
  CircuitState, closed, opened, half_open, CircuitBreaker, new_breaker, allow_call, on_success,
  on_failure,
}

pub record Metrics : Type 0 where
  pub scraped : ℕ
  pub filtered : ℕ
  pub stored : ℕ
  pub errors : ℕ

-- How the pipeline function ends: it returns, raises SystemExit with a code or None, or raises
-- another exception with a message.
pub data Outcome : Type 0 where
  returned : Outcome
  exited : Option ℕ → Outcome
  crashed : String → Outcome

-- `asked` and `reported` are the clock's readings in the breaker, `started` and `ended` those of the
-- latency.
pub record Run : Type 0 where
  pub outcome : Outcome
  pub metrics : Metrics
  pub asked : ℕ
  pub started : ℕ
  pub ended : ℕ
  pub reported : ℕ

pub record PlatformRunResult : Type 0 where
  pub platform : String
  pub success : Bool
  pub latency_seconds : ℕ
  pub scraped_count : ℕ
  pub filtered_count : ℕ
  pub stored_count : ℕ
  pub errors_count : ℕ
  pub exit_code : ℕ
  pub error_message : String
  pub cb_state : String

abbrev pub state_value : CircuitState → String
state_value closed = "closed"
state_value opened = "open"
state_value half_open = "half_open"

abbrev pub skipped_result : String → PlatformRunResult
skipped_result p = record {
  platform = p;
  success = false;
  latency_seconds = 0;
  scraped_count = 0;
  filtered_count = 0;
  stored_count = 0;
  errors_count = 0;
  exit_code = 0;
  error_message = "circuit_breaker_open";
  cb_state = "open";
}

-- `exc.code or 1`
abbrev pub code_or_one : Option ℕ → ℕ
code_or_one none = 1
code_or_one (some n) = if n == 0 then 1 else n

abbrev pub exit_message : Option ℕ → String
exit_message none = "SystemExit(None)"
exit_message (some n) = join "SystemExit(" (join (show n) ")")

success_result : String → Run → CircuitBreaker → PlatformRunResult
success_result p r cb = record {
  platform = p;
  success = true;
  latency_seconds = r.ended - r.started;
  scraped_count = r.metrics.scraped;
  filtered_count = r.metrics.filtered;
  stored_count = r.metrics.stored;
  errors_count = r.metrics.errors;
  exit_code = 0;
  error_message = "";
  cb_state = state_value cb.state;
}

failure_result : String → Run → ℕ → String → CircuitBreaker → PlatformRunResult
failure_result p r code message cb = record {
  platform = p;
  success = false;
  latency_seconds = r.ended - r.started;
  scraped_count = r.metrics.scraped;
  filtered_count = 0;
  stored_count = 0;
  errors_count = r.metrics.errors;
  exit_code = code;
  error_message = message;
  cb_state = state_value cb.state;
}

-- `_run_platform_in_thread` from the end of the thread on
unfoldable pub finish_run : String → Run → CircuitBreaker → PlatformRunResult × CircuitBreaker
unfolding success_result failure_result
finish_run p r cb = elim r.outcome [
  | returned ↦ let cb' = on_success cb in (success_result p r cb', cb')
  | exited code ↦
      let cb' = on_failure r.reported cb in
      (failure_result p r (code_or_one code) (exit_message code) cb', cb')
  | crashed message ↦ let cb' = on_failure r.reported cb in (failure_result p r 0 message cb', cb')
]

-- `_run_platform_in_thread` for a platform on its own
unfoldable pub run_platform_in_thread :
    String → Run → CircuitBreaker → PlatformRunResult × CircuitBreaker
run_platform_in_thread p r cb =
    let (granted, cb') = allow_call r.asked cb in
    if granted then finish_run p r cb' else (skipped_result p, cb')

-- The breakers, the threads that run, and the results of the tasks that are done.
pub record State : Type 0 where
  pub breakers : Dict CircuitBreaker
  pub is_running : String → Bool
  pub results : Dict PlatformRunResult

abbrev pub set_running : String → Bool → (String → Bool) → String → Bool
set_running p b running q = if str_eq p q then b else running q

-- A task up to the start of its thread.
unfoldable pub start_task : (String → Run) → String → State → State
start_task runs p s = elim (lookup p s.breakers) [
  | none ↦ s
  | some cb ↦
      let (granted, cb') = allow_call (runs p).asked cb in
      if granted
      then record s {
        breakers = insert p cb' s.breakers;
        is_running = set_running p true s.is_running;
      }
      else record s {
        breakers = insert p cb' s.breakers;
        results = insert p (skipped_result p) s.results;
      }
]

-- A task from the end of its thread on; nothing ends that does not run.
unfoldable pub finish_task : (String → Run) → String → State → State
finish_task runs p s = elim (lookup p s.breakers) [
  | none ↦ s
  | some cb ↦
      let (result, cb') = finish_run p (runs p) cb in
      if s.is_running p
      then record s {
        breakers = insert p cb' s.breakers;
        is_running = set_running p false s.is_running;
        results = insert p result s.results;
      }
      else s
]

unfoldable pub start_all : (String → Run) → List String → State → State
start_all runs [] s = s
start_all runs (p ∷ ps) s = start_all runs ps (start_task runs p s)

unfoldable pub finish_all : (String → Run) → List String → State → State
finish_all runs [] s = s
finish_all runs (p ∷ ps) s = finish_all runs ps (finish_task runs p s)

-- `circuit_breakers[p] for p in platforms`: a missing one is a KeyError.
unfoldable pub all_present : List String → Dict CircuitBreaker → Bool
all_present [] cbs = true
all_present (p ∷ ps) cbs = elim (lookup p cbs) [ none ↦ false | some _ ↦ all_present ps cbs ]

-- `asyncio.gather`: the results in the order of the platforms.
unfoldable pub gather : List String → Dict PlatformRunResult → List PlatformRunResult
gather [] results = []
gather (p ∷ ps) results =
    let rest = gather ps results in elim (lookup p results) [ none ↦ rest | some r ↦ r ∷ rest ]

abbrev pub start_state : Dict CircuitBreaker → State
start_state cbs = record { breakers = cbs; is_running = λ p. false; results = [] }

-- `_orchestrate`, whose threads end in the given order. An empty tuple of platforms and a platform
-- without a breaker are errors (ValueError of the executor, KeyError).
unfoldable pub orchestrate :
    (String → Run)
    → List String
    → List String
    → Dict CircuitBreaker
    → Option (List PlatformRunResult × Dict CircuitBreaker)
orchestrate runs order [] cbs = none
orchestrate runs order (p ∷ ps) cbs =
    let s = finish_all runs order (start_all runs (p ∷ ps) (start_state cbs)) in
    if all_present (p ∷ ps) cbs then some (gather (p ∷ ps) s.results, s.breakers) else none

abbrev pub default_platforms : List String
default_platforms = "facebook" ∷ "instagram" ∷ "tiktok" ∷ "x" ∷ []

-- `CircuitBreaker(p)` with the defaults of its fields
unfoldable pub default_breakers : List String → Dict CircuitBreaker
default_breakers [] = []
default_breakers (p ∷ ps) = (p, new_breaker p 3 120 1) ∷ default_breakers ps

abbrev pub all_succeeded : List PlatformRunResult → Bool
all_succeeded [] = true
all_succeeded (r ∷ rs) = r.success && all_succeeded rs

-- `circuit_breakers or {…}`: no dictionary, or an empty one, gives the defaults.
abbrev pub breakers_or_default : Option (Dict CircuitBreaker) → List String → Dict CircuitBreaker
breakers_or_default none ps = default_breakers ps
breakers_or_default (some []) ps = default_breakers ps
breakers_or_default (some (e ∷ cbs)) ps = e ∷ cbs

-- The Boolean result, with the breakers as the run leaves them.
unfoldable pub run_all_platforms :
    (String → Run)
    → List String
    → List String
    → Option (Dict CircuitBreaker)
    → Option (Bool × Dict CircuitBreaker)
run_all_platforms runs order ps cbs =
    elim (orchestrate runs order ps (breakers_or_default cbs ps)) [
      | none ↦ none
      | some (results, cbs') ↦ some (all_succeeded results, cbs')
    ]
