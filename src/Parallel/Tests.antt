-- ===== src/Parallel/Tests.antt =====
-- A run of two platforms, one of which fails, with the threads ending in the other order.
use mapear_rn.Base.{
  String, ◌≡◌, refl, none, some, List, [], ◌∷◌, map, if◌then◌else◌, Dict, lookup, insert, contains,
  arith, str_eq, join, show,
}
use mapear_rn.Breaker.{CircuitBreaker, new_breaker, allow_call, on_success, on_failure}
use mapear_rn.Parallel.{
  Run, Metrics, returned, exited, PlatformRunResult, skipped_result, finish_run,
  run_platform_in_thread, start_task, finish_task, start_all, finish_all, all_present, gather,
  orchestrate, run_all_platforms,
}
use mapear_rn.Parallel.Outcomes.{alone, is_good, every, orchestrate-alone, run_all_platforms-every}
use mapear_rn.Parallel.Failures.{rerun, rerun-skips}

abbrev counted : Metrics
counted = record { scraped = 9; filtered = 4; stored = 3; errors = 0 }

abbrev good_run : Run
good_run = record {
  outcome = returned;
  metrics = counted;
  asked = 10;
  started = 10;
  ended = 25;
  reported = 25;
}

abbrev bad_run : Run
bad_run = record good_run { outcome = exited (some 0); ended = 40; reported = 40 }

abbrev two_runs : String → Run
two_runs p = if str_eq p "x" then bad_run else good_run

abbrev two_breakers : Dict CircuitBreaker
two_breakers = ("tiktok", new_breaker "tiktok" 1 120 1) ∷ ("x", new_breaker "x" 1 120 1) ∷ []

abbrev breaker_of : String → CircuitBreaker
breaker_of p = new_breaker (if str_eq p "x" then "x" else "tiktok") 1 120 1

abbrev two_platforms : List String
two_platforms = "tiktok" ∷ "x" ∷ []

result_of_two :
    elim (orchestrate two_runs ("x" ∷ "tiktok" ∷ []) two_platforms two_breakers) [
      | none ↦ []
      | some (results, cbs) ↦
          map (λ (r : PlatformRunResult). join r.error_message r.cb_state) results
    ]
    ≡ "closed" ∷ "SystemExit(0)open" ∷ []
unfolding orchestrate start_all start_task finish_all finish_task finish_run gather all_present
    lookup insert new_breaker allow_call on_success on_failure show
result_of_two = refl

orchestrate-alone_example :
    (cbs' : Dict CircuitBreaker) × (orchestrate two_runs
        ("x" ∷ "tiktok" ∷ [])
        two_platforms
        two_breakers
      ≡ some (map (λ q. (alone two_runs breaker_of q).0) two_platforms, cbs'))
    × ((q : String)
        → lookup q cbs' ≡ (
            if contains q two_platforms
            then some (alone two_runs breaker_of q).1
            else lookup q two_breakers))
unfolding lookup
orchestrate-alone_example =
    orchestrate-alone two_runs breaker_of ("x" ∷ "tiktok" ∷ []) "tiktok" ("x" ∷ []) two_breakers
      (refl, (refl, tt)) (refl, (refl, tt)) (refl, (refl, tt))

run_all_platforms-every_example :
    (cbs' : Dict CircuitBreaker) × (run_all_platforms two_runs
        ("x" ∷ "tiktok" ∷ [])
        two_platforms
        (some two_breakers)
      ≡ some (every (is_good two_runs breaker_of) two_platforms, cbs'))
unfolding lookup
run_all_platforms-every_example =
    run_all_platforms-every two_runs breaker_of ("x" ∷ "tiktok" ∷ []) "tiktok" ("x" ∷ [])
      ("tiktok", new_breaker "tiktok" 1 120 1) (("x", new_breaker "x" 1 120 1) ∷ [])
      (refl, (refl, tt)) (refl, (refl, tt)) (refl, (refl, tt))

rerun-skips_example :
    let cb' =
      rerun "x" (bad_run ∷ []) (rerun "x" (bad_run ∷ bad_run ∷ []) (new_breaker "x" 3 120 1)) in
    run_platform_in_thread "x" good_run cb' ≡ (skipped_result "x", cb')
unfolding new_breaker
rerun-skips_example =
    rerun-skips "x" (bad_run ∷ bad_run ∷ []) bad_run good_run (new_breaker "x" 3 120 1) refl refl
      (refl, (refl, (refl, tt))) (omega arith)

abbrev two_results : List PlatformRunResult
two_results = (alone two_runs breaker_of "tiktok").0 ∷ (alone two_runs breaker_of "x").0 ∷ []
