-- ===== src/Parallel/Outcomes.antt =====
-- What a parallel run of the platforms amounts to, whatever the order in which its threads end.
use mapear_rn.Base.{
  String, ◌≡◌, refl, Bool, true, false, ◌&&◌, none, some, List, [], ◌∷◌, map, arith, if◌then◌else◌,
  Dict, lookup, contains, IsDistinct, All, ap, sym, subst, ◌∙◌, eq_refl, str_eq, eq_of_str_eq,
  Bool-cases, inl, inr,
}
use mapear_rn.Breaker.{CircuitBreaker, allow_call}
use mapear_rn.Parallel.{
  Run, Outcome, returned, exited, crashed, PlatformRunResult, finish_run, run_platform_in_thread,
  State, start_state, start_all, finish_all, all_present, gather, orchestrate, run_all_platforms,
  all_succeeded,
}
use mapear_rn.Parallel.Views.{View, view, start_view, finish_view, start_all-view, finish_all-view}

finish_view-start_view :
    (p : String) (r : Run) (cb : CircuitBreaker)
    → let (result, cb') = run_platform_in_thread p r cb in
      finish_view p r (start_view p r record { breaker = some cb; running = false; result = none })
      ≡ record { breaker = some cb'; running = false; result = some result }
unfolding finish_view start_view run_platform_in_thread
finish_view-start_view p r cb = ground arith

gather-All :
    (f : String → PlatformRunResult) (ps : List String) (results : Dict PlatformRunResult)
    → All (λ p. lookup p results ≡ some (f p)) ps
    → gather ps results ≡ map f ps
unfolding gather
gather-All f [] results h = refl
gather-All f (p ∷ ps) results h = ground (arith, h.0, gather-All f ps results h.1)

all_present-All :
    (cb : String → CircuitBreaker) (ps : List String) (cbs : Dict CircuitBreaker)
    → All (λ p. lookup p cbs ≡ some (cb p)) ps
    → all_present ps cbs ≡ true
unfolding all_present
all_present-All cb [] cbs h = refl
all_present-All cb (p ∷ ps) cbs h = ground (arith, h.0, all_present-All cb ps cbs h.1)

-- Each platform's run on its own, from the breaker it has.
abbrev pub alone :
    (String → Run) → (String → CircuitBreaker) → String → PlatformRunResult × CircuitBreaker
alone runs cb p = run_platform_in_thread p (runs p) (cb p)

final : (String → Run) → List String → List String → Dict CircuitBreaker → State
final runs order ps cbs = finish_all runs order (start_all runs ps (start_state cbs))

view-start :
    (cb : CircuitBreaker) (cbs : Dict CircuitBreaker) (p : String)
    → lookup p cbs ≡ some cb
    → view p (start_state cbs) ≡ record { breaker = some cb; running = false; result = none }
unfolding view lookup
view-start cb cbs p h = ground arith

view-final :
    (runs : String → Run) (order ps : List String) (cbs : Dict CircuitBreaker) (p : String)
    → IsDistinct ps
    → view p (final runs order ps cbs) ≡ (
        let v = view p (start_state cbs) in
        let v' = if contains p ps then start_view p (runs p) v else v in
        if contains p order then finish_view p (runs p) v' else v')
unfolding final
view-final runs order ps cbs p d = ground (
  arith,
  finish_all-view runs p order (start_all runs ps (start_state cbs)),
  start_all-view runs p ps (start_state cbs) d,
)

final-alone :
    (runs : String → Run) (cb : String → CircuitBreaker) (order ps : List String)
    (cbs : Dict CircuitBreaker) (p : String)
    → IsDistinct ps
    → contains p ps ≡ true
    → contains p order ≡ true
    → lookup p cbs ≡ some (cb p)
    → view p (final runs order ps cbs) ≡ record {
      breaker = some (alone runs cb p).1;
      running = false;
      result = some (alone runs cb p).0;
    }
final-alone runs cb order ps cbs p d c o h = ground (
  arith,
  view-final runs order ps cbs p d,
  view-start (cb p) cbs p h,
  finish_view-start_view p (runs p) (cb p),
)

final-other :
    (runs : String → Run) (order ps : List String) (cbs : Dict CircuitBreaker) (p : String)
    → IsDistinct ps
    → contains p ps ≡ false
    → lookup p (final runs order ps cbs).breakers ≡ lookup p cbs
unfolding view finish_view
final-other runs order ps cbs p d c =
    ap (λ (v : View). v.breaker) (view-final runs order ps cbs p d) ∙ ground (arith, c)

orchestrate-final :
    (runs : String → Run) (order : List String) (p : String) (ps : List String)
    (cbs : Dict CircuitBreaker) (rs : List PlatformRunResult)
    → all_present (p ∷ ps) cbs ≡ true
    → gather (p ∷ ps) (final runs order (p ∷ ps) cbs).results ≡ rs
    → orchestrate runs order (p ∷ ps) cbs ≡ some (rs, (final runs order (p ∷ ps) cbs).breakers)
unfolding orchestrate final
orchestrate-final runs order p ps cbs rs h g = ground arith

All-from_contains :
    (P : String → Type 0) (ps : List String)
    → ((p : String) → contains p ps ≡ true → P p)
    → All P ps
All-from_contains P [] f = tt
All-from_contains P (p ∷ ps) f =
    (f p (ground (arith, eq_refl p)), All-from_contains P ps (λ q c. f q (ground arith)))

All-at :
    (P : String → Type 0) (p : String) (ps : List String) → All P ps → contains p ps ≡ true → P p
All-at P p [] h c = absurd (ground arith)
All-at P p (q ∷ ps) h c = elim (Bool-cases (str_eq p q)) [
  | inl e ↦ subst P (sym (eq_of_str_eq p q e)) h.0
  | inr n ↦ All-at P p ps h.1 (ground arith)
]

-- When the platforms are distinct, each has a breaker and each thread ends, the run yields for
-- every platform, in the platforms' order, what that platform's run on its own yields, in whatever
-- order the threads end; every platform's breaker is left as by its run on its own, and every
-- other breaker as it was.
pub orchestrate-alone :
    (runs : String → Run) (cb : String → CircuitBreaker) (order : List String) (p : String)
    (ps : List String) (cbs : Dict CircuitBreaker)
    → IsDistinct (p ∷ ps)
    → All (λ q. contains q order ≡ true) (p ∷ ps)
    → All (λ q. lookup q cbs ≡ some (cb q)) (p ∷ ps)
    → (cbs' : Dict CircuitBreaker) × (orchestrate runs order (p ∷ ps) cbs
        ≡ some (map (λ q. (alone runs cb q).0) (p ∷ ps), cbs'))
      × ((q : String)
          → lookup q cbs'
            ≡ (if contains q (p ∷ ps) then some (alone runs cb q).1 else lookup q cbs))
unfolding view
orchestrate-alone runs cb order p ps cbs d o h =
    let s = final runs order (p ∷ ps) cbs in
    let seen = λ (q : String) (c : contains q (p ∷ ps) ≡ true).
      final-alone runs cb order (p ∷ ps) cbs q d c (All-at _ q (p ∷ ps) o c)
        (All-at _ q (p ∷ ps) h c) in
    let gathered =
      gather-All (λ q. (alone runs cb q).0) (p ∷ ps) s.results
        (All-from_contains _ (p ∷ ps) (λ q c. ap (λ (v : View). v.result) (seen q c))) in
    (
      s.breakers,
      orchestrate-final runs order p ps cbs (map (λ q. (alone runs cb q).0) (p ∷ ps))
          (all_present-All cb (p ∷ ps) cbs h) gathered,
      λ q. elim (Bool-cases (contains q (p ∷ ps))) [
        | inl c ↦ ground (arith, c, ap (λ (v : View). v.breaker) (seen q c))
        | inr c ↦ ground (arith, c, final-other runs order (p ∷ ps) cbs q d c)
      ],
    )

abbrev pub has_returned : Outcome → Bool
has_returned returned = true
has_returned (exited code) = false
has_returned (crashed message) = false

-- The platform's breaker grants the call, and its pipeline returns.
abbrev pub is_good : (String → Run) → (String → CircuitBreaker) → String → Bool
is_good runs cb p = (allow_call (runs p).asked (cb p)).0 && has_returned (runs p).outcome

success-alone :
    (p : String) (r : Run) (cb : CircuitBreaker)
    → (run_platform_in_thread p r cb).0.success
      ≡ ((allow_call r.asked cb).0 && has_returned r.outcome)
unfolding run_platform_in_thread finish_run
success-alone p r cb = ground arith

abbrev pub every : (String → Bool) → List String → Bool
every f [] = true
every f (p ∷ ps) = f p && every f ps

all_succeeded-alone :
    (runs : String → Run) (cb : String → CircuitBreaker) (ps : List String)
    → all_succeeded (map (λ q. (alone runs cb q).0) ps) ≡ every (is_good runs cb) ps
all_succeeded-alone runs cb [] = refl
all_succeeded-alone runs cb (p ∷ ps) =
    ground (arith, success-alone p (runs p) (cb p), all_succeeded-alone runs cb ps)

-- When the platforms are distinct, each has a breaker among those given and each thread ends, the
-- run reports success exactly if every platform's breaker grants its call and every platform's
-- pipeline returns, in whatever order the threads end.
pub run_all_platforms-every :
    (runs : String → Run) (cb : String → CircuitBreaker) (order : List String) (p : String)
    (ps : List String) (e : String × CircuitBreaker) (cbs : Dict CircuitBreaker)
    → IsDistinct (p ∷ ps)
    → All (λ q. contains q order ≡ true) (p ∷ ps)
    → All (λ q. lookup q (e ∷ cbs) ≡ some (cb q)) (p ∷ ps)
    → (cbs' : Dict CircuitBreaker) × (run_all_platforms runs order (p ∷ ps) (some (e ∷ cbs))
        ≡ some (every (is_good runs cb) (p ∷ ps), cbs'))
unfolding run_all_platforms
run_all_platforms-every runs cb order p ps e cbs d o h =
    let (cbs', eq, _) = orchestrate-alone runs cb order p ps (e ∷ cbs) d o h in
    (cbs', ground (arith, eq, all_succeeded-alone runs cb (p ∷ ps)))
