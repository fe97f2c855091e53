-- ===== src/Parallel/Views.antt =====
-- What one platform sees of a parallel run: its breaker, its thread and its result.
use mapear_rn.Base.{
  String, ◌≡◌, refl, Bool, true, false, Option, none, some, List, [], ◌∷◌, arith, str_eq, eq_iff,
  eq_refl, if◌then◌else◌, lookup, lookup-insert_self, lookup-insert_ne, contains, eq_of_str_eq,
  Bool-cases, inl, inr, IsDistinct, sym, subst,
}
use mapear_rn.Breaker.{CircuitBreaker, allow_call}
use mapear_rn.Parallel.{
  Run, PlatformRunResult, skipped_result, finish_run, State, start_task, finish_task, start_all,
  finish_all,
}

pub record View : Type 0 where
  pub breaker : Option CircuitBreaker
  pub running : Bool
  pub result : Option PlatformRunResult

unfoldable pub view : String → State → View
view p s = record {
  breaker = lookup p s.breakers;
  running = s.is_running p;
  result = lookup p s.results;
}

unfoldable pub start_view : String → Run → View → View
start_view p r v = elim v.breaker [
  | none ↦ v
  | some cb ↦
      let (granted, cb') = allow_call r.asked cb in
      if granted
      then record v { breaker = some cb'; running = true }
      else record v { breaker = some cb'; result = some (skipped_result p) }
]

unfoldable pub finish_view : String → Run → View → View
finish_view p r v = elim v.breaker [
  | none ↦ v
  | some cb ↦
      let (result, cb') = finish_run p r cb in
      if v.running then record { breaker = some cb'; running = false; result = some result } else v
]

start_task_self :
    (runs : String → Run) (p : String) (s : State)
    → view p (start_task runs p s) ≡ start_view p (runs p) (view p s)
unfolding view start_view start_task
start_task_self runs p s = grind (arith, lookup-insert_self, eq_refl)

finish_task_self :
    (runs : String → Run) (p : String) (s : State)
    → view p (finish_task runs p s) ≡ finish_view p (runs p) (view p s)
unfolding view finish_view finish_task
finish_task_self runs p s = grind (arith, lookup-insert_self, eq_refl)

start_task-other :
    (runs : String → Run) (p q : String) (s : State)
    → str_eq q p ≡ false
    → view p (start_task runs q s) ≡ view p s
unfolding view start_task
start_task-other runs p q s n = grind (arith, lookup-insert_ne)

finish_task-other :
    (runs : String → Run) (p q : String) (s : State)
    → str_eq q p ≡ false
    → view p (finish_task runs q s) ≡ view p s
unfolding view finish_task
finish_task-other runs p q s n = grind (arith, lookup-insert_ne)

ne_swap : (p q : String) → str_eq p q ≡ false → str_eq q p ≡ false
ne_swap p q n = ground (arith, eq_iff p q, eq_iff q p)

-- A thread ends once.
finish_view_twice :
    (p : String) (r : Run) (v : View) → finish_view p r (finish_view p r v) ≡ finish_view p r v
unfolding finish_view
finish_view_twice p r v = ground arith

pub start_all-view :
    (runs : String → Run) (p : String) (ps : List String) (s : State)
    → IsDistinct ps
    → view p (start_all runs ps s)
      ≡ (if contains p ps then start_view p (runs p) (view p s) else view p s)
unfolding start_all
start_all-view runs p [] s d = refl
start_all-view runs p (q ∷ ps) s d = elim (Bool-cases (str_eq p q)) [
  | inl e ↦
      let absent : contains p ps ≡ false =
        subst (λ k. contains k ps ≡ false) (sym (eq_of_str_eq p q e)) d.0 in
      rw (sym (eq_of_str_eq p q e)) (
        ground (
          arith,
          eq_refl p,
          absent,
          start_all-view runs p ps (start_task runs p s) d.1,
          start_task_self runs p s,
        ))
  | inr n ↦ ground (
    arith,
    start_all-view runs p ps (start_task runs q s) d.1,
    start_task-other runs p q s (ne_swap p q n),
  )
]

pub finish_all-view :
    (runs : String → Run) (p : String) (order : List String) (s : State)
    → view p (finish_all runs order s)
      ≡ (if contains p order then finish_view p (runs p) (view p s) else view p s)
unfolding finish_all
finish_all-view runs p [] s = refl
finish_all-view runs p (q ∷ order) s = elim (Bool-cases (str_eq p q)) [
  | inl e ↦ rw (sym (eq_of_str_eq p q e)) (
      ground (
        arith,
        eq_refl p,
        finish_all-view runs p order (finish_task runs p s),
        finish_task_self runs p s,
        finish_view_twice p (runs p) (view p s),
      ))
  | inr n ↦ ground (
    arith,
    finish_all-view runs p order (finish_task runs q s),
    finish_task-other runs p q s (ne_swap p q n),
  )
]
