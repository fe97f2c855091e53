-- ===== src/RedisBreaker/Tests.antt =====
-- The theorems of the breaker in Redis at a store that is a function on keys and at a connection
-- that is lost.
use Prim.Native.String.{len}
use text.Mathlib.TextPositions.{len-append}
use mapear_rn.Base.{
  ℕ, zero, suc, ◌-◌, String, false, ◌≡◌, refl, ap, ◌⊎◌, Option, none, some, [], ◌∷◌, str_eq,
  str_eq_of_ne, if◌then◌else◌, join, arith, get_or,
}
use mapear_rn.RedisBreaker.{
  opened, half_open, set, delete, Redis, Texts, returned, CircuitBreaker, get_state, is_allowed,
  record_success, record_failure,
}
use mapear_rn.RedisBreaker.Failing.{IsQuiet, methods-IsQuiet}
use mapear_rn.RedisBreaker.Recovery.{IsServing, Waits, run_command, run_commands}
use mapear_rn.RedisBreaker.Reporting.{record_failure-Waits}

-- Numbers as strokes
bars : ℕ → String
bars zero = ""
bars (suc n) = join "|" (bars n)

len-bars : (n : ℕ) → len (bars n) ≡ n
unfolding bars
len-bars zero = refl
len-bars (suc n) = omega (arith, len-append "|" (bars n), len-bars n)

abbrev strokes : Texts
strokes = record {
  float = λ text. some (len text - 1);
  int = λ text. some (len text - 1);
  str = λ n. join "+" (bars n);
}

abbrev served : Redis
served = record {
  Store = String → Option String;
  contents = λ s. s;
  get = λ k s. some (s k);
  execute = λ cs s. some (run_commands cs s);
  remove = λ k s. some (run_command (delete k) s);
  incr = λ k s.
      let n = len (get_or (s k) "+") in
      some (n, run_command (set k (join "|" (get_or (s k) "+"))) s);
  expire = λ k t s. some s;
}

serving : IsServing served strokes
serving = record {
  get_contents = λ k s. refl;
  execute_contents = λ cs s. (run_commands cs s, refl, λ j. refl);
  incr_contents = λ k s countable. (
    len (get_or (s k) "+"),
    run_command (set k (join "|" (get_or (s k) "+"))) s,
    refl,
    λ j e. ap (λ b. if b then some (join "|" (get_or (s k) "+")) else s j) e,
  );
  expire_contents = λ k t s. (s, refl, λ j e. refl);
  float-str = λ n. ap some (omega (arith, len-append "+" (bars n), len-bars n));
  str_nonempty = λ n.
      str_eq_of_ne (join "+" (bars n)) ""
        (λ e. absurd (omega (arith, ap len e, len-append "+" (bars n))));
  int_zero = refl;
}

-- The first answers are heard, and the connection is lost at the second key.
abbrev lost : Redis
lost = record served { get = λ k s. if str_eq k "cb:a:state" then some (s k) else none }

abbrev holding : String → String → String → String → (String → Option String)
holding k v l w = run_commands (set k v ∷ set l w ∷ []) (λ j. none)

abbrev breaker : (String → Option String) → CircuitBreaker (String → Option String)
breaker s = record {
  failure_threshold = 1;
  recovery_timeout = 300;
  half_open_requests = 2;
  redis_unavailable_logged = false;
  store = s;
}

abbrev open_since_ten : CircuitBreaker (String → Option String)
open_since_ten = breaker (holding "cb:a:state" "open" "cb:a:opened_at" (join "+" (bars 10)))

abbrev testing : CircuitBreaker (String → Option String)
testing = breaker (holding "cb:a:state" "half_open" "cb:a:half_open_count" "0")

abbrev domain : String → String
domain url = "a"

methods-IsQuiet_example :
    ((get_state lost strokes domain "a" open_since_ten.store ≡ returned opened)
      ⊎ ((get_state lost strokes domain "a" open_since_ten.store ≡ returned half_open)
          ⊎ IsQuiet (is_allowed lost strokes domain "http://a/1" 900 open_since_ten).0))
    × IsQuiet (record_success lost strokes domain "http://a/1" 900 open_since_ten).0
    × IsQuiet (record_failure lost strokes domain "http://a/1" 900 open_since_ten).0
methods-IsQuiet_example = methods-IsQuiet lost strokes domain "http://a/1" 900 open_since_ten

record_failure-Waits_example :
    let b = (record_failure served strokes domain "http://a/1" 20 testing).1 in
    (b.recovery_timeout ≡ 300)
    × Waits served strokes domain serving "a" 20 900 b
        (is_allowed served strokes domain "http://a/1" 900 b)
record_failure-Waits_example =
    record_failure-Waits served strokes domain serving "http://a/1" 20 900 testing (refl, refl)
