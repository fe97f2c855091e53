-- ===== src/RedisBreaker.antt =====
-- pipelines/mapear-rss/src/mapear_rss/extraction/circuit_breaker.py: the circuit breaker of a domain
-- that is kept in Redis. `Redis` is what it calls of the client: every command either answers or
-- raises a `ConnectionError`; `Texts` reads and writes the numbers that are stored as texts.
mod Failing
mod Recovery
mod Reporting
mod Tests
use mapear_rn.Base.{
  ℕ, zero, suc, ◌+◌, ◌*◌, String, Bool, true, false, ◌≡◌, Option, none, some, List, [], ◌∷◌, ltb,
  leb, str_eq, if◌then◌else◌, join, get_or,
}

pub data CircuitState : Type 0 where
  closed opened half_open : CircuitState

-- The value of the enumeration
abbrev pub value_of : CircuitState → String
value_of closed = "closed"
value_of opened = "open"
value_of half_open = "half_open"

-- A command in a pipeline
pub data Command : Type 0 where
  set : String → String → Command
  delete : String → Command

-- The client: no answer stands for a `ConnectionError`. `execute` runs a pipeline as one transaction.
pub record Redis : Type 1 where
  pub Store : Type 0
  pub contents : Store → String → Option String
  pub get : String → Store → Option (Option String)
  pub execute : List Command → Store → Option Store
  pub remove : String → Store → Option Store
  pub incr : String → Store → Option (ℕ × Store)
  pub expire : String → ℕ → Store → Option Store

-- `float(text)` and `int(text)`, none where they raise a `ValueError`, and `str(time.time())`
pub record Texts : Type 0 where
  pub float : String → Option ℕ
  pub int : String → Option ℕ
  pub str : ℕ → String

pub data Raised : Type 0 where
  connection_error value_error : Raised

-- What a method ends with
pub data Answer (A : Type 0) : Type 0 where
  returned : A → Answer A
  raised : Raised → Answer A

pub record CircuitBreaker (Store : Type 0) : Type 0 where
  pub failure_threshold : ℕ
  pub recovery_timeout : ℕ
  pub half_open_requests : ℕ
  pub redis_unavailable_logged : Bool
  pub store : Store

-- `NoOpCircuitBreaker.is_allowed`; its other methods do nothing.
abbrev pub noop_is_allowed : String → Bool
noop_is_allowed url = true

abbrev pub key : String → String → String
key domain field = join "cb:" (join domain (join ":" field))

-- `CircuitState(state.decode())`
abbrev pub state_of_text : Option String → Answer CircuitState
state_of_text none = returned closed
state_of_text (some text) =
    if str_eq text "closed"
    then returned closed
    else if str_eq text "open"
    then returned opened
    else if str_eq text "half_open"
    then returned half_open
    else raised value_error

-- The pipeline of `_transition`
abbrev pub transition_commands : String → String → CircuitState → List Command
transition_commands domain now closed =
    set (key domain "state") "closed"
    ∷ delete (key domain "failures")
    ∷ delete (key domain "opened_at")
    ∷ delete (key domain "half_open_count")
    ∷ []
transition_commands domain now opened =
    set (key domain "state") "open" ∷ set (key domain "opened_at") now ∷ []
transition_commands domain now half_open =
    set (key domain "state") "half_open" ∷ set (key domain "half_open_count") "0" ∷ []

module _ (r : Redis) (texts : Texts) (extract_domain : String → String) where
  abbrev pub state_of_answer : Option (Option String) → Answer CircuitState
  state_of_answer none = raised connection_error
  state_of_answer (some text) = state_of_text text

  unfoldable pub get_state : String → r.Store → Answer CircuitState
  get_state domain s = state_of_answer (r.get (key domain "state") s)

  unfoldable pub transition : String → ℕ → CircuitState → r.Store → Option r.Store
  transition domain now st s = r.execute (transition_commands domain (texts.str now) st) s

  abbrev pub log_unavailable : CircuitBreaker r.Store → CircuitBreaker r.Store
  log_unavailable b = record b { redis_unavailable_logged = true }

  -- The end of `is_allowed` on an open circuit whose timeout has passed
  abbrev pub half_opened :
      Option r.Store → CircuitBreaker r.Store → Answer Bool × CircuitBreaker r.Store
  half_opened none b = (raised connection_error, b)
  half_opened (some s) b = (returned true, record b { store = s })

  abbrev pub after_timeout :
      String → ℕ → Option ℕ → CircuitBreaker r.Store → Answer Bool × CircuitBreaker r.Store
  after_timeout domain now none b = (raised value_error, b)
  after_timeout domain now (some opened_at) b =
      let tried = half_opened (transition domain now half_open b.store) b in
      if ltb (opened_at + b.recovery_timeout) now then tried else (returned false, b)

  abbrev pub on_opened_at :
      String
      → ℕ
      → Option (Option String)
      → CircuitBreaker r.Store
      → Answer Bool × CircuitBreaker r.Store
  on_opened_at domain now none b = (raised connection_error, b)
  on_opened_at domain now (some none) b = (returned false, b)
  on_opened_at domain now (some (some text)) b =
      let tried = after_timeout domain now (texts.float text) b in
      if str_eq text "" then (returned false, b) else tried

  abbrev pub below : Option ℕ → CircuitBreaker r.Store → Answer Bool × CircuitBreaker r.Store
  below none b = (raised value_error, b)
  below (some attempts) b = (returned (ltb attempts b.half_open_requests), b)

  -- `int(count or 0) < half_open_requests`
  abbrev pub on_half_open_count :
      Option (Option String) → CircuitBreaker r.Store → Answer Bool × CircuitBreaker r.Store
  on_half_open_count none b = (raised connection_error, b)
  on_half_open_count (some count) b =
      let text = get_or count "" in
      if str_eq text "" then below (some 0) b else below (texts.int text) b

  unfoldable pub allowed_in :
      String
      → ℕ
      → Answer CircuitState
      → CircuitBreaker r.Store
      → Answer Bool × CircuitBreaker r.Store
  allowed_in domain now (raised connection_error) b = (returned true, log_unavailable b)
  allowed_in domain now (raised value_error) b = (raised value_error, b)
  allowed_in domain now (returned closed) b = (returned true, b)
  allowed_in domain now (returned opened) b =
      on_opened_at domain now (r.get (key domain "opened_at") b.store) b
  allowed_in domain now (returned half_open) b =
      on_half_open_count (r.get (key domain "half_open_count") b.store) b

  unfoldable pub is_allowed :
      String → ℕ → CircuitBreaker r.Store → Answer Bool × CircuitBreaker r.Store
  is_allowed url now b =
      let domain = extract_domain url in allowed_in domain now (get_state domain b.store) b

  -- A command whose `ConnectionError` is caught and logged
  abbrev pub stored : Option r.Store → CircuitBreaker r.Store → CircuitBreaker r.Store
  stored none b = log_unavailable b
  stored (some s) b = record b { store = s }

  abbrev pub clear_failures :
      String → Option r.Store → CircuitBreaker r.Store → CircuitBreaker r.Store
  clear_failures domain none b = log_unavailable b
  clear_failures domain (some s) b =
      stored (r.remove (key domain "failures") s) (record b { store = s })

  unfoldable pub succeeded_in :
      String
      → ℕ
      → Answer CircuitState
      → CircuitBreaker r.Store
      → Answer Unit × CircuitBreaker r.Store
  succeeded_in domain now (raised connection_error) b = (returned tt, log_unavailable b)
  succeeded_in domain now (raised value_error) b = (raised value_error, b)
  succeeded_in domain now (returned half_open) b =
      (returned tt, clear_failures domain (transition domain now closed b.store) b)
  succeeded_in domain now (returned closed) b =
      (returned tt, clear_failures domain (some b.store) b)
  succeeded_in domain now (returned opened) b =
      (returned tt, clear_failures domain (some b.store) b)

  unfoldable pub record_success :
      String → ℕ → CircuitBreaker r.Store → Answer Unit × CircuitBreaker r.Store
  record_success url now b =
      let domain = extract_domain url in succeeded_in domain now (get_state domain b.store) b

  -- `if failures >= self.failure_threshold`
  abbrev pub opened_at_threshold : String → ℕ → ℕ → CircuitBreaker r.Store → CircuitBreaker r.Store
  opened_at_threshold domain now failures b =
      let tripped = stored (transition domain now opened b.store) b in
      if leb b.failure_threshold failures then tripped else b

  abbrev pub after_expire :
      String → ℕ → ℕ → Option r.Store → CircuitBreaker r.Store → CircuitBreaker r.Store
  after_expire domain now failures none b = log_unavailable b
  after_expire domain now failures (some s) b =
      opened_at_threshold domain now failures (record b { store = s })

  abbrev pub counted :
      String → ℕ → Option (ℕ × r.Store) → CircuitBreaker r.Store → CircuitBreaker r.Store
  counted domain now none b = log_unavailable b
  counted domain now (some (failures, s)) b =
      after_expire domain now failures (r.expire (key domain "failures") (b.recovery_timeout * 2) s)
        (record b { store = s })

  unfoldable pub failed_in :
      String
      → ℕ
      → Answer CircuitState
      → CircuitBreaker r.Store
      → Answer Unit × CircuitBreaker r.Store
  failed_in domain now (raised connection_error) b = (returned tt, log_unavailable b)
  failed_in domain now (raised value_error) b = (raised value_error, b)
  failed_in domain now (returned half_open) b =
      (returned tt, stored (transition domain now opened b.store) b)
  failed_in domain now (returned closed) b =
      (returned tt, counted domain now (r.incr (key domain "failures") b.store) b)
  failed_in domain now (returned opened) b =
      (returned tt, counted domain now (r.incr (key domain "failures") b.store) b)

  unfoldable pub record_failure :
      String → ℕ → CircuitBreaker r.Store → Answer Unit × CircuitBreaker r.Store
  record_failure url now b =
      let domain = extract_domain url in failed_in domain now (get_state domain b.store) b
