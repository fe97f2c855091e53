-- ===== src/RedisBreaker/Recovery.antt =====
-- What the breaker in Redis promises while the connection holds.
use text.Mathlib.TextLemmas.{append_cancel_left}
use mapear_rn.Base.{
  ℕ, ◌+◌, ◌≤◌, ◌<◌, String, Bool, true, false, ◌≡◌, ◌≢◌, refl, ap, ◌⊎◌, inl, inr, Option, none,
  some, List, [], ◌∷◌, ltb, lt→ltb, ltb→lt, ltb→le, str_eq, eq_refl, str_eq_of_ne, if◌then◌else◌,
  join, arith,
}
use mapear_rn.RedisBreaker.{
  CircuitState, opened, half_open, Command, set, delete, Redis, Texts, Answer, returned,
  CircuitBreaker, key, state_of_text, transition_commands, get_state, transition, half_opened,
  allowed_in, is_allowed,
}

-- What a key holds after a command
abbrev pub run_command : Command → (String → Option String) → String → Option String
run_command (set k v) held j = if str_eq k j then some v else held j
run_command (delete k) held j = if str_eq k j then none else held j

abbrev pub run_commands : List Command → (String → Option String) → String → Option String
run_commands [] held = held
run_commands (c ∷ cs) held = run_commands cs (run_command c held)

-- What INCR can count: no value, or the text of a number
abbrev pub IsCountable : Texts → Option String → Type 0
IsCountable texts none = Unit
IsCountable texts (some text) = (n : ℕ) × (texts.int text ≡ some n)

-- Redis while the connection holds: every command answers and does what it is documented to do.
pub record IsServing (r : Redis) (texts : Texts) : Type 0 where
  pub get_contents : (k : String) (s : r.Store) → r.get k s ≡ some (r.contents s k)
  pub execute_contents :
      (cs : List Command) (s : r.Store)
      → (s' : r.Store) × (r.execute cs s ≡ some s')
        × ((j : String) → r.contents s' j ≡ run_commands cs (r.contents s) j)
  pub incr_contents :
      (k : String) (s : r.Store)
      → IsCountable texts (r.contents s k)
      → (n : ℕ) × (s' : r.Store) × (r.incr k s ≡ some (n, s'))
        × ((j : String) → str_eq k j ≡ false → r.contents s' j ≡ r.contents s j)
  pub expire_contents :
      (k : String) (t : ℕ) (s : r.Store)
      → (s' : r.Store) × (r.expire k t s ≡ some s')
        × ((j : String) → str_eq k j ≡ false → r.contents s' j ≡ r.contents s j)
  pub float-str : (n : ℕ) → texts.float (texts.str n) ≡ some n
  pub str_nonempty : (n : ℕ) → str_eq (texts.str n) "" ≡ false
  pub int_zero : texts.int "0" ≡ some 0

ne_of_str_eq : (s t : String) → str_eq s t ≡ false → s ≢ t
ne_of_str_eq s t h e = ground (arith, ap (str_eq s) e, eq_refl s)

-- Two fields of a domain have different keys.
pub key_ne :
    (domain f g : String)
    → str_eq (join ":" f) (join ":" g) ≡ false
    → str_eq (key domain f) (key domain g) ≡ false
key_ne domain f g h = str_eq_of_ne (key domain f) (key domain g) (λ e. ne_of_str_eq _ _ h (
    append_cancel_left domain (join ":" f) (join ":" g)
      (append_cancel_left "cb:" (join domain (join ":" f)) (join domain (join ":" g)) e)))

module _ (r : Redis) (texts : Texts) (extract_domain : String → String) where
  -- What Redis holds of a circuit that is open since a moment
  abbrev pub IsOpenSince : String → ℕ → CircuitBreaker r.Store → Type 0
  IsOpenSince domain t b =
      (r.contents b.store (key domain "state") ≡ some "open")
      × (r.contents b.store (key domain "opened_at") ≡ some (texts.str t))

  -- What Redis holds of a half-open circuit that has just become so
  abbrev pub IsTesting : String → CircuitBreaker r.Store → Type 0
  IsTesting domain b =
      (r.contents b.store (key domain "state") ≡ some "half_open")
      × (r.contents b.store (key domain "half_open_count") ≡ some "0")

  module _ (serving : IsServing r texts) where
    pub get_state_of :
        (domain text : String) (st : CircuitState) (s : r.Store)
        → r.contents s (key domain "state") ≡ some text
        → state_of_text (some text) ≡ returned st
        → get_state r texts extract_domain domain s ≡ returned st
    unfolding get_state
    get_state_of domain text st s h e = rw (serving.get_contents (key domain "state") s, h) e

    -- In a half-open circuit the question changes nothing.
    pub testing_admits :
        (url : String) (now : ℕ) (b : CircuitBreaker r.Store)
        → IsTesting (extract_domain url) b
        → 0 < b.half_open_requests
        → is_allowed r texts extract_domain url now b ≡ (returned true, b)
    unfolding is_allowed allowed_in
    testing_admits url now b h pos =
        let d = extract_domain url in
        let k = key d "half_open_count" in
        rw (get_state_of d "half_open" half_open b.store h.0 refl) (
          rw (serving.get_contents k b.store, h.1, serving.int_zero)
            (rw (lt→ltb 0 b.half_open_requests pos) refl))

    half_open_contents :
        (domain : String) (now : ℕ) (s : r.Store)
        → (s' : r.Store) × (transition r texts extract_domain domain now half_open s ≡ some s')
          × (r.contents s' (key domain "state") ≡ some "half_open")
          × (r.contents s' (key domain "half_open_count") ≡ some "0")
    unfolding transition
    half_open_contents domain now s =
        let (s', e, held) =
          serving.execute_contents (transition_commands domain (texts.str now) half_open) s in
        let k = key domain "half_open_count" in
        (
          s',
          e,
          rw
              (
                held (key domain "state"),
                key_ne domain "half_open_count" "state" refl,
                eq_refl (key domain "state"),
              )
              refl,
          rw (held k, eq_refl k) refl,
        )

    pub opened_contents :
        (domain : String) (now : ℕ) (s : r.Store)
        → (s' : r.Store) × (transition r texts extract_domain domain now opened s ≡ some s')
          × (r.contents s' (key domain "state") ≡ some "open")
          × (r.contents s' (key domain "opened_at") ≡ some (texts.str now))
    unfolding transition
    opened_contents domain now s =
        let (s', e, held) =
          serving.execute_contents (transition_commands domain (texts.str now) opened) s in
        let k = key domain "opened_at" in
        (
          s',
          e,
          rw
              (
                held (key domain "state"),
                key_ne domain "opened_at" "state" refl,
                eq_refl (key domain "state"),
              )
              refl,
          rw (held k, eq_refl k) refl,
        )

    -- The answer of an open circuit, before and after its timeout
    abbrev pub Waits :
        String → ℕ → ℕ → CircuitBreaker r.Store → Answer Bool × CircuitBreaker r.Store → Type 0
    Waits domain t now b (answer, b') =
        ((now ≤ t + b.recovery_timeout) × (answer ≡ returned false) × (b' ≡ b))
        ⊎ ((t + b.recovery_timeout < now)
            × (answer ≡ returned true)
            × IsTesting domain b'
            × (b'.half_open_requests ≡ b.half_open_requests))

    waited :
        (domain : String) (t now : ℕ) (b : CircuitBreaker r.Store) (late : Bool)
        → ltb (t + b.recovery_timeout) now ≡ late
        → Waits domain t now b (
            if late
            then half_opened r texts extract_domain
                (transition r texts extract_domain domain now half_open b.store)
                b
            else (returned false, b))
    waited domain t now b false e =
        inl (omega (arith, ltb→le (t + b.recovery_timeout) now e), refl, refl)
    waited domain t now b true e =
        let (s', made, state, held) = half_open_contents domain now b.store in
        rw made (inr (ltb→lt (t + b.recovery_timeout) now e, refl, (state, held), refl))

    pub is_allowed-Waits :
        (url : String) (t now : ℕ) (b : CircuitBreaker r.Store)
        → IsOpenSince (extract_domain url) t b
        → Waits (extract_domain url) t now b (is_allowed r texts extract_domain url now b)
    unfolding is_allowed allowed_in
    is_allowed-Waits url t now b h =
        let d = extract_domain url in
        let k = key d "opened_at" in
        rw (get_state_of d "open" opened b.store h.0 refl) (
          rw (serving.get_contents k b.store, h.1, serving.str_nonempty t, serving.float-str t)
            (waited d t now b _ refl))
