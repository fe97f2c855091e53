-- ===== src/BlockDetector/Naming.antt =====
-- The label of a failed fetch, and what the cooldown and the retry budget make of it.
use mapear_rn.Base.{
  ℕ, zero, suc, ◌<◌, String, ◌≡◌, refl, Bool, true, false, ◌&&◌, ◌||◌, Option, none, some, arith,
  ltb, leb, ◌==◌, if◌then◌else◌, get_or, show, Bool-cases, inl, inr, ap, sym, ◌∙◌,
}
use mapear_rn.ErrorClass.{
  ErrorClass, bot_block, rate_limit, parser_hard, transient, class_eq, error_class_for,
}
use mapear_rn.BlockDetector.{
  BlockSignals, blocked, name_status, name_content, or_else, status_label, classify_failure,
}

every_code : (ℕ → Bool) → ℕ → Bool
every_code test zero = true
every_code test (suc bound) = let rest = every_code test bound in if test bound then rest else false

every_code-at :
    (test : ℕ → Bool) (bound c : ℕ) → c < bound → every_code test bound ≡ true → test c ≡ true
unfolding every_code
every_code-at test zero c l h = absurd (omega arith)
every_code-at test (suc bound) c l h = ground (arith, every_code-at test bound c)

abbrev pub class_of_status : ℕ → ErrorClass
class_of_status c = if c == 403 then bot_block else if c == 429 then rate_limit else transient

abbrev pub is_error_status : ℕ → Bool
is_error_status c = leb 400 c && ltb c 600

status_class_test : ℕ → Bool
status_class_test c =
    if is_error_status c
    then class_eq (error_class_for (name_status c)) (class_of_status c)
    else true

status_table : every_code status_class_test 600 ≡ true
unfolding every_code status_class_test error_class_for classify_failure show
status_table = refl

eq_of_class_eq : (a b : ErrorClass) → class_eq a b ≡ true → a ≡ b
eq_of_class_eq a b h = ground arith

class-name_status :
    (c : ℕ) → is_error_status c ≡ true → error_class_for (name_status c) ≡ class_of_status c
class-name_status c h = eq_of_class_eq _ _ (
    unfold status_class_test in
    ground (arith, every_code-at status_class_test 600 c (ground arith) status_table))

name_status-none : (c : ℕ) → is_error_status c ≡ false → name_status c ≡ none
unfolding classify_failure
name_status-none c h = ground arith

name_status-some : (c : ℕ) → is_error_status c ≡ true → (l : String) × (name_status c ≡ some l)
unfolding classify_failure
name_status-some c h = (get_or (name_status c) "", ground arith)

abbrev pub class_of_content : BlockSignals → ℕ → ErrorClass
class_of_content s chars = if s.empty_body || (chars == 0) then parser_hard else transient

class-name_content :
    (s : BlockSignals) (chars : ℕ)
    → error_class_for (some (name_content s chars)) ≡ class_of_content s chars
unfolding classify_failure error_class_for
class-name_content s chars = by_cases s.empty_body (chars == 0)
  where
    by_cases :
        (a b : Bool)
        → error_class_for
            (some (if a then "empty_content" else if b then "selector_missing" else "unknown"))
          ≡ (if a || b then parser_hard else transient)
    by_cases true b = refl
    by_cases false true = refl
    by_cases false false = refl

class-status_label :
    (s : BlockSignals) (chars : ℕ) (status : Option ℕ)
    → error_class_for (some (or_else (status_label status) (name_content s chars)))
      ≡ (elim status as (λ o. ErrorClass) [
        | none ↦ class_of_content s chars
        | some c ↦ if is_error_status c then class_of_status c else class_of_content s chars
      ])
unfolding classify_failure
class-status_label s chars none = class-name_content s chars
class-status_label s chars (some c) = elim (Bool-cases (is_error_status c)) [
  | inl error ↦
      let (l, e) = name_status-some c error in
      rw (error, e) (ap error_class_for (sym e) ∙ class-name_status c error)
  | inr other ↦ rw (other, name_status-none c other) (class-name_content s chars)
]

-- A failed fetch without a transport exception is a bot block for the cooldown if the response is
-- blocked or its status is 403, a rate limit if the status is 429, transient for any other status
-- from 400 to 599, and otherwise a hard parser failure exactly if the body is empty or nothing
-- was extracted.
class-classify_failure :
    (lower : String → String) (s : BlockSignals) (chars : ℕ) (status : Option ℕ)
    → error_class_for (some (classify_failure lower status s chars none)) ≡ (
        if blocked s then bot_block else elim status as (λ o. ErrorClass) [
          | none ↦ class_of_content s chars
          | some c ↦ if is_error_status c then class_of_status c else class_of_content s chars
        ])
unfolding classify_failure error_class_for
class-classify_failure lower s chars status = elim (Bool-cases (blocked s)) [
  | inl b ↦ rw b refl
  | inr b ↦ rw b (class-status_label s chars status)
]
