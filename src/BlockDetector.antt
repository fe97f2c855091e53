-- ===== src/BlockDetector.antt =====
-- pipelines/mapear-rss/src/mapear_rss/extraction/block_detector.py: is a response an anti-bot
-- block, and what is a failed fetch called. `lower` is Python's `str.lower`; the dictionary of
-- lower-cased headers keeps the last value of a name.
pub mod Verdict
pub mod Naming
mod Tests
use mapear_rn.Base.{
  ℕ, ◌+◌, ◌/◌, ◌%◌, String, Bool, true, false, ◌&&◌, ◌||◌, not, Option, none, some, List, [], ◌∷◌,
  ◌++◌, ltb, leb, ◌==◌, str_eq, if◌then◌else◌, Dict, lookup, insert, get_or, is_in, byte_length,
  join, show,
}

abbrev pub cloudflare_markers : List String
cloudflare_markers =
    "cf-chl-bypass" ∷ "__cf_chl" ∷ "_cf_chl_opt" ∷ "checking your browser" ∷ "just a moment"
    ∷ "attention required" ∷ []

abbrev pub captcha_markers : List String
captcha_markers =
    "g-recaptcha" ∷ "h-captcha" ∷ "recaptcha" ∷ "hcaptcha" ∷ "please verify you are a human"
    ∷ "i'm not a robot" ∷ "turnstile" ∷ []

abbrev pub js_challenge_markers : List String
js_challenge_markers =
    "jschl-answer" ∷ "challenge-form" ∷ "challenge-platform" ∷ "/cdn-cgi/challenge-platform" ∷ []

abbrev pub waf_markers : List String
waf_markers =
    "access denied" ∷ "request blocked" ∷ "you don't have permission" ∷ "incapsula" ∷ "sucuri"
    ∷ "akamai reference" ∷ "datadome" ∷ "perimetrix" ∷ []

abbrev pub min_body_bytes : ℕ
min_body_bytes = 512

abbrev pub truncated_bytes : ℕ
truncated_bytes = 2048

pub record BlockSignals : Type 0 where
  pub cloudflare_detected : Bool
  pub captcha_detected : Bool
  pub js_challenge_detected : Bool
  pub waf_detected : Bool
  pub empty_body : Bool
  pub truncated_body : Bool
  pub browser_required : Bool
  pub markers_hit : List String

abbrev pub no_signals : BlockSignals
no_signals = record {
  cloudflare_detected = false;
  captcha_detected = false;
  js_challenge_detected = false;
  waf_detected = false;
  empty_body = false;
  truncated_body = false;
  browser_required = false;
  markers_hit = [];
}

unfoldable pub blocked : BlockSignals → Bool
blocked s = s.cloudflare_detected || s.captcha_detected || s.js_challenge_detected || s.waf_detected

-- `for marker in markers: if marker in lower: …; break`
unfoldable pub first_marker : List String → String → Option String
first_marker [] text = none
first_marker (m ∷ ms) text = if is_in m text then some m else first_marker ms text

hit : String → BlockSignals → BlockSignals
hit label s = record s { markers_hit = s.markers_hit ++ label ∷ [] }

note_headers : Dict String → BlockSignals → BlockSignals
note_headers h s =
    let s₁ : BlockSignals = elim (lookup "cf-ray" h) [
      | none ↦ s
      | some _ ↦ hit "header:cf-ray" s
    ] in
    if is_in "cloudflare" (get_or (lookup "server" h) "")
    then hit "header:server=cloudflare" s₁
    else s₁

check_mitigated : Dict String → BlockSignals → BlockSignals
check_mitigated h s =
    if is_in "challenge" (get_or (lookup "cf-mitigated" h) "")
    then record (hit "header:cf-mitigated=challenge" s) { cloudflare_detected = true }
    else s

check_cloudflare : String → BlockSignals → BlockSignals
check_cloudflare text s = elim (first_marker cloudflare_markers text) [
  | none ↦ s
  | some m ↦ record (hit (join "body:" m) s) { cloudflare_detected = true }
]

check_captcha : String → BlockSignals → BlockSignals
check_captcha text s = elim (first_marker captcha_markers text) [
  | none ↦ s
  | some m ↦ record (hit (join "body:" m) s) { captcha_detected = true }
]

check_js_challenge : String → BlockSignals → BlockSignals
check_js_challenge text s = elim (first_marker js_challenge_markers text) [
  | none ↦ s
  | some m ↦ record (hit (join "body:" m) s) { js_challenge_detected = true }
]

check_waf : String → BlockSignals → BlockSignals
check_waf text s = elim (first_marker waf_markers text) [
  | none ↦ s
  | some m ↦ record (hit (join "body:" m) s) { waf_detected = true }
]

check_length : ℕ → BlockSignals → BlockSignals
check_length n s =
    if n == 0
    then record s { empty_body = true }
    else if ltb n min_body_bytes
    then record s { truncated_body = true }
    else s

abbrev pub is_refusal : Option ℕ → Bool
is_refusal none = false
is_refusal (some c) = (c == 403) || (c == 429) || (c == 503)

check_status : Option ℕ → ℕ → BlockSignals → BlockSignals
check_status status n s =
    if is_refusal status && ltb n truncated_bytes && not (blocked s)
    then record (hit (join "status:" (join (show (get_or status 0)) "+small_body")) s) {
      waf_detected = true;
    }
    else s

name_exception : String → Option String
name_exception name =
    if is_in "timeout" name
    then some "timeout"
    else if is_in "connect" name || is_in "reset" name
    then some "connection_reset"
    else if is_in "ssl" name
    then some "ssl_error"
    else none

name_status : ℕ → Option String
name_status c =
    if c == 403
    then some "http_403"
    else if c == 429
    then some "http_429"
    else if c == 404
    then some "http_404"
    else if leb 500 c && ltb c 600
    then some "http_5xx"
    else if leb 400 c && ltb c 500
    then some (join "http_" (show c))
    else none

name_content : BlockSignals → ℕ → String
name_content s extracted_chars =
    if s.empty_body
    then "empty_content"
    else if extracted_chars == 0
    then "selector_missing"
    else "unknown"

or_else : Option String → String → String
or_else none rest = rest
or_else (some l) rest = l

abbrev status_label : Option ℕ → Option String
unfolding name_status
status_label none = none
status_label (some c) = name_status c

module _ (lower : String → String) where
  pub lower_headers : List (String × String) → Dict String → Dict String
  lower_headers [] acc = acc
  lower_headers ((k, v) ∷ hs) acc = lower_headers hs (insert (lower k) (lower v) acc)

  -- `headers` is empty for None, and `body` is the empty text for None.
  unfoldable pub detect : Option ℕ → List (String × String) → Option String → BlockSignals
  unfolding lower_headers hit note_headers check_mitigated check_cloudflare check_captcha
      check_js_challenge check_waf check_length check_status
  detect status headers body_or_none =
      let body = get_or body_or_none "" in
      let n = byte_length body in
      let text = lower body in
      let h = lower_headers headers [] in
      check_status status n (
        check_length n (
          check_waf text (
            check_js_challenge text (
              check_captcha text
                (check_cloudflare text (check_mitigated h (note_headers h no_signals)))))))

  -- An exception name that is None or empty is skipped.
  abbrev exception_label : Option String → Option String
  unfolding name_exception
  exception_label none = none
  exception_label (some name) = if str_eq name "" then none else name_exception (lower name)

  unfoldable pub classify_failure : Option ℕ → BlockSignals → ℕ → Option String → String
  unfolding name_exception name_status name_content or_else
  classify_failure status s extracted_chars exception_name =
      or_else (exception_label exception_name) (
        if blocked s
        then "blocked_bot"
        else or_else (status_label status) (name_content s extracted_chars))
