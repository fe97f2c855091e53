-- ===== src/BlockDetector/Tests.antt =====
-- The theorems of the detector at single responses, with texts that are in lower case already.
use mapear_rn.Base.{
  String, ◌≡◌, refl, true, false, ◌&&◌, ◌||◌, none, some, List, [], ◌∷◌, ltb, get_or, lookup,
  insert, is_in, byte_length, show,
}
use mapear_rn.BlockDetector.{
  no_signals, blocked, detect, classify_failure, cloudflare_markers, captcha_markers,
  js_challenge_markers, waf_markers, is_refusal, truncated_bytes, lower_headers, first_marker,
}
use mapear_rn.BlockDetector.Verdict.{any_in, blocked-detect}

abbrev same : String → String
same s = s

abbrev headers : List (String × String)
headers = ("server", "cloudflare") ∷ ("cf-ray", "8a") ∷ []

-- A page served through the CDN is not blocked, and a small body with a refusal is.
verdicts :
    (blocked (detect same (some 200) headers (some "a page of news")) ≡ false)
    × (blocked (detect same (some 403) headers (some "no")) ≡ true)
    × (blocked (detect same (some 200) headers (some "just a moment, please")) ≡ true)
unfolding detect blocked lookup insert first_marker show
verdicts = (refl, refl, refl)

names :
    (classify_failure same (some 418) no_signals 0 none ≡ "http_418")
    × (classify_failure same (some 503) no_signals 0 (some "readtimeout") ≡ "timeout")
    × (classify_failure same none no_signals 0 none ≡ "selector_missing")
unfolding classify_failure blocked show
names = (refl, refl, refl)

blocked-detect_example : blocked (detect same (some 403) headers (some "no")) ≡ (
    is_in "challenge" (get_or (lookup "cf-mitigated" (lower_headers same headers [])) "")
    || any_in cloudflare_markers "no"
    || any_in captcha_markers "no"
    || any_in js_challenge_markers "no"
    || any_in waf_markers "no"
    || (is_refusal (some 403) && ltb (byte_length "no") truncated_bytes))
blocked-detect_example = blocked-detect same (some 403) headers (some "no")
