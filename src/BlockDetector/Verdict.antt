-- ===== src/BlockDetector/Verdict.antt =====
-- When `detect` calls a response blocked, empty or truncated.
use mapear_rn.Base.{
  ℕ, String, ◌≡◌, refl, Bool, true, false, ◌&&◌, ◌||◌, Option, none, some, List, [], ◌∷◌, arith,
  ltb, ◌==◌, Dict, lookup, get_or, is_in, byte_length,
}
use mapear_rn.BlockDetector.{
  BlockSignals, no_signals, blocked, first_marker, cloudflare_markers, captcha_markers,
  js_challenge_markers, waf_markers, is_refusal, truncated_bytes, min_body_bytes, lower_headers,
  note_headers, check_mitigated, check_cloudflare, check_captcha, check_js_challenge, check_waf,
  check_length, check_status, detect,
}

-- Some marker of the list stands in the text.
abbrev pub any_in : List String → String → Bool
any_in [] text = false
any_in (m ∷ ms) text = is_in m text || any_in ms text

first_marker-none :
    (ms : List String) (text : String)
    → any_in ms text ≡ (elim (first_marker ms text) as (λ o. Bool) [ none ↦ false | some m ↦ true ])
unfolding first_marker
first_marker-none [] text = refl
first_marker-none (m ∷ ms) text = ground (arith, first_marker-none ms text)

blocked-check_mitigated :
    (h : Dict String) (s : BlockSignals)
    → blocked (check_mitigated h s)
      ≡ (blocked s || is_in "challenge" (get_or (lookup "cf-mitigated" h) ""))
unfolding blocked detect
blocked-check_mitigated h s = ground arith

blocked-check_cloudflare :
    (text : String) (s : BlockSignals)
    → blocked (check_cloudflare text s) ≡ (blocked s || any_in cloudflare_markers text)
unfolding blocked detect
blocked-check_cloudflare text s = ground (arith, first_marker-none cloudflare_markers text)

blocked-check_captcha :
    (text : String) (s : BlockSignals)
    → blocked (check_captcha text s) ≡ (blocked s || any_in captcha_markers text)
unfolding blocked detect
blocked-check_captcha text s = ground (arith, first_marker-none captcha_markers text)

blocked-check_js_challenge :
    (text : String) (s : BlockSignals)
    → blocked (check_js_challenge text s) ≡ (blocked s || any_in js_challenge_markers text)
unfolding blocked detect
blocked-check_js_challenge text s = ground (arith, first_marker-none js_challenge_markers text)

blocked-check_waf :
    (text : String) (s : BlockSignals)
    → blocked (check_waf text s) ≡ (blocked s || any_in waf_markers text)
unfolding blocked detect
blocked-check_waf text s = ground (arith, first_marker-none waf_markers text)

blocked-note_headers : (h : Dict String) → blocked (note_headers h no_signals) ≡ false
unfolding blocked detect
blocked-note_headers h = ground arith

blocked-check_length : (n : ℕ) (s : BlockSignals) → blocked (check_length n s) ≡ blocked s
unfolding blocked detect
blocked-check_length n s = ground arith

blocked-check_status :
    (status : Option ℕ) (n : ℕ) (s : BlockSignals)
    → blocked (check_status status n s)
      ≡ (blocked s || (is_refusal status && ltb n truncated_bytes))
unfolding blocked detect
blocked-check_status status n s = ground arith

-- The flags on the body and for the browser are the same.
abbrev SameFlags : BlockSignals → BlockSignals → Type 0
SameFlags s t =
    (t.empty_body ≡ s.empty_body)
    × (t.truncated_body ≡ s.truncated_body)
    × (t.browser_required ≡ s.browser_required)

SameFlags-trans : (a b c : BlockSignals) → SameFlags a b → SameFlags b c → SameFlags a c
SameFlags-trans a b c h k = ground arith

flags-headers :
    (h : Dict String) (s : BlockSignals) → SameFlags s (check_mitigated h (note_headers h s))
unfolding detect
flags-headers h s = ground arith

flags-cloudflare : (text : String) (s : BlockSignals) → SameFlags s (check_cloudflare text s)
unfolding detect
flags-cloudflare text s = ground arith

flags-captcha : (text : String) (s : BlockSignals) → SameFlags s (check_captcha text s)
unfolding detect
flags-captcha text s = ground arith

flags-js_challenge : (text : String) (s : BlockSignals) → SameFlags s (check_js_challenge text s)
unfolding detect
flags-js_challenge text s = ground arith

flags-waf : (text : String) (s : BlockSignals) → SameFlags s (check_waf text s)
unfolding detect
flags-waf text s = ground arith

flags-scan :
    (h : Dict String) (text : String)
    → SameFlags no_signals (
        check_waf text (
          check_js_challenge text (
            check_captcha text
              (check_cloudflare text (check_mitigated h (note_headers h no_signals))))))
flags-scan h text =
    let a = check_mitigated h (note_headers h no_signals) in
    let b = check_cloudflare text a in
    let c = check_captcha text b in
    let d = check_js_challenge text c in
    let e = check_waf text d in
    SameFlags-trans no_signals a e (flags-headers h no_signals) (
      SameFlags-trans a b e (flags-cloudflare text a) (
        SameFlags-trans b c e (flags-captcha text b)
          (SameFlags-trans c d e (flags-js_challenge text c) (flags-waf text d))))

lengths_of :
    (status : Option ℕ) (n : ℕ) (s : BlockSignals)
    → SameFlags no_signals s
    → let t = check_status status n (check_length n s) in
      (t.empty_body ≡ (n == 0))
      × (t.truncated_body ≡ (ltb 0 n && ltb n min_body_bytes))
      × (t.browser_required ≡ false)
unfolding detect
lengths_of status n s h = ground arith

or_regroup :
    (a b c d e f : Bool)
    → (((((false || a) || b) || c) || d) || e) || f ≡ (a || b || c || d || e || f)
or_regroup a b c d e f = ground arith

module _ (lower : String → String) where
  -- A response is called blocked exactly if its `cf-mitigated` header names a challenge, or its
  -- body holds one of the markers, or its status is 403, 429 or 503 with fewer than 2048 bytes of
  -- body; no other header makes it so.
  pub blocked-detect :
      (status : Option ℕ) (headers : List (String × String)) (body : Option String)
      → let text = lower (get_or body "") in
        blocked (detect lower status headers body) ≡ (
          is_in "challenge" (get_or (lookup "cf-mitigated" (lower_headers lower headers [])) "")
          || any_in cloudflare_markers text
          || any_in captcha_markers text
          || any_in js_challenge_markers text
          || any_in waf_markers text
          || (is_refusal status && ltb (byte_length (get_or body "")) truncated_bytes))
  unfolding detect
  blocked-detect status headers body =
      let b = get_or body "" in
      let text = lower b in
      let h = lower_headers lower headers [] in
      rw
        (
          blocked-check_status, blocked-check_length, blocked-check_waf, blocked-check_js_challenge,
          blocked-check_captcha, blocked-check_cloudflare, blocked-check_mitigated,
          blocked-note_headers,
        )
        (or_regroup (is_in "challenge" (get_or (lookup "cf-mitigated" h) ""))
          (any_in cloudflare_markers text) (any_in captcha_markers text)
          (any_in js_challenge_markers text) (any_in waf_markers text)
          (is_refusal status && ltb (byte_length b) truncated_bytes))

  -- The body is called empty exactly if it has no byte, truncated exactly if it has from 1 to 511
  -- bytes, and the flag for the browser is never set here.
  detect-lengths :
      (status : Option ℕ) (headers : List (String × String)) (body : Option String)
      → let n = byte_length (get_or body "") in
        let s = detect lower status headers body in
        (s.empty_body ≡ (n == 0))
        × (s.truncated_body ≡ (ltb 0 n && ltb n min_body_bytes))
        × (s.browser_required ≡ false)
  unfolding detect
  detect-lengths status headers body =
      let n = byte_length (get_or body "") in
      let text = lower (get_or body "") in
      let h = lower_headers lower headers [] in lengths_of status n _ (flags-scan h text)
