-- ===== src/Scraper/Branches.antt =====
-- Each branch of an attempt does what an attempt may do.
use mapear_rn.Base.{
  ℕ, ◌+◌, ◌≤◌, String, ◌≡◌, refl, Bool, true, false, not, inl, Option, none, some, arith, leb,
  str_eq, if◌then◌else◌, length, is_in, lookup, get_or, ◌∙◌,
}
use mapear_rn.ErrorClass.{ErrorClass, bot_block, class_eq, error_class_for, retry_budget}
use mapear_rn.BlockDetector.{BlockSignals, no_signals, blocked, detect, classify_failure}
use mapear_rn.Scraper.State.{
  ParsedArticle, Services, Settings, DiagnosticRecord, ScraperState, count_failure, note_record,
}
use mapear_rn.Scraper.Rendering.{BrowserFetchResult, try_browser_fallbacks}
use mapear_rn.Scraper.Rendered.{AreSettled, Reports, try_browser_fallbacks-Rendered}
use mapear_rn.Scraper.Attempts.{
  Fetch, timed_out, http_error, unexpected, responded, Attempt, finished, is_parking,
  attempt_record, tell_failed, park, on_transport_error, on_bad_status, on_non_html,
  on_blocked_page, on_parsed, park_parse_failure, on_response, on_fetch,
}
use mapear_rn.Scraper.Outcomes.{
  Booked, note_record-Booked, IsOk, IsOk-either, settled-Booked, finished-IsOk, again-IsOk,
  fallback-IsOk,
}

module _ (env : Services) (url : String) where
  transport-IsOk :
      (config : Settings) (error exception : String) (k : ℕ) (s : ScraperState env.Breaker)
      → IsOk env url s (on_transport_error env config url error exception k s)
  unfolding on_transport_error
  transport-IsOk config error exception k s =
      let label = classify_failure env.lower none no_signals 0 (some exception) in
      let r = attempt_record env config url k "fetch" none false 0 false (some label) in
      let noted = note_record r s in
      IsOk-either env url (leb (retry_budget error (some config.retry_overrides)) k) s _ _
        (finished-IsOk env url s (count_failure error (tell_failed env config url noted))
          (note_record-Booked r s))
        (again-IsOk env url s noted (note_record-Booked r s) refl)

  -- Parking a domain changes its cool-down only.
  parked-Booked :
      (config : Settings) (error : String) (cls : ErrorClass) (now : ℕ) (b : Bool)
      (d : DiagnosticRecord) (s : ScraperState env.Breaker)
      → let noted = count_failure error (note_record d s) in
        let t = if b then park env config url error (some cls) now noted else noted in
        Booked s t × (t.cb ≡ s.cb)
  parked-Booked config error cls now true d s = (note_record-Booked d s, refl)
  parked-Booked config error cls now false d s = (note_record-Booked d s, refl)

  bad_status-IsOk :
      (config : Settings) (w : Attempt) (r : BrowserFetchResult) (b : BlockSignals) (k : ℕ)
      (s : ScraperState env.Breaker)
      → IsOk env url s (on_bad_status env config url w r b k s)
  unfolding on_bad_status
  bad_status-IsOk config w r b k s =
      let error = classify_failure env.lower (some r.status_code) b 0 none in
      let cls = error_class_for (some error) in
      let d =
        attempt_record env config url k "fetch" (some r.status_code) (blocked b) 0 false
          (some error) in
      let noted = count_failure error (note_record d s) in
      let parked =
        if is_parking cls then park env config url error (some cls) w.blocked_at noted else noted in
      let (booked, same) = parked-Booked config error cls w.blocked_at (is_parking cls) d s in
      IsOk-either env url (leb (retry_budget error (some config.retry_overrides)) k) s _ _
        (IsOk-either env url (class_eq cls bot_block) s _ _
          (fallback-IsOk env url config w s (tell_failed env config url parked) booked)
          (finished-IsOk env url s (tell_failed env config url parked) booked))
        (again-IsOk env url s parked booked same)

  non_html-IsOk :
      (config : Settings) (r : BrowserFetchResult) (b : BlockSignals) (k : ℕ)
      (s : ScraperState env.Breaker)
      → IsOk env url s (on_non_html env config url r b k s)
  unfolding on_non_html
  non_html-IsOk config r b k s =
      let d =
        attempt_record env config url k "fetch" (some r.status_code) (blocked b) 0 false
          (some "non_html") in
      finished-IsOk env url s (count_failure "non_html" (note_record d s)) (note_record-Booked d s)

  blocked_page-IsOk :
      (config : Settings) (w : Attempt) (r : BrowserFetchResult) (k : ℕ)
      (s : ScraperState env.Breaker)
      → IsOk env url s (on_blocked_page env config url w r k s)
  unfolding on_blocked_page
  blocked_page-IsOk config w r k s =
      let d =
        attempt_record env config url k "fetch" (some r.status_code) true 0 false
          (some "blocked_bot") in
      let noted = count_failure "blocked_bot" (note_record d s) in
      fallback-IsOk env url config w s
        (tell_failed env config url
          (park env config url "blocked_bot" (some bot_block) w.blocked_at noted))
        (note_record-Booked d s)

  rescued-IsOk :
      (config : Settings) (error : String) (w : Attempt) (s t u : ScraperState env.Breaker)
      (a : Option ParsedArticle)
      → Booked s t
      → Reports env url t a u
      → (u.deferred_urls ≡ t.deferred_urls)
        × (u.retries_total ≡ t.retries_total)
        × (length u.records ≤ length t.records + 2)
        × (AreSettled t → AreSettled u)
      → IsOk env url s (elim a [
        | some b ↦ finished (some b) u
        | none ↦ park_parse_failure env config url error w u
      ])
  rescued-IsOk config error w s t u none b report kept = (
    tt,
    inl (kept.0 ∙ b.0),
    kept.1 ∙ b.1,
    omega (arith, kept.2, b.2),
    λ h. kept.3 (settled-Booked env url s t b h),
  )
  rescued-IsOk config error w s t u (some a) b report kept = (
    ((t.cb, report.0), (t.cooldown, report.1)),
    inl (kept.0 ∙ b.0),
    kept.1 ∙ b.1,
    omega (arith, kept.2, b.2),
    λ h. kept.3 (settled-Booked env url s t b h),
  )

  parsed-IsOk :
      (config : Settings) (w : Attempt) (r : BrowserFetchResult) (b : BlockSignals) (k : ℕ)
      (o : Option ParsedArticle) (s : ScraperState env.Breaker)
      → IsOk env url s (on_parsed env config url w r b k o s)
  unfolding on_parsed
  parsed-IsOk config w r b k (some a) s =
      let d =
        attempt_record env config url k "parse" (some r.status_code) (blocked b) a.content_chars
          true none in
      let booked = note_record-Booked d s in
      (((s.cb, refl), (s.cooldown, refl)), inl refl, refl, omega (arith, booked.2), λ h. h)
  parsed-IsOk config w r b k none s =
      let error = classify_failure env.lower (some r.status_code) b 0 none in
      let d =
        attempt_record env config url k "parse" (some r.status_code) (blocked b) 0 false
          (some error) in
      let noted = count_failure "parse_error" (note_record d s) in
      let (report, kept, settled) =
        try_browser_fallbacks-Rendered env url config w.camoufox_page w.browser_page noted in
      let (a, u) = try_browser_fallbacks env config url w.camoufox_page w.browser_page noted in
      IsOk-either env url (str_eq error "selector_missing") s _ _
        (rescued-IsOk config error w s noted u a (note_record-Booked d s) report
          (kept.0, kept.1, kept.4, settled))
        (rescued-IsOk config error w s noted noted none (note_record-Booked d s) (refl, refl)
          (refl, refl, omega arith, λ h. h))

  response-IsOk :
      (config : Settings) (w : Attempt) (r : BrowserFetchResult) (k : ℕ)
      (s : ScraperState env.Breaker)
      → IsOk env url s (on_response env config url w r k s)
  unfolding on_response
  response-IsOk config w r k s =
      let b =
        if config.block_detection_enabled
        then detect env.lower (some r.status_code) r.headers (some (env.sample r.html))
        else no_signals in
      IsOk-either env url (leb 400 r.status_code) s _ _ (bad_status-IsOk config w r b k s) (
        IsOk-either env url (not (is_in "text/html" (get_or (lookup "content-type" r.headers) "")))
          s _ _ (non_html-IsOk config r b k s)
          (IsOk-either env url (blocked b) s _ _ (blocked_page-IsOk config w r k s)
            (parsed-IsOk config w r b k (env.parse r.html r.final_url) s)))

  pub fetch-IsOk :
      (config : Settings) (w : Attempt) (f : Fetch) (k : ℕ) (s : ScraperState env.Breaker)
      → IsOk env url s (on_fetch env config url w f k s)
  unfolding on_fetch
  fetch-IsOk config w (timed_out name) k s = transport-IsOk config "timeout" name k s
  fetch-IsOk config w (http_error name) k s = transport-IsOk config "connection_reset" name k s
  fetch-IsOk config w unexpected k s = (refl, refl, refl, λ h. h)
  fetch-IsOk config w (responded r) k s = response-IsOk config w r k s
