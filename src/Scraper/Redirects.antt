-- ===== src/Scraper/Redirects.antt =====
-- What a URL behind a redirector is resolved to.
use Prim.Native.Nat.{compare}
use Prim.Native.String.{slice, len, find}
use text.Mathlib.Text.{find?, is_le, when}
use text.Mathlib.TextFind.{find_cases}
use text.Mathlib.TextPositions.{slice-append_right, len-append}
use text.Mathlib.TextLemmas.{append_assoc}
use mapear_rn.Base.{
  ℕ, ◌+◌, ◌≤◌, ◌<◌, String, true, false, ◌≡◌, refl, sym, subst, ap, ◌∙◌, ◌⊎◌, inl, inr, none, some,
  List, [], ◌∷◌, arith, join,
}
use mapear_rn.Scraper.Batches.{tail_from, first_behind, resolve_redirect_url}

is_le_of_le : (a b : ℕ) → a ≤ b → is_le (compare a b) ≡ true
is_le_of_le a b h = ground arith

is_le_of_lt : (a b : ℕ) → b < a → is_le (compare a b) ≡ false
is_le_of_lt a b h = ground arith

-- What follows the first two bytes of a marker, at the place where it was found
behind :
    (u rest v : String)
    → let url = join u (join (join "/*" rest) v) in slice url (len u + 2) (len url) ≡ join rest v
behind u rest v =
    let w = join rest v in
    let split : join u (join (join "/*" rest) v) ≡ join (join u "/*") w =
      ap (join u) (append_assoc "/*" rest v) ∙ sym (append_assoc u "/*" w) in
    let start : len (join u "/*") ≡ len u + 2 = len-append u "/*" in
    let whole : len (join (join u "/*") w) ≡ len (join u "/*") + len w =
      len-append (join u "/*") w in
    rw split (
      rw whole (
        subst (λ k. slice (join (join u "/*") w) k (len (join u "/*") + len w) ≡ w) start
          (slice-append_right (join u "/*") w)))

find?_cases :
    (url marker : String)
    → (find? url marker ≡ none)
      ⊎ ((u : String) × (v : String) × (url ≡ join u (join marker v))
          × (find? url marker ≡ some (len u)))
find?_cases url marker = elim (find_cases url marker) [
  | inl (u, v, e, at) ↦ inr (
    u,
    v,
    e,
    let within : find url marker ≤ len url =
          omega (arith, at, ap len e, len-append u (join marker v)) in
        ap (λ b. when b (find url marker)) (is_le_of_le _ _ within) ∙ ap some at,
  )
  | inr e ↦ inl (
      ap (λ b. when b (find url marker))
        (is_le_of_lt (find url marker) (len url) (omega (arith, e))))
]

-- The URL is a text, one of the markers, and the rest of what it is resolved to.
abbrev pub IsBehind : String → String → String → Type 0
IsBehind scheme url resolved =
    (u : String) × (v : String) × (url ≡ join u (join (join "/*" scheme) v))
    × (resolved ≡ join scheme v)

hit-IsBehind :
    (scheme url u v : String) (i : ℕ)
    → url ≡ join u (join (join "/*" scheme) v)
    → i ≡ len u
    → IsBehind scheme url (slice url (i + 2) (len url))
hit-IsBehind scheme url u v i e at = (u, v, e, rw e (rw at (behind u scheme v)))

first_behind-none :
    (url marker : String) (markers : List String)
    → find? url marker ≡ none
    → first_behind (marker ∷ markers) url ≡ first_behind markers url
unfolding first_behind
first_behind-none url marker markers e = ap (λ o. tail_from o url (first_behind markers url)) e

-- A URL without a marker is resolved to itself. Any other is resolved to what follows the two
-- characters of a marker in it, which begins with the scheme `https` if the URL has that marker,
-- and with `http` otherwise.
pub resolve_redirect_url-IsBehind :
    (url : String)
    → ((find? url "/*https://" ≡ none)
        × (find? url "/*http://" ≡ none)
        × (resolve_redirect_url url ≡ url))
      ⊎ (IsBehind "https://" url (resolve_redirect_url url)
          ⊎ ((find? url "/*https://" ≡ none) × IsBehind "http://" url (resolve_redirect_url url)))
unfolding resolve_redirect_url first_behind
resolve_redirect_url-IsBehind url =
    let later = first_behind ("/*http://" ∷ []) url in
    elim (find?_cases url "/*https://") [
      | inr (u, v, e, at) ↦ inr (
          inl (
            subst (IsBehind "https://" url) (sym (ap (λ o. tail_from o url later) at))
              (hit-IsBehind "https://" url u v (len u) e refl)))
      | inl none₁ ↦
          let passed = first_behind-none url "/*https://" ("/*http://" ∷ []) none₁ in
          elim (find?_cases url "/*http://") [
            | inr (u, v, e, at) ↦
                let resolved = passed ∙ ap (λ o. tail_from o url url) at in
                inr (
                  inr (
                    none₁,
                    subst (IsBehind "http://" url) (sym resolved)
                        (hit-IsBehind "http://" url u v (len u) e refl),
                  ))
            | inl none₂ ↦ inl (none₁, none₂, passed ∙ first_behind-none url "/*http://" [] none₂)
          ]
    ]
