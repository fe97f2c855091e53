-- ===== src/Deduplicator.antt =====
-- pipelines/mapear-rss/src/mapear_rss/transformation/deduplicator.py and libs/mapear-storage/src/
-- mapear_storage/transformation/url_canonicalizer.py: one copy of each article, by its text and by
-- its canonical URL. A Python set is the list of its elements. `UrlLib` is what the canonicaliser
-- calls of Python's `str` and `urllib.parse`.
pub mod Batches
pub mod Reloading
mod Tests
use mapear_rn.Base.{
  String, Bool, true, false, ◌&&◌, ◌||◌, not, Option, none, some, List, [], ◌∷◌, str_eq,
  if◌then◌else◌, contains, select,
}
use mapear_rn.Frontier.{Frontier}
use mapear_rn.Frontier.Rows.{Row, completed, status_eq}

pub record ParseResult : Type 0 where
  pub scheme : String
  pub netloc : String
  pub path : String
  pub query : String

-- `urlparse` of the stripped text, none where it raises; `rsplit(":", 1)`, none without a colon;
-- `rstrip("/")`; `sorted` on the items of a query; `urlunparse` with empty parameters and fragment.
pub record UrlLib : Type 0 where
  pub urlparse_stripped : String → Option ParseResult
  pub lower : String → String
  pub rsplit_colon : String → Option (String × String)
  pub rstrip_slash : String → String
  pub parse_qs : String → List (String × List String)
  pub sorted_items : List (String × List String) → List (String × List String)
  pub urlencode : List (String × List String) → String
  pub urlunparse : String → String → String → String → String

abbrev pub tracking_params : List String
tracking_params =
    "utm_source" ∷ "utm_medium" ∷ "utm_campaign" ∷ "utm_content" ∷ "utm_term" ∷ "utm_id" ∷ "utm_cid"
    ∷ "fbclid" ∷ "gclid" ∷ "dclid" ∷ "yclid" ∷ "msclkid" ∷ "mc_eid" ∷ "mc_cid" ∷ "ref" ∷ "via"
    ∷ "_ga" ∷ "_gl" ∷ "origem" ∷ "canal" ∷ "campanha" ∷ []

abbrev pub is_default_port : String → String → Bool
is_default_port scheme port =
    (str_eq scheme "http" && str_eq port "80") || (str_eq scheme "https" && str_eq port "443")

module _ (lib : UrlLib) where
  abbrev pub is_clean : String × List String → Bool
  is_clean kv = not (contains (lib.lower kv.0) tracking_params)

  abbrev pub strip_port : String → String → String
  strip_port scheme netloc = elim (lib.rsplit_colon netloc) [
    | none ↦ netloc
    | some (host, port) ↦ if is_default_port scheme port then host else netloc
  ]

  abbrev pub path_or_root : String → String
  path_or_root path =
      let stripped = lib.rstrip_slash path in if str_eq stripped "" then "/" else stripped

  unfoldable pub canonical_parts : ParseResult → String
  canonical_parts parsed =
      let scheme = lib.lower parsed.scheme in
      lib.urlunparse scheme (strip_port scheme (lib.lower parsed.netloc)) (path_or_root parsed.path)
        (lib.urlencode (lib.sorted_items (select is_clean (lib.parse_qs parsed.query))))

  unfoldable pub canonicalize_url : String → String
  canonicalize_url url = elim (lib.urlparse_stripped url) [
    | none ↦ lib.rstrip_slash (lib.lower url)
    | some parsed ↦ canonical_parts parsed
  ]

-- `models/base.py`'s `RawArticle`, batch far batch the deduplicator reads it
pub record RawArticle : Type 0 where
  pub url : String
  pub content_hash : String
  pub source_feed : String

pub record Deduplicator : Type 0 where
  pub known_hashes : List String
  pub known_canonical_urls : List String

-- `known_hashes or set()`
abbrev pub new_deduplicator : Option (List String) → Deduplicator
new_deduplicator none = record { known_hashes = []; known_canonical_urls = [] }
new_deduplicator (some hs) = record { known_hashes = hs; known_canonical_urls = [] }

-- `s.add(k)`
abbrev pub add : String → List String → List String
add k s = if contains k s then s else k ∷ s

-- The completed rows' hashes, without the missing ones
unfoldable pub hashes_of : List Row → List String → List String
hashes_of [] s = s
hashes_of (r ∷ rows) s = elim r.content_hash [
  | none ↦ hashes_of rows s
  | some h ↦
      let rest = hashes_of rows s in if status_eq r.status completed then add h rest else rest
]

-- No engine leaves the deduplicator batch it is.
unfoldable pub load_existing_hashes : Option Frontier → Deduplicator → Deduplicator
load_existing_hashes none d = d
load_existing_hashes (some f) d = record d { known_hashes = hashes_of f.rows d.known_hashes }

module _ (canonical : String → String) where
  unfoldable pub canonical_urls_of : List Row → List String → List String
  canonical_urls_of [] s = s
  canonical_urls_of (r ∷ rows) s =
      let rest = canonical_urls_of rows s in
      if status_eq r.status completed then add (canonical r.url) rest else rest

  unfoldable pub load_existing_canonical_urls : Option Frontier → Deduplicator → Deduplicator
  load_existing_canonical_urls none d = d
  load_existing_canonical_urls (some f) d = record d {
    known_canonical_urls = canonical_urls_of f.rows d.known_canonical_urls;
  }

  -- The article's text or its canonical URL is known.
  abbrev pub is_known : Deduplicator → RawArticle → Bool
  is_known d a =
      contains a.content_hash d.known_hashes || contains (canonical a.url) d.known_canonical_urls

  abbrev pub learn : RawArticle → Deduplicator → Deduplicator
  learn a d = record {
    known_hashes = add a.content_hash d.known_hashes;
    known_canonical_urls = add (canonical a.url) d.known_canonical_urls;
  }

  -- The unique articles, with the deduplicator afterwards
  unfoldable pub deduplicate : List RawArticle → Deduplicator → List RawArticle × Deduplicator
  deduplicate [] d = ([], d)
  deduplicate (a ∷ batch) d =
      let duplicate = deduplicate batch d in
      let (unique, d') = deduplicate batch (learn a d) in
      if is_known d a then duplicate else (a ∷ unique, d')
