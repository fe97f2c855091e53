-- ===== src/Watermark.antt =====
-- libs/mapear-infra/src/mapear_infra/watermark.py: the time of the last successful run of each pipeline,
-- kept in one JSON file. `Storage` is the data lake, local or remote, `Json` the package `json`, and
-- `Datetimes` what is used of `datetime`.
mod Keeping
mod Tests
use mapear_rn.Base.{
  String, Bool, true, false, ◌≡◌, Option, none, some, List, [], ◌∷◌, str_eq, contains,
  if◌then◌else◌, Dict, lookup, insert, get_or,
}

-- No answer stands for an exception; a blob that does not exist has no text. A text of the file is
-- only handed from one to the other.
pub record Storage (Text : Type 0) : Type 1 where
  pub Store : Type 0
  pub read : Store → Option (Option Text)
  -- Whether the text was written, and what the store holds then; a local file is emptied before it
  -- is written, so a failure can lose what it held.
  pub write : Text → Store → Bool × Store

pub record Json (Text : Type 0) : Type 0 where
  pub loads : Text → Option (Dict String)
  pub dumps : Dict String → Text

pub record Datetimes : Type 1 where
  pub Time : Type 0
  pub has_tzinfo : Time → Bool
  pub replace_utc : Time → Time
  pub isoformat : Time → String
  -- `fromisoformat`, none for a `ValueError`
  pub fromisoformat : String → Option Time

-- What a call ends with
pub data Reading (A : Type 0) : Type 0 where
  returned : A → Reading A
  raised : Reading A

abbrev pub valid_keys : List String
valid_keys = "rss" ∷ "facebook" ∷ "instagram" ∷ "tiktok" ∷ "x" ∷ []

-- `WatermarkManager(pipeline_key)`, none for a `ValueError`
abbrev pub new_manager : String → Option String
new_manager pipeline_key = if contains pipeline_key valid_keys then some pipeline_key else none

module _ {Text : Type 0} (lake : Storage Text) (json : Json Text) (dt : Datetimes) where
  abbrev pub loaded : Option (Dict String) → Reading (Dict String)
  loaded none = raised
  loaded (some data_read) = returned data_read

  abbrev pub from_blob : Option (Option Text) → Reading (Dict String)
  from_blob none = raised
  from_blob (some none) = returned []
  from_blob (some (some raw)) = loaded (json.loads raw)

  unfoldable pub read_all : lake.Store → Reading (Dict String)
  read_all s = from_blob (lake.read s)

  unfoldable pub write_all : Dict String → lake.Store → Bool × lake.Store
  write_all d s = lake.write (json.dumps d) s

  -- `if dt.tzinfo is None: dt = dt.replace(tzinfo=UTC)`
  abbrev pub with_utc : dt.Time → dt.Time
  with_utc t = if dt.has_tzinfo t then t else dt.replace_utc t

  abbrev pub parsed : Option dt.Time → Option dt.Time
  parsed none = none
  parsed (some t) = some (with_utc t)

  -- The text of a key, an empty one or none for a first run
  abbrev pub watermark_of : String → Option dt.Time
  watermark_of raw = if str_eq raw "" then none else parsed (dt.fromisoformat raw)

  abbrev pub watermark_in : String → Reading (Dict String) → Reading (Option dt.Time)
  watermark_in key raised = raised
  watermark_in key (returned d) = returned (watermark_of (get_or (lookup key d) ""))

  unfoldable pub get_watermark : String → lake.Store → Reading (Option dt.Time)
  get_watermark key s = watermark_in key (read_all s)

  -- An exception of the read or of the write is logged; what a failed write left is left.
  abbrev pub saved : String → dt.Time → Reading (Dict String) → lake.Store → lake.Store
  saved key t raised s = s
  saved key t (returned d) s = (write_all (insert key (dt.isoformat t) d) s).1

  unfoldable pub save_watermark : String → dt.Time → lake.Store → lake.Store
  save_watermark key t s = saved key (with_utc t) (read_all s) s
