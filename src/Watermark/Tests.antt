-- ===== src/Watermark/Tests.antt =====
-- The theorems of the watermarks at a file of one pipeline, with times as texts.
use mapear_rn.Base.{
  String, Bool, true, false, ◌≡◌, refl, ap, sym, Option, none, some, [], ◌∷◌, str_eq, if◌then◌else◌,
  Dict, insert,
}
use mapear_rn.Watermark.{
  Storage, Json, Datetimes, returned, read_all, write_all, get_watermark, save_watermark,
  new_manager,
}
use mapear_rn.Watermark.Keeping.{
  IsKeeping, IsPrinting, save_watermark_other, get_watermark-save_watermark,
}

-- A file whose text is the dictionary
abbrev lake : Storage (Dict String)
lake = record {
  Store = Option (Dict String);
  read = λ s. some s;
  write = λ text s. (true, some text);
}

abbrev json : Json (Dict String)
json = record { loads = λ text. some text; dumps = λ d. d }

keeping : IsKeeping lake json
keeping = record { read-write = λ text s s' e. ap (λ w. some w.1) (sym e); loads-dumps = λ d. refl }

-- Two times, of which the first has no zone
abbrev noon : Datetimes
noon = record {
  Time = Bool;
  has_tzinfo = λ t. t;
  replace_utc = λ t. true;
  isoformat = λ t. if t then "2026-04-23T12:00:00+00:00" else "2026-04-23T12:00:00";
  fromisoformat = λ text.
      if str_eq text "2026-04-23T12:00:00"
      then some false
      else if str_eq text "2026-04-23T12:00:00+00:00"
      then some true
      else none;
}

noon-IsPrinting : IsPrinting noon
noon-IsPrinting = record {
  fromisoformat-isoformat = λ t. elim t as (λ b. noon.fromisoformat (noon.isoformat b) ≡ some b) [
    | true ↦ refl
    | false ↦ refl
  ];
  isoformat_nonempty =
      λ t. elim t as (λ b. str_eq (noon.isoformat b) "" ≡ false) [ true ↦ refl | false ↦ refl ];
  has_tzinfo-replace_utc = λ t. refl;
}

abbrev stored : Option (Dict String)
stored = some (("rss", "2026-04-23T12:00:00") ∷ ("x", "") ∷ [])

save_watermark_other_example :
    get_watermark lake json noon "rss" (save_watermark lake json noon "x" false stored)
    ≡ get_watermark lake json noon "rss" stored
unfolding write_all
save_watermark_other_example =
    save_watermark_other lake json noon keeping "x" "rss" false stored refl (λ d e. refl)

get_watermark-save_watermark_example :
    get_watermark lake json noon "x" (save_watermark lake json noon "x" false stored)
    ≡ returned (some true)
unfolding read_all write_all insert
get_watermark-save_watermark_example =
    get_watermark-save_watermark lake json noon keeping noon-IsPrinting "x" false stored
      (some (("rss", "2026-04-23T12:00:00") ∷ ("x", "2026-04-23T12:00:00+00:00") ∷ []))
      (("rss", "2026-04-23T12:00:00") ∷ ("x", "") ∷ []) refl refl

no_such_pipeline : new_manager "youtube" ≡ none
no_such_pipeline = refl
