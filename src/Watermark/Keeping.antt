-- ===== src/Watermark/Keeping.antt =====
-- What is read after a watermark was saved.
use mapear_rn.Base.{
  String, Bool, true, false, ◌≡◌, refl, some, str_eq, if◌then◌else◌, Dict, insert, ◌∙◌, ap,
  lookup-insert_self, lookup-insert_ne,
}
use mapear_rn.Watermark.{
  Storage, Json, Datetimes, Reading, returned, raised, read_all, write_all, with_utc, get_watermark,
  saved, save_watermark,
}

-- A written text is what is read next, and a dictionary is read as it was dumped.
pub record IsKeeping {Text : Type 0} (lake : Storage Text) (json : Json Text) : Type 0 where
  pub read-write :
      (text : Text) (s s' : lake.Store)
      → lake.write text s ≡ (true, s')
      → lake.read s' ≡ some (some text)
  pub loads-dumps : (d : Dict String) → json.loads (json.dumps d) ≡ some d

-- A time with a zone is written as a text that reads back as it.
pub record IsPrinting (dt : Datetimes) : Type 0 where
  pub fromisoformat-isoformat : (t : dt.Time) → dt.fromisoformat (dt.isoformat t) ≡ some t
  pub isoformat_nonempty : (t : dt.Time) → str_eq (dt.isoformat t) "" ≡ false
  pub has_tzinfo-replace_utc : (t : dt.Time) → dt.has_tzinfo (dt.replace_utc t) ≡ true

module _ {Text : Type 0} (lake : Storage Text) (json : Json Text) (dt : Datetimes)
    (keeping : IsKeeping lake json) where
  -- A blob that was written is the dictionary that was dumped.
  read_all-write_all :
      (d : Dict String) (s s' : lake.Store)
      → write_all lake json dt d s ≡ (true, s')
      → read_all lake json dt s' ≡ returned d
  unfolding read_all write_all
  read_all-write_all d s s' e =
      rw (keeping.read-write (json.dumps d) s s' e, keeping.loads-dumps d) refl

  -- The write of a save, if it comes to one, does not fail.
  abbrev pub IsSavable : String → dt.Time → lake.Store → Type 0
  IsSavable key t s =
      (d : Dict String)
      → read_all lake json dt s ≡ returned d
      → (write_all lake json dt (insert key (dt.isoformat (with_utc lake json dt t)) d) s).0 ≡ true

  kept_by_write :
      (key other : String) (t : dt.Time) (d : Dict String) (s : lake.Store) (w : Bool × lake.Store)
      → str_eq key other ≡ false
      → read_all lake json dt s ≡ returned d
      → write_all lake json dt (insert key (dt.isoformat t) d) s ≡ w
      → w.0 ≡ true
      → get_watermark lake json dt other w.1 ≡ get_watermark lake json dt other s
  unfolding get_watermark
  kept_by_write key other t d s (done, s') ne e w h =
      rw
        (
          read_all-write_all (insert key (dt.isoformat t) d) s s' (w ∙ ap (λ b. (b, s')) h),
          e,
          lookup-insert_ne key other (dt.isoformat t) d ne,
        )
        refl

  kept_by_save :
      (key other : String) (t : dt.Time) (s : lake.Store) (a : Reading (Dict String))
      → str_eq key other ≡ false
      → read_all lake json dt s ≡ a
      → ((d : Dict String)
          → a ≡ returned d
          → (write_all lake json dt (insert key (dt.isoformat t) d) s).0 ≡ true)
      → get_watermark lake json dt other (saved lake json dt key t a s)
        ≡ get_watermark lake json dt other s
  kept_by_save key other t s raised ne e h = refl
  kept_by_save key other t s (returned d) ne e h =
      kept_by_write key other t d s _ ne e refl (h d refl)

  -- Saving the watermark of one pipeline leaves what any other pipeline reads as it was, if the file
  -- cannot be read, or is broken, or the write of the new text does not fail.
  pub save_watermark_other :
      (key other : String) (t : dt.Time) (s : lake.Store)
      → str_eq key other ≡ false
      → IsSavable key t s
      → get_watermark lake json dt other (save_watermark lake json dt key t s)
        ≡ get_watermark lake json dt other s
  unfolding save_watermark
  save_watermark_other key other t s ne h =
      kept_by_save key other (with_utc lake json dt t) s _ ne refl h

  zoned :
      IsPrinting dt
      → (t : dt.Time) (b : Bool) → dt.has_tzinfo t ≡ b
      → dt.has_tzinfo (if b then t else dt.replace_utc t) ≡ true
  zoned printing t true e = e
  zoned printing t false e = printing.has_tzinfo-replace_utc t

  -- A saved watermark is read back, in UTC if it had no zone, when the file could be read and then
  -- written.
  pub get_watermark-save_watermark :
      IsPrinting dt
      → (key : String) (t : dt.Time) (s s' : lake.Store) (d : Dict String)
      → read_all lake json dt s ≡ returned d
      → write_all lake json dt (insert key (dt.isoformat (with_utc lake json dt t)) d) s
        ≡ (true, s')
      → get_watermark lake json dt key (save_watermark lake json dt key t s)
        ≡ returned (some (with_utc lake json dt t))
  unfolding get_watermark save_watermark
  get_watermark-save_watermark printing key t s s' d e w =
      let u = with_utc lake json dt t in
      rw
        (
          e,
          ap (λ (p : Bool × lake.Store). p.1) w,
          read_all-write_all (insert key (dt.isoformat u) d) s s' w,
          lookup-insert_self key (dt.isoformat u) d,
          printing.isoformat_nonempty u,
          printing.fromisoformat-isoformat u,
          zoned printing t _ refl,
        )
        refl
