-- ===== src/Client/Decode.antt =====
-- client/decode.go and the decode cache of client/view.go. The parsers of package strconv and time
-- and the JSON and YAML decoders are parameters.
pub mod Cache
use lite_settings.Base.{
  ℕ, Bool, true, false, ◌&&◌, List, [], ◌∷◌, Option, none, some, if◌then◌else◌, Result, ok, err,
}
use lite_settings.Base.Text.{Text, text, text_eq}
use lite_settings.Client.View.{Config}

-- The cases of the type switch; all other types are decoded by the format.
pub data Kind : Type 0 where
  as_string as_bytes as_bool as_duration structured : Kind
  as_int as_uint as_float : ℕ → Kind

-- `strconv.IntSize`.
abbrev pub int_size : ℕ
int_size = 64

-- The case of a type, by the type's name.
unfoldable pub kind_of : Text → Kind
kind_of t =
    if text_eq t (text "string")
    then as_string
    else if text_eq t (text "[]uint8")
    then as_bytes
    else if text_eq t (text "bool")
    then as_bool
    else if text_eq t (text "time.Duration")
    then as_duration
    else if text_eq t (text "int")
    then as_int int_size
    else if text_eq t (text "int32")
    then as_int 32
    else if text_eq t (text "int64")
    then as_int 64
    else if text_eq t (text "uint")
    then as_uint int_size
    else if text_eq t (text "uint32")
    then as_uint 32
    else if text_eq t (text "uint64")
    then as_uint 64
    else if text_eq t (text "float32")
    then as_float 32
    else if text_eq t (text "float64")
    then as_float 64
    else structured

pub data DecodeError : Type 0 where
  bad_scalar : Kind → DecodeError
  bad_json bad_yaml needs_format : DecodeError

-- Parsers for values of type V: a scalar's, of the text, and the structured ones, of the type, of
-- whether unknown fields are rejected, and of the text.
pub record Decoders (V : Type 0) : Type 0 where
  pub of_string : Text → V
  pub of_bytes : Text → V
  pub scalar : Kind → Text → Option V
  pub json : Text → Bool → Text → Option V
  pub yaml : Text → Bool → Text → Option V

module _ {V : Type 0} (d : Decoders V) where
  abbrev or_error : DecodeError → Option V → Result DecodeError V
  or_error e none = err e
  or_error e (some v) = ok v

  unfoldable pub by_format : Text → Text → Text → Bool → Result DecodeError V
  by_format t raw format strict =
      if text_eq format (text "json")
      then or_error bad_json (d.json t strict raw)
      else if text_eq format (text "yaml")
      then or_error bad_yaml (d.yaml t strict raw)
      else err needs_format

  abbrev by_kind : Kind → Text → Text → Text → Bool → Result DecodeError V
  by_kind as_string t raw format strict = ok (d.of_string raw)
  by_kind as_bytes t raw format strict = ok (d.of_bytes raw)
  by_kind structured t raw format strict = by_format t raw format strict
  by_kind k t raw format strict = or_error (bad_scalar k) (d.scalar k raw)

  unfoldable pub decode : Text → Text → Text → Bool → Result DecodeError V
  unfolding by_format
  decode t raw format strict = by_kind (kind_of t) t raw format strict

  -- The cache of a view: results by key and type.
  abbrev pub Cache : Type 0
  Cache = List (Text × Text × Result DecodeError V)

  unfoldable pub load : Text → Text → Cache → Option (Result DecodeError V)
  load key t [] = none
  load key t ((j, u, r) ∷ cache) =
      let rest = load key t cache in if text_eq j key && text_eq u t then some r else rest

  abbrev load_or_store :
      Text
      → Text
      → Cache
      → Result DecodeError V
      → Option (Result DecodeError V)
      → Cache × Result DecodeError V
  load_or_store key t cache r (some hit) = (cache, hit)
  load_or_store key t cache r none = ((key, t, r) ∷ cache, r)

  -- `cachedDecode`: other goroutines may have changed the cache, to `cache'`, while the value was
  -- decoded; the first writer wins.
  unfoldable pub cached_decode :
      Cache → Cache → Text → Text → Config → Bool → Cache × Result DecodeError V
  unfolding load
  cached_decode cache cache' key t c strict = elim (load key t cache) [
    | some hit ↦ (cache, hit)
    | none ↦ load_or_store key t cache' (decode t c.value c.format strict) (load key t cache')
  ]
