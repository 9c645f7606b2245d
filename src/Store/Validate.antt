-- ===== src/Store/Validate.antt =====
-- store/validate.go and store/errors.go: the checks of keys, audit fields and values. The JSON
-- tokenizer and the YAML parser are parameters.
use lite_settings.Base.{
  ℕ, ◌^◌, Bool, true, false, ◌&&◌, ◌||◌, not, [], ◌∷◌, ltb, leb, ◌==◌, if◌then◌else◌, length,
  Result, ok, err,
}
use lite_settings.Base.Text.{Text, text, text_eq}

pub data KeyFault : Type 0 where
  empty too_long bad_character : KeyFault

pub data ChangeFault : Type 0 where
  author_too_long comment_too_long : ChangeFault

pub data ValueFault : Type 0 where
  too_large empty_json bad_json trailing_json bad_yaml unknown_format : ValueFault

-- A statement of the write transaction that the database can refuse.
pub data Statement : Type 0 where
  begin update_revision select_revision select_config select_version exec max_version insert_history
        commit select_history select_configs :
      Statement

-- The sentinels of errors.go, each with what the code wraps into it; `driver` is an error of the
-- database that no sentinel stands for.
pub data StoreError : Type 0 where
  not_found : StoreError
  not_migrated : StoreError
  invalid_key : KeyFault → StoreError
  invalid_value : ValueFault → StoreError
  invalid_change : ChangeFault → StoreError
  unsupported_driver : Text → StoreError
  driver : Statement → StoreError

pub record Change : Type 0 where
  pub author : Text
  pub comment : Text

abbrev pub max_value_size : ℕ
max_value_size = 2 ^ 20

abbrev pub max_key_len : ℕ
max_key_len = 191

abbrev pub max_author_len : ℕ
max_author_len = 64

abbrev pub max_comment_len : ℕ
max_comment_len = 255

abbrev pub format_raw : Text
format_raw = text "raw"

abbrev pub format_json : Text
format_json = text "json"

abbrev pub format_yaml : Text
format_yaml = text "yaml"

-- `[A-Za-z0-9_.:@-]`.
unfoldable pub key_char : ℕ → Bool
key_char c =
    leb b'A' c && leb c b'Z'
    || leb b'a' c && leb c b'z'
    || leb b'0' c && leb c b'9'
    || c == b'_'
    || c == b'.'
    || c == b':'
    || c == b'@'
    || c == b'-'

-- `keyPattern.MatchString`, for a key that is not empty.
unfoldable pub key_chars : Text → Bool
key_chars [] = true
key_chars (c ∷ cs) = let rest = key_chars cs in if key_char c then rest else false

unfoldable pub validate_key : Text → Result StoreError (Unit {0})
unfolding key_chars key_char
validate_key [] = err (invalid_key empty)
validate_key (c ∷ cs) =
    if ltb max_key_len (length (c ∷ cs))
    then err (invalid_key too_long)
    else if not (key_chars (c ∷ cs))
    then err (invalid_key bad_character)
    else ok tt

unfoldable pub validate_change : Change → Result StoreError (Unit {0})
validate_change c =
    if ltb max_author_len (length c.author)
    then err (invalid_change author_too_long)
    else if ltb max_comment_len (length c.comment)
    then err (invalid_change comment_too_long)
    else ok tt

-- What the code uses of `jsontext.Decoder` and of `yaml.Unmarshal`: a read returns the text that is
-- left, the end of the input, or another error.
pub data ReadFault : Type 0 where
  eof malformed : ReadFault

pub record Parsers : Type 0 where
  pub read_value : Text → Result ReadFault Text
  pub read_token : Text → Result ReadFault Text
  pub yaml_parses : Text → Bool

abbrev pub ReadResult : Type 0
ReadResult = Result ReadFault Text

json_end : ReadResult → Result StoreError (Unit {0})
json_end (ok rest) = err (invalid_value trailing_json)
json_end (err eof) = ok tt
json_end (err malformed) = err (invalid_value bad_json)

json_value : Parsers → ReadResult → Result StoreError (Unit {0})
json_value p (err eof) = err (invalid_value empty_json)
json_value p (err malformed) = err (invalid_value bad_json)
json_value p (ok rest) = json_end (p.read_token rest)

unfoldable pub validate_json : Parsers → Text → Result StoreError (Unit {0})
unfolding json_value json_end
validate_json p value = json_value p (p.read_value value)

unfoldable pub validate_value : Parsers → Text → Text → Result StoreError (Unit {0})
unfolding validate_json
validate_value p value format =
    if ltb max_value_size (length value)
    then err (invalid_value too_large)
    else if text_eq format format_raw
    then ok tt
    else if text_eq format format_json
    then validate_json p value
    else if text_eq format format_yaml
    then (if p.yaml_parses value then ok tt else err (invalid_value bad_yaml))
    else err (invalid_value unknown_format)
