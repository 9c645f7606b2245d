-- ===== src/Server/Entries.antt =====
-- server/handler.go: the handlers of one key, of the revision and of the health. A handler that
-- writes returns the tables as well.
pub mod Laws
use lite_settings.Base.{
  ℕ, zero, suc, ◌*◌, ◌^◌, Bool, true, false, List, [], ◌∷◌, Option, none, some, ltb, if◌then◌else◌,
  length, map, Result, ok, err,
}
use lite_settings.Base.Int.{ℤ, pos, negsuc}
use lite_settings.Base.Text.{Text, text, text_eq}
use lite_settings.Store.Validate.{
  StoreError, not_found, Change, Parsers, max_value_size, format_raw, format_json, format_yaml,
}
use lite_settings.Store.Tables.{Config, HistoryEntry, Op, Tables, Env}
use lite_settings.Store.Read.{get, history}
use lite_settings.Store.Write.{WriteResult, Outcome, set_config, remove_config, rollback_config}
use lite_settings.Server.Watcher.{Watcher, health}
use lite_settings.Server.Handlers.{Body, body, error_body, fail, reply, Query, observed_revision}

pub record ConfigDetail : Type 0 where
  pub key : Text
  pub value : Text
  pub format : Text
  pub updated_at : ℕ
  pub updated_by : Text

-- `handleGet`.
abbrev pub detail : Config → ConfigDetail
detail c = record {
  key = c.key;
  value = c.value;
  format = c.format;
  updated_at = c.updated_at;
  updated_by = c.updated_by;
}

abbrev detailed : Result StoreError Config → Result StoreError ConfigDetail
detailed (ok c) = ok (detail c)
detailed (err e) = err e

unfoldable pub handle_get : Bool → Env → Text → Tables → Body ConfigDetail
handle_get cancelled e key t = reply cancelled (detailed (get e key t))

-- The `api.HistoryEntry` of a row.
pub record Version : Type 0 where
  pub version : ℕ
  pub value : Text
  pub format : Text
  pub op : Op
  pub comment : Text
  pub created_at : ℕ
  pub created_by : Text

abbrev pub version_of : HistoryEntry → Version
version_of h = record {
  version = h.version;
  value = h.value;
  format = h.format;
  op = h.op;
  comment = h.comment;
  created_at = h.created_at;
  created_by = h.created_by;
}

-- The limit of the query string: absent, not an integer, or an integer.
pub data Limit : Type 0 where
  no_limit bad_limit : Limit
  limit_of : ℤ → Limit

abbrev pub limit_or_default : Limit → Option ℤ
limit_or_default no_limit = some (pos 100)
limit_or_default bad_limit = none
limit_or_default (limit_of n) = some n

-- An empty history is not found.
abbrev pub versions : Bool → Result StoreError (List HistoryEntry) → Body (List Version)
versions cancelled (err e) = fail cancelled e
versions cancelled (ok []) = fail cancelled not_found
versions cancelled (ok (h ∷ hs)) = body 200 (map version_of (h ∷ hs))

unfoldable pub handle_history : Bool → Env → Text → Limit → Tables → Body (List Version)
handle_history cancelled e key l t = elim (limit_or_default l) [
  | none ↦ error_body 400
  | some n ↦ versions cancelled (history e key n t)
]

-- The body of a request, as far as it can be read.
pub data Incoming : Type 0 where
  interrupted : Incoming
  complete : Text → Incoming

-- The status of the error, or the body.
unfoldable pub read_body : ℕ → Incoming → Result ℕ Text
read_body limit interrupted = err 400
read_body limit (complete b) = if ltb limit (length b) then err 413 else ok b

unfoldable pub parse_format : Text → Option Text
parse_format v =
    if text_eq v []
    then some format_raw
    else if text_eq v format_raw
    then some v
    else if text_eq v format_json
    then some v
    else if text_eq v format_yaml
    then some v
    else none

-- What the query string says of a change.
pub record Asked : Type 0 where
  pub author : Text
  pub comment : Text

abbrev pub default_author : Text
default_author = text "anonymous"

unfoldable pub change : Asked → Change
change q = record {
  author = if text_eq q.author [] then default_author else q.author;
  comment = q.comment;
}

pub record ApiWriteResult : Type 0 where
  pub key : Text
  pub version : ℕ
  pub revision : ℕ

abbrev pub Answer : Type 0
Answer = Tables × Body ApiWriteResult

-- The end of the three handlers that write.
unfoldable pub write_result : Bool → Text → Outcome → Answer
write_result cancelled key (t, ok w) =
    (t, body 200 (record { key = key; version = w.version; revision = w.revision }))
write_result cancelled key (t, err e) = (t, fail cancelled e)

unfoldable pub handle_set : Bool → Env → Parsers → Text → Text → Incoming → Asked → Tables → Answer
unfolding write_result
handle_set cancelled e p key format incoming q t = elim (parse_format format) [
  | none ↦ (t, error_body 400)
  | some f ↦ elim (read_body max_value_size incoming) [
    | err status ↦ (t, error_body status)
    | ok value ↦ write_result cancelled key (set_config e p key value f (change q) t)
  ]
]

unfoldable pub handle_delete : Bool → Env → Parsers → Text → Asked → Tables → Answer
unfolding write_result
handle_delete cancelled e p key q t =
    write_result cancelled key (remove_config e p key (change q) t)

-- The version has to be positive.
unfoldable pub roll_back : Bool → Env → Parsers → Text → Option ℤ → Asked → Tables → Answer
unfolding write_result
roll_back cancelled e p key none q t = (t, error_body 400)
roll_back cancelled e p key (some (negsuc n)) q t = (t, error_body 400)
roll_back cancelled e p key (some (pos zero)) q t = (t, error_body 400)
roll_back cancelled e p key (some (pos (suc n))) q t =
    write_result cancelled key (rollback_config e p key (pos (suc n)) (change q) t)

-- `version` is the version that the JSON of the body holds, none if it is not valid.
unfoldable pub handle_rollback :
    Bool → Env → Parsers → (Text → Option ℤ) → Text → Incoming → Asked → Tables → Answer
unfolding roll_back
handle_rollback cancelled e p version key incoming q t = elim (read_body (2 ^ 12) incoming) [
  | err status ↦ (t, error_body status)
  | ok b ↦ roll_back cancelled e p key (version b) q t
]

unfoldable pub handle_revision : Bool → Watcher → Query → Body ℤ
handle_revision cancelled w q = reply cancelled (observed_revision w q)

unfoldable pub handle_health : Watcher → Body (Bool × ℤ × Text)
unfolding health
handle_health w = body (if w.ready then 200 else 503) (health w)
