-- ===== src/Lsctl/Backend/Agree.antt =====
-- The two back ends over the same tables: the same rows are written, the same values are read, and
-- an operation fails over HTTP exactly where it fails on the database, with the same exit code.
pub mod Writes
pub mod Reads
use mathlib.Core.Path.{fun_ext}
use lite_settings.Base.{
  ℕ, zero, suc, ◌≤◌, ◌^◌, ◌≡◌, ◌≢◌, refl, sym, ap, ◌∙◌, subst, Bool, true, false, List, [], ◌∷◌,
  Option, none, some, inl, inr, arith, ltb, leb, ◌==◌, length, map, if◌then◌else◌, Result, ok, err,
  Result-cases, >>=-eq-ok, Option-cases, Bool-cases, keep_if,
}
use lite_settings.Base.Int.{ℤ, pos, negsuc}
use lite_settings.Base.Text.{text, Text, text_eq, text_eq_iff, requested}
use lite_settings.Store.Validate.{
  StoreError, not_found, not_migrated, invalid_key, invalid_value, invalid_change,
  unsupported_driver, driver, Change, Parsers, max_value_size, format_raw, format_json, format_yaml,
}
use lite_settings.Store.Tables.{Config, HistoryEntry, Tables, Env, set}
use lite_settings.Store.Read
use lite_settings.Store.Read.{list_prefixes, selects}
use lite_settings.Store.Read.Laws.{selects-requested}
use lite_settings.Store.Write.{
  write, resolve_set, Outcome, set_config, remove_config, rollback_config,
}
use lite_settings.Server.Handlers.{
  ApiConfig, ApiSnapshot, revision_at, Body, body, error_body, no_reply, fail, prefixes, snapshot,
  handle_list, api_config, observed_revision, Query, reply,
}
use lite_settings.Server.Handlers.Laws.{prefixes-requested}
use lite_settings.Server.Entries
use lite_settings.Server.Entries.{
  ApiWriteResult, Asked, change, parse_format, read_body, complete, handle_get, handle_history,
  handle_set, handle_delete, handle_rollback, roll_back,
}
use lite_settings.Lsctl.Backend.{
  BackendError, err_not_found, err_not_supported, store_error, no_response, bad_status, Written,
}
use lite_settings.Lsctl.Backend.Db
use lite_settings.Lsctl.Backend.Db.{map_err}
use lite_settings.Lsctl.Backend.Http
use lite_settings.Lsctl.Backend.Http.{
  configs_of, Wire, received, answered, add_change, history_limit,
}

-- net/http leads the path of a key to the handlers of that key, unless the key is empty, or a dot or
-- two, which url.PathEscape leaves and net/http cleans away.
abbrev pub IsSegment : Text → Type 0
IsSegment key = (key ≢ []) × (key ≢ text ".") × (key ≢ text "..")

abbrev pub Routes : Wire → Type 0
Routes x = (key : Text) → IsSegment key → x.routed key ≡ true

-- `errors.Is(err, ErrNotFound)`, which is all that the exit code depends on.
abbrev pub is_not_found : BackendError → Bool
is_not_found err_not_found = true
is_not_found _ = false

abbrev pub Same : {A : Type 0} → Result BackendError A → Result BackendError A → Type 0
Same (ok a) (ok b) = a ≡ b
Same (err e) (err f) = is_not_found e ≡ is_not_found f
Same _ _ = ⊥

abbrev pub SameWrite : Written → Written → Type 0
SameWrite (t, r) (u, s) = (t ≡ u) × Same r s

pub received-fail :
    (A : Type 0) (cancelled : Bool) (x : StoreError)
    → Same {A = A} (received (fail cancelled x)) (err (map_err x))
unfolding received fail map_err
received-fail A cancelled not_found = refl
received-fail A cancelled not_migrated = refl
received-fail A cancelled (invalid_key f) = refl
received-fail A cancelled (invalid_value f) = refl
received-fail A cancelled (invalid_change f) = refl
received-fail A cancelled (unsupported_driver d) = refl
received-fail A true (driver s) = refl
received-fail A false (driver s) = refl

pub written-SameWrite :
    (cancelled : Bool) (key : Text) (o : Outcome)
    → SameWrite (answered (Entries.write_result cancelled key o)) (Db.write_result key o)
unfolding answered received Entries.write_result Db.write_result
written-SameWrite cancelled key (t, ok w) = (refl, refl)
written-SameWrite cancelled key (t, err x) = (refl, received-fail _ cancelled x)
