-- ===== src/Lsctl/Backend/Db.antt =====
-- cmd/lsctl/internal/backend/db.go: the back end on a database.
use lite_settings.Base.{◌&&◌, ◌||◌, List, [], ◌∷◌, if◌then◌else◌, map, Result, ok, err}
use lite_settings.Base.Int.{ℤ}
use lite_settings.Base.Text.{Text, text, has_prefix, contains_text}
use lite_settings.Store.Validate.{StoreError, not_found, Change, Parsers}
use lite_settings.Store.Tables.{HistoryEntry, Tables, Env}
use lite_settings.Store.Read
use lite_settings.Store.Read.{list_prefixes}
use lite_settings.Store.Write.{Outcome, set_config, remove_config, rollback_config}
use lite_settings.Server.Handlers.{ApiConfig, api_config}
use lite_settings.Server.Entries.{ConfigDetail, detail, Version, version_of}
use lite_settings.Lsctl.Backend.{BackendError, err_not_found, store_error, Written, Backend}

-- The advice that `mapErr` adds to `ErrNotMigrated` leaves the error what it is.
unfoldable pub map_err : StoreError → BackendError
map_err not_found = err_not_found
map_err e = store_error e

abbrev pub mapped : {A B : Type 0} → (A → B) → Result StoreError A → Result BackendError B
mapped f (ok a) = ok (f a)
mapped f (err e) = err (map_err e)

unfoldable pub write_result : Text → Outcome → Written
unfolding map_err
write_result key (t, ok w) =
    (t, ok (record { key = key; version = w.version; revision = w.revision }))
write_result key (t, err e) = (t, err (map_err e))

-- An empty history is not found.
abbrev pub some_versions :
    Result StoreError (List HistoryEntry) → Result BackendError (List Version)
some_versions (err e) = err (map_err e)
some_versions (ok []) = err err_not_found
some_versions (ok (h ∷ hs)) = ok (map version_of (h ∷ hs))

unfoldable pub get : Env → Text → Tables → Result BackendError ConfigDetail
get e key t = mapped detail (Read.get e key t)

unfoldable pub list : Env → List Text → Tables → Result BackendError (List ApiConfig)
list e ps t = mapped (map api_config) (list_prefixes e ps t)

unfoldable pub history : Env → Text → ℤ → Tables → Result BackendError (List Version)
history e key limit t = some_versions (Read.history e key limit t)

unfoldable pub set : Env → Parsers → Text → Text → Text → Change → Tables → Written
unfolding write_result
set e p key value format c t = write_result key (set_config e p key value format c t)

unfoldable pub delete : Env → Parsers → Text → Change → Tables → Written
unfolding write_result
delete e p key c t = write_result key (remove_config e p key c t)

unfoldable pub rollback : Env → Parsers → Text → ℤ → Change → Tables → Written
unfolding write_result
rollback e p key version c t = write_result key (rollback_config e p key version c t)

-- `dbBackend`.
abbrev pub db_backend : Env → Parsers → Backend
db_backend e p = record {
  get = get e;
  list = list e;
  set = set e p;
  delete = delete e p;
  history = history e;
  rollback = rollback e p;
}

unfoldable pub driver_for_dsn : Text → Text
driver_for_dsn dsn =
    if has_prefix dsn (text "postgres://")
      || has_prefix dsn (text "postgresql://")
      || contains_text dsn (text "host=") && contains_text dsn (text "user=")
    then text "pgx"
    else text "mysql"
