-- ===== src/Lsctl/Backend.antt =====
-- cmd/lsctl/internal/backend: the interface of the two back ends of lsctl over the tables,
-- and its errors.
pub mod Tests
pub mod Db
pub mod Http
pub mod Agree
use lite_settings.Base.{
  ℕ, Bool, true, false, ◌&&◌, ◌||◌, List, [], ◌∷◌, Option, none, some, if◌then◌else◌, map, Result,
  ok, err,
}
use lite_settings.Base.Int.{ℤ}
use lite_settings.Base.Text.{Text, text, text_eq, has_prefix}
use lite_settings.Store.Validate.{StoreError, not_found, not_migrated, Change, Parsers}
use lite_settings.Store.Tables.{Config, HistoryEntry, Tables, Env}
use lite_settings.Store.Read
use lite_settings.Store.Read.{list_prefixes}
use lite_settings.Store.Write.{Outcome, set_config, remove_config, rollback_config}
use lite_settings.Server.Handlers.{ApiConfig, api_config}
use lite_settings.Server.Entries.{ConfigDetail, detail, Version, version_of, ApiWriteResult}

-- `ErrNotFound`, `ErrNotSupported`, an error of the store, and those of a request: no response, a
-- status that is not 2xx, a body that does not decode.
pub data BackendError : Type 0 where
  err_not_found err_not_supported : BackendError
  store_error : StoreError → BackendError
  no_response : BackendError
  bad_status : ℕ → BackendError

abbrev pub Written : Type 0
Written = Tables × Result BackendError ApiWriteResult

pub record Backend : Type 0 where
  pub get : Text → Tables → Result BackendError ConfigDetail
  pub list : List Text → Tables → Result BackendError (List ApiConfig)
  pub set : Text → Text → Text → Change → Tables → Written
  pub delete : Text → Change → Tables → Written
  pub history : Text → ℤ → Tables → Result BackendError (List Version)
  pub rollback : Text → ℤ → Change → Tables → Written
