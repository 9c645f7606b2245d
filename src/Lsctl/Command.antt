-- ===== src/Lsctl/Command.antt =====
-- cmd/lsctl/internal/command/root.go: the commands of lsctl as functions on a back end and its tables,
-- what they print, their errors and the exit code. What cobra parses is their arguments.
mod Tests
pub mod Format
pub mod Write
pub mod Read
pub mod Absence
pub mod Preview
use lite_settings.Base.{ℕ, Bool, true, false, List, [], ◌∷◌, if◌then◌else◌, Result, ok, err}
use lite_settings.Base.Int.{ℤ}
use lite_settings.Base.Text.{Text, text, text_eq}
use lite_settings.Store.Validate.{Change}
use lite_settings.Store.Tables.{Tables}
use lite_settings.Server.Handlers.{ApiConfig}
use lite_settings.Server.Entries.{ConfigDetail, Version}
use lite_settings.Lsctl.Backend.{BackendError, err_not_found, Backend}

-- What a cell of a table shows; the column widths, `HumanSize`, `LocalTime` and `OneLine` only lay it
-- out.
pub data Cell : Type 0 where
  cell : Text → Cell
  size_cell time_cell number_cell : ℕ → Cell
  line_cell : Text → ℕ → Cell

-- The structs of cmd/lsctl/internal/render/render.go that are printed as JSON.
pub record DryRunOutput : Type 0 where
  pub key : Text
  pub format : Text
  pub exists : Bool
  pub changed : Bool
  pub diff : Text

pub record DiffOutput : Type 0 where
  pub key : Text
  pub from : Text
  pub to : Text
  pub identical : Bool
  pub diff : Text

pub record WriteOutput : Type 0 where
  pub key : Text
  pub action : Text
  pub format : Text
  pub version : ℕ
  pub revision : ℕ

pub data Json : Type 0 where
  json_detail : ConfigDetail → Json
  json_version : Version → Json
  json_list : List ApiConfig → ℕ → Json
  json_history : Text → List Version → Json
  json_diff : DiffOutput → Json
  json_dry_run : DryRunOutput → Json
  json_write : WriteOutput → Json

-- A write to standard output or to standard error.
pub data Print : Type 0 where
  out err_out : Text → Print
  out_json err_json : Json → Print
  out_table : List (List Cell) → Print

-- The errors of the arguments, those of the back end, and that of a version that is not there, which
-- wraps `ErrNotFound`.
pub data CommandError : Type 0 where
  bad_output two_backends no_backend bad_driver two_values no_value bad_version bad_target :
      CommandError
  bad_format unreadable : Text → CommandError
  failed : BackendError → CommandError
  no_version : Text → ℤ → Text → CommandError

abbrev pub Run : Type 0
Run = Tables × List Print × Result CommandError (Unit {0})

pub record Root : Type 0 where
  pub server : Text
  pub dsn : Text
  pub author : Text
  pub output : Text

abbrev pub out_raw : Text
out_raw = text "raw"

abbrev pub out_json_format : Text
out_json_format = text "json"

abbrev pub out_table_format : Text
out_table_format = text "table"

unfoldable pub valid_output : Text → Bool
valid_output s =
    if text_eq s []
    then true
    else if text_eq s out_table_format
    then true
    else if text_eq s out_json_format
    then true
    else text_eq s out_raw

unfoldable pub pick : Root → Text → Text
pick r def = if text_eq r.output [] then def else r.output

abbrev pub is_json : Root → Text → Bool
is_json r def = text_eq (pick r def) out_json_format

unfoldable pub change : Root → Text → Change
change r comment = record { author = r.author; comment = comment }

-- `backend`: the HTTP back end, or what `OpenDB` makes of the DSN.
unfoldable pub backend :
    (Text → Backend) → (Text → Result CommandError Backend) → Root → Result CommandError Backend
backend open_http open_db r =
    if text_eq r.server []
    then (if text_eq r.dsn [] then err no_backend else open_db r.dsn)
    else if text_eq r.dsn []
    then ok (open_http r.server)
    else err two_backends

abbrev with_backend : Result CommandError Backend → (Backend → Tables → Run) → Tables → Run
with_backend (err x) run t = (t, [], err x)
with_backend (ok be) run t = run be t

-- `bind`, without the deadline of the context.
unfoldable pub bind : Root → Result CommandError Backend → (Backend → Tables → Run) → Tables → Run
bind r be run t = if valid_output r.output then with_backend be run t else (t, [], err bad_output)

-- `errors.Is(err, backend.ErrNotFound)`.
abbrev pub is_absence : CommandError → Bool
is_absence (failed err_not_found) = true
is_absence (no_version key v available) = true
is_absence _ = false

abbrev pub exit_error : ℕ
exit_error = 1

abbrev pub exit_not_found : ℕ
exit_not_found = 4

-- `Execute`.
unfoldable pub exit_code : Run → ℕ
exit_code (t, prints, ok done) = 0
exit_code (t, prints, err x) = if is_absence x then exit_not_found else exit_error

abbrev pub fails : Tables → CommandError → Run
fails t x = (t, [], err x)

abbrev pub prints : Tables → List Print → Run
prints t ps = (t, ps, ok tt)
