-- ===== src/Lsctl/Command/Tests.antt =====
-- The commands at concrete inputs, and their theorems applied there.
use lite_settings.Base.{◌≡◌, ◌↔◌, refl, true, false, [], ◌∷◌, none, some, ok, err}
use lite_settings.Base.Int.{pos}
use lite_settings.Base.Text.{Text, text, text_eq}
use lite_settings.Store.Tables.{of_key, find_config, find_version}
use lite_settings.Store.Tests.{working, any_value, migrated, once, once-IsConsistent, runs}
use lite_settings.Lsctl.Backend.Db.{db_backend}
use lite_settings.Lsctl.Backend.Db
use lite_settings.Lsctl.Command.{Root, Run, out, exit_code, exit_not_found, change}
use lite_settings.Lsctl.Command.Format.{valid_format}
use lite_settings.Lsctl.Command.Write.{Files, SetFlags, read_value, set_value, set_run}
use lite_settings.Lsctl.Command.Read.{get_run}
use lite_settings.Lsctl.Command.Absence.{get_run-absence}
use lite_settings.Lsctl.Command.Preview.{Terminated, Truthful, set_run-dry_run, get_run-set_run}

abbrev root : Root
root = record { server = []; dsn = text "dsn"; author = text "ann"; output = [] }

abbrev no_files : Files
no_files = record { stdin = err (text "closed"); read_file = λ p. err (text "absent") }

abbrev flags : SetFlags
flags = record { file = []; format = text "raw"; comment = text "why"; dry_run = false }

get_run-absence_example :
    ((exit_code (get_run root (pos 0) (text "app:a") (db_backend working any_value) once)
        ≡ exit_not_found)
      ↔ (find_config (text "app:a") once.configs ≡ none))
    × ((exit_code (get_run root (pos 1) (text "app:a") (db_backend working any_value) once)
          ≡ exit_not_found)
        ↔ (find_version 1 (of_key (text "app:a") once.history) ≡ none))
unfolding runs
get_run-absence_example =
    get_run-absence working any_value root (text "app:a") 0 once refl refl refl
      (once-IsConsistent.numbered (text "app:a"))

set_run-dry_run_example :
    Truthful (db_backend working any_value) once (text "app:a") (text "2") (text "raw") (
      set_run no_files root
        (record flags { dry_run = true })
        (text "app:a")
        (some (text "2"))
        (db_backend working any_value)
        once)
unfolding read_value text_eq
set_run-dry_run_example =
    set_run-dry_run no_files root (record flags { dry_run = true }) (text "app:a") (text "2") []
      (some (text "2")) (db_backend working any_value) once refl refl

abbrev wrote : Run
wrote =
    set_run no_files root flags (text "app:a") (some (text "2")) (db_backend working any_value)
      migrated

wrote_well : wrote ≡ (wrote.0, wrote.1, ok tt)
unfolding set_run set_value runs read_value valid_format Db.set Db.write_result change
wrote_well = refl

get_run-set_run_example :
    (s : Text) × (get_run root (pos 0) (text "app:a") (db_backend working any_value) wrote.0
      ≡ (wrote.0, out s ∷ [], ok tt))
    × Terminated (text "2") s
unfolding read_value
get_run-set_run_example =
    get_run-set_run no_files root flags (text "app:a") (text "2") [] (some (text "2")) working
      working any_value migrated wrote.0 wrote.1 refl refl wrote_well refl refl
