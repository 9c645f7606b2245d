-- ===== src/Lsctl/Command/Write.antt =====
-- cmd/lsctl/internal/command/write.go: set with its dry run, rm and rollback.
use lite_settings.Base.{
  ℕ, zero, suc, Bool, true, false, not, ◌||◌, List, [], ◌∷◌, ◌++◌, Option, none, some,
  if◌then◌else◌, Result, ok, err,
}
use lite_settings.Base.Int.{ℤ, pos, negsuc}
use lite_settings.Base.Decimal.{itoa}
use lite_settings.Base.Text.{Text, text, text_eq}
use lite_settings.Store.Tables.{Tables}
use lite_settings.Server.Entries.{ConfigDetail, ApiWriteResult}
use lite_settings.Lsctl.Diff.Hunks.{unified_diff}
use lite_settings.Lsctl.Backend.{BackendError, err_not_found, Written, Backend}
use lite_settings.Lsctl.Command.{
  Root, Run, CommandError, failed, bad_format, unreadable, two_values, no_value, bad_target, Print,
  out, err_out, out_json, err_json, json_dry_run, json_write, out_table_format, is_json, change,
  fails, prints,
}
use lite_settings.Lsctl.Command.Format.{infer_format, valid_format}

abbrev pub diff_context : ℕ
diff_context = 3

-- The system: standard input, and the file of a path; an error is its text.
pub record Files : Type 0 where
  pub stdin : Result Text Text
  pub read_file : Text → Result Text Text

abbrev read_as : Text → Result Text Text → Result CommandError (Text × Text)
read_as src (ok value) = ok (value, src)
read_as src (err e) = err (unreadable e)

-- `readValue`, for the flag and the argument after the key, if there is one.
unfoldable pub read_value : Files → Text → Option Text → Result CommandError (Text × Text)
read_value f [] none = err no_value
read_value f [] (some value) = ok (value, [])
read_value f (c ∷ file) (some value) = err two_values
read_value f (c ∷ file) none =
    if text_eq (c ∷ file) (text "-")
    then read_as [] f.stdin
    else read_as (c ∷ file) (f.read_file (c ∷ file))

-- What a dry run compares with: the stored config, none if there is none.
unfoldable pub stored : Result BackendError ConfigDetail → Result BackendError (Option ConfigDetail)
stored (ok c) = ok (some c)
stored (err err_not_found) = ok none
stored (err e) = err e

abbrev pub current_value : Option ConfigDetail → Text
current_value none = []
current_value (some c) = c.value

abbrev pub exists : Option ConfigDetail → Bool
exists none = false
exists (some c) = true

abbrev pub format_changes : Text → Option ConfigDetail → Bool
format_changes format none = false
format_changes format (some c) = not (text_eq c.format format)

abbrev current_label : Text → Option ConfigDetail → Text
current_label key none = key ++ text "@(missing)"
current_label key (some c) = key ++ text "@current"

unfoldable pub preview_diff : Text → Text → Option ConfigDetail → Text
preview_diff key value c =
    unified_diff (current_value c) value (current_label key c) (key ++ text "@new") diff_context

abbrev current_format : Option ConfigDetail → Text
current_format none = []
current_format (some c) = c.format

abbrev unchanged_note : Text → Text → Option ConfigDetail → Text
unchanged_note key format c =
    if format_changes format c
    then key
      ++ (text " value is unchanged but format changes: "
          ++ (current_format c
              ++ (text " → " ++ (format ++ text "; set will still create a new version\n"))))
    else key
      ++ text
          " value and format are unchanged; set will still create a new version and increment the revision\n"

-- The end of `previewSet`.
unfoldable pub preview : Root → Text → Text → Text → Option ConfigDetail → List Print
unfolding preview_diff
preview r key value format c =
    let d = preview_diff key value c in
    if is_json r out_table_format
    then out_json (
        json_dry_run (record {
          key = key;
          format = format;
          exists = exists c;
          changed = not (text_eq d []) || format_changes format c;
          diff = d;
        }))
      ∷ []
    else if text_eq d []
    then err_out (unchanged_note key format c) ∷ []
    else out d
      ∷ err_out (
          text "\n(--dry-run; not written; remove the flag to apply, format="
          ++ (format ++ text ")\n"))
      ∷ []

abbrev previewed :
    Root → Text → Text → Text → Result BackendError (Option ConfigDetail) → Tables → Run
previewed r key value format (err e) t = fails t (failed e)
previewed r key value format (ok c) t = prints t (preview r key value format c)

unfoldable pub preview_set : Root → Backend → Text → Text → Text → Tables → Run
unfolding preview stored
preview_set r be key value format t = previewed r key value format (stored (be.get key t)) t

unfoldable pub report_write : Root → Text → Text → Text → ApiWriteResult → List Print
report_write r action key format res =
    if is_json r out_table_format
    then err_json (
        json_write (record {
          key = key;
          action = action;
          format = format;
          version = res.version;
          revision = res.revision;
        }))
      ∷ []
    else err_out (
        action
        ++ (text " "
            ++ (key
                ++ (text ": version="
                    ++ (itoa res.version
                        ++ (text " revision=" ++ (itoa res.revision ++ text "\n")))))))
      ∷ []

-- A write, and what follows where it succeeds.
abbrev pub reported : Written → (ApiWriteResult → List Print) → Run
reported (t, err e) report = fails t (failed e)
reported (t, ok res) report = prints t (report res)

-- The flags of set, as they are parsed.
pub record SetFlags : Type 0 where
  pub file : Text
  pub format : Text
  pub comment : Text
  pub dry_run : Bool

abbrev pub chosen_format : Text → Text → Text → Text
chosen_format flag src value = if text_eq flag [] then infer_format src value else flag

unfoldable pub set_value : Root → Backend → SetFlags → Text → Text → Text → Tables → Run
unfolding preview_set report_write
set_value r be f key value format t =
    let previewed = preview_set r be key value format t in
    let written =
      reported (be.set key value format (change r f.comment) t)
        (report_write r (text "wrote") key format) in
    if not (valid_format format)
    then fails t (bad_format format)
    else if f.dry_run
    then previewed
    else written

abbrev pub set_read :
    Root → Backend → SetFlags → Text → Result CommandError (Text × Text) → Tables → Run
set_read r be f key (err x) t = fails t x
set_read r be f key (ok (value, src)) t =
    set_value r be f key value (chosen_format f.format src value) t

unfoldable pub set_run : Files → Root → SetFlags → Text → Option Text → Backend → Tables → Run
unfolding read_value set_value
set_run files r f key arg be t = set_read r be f key (read_value files f.file arg) t

unfoldable pub rm_run : Root → Text → Text → Backend → Tables → Run
unfolding report_write
rm_run r comment key be t = reported (be.delete key (change r comment) t) (λ res.
    report_write r (text "deleted") key [] res
    ++ (if is_json r out_table_format
        then []
        else err_out (
            text "Undo: lsctl rollback "
            ++ (key ++ (text " --to " ++ (itoa res.version ++ text "\n"))))
          ∷ []))

unfoldable pub rollback_run : Root → ℤ → Text → Text → Backend → Tables → Run
unfolding report_write
rollback_run r (negsuc n) comment key be t = fails t bad_target
rollback_run r (pos zero) comment key be t = fails t bad_target
rollback_run r (pos (suc n)) comment key be t =
    reported (be.rollback key (pos (suc n)) (change r comment) t)
      (report_write r (text "rolled back to v" ++ itoa (suc n)) key [])
