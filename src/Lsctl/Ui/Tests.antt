-- ===== src/Lsctl/Ui/Tests.antt =====
-- The interface at concrete inputs, and its theorems applied there.
use lite_settings.Store.Tests.{working, any_value, once, twice}
use lite_settings.Lsctl.Backend.Tests.{wire-Routes, app-IsSegment, wire}
use lite_settings.Lsctl.Backend.Db.{db_backend}
use lite_settings.Lsctl.Backend.Http.{http_backend}
use lite_settings.Lsctl.Ui.Safety.{Genuine}
use lite_settings.Lsctl.Ui.Commands.{fetch_detail}
use lite_settings.Lsctl.Ui.Commands.Answers.{fetch_detail-Genuine}
use lite_settings.Base.{
  ℕ, ◌<◌, ◌≡◌, refl, true, false, List, [], ◌∷◌, none, some, ok, err, arith, get_elem?,
}
use lite_settings.Base.Decimal.{itoa}
use lite_settings.Base.Text.{text, text_eq}
use lite_settings.Store.Tables.{set}
use lite_settings.Server.Handlers.{ApiConfig}
use lite_settings.Server.Entries.{ConfigDetail, Version}
use lite_settings.Lsctl.Ui.{
  Model, new, KeyRow, mode_overlay, key_runes, KeyMsg, Msg, keys_msg, detail_msg, key_msg,
  write_cmd,
}
use lite_settings.Lsctl.Ui.Rows.{build_rows, rows_after, split_key, cut, filtered_out, selected_key}
use lite_settings.Lsctl.Ui.Lines.{value_lines}
use lite_settings.Lsctl.Ui.Scroll.{load_keys, inner_h}
use lite_settings.Lsctl.Ui.Edit.{Desk}
use lite_settings.Lsctl.Ui.Overlay.{
  version_at, ask_rollback, after_edit, close_overlay, told, rollback_to, rollback_title,
}
use lite_settings.Lsctl.Ui.Keys.{overlay_key, overlay_key_of, confirm}
use lite_settings.Lsctl.Ui.Update.{update, on_key}
use lite_settings.Lsctl.Ui.Safety.{Sound}
use lite_settings.Lsctl.Ui.Safety.Messages.{Runs, run-Sound}
use lite_settings.Lsctl.Ui.Safety.Writes.{Confirms, update-Writes}
use lite_settings.Lsctl.Ui.Safety.Proposals.{
  Proposes, ask_rollback-Proposes, Saves, after_edit-Saves,
}
use lite_settings.Lsctl.Ui.View.Content.{key_line, keys_content}
use lite_settings.Lsctl.Ui.View.Cursor.{keys_content-selected}

abbrev desk : Desk
desk = record {
  visual = [];
  editor = [];
  vim = none;
  vi = none;
  nano = none;
  temp_file = λ pattern value. err (text "full");
}

abbrev config : ApiConfig
config = record { key = text "app:a"; value = text "2"; format = text "raw" }

abbrev shown : ConfigDetail
shown = record {
  key = text "app:a";
  value = text "2";
  format = text "raw";
  updated_at = 7;
  updated_by = text "ann";
}

abbrev first : Version
first = record {
  version = 1;
  value = text "1";
  format = text "raw";
  op = set;
  comment = [];
  created_at = 8;
  created_by = text "ann";
}

abbrev events : List (Desk × Msg)
events =
    (desk, keys_msg 1 (ok (config ∷ [])))
    ∷ (desk, detail_msg 1 (text "app:a") (ok (shown, first ∷ [], none)))
    ∷ (desk, key_msg (record { type = key_runes; name = text "d"; runes = text "d" ∷ [] }))
    ∷ []

run-Sound_example : Runs events (load_keys (new (text "ann") [])).0
run-Sound_example = run-Sound (text "ann") [] events (tt, (refl, (tt, tt)))

-- The config is selected and its detail shown.
abbrev browsing : Model
browsing = record (new (text "ann") []) {
  configs = config ∷ [];
  rows = build_rows (config ∷ []) [];
  cur = 1;
  detail = shown;
  has_detail = true;
  detail_key = text "app:a";
  history = first ∷ [];
}

browsing-Sound : Sound browsing
unfolding new build_rows rows_after cut split_key filtered_out text_eq selected_key inner_h
    value_lines
browsing-Sound = record {
  listed = (refl, refl);
  shown = (refl, λ h. refl);
  in_view = (omega arith, omega arith, omega arith);
  announced = tt;
}

ask_rollback-Proposes_example :
    (h : Version) × (m₁ : Model) × (version_at browsing ≡ some h)
    × (ask_rollback browsing ≡ some m₁)
    × Proposes browsing h m₁.pend
unfolding new
ask_rollback-Proposes_example = ask_rollback-Proposes browsing browsing-Sound refl (λ h. cc) refl

after_edit-Saves_example :
    Saves browsing
      (text "app:a")
      (text "raw")
      (text "3")
      (after_edit (text "app:a") (ok (text "raw", text "3")) browsing).pend
unfolding new
after_edit-Saves_example =
    after_edit-Saves browsing (text "app:a") (text "raw") (text "3") browsing-Sound refl refl

-- A rollback waits for its confirmation.
abbrev asking : Model
asking = record browsing {
  mode = mode_overlay;
  overlay_title = rollback_title (text "app:a") 1;
  pend = some (rollback_to (text "app:a") first);
}

asking-Sound : Sound asking
unfolding new selected_key inner_h rollback_to rollback_title
asking-Sound = record {
  listed = browsing-Sound.listed;
  shown = browsing-Sound.shown;
  in_view = browsing-Sound.in_view;
  announced = (refl, refl);
}

abbrev yes_key : KeyMsg
yes_key = record { type = key_runes; name = text "y"; runes = text "y" ∷ [] }

abbrev saving : Model
saving = told (text "Saving…") (close_overlay asking)

update-Writes_example :
    Confirms (rollback_to (text "app:a") first) (key_msg yes_key) asking
    × (asking.overlay_title ≡ text "Roll back app:a to v1")
    × (saving.pend ≡ none)
unfolding update on_key overlay_key overlay_key_of confirm text_eq rollback_to rollback_title itoa
    new
update-Writes_example =
    update-Writes (rollback_to (text "app:a") first) desk (key_msg yes_key) asking saving
      (write_cmd (rollback_to (text "app:a") first)) asking-Sound refl refl

keys_content-selected_example :
    (r : KeyRow) × (j : ℕ) × (get_elem? browsing.rows browsing.cur ≡ some r)
    × (r.header ≡ false)
    × (j < 10)
    × (get_elem? (keys_content browsing 10) j ≡ some (key_line browsing browsing.cur r))
unfolding new build_rows rows_after cut split_key filtered_out text_eq
keys_content-selected_example =
    keys_content-selected browsing 10 browsing-Sound (λ h. cc) (omega arith)

fetch_detail-Genuine_example :
    Genuine
      (fetch_detail (λ e. text "failed") (db_backend working any_value) 1 (text "app:a") once twice)
    × Genuine (
        fetch_detail
          (λ e. text "failed")
          (http_backend wire working any_value)
          1
          (text "app:a")
          once
          twice)
fetch_detail-Genuine_example =
    fetch_detail-Genuine (λ e. text "failed") wire working any_value 1 (text "app:a") once twice
      wire-Routes app-IsSegment
