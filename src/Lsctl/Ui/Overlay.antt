-- ===== src/Lsctl/Ui/Overlay.antt =====
-- The overlay: `showDiff`, `askRollback` and `afterEdit`, which open it, and the command that each
-- shows. A write waits in `pend` for its confirmation.
use lite_settings.Base.{
  ℕ, Bool, true, false, not, ◌&&◌, ◌||◌, List, [], ◌∷◌, ◌++◌, Option, none, some, ◌==◌,
  if◌then◌else◌, get_elem?, Result, ok, err,
}
use lite_settings.Base.Text.{Text, text, text_eq}
use lite_settings.Base.Decimal.{itoa}
use lite_settings.Server.Entries.{Version}
use lite_settings.Lsctl.Diff.Hunks.{unified_diff}
use lite_settings.Lsctl.Ui.{
  UiLine, Model, Pending, pend_set, pend_rollback, mode_overlay, mode_browse,
}
use lite_settings.Lsctl.Ui.Lines.{diff_lines_styled}

abbrev pub diff_context : ℕ
diff_context = 3

unfoldable pub open_overlay : Text → List UiLine → Model → Model
open_overlay title lines m = record m {
  mode = mode_overlay;
  overlay_title = title;
  overlay_lines = lines;
  ooff = 0;
}

unfoldable pub close_overlay : Model → Model
close_overlay m = record m {
  mode = mode_browse;
  overlay_title = [];
  overlay_lines = [];
  ooff = 0;
  pend = none;
}

abbrev pub told : Text → Model → Model
told s m = record m { status = s }

abbrev v_of : ℕ → Text
v_of v = text "v" ++ itoa v

unfoldable pub compare_with : Version → Model → Model
unfolding open_overlay
compare_with h m =
    let key = m.detail.key in
    let d =
      unified_diff h.value m.detail.value (key ++ (text "@v" ++ itoa h.version))
        (key ++ text "@current") diff_context in
    if text_eq d []
    then told (v_of h.version ++ text " matches the current value") m
    else open_overlay
        (text "diff  ·  equivalent command: lsctl diff " ++ (key ++ (text " " ++ itoa h.version)))
        (diff_lines_styled d) m

-- `m.history[m.hcur]`; none is the panic of an index out of range.
abbrev pub version_at : Model → Option Version
version_at m = get_elem? m.history m.hcur

abbrev pub no_history : List Version → Bool
no_history [] = true
no_history (h ∷ hs) = false

-- None is a panic.
unfoldable pub show_diff : Model → Option Model
unfolding compare_with
show_diff m =
    if not m.has_detail
    then some (told (text "Select a config first") m)
    else if no_history m.history
    then some (told (text "No history to compare") m)
    else elim (version_at m) [ none ↦ none | some h ↦ some (compare_with h m) ]

unfoldable pub rollback_to : Text → Version → Pending
rollback_to key h = record {
  kind = pend_rollback h.version;
  key = key;
  action = text "Rolled back to " ++ v_of h.version;
  comment = text "Roll back to " ++ (v_of h.version ++ text " (lsctl ui)");
  equiv = text "lsctl rollback " ++ (key ++ (text " --to " ++ itoa h.version));
}

unfoldable pub rollback_preview : Version → Model → Text
rollback_preview h m =
    unified_diff m.detail.value h.value (m.detail.key ++ text "@current")
      (m.detail.key ++ (text "@v" ++ itoa h.version)) diff_context

abbrev format_change : Text → Text → Text
format_change f g =
    text "(same value; format changes only: " ++ (f ++ (text " → " ++ (g ++ text ")\n")))

unfoldable pub rollback_title : Text → ℕ → Text
rollback_title key v = text "Roll back " ++ (key ++ (text " to " ++ v_of v))

unfoldable pub propose_rollback : Version → Model → Model
unfolding open_overlay rollback_to rollback_preview rollback_title
propose_rollback h m =
    let d = rollback_preview h m in
    if text_eq d [] && text_eq m.detail.format h.format
    then told (v_of h.version ++ text " matches the current value; no rollback needed") m
    else open_overlay (rollback_title m.detail.key h.version)
        (diff_lines_styled (if text_eq d [] then format_change m.detail.format h.format else d))
        (record m { pend = some (rollback_to m.detail.key h) })

-- None is a panic.
unfoldable pub ask_rollback : Model → Option Model
unfolding propose_rollback
ask_rollback m =
    if not m.has_detail || no_history m.history
    then some (told (text "No version to roll back to") m)
    else elim (version_at m) [ none ↦ none | some h ↦ some (propose_rollback h m) ]

-- `strings.ReplaceAll(s, "'", `'\''`)`.
unfoldable pub escape_quotes : Text → Text
escape_quotes [] = []
escape_quotes (c ∷ s) =
    let rest = escape_quotes s in if c == 39 then 39 ∷ 92 ∷ 39 ∷ 39 ∷ rest else c ∷ rest

unfoldable pub shell_quote : Text → Text
unfolding escape_quotes
shell_quote s = 39 ∷ (escape_quotes s ++ (39 ∷ []))

unfoldable pub equiv_set : Text → Text → Text → Text
unfolding shell_quote
equiv_set key value format =
    text "lsctl set " ++ (key ++ (text " " ++ (shell_quote value ++ (text " --format " ++ format))))

unfoldable pub save_edit : Text → Text → Text → Pending
unfolding equiv_set
save_edit key value format = record {
  kind = pend_set value format;
  key = key;
  action = text "Saved";
  comment = text "Edit (lsctl ui)";
  equiv = equiv_set key value format;
}

unfoldable pub edit_preview : Text → Text → Model → Text
edit_preview key value m =
    unified_diff m.detail.value value (key ++ text "@current") (key ++ text "@edited") diff_context

unfoldable pub save_title : Text → Text
save_title key = text "Save " ++ key

unfoldable pub propose_edit : Text → Text → Text → Model → Model
unfolding open_overlay save_edit edit_preview save_title
propose_edit key format value m =
    let d = edit_preview key value m in
    if text_eq d []
    then told (text "No changes; nothing saved") m
    else open_overlay (save_title key) (diff_lines_styled d)
        (record m { pend = some (save_edit key value format) })

unfoldable pub after_edit : Text → Result Text (Text × Text) → Model → Model
unfolding propose_edit
after_edit key (err e) m = record m { err_msg = e }
after_edit key (ok (format, value)) m =
    if not m.has_detail || not (text_eq key m.detail.key)
    then told (text "Selection changed; edit discarded") m
    else propose_edit key format value m
