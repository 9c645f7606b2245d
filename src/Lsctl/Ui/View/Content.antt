-- ===== src/Lsctl/Ui/View/Content.antt =====
-- The contents of the three panes as lines.
use lite_settings.Base.{
  ℕ, zero, suc, ◌-◌, ◌*◌, ◌/◌, Bool, true, false, not, ◌&&◌, ◌||◌, List, [], ◌∷◌, ◌++◌, Option, leb,
  ltb, ◌==◌, if◌then◌else◌, length, map,
}
use lite_settings.Base.Decimal.{itoa}
use lite_settings.Base.Text.{Text, text, text_eq}
use lite_settings.Store.Tables.{Op, set, delete, rollback}
use lite_settings.Server.Entries.{Version}
use lite_settings.Lsctl.Render.{human_size}
use lite_settings.Lsctl.Ui.{
  dim_style, selected_style, mark_style, UiLine, plain, Model, KeyRow, Pane, pane_keys, pane_value,
  pane_history, mode_filter, loading,
}
use lite_settings.Lsctl.Ui.Lines.{spaces, value_lines}
use lite_settings.Lsctl.Ui.Scroll.{clamp, flat}

-- What the screen needs that the state does not hold: the clock, the day of an old time and the time
-- in the local zone, and what the back end calls itself.
pub record Clock : Type 0 where
  pub now : ℕ
  pub local_day : ℕ → Text
  pub local_time : ℕ → Text
  pub describe : Option Text

abbrev pub ui_min_width : ℕ
ui_min_width = 60

abbrev pub ui_min_height : ℕ
ui_min_height = 12

unfoldable pub column_widths : Model → ℕ × ℕ
column_widths m = (clamp (m.w * 28 / 100) 18 34, clamp (m.w * 26 / 100) 18 30)

-- The first row of a pane of h lines. An offset below zero is clamped to 0, where the subtraction
-- stays.
unfoldable pub window : ℕ → ℕ → ℕ → ℕ
window cur n h = if h == 0 || leb n h then 0 else clamp (cur - h / 2) 0 (n - h)

-- The lines of the rows from `start`, at most `h`; `at` is the position of the list's head.
unfoldable pub windowed : {A : Type 0} → (ℕ → A → UiLine) → ℕ → ℕ → ℕ → List A → List UiLine
windowed line start h at [] = []
windowed line start zero at (r ∷ rs) = []
windowed line start (suc h) at (r ∷ rs) =
    let shown = line at r ∷ windowed line start h (suc at) rs in
    let skipped = windowed line start (suc h) (suc at) rs in if leb start at then shown else skipped

unfoldable pub filter_tag : Model → Text
filter_tag m = elim m.mode [
  | mode_filter ↦ text "  /" ++ (flat m.filter ++ text "▏")
  | _ ↦ (if text_eq (flat m.filter) [] then [] else text "  /" ++ flat m.filter)
]

unfoldable pub value_title : Model → Text
value_title m =
    if m.has_detail
    then text "value  " ++ (m.detail.format ++ (text "  " ++ human_size (length m.detail.value)))
    else text "value"

abbrev pub is_focus : Pane → Pane → Bool
is_focus pane_keys pane_keys = true
is_focus pane_value pane_value = true
is_focus pane_history pane_history = true
is_focus _ _ = false

abbrev pub dim : Text → UiLine
dim s = record { text = s; style = dim_style }

unfoldable pub key_line : Model → ℕ → KeyRow → UiLine
key_line m i r =
    if r.header
    then dim r.label
    else if i == m.cur && is_focus m.focus pane_keys
    then record { text = text "> " ++ r.label; style = selected_style }
    else if i == m.cur
    then record { text = text "> " ++ r.label; style = mark_style }
    else plain (text "  " ++ r.label)

abbrev pub no_keys : Model → UiLine
no_keys m =
    if m.loading_keys
    then dim loading
    else if not (text_eq (flat m.filter) [])
    then dim (text "No matches for " ++ flat m.filter)
    else dim (text "No configs yet")

abbrev pub key_lines : Model → ℕ → List KeyRow → List UiLine
key_lines m h [] = no_keys m ∷ []
key_lines m h (r ∷ rs) = windowed (key_line m) (window m.cur (length (r ∷ rs)) h) h 0 (r ∷ rs)

unfoldable pub keys_content : Model → ℕ → List UiLine
unfolding key_line window windowed
keys_content m h = key_lines m h m.rows

unfoldable pub value_content : Model → List UiLine
value_content m =
    if m.has_detail
    then map plain (value_lines m.detail.value)
    else if m.loading_detail
    then dim loading ∷ []
    else dim (text "← Select a config with j/k") ∷ []

-- `relTime`, of times in seconds; the zero time is 0.
unfoldable pub rel_time : Clock → ℕ → Text
rel_time c t =
    let d = c.now - t in
    if t == 0
    then text "-"
    else if ltb d 60
    then text "just now"
    else if ltb d 3_600
    then itoa (d / 60) ++ text "m ago"
    else if ltb d 86_400
    then itoa (d / 3_600) ++ text "h ago"
    else if ltb d 2_592_000
    then itoa (d / 86_400) ++ text "d ago"
    else c.local_day t

-- `%-4d` and `%-9s`.
abbrev pub padded : ℕ → Text → Text
padded n s = s ++ spaces (n - length s)

abbrev pub op_name : Op → Text
op_name set = text "set"
op_name delete = text "delete"
op_name rollback = text "rollback"

unfoldable pub version_text : Clock → ℕ → Version → Text
unfolding rel_time
version_text c i e =
    (if i == 0 then text "•" else text " ")
    ++ (text "v"
        ++ (padded 4 (itoa e.version)
            ++ (text " " ++ (padded 9 (rel_time c e.created_at) ++ (text " " ++ op_name e.op)))))

unfoldable pub version_line : Clock → Model → ℕ → Version → UiLine
unfolding version_text
version_line c m i e =
    if i == m.hcur && is_focus m.focus pane_history
    then record { text = version_text c i e; style = selected_style }
    else if i == m.hcur
    then record { text = version_text c i e; style = mark_style }
    else plain (version_text c i e)

abbrev pub version_lines : Clock → Model → ℕ → List Version → List UiLine
version_lines c m h [] = dim (text "No history") ∷ []
version_lines c m h (v ∷ vs) =
    windowed (version_line c m) (window m.hcur (length (v ∷ vs)) h) h 0 (v ∷ vs)

unfoldable pub history_content : Clock → Model → ℕ → List UiLine
unfolding version_line window windowed
history_content c m h = if m.has_detail then version_lines c m h m.history else []
