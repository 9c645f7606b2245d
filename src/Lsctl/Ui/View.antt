-- ===== src/Lsctl/Ui/View.antt =====
-- cmd/lsctl/internal/ui/view.go: the screen, whose lines View joins. The widths of runes and the colours are those of
-- go-runewidth and Lip Gloss.
pub mod Box
pub mod Content
pub mod Cursor
use lite_settings.Base.{
  ℕ, zero, suc, ◌+◌, ◌-◌, ◌*◌, ◌/◌, max, Bool, true, false, not, ◌&&◌, ◌||◌, List, [], ◌∷◌, ◌++◌,
  Option, none, some, leb, ltb, ◌==◌, if◌then◌else◌, length, get_elem?, map,
}
use lite_settings.Base.Decimal.{itoa}
use lite_settings.Base.Text.{Text, text, text_eq}
use lite_settings.Store.Tables.{Op, set, delete, rollback}
use lite_settings.Server.Entries.{Version}
use lite_settings.Lsctl.Render.{one_line, human_size}
use lite_settings.Lsctl.Ui.{
  Style, no_style, dim_style, selected_style, mark_style, error_style, warn_style, UiLine, plain,
  Model, KeyRow, Pane, pane_keys, pane_value, pane_history, UiMode, mode_browse, mode_filter,
  mode_overlay, Pending, loading,
}
use lite_settings.Lsctl.Ui.Lines.{spaces, value_lines}
use lite_settings.Lsctl.Ui.Scroll.{clamp, inner_h, flat}
use lite_settings.Lsctl.Ui.View.Box.{Terminal, fit, fit_line, box, join_cols, styled}
use lite_settings.Lsctl.Ui.View.Content.{
  Clock, ui_min_width, ui_min_height, column_widths, window, windowed, filter_tag, value_title,
  is_focus, dim, key_line, no_keys, key_lines, keys_content, value_content, rel_time, padded,
  op_name, version_text, version_line, version_lines, history_content,
}

abbrev joined_by : Text → List Text → Text
joined_by sep [] = []
joined_by sep (s ∷ []) = s
joined_by sep (s ∷ t ∷ ts) = s ++ (sep ++ joined_by sep (t ∷ ts))

abbrev described : Option Text → Text
described none = []
described (some d) = text "  " ++ d

abbrev after_prefixes : List Text → Text → Text
after_prefixes [] items = items
after_prefixes (p ∷ ps) items = joined_by (text " ") (p ∷ ps) ++ (text "  " ++ items)

unfoldable pub header : Terminal → Clock → Model → Text
header term c m =
    let left = text "lsctl ui" ++ described c.describe in
    let items = itoa (length m.configs) ++ text " items" in
    let prefixed = after_prefixes m.prefixes items in
    let right =
      if m.loading_keys || m.loading_detail then text "Loading  " ++ prefixed else prefixed in
    let used = term.width left + term.width right in
    styled term dim_style
      (if ltb used m.w then left ++ (spaces (m.w - used) ++ right) else fit term left m.w)

abbrev detail_status : Terminal → Clock → Model → Text
detail_status term c m =
    if m.has_detail
    then styled term dim_style (
        fit term
          (m.detail.key
            ++ (text "  updated by "
                ++ (m.detail.updated_by ++ (text " at " ++ c.local_time m.detail.updated_at))))
          m.w)
    else spaces m.w

abbrev plain_status : Terminal → Clock → Model → Text
plain_status term c m =
    if text_eq m.status [] then detail_status term c m else fit term (one_line m.status m.w) m.w

abbrev pend_status : Terminal → Clock → Model → Option Pending → Text
pend_status term c m none = plain_status term c m
pend_status term c m (some p) =
    styled term warn_style (fit term (text "Equivalent command: " ++ one_line p.equiv m.w) m.w)

unfoldable pub status_line : Terminal → Clock → Model → Text
status_line term c m =
    if text_eq m.err_msg []
    then pend_status term c m m.pend
    else styled term error_style (fit term (text "✗ " ++ one_line m.err_msg (m.w - 2)) m.w)

abbrev browse_hint : Pane → Text
browse_hint pane_history =
    text "enter rollback   d diff   e edit   / filter   r refresh   ? help   q quit"
browse_hint _ =
    text
      "tab switch pane   e edit   d diff   enter history   / filter   r refresh   ? help   q quit"

abbrev hint : UiMode → Option Pending → Pane → Text
hint mode_filter p f = text "type to filter   enter apply   esc clear"
hint mode_overlay (some p) f = text "y save   n/esc cancel   j/k scroll diff"
hint mode_browse (some p) f = text "y save   n/esc cancel   j/k scroll diff"
hint mode_overlay none f = text "j/k scroll   q/esc close"
hint mode_browse none f = browse_hint f

unfoldable pub hint_line : Terminal → Model → Text
hint_line term m = styled term dim_style (fit term (hint m.mode m.pend m.focus) m.w)

abbrev pub panes : Terminal → Clock → Model → List Text
panes term c m =
    let ih = inner_h m in
    let kw = (column_widths m).0 in
    let hw = (column_widths m).1 in
    join_cols (
      box term (text "keys" ++ filter_tag m) (is_focus m.focus pane_keys) kw (ih + 2)
        (keys_content m ih) 0
      ∷ box term (value_title m) (is_focus m.focus pane_value) (m.w - kw - hw) (ih + 2)
          (value_content m) m.voff
      ∷ box term (text "history") (is_focus m.focus pane_history) hw (ih + 2)
          (history_content c m ih) 0
      ∷ [])

abbrev pub is_overlay : UiMode → Bool
is_overlay mode_overlay = true
is_overlay _ = false

unfoldable pub screen_body : Terminal → Clock → Model → List Text
unfolding keys_content value_content history_content
screen_body term c m =
    if is_overlay m.mode
    then box term m.overlay_title true m.w (inner_h m + 2) m.overlay_lines m.ooff
    else panes term c m

-- A terminal that is too small shows two lines of advice.
unfoldable pub view : Terminal → Clock → Model → Text
unfolding screen_body header status_line hint_line
view term c m =
    if ltb m.w ui_min_width || ltb m.h ui_min_height
    then text "Terminal too small: need at least "
      ++ (itoa ui_min_width
          ++ (text "×"
              ++ (itoa ui_min_height
                  ++ (text ", current size "
                      ++ (itoa m.w ++ (text "×" ++ (itoa m.h ++ text "\nPress q to quit.")))))))
    else joined_by (text "\n")
        (header term c m ∷ (screen_body term c m ++ (status_line term c m ∷ hint_line term m ∷ [])))
