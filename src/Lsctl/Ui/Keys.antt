-- ===== src/Lsctl/Ui/Keys.antt =====
-- What a key does in each mode: `browseKey`, `filterKey` and `overlayKey` of
-- cmd/lsctl/internal/ui/model.go.
use lite_settings.Base.{
  Bool, false, ◌||◌, List, [], ◌∷◌, ◌++◌, Option, none, some, if◌then◌else◌, length,
}
use lite_settings.Base.Text.{Text, text, text_eq}
use lite_settings.Lsctl.Ui.{
  Model, Pane, pane_keys, pane_value, pane_history, mode_browse, mode_filter, Pending, KeyType,
  key_ctrl_c, key_esc, key_enter, key_backspace, key_space, key_runes, key_other, KeyMsg, nothing,
  quit, write_cmd, batch, Next, refreshing,
}
use lite_settings.Lsctl.Ui.Rows.{selected_key}
use lite_settings.Lsctl.Ui.Lines.{help_lines}
use lite_settings.Lsctl.Ui.Scroll.{
  forth, back, shifted, clamp_scroll, load_keys, load_detail, rebuild, move, jump,
}
use lite_settings.Lsctl.Ui.Edit.{Desk, start_edit}
use lite_settings.Lsctl.Ui.Overlay.{open_overlay, close_overlay, told, show_diff, ask_rollback}

abbrev pub next_pane : Pane → Pane
next_pane pane_keys = pane_value
next_pane pane_value = pane_history
next_pane pane_history = pane_keys

abbrev pub previous_pane : Pane → Pane
previous_pane pane_keys = pane_history
previous_pane pane_value = pane_keys
previous_pane pane_history = pane_value

-- The cases of the `switch` of `browseKey`.
pub data BrowseKey : Type 0 where
  browse_quit browse_help browse_next browse_previous browse_filter browse_esc browse_refresh
        browse_down browse_up browse_home browse_end browse_edit browse_diff browse_enter
        browse_other :
      BrowseKey

abbrev pub one_of : Text → List Text → Bool
one_of s [] = false
one_of s (t ∷ ts) = text_eq s t || one_of s ts

unfoldable pub browse_key_of : Text → BrowseKey
browse_key_of s =
    if text_eq s (text "q")
    then browse_quit
    else if text_eq s (text "?")
    then browse_help
    else if one_of s (text "tab" ∷ text "l" ∷ text "right" ∷ [])
    then browse_next
    else if one_of s (text "shift+tab" ∷ text "h" ∷ text "left" ∷ [])
    then browse_previous
    else if text_eq s (text "/")
    then browse_filter
    else if text_eq s (text "esc")
    then browse_esc
    else if text_eq s (text "r")
    then browse_refresh
    else if one_of s (text "j" ∷ text "down" ∷ [])
    then browse_down
    else if one_of s (text "k" ∷ text "up" ∷ [])
    then browse_up
    else if one_of s (text "g" ∷ text "home" ∷ [])
    then browse_home
    else if one_of s (text "G" ∷ text "end" ∷ [])
    then browse_end
    else if text_eq s (text "e")
    then browse_edit
    else if text_eq s (text "d")
    then browse_diff
    else if text_eq s (text "enter")
    then browse_enter
    else browse_other

-- `tea.Batch` of the two loads, the keys' first.
unfoldable pub load_both : Text → Model → Next
load_both k m = let (m₁, c₁) = load_keys m in let (m₂, c₂) = load_detail k m₁ in (m₂, batch c₁ c₂)

unfoldable pub refresh : Text → Model → Next
unfolding load_both
refresh [] m = load_keys m
refresh (c ∷ k) m = load_both (c ∷ k) m

unfoldable pub clear_filter : List Text → Model → Next
clear_filter [] m = (told [] m, nothing)
clear_filter (r ∷ rs) m = rebuild (record m { filter = [] })

-- A handler that panics has no result.
abbrev pub quietly : Option Model → Option Next
quietly none = none
quietly (some m) = some (m, nothing)

unfoldable pub browse_enter_key : Pane → Model → Option Next
browse_enter_key pane_history m = quietly (ask_rollback m)
browse_enter_key _ m = some (record m { focus = pane_history }, nothing)

unfoldable pub browse_key : Desk → BrowseKey → Model → Option Next
unfolding refresh clear_filter browse_enter_key
browse_key d browse_quit m = some (m, quit)
browse_key d browse_help m = some (open_overlay (text "Keys") help_lines m, nothing)
browse_key d browse_next m = some (record m { focus = next_pane m.focus }, nothing)
browse_key d browse_previous m = some (record m { focus = previous_pane m.focus }, nothing)
browse_key d browse_filter m = some (record m { mode = mode_filter }, nothing)
browse_key d browse_esc m = some (clear_filter m.filter m)
browse_key d browse_refresh m = some (refresh (selected_key m) (told refreshing m))
browse_key d browse_down m = some (move forth m)
browse_key d browse_up m = some (move back m)
browse_key d browse_home m = some (jump back m)
browse_key d browse_end m = some (jump forth m)
browse_key d browse_edit m = some (start_edit d m)
browse_key d browse_diff m = quietly (show_diff m)
browse_key d browse_enter m = browse_enter_key m.focus m
browse_key d browse_other m = some (m, nothing)

-- The runes but the last; none if there is no rune.
abbrev pub without_last : List Text → Option (List Text)
without_last [] = none
without_last (r ∷ []) = some []
without_last (r ∷ s ∷ rs) = elim (without_last (s ∷ rs)) [ none ↦ none | some f ↦ some (r ∷ f) ]

unfoldable pub erase_rune : Option (List Text) → Model → Next
erase_rune none m = (m, nothing)
erase_rune (some f) m = rebuild (record m { filter = f })

unfoldable pub leave_filter : List Text → Model → Next
leave_filter [] m = (m, nothing)
leave_filter (r ∷ rs) m = rebuild (record m { filter = [] })

unfoldable pub filter_typed : KeyType → List Text → Model → Next
unfolding erase_rune leave_filter
filter_typed key_esc runes m = leave_filter m.filter (record m { mode = mode_browse })
filter_typed key_enter runes m = (record m { mode = mode_browse }, nothing)
filter_typed key_backspace runes m = erase_rune (without_last m.filter) m
filter_typed key_space runes m = rebuild (record m { filter = m.filter ++ (text " " ∷ []) })
filter_typed key_runes runes m = rebuild (record m { filter = m.filter ++ runes })
filter_typed key_ctrl_c runes m = (m, nothing)
filter_typed key_other runes m = (m, nothing)

unfoldable pub filter_key : KeyMsg → Model → Next
unfolding filter_typed
filter_key k m = filter_typed k.type k.runes m

-- The cases of the `switch` of `overlayKey`.
pub data OverlayKey : Type 0 where
  overlay_yes overlay_no overlay_down overlay_up overlay_home overlay_end overlay_other : OverlayKey

unfoldable pub overlay_key_of : Text → OverlayKey
overlay_key_of s =
    if one_of s (text "y" ∷ text "Y" ∷ [])
    then overlay_yes
    else if one_of s (text "esc" ∷ text "q" ∷ text "n" ∷ text "N" ∷ [])
    then overlay_no
    else if one_of s (text "j" ∷ text "down" ∷ [])
    then overlay_down
    else if one_of s (text "k" ∷ text "up" ∷ [])
    then overlay_up
    else if one_of s (text "g" ∷ text "home" ∷ [])
    then overlay_home
    else if one_of s (text "G" ∷ text "end" ∷ [])
    then overlay_end
    else overlay_other

unfoldable pub confirm : Option Pending → Model → Next
confirm none m = (m, nothing)
confirm (some p) m = (told (text "Saving…") (close_overlay m), write_cmd p)

unfoldable pub cancel : Option Pending → Model → Model
cancel none m = close_overlay m
cancel (some p) m = close_overlay (told (text "Canceled; no changes saved") m)

unfoldable pub overlay_key : OverlayKey → Model → Next
unfolding confirm cancel
overlay_key overlay_yes m = confirm m.pend m
overlay_key overlay_no m = (cancel m.pend m, nothing)
overlay_key overlay_down m = (clamp_scroll (record m { ooff = shifted forth m.ooff }), nothing)
overlay_key overlay_up m = (clamp_scroll (record m { ooff = shifted back m.ooff }), nothing)
overlay_key overlay_home m = (clamp_scroll (record m { ooff = 0 }), nothing)
overlay_key overlay_end m = (clamp_scroll (record m { ooff = length m.overlay_lines }), nothing)
overlay_key overlay_other m = (clamp_scroll m, nothing)
