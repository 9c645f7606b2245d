-- ===== src/Lsctl/Ui/Safety.antt =====
-- The invariant of the interface: what holds after every message, however late the answers of the
-- backend come.
pub mod Moves
pub mod Steps
pub mod Keys
pub mod Messages
pub mod Quiet
pub mod Writes
pub mod Proposals
use lite_settings.Base.{
  ℕ, ◌++◌, ◌-◌, ◌≤◌, ◌≡◌, true, List, [], Option, none, some, length, Result, ok, err,
}
use lite_settings.Base.Text.{Text, text}
use lite_settings.Lsctl.Ui.{
  Model, Pending, PendKind, pend_set, pend_rollback, UiMode, mode_overlay, Next, Msg, detail_msg,
}
use lite_settings.Lsctl.Ui.Rows.{build_rows, selected_key}
use lite_settings.Lsctl.Ui.Rows.Cursor.{OnKey}
use lite_settings.Lsctl.Ui.Lines.{value_lines}
use lite_settings.Lsctl.Ui.Scroll.{flat, inner_h}
use lite_settings.Base.Decimal.{itoa}

-- The rows show the configs that pass the filter, with the cursor on one of them.
abbrev pub Listed : Model → Type 0
Listed m = (m.rows ≡ build_rows m.configs (flat m.filter)) × OnKey m.rows m.cur

-- The detail that was asked for is the selected key's, and so is the detail on the screen.
abbrev pub Shown : Model → Type 0
Shown m = (m.detail_key ≡ selected_key m) × (m.has_detail ≡ true → m.detail.key ≡ m.detail_key)

abbrev pub InView : Model → Type 0
InView m =
    (m.hcur ≤ length m.history - 1)
    × (m.voff ≤ length (value_lines m.detail.value) - inner_h m)
    × (m.ooff ≤ length m.overlay_lines - inner_h m)

-- How the title of an overlay names a write.
abbrev pub kind_title : Text → PendKind → Text
kind_title key (pend_set value format) = text "Save " ++ key
kind_title key (pend_rollback v) = text "Roll back " ++ (key ++ (text " to v" ++ itoa v))

abbrev pub Announced : Option Pending → UiMode → Text → Type 0
Announced none mode title = Unit
Announced (some p) mode title = (mode ≡ mode_overlay) × (title ≡ kind_title p.key p.kind)

pub record Sound (m : Model) : Type 0 where
  pub listed : Listed m
  pub shown : Shown m
  pub in_view : InView m
  pub announced : Announced m.pend m.mode m.overlay_title

-- The handler does not panic, and leaves a sound state.
abbrev pub Kept : Option Next → Type 0
Kept none = ⊥
Kept (some next) = Sound next.0

-- An answer with a detail has the detail of the key that was asked for.
abbrev pub Genuine : Msg → Type 0
Genuine (detail_msg seq key (ok loaded)) = loaded.0.key ≡ key
Genuine _ = Unit
