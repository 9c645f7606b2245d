-- ===== src/Lsctl/Ui/Safety/Keys.antt =====
-- What each key does keeps the invariant, and no key makes the program panic.
use lite_settings.Base.{
  ℕ, ◌-◌, ◌≤◌, ◌≡◌, ◌≢◌, refl, false, ◌||◌, List, [], ◌∷◌, Option, none, some, inl, inr, arith,
  length, Bool-cases, by_if, Result-cases, not, Result, ok, err,
}
use lite_settings.Base.Text.{Text}
use lite_settings.Server.Entries.{Version}
use lite_settings.Lsctl.Ui.{
  Model, Pending, UiMode, mode_browse, mode_filter, mode_overlay, Pane, pane_keys, pane_value,
  pane_history, KeyType, key_ctrl_c, key_esc, key_enter, key_backspace, key_space, key_runes,
  key_other, KeyMsg, Next, refreshing,
}
use lite_settings.Lsctl.Ui.Rows.{selected_key}
use lite_settings.Lsctl.Ui.Scroll.{forth, back, inner_h, clamp_scroll, rebuild}
use lite_settings.Lsctl.Ui.Edit.{Desk, start_edit, edit_with, editor_cmd, write_temp}
use lite_settings.Lsctl.Ui.Overlay.{
  close_overlay, told, version_at, no_history, compare_with, show_diff, rollback_to, rollback_title,
  propose_rollback, ask_rollback, save_edit, propose_edit, after_edit,
}
use lite_settings.Lsctl.Ui.Keys.{
  BrowseKey, browse_quit, browse_help, browse_next, browse_previous, browse_filter, browse_esc,
  browse_refresh, browse_down, browse_up, browse_home, browse_end, browse_edit, browse_diff,
  browse_enter, browse_other, browse_key_of, clear_filter, quietly, browse_enter_key, browse_key,
  without_last, erase_rune, leave_filter, filter_typed, filter_key, OverlayKey, overlay_yes,
  overlay_no, overlay_down, overlay_up, overlay_home, overlay_end, overlay_other, overlay_key_of,
  confirm, cancel, overlay_key,
}
use lite_settings.Lsctl.Ui.Update.{by_mode, is_ctrl_c, on_key}
use lite_settings.Lsctl.Ui.Safety.{Sound, Kept}
use lite_settings.Lsctl.Ui.Safety.Moves.{clamp_scroll-Sound, rebuild-Sound, move-Sound, jump-Sound}
use lite_settings.Lsctl.Ui.Safety.Steps.{
  open_overlay-Sound, close_overlay-Sound, told-Sound, failed-Sound, focus-Sound, refresh-Sound,
  Announced-browse, get_elem?-le,
}

compare_with-Sound :
    (h : Version) (m : Model) → m.mode ≢ mode_overlay → Sound m → Sound (compare_with h m)
unfolding compare_with
compare_with-Sound h m browsing s = by_if Sound _ _ _ (told-Sound _ m s) (
    open_overlay-Sound _ _ m s.listed s.shown s.in_view
      (Announced-browse m.pend m.mode m.overlay_title mode_overlay _ browsing s.announced))

-- The cursor of the history is never past its end.
pub version_at-some :
    (m : Model)
    → no_history m.history ≡ false
    → m.hcur ≤ length m.history - 1
    → (v : Version) × (version_at m ≡ some v)
version_at-some m e le = version_of m.history refl e le
  where
    version_of :
        (hs : List Version)
        → m.history ≡ hs
        → no_history hs ≡ false
        → m.hcur ≤ length hs - 1
        → (v : Version) × (version_at m ≡ some v)
    version_of [] p e le = cc
    version_of (h ∷ hs) p e le = rw p (get_elem?-le h hs m.hcur (omega arith))

show_diff-Kept : (m : Model) → m.mode ≢ mode_overlay → Sound m → Kept (quietly (show_diff m))
unfolding show_diff
show_diff-Kept m browsing s =
    by_if (λ (o : Option Model). Kept (quietly o)) (not m.has_detail) _ _ (told-Sound _ m s)
      (elim (Bool-cases (no_history m.history)) [
        | inl e ↦ rw e (told-Sound _ m s)
        | inr e ↦
            let (v, at) = version_at-some m e s.in_view.0 in
            rw (e, at) (compare_with-Sound v m browsing s)
      ])

propose_rollback-Sound : (h : Version) (m : Model) → Sound m → Sound (propose_rollback h m)
unfolding propose_rollback rollback_to rollback_title selected_key inner_h
propose_rollback-Sound h m s = by_if Sound _ _ _ (told-Sound _ m s) (
    open_overlay-Sound _ _ (record m { pend = some (rollback_to m.detail.key h) }) s.listed s.shown
      s.in_view (refl, refl))

ask_rollback-Kept : (m : Model) → Sound m → Kept (quietly (ask_rollback m))
unfolding ask_rollback
ask_rollback-Kept m s = elim (Bool-cases (not m.has_detail || no_history m.history)) [
  | inl e ↦ rw e (told-Sound _ m s)
  | inr e ↦
      let (v, at) = version_at-some m (ground (arith, e)) s.in_view.0 in
      rw (e, at) (propose_rollback-Sound v m s)
]

propose_edit-Sound :
    (key format value : Text) (m : Model) → Sound m → Sound (propose_edit key format value m)
unfolding propose_edit save_edit selected_key inner_h
propose_edit-Sound key format value m s = by_if Sound _ _ _ (told-Sound _ m s) (
    open_overlay-Sound _ _ (record m { pend = some (save_edit key value format) }) s.listed s.shown
      s.in_view (refl, refl))

pub after_edit-Sound :
    (key : Text) (r : Result Text (Text × Text)) (m : Model) → Sound m → Sound (after_edit key r m)
unfolding after_edit
after_edit-Sound key (err e) m s = failed-Sound e m s
after_edit-Sound key (ok (format, value)) m s =
    by_if Sound _ _ _ (told-Sound _ m s) (propose_edit-Sound key format value m s)

opened-Sound : (d : Desk) (ed : List Text) (m : Model) → Sound m → Sound (edit_with d ed m).0
unfolding edit_with
opened-Sound d [] m s = told-Sound _ m s
opened-Sound d (p ∷ args) m s =
    elim (Result-cases (write_temp d m.detail.key m.detail.format m.detail.value)) [
      | inl (e, q) ↦ rw q (failed-Sound e m s)
      | inr (path, q) ↦ rw q s
    ]

start_edit-Sound : (d : Desk) (m : Model) → Sound m → Sound (start_edit d m).0
unfolding start_edit
start_edit-Sound d m s =
    by_if (λ (n : Next). Sound n.0) m.has_detail _ _ (opened-Sound d (editor_cmd d) m s)
      (told-Sound _ m s)

clear_filter-Sound : (f : List Text) (m : Model) → Sound m → Sound (clear_filter f m).0
unfolding clear_filter selected_key inner_h
clear_filter-Sound [] m s = told-Sound [] m s
clear_filter-Sound (r ∷ rs) m s =
    rebuild-Sound (record m { filter = [] }) s.shown s.in_view s.announced

browse_enter_key-Kept : (p : Pane) (m : Model) → Sound m → Kept (browse_enter_key p m)
unfolding browse_enter_key
browse_enter_key-Kept pane_keys m s = focus-Sound pane_history m s
browse_enter_key-Kept pane_value m s = focus-Sound pane_history m s
browse_enter_key-Kept pane_history m s = ask_rollback-Kept m s

mode-Sound :
    (mode : UiMode) (m : Model) → m.mode ≢ mode_overlay → Sound m → Sound (record m { mode = mode })
unfolding selected_key inner_h
mode-Sound mode m browsing s = record {
  listed = s.listed;
  shown = s.shown;
  in_view = s.in_view;
  announced =
      Announced-browse m.pend m.mode m.overlay_title mode m.overlay_title browsing s.announced;
}

browse_key-Kept :
    (d : Desk) (k : BrowseKey) (m : Model)
    → m.mode ≢ mode_overlay
    → Sound m
    → Kept (browse_key d k m)
unfolding browse_key selected_key
browse_key-Kept d browse_quit m browsing s = s
browse_key-Kept d browse_help m browsing s =
    open_overlay-Sound _ _ m s.listed s.shown s.in_view
      (Announced-browse m.pend m.mode m.overlay_title mode_overlay _ browsing s.announced)
browse_key-Kept d browse_next m browsing s = focus-Sound _ m s
browse_key-Kept d browse_previous m browsing s = focus-Sound _ m s
browse_key-Kept d browse_filter m browsing s = mode-Sound mode_filter m browsing s
browse_key-Kept d browse_esc m browsing s = clear_filter-Sound m.filter m s
browse_key-Kept d browse_refresh m browsing s =
    refresh-Sound (selected_key m) (told refreshing m) refl (told-Sound refreshing m s)
browse_key-Kept d browse_down m browsing s = move-Sound forth m s
browse_key-Kept d browse_up m browsing s = move-Sound back m s
browse_key-Kept d browse_home m browsing s = jump-Sound back m s
browse_key-Kept d browse_end m browsing s = jump-Sound forth m s
browse_key-Kept d browse_edit m browsing s = start_edit-Sound d m s
browse_key-Kept d browse_diff m browsing s = show_diff-Kept m browsing s
browse_key-Kept d browse_enter m browsing s = browse_enter_key-Kept m.focus m s
browse_key-Kept d browse_other m browsing s = s

filter-Sound : (f : List Text) (m : Model) → Sound m → Sound (rebuild (record m { filter = f })).0
unfolding selected_key inner_h
filter-Sound f m s = rebuild-Sound (record m { filter = f }) s.shown s.in_view s.announced

leave_filter-Sound : (f : List Text) (m : Model) → Sound m → Sound (leave_filter f m).0
unfolding leave_filter
leave_filter-Sound [] m s = s
leave_filter-Sound (r ∷ rs) m s = filter-Sound [] m s

erase_rune-Sound : (f : Option (List Text)) (m : Model) → Sound m → Sound (erase_rune f m).0
unfolding erase_rune
erase_rune-Sound none m s = s
erase_rune-Sound (some f) m s = filter-Sound f m s

filter_typed-Sound :
    (t : KeyType) (runes : List Text) (m : Model)
    → m.mode ≢ mode_overlay
    → Sound m
    → Sound (filter_typed t runes m).0
unfolding filter_typed
filter_typed-Sound key_esc runes m typing s =
    leave_filter-Sound m.filter (record m { mode = mode_browse })
      (mode-Sound mode_browse m typing s)
filter_typed-Sound key_enter runes m typing s = mode-Sound mode_browse m typing s
filter_typed-Sound key_backspace runes m typing s = erase_rune-Sound (without_last m.filter) m s
filter_typed-Sound key_space runes m typing s = filter-Sound _ m s
filter_typed-Sound key_runes runes m typing s = filter-Sound _ m s
filter_typed-Sound key_ctrl_c runes m typing s = s
filter_typed-Sound key_other runes m typing s = s

confirm-Sound : (p : Option Pending) (m : Model) → Sound m → Sound (confirm p m).0
unfolding confirm
confirm-Sound none m s = s
confirm-Sound (some p) m s = told-Sound _ (close_overlay m) (close_overlay-Sound m s)

cancel-Sound : (p : Option Pending) (m : Model) → Sound m → Sound (cancel p m)
unfolding cancel
cancel-Sound none m s = close_overlay-Sound m s
cancel-Sound (some p) m s = close_overlay-Sound (told _ m) (told-Sound _ m s)

scrolled-Sound : (o : ℕ) (m : Model) → Sound m → Sound (clamp_scroll (record m { ooff = o }))
unfolding selected_key
scrolled-Sound o m s = clamp_scroll-Sound (record m { ooff = o }) s.listed s.shown s.announced

overlay_key-Sound : (k : OverlayKey) (m : Model) → Sound m → Sound (overlay_key k m).0
unfolding overlay_key
overlay_key-Sound overlay_yes m s = confirm-Sound m.pend m s
overlay_key-Sound overlay_no m s = cancel-Sound m.pend m s
overlay_key-Sound overlay_down m s = scrolled-Sound _ m s
overlay_key-Sound overlay_up m s = scrolled-Sound _ m s
overlay_key-Sound overlay_home m s = scrolled-Sound _ m s
overlay_key-Sound overlay_end m s = scrolled-Sound _ m s
overlay_key-Sound overlay_other m s = scrolled-Sound m.ooff m s

by_mode-Kept :
    (d : Desk) (k : KeyMsg) (mode : UiMode) (m : Model)
    → m.mode ≡ mode
    → Sound m
    → Kept (by_mode d k mode m)
unfolding filter_key
by_mode-Kept d k mode_filter m e s = filter_typed-Sound k.type k.runes m (λ h. cc) s
by_mode-Kept d k mode_overlay m e s = overlay_key-Sound (overlay_key_of k.name) m s
by_mode-Kept d k mode_browse m e s = browse_key-Kept d (browse_key_of k.name) m (λ h. cc) s

pub on_key-Kept : (d : Desk) (k : KeyMsg) (m : Model) → Sound m → Kept (on_key d k m)
unfolding on_key
on_key-Kept d k m s = by_if Kept (is_ctrl_c k.type) _ _ s (by_mode-Kept d k m.mode m refl s)
