-- ===== src/Lsctl/Ui/Safety/Quiet.antt =====
-- The handlers that write nothing: all but the confirmation.
use lite_settings.Base.{
  ℕ, ◌≡◌, ◌⊎◌, false, ◌&&◌, ◌||◌, List, [], ◌∷◌, Option, none, some, inl, inr, by_if, Result-cases,
  Result, ok, err,
}
use lite_settings.Base.Text.{Text, text_eq}
use lite_settings.Server.Handlers.{ApiConfig}
use lite_settings.Server.Entries.{ApiWriteResult}
use lite_settings.Lsctl.Ui.{
  Model, Cmd, nothing, quit, load_keys_cmd, load_detail_cmd, write_cmd, edit_cmd, batch, Pending,
  mode_browse, Pane, pane_keys, pane_value, pane_history, KeyType, key_ctrl_c, key_esc, key_enter,
  key_backspace, key_space, key_runes, key_other, Next, refreshing,
}
use lite_settings.Lsctl.Ui.Rows.{selected_key}
use lite_settings.Lsctl.Ui.Scroll.{
  Way, forth, back, load_keys, load_detail, rebuild, reload, cleared, sync_detail, rebuilt, move_to,
  move_in, move_keys, next_row, move, jump_in, jump, end_row,
}
use lite_settings.Lsctl.Ui.Edit.{Desk, start_edit, edit_with, editor_cmd, write_temp}
use lite_settings.Lsctl.Ui.Overlay.{told, show_diff, ask_rollback}
use lite_settings.Lsctl.Ui.Keys.{
  BrowseKey, browse_quit, browse_help, browse_next, browse_previous, browse_filter, browse_esc,
  browse_refresh, browse_down, browse_up, browse_home, browse_end, browse_edit, browse_diff,
  browse_enter, browse_other, load_both, refresh, clear_filter, quietly, browse_enter_key,
  browse_key, without_last, erase_rune, leave_filter, filter_typed,
}
use lite_settings.Lsctl.Ui.Update.{on_keys, on_line, written, on_write}

-- The command writes a proposal.
abbrev pub Writes : Pending → Cmd → Type 0
Writes p (write_cmd q) = q ≡ p
Writes p (batch c₁ c₂) = Writes p c₁ ⊎ Writes p c₂
Writes p _ = ⊥

-- The command writes nothing.
abbrev pub IsQuiet : Cmd → Type 0
IsQuiet (write_cmd q) = ⊥
IsQuiet (batch c₁ c₂) = IsQuiet c₁ × IsQuiet c₂
IsQuiet _ = Unit

pub not-Writes : (p : Pending) (c : Cmd) → IsQuiet c → ¬ (Writes p c)
not-Writes p nothing q w = w
not-Writes p quit q w = w
not-Writes p (load_keys_cmd n) q w = w
not-Writes p (load_detail_cmd n k) q w = w
not-Writes p (write_cmd r) q w = q
not-Writes p (edit_cmd ed key format) q w = w
not-Writes p (batch c₁ c₂) q (inl w) = not-Writes p c₁ q.0 w
not-Writes p (batch c₁ c₂) q (inr w) = not-Writes p c₂ q.1 w

-- A handler that panics leads to no command either.
abbrev pub Quietly : Option Next → Type 0
Quietly none = Unit
Quietly (some next) = IsQuiet next.1

pub quietly-Quietly : (o : Option Model) → Quietly (quietly o)
quietly-Quietly none = tt
quietly-Quietly (some m) = tt

pub reload-IsQuiet : (k : Text) (m : Model) → IsQuiet (reload k m).1
unfolding reload load_detail
reload-IsQuiet [] m = tt
reload-IsQuiet (c ∷ k) m = tt

pub sync_detail-IsQuiet : (prev : Text) (m : Model) → IsQuiet (sync_detail prev m).1
unfolding sync_detail
sync_detail-IsQuiet prev m =
    by_if (λ (n : Next). IsQuiet n.1)
      (text_eq (selected_key m) prev && (m.has_detail || text_eq (selected_key m) [])) (m, nothing)
      (reload (selected_key m) (cleared m)) tt (reload-IsQuiet (selected_key m) (cleared m))

pub rebuild-IsQuiet : (m : Model) → IsQuiet (rebuild m).1
unfolding rebuild
rebuild-IsQuiet m = sync_detail-IsQuiet (selected_key m) (rebuilt (selected_key m) m)

pub move_to-IsQuiet : (o : Option ℕ) (m : Model) → IsQuiet (move_to o m).1
unfolding move_to
move_to-IsQuiet none m = tt
move_to-IsQuiet (some i) m = sync_detail-IsQuiet (selected_key m) (record m { cur = i })

pub move-IsQuiet : (p : Pane) (d : Way) (m : Model) → IsQuiet (move_in p d m).1
unfolding move_in move_keys
move-IsQuiet pane_keys d m = move_to-IsQuiet (next_row d m.rows m.cur) m
move-IsQuiet pane_value d m = tt
move-IsQuiet pane_history d m = tt

pub jump-IsQuiet : (p : Pane) (d : Way) (m : Model) → IsQuiet (jump_in p d m).1
unfolding jump_in
jump-IsQuiet pane_keys d m = move_to-IsQuiet (some (end_row d m.rows)) m
jump-IsQuiet pane_value d m = tt
jump-IsQuiet pane_history d m = tt

pub edit_with-IsQuiet : (d : Desk) (ed : List Text) (m : Model) → IsQuiet (edit_with d ed m).1
unfolding edit_with
edit_with-IsQuiet d [] m = tt
edit_with-IsQuiet d (p ∷ args) m =
    elim (Result-cases (write_temp d m.detail.key m.detail.format m.detail.value)) [
      | inl (e, q) ↦ rw q tt
      | inr (path, q) ↦ rw q tt
    ]

pub start_edit-IsQuiet : (d : Desk) (m : Model) → IsQuiet (start_edit d m).1
unfolding start_edit
start_edit-IsQuiet d m =
    by_if (λ (n : Next). IsQuiet n.1) m.has_detail _ _ (edit_with-IsQuiet d (editor_cmd d) m) tt

pub refresh-IsQuiet : (k : Text) (m : Model) → IsQuiet (refresh k m).1
unfolding refresh load_both load_keys load_detail
refresh-IsQuiet [] m = tt
refresh-IsQuiet (c ∷ k) m = (tt, tt)

pub clear_filter-IsQuiet : (f : List Text) (m : Model) → IsQuiet (clear_filter f m).1
unfolding clear_filter
clear_filter-IsQuiet [] m = tt
clear_filter-IsQuiet (r ∷ rs) m = rebuild-IsQuiet (record m { filter = [] })

pub enter-Quietly : (p : Pane) (m : Model) → Quietly (browse_enter_key p m)
unfolding browse_enter_key
enter-Quietly pane_keys m = tt
enter-Quietly pane_value m = tt
enter-Quietly pane_history m = quietly-Quietly (ask_rollback m)

pub browse_key-Quietly : (d : Desk) (k : BrowseKey) (m : Model) → Quietly (browse_key d k m)
unfolding browse_key move jump
browse_key-Quietly d browse_quit m = tt
browse_key-Quietly d browse_help m = tt
browse_key-Quietly d browse_next m = tt
browse_key-Quietly d browse_previous m = tt
browse_key-Quietly d browse_filter m = tt
browse_key-Quietly d browse_esc m = clear_filter-IsQuiet m.filter m
browse_key-Quietly d browse_refresh m = refresh-IsQuiet (selected_key m) (told refreshing m)
browse_key-Quietly d browse_down m = move-IsQuiet m.focus forth m
browse_key-Quietly d browse_up m = move-IsQuiet m.focus back m
browse_key-Quietly d browse_home m = jump-IsQuiet m.focus back m
browse_key-Quietly d browse_end m = jump-IsQuiet m.focus forth m
browse_key-Quietly d browse_edit m = start_edit-IsQuiet d m
browse_key-Quietly d browse_diff m = quietly-Quietly (show_diff m)
browse_key-Quietly d browse_enter m = enter-Quietly m.focus m
browse_key-Quietly d browse_other m = tt

pub leave_filter-IsQuiet : (f : List Text) (m : Model) → IsQuiet (leave_filter f m).1
unfolding leave_filter
leave_filter-IsQuiet [] m = tt
leave_filter-IsQuiet (r ∷ rs) m = rebuild-IsQuiet (record m { filter = [] })

pub erase_rune-IsQuiet : (f : Option (List Text)) (m : Model) → IsQuiet (erase_rune f m).1
unfolding erase_rune
erase_rune-IsQuiet none m = tt
erase_rune-IsQuiet (some f) m = rebuild-IsQuiet (record m { filter = f })

pub filter_typed-IsQuiet :
    (t : KeyType) (runes : List Text) (m : Model) → IsQuiet (filter_typed t runes m).1
unfolding filter_typed
filter_typed-IsQuiet key_esc runes m =
    leave_filter-IsQuiet m.filter (record m { mode = mode_browse })
filter_typed-IsQuiet key_enter runes m = tt
filter_typed-IsQuiet key_backspace runes m = erase_rune-IsQuiet (without_last m.filter) m
filter_typed-IsQuiet key_space runes m = rebuild-IsQuiet _
filter_typed-IsQuiet key_runes runes m = rebuild-IsQuiet _
filter_typed-IsQuiet key_ctrl_c runes m = tt
filter_typed-IsQuiet key_other runes m = tt

pub on_keys-IsQuiet : (r : Result Text (List ApiConfig)) (m : Model) → IsQuiet (on_keys r m).1
unfolding on_keys
on_keys-IsQuiet (err e) m = tt
on_keys-IsQuiet (ok cs) m =
    rebuild-IsQuiet (record m { loading_keys = false; err_msg = []; configs = cs })

pub on_write-IsQuiet :
    (action key : Text) (r : Result Text ApiWriteResult) (m : Model)
    → IsQuiet (on_write action key r m).1
unfolding on_write load_both load_keys load_detail
on_write-IsQuiet action key (err e) m = tt
on_write-IsQuiet action key (ok r) m =
    by_if (λ (n : Next). IsQuiet n.1) (text_eq key (selected_key m))
      (load_both key (on_line (written action key r) m))
      (load_keys (on_line (written action key r) m)) (tt, tt) tt
