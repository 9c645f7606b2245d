-- ===== src/Lsctl/Ui/Update.antt =====
-- `Update` of cmd/lsctl/internal/ui/model.go: what a message and a key do to the state, and the
-- command that follows.
use lite_settings.Base.{
  Bool, true, false, ◌&&◌, ◌||◌, List, [], ◌∷◌, ◌++◌, Option, none, some, ◌==◌, if◌then◌else◌,
  Result, ok, err,
}
use lite_settings.Base.Text.{Text, text, text_eq}
use lite_settings.Base.Decimal.{itoa}
use lite_settings.Server.Handlers.{ApiConfig}
use lite_settings.Server.Entries.{ApiWriteResult}
use lite_settings.Lsctl.Ui.{
  Model, UiMode, mode_browse, mode_filter, mode_overlay, KeyType, key_ctrl_c, KeyMsg, Loaded, Msg,
  window_size_msg, keys_msg, detail_msg, write_msg, edited_msg, key_msg, Cmd, nothing, quit, Next,
  loading, refreshing,
}
use lite_settings.Lsctl.Ui.Rows.{selected_key}
use lite_settings.Lsctl.Ui.Scroll.{clamp_scroll, load_keys, rebuild}
use lite_settings.Lsctl.Ui.Edit.{Desk}
use lite_settings.Lsctl.Ui.Overlay.{told, after_edit}
use lite_settings.Lsctl.Ui.Keys.{
  browse_key_of, load_both, browse_key, filter_key, overlay_key_of, overlay_key,
}

abbrev pub by_mode : Desk → KeyMsg → UiMode → Model → Option Next
by_mode d k mode_filter m = some (filter_key k m)
by_mode d k mode_overlay m = some (overlay_key (overlay_key_of k.name) m)
by_mode d k mode_browse m = browse_key d (browse_key_of k.name) m

abbrev pub is_ctrl_c : KeyType → Bool
is_ctrl_c key_ctrl_c = true
is_ctrl_c _ = false

unfoldable pub on_key : Desk → KeyMsg → Model → Option Next
unfolding filter_key overlay_key browse_key
on_key d k m = if is_ctrl_c k.type then some (m, quit) else by_mode d k m.mode m

abbrev pub settled : Next → Next
settled (m, c) =
    (if text_eq m.status loading || text_eq m.status refreshing then told [] m else m, c)

unfoldable pub on_keys : Result Text (List ApiConfig) → Model → Next
on_keys (err e) m = (record m { loading_keys = false; err_msg = e }, nothing)
on_keys (ok cs) m =
    settled (rebuild (record m { loading_keys = false; err_msg = []; configs = cs }))

abbrev pub history_error : Option Text → Model → Model
history_error none m = m
history_error (some e) m = told (text "History unavailable: " ++ e) m

unfoldable pub on_detail : Result Text Loaded → Model → Model
on_detail (err e) m = record m { loading_detail = false; has_detail = false; err_msg = e }
on_detail (ok (d, h, hist_err)) m = history_error hist_err (record m {
  loading_detail = false;
  err_msg = [];
  detail = d;
  history = h;
  has_detail = true;
  hcur = 0;
  voff = 0;
})

abbrev pub written : Text → Text → ApiWriteResult → Text
written action key r =
    action
    ++ (text " "
        ++ (key
            ++ (text ": version=" ++ (itoa r.version ++ (text " revision=" ++ itoa r.revision)))))

abbrev pub on_line : Text → Model → Model
on_line line m = record m { err_msg = []; status = line; writes = m.writes ++ (line ∷ []) }

unfoldable pub on_write : Text → Text → Result Text ApiWriteResult → Model → Next
unfolding load_both
on_write action key (err e) m = (record m { err_msg = e; status = [] }, nothing)
on_write action key (ok r) m =
    let m₁ = on_line (written action key r) m in
    if text_eq key (selected_key m) then load_both key m₁ else load_keys m₁

-- `Update`; none is a panic.
unfoldable pub update : Desk → Msg → Model → Option Next
unfolding on_keys on_detail on_write on_key
update d (window_size_msg w h) m = some (clamp_scroll (record m { w = w; h = h }), nothing)
update d (keys_msg seq r) m = some (if seq == m.keys_seq then on_keys r m else (m, nothing))
update d (detail_msg seq key r) m =
    some (if seq == m.detail_seq && text_eq key m.detail_key then on_detail r m else m, nothing)
update d (write_msg action key r) m = some (on_write action key r m)
update d (edited_msg key r) m = some (after_edit key r m, nothing)
update d (key_msg k) m = on_key d k m

abbrev add_cmd : Cmd → Option (Model × List Cmd) → Option (Model × List Cmd)
add_cmd c none = none
add_cmd c (some (m, cs)) = some (m, c ∷ cs)

abbrev after : Option Next → (Model → Option (Model × List Cmd)) → Option (Model × List Cmd)
after none go_on = none
after (some (m, c)) go_on = add_cmd c (go_on m)

-- The program: messages in the order of their arrival, each with what the system gives then, and the
-- commands that they lead to.
unfoldable pub run : List (Desk × Msg) → Model → Option (Model × List Cmd)
unfolding update
run [] m = some (m, [])
run ((d, msg) ∷ events) m = after (update d msg m) (run events)
