-- ===== src/Lsctl/Ui/Scroll.antt =====
-- The cursors and offsets of the panes, and what the selection of a key loads: `clampScroll`,
-- `rebuild`, `syncDetail`, `move`, `jump` and `moveKeys`.
use lite_settings.Base.{
  ℕ, ◌+◌, ◌-◌, min, max, true, false, ◌&&◌, ◌||◌, List, [], ◌∷◌, ◌++◌, Option, none, some, leb, ltb,
  if◌then◌else◌, length,
}
use lite_settings.Base.Text.{Text, text_eq}
use lite_settings.Lsctl.Ui.{
  Model, nothing, load_keys_cmd, load_detail_cmd, Next, no_detail, Pane, pane_keys, pane_value,
  pane_history, KeyRow,
}
use lite_settings.Lsctl.Ui.Rows.{
  build_rows, row_of, first_key_row, last_key_row, seek_up, seek_down, selected_key,
}
use lite_settings.Lsctl.Ui.Lines.{value_lines}

abbrev pub flat : List Text → Text
flat [] = []
flat (r ∷ rs) = r ++ flat rs

-- An upper bound below zero is 0 here: with `lo` 0 the result is the same.
abbrev pub clamp : ℕ → ℕ → ℕ → ℕ
clamp v lo hi = if ltb hi lo then lo else min (max v lo) hi

unfoldable pub inner_h : Model → ℕ
inner_h m = max (m.h - 5) 1

unfoldable pub clamp_scroll : Model → Model
unfolding inner_h
clamp_scroll m = record m {
  hcur = clamp m.hcur 0 (length m.history - 1);
  voff = clamp m.voff 0 (length (value_lines m.detail.value) - inner_h m);
  ooff = clamp m.ooff 0 (length m.overlay_lines - inner_h m);
  cur = clamp m.cur 0 (length m.rows - 1);
}

unfoldable pub load_keys : Model → Next
load_keys m =
    (record m { keys_seq = m.keys_seq + 1; loading_keys = true }, load_keys_cmd (m.keys_seq + 1))

unfoldable pub load_detail : Text → Model → Next
load_detail key m = (
  record m { detail_seq = m.detail_seq + 1; detail_key = key; loading_detail = true },
  load_detail_cmd (m.detail_seq + 1) key,
)

abbrev pub cleared : Model → Model
cleared m = record m { hcur = 0; voff = 0; has_detail = false; detail = no_detail; history = [] }

-- The end of `syncDetail`, for the selected key.
unfoldable pub reload : Text → Model → Next
unfolding load_detail
reload [] m =
    (record m { detail_seq = m.detail_seq + 1; detail_key = []; loading_detail = false }, nothing)
reload (c ∷ k) m = load_detail (c ∷ k) m

unfoldable pub sync_detail : Text → Model → Next
unfolding reload
sync_detail prev m =
    let k = selected_key m in
    if text_eq k prev && (m.has_detail || text_eq k []) then (m, nothing) else reload k (cleared m)

abbrev pub or_first : List KeyRow → Option ℕ → ℕ
or_first rows none = first_key_row rows
or_first rows (some i) = i

-- The rows of the configs and the filter, with the cursor on the key `prev` if it still has one.
unfoldable pub rebuilt : Text → Model → Model
rebuilt prev m =
    let rows = build_rows m.configs (flat m.filter) in
    record m { rows = rows; cur = or_first rows (row_of prev rows) }

unfoldable pub rebuild : Model → Next
unfolding rebuilt sync_detail
rebuild m = sync_detail (selected_key m) (rebuilt (selected_key m) m)

-- The `d` of the code is 1 or -1. A step back from 0 is clamped to 0, where the subtraction stays.
pub data Way : Type 0 where
  forth back : Way

abbrev pub shifted : Way → ℕ → ℕ
shifted forth n = n + 1
shifted back n = n - 1

-- The row that the loop of `moveKeys` stops at.
unfoldable pub next_row : Way → List KeyRow → ℕ → Option ℕ
next_row forth rows cur = seek_down (cur + 1) 0 rows
next_row back rows cur = if leb cur (length rows) then seek_up rows cur else none

unfoldable pub move_to : Option ℕ → Model → Next
unfolding sync_detail
move_to none m = (m, nothing)
move_to (some i) m = sync_detail (selected_key m) (record m { cur = i })

unfoldable pub move_keys : Way → Model → Next
unfolding next_row move_to
move_keys d m = move_to (next_row d m.rows m.cur) m

unfoldable pub move_in : Pane → Way → Model → Next
unfolding move_keys clamp_scroll
move_in pane_keys d m = move_keys d m
move_in pane_value d m = (clamp_scroll (record m { voff = shifted d m.voff }), nothing)
move_in pane_history d m = (clamp_scroll (record m { hcur = shifted d m.hcur }), nothing)

unfoldable pub move : Way → Model → Next
unfolding move_in
move d m = move_in m.focus d m

abbrev pub end_row : Way → List KeyRow → ℕ
end_row forth rows = last_key_row rows
end_row back rows = first_key_row rows

abbrev pub end_of : Way → ℕ → ℕ
end_of forth n = n
end_of back n = 0

unfoldable pub jump_in : Pane → Way → Model → Next
unfolding move_to clamp_scroll
jump_in pane_keys d m = move_to (some (end_row d m.rows)) m
jump_in pane_value d m =
    (clamp_scroll (record m { voff = end_of d (length (value_lines m.detail.value)) }), nothing)
jump_in pane_history d m = (clamp_scroll (record m { hcur = end_of d (length m.history) }), nothing)

unfoldable pub jump : Way → Model → Next
unfolding jump_in
jump d m = jump_in m.focus d m
