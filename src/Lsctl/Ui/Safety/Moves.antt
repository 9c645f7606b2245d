-- ===== src/Lsctl/Ui/Safety/Moves.antt =====
-- The handlers that move a cursor, rebuild the rows or ask for a detail keep the invariant.
use lite_settings.Base.{
  ℕ, ◌+◌, ◌-◌, ◌≤◌, ◌≡◌, refl, sym, subst, ◌∙◌, true, [], ◌∷◌, ◌&&◌, ◌||◌, inl, inr, some, arith,
  length, Bool-cases, Option-cases,
}
use lite_settings.Base.Text.{Text, text_eq, text_eq_iff}
use lite_settings.Lsctl.Ui.{Model, Pane, pane_keys, pane_value, pane_history}
use lite_settings.Lsctl.Ui.Rows.{build_rows, row_of, selected_key, is_key_at}
use lite_settings.Lsctl.Ui.Rows.Cursor.{
  OnKey, OnKey-le, is_key_at-OnKey, row_of-OnKey, first_key_row-OnKey, last_key_row-OnKey,
  seek_up-is_key_at, seek_down-at,
}
use lite_settings.Lsctl.Ui.Lines.{value_lines}
use lite_settings.Lsctl.Ui.Scroll.{
  move_in, jump_in, clamp, flat, inner_h, clamp_scroll, load_detail, cleared, reload, sync_detail,
  rebuilt, rebuild, Way, forth, back, shifted, next_row, move_to, move_keys, move, jump, end_row,
  end_of,
}
use lite_settings.Lsctl.Ui.Safety.{Listed, Shown, InView, Announced, Sound}

clamp-le : (v hi : ℕ) → clamp v 0 hi ≤ hi
clamp-le v hi = ground arith

clamp_id : (v hi : ℕ) → v ≤ hi → clamp v 0 hi ≡ v
clamp_id v hi h = ground arith

-- Clamping puts every offset in its range, and leaves the cursor on its key.
pub clamp_scroll-Sound :
    (m : Model)
    → Listed m
    → Shown m
    → Announced m.pend m.mode m.overlay_title
    → Sound (clamp_scroll m)
unfolding clamp_scroll inner_h selected_key
clamp_scroll-Sound m listed shown announced =
    let same : clamp m.cur 0 (length m.rows - 1) ≡ m.cur =
      clamp_id m.cur (length m.rows - 1) (OnKey-le m.rows m.cur listed.1) in
    record {
      listed = (listed.0, rw same listed.1);
      shown = (rw same shown.0, shown.1);
      in_view = (
        clamp-le m.hcur (length m.history - 1),
        clamp-le m.voff (length (value_lines m.detail.value) - inner_h m),
        clamp-le m.ooff (length m.overlay_lines - inner_h m),
      );
      announced = announced;
    }

-- What the detail that is shown has to do with a key.
abbrev About : Text → Model → Type 0
About k m = (m.detail_key ≡ k) × (m.has_detail ≡ true → m.detail.key ≡ m.detail_key)

reload-Sound :
    (k : Text) (m : Model)
    → k ≡ selected_key m
    → Listed m
    → InView m
    → Announced m.pend m.mode m.overlay_title
    → Sound (reload k (cleared m)).0
unfolding reload load_detail inner_h selected_key
reload-Sound [] m e listed view announced = record {
  listed = listed;
  shown = (e, λ h. cc);
  in_view = (omega arith, omega arith, view.2);
  announced = announced;
}
reload-Sound (c ∷ k) m e listed view announced = record {
  listed = listed;
  shown = (e, λ h. cc);
  in_view = (omega arith, omega arith, view.2);
  announced = announced;
}

pub sync_detail-Sound :
    (prev : Text) (m : Model)
    → Listed m
    → About prev m
    → InView m
    → Announced m.pend m.mode m.overlay_title
    → Sound (sync_detail prev m).0
unfolding sync_detail
sync_detail-Sound prev m listed about view announced =
    let k = selected_key m in
    elim (Bool-cases (text_eq k prev && (m.has_detail || text_eq k []))) [
      | inl e ↦
          let same : k ≡ prev = ground (arith, e, text_eq_iff k prev) in
          rw e (record {
            listed = listed;
            shown = (about.0 ∙ sym same, about.1);
            in_view = view;
            announced = announced;
          })
      | inr e ↦ rw e (reload-Sound k m refl listed view announced)
    ]

rebuilt-Listed : (prev : Text) (m : Model) → Listed (rebuilt prev m)
unfolding rebuilt
rebuilt-Listed prev m =
    let rows = build_rows m.configs (flat m.filter) in
    (
      refl,
      elim (Option-cases (row_of prev rows)) [
        | inl e ↦ rw e (first_key_row-OnKey m.configs (flat m.filter))
        | inr (i, e) ↦ rw e (row_of-OnKey prev rows i e)
      ],
    )

-- The rows may be those of another filter, or of other configs.
pub rebuild-Sound :
    (m : Model) → Shown m → InView m → Announced m.pend m.mode m.overlay_title → Sound (rebuild m).0
unfolding rebuild rebuilt inner_h
rebuild-Sound m shown view announced =
    sync_detail-Sound (selected_key m) (rebuilt (selected_key m) m)
      (rebuilt-Listed (selected_key m) m) shown view announced

pub move_to-Sound : (i : ℕ) (m : Model) → OnKey m.rows i → Sound m → Sound (move_to (some i) m).0
unfolding move_to inner_h
move_to-Sound i m on s =
    sync_detail-Sound (selected_key m) (record m { cur = i }) (s.listed.0, on) s.shown s.in_view
      s.announced

next_row-OnKey : (d : Way) (m : Model) (i : ℕ) → next_row d m.rows m.cur ≡ some i → OnKey m.rows i
unfolding next_row
next_row-OnKey forth m i h =
    let same : i - 0 ≡ i = omega arith in
    is_key_at-OnKey m.rows i
      (subst (λ j. is_key_at m.rows j ≡ true) same (seek_down-at (m.cur + 1) 0 m.rows i h).1)
next_row-OnKey back m i h =
    is_key_at-OnKey m.rows i (seek_up-is_key_at m.rows m.cur i (ground arith))

pub move_keys-Sound : (d : Way) (m : Model) → Sound m → Sound (move_keys d m).0
unfolding move_keys move_to
move_keys-Sound d m s = elim (Option-cases (next_row d m.rows m.cur)) [
  | inl e ↦ rw e s
  | inr (i, e) ↦ rw e (move_to-Sound i m (next_row-OnKey d m i e) s)
]

end_row-OnKey : (d : Way) (m : Model) → Sound m → OnKey m.rows (end_row d m.rows)
end_row-OnKey forth m s = last_key_row-OnKey m.rows m.cur s.listed.1
end_row-OnKey back m s = rw s.listed.0 (first_key_row-OnKey m.configs (flat m.filter))

move_in-Sound : (p : Pane) (d : Way) (m : Model) → Sound m → Sound (move_in p d m).0
unfolding move_in selected_key
move_in-Sound pane_keys d m s = move_keys-Sound d m s
move_in-Sound pane_value d m s =
    clamp_scroll-Sound (record m { voff = shifted d m.voff }) s.listed s.shown s.announced
move_in-Sound pane_history d m s =
    clamp_scroll-Sound (record m { hcur = shifted d m.hcur }) s.listed s.shown s.announced

pub move-Sound : (d : Way) (m : Model) → Sound m → Sound (move d m).0
unfolding move
move-Sound d m s = move_in-Sound m.focus d m s

jump_in-Sound : (p : Pane) (d : Way) (m : Model) → Sound m → Sound (jump_in p d m).0
unfolding jump_in selected_key
jump_in-Sound pane_keys d m s = move_to-Sound (end_row d m.rows) m (end_row-OnKey d m s) s
jump_in-Sound pane_value d m s =
    clamp_scroll-Sound (record m { voff = end_of d (length (value_lines m.detail.value)) }) s.listed
      s.shown s.announced
jump_in-Sound pane_history d m s =
    clamp_scroll-Sound (record m { hcur = end_of d (length m.history) }) s.listed s.shown
      s.announced

pub jump-Sound : (d : Way) (m : Model) → Sound m → Sound (jump d m).0
unfolding jump
jump-Sound d m s = jump_in-Sound m.focus d m s
