-- ===== src/Lsctl/Ui/Safety/Messages.antt =====
-- Every message keeps the invariant, and so does every sequence of messages.
use lite_settings.Lsctl.Ui.Rows.Matching.{Matches, row_keys, build_rows-Matches}
use lite_settings.Base.{sym, subst}
use lite_settings.Lsctl.Ui.Scroll.{flat}
use lite_settings.Base.{
  ℕ, ◌≡◌, refl, ◌∙◌, false, ◌&&◌, List, [], ◌∷◌, Option, none, some, inl, inr, arith, Bool-cases,
  by_if, All, Result, ok, err, ◌==◌,
}
use lite_settings.Base.Text.{Text, text_eq, text_eq_iff}
use lite_settings.Server.Handlers.{ApiConfig}
use lite_settings.Server.Entries.{ApiWriteResult}
use lite_settings.Lsctl.Ui.{
  Model, new, Cmd, Loaded, Msg, window_size_msg, keys_msg, detail_msg, write_msg, edited_msg,
  key_msg, Next,
}
use lite_settings.Lsctl.Ui.Rows.{selected_key, build_rows, rows_after}
use lite_settings.Lsctl.Ui.Scroll.{inner_h, load_keys, rebuild}
use lite_settings.Lsctl.Ui.Edit.{Desk}
use lite_settings.Lsctl.Ui.Overlay.{told}
use lite_settings.Lsctl.Ui.Update.{on_keys, on_detail, on_line, written, on_write, update, run}
use lite_settings.Lsctl.Ui.Safety.{Sound, Kept, Genuine}
use lite_settings.Lsctl.Ui.Safety.Moves.{clamp_scroll-Sound, rebuild-Sound}
use lite_settings.Lsctl.Ui.Safety.Steps.{told-Sound, failed-Sound, load_keys-Sound, load_both-Sound}
use lite_settings.Lsctl.Ui.Safety.Keys.{after_edit-Sound, on_key-Kept}

on_keys-Sound : (r : Result Text (List ApiConfig)) (m : Model) → Sound m → Sound (on_keys r m).0
unfolding on_keys selected_key inner_h
on_keys-Sound (err e) m s = record {
  listed = s.listed;
  shown = s.shown;
  in_view = s.in_view;
  announced = s.announced;
}
on_keys-Sound (ok cs) m s =
    let m₁ = record m { loading_keys = false; err_msg = []; configs = cs } in
    let rebuilt = rebuild-Sound m₁ s.shown s.in_view s.announced in
    by_if Sound _ _ _ (told-Sound [] (rebuild m₁).0 rebuilt) rebuilt

on_detail-Sound :
    (seq : ℕ) (key : Text) (r : Result Text Loaded) (m : Model)
    → key ≡ m.detail_key
    → Genuine (detail_msg seq key r)
    → Sound m
    → Sound (on_detail r m)
unfolding on_detail selected_key inner_h
on_detail-Sound seq key (err e) m same true_key s = record {
  listed = s.listed;
  shown = (s.shown.0, λ h. cc);
  in_view = s.in_view;
  announced = s.announced;
}
on_detail-Sound seq key (ok (d, h, none)) m same true_key s = record {
  listed = s.listed;
  shown = (s.shown.0, λ h. true_key ∙ same);
  in_view = (omega arith, omega arith, s.in_view.2);
  announced = s.announced;
}
on_detail-Sound seq key (ok (d, h, some e)) m same true_key s = record {
  listed = s.listed;
  shown = (s.shown.0, λ h. true_key ∙ same);
  in_view = (omega arith, omega arith, s.in_view.2);
  announced = s.announced;
}

wrote-Sound :
    (t : Text) (ws : List Text) (m : Model)
    → Sound m
    → Sound (record m { err_msg = []; status = t; writes = ws })
unfolding selected_key inner_h
wrote-Sound t ws m s = record {
  listed = s.listed;
  shown = s.shown;
  in_view = s.in_view;
  announced = s.announced;
}

on_write-Sound :
    (action key : Text) (r : Result Text ApiWriteResult) (m : Model)
    → Sound m
    → Sound (on_write action key r m).0
unfolding on_write selected_key
on_write-Sound action key (err e) m s = failed-Sound e (told [] m) (told-Sound [] m s)
on_write-Sound action key (ok r) m s =
    let m₁ = on_line (written action key r) m in
    let s₁ = wrote-Sound (written action key r) (m₁.writes) m s in
    elim (Bool-cases (text_eq key (selected_key m))) [
      | inl e ↦
          rw e (load_both-Sound key m₁ (ground (arith, e, text_eq_iff key (selected_key m))) s₁)
      | inr e ↦ rw e (load_keys-Sound m₁ s₁)
    ]

-- A message that is genuine does not make the program panic, and keeps the invariant.
pub update-Kept : (d : Desk) (msg : Msg) (m : Model) → Genuine msg → Sound m → Kept (update d msg m)
unfolding update selected_key
update-Kept d (window_size_msg w h) m g s =
    clamp_scroll-Sound (record m { w = w; h = h }) s.listed s.shown s.announced
update-Kept d (keys_msg seq r) m g s = by_if (λ (n : Next). Sound n.0) _ _ _ (on_keys-Sound r m s) s
update-Kept d (detail_msg seq key r) m g s =
    elim (Bool-cases (seq == m.detail_seq && text_eq key m.detail_key)) [
      | inl e ↦
          rw e (on_detail-Sound seq key r m (ground (arith, e, text_eq_iff key m.detail_key)) g s)
      | inr e ↦ rw e s
    ]
update-Kept d (write_msg action key r) m g s = on_write-Sound action key r m s
update-Kept d (edited_msg key r) m g s = after_edit-Sound key r m s
update-Kept d (key_msg k) m g s = on_key-Kept d k m s

pub new-Sound : (author : Text) (prefixes : List Text) → Sound (load_keys (new author prefixes)).0
unfolding load_keys new selected_key inner_h build_rows rows_after
new-Sound author prefixes = record {
  listed = (refl, (refl, refl));
  shown = (refl, λ h. cc);
  in_view = (omega arith, omega arith, omega arith);
  announced = tt;
}

abbrev pub Runs : List (Desk × Msg) → Model → Type 0
Runs events m =
    (last : Model) × (cs : List Cmd) × (run events m ≡ some (last, cs))
    × Matches (flat last.filter) last.configs (row_keys last.rows)
    × Sound last

Sound-Matches : (m : Model) → Sound m → Matches (flat m.filter) m.configs (row_keys m.rows)
Sound-Matches m s =
    subst (λ rows. Matches (flat m.filter) m.configs (row_keys rows)) (sym s.listed.0)
      (build_rows-Matches m.configs (flat m.filter))

update-result :
    (d : Desk) (msg : Msg) (m : Model)
    → Genuine msg
    → Sound m
    → (m₁ : Model) × (c : Cmd) × (update d msg m ≡ some (m₁, c)) × Sound m₁
update-result d msg m g s = result_of (update d msg m) refl (update-Kept d msg m g s)
  where
    result_of :
        (o : Option Next)
        → update d msg m ≡ o
        → Kept o
        → (m₁ : Model) × (c : Cmd) × (update d msg m ≡ some (m₁, c)) × Sound m₁
    result_of none e k = absurd k
    result_of (some (m₁, c)) e k = (m₁, c, e, k)

run-step :
    (d : Desk) (msg : Msg) (events : List (Desk × Msg)) (m m₁ m₂ : Model) (c : Cmd) (cs : List Cmd)
    → update d msg m ≡ some (m₁, c)
    → run events m₁ ≡ some (m₂, cs)
    → run ((d, msg) ∷ events) m ≡ some (m₂, c ∷ cs)
unfolding run
run-step d msg events m m₁ m₂ c cs e e' = rw (e, e') refl

run-Runs :
    (events : List (Desk × Msg)) (m : Model)
    → All (λ e. Genuine e.1) events
    → Sound m
    → Runs events m
unfolding run
run-Runs [] m g s = (m, [], refl, Sound-Matches m s, s)
run-Runs ((d, msg) ∷ events) m g s =
    let (m₁, c, e, s₁) = update-result d msg m g.0 s in
    let (m₂, cs, e', matches, s₂) = run-Runs events m₁ g.1 s₁ in
    (m₂, c ∷ cs, run-step d msg events m m₁ m₂ c cs e e', matches, s₂)

-- From New on, every sequence of messages, in which an answer with a detail has the detail of
-- the key that it was asked for, is handled with no index out of range, and leaves a sound
-- state: the keys of the rows are, in order, those of the configs that contain the filter, the
-- cursor is on a row with a key or the list is empty, the detail asked for and the detail shown are
-- the selected key's, every offset is within its list, and an overlay is open while a write waits,
-- with the title "Save" and the key, or "Roll back", the key, "to" and the version.
pub run-Sound :
    (author : Text) (prefixes : List Text) (events : List (Desk × Msg))
    → All (λ e. Genuine e.1) events
    → Runs events (load_keys (new author prefixes)).0
run-Sound author prefixes events g =
    run-Runs events (load_keys (new author prefixes)).0 g (new-Sound author prefixes)
