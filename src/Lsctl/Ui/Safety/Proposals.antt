-- ===== src/Lsctl/Ui/Safety/Proposals.antt =====
-- What the interface proposes to write: always for the key under the cursor, and nothing where the
-- stored value and the proposed one have the same lines and format.
use lite_settings.Base.{
  ◌≡◌, ◌≢◌, refl, ◌⊎◌, ◌∙◌, true, false, ◌&&◌, List, [], ◌∷◌, ◌++◌, Option, none, some, inl, inr,
  arith, Bool-cases, if◌then◌else◌, ok,
}
use lite_settings.Base.Text.{Text, text, text_eq, text_eq_iff}
use lite_settings.Server.Entries.{Version}
use lite_settings.Lsctl.Ui.{Model, Pending}
use lite_settings.Lsctl.Ui.Rows.{selected_key}
use lite_settings.Lsctl.Ui.Overlay.{
  open_overlay, told, version_at, no_history, rollback_to, propose_rollback, rollback_preview,
  ask_rollback, save_edit, propose_edit, edit_preview, after_edit,
}
use lite_settings.Lsctl.Ui.Safety.{Sound}
use lite_settings.Base.Decimal.{itoa}
use lite_settings.Lsctl.Ui.Safety.Keys.{version_at-some}
use lite_settings.Base.{if◌then◌else◌}
use lite_settings.Lsctl.Ui.{pend_set, pend_rollback}
use lite_settings.Lsctl.Diff.{split_lines}
use lite_settings.Lsctl.Diff.Hunks.Patch.{split_lines-unified_diff}

-- A proposal, for the selected key, of a rollback to the version under the cursor of the history.
abbrev pub Proposes : Model → Version → Option Pending → Type 0
Proposes m h none =
    (split_lines m.detail.value ≡ split_lines h.value) × (m.detail.format ≡ h.format)
Proposes m h (some p) = (p.key ≡ selected_key m) × (p.kind ≡ pend_rollback h.version)

propose_rollback-Proposes :
    (h : Version) (m : Model)
    → Sound m
    → m.has_detail ≡ true
    → m.pend ≡ none
    → Proposes m h (propose_rollback h m).pend
unfolding propose_rollback rollback_preview rollback_to open_overlay
propose_rollback-Proposes h m s has free =
    let d = rollback_preview h m in
    elim (Bool-cases (text_eq d [] && text_eq m.detail.format h.format)) [
      | inl e ↦
          rw (e, free)
            (
              split_lines-unified_diff m.detail.value h.value (m.detail.key ++ text "@current")
                  (m.detail.key ++ (text "@v" ++ itoa h.version)) 3
                  (ground (arith, e, text_eq_iff d [])),
              ground (arith, e, text_eq_iff m.detail.format h.format),
            )
      | inr e ↦ rw e (s.shown.1 has ∙ s.shown.0, refl)
    ]

not-no_history : (hs : List Version) → hs ≢ [] → no_history hs ≡ false
not-no_history [] h = absurd (h refl)
not-no_history (v ∷ hs) h = refl

asked :
    (m : Model) (h : Version)
    → m.has_detail ≡ true
    → no_history m.history ≡ false
    → version_at m ≡ some h
    → ask_rollback m ≡ some (propose_rollback h m)
unfolding ask_rollback
asked m h has there at = simp (has, there, at) refl

-- In a sound state with a detail and a history, and nothing waiting, askRollback finds the
-- version at the cursor of the history. What waits then is a rollback of the selected key to
-- that version; nothing waits only where that version has the lines and the format of the
-- current value.
pub ask_rollback-Proposes :
    (m : Model)
    → Sound m
    → m.has_detail ≡ true
    → m.history ≢ []
    → m.pend ≡ none
    → (h : Version) × (m₁ : Model) × (version_at m ≡ some h)
      × (ask_rollback m ≡ some m₁)
      × Proposes m h m₁.pend
ask_rollback-Proposes m s has some_history free =
    let there : no_history m.history ≡ false = not-no_history m.history some_history in
    let (h, at) = version_at-some m there s.in_view.0 in
    (h, propose_rollback h m, at, asked m h has there at, propose_rollback-Proposes h m s has free)

-- An edit is proposed for the key and the value that the editor returned.
abbrev pub Saves : Model → Text → Text → Text → Option Pending → Type 0
Saves m key format value none =
    (key ≢ selected_key m) ⊎ (split_lines m.detail.value ≡ split_lines value)
Saves m key format value (some p) =
    (p.key ≡ key) × (key ≡ selected_key m) × (p.kind ≡ pend_set value format)

propose_edit-Saves :
    (m : Model) (key format value : Text)
    → key ≡ selected_key m
    → m.pend ≡ none
    → Saves m key format value (propose_edit key format value m).pend
unfolding propose_edit edit_preview save_edit open_overlay
propose_edit-Saves m key format value same free =
    let d = edit_preview key value m in
    elim (Bool-cases (text_eq d [])) [
      | inl e ↦
          rw (e, free)
            (inr (
              split_lines-unified_diff m.detail.value value (key ++ text "@current")
                (key ++ text "@edited") 3 (ground (arith, e, text_eq_iff d []))))
      | inr e ↦ rw e (refl, same, refl)
    ]

edited :
    (m : Model) (key format value : Text)
    → m.has_detail ≡ true
    → after_edit key (ok (format, value)) m ≡ (
        if text_eq key m.detail.key
        then propose_edit key format value m
        else told (text "Selection changed; edit discarded") m)
unfolding after_edit
edited m key format value has = elim (Bool-cases (text_eq key m.detail.key)) [
  | inl e ↦ simp (has, e) refl
  | inr e ↦ simp (has, e) refl
]

-- In a sound state with a detail, and nothing waiting, an edit of a key that comes back makes a
-- set of that key with the edited value and format wait, and then the key is the selected one.
-- Nothing waits only where the key is not the selected one, or the edited value has the lines of
-- the current one.
pub after_edit-Saves :
    (m : Model) (key format value : Text)
    → Sound m
    → m.has_detail ≡ true
    → m.pend ≡ none
    → Saves m key format value (after_edit key (ok (format, value)) m).pend
unfolding selected_key
after_edit-Saves m key format value s has free =
    rw (edited m key format value has) (elim (Bool-cases (text_eq key m.detail.key)) [
      | inl e ↦
          let same : key ≡ selected_key m =
            (text_eq_iff key m.detail.key).0 e ∙ s.shown.1 has ∙ s.shown.0 in
          rw e (propose_edit-Saves m key format value same free)
      | inr e ↦
          let shown : m.detail.key ≡ selected_key m = s.shown.1 has ∙ s.shown.0 in
          let other : key ≢ selected_key m =
            λ same. ground (arith, e, text_eq_iff key m.detail.key, same, shown) in
          rw (e, free) (inl other)
    ])
