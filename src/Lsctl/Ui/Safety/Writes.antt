-- ===== src/Lsctl/Ui/Safety/Writes.antt =====
-- Which commands a message leads to: a write only by the confirmation of the proposal on the screen.
use lite_settings.Base.{
  ◌⊎◌, inl, inr, arith, Bool-cases, ◌≡◌, refl, subst, ap, ◌∙◌, Option, none, some, by_if, ◌==◌,
}
use lite_settings.Base.Text.{Text, text, text_eq, text_eq_iff}
use lite_settings.Lsctl.Ui.{
  Model, Cmd, nothing, Pending, UiMode, mode_browse, mode_filter, mode_overlay, KeyMsg, Msg,
  window_size_msg, keys_msg, detail_msg, write_msg, edited_msg, key_msg, Next,
}
use lite_settings.Lsctl.Ui.Edit.{Desk}
use lite_settings.Lsctl.Ui.Overlay.{close_overlay}
use lite_settings.Lsctl.Ui.Keys.{
  browse_key_of, browse_key, filter_key, OverlayKey, overlay_yes, overlay_no, overlay_down,
  overlay_up, overlay_home, overlay_end, overlay_other, overlay_key_of, confirm, overlay_key,
}
use lite_settings.Lsctl.Ui.Update.{by_mode, is_ctrl_c, on_key, on_keys, on_write, update}
use lite_settings.Lsctl.Ui.Safety.{Announced, Sound, kind_title}
use lite_settings.Lsctl.Ui.Safety.Quiet.{
  Writes, not-Writes, Quietly, browse_key-Quietly, filter_typed-IsQuiet, on_keys-IsQuiet,
  on_write-IsQuiet,
}

-- The message is the key y or Y, over an overlay that proposes the write.
abbrev pub Confirms : Pending → Msg → Model → Type 0
Confirms p (key_msg k) m =
    ((k.name ≡ text "y") ⊎ (k.name ≡ text "Y")) × (m.mode ≡ mode_overlay) × (m.pend ≡ some p)
Confirms p _ m = ⊥

overlay_key_of-yes : (s : Text) → overlay_key_of s ≡ overlay_yes → (s ≡ text "y") ⊎ (s ≡ text "Y")
unfolding overlay_key_of
overlay_key_of-yes s h = elim (Bool-cases (text_eq s (text "y"))) [
  | inl e ↦ inl ((text_eq_iff s (text "y")).0 e)
  | inr e ↦ elim (Bool-cases (text_eq s (text "Y"))) [
    | inl f ↦ inr ((text_eq_iff s (text "Y")).0 f)
    | inr f ↦ absurd (ground (arith, e, f))
  ]
]

abbrev Answered : Pending → Msg → Model → Option Next → Type 0
Answered p msg m none = Unit
Answered p msg m (some (m₁, c)) = Writes p c → Confirms p msg m × (m₁.pend ≡ none)

Quietly-Answered :
    (p : Pending) (msg : Msg) (m : Model) (o : Option Next) → Quietly o → Answered p msg m o
Quietly-Answered p msg m none q = tt
Quietly-Answered p msg m (some (m₁, c)) q = λ w. absurd (not-Writes p c q w)

confirm-Answered :
    (p : Pending) (k : KeyMsg) (o : Option Pending) (m : Model)
    → overlay_key_of k.name ≡ overlay_yes
    → m.mode ≡ mode_overlay
    → m.pend ≡ o
    → Answered p (key_msg k) m (some (confirm o m))
unfolding confirm close_overlay
confirm-Answered p k none m y over e = λ w. absurd w
confirm-Answered p k (some q) m y over e =
    λ w. ((overlay_key_of-yes k.name y, over, e ∙ ap some w), refl)

overlay-Answered :
    (p : Pending) (k : KeyMsg) (o : OverlayKey) (m : Model)
    → overlay_key_of k.name ≡ o
    → m.mode ≡ mode_overlay
    → Answered p (key_msg k) m (some (overlay_key o m))
unfolding overlay_key
overlay-Answered p k overlay_yes m y over = confirm-Answered p k m.pend m y over refl
overlay-Answered p k overlay_no m y over = λ w. absurd w
overlay-Answered p k overlay_down m y over = λ w. absurd w
overlay-Answered p k overlay_up m y over = λ w. absurd w
overlay-Answered p k overlay_home m y over = λ w. absurd w
overlay-Answered p k overlay_end m y over = λ w. absurd w
overlay-Answered p k overlay_other m y over = λ w. absurd w

by_mode-Answered :
    (p : Pending) (d : Desk) (k : KeyMsg) (mode : UiMode) (m : Model)
    → m.mode ≡ mode
    → Answered p (key_msg k) m (by_mode d k mode m)
unfolding filter_key
by_mode-Answered p d k mode_filter m e =
    Quietly-Answered p (key_msg k) m (some (filter_key k m)) (filter_typed-IsQuiet k.type k.runes m)
by_mode-Answered p d k mode_overlay m e = overlay-Answered p k (overlay_key_of k.name) m refl e
by_mode-Answered p d k mode_browse m e =
    Quietly-Answered p (key_msg k) m (browse_key d (browse_key_of k.name) m)
      (browse_key-Quietly d (browse_key_of k.name) m)

update-Answered :
    (p : Pending) (d : Desk) (msg : Msg) (m : Model) → Answered p msg m (update d msg m)
unfolding update on_key
update-Answered p d (window_size_msg w h) m = λ q. absurd q
update-Answered p d (keys_msg seq r) m =
    by_if (λ (n : Next). Answered p (keys_msg seq r) m (some n)) (seq == m.keys_seq) (on_keys r m)
      (m, nothing)
      (Quietly-Answered p (keys_msg seq r) m (some (on_keys r m)) (on_keys-IsQuiet r m))
      (λ q. absurd q)
update-Answered p d (detail_msg seq key r) m = λ q. absurd q
update-Answered p d (write_msg action key r) m =
    Quietly-Answered p (write_msg action key r) m (some (on_write action key r m))
      (on_write-IsQuiet action key r m)
update-Answered p d (edited_msg key r) m = λ q. absurd q
update-Answered p d (key_msg k) m =
    by_if (Answered p (key_msg k) m) (is_ctrl_c k.type) _ _ (λ q. absurd q)
      (by_mode-Answered p d k m.mode m refl)

confirmed : (p : Pending) (msg : Msg) (m : Model) → Confirms p msg m → m.pend ≡ some p
confirmed p (key_msg k) m c = c.2
confirmed p (window_size_msg w h) m c = absurd c
confirmed p (keys_msg seq r) m c = absurd c
confirmed p (detail_msg seq key r) m c = absurd c
confirmed p (write_msg action key r) m c = absurd c
confirmed p (edited_msg key r) m c = absurd c

announced :
    (p : Pending) (mode : UiMode) (title : Text) (o : Option Pending)
    → o ≡ some p
    → Announced o mode title
    → title ≡ kind_title p.key p.kind
announced p mode title o e a = (subst (λ q. Announced q mode title) e a).1

-- Where a message, met in a sound state, leads to a command that writes, the message is the key
-- y or Y, an overlay is open whose title is "Save" and the key of that set, or "Roll back", the
-- key, "to" and the version of that rollback, the write is the one that waits for its confirmation,
-- and nothing waits afterwards.
pub update-Writes :
    (p : Pending) (d : Desk) (msg : Msg) (m m₁ : Model) (c : Cmd)
    → Sound m
    → update d msg m ≡ some (m₁, c)
    → Writes p c
    → Confirms p msg m × (m.overlay_title ≡ kind_title p.key p.kind) × (m₁.pend ≡ none)
update-Writes p d msg m m₁ c s e w =
    let (confirms, done) = subst (Answered p msg m) e (update-Answered p d msg m) w in
    (
      confirms,
      announced p m.mode m.overlay_title m.pend (confirmed p msg m confirms) s.announced,
      done,
    )
