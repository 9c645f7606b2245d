-- ===== src/Lsctl/Ui/Safety/Steps.antt =====
-- The small changes that the handlers are made of keep the invariant.
use lite_settings.Base.{
  ℕ, zero, suc, ◌≤◌, ◌≡◌, ◌≢◌, refl, ◌∙◌, List, [], ◌∷◌, Option, none, some, arith, length,
  get_elem?,
}
use lite_settings.Base.Text.{Text}
use lite_settings.Server.Entries.{Version}
use lite_settings.Lsctl.Ui.{Model, UiLine, Pending, UiMode, mode_overlay, Pane}
use lite_settings.Lsctl.Ui.Rows.{selected_key}
use lite_settings.Lsctl.Ui.Scroll.{inner_h, load_keys, load_detail}
use lite_settings.Lsctl.Ui.Overlay.{open_overlay, close_overlay, told}
use lite_settings.Lsctl.Ui.Keys.{load_both, refresh}
use lite_settings.Lsctl.Ui.Safety.{Listed, Shown, InView, Announced, Sound}

-- What an overlay opened over a sound state needs of the announcement.
pub open_overlay-Sound :
    (title : Text) (lines : List UiLine) (m : Model)
    → Listed m
    → Shown m
    → InView m
    → Announced m.pend mode_overlay title
    → Sound (open_overlay title lines m)
unfolding open_overlay selected_key inner_h
open_overlay-Sound title lines m listed shown view announced = record {
  listed = listed;
  shown = shown;
  in_view = (view.0, view.1, omega arith);
  announced = announced;
}

pub close_overlay-Sound : (m : Model) → Sound m → Sound (close_overlay m)
unfolding close_overlay selected_key inner_h
close_overlay-Sound m s = record {
  listed = s.listed;
  shown = s.shown;
  in_view = (s.in_view.0, s.in_view.1, omega arith);
  announced = tt;
}

-- A new status, focus or error leaves what the invariant is about.
pub told-Sound : (t : Text) (m : Model) → Sound m → Sound (told t m)
unfolding selected_key inner_h
told-Sound t m s = record {
  listed = s.listed;
  shown = s.shown;
  in_view = s.in_view;
  announced = s.announced;
}

pub failed-Sound : (t : Text) (m : Model) → Sound m → Sound (record m { err_msg = t })
unfolding selected_key inner_h
failed-Sound t m s = record {
  listed = s.listed;
  shown = s.shown;
  in_view = s.in_view;
  announced = s.announced;
}

pub focus-Sound : (p : Pane) (m : Model) → Sound m → Sound (record m { focus = p })
unfolding selected_key inner_h
focus-Sound p m s = record {
  listed = s.listed;
  shown = s.shown;
  in_view = s.in_view;
  announced = s.announced;
}

pub load_keys-Sound : (m : Model) → Sound m → Sound (load_keys m).0
unfolding load_keys selected_key inner_h
load_keys-Sound m s = record {
  listed = s.listed;
  shown = s.shown;
  in_view = s.in_view;
  announced = s.announced;
}

load_detail-Sound : (m : Model) → Sound m → Sound (load_detail (selected_key m) m).0
unfolding load_detail selected_key inner_h
load_detail-Sound m s = record {
  listed = s.listed;
  shown = (refl, λ h. s.shown.1 h ∙ s.shown.0);
  in_view = s.in_view;
  announced = s.announced;
}

pub load_both-Sound :
    (k : Text) (m : Model) → k ≡ selected_key m → Sound m → Sound (load_both k m).0
unfolding load_both load_keys selected_key
load_both-Sound k m e s = rw e (load_detail-Sound (load_keys m).0 (load_keys-Sound m s))

pub refresh-Sound : (k : Text) (m : Model) → k ≡ selected_key m → Sound m → Sound (refresh k m).0
unfolding refresh
refresh-Sound [] m e s = load_keys-Sound m s
refresh-Sound (c ∷ k) m e s = load_both-Sound (c ∷ k) m e s

-- In the other modes nothing waits for a confirmation.
pub Announced-browse :
    (p : Option Pending) (mode : UiMode) (title : Text) (mode' : UiMode) (title' : Text)
    → mode ≢ mode_overlay
    → Announced p mode title
    → Announced p mode' title'
Announced-browse none mode title mode' title' h a = tt
Announced-browse (some p) mode title mode' title' h a = absurd (h a.0)

-- A history that is not empty has a version at its cursor.
pub get_elem?-le :
    (h : Version) (hs : List Version) (i : ℕ)
    → i ≤ length hs
    → (v : Version) × (get_elem? (h ∷ hs) i ≡ some v)
get_elem?-le h hs zero le = (h, refl)
get_elem?-le h [] (suc i) le = absurd (omega arith)
get_elem?-le h (g ∷ hs) (suc i) le = get_elem?-le g hs i (omega arith)
