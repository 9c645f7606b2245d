-- ===== src/Lsctl/Ui/View/Cursor.antt =====
-- The selected row is always on the screen.
use lite_settings.Base.{
  ℕ, zero, suc, ◌+◌, ◌≤◌, ◌<◌, ◌≡◌, ◌≢◌, subst, true, false, List, [], ◌∷◌, some, inl, inr, arith,
  leb, leb→le, length, get_elem?, Bool-cases,
}
use lite_settings.Lsctl.Ui.{KeyRow, Model, UiLine}
use lite_settings.Lsctl.Ui.Rows.Cursor.{OnKey-row, get_elem?-lt}
use lite_settings.Lsctl.Ui.Safety.{Sound}
use lite_settings.Lsctl.Ui.View.Content.{window, windowed, key_line, key_lines, keys_content}

window-bounds :
    (cur n h : ℕ) → cur < n → 1 ≤ h → (window cur n h ≤ cur) × (cur < window cur n h + h)
unfolding window
window-bounds cur n h below some_height = ground arith

module _ {A : Type 0} (line : ℕ → A → UiLine) (start : ℕ) where
  -- From the first line on, the rows are shown one by one.
  windowed-here :
      (h at : ℕ) (xs : List A) (i : ℕ) (x : A)
      → start ≤ at
      → i < h
      → get_elem? xs i ≡ some x
      → get_elem? (windowed line start h at xs) i ≡ some (line (at + i) x)
  unfolding windowed
  windowed-here h at [] i x s l e = cc
  windowed-here zero at (y ∷ ys) i x s l e = absurd (omega arith)
  windowed-here (suc h) at (y ∷ ys) zero x s l e = ground arith
  windowed-here (suc h) at (y ∷ ys) (suc i) x s l e =
      let next : at + suc i ≡ suc at + i = omega arith in
      let shown : leb start at ≡ true = ground arith in
      rw (shown, next) (windowed-here h (suc at) ys i x (omega arith) (omega arith) e)

  windowed-row :
      (h at : ℕ) (xs : List A) (i : ℕ) (x : A)
      → start ≤ at + i
      → at + i < start + h
      → get_elem? xs i ≡ some x
      → (j : ℕ) × (j < h) × (get_elem? (windowed line start h at xs) j ≡ some (line (at + i) x))
  unfolding windowed
  windowed-row h at [] i x s l e = cc
  windowed-row zero at (y ∷ ys) i x s l e = absurd (omega arith)
  windowed-row (suc h) at (y ∷ ys) zero x s l e =
      (0, omega arith, windowed-here (suc h) at (y ∷ ys) zero x (omega arith) (omega arith) e)
  windowed-row (suc h) at (y ∷ ys) (suc i) x s l e = elim (Bool-cases (leb start at)) [
    | inl b ↦
        let first : start ≤ at = leb→le start at b in
        (suc i, omega arith, windowed-here (suc h) at (y ∷ ys) (suc i) x first (omega arith) e)
    | inr b ↦
        let next : at + suc i ≡ suc at + i = omega arith in
        rw (b, next) (windowed-row (suc h) (suc at) ys i x (omega arith) (omega arith) e)
  ]

row-visible :
    (m : Model) (h : ℕ) (rows : List KeyRow) (r : KeyRow)
    → 1 ≤ h
    → get_elem? rows m.cur ≡ some r
    → (j : ℕ) × (j < h) × (get_elem? (key_lines m h rows) j ≡ some (key_line m m.cur r))
row-visible m h [] r some_height e = cc
row-visible m h (s ∷ rows) r some_height e =
    let below = get_elem?-lt (s ∷ rows) m.cur r e in
    let (low, high) = window-bounds m.cur (length (s ∷ rows)) h below some_height in
    let start = window m.cur (length (s ∷ rows)) h in
    let (j, in_pane, shown) =
      windowed-row (key_line m) start h 0 (s ∷ rows) m.cur r (omega (arith, low))
        (omega (arith, high)) e in
    let from_zero : 0 + m.cur ≡ m.cur = omega arith in
    (
      j,
      in_pane,
      subst (λ k. get_elem? (key_lines m h (s ∷ rows)) j ≡ some (key_line m k r)) from_zero shown,
    )

-- In a sound state with rows, one of the lines of the pane of keys, of a height h that is not 0,
-- is that of the row under the cursor, which is a row with a key, at a position below h.
pub keys_content-selected :
    (m : Model) (h : ℕ)
    → Sound m
    → m.rows ≢ []
    → 1 ≤ h
    → (r : KeyRow) × (j : ℕ) × (get_elem? m.rows m.cur ≡ some r)
      × (r.header ≡ false)
      × (j < h)
      × (get_elem? (keys_content m h) j ≡ some (key_line m m.cur r))
unfolding keys_content
keys_content-selected m h s some_rows some_height =
    let (r, at, key) = OnKey-row m.rows m.cur some_rows s.listed.1 in
    let (j, in_pane, line) = row-visible m h m.rows r some_height at in
    (r, j, at, key, in_pane, line)
