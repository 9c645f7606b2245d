-- ===== src/Lsctl/Ui/Rows/Cursor.antt =====
-- The searches over the rows stop at rows that have a key, and a list that is not empty has one.
use lite_settings.Base.{
  ℕ, zero, suc, ◌-◌, ◌≤◌, ◌<◌, ◌≡◌, ◌≢◌, refl, ap, inl, inr, Bool, true, false, ◌&&◌, List, [], ◌∷◌,
  ◌++◌, none, some, arith, leb, if◌then◌else◌, length, get_elem?, Bool-cases, Option-cases,
}
use lite_settings.Base.Text.{Text, text_eq}
use lite_settings.Server.Handlers.{ApiConfig}
use lite_settings.Lsctl.Ui.{KeyRow}
use lite_settings.Lsctl.Ui.Rows.{
  index_func, not_header, is_key_at, seek_up, seek_down, first_key_row, last_key_row, row_of,
  build_rows, rows_after, filtered_out, split_key, group_header, key_row,
}

-- The cursor is on a row with a key, or the list is empty and the cursor at 0.
abbrev pub OnKey : List KeyRow → ℕ → Type 0
OnKey rows cur = elim (get_elem? rows cur) [
  | none ↦ (rows ≡ []) × (cur ≡ 0)
  | some r ↦ r.header ≡ false
]

pub is_key_at-OnKey : (rows : List KeyRow) (i : ℕ) → is_key_at rows i ≡ true → OnKey rows i
is_key_at-OnKey rows i h = ground arith

pub get_elem?-lt :
    (rows : List KeyRow) (i : ℕ) (r : KeyRow) → get_elem? rows i ≡ some r → i < length rows
get_elem?-lt [] i r h = cc
get_elem?-lt (s ∷ rows) zero r h = omega arith
get_elem?-lt (s ∷ rows) (suc i) r h = omega (arith, get_elem?-lt rows i r h)

pub OnKey-le : (rows : List KeyRow) (i : ℕ) → OnKey rows i → i ≤ length rows - 1
OnKey-le rows i h = elim (Option-cases (get_elem? rows i)) [
  | inl e ↦ ground (arith, e)
  | inr (r, e) ↦ omega (arith, get_elem?-lt rows i r e)
]

-- The row at a position passes a test.
abbrev pub hit : (KeyRow → Bool) → List KeyRow → ℕ → Bool
hit p rows i = elim (get_elem? rows i) [ none ↦ false | some r ↦ p r ]

pub index_func-hit :
    (p : KeyRow → Bool) (rows : List KeyRow) (i : ℕ)
    → index_func p rows ≡ some i
    → hit p rows i ≡ true
unfolding index_func
index_func-hit p [] i h = cc
index_func-hit p (r ∷ rows) zero h = ground arith
index_func-hit p (r ∷ rows) (suc i) h = ground (arith, index_func-hit p rows i)

pub row_of-hit :
    (k : Text) (rows : List KeyRow) (i : ℕ)
    → row_of k rows ≡ some i
    → hit (λ r. not_header r && text_eq r.key k) rows i ≡ true
unfolding row_of
row_of-hit [] rows i h = cc
row_of-hit (c ∷ k) rows i h = index_func-hit (λ r. not_header r && text_eq r.key (c ∷ k)) rows i h

pub row_of-OnKey : (k : Text) (rows : List KeyRow) (i : ℕ) → row_of k rows ≡ some i → OnKey rows i
row_of-OnKey k rows i h = ground (arith, row_of-hit k rows i h)

pub seek_up-is_key_at :
    (rows : List KeyRow) (from i : ℕ) → seek_up rows from ≡ some i → is_key_at rows i ≡ true
unfolding seek_up
seek_up-is_key_at rows zero i h = cc
seek_up-is_key_at rows (suc from) i h = ground (arith, seek_up-is_key_at rows from i)

pub seek_down-at :
    (from at : ℕ) (rows : List KeyRow) (i : ℕ)
    → seek_down from at rows ≡ some i
    → (at ≤ i) × (is_key_at rows (i - at) ≡ true)
unfolding seek_down
seek_down-at from at [] i h = cc
seek_down-at from at (r ∷ rows) i h = elim (Bool-cases (leb from at && not_header r)) [
  | inl e ↦ ground (arith, e)
  | inr e ↦
      let (le, key) = seek_down-at from (suc at) rows i (ground (arith, e)) in
      let step : i - at ≡ suc (i - suc at) = omega arith in (omega arith, rw step key)
]

-- A list that holds a row with a key has a first one.
index_func-append :
    (p : KeyRow → Bool) (xs : List KeyRow) (r : KeyRow) (ys : List KeyRow)
    → p r ≡ true
    → index_func p (xs ++ (r ∷ ys)) ≢ none
unfolding index_func
index_func-append p [] r ys h e = ground (arith, h)
index_func-append p (x ∷ xs) r ys h e = ground (arith, index_func-append p xs r ys h)

-- A list of rows that is not empty has a row with a key.
rows_after-key :
    (filter last : Text) (cs : List ApiConfig)
    → index_func not_header (rows_after filter last cs) ≡ none
    → rows_after filter last cs ≡ []
unfolding rows_after
rows_after-key filter last [] h = refl
rows_after-key filter last (c ∷ cs) h = elim (Bool-cases (filtered_out filter c.key)) [
  | inl e ↦
      let ih =
        rows_after-key filter (if filtered_out filter c.key then last else (split_key c.key).0)
          cs in
      ground (arith, e, ih)
  | inr e ↦
      let g = (split_key c.key).0 in
      let headers : List KeyRow = if text_eq g last then [] else group_header g in
      let rest = rows_after filter (if filtered_out filter c.key then last else g) cs in
      let found = index_func-append not_header headers (key_row c) rest refl in
      ground (arith, e, found)
]

pub first_key_row-OnKey :
    (configs : List ApiConfig) (filter : Text)
    → OnKey (build_rows configs filter) (first_key_row (build_rows configs filter))
unfolding build_rows first_key_row
first_key_row-OnKey configs filter =
    let rows = rows_after filter (0 ∷ []) configs in
    elim (Option-cases (index_func not_header rows)) [
      | inl e ↦ rw (e, rows_after-key filter (0 ∷ []) configs e) (refl, refl)
      | inr (i, e) ↦ rw e (is_key_at-OnKey rows i (index_func-hit not_header rows i e))
    ]

seek_up-none :
    (rows : List KeyRow) (from i : ℕ)
    → seek_up rows from ≡ none
    → i < from
    → is_key_at rows i ≡ false
unfolding seek_up
seek_up-none rows zero i h lt = absurd (omega arith)
seek_up-none rows (suc from) i h lt = ground (arith, seek_up-none rows from i, ap (is_key_at rows))

-- The last row with a key is one where the cursor may stand, since some position is.
pub last_key_row-OnKey :
    (rows : List KeyRow) (cur : ℕ) → OnKey rows cur → OnKey rows (last_key_row rows)
unfolding last_key_row
last_key_row-OnKey rows cur h = elim (Option-cases (seek_up rows (length rows))) [
  | inl e ↦ rw e (elim (Option-cases (get_elem? rows cur)) [
    | inl f ↦ let empty : rows ≡ [] = ground (arith, f) in rw empty (refl, refl)
    | inr (r, f) ↦
        let lt = get_elem?-lt rows cur r f in
        let hidden = seek_up-none rows (length rows) cur e lt in absurd (ground (arith, f, hidden))
  ])
  | inr (i, e) ↦ rw e (is_key_at-OnKey rows i (seek_up-is_key_at rows (length rows) i e))
]

pub OnKey-row :
    (rows : List KeyRow) (i : ℕ)
    → rows ≢ []
    → OnKey rows i
    → (r : KeyRow) × (get_elem? rows i ≡ some r) × (r.header ≡ false)
OnKey-row rows i some_rows h = elim (Option-cases (get_elem? rows i)) [
  | inl e ↦ absurd (some_rows (ground (arith, e)))
  | inr (r, e) ↦ (r, e, ground (arith, e))
]
