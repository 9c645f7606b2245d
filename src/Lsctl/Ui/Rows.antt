-- ===== src/Lsctl/Ui/Rows.antt =====
-- `buildRows`, `splitKey` and the searches over the rows of the list of keys.
pub mod Cursor
pub mod Matching
use lite_settings.Base.{
  ℕ, zero, suc, ◌+◌, Bool, true, false, not, ◌&&◌, List, [], ◌∷◌, ◌++◌, Option, none, some, leb,
  ltb, ◌==◌, if◌then◌else◌, length, get_elem?, keep_if, map,
}
use lite_settings.Base.Text.{Text, text_eq, contains_text}
use lite_settings.Server.Handlers.{ApiConfig}
use lite_settings.Lsctl.Ui.{KeyRow, Model}

abbrev cut_at : ℕ → Text × Text → Text × Text
cut_at c (group, leaf) = (c ∷ group, leaf)

-- The key cut after its first colon.
unfoldable pub cut : Text → Option (Text × Text)
cut [] = none
cut (c ∷ s) =
    let rest = cut s in
    if c == b':'
    then some (c ∷ [], s)
    else elim rest [ none ↦ none | some parts ↦ some (cut_at c parts) ]

abbrev or_whole : Text → Option (Text × Text) → Text × Text
or_whole k none = ([], k)
or_whole k (some parts) = parts

unfoldable pub split_key : Text → Text × Text
unfolding cut
split_key k = or_whole k (cut k)

abbrev pub header_row : Text → KeyRow
header_row g = record { header = true; label = g; key = [] }

abbrev pub key_row : ApiConfig → KeyRow
key_row c = record { header = false; label = (split_key c.key).1; key = c.key }

-- `filter != "" && !strings.Contains(key, filter)`.
unfoldable pub filtered_out : Text → Text → Bool
filtered_out filter k = not (text_eq filter []) && not (contains_text k filter)

abbrev pub group_header : Text → List KeyRow
group_header [] = []
group_header (c ∷ g) = header_row (c ∷ g) ∷ []

-- The loop, where `last` is the group of the row before.
unfoldable pub rows_after : Text → Text → List ApiConfig → List KeyRow
unfolding filtered_out
rows_after filter last [] = []
rows_after filter last (c ∷ cs) =
    let g = (split_key c.key).0 in
    let rest = rows_after filter (if filtered_out filter c.key then last else g) cs in
    let headers = if text_eq g last then [] else group_header g in
    if filtered_out filter c.key then rest else headers ++ (key_row c ∷ rest)

-- Before the first row the group is the text of one zero byte.
unfoldable pub build_rows : List ApiConfig → Text → List KeyRow
unfolding rows_after
build_rows configs filter = rows_after filter (0 ∷ []) configs

abbrev pub not_header : KeyRow → Bool
not_header r = not r.header

-- `slices.IndexFunc`, with none for -1.
unfoldable pub index_func : (KeyRow → Bool) → List KeyRow → Option ℕ
index_func p [] = none
index_func p (r ∷ rs) =
    let rest = index_func p rs in
    if p r then some 0 else elim rest [ none ↦ none | some i ↦ some (suc i) ]

abbrev pub or_zero : Option ℕ → ℕ
or_zero none = 0
or_zero (some i) = i

unfoldable pub row_of : Text → List KeyRow → Option ℕ
unfolding index_func
row_of [] rows = none
row_of (c ∷ k) rows = index_func (λ r. not_header r && text_eq r.key (c ∷ k)) rows

unfoldable pub first_key_row : List KeyRow → ℕ
unfolding index_func
first_key_row rows = or_zero (index_func not_header rows)

-- The position is that of a row that is not a header.
abbrev pub is_key_at : List KeyRow → ℕ → Bool
is_key_at rows i = elim (get_elem? rows i) [ none ↦ false | some r ↦ not_header r ]

-- From the position before `i`, back to the first row.
unfoldable pub seek_up : List KeyRow → ℕ → Option ℕ
seek_up rows zero = none
seek_up rows (suc i) = let rest = seek_up rows i in if is_key_at rows i then some i else rest

-- From the position `from`, to the last row; `at` is the position of the list's head.
unfoldable pub seek_down : ℕ → ℕ → List KeyRow → Option ℕ
seek_down from at [] = none
seek_down from at (r ∷ rs) =
    let rest = seek_down from (suc at) rs in if leb from at && not_header r then some at else rest

unfoldable pub last_key_row : List KeyRow → ℕ
unfolding seek_up
last_key_row rows = or_zero (seek_up rows (length rows))

abbrev key_of : Option KeyRow → Text
key_of none = []
key_of (some r) = r.key

unfoldable pub selected_key : Model → Text
selected_key m = key_of (get_elem? m.rows m.cur)
