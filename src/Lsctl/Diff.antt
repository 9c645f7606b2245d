-- ===== src/Lsctl/Diff.antt =====
-- cmd/lsctl/internal/render/diff.go: the line diff and its hunks. An operation keeps, removes or
-- adds one line.
pub mod Sides
pub mod Optimal
pub mod Minimal
pub mod Hunks
use mathlib.Core.List.{reverse}
use lite_settings.Base.{
  ℕ, zero, suc, ◌+◌, ◌-◌, ◌*◌, ◌^◌, Bool, true, false, List, [], ◌∷◌, ◌++◌, Option, none, some, ltb,
  leb, ◌==◌, if◌then◌else◌, length, map,
}
use lite_settings.Base.Text.{Text, text, text_eq}

-- `kind` is ' ', '-' or '+'.
pub data Kind : Type 0 where
  same removed added : Kind

pub record Line : Type 0 where
  pub kind : Kind
  pub text : Text

-- `strings.TrimSuffix(s, "\n")`.
unfoldable pub trim_newline : Text → Text
trim_newline [] = []
trim_newline (c ∷ []) = if c == 10 then [] else c ∷ []
trim_newline (c ∷ d ∷ s) = c ∷ trim_newline (d ∷ s)

abbrev pub add_byte : ℕ → List Text → List Text
add_byte c [] = (c ∷ []) ∷ []
add_byte c (l ∷ ls) = (c ∷ l) ∷ ls

-- `strings.Split(s, "\n")`.
unfoldable pub split_newline : Text → List Text
split_newline [] = [] ∷ []
split_newline (c ∷ s) = let rest = split_newline s in if c == 10 then [] ∷ rest else add_byte c rest

unfoldable pub split_lines : Text → List Text
unfolding trim_newline split_newline
split_lines [] = []
split_lines (c ∷ s) = split_newline (trim_newline (c ∷ s))

unfoldable pub mark : Kind → List Text → List Line
mark k [] = []
mark k (l ∷ ls) = record { kind = k; text = l } ∷ mark k ls

-- The loop that trims a shared front: the shared lines and the two rests.
unfoldable pub trim_shared : List Text → List Text → List Text × List Text × List Text
trim_shared [] ys = ([], [], ys)
trim_shared (a ∷ xs) [] = ([], a ∷ xs, [])
trim_shared (a ∷ xs) (b ∷ ys) =
    let (shared, xs', ys') = trim_shared xs ys in
    if text_eq a b then (a ∷ shared, xs', ys') else ([], a ∷ xs, b ∷ ys)

abbrev pub head_or_zero : List ℕ → ℕ
head_or_zero [] = 0
head_or_zero (n ∷ ns) = n

abbrev pub tail_of : List ℕ → List ℕ
tail_of [] = []
tail_of (n ∷ ns) = ns

abbrev pub first_row : List (List ℕ) → List ℕ
first_row [] = []
first_row (r ∷ rs) = r

-- One row of the table of `lcsDiff`, from the row below it: the inner loop, which runs from the
-- right.
unfoldable pub lcs_row : Text → List Text → List ℕ → List ℕ
lcs_row x [] below = 0 ∷ []
lcs_row x (y ∷ ys) below =
    let right = lcs_row x ys (tail_of below) in
    (if text_eq x y
      then head_or_zero (tail_of below) + 1
      else if leb (head_or_zero right) (head_or_zero below)
      then head_or_zero below
      else head_or_zero right)
    ∷ right

unfoldable pub zero_row : List Text → List ℕ
zero_row [] = 0 ∷ []
zero_row (y ∷ ys) = 0 ∷ zero_row ys

-- The rows from a position of `a` to its end.
unfoldable pub lcs_table : List Text → List Text → List (List ℕ)
unfolding lcs_row zero_row
lcs_table [] b = zero_row b ∷ []
lcs_table (x ∷ xs) b = let below = lcs_table xs b in lcs_row x b (first_row below) ∷ below

abbrev pub rest_rows : List (List ℕ) → List (List ℕ)
rest_rows [] = []
rest_rows (r ∷ rs) = rs

-- `at(i, j)`, in the row of i.
abbrev pub cell : List ℕ → ℕ → ℕ
cell [] j = 0
cell (n ∷ ns) zero = n
cell (n ∷ ns) (suc j) = cell ns j

-- The second loop of `lcsDiff`, at `a[i:]` and `b[j:]`, with the rows from i on.
unfoldable pub lcs_walk : List Text → List Text → List (List ℕ) → ℕ → List Line
lcs_walk [] ys rows j = mark added ys
lcs_walk (a ∷ xs) [] rows j = mark removed (a ∷ xs)
lcs_walk (a ∷ xs) (b ∷ ys) rows j =
    let both = record { kind = same; text = a } ∷ lcs_walk xs ys (rest_rows rows) (suc j) in
    let remove = record { kind = removed; text = a } ∷ lcs_walk xs (b ∷ ys) (rest_rows rows) j in
    let add = record { kind = added; text = b } ∷ lcs_walk (a ∷ xs) ys rows (suc j) in
    if text_eq a b
    then both
    else if leb (cell (first_row rows) (suc j)) (cell (first_row (rest_rows rows)) j)
    then remove
    else add

unfoldable pub lcs_diff : List Text → List Text → List Line
unfolding lcs_table lcs_walk
lcs_diff a b = lcs_walk a b (lcs_table a b) 0

abbrev pub max_diff_cells : ℕ
max_diff_cells = 4 * 2 ^ 20

-- The `switch` on what the trimming left.
unfoldable pub middle : List Text → List Text → List Line
unfolding lcs_diff mark
middle [] [] = []
middle [] (b ∷ ys) = mark added (b ∷ ys)
middle (a ∷ xs) [] = mark removed (a ∷ xs)
middle (a ∷ xs) (b ∷ ys) =
    if ltb max_diff_cells (length (a ∷ xs) * length (b ∷ ys))
    then mark removed (a ∷ xs) ++ mark added (b ∷ ys)
    else lcs_diff (a ∷ xs) (b ∷ ys)

-- The back is trimmed as a front of the reversed lists, and is collected back to front.
unfoldable pub diff_lines : List Text → List Text → List Line
unfolding trim_shared middle mark
diff_lines a b =
    let (head, a₁, b₁) = trim_shared a b in
    let (tail, a₂, b₂) = trim_shared (reverse a₁) (reverse b₁) in
    mark same head ++ (middle (reverse a₂) (reverse b₂) ++ mark same (reverse tail))
