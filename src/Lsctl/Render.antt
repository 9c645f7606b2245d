-- ===== src/Lsctl/Render.antt =====
-- cmd/lsctl/internal/render/render.go: `OneLine`, `Truncate` and `HumanSize`.
use lite_settings.Base.{
  ℕ, ◌+◌, ◌*◌, ◌/◌, ◌%◌, ◌^◌, Bool, ◌&&◌, ◌||◌, List, [], ◌∷◌, ◌++◌, Option, none, some, leb, ltb,
  ◌==◌, if◌then◌else◌, length, take,
}
use lite_settings.Base.Decimal.{itoa}
use lite_settings.Base.Text.{Text, text}
use lite_settings.Lsctl.Command.Format.{trim_space}

-- A byte that continues a rune.
abbrev continues : ℕ → Bool
continues c = leb 128 c && leb c 191

abbrev add_rune : ℕ → List Text → List Text
add_rune c [] = (c ∷ []) ∷ []
add_rune c ([] ∷ rs) = (c ∷ []) ∷ rs
add_rune c ((d ∷ r) ∷ rs) = if continues d then (c ∷ d ∷ r) ∷ rs else (c ∷ []) ∷ (d ∷ r) ∷ rs

-- The runes of a text that is valid UTF-8.
unfoldable pub runes_of : Text → List Text
runes_of [] = []
runes_of (c ∷ s) = add_rune c (runes_of s)

abbrev pub joined : List Text → Text
joined [] = []
joined (r ∷ rs) = r ++ joined rs

unfoldable pub truncate : Text → ℕ → Text
unfolding runes_of
truncate s limit =
    if leb (length (runes_of s)) limit then s else joined (take limit (runes_of s)) ++ text "…"

-- What comes before the first byte that ends a line, if there is one.
unfoldable pub first_line : Text → Option Text
first_line [] = none
first_line (c ∷ s) =
    let rest = first_line s in
    if c == 13 || c == 10 then some [] else elim rest [ none ↦ none | some l ↦ some (c ∷ l) ]

abbrev cut_line : Text → Option Text → Text
cut_line s none = s
cut_line s (some l) = trim_space l ++ text " …"

unfoldable pub one_line : Text → ℕ → Text
unfolding truncate first_line
one_line s limit = let t = trim_space s in truncate (cut_line t (first_line t)) limit

-- `%.1f` of n / d, where d is a power of two: the tenths, rounded to the nearest, and to the even one
-- of two.
unfoldable pub tenths : ℕ → ℕ → ℕ
tenths n d =
    let q = 10 * n / d in
    let r = 10 * n % d in
    if ltb (2 * r) d then q else if ltb d (2 * r) then q + 1 else if q % 2 == 0 then q else q + 1

abbrev one_decimal : ℕ → Text
one_decimal t = itoa (t / 10) ++ (text "." ++ itoa (t % 10))

unfoldable pub human_size : ℕ → Text
unfolding tenths
human_size n =
    if ltb n 1024
    then itoa n ++ text "B"
    else if ltb n (2 ^ 20)
    then one_decimal (tenths n 1024) ++ text "K"
    else one_decimal (tenths n (2 ^ 20)) ++ text "M"
