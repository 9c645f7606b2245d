-- ===== src/Lsctl/Ui/View/Box.antt =====
-- `fit`, `box` and `joinCols` of cmd/lsctl/internal/ui/view.go.
use lite_settings.Base.{
  ℕ, zero, suc, ◌+◌, ◌-◌, max, Bool, true, false, ◌||◌, List, [], ◌∷◌, ◌++◌, Option, none, some,
  ltb, ◌==◌, if◌then◌else◌, length, get_elem?,
}
use lite_settings.Base.Text.{Text, text}
use lite_settings.Lsctl.Ui.{Style, dim_style, focus_style, UiLine, plain}
use lite_settings.Lsctl.Ui.Lines.{spaces}

-- `runewidth.StringWidth`, `runewidth.Truncate` and the `Render` of a style.
pub record Terminal : Type 0 where
  pub width : Text → ℕ
  pub truncate : Text → ℕ → Text → Text
  pub render : Style → Text → Text

abbrev pub styled : Terminal → Style → Text → Text
styled term s t = term.render s t

-- `strings.ReplaceAll(s, "\t", "    ")`.
unfoldable pub expand_tabs : Text → Text
expand_tabs [] = []
expand_tabs (c ∷ s) = let rest = expand_tabs s in if c == 9 then spaces 4 ++ rest else c ∷ rest

unfoldable pub cut_to : Terminal → Text → ℕ → Text
cut_to term s w = if ltb w (term.width s) then term.truncate s w (text "…") else s

unfoldable pub fit : Terminal → Text → ℕ → Text
unfolding expand_tabs cut_to
fit term s zero = []
fit term s (suc w) =
    let t = cut_to term (expand_tabs s) (suc w) in
    if ltb (term.width t) (suc w) then t ++ spaces (suc w - term.width t) else t

-- `strings.Repeat("─", n)`.
abbrev rule : ℕ → Text
rule zero = []
rule (suc n) = text "─" ++ rule n

abbrev line_or_blank : Option UiLine → UiLine
line_or_blank none = plain []
line_or_blank (some l) = l

-- A line between the borders.
unfoldable pub fit_line : Terminal → Style → ℕ → UiLine → Text
unfolding fit
fit_line term border inner l =
    styled term border (text "│")
    ++ (styled term l.style (fit term (text " " ++ l.text) inner) ++ styled term border (text "│"))

-- The loop over the n lines of the box from the i-th on.
unfoldable pub box_lines : Terminal → Style → ℕ → List UiLine → ℕ → ℕ → ℕ → List Text
unfolding fit_line
box_lines term border inner content off i zero = []
box_lines term border inner content off i (suc n) =
    fit_line term border inner (line_or_blank (get_elem? content (i + off)))
    ∷ box_lines term border inner content off (suc i) n

abbrev border_style : Bool → Style
border_style true = focus_style
border_style false = dim_style

unfoldable pub top_label : Terminal → Text → ℕ → Text
top_label term title inner =
    let lab = text " " ++ (title ++ text " ") in
    let cut = if ltb inner (term.width lab) then term.truncate lab inner [] else lab in
    cut ++ rule (inner - term.width cut)

unfoldable pub box : Terminal → Text → Bool → ℕ → ℕ → List UiLine → ℕ → List Text
unfolding box_lines top_label
box term title focused w h content off =
    let inner = w - 2 in
    let border = border_style focused in
    if ltb w 4 || ltb h 2
    then []
    else styled term border (text "┌" ++ (top_label term title inner ++ text "┐"))
      ∷ (box_lines term border inner content off 0 (h - 2)
          ++ (styled term border (text "└" ++ (rule inner ++ text "┘")) ∷ []))

abbrev line_at : Option Text → Text
line_at none = []
line_at (some s) = s

-- The i-th lines of the columns, one after the other.
unfoldable pub across : List (List Text) → ℕ → Text
across [] i = []
across (c ∷ cols) i = line_at (get_elem? c i) ++ across cols i

abbrev pub tallest : List (List Text) → ℕ
tallest [] = 0
tallest (c ∷ cols) = max (length c) (tallest cols)

unfoldable pub rows_from : List (List Text) → ℕ → ℕ → List Text
unfolding across
rows_from cols i zero = []
rows_from cols i (suc n) = across cols i ∷ rows_from cols (suc i) n

unfoldable pub join_cols : List (List Text) → List Text
unfolding rows_from
join_cols cols = rows_from cols 0 (tallest cols)
