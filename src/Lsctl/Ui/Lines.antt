-- ===== src/Lsctl/Ui/Lines.antt =====
-- The contents of the panes as lines: `valueLines`, `stripControl`, `diffLinesStyled` and
-- `helpLines` of cmd/lsctl/internal/ui/view.go.
use mathlib.Core.List.{reverse}
use lite_settings.Base.{
  ℕ, zero, suc, ◌-◌, Bool, not, ◌&&◌, ◌||◌, List, [], ◌∷◌, ◌++◌, ltb, ◌==◌, if◌then◌else◌, length,
  keep_if, map,
}
use lite_settings.Base.Text.{Text, text, has_prefix}
use lite_settings.Lsctl.Diff.{split_newline}
use lite_settings.Lsctl.Ui.{UiLine, Style, plain, no_style, dim_style, add_style, delete_style}

-- `strings.ReplaceAll(v, "\r\n", "\n")`.
unfoldable pub unix_newlines : Text → Text
unix_newlines [] = []
unix_newlines (c ∷ []) = c ∷ []
unix_newlines (c ∷ d ∷ s) =
    let rest = unix_newlines (d ∷ s) in if c == 13 && d == 10 then rest else c ∷ rest

-- `strings.TrimRight(s, "\n")`, of the reversed text.
unfoldable pub drop_newlines : Text → Text
drop_newlines [] = []
drop_newlines (c ∷ s) = let rest = drop_newlines s in if c == 10 then rest else c ∷ s

unfoldable pub trim_newlines : Text → Text
unfolding drop_newlines
trim_newlines s = reverse (drop_newlines (reverse s))

-- The bytes that stay. No byte of a longer rune is below 0x80.
unfoldable pub is_shown : ℕ → Bool
is_shown c = c == b'\t' || not (ltb c 32 || c == 127)

unfoldable pub strip_control : Text → Text
unfolding is_shown
strip_control s = keep_if is_shown s

unfoldable pub value_lines : Text → List Text
unfolding unix_newlines trim_newlines strip_control
value_lines [] = []
value_lines (c ∷ v) = map strip_control (split_newline (trim_newlines (unix_newlines (c ∷ v))))

unfoldable pub diff_style : Text → Style
diff_style l =
    if has_prefix l (text "+++") || has_prefix l (text "---") || has_prefix l (text "@@")
    then dim_style
    else if has_prefix l (text "+")
    then add_style
    else if has_prefix l (text "-")
    then delete_style
    else no_style

unfoldable pub diff_lines_styled : Text → List UiLine
unfolding trim_newlines diff_style
diff_lines_styled d =
    map (λ l. record { text = l; style = diff_style l }) (split_newline (trim_newlines d))

abbrev pub spaces : ℕ → Text
spaces zero = []
spaces (suc n) = 32 ∷ spaces n

-- `%-14s`, of a literal.
abbrev pad_key : Text → Text
pad_key s = s ++ spaces (14 - length s)

abbrev help_row : Text → Text → UiLine
help_row k what = plain (text "  " ++ (pad_key k ++ (text "  " ++ what)))

unfoldable pub help_lines : List UiLine
help_lines =
    record {
      text =
          text
            "Every TUI action has an equivalent non-interactive command shown before confirmation.";
      style = dim_style;
    }
    ∷ plain []
    ∷ help_row (text "j / k / ↑ ↓") (text "Move or scroll in the current pane")
    ∷ help_row (text "g / G") (text "Jump to the start / end of the current pane")
    ∷ help_row (text "tab / h / l") (text "Switch panes")
    ∷ help_row (text "enter") (text "Keys/value: open history; history: roll back")
    ∷ help_row (text "e") (text "Edit with $EDITOR, then review and confirm the diff")
    ∷ help_row (text "d") (text "Compare the selected version with the current value")
    ∷ help_row (text "/") (text "Filter by key; esc clears the filter")
    ∷ help_row (text "r") (text "Reload")
    ∷ help_row (text "y / n") (text "Confirm / cancel")
    ∷ help_row (text "q / ctrl-c") (text "Quit")
    ∷ plain []
    ∷ record {
      text = text "  Commands: lsctl list / get / history / diff / set / rollback";
      style = dim_style;
    }
    ∷ []
