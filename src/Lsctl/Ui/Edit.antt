-- ===== src/Lsctl/Ui/Edit.antt =====
-- cmd/lsctl/internal/ui/edit.go: which editor runs, on which temporary file.
use mathlib.Core.List.{reverse}
use lite_settings.Base.{
  ℕ, Bool, ◌&&◌, ◌||◌, List, [], ◌∷◌, ◌++◌, Option, none, some, leb, ltb, ◌==◌, if◌then◌else◌,
  length, take, Result, ok, err,
}
use lite_settings.Base.Text.{Text, text, text_eq}
use lite_settings.Lsctl.Ui.{Model, nothing, edit_cmd, Next}

-- What the system gives: the fields of $VISUAL and $EDITOR, the paths of vim, vi and nano, and the
-- path of a new temporary file for a pattern, with the value written to it, or the error.
pub record Desk : Type 0 where
  pub visual : List Text
  pub editor : List Text
  pub vim : Option Text
  pub vi : Option Text
  pub nano : Option Text
  pub temp_file : Text → Text → Result Text Text

abbrev first_path : Option Text → List Text → List Text
first_path none others = others
first_path (some p) others = p ∷ []

abbrev first_fields : List Text → List Text → List Text
first_fields [] others = others
first_fields (f ∷ fs) others = f ∷ fs

-- An empty command stands for nil.
unfoldable pub editor_cmd : Desk → List Text
editor_cmd d =
    first_fields d.visual
      (first_fields d.editor (first_path d.vim (first_path d.vi (first_path d.nano []))))

unfoldable pub ext_for : Text → Text
ext_for format =
    if text_eq format (text "yaml")
    then text ".yaml"
    else if text_eq format (text "json")
    then text ".json"
    else text ".txt"

-- A letter, a digit or an underscore.
unfoldable pub word_char : ℕ → Bool
word_char c =
    leb b'a' c && leb c b'z' || leb b'A' c && leb c b'Z' || leb b'0' c && leb c b'9' || c == b'_'

abbrev dash_after : Text → Text
dash_after [] = []
dash_after (c ∷ b) = if c == b'-' then c ∷ b else b'-' ∷ c ∷ b

-- The loop, with the bytes of the builder last first. The bytes of a longer rune make one dash, as
-- the rune does.
unfoldable pub safe_bytes : Text → Text → Text
unfolding word_char
safe_bytes built [] = built
safe_bytes built (c ∷ s) = safe_bytes (if word_char c then c ∷ built else dash_after built) s

-- `strings.TrimLeft(s, "-")`.
unfoldable pub drop_dashes : Text → Text
drop_dashes [] = []
drop_dashes (c ∷ s) = let rest = drop_dashes s in if c == b'-' then rest else c ∷ s

-- `strings.Trim(s, "-")`.
unfoldable pub trim_dashes : Text → Text
unfolding drop_dashes
trim_dashes s = reverse (drop_dashes (reverse (drop_dashes s)))

abbrev pub max_name : ℕ
max_name = 48

unfoldable pub safe_name : Text → Text
unfolding safe_bytes trim_dashes
safe_name key =
    let s = trim_dashes (reverse (safe_bytes [] key)) in
    if ltb max_name (length s) then trim_dashes (take max_name s) else s

unfoldable pub write_temp : Desk → Text → Text → Text → Result Text Text
unfolding safe_name ext_for
write_temp d key format value =
    d.temp_file (text "lsctl-" ++ (safe_name key ++ (text "-*" ++ ext_for format))) value

abbrev opened : List Text → Model → Result Text Text → Next
opened ed m (err e) = (record m { err_msg = e }, nothing)
opened ed m (ok path) = (m, edit_cmd (ed ++ (path ∷ [])) m.detail.key m.detail.format)

unfoldable pub edit_with : Desk → List Text → Model → Next
unfolding write_temp
edit_with d [] m =
    (record m { status = text "Editor not found; set $EDITOR and try again" }, nothing)
edit_with d (p ∷ args) m =
    opened (p ∷ args) m (write_temp d m.detail.key m.detail.format m.detail.value)

unfoldable pub start_edit : Desk → Model → Next
unfolding editor_cmd edit_with
start_edit d m =
    if m.has_detail
    then edit_with d (editor_cmd d) m
    else (record m { status = text "Select a config first" }, nothing)
