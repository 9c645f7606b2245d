-- ===== src/Lsctl/Command/Format.antt =====
-- `inferFormat` and `validFormat` of cmd/lsctl/internal/command/write.go.
use mathlib.Core.List.{reverse}
use lite_settings.Base.{ℕ, ◌+◌, Bool, ◌&&◌, ◌||◌, [], ◌∷◌, leb, ◌==◌, if◌then◌else◌, map}
use lite_settings.Base.Text.{Text, text, text_eq, has_prefix, contains_text}

-- The white space of Unicode in UTF-8: one byte, two or three.
unfoldable pub space1 : ℕ → Bool
space1 a = leb 9 a && leb a 13 || a == 32

unfoldable pub space2 : ℕ → ℕ → Bool
space2 a b = a == 194 && (b == 133 || b == 160)

unfoldable pub space3 : ℕ → ℕ → ℕ → Bool
space3 a b c =
    a == 225 && b == 154 && c == 128
    || a == 226 && b == 128 && (leb 128 c && leb c 138 || c == 168 || c == 169 || c == 175)
    || a == 226 && b == 129 && c == 159
    || a == 227 && b == 128 && c == 128

-- The text after its leading spaces, and before its last ones: the second reads the reversed text.
unfoldable pub trim_front : Text → Text
unfolding space1 space2 space3
trim_front [] = []
trim_front (a ∷ []) = if space1 a then [] else a ∷ []
trim_front (a ∷ b ∷ []) =
    let rest = trim_front (b ∷ []) in
    if space1 a then rest else if space2 a b then [] else a ∷ b ∷ []
trim_front (a ∷ b ∷ c ∷ s) =
    let one = trim_front (b ∷ c ∷ s) in
    let two = trim_front (c ∷ s) in
    let three = trim_front s in
    if space1 a
    then one
    else if space2 a b
    then two
    else if space3 a b c
    then three
    else a ∷ b ∷ c ∷ s

unfoldable pub trim_back : Text → Text
unfolding space1 space2 space3
trim_back [] = []
trim_back (a ∷ []) = if space1 a then [] else a ∷ []
trim_back (a ∷ b ∷ []) =
    let rest = trim_back (b ∷ []) in
    if space1 a then rest else if space2 b a then [] else a ∷ b ∷ []
trim_back (a ∷ b ∷ c ∷ s) =
    let one = trim_back (b ∷ c ∷ s) in
    let two = trim_back (c ∷ s) in
    let three = trim_back s in
    if space1 a
    then one
    else if space2 b a
    then two
    else if space3 c b a
    then three
    else a ∷ b ∷ c ∷ s

-- `strings.TrimSpace`.
unfoldable pub trim_space : Text → Text
unfolding trim_front trim_back
trim_space s = reverse (trim_back (reverse (trim_front s)))

-- `filepath.Ext`: what follows the last dot of the last element of the path, with the dot. The first
-- argument is what is known of an earlier dot.
unfoldable pub ext_from : Text → Text → Text
ext_from ext [] = ext
ext_from ext (c ∷ s) = ext_from (if c == b'/' then [] else if c == b'.' then c ∷ s else ext) s

abbrev to_lower_byte : ℕ → ℕ
to_lower_byte c = if leb b'A' c && leb c b'Z' then c + 32 else c

-- `strings.ToLower`, as far as it can make an extension that the code tests.
unfoldable pub lower_ext : Text → Text
unfolding ext_from
lower_ext src = map to_lower_byte (ext_from [] src)

unfoldable pub infer_content : Text → Text
infer_content t =
    if has_prefix t (text "{") || has_prefix t (text "[")
    then text "json"
    else if contains_text t (text "\n") && contains_text t (text ":")
    then text "yaml"
    else text "raw"

unfoldable pub infer_format : Text → Text → Text
unfolding lower_ext infer_content trim_space
infer_format src value =
    let ext = lower_ext src in
    if text_eq ext (text ".yaml") || text_eq ext (text ".yml")
    then text "yaml"
    else if text_eq ext (text ".json")
    then text "json"
    else infer_content (trim_space value)

unfoldable pub valid_format : Text → Bool
valid_format s = text_eq s (text "raw") || text_eq s (text "json") || text_eq s (text "yaml")
