-- ===== src/Lsctl/Tests.antt =====
-- The diff of lsctl at concrete inputs, and its theorems applied there.
use lite_settings.Base.{◌≤◌, ◌≡◌, refl, List, [], ◌∷◌, arith}
use lite_settings.Base.Text.{Text, text}
use lite_settings.Lsctl.Diff.{Line, same, added, removed, diff_lines}
use lite_settings.Lsctl.Diff.Hunks.{hunks}
use lite_settings.Lsctl.Diff.Hunks.Patch.{patch, hunks-patch}
use lite_settings.Lsctl.Diff.Sides.{old_side, new_side, diff_lines_sides}
use lite_settings.Lsctl.Diff.Optimal.{kept}
use lite_settings.Lsctl.Diff.Minimal.{diff_lines_minimal}

abbrev before : List Text
before = text "a" ∷ text "b" ∷ text "c" ∷ []

abbrev after : List Text
after = text "a" ∷ text "x" ∷ text "c" ∷ []

diff_lines_sides_example :
    (old_side (diff_lines before after) ≡ before) × (new_side (diff_lines before after) ≡ after)
diff_lines_sides_example = diff_lines_sides before after

-- Another diff of the two, which keeps only the first line.
abbrev coarse : List Line
coarse =
    record { kind = same; text = text "a" }
    ∷ record { kind = removed; text = text "b" }
    ∷ record { kind = removed; text = text "c" }
    ∷ record { kind = added; text = text "x" }
    ∷ record { kind = added; text = text "c" }
    ∷ []

diff_lines_minimal_example : kept coarse ≤ kept (diff_lines before after)
diff_lines_minimal_example = diff_lines_minimal before after coarse (omega arith) refl refl

hunks-patch_example : patch 1 before (hunks (diff_lines before after) 0) ≡ after
hunks-patch_example = hunks-patch before after 0
