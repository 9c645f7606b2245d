-- ===== src/Lsctl/Diff/Sides.antt =====
-- A diff is a diff of its two inputs: the lines that are not added are the old text, and those that
-- are not removed are the new one.
use mathlib.Core.List.{reverse, reverse-reverse, reverse-append, append-nil}
use lite_settings.Base.{
  ℕ, suc, ◌*◌, ◌≡◌, refl, ◌∙◌, ap, sym, List, [], ◌∷◌, ◌++◌, arith, ltb, length, Bool-cases, inl,
  inr,
}
use lite_settings.Base.Text.{Text, text_eq_iff}
use lite_settings.Lsctl.Diff.{
  Kind, same, removed, added, Line, mark, trim_shared, lcs_walk, lcs_diff, max_diff_cells, middle,
  diff_lines, rest_rows, lcs_table,
}

abbrev pub old_line : Kind → Text → List Text → List Text
old_line added l ls = ls
old_line _ l ls = l ∷ ls

abbrev pub new_line : Kind → Text → List Text → List Text
new_line removed l ls = ls
new_line _ l ls = l ∷ ls

abbrev pub old_side : List Line → List Text
old_side [] = []
old_side (o ∷ os) = old_line o.kind o.text (old_side os)

abbrev pub new_side : List Line → List Text
new_side [] = []
new_side (o ∷ os) = new_line o.kind o.text (new_side os)

pub old_side-append : (os ps : List Line) → old_side (os ++ ps) ≡ old_side os ++ old_side ps
old_side-append [] ps = refl
old_side-append (o ∷ os) ps = ground (arith, old_side-append os ps)

pub new_side-append : (os ps : List Line) → new_side (os ++ ps) ≡ new_side os ++ new_side ps
new_side-append [] ps = refl
new_side-append (o ∷ os) ps = ground (arith, new_side-append os ps)

mark_sides :
    (ls : List Text)
    → (old_side (mark same ls) ≡ ls)
      × (new_side (mark same ls) ≡ ls)
      × (old_side (mark removed ls) ≡ ls)
      × (new_side (mark removed ls) ≡ [])
      × (old_side (mark added ls) ≡ [])
      × (new_side (mark added ls) ≡ ls)
unfolding mark
mark_sides [] = (refl, refl, refl, refl, refl, refl)
mark_sides (l ∷ ls) = ground (arith, mark_sides ls)

lcs_walk_sides :
    (a b : List Text) (rows : List (List ℕ)) (j : ℕ)
    → (old_side (lcs_walk a b rows j) ≡ a) × (new_side (lcs_walk a b rows j) ≡ b)
unfolding lcs_walk
lcs_walk_sides [] b rows j = ground (arith, mark_sides b)
lcs_walk_sides (x ∷ a) [] rows j = ground (arith, mark_sides (x ∷ a))
lcs_walk_sides (x ∷ a) (y ∷ b) rows j = ground (
  arith,
  text_eq_iff x y,
  lcs_walk_sides a b (rest_rows rows) (suc j),
  lcs_walk_sides a (y ∷ b) (rest_rows rows) j,
  lcs_walk_sides (x ∷ a) b rows (suc j),
)

pub lcs_diff_sides :
    (a b : List Text) → (old_side (lcs_diff a b) ≡ a) × (new_side (lcs_diff a b) ≡ b)
unfolding lcs_diff
lcs_diff_sides a b = lcs_walk_sides a b (lcs_table a b) 0

pub middle_sides : (a b : List Text) → (old_side (middle a b) ≡ a) × (new_side (middle a b) ≡ b)
unfolding middle lcs_diff
middle_sides [] [] = (refl, refl)
middle_sides [] (y ∷ b) = ground (arith, mark_sides (y ∷ b))
middle_sides (x ∷ a) [] = ground (arith, mark_sides (x ∷ a))
middle_sides (x ∷ a) (y ∷ b) =
    elim (Bool-cases (ltb max_diff_cells (length (x ∷ a) * length (y ∷ b)))) [
      | inl e ↦ rw e (
        old_side-append (mark removed (x ∷ a)) (mark added (y ∷ b))
            ∙ ap (λ l. l ++ old_side (mark added (y ∷ b))) (mark_sides (x ∷ a)).2
            ∙ ap (λ l. (x ∷ a) ++ l) (mark_sides (y ∷ b)).4
            ∙ append-nil (x ∷ a),
        new_side-append (mark removed (x ∷ a)) (mark added (y ∷ b))
            ∙ ap (λ l. l ++ new_side (mark added (y ∷ b))) (mark_sides (x ∷ a)).3
            ∙ (mark_sides (y ∷ b)).5,
      )
      | inr e ↦ rw e (lcs_walk_sides (x ∷ a) (y ∷ b) (lcs_table (x ∷ a) (y ∷ b)) 0)
    ]

pub trim_shared_sides :
    (a b : List Text)
    → (let (shared, a', b') = trim_shared a b in (shared ++ a' ≡ a) × (shared ++ b' ≡ b))
unfolding trim_shared
trim_shared_sides [] b = (refl, refl)
trim_shared_sides (x ∷ a) [] = (refl, refl)
trim_shared_sides (x ∷ a) (y ∷ b) = ground (arith, trim_shared_sides a b, text_eq_iff x y)

-- Putting back what was trimmed at the end.
untrim :
    (c shared rest : List Text) → shared ++ rest ≡ reverse c → reverse rest ++ reverse shared ≡ c
untrim c shared rest h = sym (reverse-append shared rest) ∙ ap reverse h ∙ reverse-reverse c

-- The kept and removed lines of a diff, in order, are the first text, and the kept and added lines
-- are the second, for inputs of any size.
pub diff_lines_sides :
    (a b : List Text) → (old_side (diff_lines a b) ≡ a) × (new_side (diff_lines a b) ≡ b)
unfolding diff_lines
diff_lines_sides a b =
    let t₁ = trim_shared a b in
    let t₂ = trim_shared (reverse t₁.1) (reverse t₁.2) in
    let (ha, hb) = trim_shared_sides a b in
    let (ta, tb) = trim_shared_sides (reverse t₁.1) (reverse t₁.2) in
    let m = middle_sides (reverse t₂.1) (reverse t₂.2) in
    let lines = middle (reverse t₂.1) (reverse t₂.2) in
    let last = mark same (reverse t₂.0) in
    (
      old_side-append (mark same t₁.0) (lines ++ last)
          ∙ ap (λ l. l ++ old_side (lines ++ last)) (mark_sides t₁.0).0
          ∙ ap (λ l. t₁.0 ++ l)
              (old_side-append lines last
                ∙ ap (λ l. l ++ old_side last) m.0
                ∙ ap (λ l. reverse t₂.1 ++ l) (mark_sides (reverse t₂.0)).0
                ∙ untrim t₁.1 t₂.0 t₂.1 ta)
          ∙ ha,
      new_side-append (mark same t₁.0) (lines ++ last)
          ∙ ap (λ l. l ++ new_side (lines ++ last)) (mark_sides t₁.0).1
          ∙ ap (λ l. t₁.0 ++ l)
              (new_side-append lines last
                ∙ ap (λ l. l ++ new_side last) m.1
                ∙ ap (λ l. reverse t₂.2 ++ l) (mark_sides (reverse t₂.0)).1
                ∙ untrim t₁.2 t₂.0 t₂.2 tb)
          ∙ hb,
    )
