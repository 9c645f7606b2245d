-- ===== src/Lsctl/Diff/Minimal.antt =====
-- The whole diff, with its ends trimmed, keeps as many lines as any diff of the two texts can.
use mathlib.Core.List.{reverse, reverse-reverse, reverse-append, reverse-cons, append-nil}
use native.Mathlib.Nat.{le_trans, mul-le-mul}
use lite_settings.Base.{
  suc, ◌+◌, ◌*◌, ◌≤◌, ◌≡◌, refl, ◌∙◌, ap, sym, List, [], ◌∷◌, ◌++◌, arith, ltb, ltb→lt, length,
  length-append, Bool-cases, inl, inr,
}
use lite_settings.Base.Text.{Text, text_eq_refl}
use lite_settings.Lsctl.Diff.{
  Kind, same, removed, added, Line, mark, trim_shared, lcs_diff, max_diff_cells, middle, diff_lines,
}
use lite_settings.Lsctl.Diff.Sides.{
  old_side, new_side, old_line, new_line, old_side-append, new_side-append, trim_shared_sides,
  lcs_diff_sides,
}
use lite_settings.Lsctl.Diff.Optimal.{
  lcs, kept, kept-le-lcs, kept-lcs_diff, kept-mark_added, kept-mark_removed,
}

kept-append : (os ps : List Line) → kept (os ++ ps) ≡ kept os + kept ps
kept-append [] ps = omega arith
kept-append (o ∷ os) ps = ground (arith, kept-append os ps)

kept-mark_same : (ls : List Text) → kept (mark same ls) ≡ length ls
unfolding mark
kept-mark_same [] = refl
kept-mark_same (l ∷ ls) = ap suc (kept-mark_same ls)

length-reverse : {A : Type 0} (xs : List A) → length (reverse xs) ≡ length xs
length-reverse [] = refl
length-reverse (x ∷ xs) =
    ap length (reverse-append (x ∷ []) xs)
    ∙ omega (arith, length-append {0} (reverse xs) (reverse (x ∷ [])), length-reverse xs)

kept-reverse : (os : List Line) → kept (reverse os) ≡ kept os
kept-reverse [] = refl
kept-reverse (o ∷ os) =
    ap kept (reverse-append (o ∷ []) os)
    ∙ ground (arith, kept-append (reverse os) (o ∷ []), kept-reverse os)

old_line-last :
    (k : Kind) (l : Text) (ls : List Text)
    → reverse ls ++ old_line k l [] ≡ reverse (old_line k l ls)
old_line-last same l ls = sym (reverse-cons l ls)
old_line-last removed l ls = sym (reverse-cons l ls)
old_line-last added l ls = append-nil (reverse ls)

new_line-last :
    (k : Kind) (l : Text) (ls : List Text)
    → reverse ls ++ new_line k l [] ≡ reverse (new_line k l ls)
new_line-last same l ls = sym (reverse-cons l ls)
new_line-last removed l ls = append-nil (reverse ls)
new_line-last added l ls = sym (reverse-cons l ls)

old_side-reverse : (os : List Line) → old_side (reverse os) ≡ reverse (old_side os)
old_side-reverse [] = refl
old_side-reverse (o ∷ os) =
    ap old_side (reverse-cons o os)
    ∙ old_side-append (reverse os) (o ∷ [])
    ∙ ap (λ l. l ++ old_side (o ∷ [])) (old_side-reverse os)
    ∙ old_line-last o.kind o.text (old_side os)

new_side-reverse : (os : List Line) → new_side (reverse os) ≡ reverse (new_side os)
new_side-reverse [] = refl
new_side-reverse (o ∷ os) =
    ap new_side (reverse-cons o os)
    ∙ new_side-append (reverse os) (o ∷ [])
    ∙ ap (λ l. l ++ new_side (o ∷ [])) (new_side-reverse os)
    ∙ new_line-last o.kind o.text (new_side os)

-- Two diffs with the same sides: `lcs` bounds what a diff of given texts keeps.
kept-le-lcs_of :
    (os : List Line) (a b : List Text) → old_side os ≡ a → new_side os ≡ b → kept os ≤ lcs a b
kept-le-lcs_of os a b p q =
    omega (arith, kept-le-lcs os, ap (λ l. lcs l (new_side os)) p, ap (lcs a) q)

lcs-le-reverse : (a b : List Text) → lcs a b ≤ lcs (reverse a) (reverse b)
lcs-le-reverse a b =
    let os = lcs_diff a b in
    let (p, q) = lcs_diff_sides a b in
    omega (
      arith,
      kept-lcs_diff a b,
      kept-reverse os,
      kept-le-lcs_of (reverse os) (reverse a) (reverse b) (old_side-reverse os ∙ ap reverse p)
          (new_side-reverse os ∙ ap reverse q),
    )

lcs-reverse : (a b : List Text) → lcs (reverse a) (reverse b) ≡ lcs a b
lcs-reverse a b = omega (
  arith,
  lcs-le-reverse a b,
  lcs-le-reverse (reverse a) (reverse b),
  ap (λ l. lcs l (reverse (reverse b))) (reverse-reverse a),
  ap (lcs a) (reverse-reverse b),
)

lcs-append_same : (h a b : List Text) → lcs (h ++ a) (h ++ b) ≡ length h + lcs a b
unfolding lcs
lcs-append_same [] a b = omega arith
lcs-append_same (x ∷ h) a b = ground (arith, lcs-append_same h a b, text_eq_refl x)

kept-middle : (a b : List Text) → length a * length b ≤ max_diff_cells → kept (middle a b) ≡ lcs a b
unfolding middle mark
kept-middle [] [] h = unfold lcs in refl
kept-middle [] (y ∷ b) h = kept-mark_added (y ∷ b) ∙ unfold lcs in refl
kept-middle (x ∷ a) [] h = kept-mark_removed (x ∷ a) ∙ unfold lcs in refl
kept-middle (x ∷ a) (y ∷ b) h =
    elim (Bool-cases (ltb max_diff_cells (length (x ∷ a) * length (y ∷ b)))) [
      | inl e ↦ absurd (omega (arith, ltb→lt _ _ e))
      | inr e ↦ rw e (kept-lcs_diff (x ∷ a) (y ∷ b))
    ]

-- Where the product of the two line counts is within the table's bound, no list of kept, removed
-- and added lines that leads from the first text to the second keeps more lines than the diff does.
pub diff_lines_minimal :
    (a b : List Text) (os : List Line)
    → length a * length b ≤ max_diff_cells
    → old_side os ≡ a
    → new_side os ≡ b
    → kept os ≤ kept (diff_lines a b)
unfolding diff_lines
diff_lines_minimal a b os h p q =
    let t₁ = trim_shared a b in
    let t₂ = trim_shared (reverse t₁.1) (reverse t₁.2) in
    let (ha, hb) = trim_shared_sides a b in
    let (ta, tb) = trim_shared_sides (reverse t₁.1) (reverse t₁.2) in
    let lines = middle (reverse t₂.1) (reverse t₂.2) in
    let last = mark same (reverse t₂.0) in
    let small : length (reverse t₂.1) * length (reverse t₂.2) ≤ max_diff_cells =
      le_trans
        (mul-le-mul
          (omega (
            arith,
            ap length ha,
            ap length ta,
            length-append {0} t₁.0 t₁.1,
            length-append {0} t₂.0 t₂.1,
            length-reverse t₁.1,
            length-reverse t₂.1,
          ))
          (omega (
            arith,
            ap length hb,
            ap length tb,
            length-append {0} t₁.0 t₁.2,
            length-append {0} t₂.0 t₂.2,
            length-reverse t₁.2,
            length-reverse t₂.2,
          )))
        h in
    omega (
      arith,
      kept-le-lcs_of os a b p q,
      ap (λ l. lcs l b) ha,
      ap (lcs (t₁.0 ++ t₁.1)) hb,
      lcs-append_same t₁.0 t₁.1 t₁.2,
      lcs-reverse t₁.1 t₁.2,
      ap (λ l. lcs l (reverse t₁.2)) ta,
      ap (lcs (t₂.0 ++ t₂.1)) tb,
      lcs-append_same t₂.0 t₂.1 t₂.2,
      lcs-reverse t₂.1 t₂.2,
      kept-append (mark same t₁.0) (lines ++ last),
      kept-append lines last,
      kept-mark_same t₁.0,
      kept-mark_same (reverse t₂.0),
      length-reverse t₂.0,
      kept-middle (reverse t₂.1) (reverse t₂.2) small,
    )
