-- ===== src/Lsctl/Diff/Hunks/Patch.antt =====
-- The hunks of a diff are a patch: they turn the first text into the second.
use mathlib.Core.List.{append_assoc}
use lite_settings.Base.{
  ℕ, ◌+◌, ◌-◌, ◌≡◌, refl, ◌∙◌, ap, sym, Bool, true, false, List, [], ◌∷◌, ◌++◌, none, some, arith,
  length, take, drop, length-append,
}
use lite_settings.Base.Text.{Text}
use lite_settings.Lsctl.Diff.{Line, Kind, same, added, removed, split_lines, diff_lines}
use lite_settings.Lsctl.Diff.Sides.{
  old_side, new_side, old_side-append, new_side-append, diff_lines_sides,
}
use lite_settings.Lsctl.Diff.Hunks.{
  unified_diff, with_labels, is_same, Hunk, old_step, new_step, opened, extended, scan, hunks,
  mark_kept, none_kept,
}
use lite_settings.Lsctl.Diff.Hunks.Kept.{Covers, mark_kept-Covers}

-- Applying hunks to a text whose first line has the number `at`: the lines before a hunk stay, and
-- the lines that it covers are replaced by its new side.
abbrev pub patch : ℕ → List Text → List Hunk → List Text
patch at lines [] = lines
patch at lines (h ∷ hs) =
    take (h.a_start - at) lines
    ++ (new_side h.lines
        ++ patch (h.a_start + h.a_count) (drop (h.a_start - at + h.a_count) lines) hs)

take-append : (xs ys : List Text) (n : ℕ) → n ≡ length xs → take n (xs ++ ys) ≡ xs
take-append [] ys n h = rw h refl
take-append (x ∷ xs) ys n h = rw h (ap (λ l. x ∷ l) (take-append xs ys (length xs) refl))

drop-append : (xs ys : List Text) (n : ℕ) → n ≡ length xs → drop n (xs ++ ys) ≡ ys
drop-append [] ys n h = rw h refl
drop-append (x ∷ xs) ys n h = rw h (drop-append xs ys (length xs) refl)

-- A first hunk that starts after a gap leaves the gap, and covers what follows it.
patch-gap :
    (at : ℕ) (gap covered rest : List Text) (h : Hunk) (hs : List Hunk)
    → h.a_start ≡ at + length gap
    → h.a_count ≡ length covered
    → patch at (gap ++ (covered ++ rest)) (h ∷ hs)
      ≡ gap ++ (new_side h.lines ++ patch (h.a_start + h.a_count) rest hs)
patch-gap at gap covered rest h hs s c =
    ap
      (λ l.
        l
        ++ (new_side h.lines
            ++ patch (h.a_start + h.a_count)
                (drop (h.a_start - at + h.a_count) (gap ++ (covered ++ rest))) hs))
      (take-append gap (covered ++ rest) (h.a_start - at) (omega (arith, s)))
    ∙ ap (λ l. gap ++ (new_side h.lines ++ patch (h.a_start + h.a_count) l hs))
        (ap (drop (h.a_start - at + h.a_count)) (sym (append_assoc gap covered rest))
          ∙ drop-append (gap ++ covered) rest _
              (omega (arith, s, c, length-append {0} gap covered)))

same_sides :
    (o : Line) (os : List Line)
    → is_same o.kind ≡ true
    → (old_side (o ∷ os) ≡ o.text ∷ old_side os)
      × (new_side (o ∷ os) ≡ o.text ∷ new_side os)
      × (old_step o.kind ≡ 1)
same_sides o os h = ground arith

joined_old :
    (ls : List Line) (o : Line) (os : List Line)
    → old_side (ls ++ (o ∷ [])) ++ old_side os ≡ old_side ls ++ old_side (o ∷ os)
joined_old ls o os =
    sym (old_side-append (ls ++ (o ∷ [])) os)
    ∙ ap old_side (append_assoc ls (o ∷ []) os)
    ∙ old_side-append ls (o ∷ os)

joined_new :
    (ls : List Line) (o : Line) (os : List Line)
    → new_side (ls ++ (o ∷ [])) ++ new_side os ≡ new_side ls ++ new_side (o ∷ os)
joined_new ls o os =
    sym (new_side-append (ls ++ (o ∷ [])) os)
    ∙ ap new_side (append_assoc ls (o ∷ []) os)
    ∙ new_side-append ls (o ∷ os)

length-joined :
    (ls : List Line) (o : Line)
    → length (old_side (ls ++ (o ∷ []))) ≡ length (old_side ls) + old_step o.kind
length-joined ls o =
    ap length (old_side-append ls (o ∷ []))
    ∙ length-append {0} (old_side ls) (old_side (o ∷ []))
    ∙ ap (λ n. length (old_side ls) + n) (step o.kind o.text)
  where
    step :
        (k : Kind) (l : Text) → length (old_side (record { kind = k; text = l } ∷ [])) ≡ old_step k
    step same l = refl
    step removed l = refl
    step added l = refl

-- The scan in a hunk, and between hunks after a gap of unchanged lines.
abbrev Inside : List Line → List Bool → Type 0
Inside os ks =
    (a b : ℕ) (h : Hunk) (at : ℕ) (gap : List Text)
    → h.a_start + h.a_count ≡ a
    → h.a_count ≡ length (old_side h.lines)
    → h.a_start ≡ at + length gap
    → patch at (gap ++ (old_side h.lines ++ old_side os)) (scan a b (some h) os ks)
      ≡ gap ++ (new_side h.lines ++ new_side os)

abbrev Outside : List Line → List Bool → Type 0
Outside os ks =
    (a b at : ℕ) (gap : List Text)
    → a ≡ at + length gap
    → patch at (gap ++ old_side os) (scan a b none os ks) ≡ gap ++ new_side os

module _ (o : Line) (os : List Line) (ks : List Bool) where
  extend : Inside os ks → Inside (o ∷ os) (true ∷ ks)
  unfolding scan
  extend ih a b h at gap s c g =
      ap (λ l. patch at (gap ++ l) (scan a b (some h) (o ∷ os) (true ∷ ks)))
        (sym (joined_old h.lines o os))
      ∙ ih (a + old_step o.kind) (b + new_step o.kind) (extended h o) at gap (omega (arith, s))
          (omega (arith, c, length-joined h.lines o)) g
      ∙ ap (λ l. gap ++ l) (joined_new h.lines o os)

  finish : is_same o.kind ≡ true → Outside os ks → Inside (o ∷ os) (false ∷ ks)
  unfolding scan
  finish e ih a b h at gap s c g =
      let (old, new, n) = same_sides o os e in
      patch-gap at gap (old_side h.lines) (old_side (o ∷ os)) h _ g c
      ∙ ap
          (λ l.
            gap
            ++ (new_side h.lines
                ++ patch (h.a_start + h.a_count) l
                    (scan (a + old_step o.kind) (b + new_step o.kind) none os ks)))
          old
      ∙ ap (λ l. gap ++ (new_side h.lines ++ l))
          (ih (a + old_step o.kind) (b + new_step o.kind) (h.a_start + h.a_count) (o.text ∷ [])
              (omega (arith, s, n))
            ∙ sym new)

  skip : is_same o.kind ≡ true → Outside os ks → Outside (o ∷ os) (false ∷ ks)
  unfolding scan
  skip e ih a b at gap g =
      let (old, new, n) = same_sides o os e in
      ap (λ l. patch at (gap ++ l) (scan (a + old_step o.kind) (b + new_step o.kind) none os ks))
        old
      ∙ ap (λ l. patch at l (scan (a + old_step o.kind) (b + new_step o.kind) none os ks))
          (sym (append_assoc gap (o.text ∷ []) (old_side os)))
      ∙ ih (a + old_step o.kind) (b + new_step o.kind) at (gap ++ (o.text ∷ []))
          (omega (arith, g, n, length-append {0} gap (o.text ∷ [])))
      ∙ append_assoc gap (o.text ∷ []) (new_side os)
      ∙ ap (λ l. gap ++ l) (sym new)

  begin : Inside os ks → Outside (o ∷ os) (true ∷ ks)
  unfolding scan
  begin ih a b at gap g = extend ih a b (opened a b none) at gap (omega arith) refl g

scan-patch : (os : List Line) (ks : List Bool) → Covers os ks → Inside os ks × Outside os ks
unfolding scan
scan-patch [] ks v =
    (λ a b h at gap s c g. patch-gap at gap (old_side h.lines) [] h [] g c, λ a b at gap g. refl)
scan-patch (o ∷ os) [] v = absurd v
scan-patch (o ∷ os) (true ∷ ks) v =
    let (i, u) = scan-patch os ks v.1 in (extend o os ks i, begin o os ks i)
scan-patch (o ∷ os) (false ∷ ks) v =
    let (i, u) = scan-patch os ks v.1 in
    let unchanged : is_same o.kind ≡ true = ground (arith, v.0) in
    (finish o os ks unchanged u, skip o os ks unchanged u)

-- The hunks of the diff of two texts, with any number of context lines, applied to the first text
-- as a patch, give the second.
pub hunks-patch : (a b : List Text) (ctx : ℕ) → patch 1 a (hunks (diff_lines a b) ctx) ≡ b
unfolding hunks
hunks-patch a b ctx =
    let lines = diff_lines a b in
    let (p, q) = diff_lines_sides a b in
    ap
      (λ l.
        patch 1 l (scan 1 1 none lines (mark_kept ctx (length lines) 0 lines (none_kept lines))))
      (sym p)
    ∙ (scan-patch lines _ (mark_kept-Covers ctx lines)).1 1 1 1 [] (omega arith)
    ∙ q

-- Where the printed diff is empty, the two texts have the same lines.
pub split_lines-unified_diff :
    (old new old_label new_label : Text) (ctx : ℕ)
    → unified_diff old new old_label new_label ctx ≡ []
    → split_lines old ≡ split_lines new
unfolding unified_diff
split_lines-unified_diff old new old_label new_label ctx h =
    go (hunks (diff_lines (split_lines old) (split_lines new)) ctx) refl h
  where
    go :
        (hs : List Hunk)
        → hunks (diff_lines (split_lines old) (split_lines new)) ctx ≡ hs
        → with_labels old_label new_label hs ≡ []
        → split_lines old ≡ split_lines new
    go [] e q =
        ap (patch 1 (split_lines old)) (sym e) ∙ hunks-patch (split_lines old) (split_lines new) ctx
    go (x ∷ hs) e q = cc
