-- ===== src/Lsctl/Diff/Optimal.antt =====
-- The table of `lcsDiff` holds the lengths of longest common subsequences, and the walk over it
-- keeps that many lines: no diff of the two texts keeps more.
use lite_settings.Base.{
  ℕ, zero, suc, ◌≤◌, max, ◌≡◌, refl, ◌∙◌, ap, sym, List, [], ◌∷◌, arith, if◌then◌else◌, drop,
}
use lite_settings.Base.Text.{Text, text_eq, text_eq_refl}
use lite_settings.Lsctl.Diff.{
  Kind, same, removed, added, Line, mark, head_or_zero, first_row, lcs_row, zero_row, lcs_table,
  cell, lcs_walk, lcs_diff,
}
use lite_settings.Lsctl.Diff.Sides.{old_line, new_line, old_side, new_side}

-- The length of a longest common subsequence.
unfoldable pub lcs : List Text → List Text → ℕ
lcs [] b = 0
lcs (x ∷ a) [] = 0
lcs (x ∷ a) (y ∷ b) =
    let both = lcs a b in
    let left = lcs a (y ∷ b) in
    let right = lcs (x ∷ a) b in if text_eq x y then suc both else max left right

pub lcs-nil : (a : List Text) → lcs a [] ≡ 0
unfolding lcs
lcs-nil [] = refl
lcs-nil (x ∷ a) = refl

-- One more line raises the length by one at most, and never lowers it.
grows_left :
    (a : List Text)
    → ((w : Text) (c : List Text) → lcs a (w ∷ c) ≤ suc (lcs a c))
    → (x : Text) (b : List Text) → lcs a b ≤ lcs (x ∷ a) b
unfolding lcs
grows_left a h x [] = omega (arith, lcs-nil a)
grows_left a h x (w ∷ c) = ground (arith, h w c)

lcs-suc_right : (a : List Text) (y : Text) (b : List Text) → lcs a (y ∷ b) ≤ suc (lcs a b)
unfolding lcs
lcs-suc_right [] y b = omega arith
lcs-suc_right (x ∷ a) y b = ground (arith, lcs-suc_right a y b, grows_left a (lcs-suc_right a) x b)

grows_right :
    (b : List Text)
    → ((z : Text) (a : List Text) → lcs (z ∷ a) b ≤ suc (lcs a b))
    → (y : Text) (a : List Text) → lcs a b ≤ lcs a (y ∷ b)
unfolding lcs
grows_right b h y [] = omega arith
grows_right b h y (z ∷ a) = ground (arith, h z a)

lcs-suc_left : (x : Text) (a b : List Text) → lcs (x ∷ a) b ≤ suc (lcs a b)
unfolding lcs
lcs-suc_left x a [] = omega arith
lcs-suc_left x a (y ∷ b) =
    ground (arith, lcs-suc_left x a b, grows_right b (λ z c. lcs-suc_left z c b) y a)

-- How many lines a diff keeps.
abbrev pub kept_line : Kind → ℕ → ℕ
kept_line same n = suc n
kept_line _ n = n

abbrev pub kept : List Line → ℕ
kept [] = 0
kept (o ∷ os) = kept_line o.kind (kept os)

kept-line-le-lcs :
    (k : Kind) (l : Text) (os : List Line)
    → kept os ≤ lcs (old_side os) (new_side os)
    → kept_line k (kept os) ≤ lcs (old_line k l (old_side os)) (new_line k l (new_side os))
unfolding lcs
kept-line-le-lcs same l os h = ground (arith, text_eq_refl l)
kept-line-le-lcs removed l os h =
    omega (arith, grows_left (old_side os) (lcs-suc_right (old_side os)) l (new_side os))
kept-line-le-lcs added l os h =
    omega (arith, grows_right (new_side os) (λ z a. lcs-suc_left z a (new_side os)) l (old_side os))

-- No diff keeps more lines than a longest common subsequence has.
pub kept-le-lcs : (os : List Line) → kept os ≤ lcs (old_side os) (new_side os)
kept-le-lcs [] = omega arith
kept-le-lcs (o ∷ os) = kept-line-le-lcs o.kind o.text os (kept-le-lcs os)

-- The row of `a` holds its lengths with all ends of `b`.
abbrev row_of : List Text → List Text → List ℕ
row_of a [] = lcs a [] ∷ []
row_of a (y ∷ b) = lcs a (y ∷ b) ∷ row_of a b

head-row_of : (a b : List Text) → head_or_zero (row_of a b) ≡ lcs a b
head-row_of a [] = refl
head-row_of a (y ∷ b) = refl

lcs_row-row_of : (x : Text) (a b : List Text) → lcs_row x b (row_of a b) ≡ row_of (x ∷ a) b
unfolding lcs_row lcs
lcs_row-row_of x a [] = refl
lcs_row-row_of x a (y ∷ b) =
    ground (arith, lcs_row-row_of x a b, head-row_of a b, head-row_of (x ∷ a) b)

zero_row-row_of : (b : List Text) → zero_row b ≡ row_of [] b
unfolding zero_row lcs
zero_row-row_of [] = refl
zero_row-row_of (y ∷ b) = ap (λ r. 0 ∷ r) (zero_row-row_of b)

first_row-lcs_table : (a b : List Text) → first_row (lcs_table a b) ≡ row_of a b
unfolding lcs_table
first_row-lcs_table [] b = zero_row-row_of b
first_row-lcs_table (x ∷ a) b = ap (lcs_row x b) (first_row-lcs_table a b) ∙ lcs_row-row_of x a b

cell-row_of : (a b : List Text) (j : ℕ) → cell (row_of a b) j ≡ lcs a (drop j b)
cell-row_of a [] zero = refl
cell-row_of a [] (suc j) = sym (lcs-nil a)
cell-row_of a (y ∷ b) zero = refl
cell-row_of a (y ∷ b) (suc j) = cell-row_of a b j

drop-suc :
    (j : ℕ) (b : List Text) (y : Text) (b' : List Text) → drop j b ≡ y ∷ b' → drop (suc j) b ≡ b'
drop-suc zero [] y b' h = cc
drop-suc zero (w ∷ b) y b' h = cc
drop-suc (suc j) [] y b' h = cc
drop-suc (suc j) (w ∷ b) y b' h = drop-suc j b y b' h

pub kept-mark_added : (ls : List Text) → kept (mark added ls) ≡ 0
unfolding mark
kept-mark_added [] = refl
kept-mark_added (l ∷ ls) = kept-mark_added ls

pub kept-mark_removed : (ls : List Text) → kept (mark removed ls) ≡ 0
unfolding mark
kept-mark_removed [] = refl
kept-mark_removed (l ∷ ls) = kept-mark_removed ls

kept-lcs_walk :
    (a b b' : List Text) (j : ℕ) → drop j b ≡ b' → kept (lcs_walk a b' (lcs_table a b) j) ≡ lcs a b'
unfolding lcs_walk lcs lcs_table
kept-lcs_walk [] b b' j h = kept-mark_added b'
kept-lcs_walk (x ∷ a) b [] j h = kept-mark_removed (x ∷ a)
kept-lcs_walk (x ∷ a) b (y ∷ b') j h =
    let next = drop-suc j b y b' h in
    ground (
      arith,
      kept-lcs_walk a b b' (suc j) next,
      kept-lcs_walk a b (y ∷ b') j h,
      kept-lcs_walk (x ∷ a) b b' (suc j) next,
      first_row-lcs_table (x ∷ a) b,
      first_row-lcs_table a b,
      cell-row_of (x ∷ a) b (suc j),
      cell-row_of a b j,
      next,
    )

pub kept-lcs_diff : (a b : List Text) → kept (lcs_diff a b) ≡ lcs a b
unfolding lcs_diff
kept-lcs_diff a b = kept-lcs_walk a b b 0 refl
