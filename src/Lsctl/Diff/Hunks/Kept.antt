-- ===== src/Lsctl/Diff/Hunks/Kept.antt =====
-- Every changed line is kept for a hunk.
use lite_settings.Base.{
  ℕ, zero, suc, ◌+◌, ◌-◌, ◌≤◌, ◌<◌, min, ◌≡◌, refl, Bool, true, false, List, [], ◌∷◌, some, arith,
  length, get_elem?, Bool-cases, inl, inr, subst,
}
use lite_settings.Lsctl.Diff.{Line}
use lite_settings.Lsctl.Diff.Hunks.{is_same, keep_range, none_kept, mark_kept}

keep_range-get_elem? :
    (lo hi at : ℕ) (ks : List Bool) (j : ℕ)
    → get_elem? ks j ≡ some true
    → get_elem? (keep_range lo hi at ks) j ≡ some true
unfolding keep_range
keep_range-get_elem? lo hi at [] j h = h
keep_range-get_elem? lo hi at (k ∷ ks) zero h = ground arith
keep_range-get_elem? lo hi at (k ∷ ks) (suc j) h = keep_range-get_elem? lo hi (suc at) ks j h

keep_range-inside :
    (lo hi at : ℕ) (ks : List Bool) (j : ℕ)
    → j < length ks
    → lo ≤ at + j
    → at + j ≤ hi
    → get_elem? (keep_range lo hi at ks) j ≡ some true
unfolding keep_range
keep_range-inside lo hi at [] j n l u = absurd (omega arith)
keep_range-inside lo hi at (k ∷ ks) zero n l u = ground arith
keep_range-inside lo hi at (k ∷ ks) (suc j) n l u =
    keep_range-inside lo hi (suc at) ks j (omega arith) (omega arith) (omega arith)

length-keep_range : (lo hi at : ℕ) (ks : List Bool) → length (keep_range lo hi at ks) ≡ length ks
unfolding keep_range
length-keep_range lo hi at [] = refl
length-keep_range lo hi at (k ∷ ks) = omega (arith, length-keep_range lo hi (suc at) ks)

mark_kept-get_elem? :
    (ctx total i : ℕ) (os : List Line) (ks : List Bool) (j : ℕ)
    → get_elem? ks j ≡ some true
    → get_elem? (mark_kept ctx total i os ks) j ≡ some true
unfolding mark_kept
mark_kept-get_elem? ctx total i [] ks j h = h
mark_kept-get_elem? ctx total i (o ∷ os) ks j h = elim (Bool-cases (is_same o.kind)) [
  | inl e ↦ rw e (mark_kept-get_elem? ctx total (suc i) os ks j h)
  | inr e ↦ rw e (mark_kept-get_elem? ctx total (suc i) os _ j (keep_range-get_elem? _ _ 0 ks j h))
]

length-mark_kept :
    (ctx total i : ℕ) (os : List Line) (ks : List Bool)
    → length (mark_kept ctx total i os ks) ≡ length ks
unfolding mark_kept
length-mark_kept ctx total i [] ks = refl
length-mark_kept ctx total i (o ∷ os) ks = elim (Bool-cases (is_same o.kind)) [
  | inl e ↦ rw e (length-mark_kept ctx total (suc i) os ks)
  | inr e ↦ rw e (
      omega (
        arith,
        length-mark_kept ctx total (suc i) os
            (keep_range (i - ctx) (min (total - 1) (i + ctx)) 0 ks),
        length-keep_range (i - ctx) (min (total - 1) (i + ctx)) 0 ks,
      ))
]

mark_kept-changed :
    (ctx total i : ℕ) (os : List Line) (ks : List Bool) (j : ℕ) (o : Line)
    → length ks ≡ total
    → i + length os ≡ total
    → get_elem? os j ≡ some o
    → is_same o.kind ≡ false
    → get_elem? (mark_kept ctx total i os ks) (i + j) ≡ some true
unfolding mark_kept
mark_kept-changed ctx total i [] ks j o n m h c = cc
mark_kept-changed ctx total i (p ∷ os) ks zero o n m h c =
    let changed : is_same p.kind ≡ false = ground arith in
    rw changed (
      mark_kept-get_elem? ctx total (suc i) os _ (i + 0) (
        keep_range-inside (i - ctx) (min (total - 1) (i + ctx)) 0 ks (i + 0) (omega arith)
          (omega arith) (omega arith)))
mark_kept-changed ctx total i (p ∷ os) ks (suc j) o n m h c = elim (Bool-cases (is_same p.kind)) [
  | inl e ↦ rw e (
      subst (λ k. get_elem? (mark_kept ctx total (suc i) os ks) k ≡ some true) (omega arith)
        (mark_kept-changed ctx total (suc i) os ks j o n (omega arith) h c))
  | inr e ↦ rw e (
      subst
        (λ k.
          get_elem?
            (mark_kept ctx total (suc i) os (keep_range (i - ctx) (min (total - 1) (i + ctx)) 0 ks))
            k
          ≡ some true)
        (omega arith)
        (mark_kept-changed ctx total (suc i) os _ j o
          (omega (arith, length-keep_range (i - ctx) (min (total - 1) (i + ctx)) 0 ks))
          (omega arith) h c))
]

-- Each line has its mark, and a changed line has the mark true.
abbrev pub Covers : List Line → List Bool → Type 0
Covers [] ks = Unit
Covers (o ∷ os) [] = ⊥
Covers (o ∷ os) (k ∷ ks) = (is_same o.kind ≡ false → k ≡ true) × Covers os ks

covers :
    (os : List Line) (ks : List Bool)
    → length ks ≡ length os
    → ((j : ℕ) (o : Line)
        → get_elem? os j ≡ some o
        → is_same o.kind ≡ false
        → get_elem? ks j ≡ some true)
    → Covers os ks
covers [] ks n h = tt
covers (o ∷ os) [] n h = omega arith
covers (o ∷ os) (k ∷ ks) n h =
    (λ c. ground (arith, h 0 o refl c), covers os ks (omega arith) (λ j p. h (suc j) p))

length-none_kept : (os : List Line) → length (none_kept os) ≡ length os
length-none_kept [] = refl
length-none_kept (o ∷ os) = omega (arith, length-none_kept os)

pub mark_kept-Covers :
    (ctx : ℕ) (os : List Line) → Covers os (mark_kept ctx (length os) 0 os (none_kept os))
mark_kept-Covers ctx os =
    covers os _
      (omega (arith, length-mark_kept ctx (length os) 0 os (none_kept os), length-none_kept os))
      (λ j o h c.
        subst (λ k. get_elem? (mark_kept ctx (length os) 0 os (none_kept os)) k ≡ some true)
          (omega arith)
          (mark_kept-changed ctx (length os) 0 os (none_kept os) j o (length-none_kept os)
            (omega arith) h c))
