-- ===== src/Client/View/Search.antt =====
-- Binary search over a list that a test splits into a front and a back finds the boundary.
use lite_settings.Base.{
  ℕ, zero, suc, ◌+◌, ◌-◌, ◌/◌, ◌≤◌, ◌<◌, ◌≡◌, refl, Bool, false, List, [], ◌∷◌, some, arith, ltb,
  length, Bool-cases, inl, inr, get_elem?, All,
}
use lite_settings.Base.Sort.{count_if}
use lite_settings.Base.Text.{Text}
use lite_settings.Client.View.{search_from, binary_search}

-- Once the test fails, it fails for all that follow.
abbrev pub Falling : (Text → Bool) → List Text → Type 0
Falling p [] = Unit
Falling p (x ∷ xs) = (p x ≡ false → All (λ y. p y ≡ false) xs) × Falling p xs

pub count_if-none :
    (p : Text → Bool) (xs : List Text) → All (λ y. p y ≡ false) xs → count_if p xs ≡ 0
count_if-none p [] h = refl
count_if-none p (x ∷ xs) h = ground (arith, count_if-none p xs h.1)

All-get_elem? :
    (p : Text → Bool) (xs : List Text) (i : ℕ) (x : Text)
    → All (λ y. p y ≡ false) xs
    → get_elem? xs i ≡ some x
    → p x ≡ false
All-get_elem? p [] i x h q = cc
All-get_elem? p (y ∷ ys) zero x h q = ground arith
All-get_elem? p (y ∷ ys) (suc i) x h q = All-get_elem? p ys i x h.1 q

-- The test of the i-th item says whether `i` is before the boundary.
get_elem?-Falling :
    (p : Text → Bool) (xs : List Text) (i : ℕ) (x : Text)
    → Falling p xs
    → get_elem? xs i ≡ some x
    → p x ≡ ltb i (count_if p xs)
get_elem?-Falling p [] i x h q = cc
get_elem?-Falling p (y ∷ ys) zero x h q = ground (arith, count_if-none p ys)
get_elem?-Falling p (y ∷ ys) (suc i) x h q =
    ground (arith, get_elem?-Falling p ys i x h.1, All-get_elem? p ys i x, count_if-none p ys, h.0)

get_elem?-lt : (xs : List Text) (i : ℕ) → i < length xs → (x : Text) × (get_elem? xs i ≡ some x)
get_elem?-lt [] i h = absurd (omega arith)
get_elem?-lt (x ∷ xs) zero h = (x, refl)
get_elem?-lt (x ∷ xs) (suc i) h = get_elem?-lt xs i (omega arith)

search_from-count_if :
    (f : ℕ) (p : Text → Bool) (xs : List Text) (i j : ℕ)
    → Falling p xs
    → i ≤ count_if p xs
    → count_if p xs ≤ j
    → j ≤ length xs
    → j - i ≤ f
    → search_from f p xs i j ≡ count_if p xs
unfolding search_from
search_from-count_if zero p xs i j h a b c d = omega arith
search_from-count_if (suc f) p xs i j h a b c d = elim (Bool-cases (ltb i j)) [
  | inr done ↦ rw done (ground arith)
  | inl more ↦
      let (x, q) = get_elem?-lt xs ((i + j) / 2) (ground arith) in
      let side = get_elem?-Falling p xs ((i + j) / 2) x h q in
      elim (Bool-cases (ltb ((i + j) / 2) (count_if p xs))) [
        | inl up ↦
            rw (more, q, side, up)
              (search_from-count_if f p xs ((i + j) / 2 + 1) j h (ground arith) b c (ground arith))
        | inr low ↦
            rw (more, q, side, low)
              (search_from-count_if f p xs i ((i + j) / 2) h a (ground arith) (ground arith)
                (ground arith))
      ]
]

count_if-le-length : (p : Text → Bool) (xs : List Text) → count_if p xs ≤ length xs
count_if-le-length p [] = omega arith
count_if-le-length p (x ∷ xs) = ground (arith, count_if-le-length p xs)

-- The search returns the number of items that pass the test.
pub binary_search-count_if :
    (p : Text → Bool) (xs : List Text) → Falling p xs → binary_search p xs ≡ count_if p xs
unfolding binary_search
binary_search-count_if p xs h =
    search_from-count_if (length xs) p xs 0 (length xs) h (omega arith) (count_if-le-length p xs)
      (omega arith) (omega arith)
