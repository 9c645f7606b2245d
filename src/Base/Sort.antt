-- ===== src/Base/Sort.antt =====
-- `slices.Sort` and SQL's ORDER BY, as insertion sort by a Boolean order. A sort is told by what it
-- keeps (the count of every predicate) and by the order of its result.
use Prim.Native.Nat.{ℕ, suc}
use mathlib.Core.Path.{◌≡◌, refl, ◌∙◌}
use mathlib.Core.Bool.{Bool, true, false, not}
use mathlib.Core.Logic.{inl, inr}
use mathlib.Core.List.{List, [], ◌∷◌}
use native.Mathlib.Omega.{arith}
use lite_settings.Base.Tests.{if◌then◌else◌, Bool-cases}
use lite_settings.Base.Lists.{All}
use lite_settings.Base.Dict.{contains, Distinct}
use lite_settings.Base.Text.{
  Text, text_eq, text_eq_iff, text_lt, text_lt_irrefl, text_lt_trans, text_lt_total,
}

module _ {A : Type 0} where
  unfoldable pub insert_by : (A → A → Bool) → A → List A → List A
  insert_by le x [] = x ∷ []
  insert_by le x (y ∷ ys) = let rest = insert_by le x ys in if le x y then x ∷ y ∷ ys else y ∷ rest

  unfoldable pub sort_by : (A → A → Bool) → List A → List A
  sort_by le [] = []
  sort_by le (x ∷ xs) = insert_by le x (sort_by le xs)

  -- How many items pass a test.
  abbrev pub count_if : (A → Bool) → List A → ℕ
  count_if p [] = 0
  count_if p (x ∷ xs) = let rest = count_if p xs in if p x then suc rest else rest

  -- Each item is in order with all that follow.
  abbrev pub Ordered : (A → A → Bool) → List A → Type 0
  Ordered le [] = Unit
  Ordered le (x ∷ xs) = All (λ y. le x y ≡ true) xs × Ordered le xs

  count_if-insert_by :
      (le : A → A → Bool) (p : A → Bool) (x : A) (xs : List A)
      → count_if p (insert_by le x xs) ≡ count_if p (x ∷ xs)
  unfolding insert_by
  count_if-insert_by le p x [] = refl
  count_if-insert_by le p x (y ∷ ys) = ground (arith, count_if-insert_by le p x ys)

  pub count_if-sort_by :
      (le : A → A → Bool) (p : A → Bool) (xs : List A) → count_if p (sort_by le xs) ≡ count_if p xs
  unfolding sort_by
  count_if-sort_by le p [] = refl
  count_if-sort_by le p (x ∷ xs) =
      ground (arith, count_if-insert_by le p x (sort_by le xs), count_if-sort_by le p xs)

  -- A list in order is its own sorting.
  insert_by-head :
      (le : A → A → Bool) (x : A) (xs : List A)
      → All (λ y. le x y ≡ true) xs
      → insert_by le x xs ≡ x ∷ xs
  unfolding insert_by
  insert_by-head le x [] h = refl
  insert_by-head le x (y ∷ ys) h = ground arith

  pub sort_by-Ordered_id : (le : A → A → Bool) (xs : List A) → Ordered le xs → sort_by le xs ≡ xs
  unfolding sort_by
  sort_by-Ordered_id le [] h = refl
  sort_by-Ordered_id le (x ∷ xs) h = rw (sort_by-Ordered_id le xs h.1) (insert_by-head le x xs h.0)

-- The byte order, as a total order.
abbrev pub text_le : Text → Text → Bool
text_le s t = not (text_lt t s)

-- `slices.Sort` of strings.
unfoldable pub sort : List Text → List Text
unfolding sort_by insert_by
sort xs = sort_by text_le xs

contains-insert_by :
    (k x : Text) (xs : List Text)
    → contains k (insert_by text_le x xs) ≡ (if text_eq x k then true else contains k xs)
unfolding insert_by contains
contains-insert_by k x [] = refl
contains-insert_by k x (y ∷ ys) = ground (arith, contains-insert_by k x ys)

pub contains-sort : (k : Text) (xs : List Text) → contains k (sort xs) ≡ contains k xs
unfolding sort_by contains sort
contains-sort k [] = refl
contains-sort k (x ∷ xs) =
    ground (arith, contains-insert_by k x (sort_by text_le xs), contains-sort k xs)

insert_by-Distinct :
    (x : Text) (xs : List Text)
    → contains x xs ≡ false
    → Distinct xs
    → Distinct (insert_by text_le x xs)
unfolding insert_by contains
insert_by-Distinct x [] c h = (refl, tt)
insert_by-Distinct x (y ∷ ys) c h =
    ground
      (arith, insert_by-Distinct x ys, contains-insert_by y x ys, text_eq_iff x y, text_eq_iff y x)

pub sort-Distinct : (xs : List Text) → Distinct xs → Distinct (sort xs)
unfolding sort
sort-Distinct [] h = tt
sort-Distinct (x ∷ xs) h =
    insert_by-Distinct x (sort_by text_le xs) (contains-sort x xs ∙ h.0) (sort-Distinct xs h.1)

-- In byte order, equal neighbours allowed.
abbrev pub Ascending : List Text → Type 0
Ascending xs = Ordered text_le xs

text_le_trans : (s t u : Text) → text_le s t ≡ true → text_le t u ≡ true → text_le s u ≡ true
text_le_trans s t u p q = ground (arith, text_lt_total s t, text_lt_trans u s t, text_lt_irrefl s)

-- Of two texts out of order, the other order holds.
text_le_total : (s t : Text) → text_le s t ≡ false → text_le t s ≡ true
text_le_total s t p = ground (arith, text_lt_trans s t s, text_lt_irrefl s)

module _ {A : Type 0} (le : A → A → Bool) where
  All-le_trans :
      ((x y z : A) → le x y ≡ true → le y z ≡ true → le x z ≡ true)
      → (x y : A) (ys : List A) → le x y ≡ true
      → All (λ z. le y z ≡ true) ys
      → All (λ z. le x z ≡ true) ys
  All-le_trans trans x y [] p h = tt
  All-le_trans trans x y (z ∷ ys) p h = (trans x y z p h.0, All-le_trans trans x y ys p h.1)

  All-insert_by :
      (P : A → Type 0) (x : A) (xs : List A) → P x → All P xs → All P (insert_by le x xs)
  unfolding insert_by
  All-insert_by P x [] p h = (p, tt)
  All-insert_by P x (y ∷ ys) p h = elim (Bool-cases (le x y)) [
    | inl e ↦ rw e (p, h)
    | inr e ↦ rw e (h.0, All-insert_by P x ys p h.1)
  ]

  module _ (trans : (x y z : A) → le x y ≡ true → le y z ≡ true → le x z ≡ true)
      (total : (x y : A) → le x y ≡ false → le y x ≡ true) where
    insert_by-Ordered : (x : A) (xs : List A) → Ordered le xs → Ordered le (insert_by le x xs)
    unfolding insert_by
    insert_by-Ordered x [] h = (tt, tt)
    insert_by-Ordered x (y ∷ ys) h = elim (Bool-cases (le x y)) [
      | inl e ↦ rw e ((e, All-le_trans trans x y ys e h.0), h)
      | inr e ↦ rw e (All-insert_by _ x ys (total x y e) h.0, insert_by-Ordered x ys h.1)
    ]

    -- A sorting by a total order is in order.
    pub sort_by-Ordered : (xs : List A) → Ordered le (sort_by le xs)
    unfolding sort_by
    sort_by-Ordered [] = tt
    sort_by-Ordered (x ∷ xs) = insert_by-Ordered x (sort_by le xs) (sort_by-Ordered xs)

pub sort-Ascending : (xs : List Text) → Ascending (sort xs)
unfolding sort
sort-Ascending xs = sort_by-Ordered text_le text_le_trans text_le_total xs
