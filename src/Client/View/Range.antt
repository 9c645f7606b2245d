-- ===== src/Client/View/Range.antt =====
-- The keys in a view's range of a prefix are exactly its keys with that prefix, in order.
use lite_settings.Base.{
  ◌≡◌, refl, Bool, true, false, List, [], ◌∷◌, arith, keep_if, All, Bool-cases, inl, inr,
}
use lite_settings.Base.Sort.{count_if, Ascending, text_le, sort-Ascending}
use lite_settings.Base.Text.{Text, text_lt, text_lt_trans, text_lt_total, has_prefix}
use lite_settings.Client.View.{View, Snapshot, new_view, prefix_range, not_past, slice}
use lite_settings.Client.View.Search.{Falling, count_if-none, binary_search-count_if}

-- A text with a prefix is not before the prefix.
has_prefix-ge : (s p : Text) → has_prefix s p ≡ true → text_lt s p ≡ false
unfolding has_prefix text_lt
has_prefix-ge s [] h = nil s
  where
    nil : (u : Text) → text_lt u [] ≡ false
    nil [] = refl
    nil (c ∷ u) = refl
has_prefix-ge [] (b ∷ p) h = cc
has_prefix-ge (a ∷ s) (b ∷ p) h = ground (arith, has_prefix-ge s p)

-- Between the prefix and a text that has it, all texts have it.
has_prefix-between :
    (s u p : Text)
    → text_lt s p ≡ false
    → text_lt u s ≡ false
    → has_prefix u p ≡ true
    → has_prefix s p ≡ true
unfolding has_prefix text_lt
has_prefix-between s u [] a b h = refl
has_prefix-between [] u (c ∷ p) a b h = cc
has_prefix-between (x ∷ s) [] (c ∷ p) a b h = cc
has_prefix-between (x ∷ s) (y ∷ u) (c ∷ p) a b h = ground (arith, has_prefix-between s u p)

module _ (p : Text) where
  abbrev before : Text → Bool
  before k = text_lt k p

  after-before :
      (k : Text) (ks : List Text)
      → All (λ j. text_le k j ≡ true) ks
      → before k ≡ false
      → All (λ j. before j ≡ false) ks
  after-before k [] h b = tt
  after-before k (j ∷ ks) h b =
      (ground (arith, text_lt_trans j p k, text_lt_total k p, h.0), after-before k ks h.1 b)

  before-Falling : (ks : List Text) → Ascending ks → Falling before ks
  before-Falling [] h = tt
  before-Falling (k ∷ ks) h = (after-before k ks h.0, before-Falling ks h.1)

  past-step : (k j : Text) → text_le k j ≡ true → not_past p k ≡ false → not_past p j ≡ false
  past-step k j h b =
      ground (arith, text_lt_trans j p k, text_lt_total k p, has_prefix-between k j p)

  past-All :
      (k : Text) (ks : List Text)
      → All (λ j. text_le k j ≡ true) ks
      → not_past p k ≡ false
      → All (λ j. not_past p j ≡ false) ks
  past-All k [] h b = tt
  past-All k (j ∷ ks) h b = (past-step k j h.0 b, past-All k ks h.1 b)

  not_past-Falling : (ks : List Text) → Ascending ks → Falling (not_past p) ks
  not_past-Falling [] h = tt
  not_past-Falling (k ∷ ks) h = (past-All k ks h.0, not_past-Falling ks h.1)

  keep_if-past :
      (ks : List Text) → All (λ j. not_past p j ≡ false) ks → keep_if (λ k. has_prefix k p) ks ≡ []
  keep_if-past [] h = refl
  keep_if-past (k ∷ ks) h = ground (arith, keep_if-past ks h.1, h.0)

  slice-keep_if :
      (ks : List Text)
      → Ascending ks
      → slice ks (count_if before ks) (count_if (not_past p) ks) ≡ keep_if (λ k. has_prefix k p) ks
  slice-keep_if [] h = refl
  slice-keep_if (k ∷ ks) h = elim (Bool-cases (before k)) [
    | inl b ↦ ground (arith, slice-keep_if ks h.1, has_prefix-ge k p)
    | inr b ↦ elim (Bool-cases (has_prefix k p)) [
      | inl q ↦
          ground (arith, slice-keep_if ks h.1, count_if-none before ks (after-before k ks h.0 b))
      | inr q ↦
          let past : not_past p k ≡ false = ground arith in
          ground (
            arith,
            count_if-none before ks (after-before k ks h.0 b),
            count_if-none (not_past p) ks (past-All k ks h.0 past),
            keep_if-past ks (past-All k ks h.0 past),
          )
    ]
  ]

-- Of a view whose keys are in order, the range found by the two binary searches holds exactly the
-- keys with the prefix, in order.
pub prefix_range-slice :
    (v : View) (p : Text)
    → Ascending v.keys
    → slice v.keys (prefix_range v p).0 (prefix_range v p).1 ≡ keep_if (λ k. has_prefix k p) v.keys
unfolding prefix_range
prefix_range-slice v p h =
    rw
      (
        binary_search-count_if (before p) v.keys (before-Falling p v.keys h),
        binary_search-count_if (not_past p) v.keys (not_past-Falling p v.keys h),
      )
      (slice-keep_if p v.keys h)

pub new_view-Ascending : (s : Snapshot) → Ascending (new_view s).keys
unfolding new_view
new_view-Ascending s = sort-Ascending _
