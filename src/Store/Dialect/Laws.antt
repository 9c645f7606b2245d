-- ===== src/Store/Dialect/Laws.antt =====
-- An escaped LIKE pattern matches the texts with the prefix and no others; the placeholders of a
-- query are numbered from 1 in order.
use mathlib.Core.List.{append-nil}
use lite_settings.Base.{
  sym, All, ℕ, suc, ◌≡◌, refl, ◌∙◌, ap, Bool, true, false, List, [], ◌∷◌, ◌++◌, arith, ◌==◌,
  if◌then◌else◌, Bool-cases, inl, inr,
}
use lite_settings.Base.Decimal.{itoa}
use lite_settings.Base.Text.{Text, has_prefix}
use lite_settings.Store.Dialect.{
  rebind_from, rebind_dollar, escape, is_special, like_prefix, like, literal,
}

like-literal :
    (c x : ℕ) (r s : Text) → is_special c ≡ false → like (c ∷ x ∷ r) s ≡ literal c (like (x ∷ r)) s
unfolding like
like-literal c x r s h = ground arith

-- The pattern of a prefix is never empty.
pattern-cons : (p : Text) → (x : ℕ) × (r : Text) × (escape p ++ (b'%' ∷ []) ≡ x ∷ r)
unfolding escape
pattern-cons [] = (b'%', [], refl)
pattern-cons (c ∷ p) = elim (Bool-cases (is_special c)) [
  | inl e ↦ (b'\\', c ∷ (escape p ++ (b'%' ∷ [])), rw e)
  | inr e ↦ (c, escape p ++ (b'%' ∷ []), rw e)
]

like-step :
    (c : ℕ) (p s : Text)
    → like (escape (c ∷ p) ++ (b'%' ∷ [])) s ≡ literal c (like (escape p ++ (b'%' ∷ []))) s
unfolding escape like
like-step c p s =
    let (x, r, q) = pattern-cons p in
    elim (Bool-cases (is_special c)) [
      | inl e ↦ rw e refl
      | inr e ↦ rw (e, q) (like-literal c x r s e)
    ]

-- A text matches the LIKE pattern of a prefix exactly when it has the prefix.
pub like-like_prefix : (p s : Text) → like (like_prefix p) s ≡ has_prefix s p
unfolding like_prefix has_prefix literal like
like-like_prefix [] s = refl
like-like_prefix (c ∷ p) [] = like-step c p []
like-like_prefix (c ∷ p) (d ∷ s) = like-step c p (d ∷ s) ∙ ground (arith, like-like_prefix p s)

-- The parts of a query between its placeholders, put together with `?` and with `$1`, `$2`, ….
abbrev pub with_question : Text → List Text → Text
with_question q [] = q
with_question q (r ∷ rs) = q ++ (b'?' ∷ with_question r rs)

abbrev pub with_dollar : ℕ → Text → List Text → Text
with_dollar n q [] = q
with_dollar n q (r ∷ rs) = q ++ (b'$' ∷ (itoa (suc n) ++ with_dollar (suc n) r rs))

abbrev pub no_question : Text → Bool
no_question [] = true
no_question (c ∷ q) = let rest = no_question q in if c == b'?' then false else rest

rebind_from-append :
    (n : ℕ) (q s : Text) → no_question q ≡ true → rebind_from n (q ++ s) ≡ q ++ rebind_from n s
unfolding rebind_from
rebind_from-append n [] s h = refl
rebind_from-append n (c ∷ q) s h = ground (arith, rebind_from-append n q s)

rebind_from-with_question :
    (n : ℕ) (q : Text) (rs : List Text)
    → no_question q ≡ true
    → All (λ r. no_question r ≡ true) rs
    → rebind_from n (with_question q rs) ≡ with_dollar n q rs
unfolding rebind_from
rebind_from-with_question n q [] h hs =
    ap (rebind_from n) (sym (append-nil q)) ∙ rebind_from-append n q [] h ∙ append-nil q
rebind_from-with_question n q (r ∷ rs) h hs =
    rebind_from-append n q (b'?' ∷ with_question r rs) h
    ∙ ap (λ u. q ++ (b'$' ∷ (itoa (suc n) ++ u))) (rebind_from-with_question (suc n) r rs hs.0 hs.1)

-- Rebind of PostgreSQL turns the placeholders of a query into $1, $2, … in order, and changes
-- nothing else.
pub rebind_dollar-with_question :
    (q : Text) (rs : List Text)
    → no_question q ≡ true
    → All (λ r. no_question r ≡ true) rs
    → rebind_dollar (with_question q rs) ≡ with_dollar 0 q rs
unfolding rebind_dollar
rebind_dollar-with_question q rs h hs = rebind_from-with_question 0 q rs h hs
