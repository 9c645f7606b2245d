-- ===== src/Client/Prefixes/Laws.antt =====
-- Normalized prefixes ask for the same keys, name none twice and none that is empty.
use lite_settings.Base.{
  ◌≡◌, refl, subst, sym, Bool, true, false, List, [], ◌∷◌, Option, none, some, arith, if◌then◌else◌,
  keep_if, Bool-cases, inl, inr, Option-cases,
}
use lite_settings.Base.Dict.{contains, Distinct}
use lite_settings.Base.Text.{under_any, requested, Text, text_eq, text_eq_iff, has_prefix}
use lite_settings.Client.Prefixes.{unseen, normalize_prefixes, filter_prefix}

abbrev covers : Option (List Text) → Text → Bool
covers none k = true
covers (some out) k = under_any out k

has_prefix-nil : (k p : Text) → text_eq p [] ≡ true → has_prefix k p ≡ true
unfolding has_prefix
has_prefix-nil k [] h = refl
has_prefix-nil k (c ∷ p) h = ground (arith, text_eq_iff (c ∷ p) [])

under_any-contains :
    (p : Text) (seen : List Text) (k : Text)
    → contains p seen ≡ true
    → has_prefix k p ≡ true
    → under_any seen k ≡ true
unfolding contains
under_any-contains p [] k h q = cc
under_any-contains p (s ∷ seen) k h q = ground (arith, under_any-contains p seen k, text_eq_iff s p)

covers-unseen :
    (seen ps : List Text) (k : Text)
    → (if under_any seen k then true else covers (unseen seen ps) k)
      ≡ (if under_any seen k then true else under_any ps k)
unfolding unseen
covers-unseen seen [] k = refl
covers-unseen seen (p ∷ ps) k = ground (
  arith,
  covers-unseen seen ps k,
  covers-unseen (p ∷ seen) ps k,
  under_any-contains p seen k,
  has_prefix-nil k p,
)

-- A normalized list asks for exactly the keys that the list asks for; an empty list, and an empty
-- prefix in it, ask for all keys.
pub normalize_prefixes-requested :
    (ps : List Text) (k : Text) → requested (normalize_prefixes ps) k ≡ requested ps k
unfolding normalize_prefixes contains
normalize_prefixes-requested [] k = refl
normalize_prefixes-requested (p ∷ ps) k =
    ground (arith, covers-unseen (p ∷ []) ps k, has_prefix-nil k p)

unseen-cons :
    (seen : List Text) (p : Text) (ps out : List Text)
    → contains p seen ≡ false
    → unseen seen (p ∷ ps) ≡ some out
    → (r : List Text) × (unseen (p ∷ seen) ps ≡ some r) × (out ≡ p ∷ r) × (text_eq p [] ≡ false)
unfolding unseen
unseen-cons seen p ps out c h = ground arith

unseen-seen :
    (seen : List Text) (p : Text) (ps out : List Text)
    → contains p seen ≡ true
    → unseen seen (p ∷ ps) ≡ some out
    → unseen seen ps ≡ some out
unfolding unseen
unseen-seen seen p ps out c h = ground arith

unseen-nil : (seen out : List Text) → unseen seen [] ≡ some out → out ≡ []
unfolding unseen
unseen-nil seen out h = cc

-- Each prefix of the result is new, not empty, and named once.
pub record Fresh (seen out : List Text) : Type 0 where
  pub new : (k : Text) → contains k seen ≡ true → contains k out ≡ false
  pub distinct : Distinct out
  pub full : contains [] out ≡ false

Fresh-cons :
    (seen : List Text) (p : Text) (r : List Text)
    → text_eq p [] ≡ false
    → contains p seen ≡ false
    → Fresh (p ∷ seen) r
    → Fresh seen (p ∷ r)
unfolding contains
Fresh-cons seen p r h c f = record {
  new = λ k m. ground (arith, f.new k, text_eq_iff p k);
  distinct = (f.new p (ground (arith, text_eq_iff p p)), f.distinct);
  full = ground (arith, f.full);
}

unseen-Fresh : (seen ps out : List Text) → unseen seen ps ≡ some out → Fresh seen out
unseen-Fresh seen [] out h =
    subst (Fresh seen) (sym (unseen-nil seen out h))
      (record { new = λ k m. contains-nil k; distinct = tt; full = contains-nil [] })
  where
    contains-nil : (k : Text) → contains k [] ≡ false
    contains-nil k = unfold contains in refl
unseen-Fresh seen (p ∷ ps) out h = elim (Bool-cases (contains p seen)) [
  | inl old ↦ unseen-Fresh seen ps out (unseen-seen seen p ps out old h)
  | inr new ↦
      let (r, q, e, x) = unseen-cons seen p ps out new h in
      subst (Fresh seen) (sym e) (Fresh-cons seen p r x new (unseen-Fresh (p ∷ seen) ps r q))
]

-- A normalized list names no prefix twice, and no empty one.
pub normalize_prefixes-Distinct :
    (ps : List Text)
    → Distinct (normalize_prefixes ps) × (contains [] (normalize_prefixes ps) ≡ false)
unfolding normalize_prefixes contains
normalize_prefixes-Distinct ps = elim (Option-cases (unseen [] ps)) [
  | inl e ↦ rw e (tt, refl)
  | inr (out, e) ↦ rw e ((unseen-Fresh [] ps out e).distinct, (unseen-Fresh [] ps out e).full)
]

pub contains-keep_if :
    (f : Text → Bool) (k : Text) (ks : List Text)
    → contains k (keep_if f ks) ≡ (if contains k ks then f k else false)
unfolding contains
contains-keep_if f k [] = refl
contains-keep_if f k (j ∷ ks) = elim (Bool-cases (text_eq j k)) [
  | inl e ↦ rw ((text_eq_iff j k).0 e) (ground (arith, contains-keep_if f k ks, text_eq_iff k k))
  | inr e ↦ ground (arith, contains-keep_if f k ks)
]

-- The keys that the filter keeps are those with the prefix.
pub contains-filter_prefix :
    (ks : List Text) (p k : Text)
    → contains k (filter_prefix ks p) ≡ (if contains k ks then has_prefix k p else false)
unfolding filter_prefix has_prefix
contains-filter_prefix ks [] k = ground arith
contains-filter_prefix ks (c ∷ p) k = contains-keep_if (λ j. has_prefix j (c ∷ p)) k ks
