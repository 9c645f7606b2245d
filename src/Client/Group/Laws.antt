-- ===== src/Client/Group/Laws.antt =====
-- The keys of a group are the view's keys with the prefix, relative to it.
use mathlib.Core.Path.{ap₂}
use lite_settings.Base.{◌≡◌, refl, ◌∙◌, ap, List, [], ◌∷◌, ◌++◌, keep_if, map, Bool-cases, inl, inr}
use lite_settings.Base.Sort.{Ascending}
use lite_settings.Base.Text.{Text, has_prefix, trim_prefix, trim_prefix-append}
use lite_settings.Client.View.Range.{prefix_range-slice}
use lite_settings.Client.Group.{Group, group_keys}

absolute :
    (p : Text) (ks : List Text)
    → map (λ k. p ++ k) (map (λ k. trim_prefix k p) (keep_if (λ k. has_prefix k p) ks))
      ≡ keep_if (λ k. has_prefix k p) ks
absolute p [] = refl
absolute p (k ∷ ks) = elim (Bool-cases (has_prefix k p)) [
  | inl e ↦ rw e (ap₂ (λ j js. j ∷ js) (trim_prefix-append k p e) (absolute p ks))
  | inr e ↦ rw e (absolute p ks)
]

-- The keys of a group of a view whose keys are in order, with the group's prefix put before each,
-- are exactly the view's keys with that prefix, in order.
pub group_keys-absolute :
    (g : Group)
    → Ascending g.snap.keys
    → map (λ k. g.prefix ++ k) (group_keys g) ≡ keep_if (λ k. has_prefix k g.prefix) g.snap.keys
unfolding group_keys
group_keys-absolute g h =
    ap (λ ks. map (λ k. g.prefix ++ k) (map (λ k. trim_prefix k g.prefix) ks))
      (prefix_range-slice g.snap g.prefix h)
    ∙ absolute g.prefix g.snap.keys
