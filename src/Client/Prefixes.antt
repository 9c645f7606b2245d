-- ===== src/Client/Prefixes.antt =====
-- The prefix helpers of client/client.go.
pub mod Laws
use lite_settings.Base.{
  Bool, true, false, List, [], ◌∷◌, Option, none, some, if◌then◌else◌, keep_if,
}
use lite_settings.Base.Dict.{contains}
use lite_settings.Base.Text.{Text, text_eq, has_prefix}

-- The loop of `normalizePrefixes` after the prefixes `seen`; `none` is the early return at an empty
-- prefix, which drops all of them.
unfoldable pub unseen : List Text → List Text → Option (List Text)
unseen seen [] = some []
unseen seen (p ∷ ps) =
    let rest = unseen (if contains p seen then seen else p ∷ seen) ps in
    if text_eq p []
    then none
    else if contains p seen
    then rest
    else elim rest [ none ↦ none | some out ↦ some (p ∷ out) ]

abbrev or_nil : Option (List Text) → List Text
or_nil none = []
or_nil (some out) = out

unfoldable pub normalize_prefixes : List Text → List Text
unfolding unseen
normalize_prefixes ps = or_nil (unseen [] ps)

-- An empty prefix keeps all keys.
unfoldable pub filter_prefix : List Text → Text → List Text
filter_prefix ks [] = ks
filter_prefix ks (c ∷ p) = keep_if (λ k. has_prefix k (c ∷ p)) ks

unfoldable pub notify_prefixes : List Text → List Text
notify_prefixes [] = [] ∷ []
notify_prefixes (p ∷ ps) = p ∷ ps
