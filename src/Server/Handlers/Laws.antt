-- ===== src/Server/Handlers/Laws.antt =====
-- The prefixes of a request after `prefixes`: what they select, and how many there can be.
use lite_settings.Base.{
  ℕ, ◌≤◌, ◌<◌, ◌↔◌, ◌≡◌, refl, List, [], ◌∷◌, Option, none, some, arith, length,
}
use lite_settings.Base.Text.{Text, has_prefix, requested}
use lite_settings.Client.Prefixes.{unseen, normalize_prefixes}
use lite_settings.Client.Prefixes.Laws.{normalize_prefixes-requested}
use lite_settings.Server.Handlers.{distinct_prefixes, or_everything, prefixes, max_prefixes}

-- The loops of the server and of the client do the same.
distinct_prefixes-unseen : (seen ps : List Text) → distinct_prefixes seen ps ≡ unseen seen ps
unfolding distinct_prefixes unseen
distinct_prefixes-unseen seen [] = refl
distinct_prefixes-unseen seen (p ∷ ps) =
    ground (arith, distinct_prefixes-unseen seen ps, distinct_prefixes-unseen (p ∷ seen) ps)

abbrev out_length : Option (List Text) → ℕ
out_length none = 0
out_length (some out) = length out

length-distinct_prefixes :
    (seen ps : List Text) → out_length (distinct_prefixes seen ps) ≤ length ps
unfolding distinct_prefixes
length-distinct_prefixes seen [] = omega arith
length-distinct_prefixes seen (p ∷ ps) =
    ground (arith, length-distinct_prefixes seen ps, length-distinct_prefixes (p ∷ seen) ps)

requested-or_everything :
    (ps : List Text) (k : Text)
    → requested (or_everything (distinct_prefixes [] ps)) k ≡ requested (normalize_prefixes ps) k
unfolding normalize_prefixes has_prefix
requested-or_everything ps k = ground (arith, distinct_prefixes-unseen [] ps)

-- A request is refused exactly if it names more than 64 prefixes. The list that is served selects
-- the keys that the request selects, and it too has at most 64 prefixes.
pub prefixes-requested :
    (ps : List Text)
    → ((prefixes ps ≡ none) ↔ (max_prefixes < length ps))
      × ((out : List Text)
          → prefixes ps ≡ some out
          → (length out ≤ max_prefixes) × ((k : Text) → requested out k ≡ requested ps k))
unfolding prefixes has_prefix
prefixes-requested [] =
    ((λ h. ground arith, λ h. ground arith), λ out h. (ground arith, λ k. ground arith))
prefixes-requested (p ∷ ps) = (
  (λ h. ground arith, λ h. ground arith),
  λ out h. (
    ground (arith, length-distinct_prefixes [] (p ∷ ps)),
    λ k.
        ground (arith, requested-or_everything (p ∷ ps) k, normalize_prefixes-requested (p ∷ ps) k),
  ),
)
