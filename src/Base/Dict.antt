-- ===== src/Base/Dict.antt =====
-- Go maps keyed by strings: association lists. `put` is `m[k] = v`; the order of the list stands for
-- the unspecified order of iteration.
use mathlib.Core.Path.{◌≡◌, refl}
use mathlib.Core.Bool.{Bool, true, false}
use mathlib.Core.Option.{Option, none, some}
use mathlib.Core.List.{List, [], ◌∷◌}
use native.Mathlib.Omega.{arith}
use lite_settings.Base.Tests.{if◌then◌else◌}
use lite_settings.Base.Text.{Text, text_eq, text_eq_iff}

-- Membership of a string in a slice.
unfoldable pub contains : Text → List Text → Bool
contains k [] = false
contains k (j ∷ js) = let rest = contains k js in if text_eq j k then true else rest

-- No string stands twice.
abbrev pub Distinct : List Text → Type 0
Distinct [] = Unit
Distinct (k ∷ ks) = (contains k ks ≡ false) × Distinct ks

module _ {V : Type 0} where
  unfoldable pub lookup : Text → List (Text × V) → Option V
  lookup k [] = none
  lookup k ((j, bound) ∷ entries) =
      let rest = lookup k entries in if text_eq j k then some bound else rest

  unfoldable pub put : Text → V → List (Text × V) → List (Text × V)
  put k bound [] = (k, bound) ∷ []
  put k bound ((j, other) ∷ entries) =
      let rest = put k bound entries in
      if text_eq j k then (k, bound) ∷ entries else (j, other) ∷ rest

  unfoldable pub keys : List (Text × V) → List Text
  keys [] = []
  keys ((j, bound) ∷ entries) = j ∷ keys entries

  pub lookup-put :
      (k j : Text) (bound : V) (entries : List (Text × V))
      → lookup j (put k bound entries) ≡ (if text_eq k j then some bound else lookup j entries)
  unfolding lookup put
  lookup-put k j bound [] = refl
  lookup-put k j bound ((i, other) ∷ entries) =
      ground
        (arith, text_eq_iff k j, text_eq_iff i k, text_eq_iff i j, lookup-put k j bound entries)

  pub contains-keys-put :
      (k j : Text) (bound : V) (entries : List (Text × V))
      → contains j (keys (put k bound entries))
        ≡ (if text_eq k j then true else contains j (keys entries))
  unfolding contains keys put
  contains-keys-put k j bound [] = refl
  contains-keys-put k j bound ((i, other) ∷ entries) = ground (
    arith,
    text_eq_iff k j,
    text_eq_iff i k,
    text_eq_iff i j,
    contains-keys-put k j bound entries,
  )

  pub put-Distinct :
      (k : Text) (bound : V) (entries : List (Text × V))
      → Distinct (keys entries)
      → Distinct (keys (put k bound entries))
  unfolding keys put contains
  put-Distinct k bound [] h = (refl, tt)
  put-Distinct k bound ((i, other) ∷ entries) h = ground (
    arith,
    text_eq_iff i k,
    text_eq_iff k i,
    put-Distinct k bound entries h.1,
    contains-keys-put k i bound entries,
  )

  -- A key is listed exactly when it is bound.
  pub contains-keys :
      (k : Text) (entries : List (Text × V))
      → contains k (keys entries) ≡ (elim (lookup k entries) [ none ↦ false | some _ ↦ true ])
  unfolding contains keys lookup
  contains-keys k [] = refl
  contains-keys k ((j, bound) ∷ entries) = ground (arith, contains-keys k entries)
