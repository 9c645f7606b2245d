-- ===== src/Client/View.antt =====
-- client/wire.go and client/view.go: snapshots, the view built of one, the difference of two views,
-- and the range of keys under a prefix. The decode cache of a view is in Client/Decode.
pub mod Search
pub mod Range
pub mod Diff
use lite_settings.Base.{
  ℕ, zero, suc, ◌+◌, ◌-◌, ◌/◌, Bool, true, false, not, ◌||◌, List, [], ◌∷◌, ◌++◌, Option, none,
  some, ltb, if◌then◌else◌, length, get_elem?, take, drop, map,
}
use lite_settings.Base.Int.{ℤ, minus_one}
use lite_settings.Base.Dict.{lookup, put, keys}
use lite_settings.Base.Sort.{sort}
use lite_settings.Base.Text.{Text, text_eq, text_lt, has_prefix}

-- One entry of a snapshot.
pub record Config : Type 0 where
  pub key : Text
  pub value : Text
  pub format : Text

pub record Snapshot : Type 0 where
  pub revision : ℤ
  pub configs : List Config

pub record View : Type 0 where
  pub revision : ℤ
  pub by_key : List (Text × Config)
  pub keys : List Text

abbrev pub config_keys : List Config → List Text
config_keys [] = []
config_keys (c ∷ cs) = c.key ∷ config_keys cs

-- The loop of `newView` over the map: a later entry of a key replaces an earlier one.
unfoldable pub add_configs : List Config → List (Text × Config) → List (Text × Config)
add_configs [] m = m
add_configs (c ∷ cs) m = add_configs cs (put c.key c m)

unfoldable pub new_view : Snapshot → View
unfolding add_configs
new_view s = record {
  revision = s.revision;
  by_key = add_configs s.configs [];
  keys = sort (config_keys s.configs);
}

abbrev pub empty_view : View
empty_view = record { revision = minus_one; by_key = []; keys = [] }

-- `toWire`: an absent key would read as the zero Config.
abbrev config_or_zero : Option Config → Config
config_or_zero none = record { key = []; value = []; format = [] }
config_or_zero (some c) = c

unfoldable pub to_wire : View → Snapshot
to_wire v = record {
  revision = v.revision;
  configs = map (λ k. config_or_zero (lookup k v.by_key)) v.keys;
}

-- `!ok || oc.Value != nc.Value || oc.Format != nc.Format`.
abbrev pub differs : Option Config → Config → Bool
differs none nc = true
differs (some oc) nc = if text_eq oc.value nc.value then not (text_eq oc.format nc.format) else true

-- The two loops of `diff`.
unfoldable pub diff_new : List (Text × Config) → List (Text × Config) → List Text
diff_new old [] = []
diff_new old ((k, nc) ∷ m) =
    let rest = diff_new old m in if differs (lookup k old) nc then k ∷ rest else rest

abbrev pub is_none : Option Config → Bool
is_none none = true
is_none (some c) = false

unfoldable pub diff_old : List (Text × Config) → List (Text × Config) → List Text
diff_old [] new = []
diff_old ((k, oc) ∷ m) new =
    let rest = diff_old m new in if is_none (lookup k new) then k ∷ rest else rest

unfoldable pub diff : View → View → List Text
unfolding diff_new diff_old
diff old new = sort (diff_new old.by_key new.by_key ++ diff_old old.by_key new.by_key)

-- The loop of `slices.BinarySearchFunc`, where `less k` says that the comparison is negative; each
-- round halves `j - i`, so the length of the list is enough fuel.
unfoldable pub search_from : ℕ → (Text → Bool) → List Text → ℕ → ℕ → ℕ
search_from zero less xs i j = i
search_from (suc f) less xs i j =
    let h = (i + j) / 2 in
    let upper = search_from f less xs (h + 1) j in
    let lower = search_from f less xs i h in
    let next : ℕ = elim (get_elem? xs h) [ none ↦ i | some x ↦ if less x then upper else lower ] in
    if ltb i j then next else i

unfoldable pub binary_search : (Text → Bool) → List Text → ℕ
unfolding search_from
binary_search less xs = search_from (length xs) less xs 0 (length xs)

-- The comparison that settles on the first key past the run.
abbrev pub not_past : Text → Text → Bool
not_past p k = if has_prefix k p then true else text_lt k p

unfoldable pub prefix_range : View → Text → ℕ × ℕ
unfolding binary_search
prefix_range v p = (binary_search (λ k. text_lt k p) v.keys, binary_search (not_past p) v.keys)

-- `keys[lo:hi]`.
abbrev pub slice {ℓ} : {A : Type ℓ} → List A → ℕ → ℕ → List A
slice xs lo hi = take (hi - lo) (drop lo xs)
