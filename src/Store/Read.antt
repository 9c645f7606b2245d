-- ===== src/Store/Read.antt =====
-- The reads of store/store.go: Get, History, ListPrefixes and Revision.
pub mod Laws
use lite_settings.Base.{
  ℕ, zero, suc, Bool, true, false, not, List, [], ◌∷◌, Option, none, some, leb, if◌then◌else◌,
  keep_if, take, Result, ok, err, ◌>>=◌, ◌>>◌,
}
use lite_settings.Base.Int.{ℤ, pos, negsuc}
use lite_settings.Base.Sort.{sort_by}
use lite_settings.Base.Text.{Text, text_eq}
use lite_settings.Store.Validate.{
  StoreError, not_found, not_migrated, select_revision, select_history, select_configs,
  validate_key,
}
use lite_settings.Store.Tables.{Config, HistoryEntry, Tables, Env, run, get_config, of_key}
use lite_settings.Store.Dialect.{like_prefix, like}

abbrev pub found : Option Config → Result StoreError Config
found none = err not_found
found (some c) = ok c

unfoldable pub get : Env → Text → Tables → Result StoreError Config
get e key t = do validate_key key; cur ← get_config e key t; found cur

-- `ORDER BY version DESC`.
abbrev pub newest_first : HistoryEntry → HistoryEntry → Bool
newest_first g h = leb h.version g.version

-- `LIMIT ?`, which is left out unless the limit is positive.
abbrev pub limited {ℓ} : {A : Type ℓ} → ℤ → List A → List A
limited (pos zero) xs = xs
limited (pos (suc n)) xs = take (suc n) xs
limited (negsuc n) xs = xs

unfoldable pub history : Env → Text → ℤ → Tables → Result StoreError (List HistoryEntry)
history e key limit t = do
  validate_key key
  run e select_history
  ok (limited limit (sort_by newest_first (of_key key t.history)))

-- The loop over the prefixes: `none` is `all`, and otherwise the bound LIKE patterns. An empty
-- prefix ends the loop and discards the patterns before it.
unfoldable pub like_args : List Text → Option (List Text)
like_args [] = some []
like_args (p ∷ ps) =
    let rest = like_args ps in
    if text_eq p []
    then none
    else elim rest [ none ↦ none | some args ↦ some (like_prefix p ∷ args) ]

-- The patterns joined by OR.
unfoldable pub matches_any : List Text → Text → Bool
matches_any [] k = false
matches_any (a ∷ args) k = let rest = matches_any args k in if like a k then true else rest

abbrev where_clause : Option (List Text) → Config → Bool
where_clause none c = true
where_clause (some args) c = matches_any args c.key

-- No prefix at all means everything.
unfoldable pub selects : List Text → Config → Bool
unfolding like_args matches_any
selects [] c = true
selects (p ∷ ps) c = where_clause (like_args (p ∷ ps)) c

abbrev pub by_key : Env → Config → Config → Bool
by_key e c d = e.key_le c.key d.key

unfoldable pub list_prefixes : Env → List Text → Tables → Result StoreError (List Config)
list_prefixes e prefixes t = do
  run e select_configs
  ok (sort_by (by_key e) (keep_if (selects prefixes) t.configs))

-- `ListPrefix`.
unfoldable pub list_prefix : Env → Text → Tables → Result StoreError (List Config)
unfolding list_prefixes
list_prefix e prefix t = list_prefixes e (prefix ∷ []) t

abbrev scanned : Option ℕ → Result StoreError ℕ
scanned none = err not_migrated
scanned (some r) = ok r

unfoldable pub revision : Env → Tables → Result StoreError ℕ
revision e t = do run e select_revision; scanned t.meta
