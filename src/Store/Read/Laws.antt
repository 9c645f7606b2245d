-- ===== src/Store/Read/Laws.antt =====
-- What the reads return: the rows under any of the prefixes, each once, and a key's versions in
-- descending order.
use mathlib.Core.Path.{fun_ext}
use lite_settings.Store.Validate.{select_configs, select_history, validate_key}
use lite_settings.Base.{
  ◌≤◌, ℕ, ◌≡◌, refl, Bool, true, false, List, [], ◌∷◌, Option, none, some, arith, leb, keep_if,
  length, All, ok,
}
use lite_settings.Base.Int.{ℤ}
use lite_settings.Base.Sort.{
  sort_by, count_if, count_if-sort_by, Ordered, sort_by-Ordered, sort_by-Ordered_id,
}
use lite_settings.Base.Text.{under_any, requested, Text, text_eq, text_eq_iff, has_prefix}
use lite_settings.Store.Tables.{Config, HistoryEntry, Tables, Env, of_key}
use lite_settings.Store.Tables.Rows.{Numbered}
use lite_settings.Store.Dialect.Laws.{like-like_prefix}
use lite_settings.Store.Read.{
  history, newest_first, limited, like_args, matches_any, selects, by_key, list_prefixes,
}

has_prefix-nil : (k p : Text) → text_eq p [] ≡ true → has_prefix k p ≡ true
unfolding has_prefix
has_prefix-nil k [] h = refl
has_prefix-nil k (c ∷ p) h = ground (arith, text_eq_iff (c ∷ p) [])

where_args : Option (List Text) → Text → Bool
where_args none k = true
where_args (some args) k = matches_any args k

where_args-like_args : (ps : List Text) (k : Text) → where_args (like_args ps) k ≡ under_any ps k
unfolding where_args like_args matches_any
where_args-like_args [] k = refl
where_args-like_args (p ∷ ps) k =
    ground (arith, where_args-like_args ps k, like-like_prefix p k, has_prefix-nil k p)

pub selects-requested : (ps : List Text) (c : Config) → selects ps c ≡ requested ps c.key
unfolding selects where_args
selects-requested [] c = refl
selects-requested (p ∷ ps) c = ground (arith, where_args-like_args (p ∷ ps) c.key)

-- ListPrefixes, where the engine does not refuse the query and its order of keys is total and
-- transitive, returns each row under one of the prefixes as often as the table holds it, and no
-- other, in the engine's order of the keys.
pub list_prefixes-requested :
    (e : Env) (ps : List Text) (t : Tables)
    → e.refuses select_configs ≡ false
    → ((k j i : Text) → e.key_le k j ≡ true → e.key_le j i ≡ true → e.key_le k i ≡ true)
    → ((k j : Text) → e.key_le k j ≡ false → e.key_le j k ≡ true)
    → (cs : List Config) × (list_prefixes e ps t ≡ ok cs)
      × ((q : Config → Bool)
          → count_if q cs ≡ count_if q (keep_if (λ c. requested ps c.key) t.configs))
      × Ordered (by_key e) cs
unfolding list_prefixes
list_prefixes-requested e ps t h trans total = (
  sort_by (by_key e) (keep_if (λ c. requested ps c.key) t.configs),
  rw (h, fun_ext (selects-requested ps)),
  λ q. count_if-sort_by (by_key e) q _,
  sort_by-Ordered (by_key e) (λ c d f. trans c.key d.key f.key) (λ c d. total c.key d.key)
      (keep_if (λ c. requested ps c.key) t.configs),
)

Numbered-newest :
    (n : ℕ) (hs : List HistoryEntry)
    → Numbered hs
    → length hs ≤ n
    → All (λ h. leb h.version n ≡ true) hs
Numbered-newest n [] h l = tt
Numbered-newest n (g ∷ gs) h l = (ground arith, Numbered-newest n gs h.1 (omega arith))

Numbered-Ordered : (hs : List HistoryEntry) → Numbered hs → Ordered newest_first hs
Numbered-Ordered [] h = tt
Numbered-Ordered (g ∷ gs) h =
    (Numbered-newest g.version gs h.1 (omega arith), Numbered-Ordered gs h.1)

-- With the versions numbered and a valid key, History returns the rows as they were appended, the
-- newest first, and at most as many as a positive limit says.
pub history-newest :
    (e : Env) (key : Text) (limit : ℤ) (t : Tables)
    → validate_key key ≡ ok tt
    → e.refuses select_history ≡ false
    → Numbered (of_key key t.history)
    → history e key limit t ≡ ok (limited limit (of_key key t.history))
unfolding history
history-newest e key limit t hk h n =
    rw (hk, h, sort_by-Ordered_id newest_first (of_key key t.history) (Numbered-Ordered _ n))
