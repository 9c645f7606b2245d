-- ===== src/Store/Tables/Rows.antt =====
-- What the statements of Store/Tables do to the rows that a later statement finds.
use lite_settings.Base.{
  ℕ, suc, ◌+◌, ◌≤◌, ◌≡◌, refl, List, [], ◌∷◌, none, some, arith, if◌then◌else◌, length, ok,
}
use lite_settings.Base.Text.{Text, text_eq, text_eq_iff}
use lite_settings.Store.Tables.{
  Config, HistoryEntry, Tables, Env, find_config, upsert_config, delete_config, max_version_of,
  find_version, bump_revision,
}

pub find_config-upsert_config :
    (k : Text) (c : Config) (cs : List Config)
    → find_config k (upsert_config c cs) ≡ (if text_eq c.key k then some c else find_config k cs)
unfolding find_config upsert_config
find_config-upsert_config k c [] = refl
find_config-upsert_config k c (d ∷ ds) = ground (
  arith,
  find_config-upsert_config k c ds,
  text_eq_iff d.key c.key,
  text_eq_iff d.key k,
  text_eq_iff c.key k,
)

pub find_config-delete_config :
    (k j : Text) (cs : List Config)
    → find_config j (delete_config k cs) ≡ (if text_eq k j then none else find_config j cs)
unfolding find_config delete_config
find_config-delete_config k j [] = ground arith
find_config-delete_config k j (d ∷ ds) = ground (
  arith,
  find_config-delete_config k j ds,
  text_eq_iff d.key k,
  text_eq_iff d.key j,
  text_eq_iff k j,
)

-- A row found by its key has that key.
pub find_config-key :
    (k : Text) (cs : List Config) (c : Config) → find_config k cs ≡ some c → c.key ≡ k
unfolding find_config
find_config-key k [] c h = cc
find_config-key k (d ∷ ds) c h = ground (arith, find_config-key k ds c, text_eq_iff d.key k)

-- The versions of a key's rows, newest first, are n, n - 1, …, 1.
abbrev pub Numbered : List HistoryEntry → Type 0
Numbered [] = Unit
Numbered (h ∷ hs) = (h.version ≡ suc (length hs)) × Numbered hs

pub max_version_of-Numbered : (hs : List HistoryEntry) → Numbered hs → max_version_of hs ≡ length hs
unfolding max_version_of
max_version_of-Numbered [] n = refl
max_version_of-Numbered (h ∷ hs) n = omega (arith, max_version_of-Numbered hs n.1)

-- A version above the highest is in no row.
pub find_version_above :
    (v : ℕ) (hs : List HistoryEntry) → suc (max_version_of hs) ≤ v → find_version v hs ≡ none
unfolding max_version_of find_version
find_version_above v [] h = refl
find_version_above v (g ∷ gs) h = ground (arith, find_version_above v gs)

-- What BumpRevision does when it succeeds, in either dialect.
pub bump_revision_ok :
    (e : Env) (t u : Tables) (n : ℕ)
    → bump_revision e t ≡ (u, ok n)
    → (r : ℕ) × (t.meta ≡ some r) × (u ≡ record t { meta = some (r + 1) }) × (n ≡ r + 1)
unfolding bump_revision
bump_revision_ok e t u n h = ground arith
