-- ===== src/Server/Handlers.antt =====
-- server/handler.go: the handlers as functions from what a request and the clock of the server give
-- to a response. A handler that sends several queries is given the engine and the tables at each.
pub mod Laws
use lite_settings.Base.{
  ℕ, zero, suc, ◌≤◌, Bool, true, false, not, ◌&&◌, List, [], ◌∷◌, Option, none, some, leb, ltb,
  if◌then◌else◌, length, map, Result, ok, err, ◌>>=◌, ◌>>◌,
}
use lite_settings.Base.Int.{ℤ, pos, negsuc, minus_one, is_negative, int_min}
use lite_settings.Base.Dict.{contains}
use lite_settings.Base.Text.{Text, text, text_eq}
use lite_settings.Store.Validate.{
  StoreError, not_found, not_migrated, invalid_key, invalid_value, invalid_change,
  unsupported_driver, driver, format_raw, format_json, format_yaml,
}
use lite_settings.Store.Tables.{Config, HistoryEntry, Tables, Env, Op}
use lite_settings.Store.Read
use lite_settings.Store.Read.{list_prefixes}
use lite_settings.Server.Watcher.{Watcher, health}

-- One entry of `api.Snapshot`.
pub record ApiConfig : Type 0 where
  pub key : Text
  pub value : Text
  pub format : Text

pub record ApiSnapshot : Type 0 where
  pub revision : ℤ
  pub configs : List ApiConfig

pub data Body (A : Type 0) : Type 0 where
  body : ℕ → A → Body A
  error_body : ℕ → Body A
  no_body : ℕ → Body A
  no_reply : Body A

-- `errors.Is(err, context.Canceled)` of an error of the driver is `cancelled`.
unfoldable pub fail : {A : Type 0} → Bool → StoreError → Body A
fail cancelled not_found = error_body 404
fail cancelled (invalid_key f) = error_body 400
fail cancelled (invalid_value f) = error_body 400
fail cancelled (invalid_change f) = error_body 400
fail cancelled not_migrated = error_body 503
fail cancelled (unsupported_driver d) = error_body 500
fail cancelled (driver s) = if cancelled then no_reply else error_body 500

abbrev pub reply : {A : Type 0} → Bool → Result StoreError A → Body A
reply cancelled (ok a) = body 200 a
reply cancelled (err e) = fail cancelled e

-- The engine and the tables that one query meets.
pub record Query : Type 0 where
  pub env : Env
  pub tables : Tables

abbrev pub revision_at : Query → Result StoreError ℤ
revision_at q = do r ← Read.revision q.env q.tables; ok (pos r)

-- The watcher's watermark, or the database's before the first poll.
unfoldable pub observed_revision : Watcher → Query → Result StoreError ℤ
unfolding health
observed_revision w q = let (ready, rev, _) = health w in if ready then ok rev else revision_at q

abbrev pub api_config : Config → ApiConfig
api_config c = record { key = c.key; value = c.value; format = c.format }

-- The watermark of the database is read before the data.
unfoldable pub snapshot : Query → Query → ℤ → List Text → Result StoreError ApiSnapshot
snapshot q₁ q₂ rev ps = do
  db_rev ← revision_at q₁
  cfgs ← list_prefixes q₂.env ps q₂.tables
  ok (record { revision = int_min rev db_rev; configs = map api_config cfgs })

abbrev pub max_prefixes : ℕ
max_prefixes = 64

-- The loop of `prefixes`, after the prefixes `seen`; `none` is the return at an empty prefix.
unfoldable pub distinct_prefixes : List Text → List Text → Option (List Text)
distinct_prefixes seen [] = some []
distinct_prefixes seen (p ∷ ps) =
    let rest = distinct_prefixes (if contains p seen then seen else p ∷ seen) ps in
    if text_eq p []
    then none
    else if contains p seen
    then rest
    else elim rest [ none ↦ none | some out ↦ some (p ∷ out) ]

abbrev pub or_everything : Option (List Text) → List Text
or_everything none = [] ∷ []
or_everything (some out) = out

-- `none` is the error for too many prefixes.
unfoldable pub prefixes : List Text → Option (List Text)
unfolding distinct_prefixes
prefixes [] = some ([] ∷ [])
prefixes (p ∷ ps) =
    if ltb max_prefixes (length (p ∷ ps))
    then none
    else some (or_everything (distinct_prefixes [] (p ∷ ps)))

-- `handleList`.
unfoldable pub handle_list : Bool → Watcher → Query → Query → Query → List Text → Body ApiSnapshot
handle_list cancelled w q₀ q₁ q₂ ps = elim (observed_revision w q₀) [
  | err e ↦ fail cancelled e
  | ok rev ↦ elim (prefixes ps) [
    | none ↦ error_body 400
    | some out ↦ reply cancelled (snapshot q₁ q₂ rev out)
  ]
]

-- The revision of the query string: absent, not an integer, or an integer.
pub data Since : Type 0 where
  absent malformed : Since
  since : ℤ → Since

abbrev pub baseline : Since → Option ℤ
baseline absent = some minus_one
baseline malformed = none
baseline (since n) = some n

-- The rest of `handleWatch` after `Wait` returned: a negative watermark is that of no poll yet.
unfoldable pub after_wait :
    Bool → Watcher → Query → Query → Query → List Text → ℤ → Bool → Body ApiSnapshot
after_wait cancelled w q₀ q₁ q₂ ps rev false = no_body 304
after_wait cancelled w q₀ q₁ q₂ ps rev true =
    let known : Result StoreError ℤ = if is_negative rev then observed_revision w q₀ else ok rev in
    reply cancelled (known >>= λ r. snapshot q₁ q₂ r ps)

-- `handleWatch`, where `waited` is what `Wait` returns for a baseline.
unfoldable pub handle_watch :
    Bool → Watcher → Query → Query → Query → List Text → Since → (ℤ → ℤ × Bool) → Body ApiSnapshot
unfolding after_wait
handle_watch cancelled w q₀ q₁ q₂ ps s waited = elim (baseline s) [
  | none ↦ error_body 400
  | some n ↦ elim (prefixes ps) [
    | none ↦ error_body 400
    | some out ↦ after_wait cancelled w q₀ q₁ q₂ out (waited n).0 (waited n).1
  ]
]
