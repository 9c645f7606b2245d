-- ===== src/Store/Tables.antt =====
-- The three tables of store/migrations and the SQL statements of store/store.go, mysql.go and
-- postgres.go as functions on them. A table is a list of rows; `history` has the newest row first.
-- What the database engine decides (time, generated ids, the order of texts, refused statements) is
-- the record `Env`.
pub mod Rows
use lite_settings.Base.{
  ℕ, zero, suc, ◌+◌, ◌≤◌, max, Bool, true, false, ◌&&◌, not, List, [], ◌∷◌, Option, none, some, leb,
  ◌==◌, if◌then◌else◌, keep_if, length, Result, ok, err, ◌>>=◌, ◌>>◌, require,
}
use lite_settings.Base.Text.{Text, text, text_eq}
use lite_settings.Store.Validate.{
  StoreError, not_found, not_migrated, driver, unsupported_driver, Statement, begin,
  update_revision, select_revision, select_config, select_version, exec, max_version,
  insert_history, commit, Change,
}

pub record Config : Type 0 where
  pub key : Text
  pub value : Text
  pub format : Text
  pub updated_at : ℕ
  pub updated_by : Text

pub data Op : Type 0 where
  set delete rollback : Op

pub record HistoryEntry : Type 0 where
  pub id : ℕ
  pub key : Text
  pub value : Text
  pub format : Text
  pub version : ℕ
  pub op : Op
  pub comment : Text
  pub created_at : ℕ
  pub created_by : Text

-- `meta` is the row id = 1 of lite_config_meta, which Migrate seeds.
pub record Tables : Type 0 where
  pub configs : List Config
  pub history : List HistoryEntry
  pub meta : Option ℕ

-- The two implementations of the interface `Dialect`.
pub data Dialect : Type 0 where
  mysql postgres : Dialect

-- How a COMMIT ends: an error may be reported although the transaction took effect.
pub data CommitResult : Type 0 where
  committed commit_lost commit_unreported : CommitResult

pub record Env : Type 0 where
  pub dialect : Dialect
  pub config_time : ℕ
  pub history_time : ℕ
  pub new_id : ℕ
  pub refuses : Statement → Bool
  pub key_le : Text → Text → Bool
  pub rows_affected_known : Bool
  pub commit_result : CommitResult

-- A statement that the engine refuses is an error of the driver.
abbrev pub run : Env → Statement → Result StoreError (Unit {0})
run e s = require (not (e.refuses s)) (driver s)

-- `SELECT … FROM lite_config WHERE config_key = ?`.
unfoldable pub find_config : Text → List Config → Option Config
find_config k [] = none
find_config k (c ∷ cs) = let rest = find_config k cs in if text_eq c.key k then some c else rest

-- `getConfig`: an absent row is no error.
unfoldable pub get_config : Env → Text → Tables → Result StoreError (Option Config)
unfolding find_config
get_config e k t = do run e select_config; ok (find_config k t.configs)

-- `UpsertConfig`, of both dialects: the primary key is config_key.
unfoldable pub upsert_config : Config → List Config → List Config
upsert_config c [] = c ∷ []
upsert_config c (d ∷ ds) =
    let rest = upsert_config c ds in if text_eq d.key c.key then c ∷ ds else d ∷ rest

-- `DELETE FROM lite_config WHERE config_key = ?`.
unfoldable pub delete_config : Text → List Config → List Config
delete_config k = keep_if (λ c. not (text_eq c.key k))

-- The rows of one key, newest first.
unfoldable pub of_key : Text → List HistoryEntry → List HistoryEntry
of_key k = keep_if (λ h. text_eq h.key k)

-- `SELECT COALESCE(MAX(version), 0) …`.
unfoldable pub max_version_of : List HistoryEntry → ℕ
max_version_of [] = 0
max_version_of (h ∷ hs) = max h.version (max_version_of hs)

-- `SELECT value, format … WHERE config_key = ? AND version = ?`.
unfoldable pub find_version : ℕ → List HistoryEntry → Option HistoryEntry
find_version v [] = none
find_version v (h ∷ hs) = let rest = find_version v hs in if h.version == v then some h else rest

-- The column id of lite_config_meta after `UPDATE … SET revision = revision + 1 WHERE id = 1`.
abbrev pub bumped : Option ℕ → Option ℕ
bumped none = none
bumped (some r) = some (r + 1)

-- `SELECT revision … WHERE id = 1` into a variable: no row is an error of the driver.
abbrev scan_revision : Option ℕ → Result StoreError ℕ
scan_revision none = err (driver select_revision)
scan_revision (some r) = ok r

-- A step of a transaction, on its own view of the tables: what was written before an error is in that
-- view until the transaction ends.
abbrev pub Tx : Type 0 → Type 0
Tx A = Tables → Tables × Result StoreError A

abbrev pub bind : {A B : Type 0} → Tx A → (A → Tx B) → Tx B
bind step go_on t = let (u, r) = step t in elim r [ ok a ↦ go_on a u | err x ↦ (u, err x) ]

abbrev pub reads : {A : Type 0} → (Tables → Result StoreError A) → Tx A
reads query t = (t, query t)

abbrev pub execute : Env → Statement → (Tables → Tables) → Tx (Unit {0})
execute e s effect t = (if e.refuses s then t else effect t, run e s)

abbrev set_meta : Tables → Tables
set_meta t = record t { meta = bumped t.meta }

abbrev no_row : Tables → Bool
no_row t = elim t.meta [ none ↦ true | some _ ↦ false ]

-- `MySQL.BumpRevision`: an UPDATE, its count of rows where the driver knows it, and a SELECT.
unfoldable pub bump_mysql : Env → Tx ℕ
bump_mysql e = bind (execute e update_revision set_meta) (λ _.
    bind (reads (λ t. require (not (e.rows_affected_known && no_row t)) not_migrated))
      (λ _. bind (reads (λ t. run e select_revision)) (λ _. reads (λ t. scan_revision t.meta))))

abbrev returned_revision : Option ℕ → Result StoreError ℕ
returned_revision none = err not_migrated
returned_revision (some r) = ok r

-- `Postgres.BumpRevision`: UPDATE … RETURNING.
unfoldable pub bump_postgres : Env → Tx ℕ
bump_postgres e =
    bind (execute e update_revision set_meta) (λ _. reads (λ t. returned_revision t.meta))

unfoldable pub bump_revision : Env → Tx ℕ
unfolding bump_mysql bump_postgres
bump_revision e = elim e.dialect [ mysql ↦ bump_mysql e | postgres ↦ bump_postgres e ]

-- `UNIQUE (config_key, version)` of lite_config_history.
unfoldable pub version_taken : Text → ℕ → List HistoryEntry → Bool
unfolding find_version of_key
version_taken k v hs = elim (find_version v (of_key k hs)) [ none ↦ false | some _ ↦ true ]

-- `INSERT INTO lite_config_history`.
unfoldable pub append_history : Env → HistoryEntry → Tx (Unit {0})
unfolding version_taken
append_history e h t =
    if version_taken h.key h.version t.history
    then (t, err (driver insert_history))
    else execute e insert_history (λ u. record u { history = h ∷ u.history }) t
