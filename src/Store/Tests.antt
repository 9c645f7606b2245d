-- ===== src/Store/Tests.antt =====
-- Runs of package store at concrete inputs, and the store's theorems applied there.
use lite_settings.Base.{
  suc, ◌≡◌, refl, Bool, true, false, List, [], ◌∷◌, some, arith, length, keep_if, ok, err,
}
use lite_settings.Base.Int.{pos}
use lite_settings.Base.Sort.{count_if, Ordered, sort_by, insert_by}
use lite_settings.Base.Text.{requested, text, text_eq}
use lite_settings.Store.Validate.{
  invalid_key, bad_character, Change, Parsers, eof, validate_key, validate_value, validate_change,
  format_raw,
}
use lite_settings.Store.Tables.{
  Config, HistoryEntry, Tables, Env, postgres, committed, of_key, find_config, find_version, set,
  get_config, bump_revision, append_history, max_version_of, upsert_config, delete_config,
}
use lite_settings.Store.Dialect.{like_prefix, like}
use lite_settings.Store.Read.{get, history, list_prefixes, by_key, selects}
use lite_settings.Store.Read.Laws.{list_prefixes-requested}
use lite_settings.Store.Write.{
  write, write_tx, apply_config, set_config, remove_config, rollback_config, resolve_set,
}
use lite_settings.Store.Write.Invariant.{IsConsistent, operations-IsConsistent}
use lite_settings.Store.Write.Effect.{IsWorking, write-err, set_config-succeeds}
use lite_settings.Store.Write.Valid.{AllValid, operations-AllValid, rollback_config-succeeds}
use lite_settings.Store.Log.{log, log_set, log_delete, log_rollback, current}
use lite_settings.Store.Log.Refines.{
  Answers, get-current, set_config-log, remove_config-log, rollback_config-log,
}

-- An engine that works; it lists all keys as equal, which is an order too.
abbrev pub working : Env
working = record {
  dialect = postgres;
  config_time = 7;
  history_time = 8;
  new_id = 1;
  refuses = λ s. false;
  key_le = λ k j. true;
  rows_affected_known = true;
  commit_result = committed;
}

abbrev pub any_value : Parsers
any_value = record { read_value = λ t. ok []; read_token = λ t. err eof; yaml_parses = λ t. true }

abbrev pub migrated : Tables
migrated = record { configs = []; history = []; meta = some 0 }

abbrev pub ann : Change
ann = record { author = text "ann"; comment = text "why" }

abbrev pub once : Tables
once = (set_config working any_value (text "app:a") (text "1") [] ann migrated).0

abbrev pub twice : Tables
twice = (set_config working any_value (text "app:a") (text "2") [] ann once).0

abbrev pub gone : Tables
gone = (remove_config working any_value (text "app:a") ann twice).0

abbrev pub back : Tables
back = (rollback_config working any_value (text "app:a") (pos 1) ann gone).0

-- What a run of the store computes with.
unfoldable pub runs : Unit {0}
unfolding get history list_prefixes selects set_config remove_config rollback_config validate_key
    get_config validate_change write_tx bump_revision validate_value text_eq apply_config
    append_history max_version_of upsert_config delete_config of_key find_version find_config
    like_prefix like sort_by insert_by
runs = tt

read_back : (cfg : Config) × (get working (text "app:a") back ≡ ok cfg) × (cfg.value ≡ text "1")
unfolding runs
read_back = (
  record {
    key = text "app:a";
    value = text "1";
    format = format_raw;
    updated_at = 7;
    updated_by = text "ann";
  },
  refl,
  refl,
)

migrated-IsConsistent : IsConsistent migrated
unfolding of_key find_config
migrated-IsConsistent = record {
  revision = refl;
  numbered = λ k. tt;
  current = λ k. refl;
  distinct = tt;
}

pub once-IsConsistent : IsConsistent once
once-IsConsistent =
    (operations-IsConsistent working any_value (text "app:a") (text "1") [] (pos 0) ann migrated
      migrated-IsConsistent).0

pub twice-IsConsistent : IsConsistent twice
twice-IsConsistent =
    (operations-IsConsistent working any_value (text "app:a") (text "2") [] (pos 0) ann once
      once-IsConsistent).0

gone-IsConsistent : IsConsistent gone
gone-IsConsistent =
    (operations-IsConsistent working any_value (text "app:a") [] [] (pos 0) ann twice
      twice-IsConsistent).1

working-IsWorking : IsWorking working
working-IsWorking = record { accepts = λ s. refl; commits = refl }

operations-IsConsistent_example :
    IsConsistent (set_config working any_value (text "app:a") (text "3") [] ann gone).0
    × IsConsistent (remove_config working any_value (text "app:a") ann gone).0
    × IsConsistent (rollback_config working any_value (text "app:a") (pos 1) ann gone).0
operations-IsConsistent_example =
    operations-IsConsistent working any_value (text "app:a") (text "3") [] (pos 1) ann gone
      gone-IsConsistent

operations-AllValid_example :
    AllValid any_value (set_config working any_value (text "app:a") (text "3") [] ann migrated).0
    × AllValid any_value (remove_config working any_value (text "app:a") ann migrated).0
    × AllValid any_value (rollback_config working any_value (text "app:a") (pos 1) ann migrated).0
operations-AllValid_example =
    operations-AllValid working any_value (text "app:a") (text "3") [] (pos 1) ann migrated tt

write-err_example : (write working any_value (text "a/b") set ann (resolve_set [] []) once).0 ≡ once
unfolding runs write
write-err_example =
    write-err working any_value (text "a/b") set ann (resolve_set [] []) once
      (invalid_key bad_character) refl (λ q. cc)

set_config-succeeds_example :
    (set_config working any_value (text "app:a") (text "2") [] ann once).1
    ≡ ok (record {
      revision = suc (length once.history);
      version = suc (length (of_key (text "app:a") once.history));
    })
unfolding runs
set_config-succeeds_example =
    set_config-succeeds working any_value (text "app:a") (text "2") [] ann once working-IsWorking
      once-IsConsistent refl refl refl

gone-AllValid : AllValid any_value gone
gone-AllValid =
    (operations-AllValid working any_value (text "app:a") [] [] (pos 1) ann twice
      (operations-AllValid working any_value (text "app:a") (text "2") [] (pos 1) ann once
        (operations-AllValid working any_value (text "app:a") (text "1") [] (pos 1) ann migrated
          tt).0).0).1

rollback_config-succeeds_example :
    (h : HistoryEntry) × (row : Config) × (find_version 2 (of_key (text "app:a") gone.history)
      ≡ some h)
    × ((rollback_config working any_value (text "app:a") (pos 2) ann gone).1
        ≡ ok (record {
          revision = suc (length gone.history);
          version = suc (length (of_key (text "app:a") gone.history));
        }))
    × (find_config
          (text "app:a")
          (rollback_config working any_value (text "app:a") (pos 2) ann gone).0.configs
        ≡ some row)
    × (row.value ≡ h.value)
    × (row.format ≡ h.format)
unfolding runs
rollback_config-succeeds_example =
    rollback_config-succeeds working any_value (text "app:a") 2 ann gone working-IsWorking
      gone-IsConsistent gone-AllValid refl (omega arith) (omega arith)

set_config-log_example :
    log_set (text "app:a") (text "2") format_raw ann (log once)
    ≡ (log twice, record { revision = 2; version = 2 })
unfolding runs
set_config-log_example =
    set_config-log working any_value (text "app:a") (text "2") [] ann once twice
      (record { revision = 2; version = 2 }) once-IsConsistent refl

remove_config-log_example :
    log_delete (text "app:a") ann (log twice)
    ≡ some (log gone, record { revision = 3; version = 3 })
unfolding runs
remove_config-log_example =
    remove_config-log working any_value (text "app:a") ann twice gone
      (record { revision = 3; version = 3 }) twice-IsConsistent refl

rollback_config-log_example :
    log_rollback (text "app:a") (pos 1) ann (log gone)
    ≡ some (log back, record { revision = 4; version = 4 })
unfolding runs
rollback_config-log_example =
    rollback_config-log working any_value (text "app:a") (pos 1) ann gone back
      (record { revision = 4; version = 4 }) gone-IsConsistent refl

get-current_example :
    Answers (get working (text "app:a") twice) (current (text "app:a") (log twice))
unfolding runs
get-current_example = get-current working (text "app:a") twice twice-IsConsistent refl refl

list_prefixes-requested_example :
    (cs : List Config) × (list_prefixes working (text "app:" ∷ []) twice ≡ ok cs)
    × ((q : Config → Bool)
        → count_if q cs
          ≡ count_if q (keep_if (λ c. requested (text "app:" ∷ []) c.key) twice.configs))
    × Ordered (by_key working) cs
list_prefixes-requested_example =
    list_prefixes-requested working (text "app:" ∷ []) twice refl (λ k j i a b. refl) (λ k j a. cc)
