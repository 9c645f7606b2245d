-- ===== src/Store/Write.antt =====
-- The write transaction of store/store.go and the three operations that share it. The value that an
-- operation resolves is read inside the transaction; an error discards all that it wrote.
pub mod Wrote
pub mod Invariant
pub mod Effect
pub mod Valid
use lite_settings.Base.{
  ℕ, zero, suc, ◌+◌, Bool, true, false, List, [], ◌∷◌, Option, none, some, if◌then◌else◌, Result,
  ok, err, ◌>>=◌, ◌>>◌,
}
use lite_settings.Base.Int.{ℤ, pos, negsuc}
use lite_settings.Base.Text.{Text, text_eq}
use lite_settings.Store.Validate.{
  StoreError, not_found, driver, Statement, begin, exec, select_version, max_version, commit,
  Change, Parsers, format_raw, validate_key, validate_change, validate_value,
}
use lite_settings.Store.Tables.{
  Config, Op, set, delete, rollback, HistoryEntry, Tables, Env, Tx, bind, reads, execute, run,
  get_config, upsert_config, delete_config, of_key, max_version_of, find_version, bump_revision,
  append_history, CommitResult, committed, commit_lost, commit_unreported,
}

-- What a write produces: `Result` of store.go.
pub record WriteResult : Type 0 where
  pub revision : ℕ
  pub version : ℕ

-- The value and the format that `resolve` decides.
abbrev pub Resolved : Type 0
Resolved = Text × Text

abbrev pub Resolver : Type 0
Resolver = Tables → Option Config → Result StoreError Resolved

-- The statement on lite_config, by the operation.
unfoldable pub apply_config : Env → Text → Op → Change → Resolved → Tx (Unit {0})
apply_config e key delete c r =
    execute e exec (λ t. record t { configs = delete_config key t.configs })
apply_config e key _ c r = execute e exec (λ t. record t {
  configs =
      upsert_config
        (record {
          key = key;
          value = r.0;
          format = r.1;
          updated_at = e.config_time;
          updated_by = c.author;
        })
        t.configs;
})

-- The version that follows the key's last one.
abbrev pub next_version : Text → Tables → ℕ
next_version key t = max_version_of (of_key key t.history) + 1

-- The statements from the first to the last, on the transaction's own view of the tables.
unfoldable pub write_tx : Env → Parsers → Text → Op → Change → Resolver → Tx WriteResult
write_tx e p key op c resolve = bind (bump_revision e) (λ revision.
    bind (reads (get_config e key)) (λ cur. bind (reads (λ t. resolve t cur)) (λ r.
      bind (reads (λ t. validate_value p r.0 r.1)) (λ _. bind (apply_config e key op c r) (λ _.
        bind (reads (λ t. run e max_version >>= λ _. ok (next_version key t))) (λ version.
          bind
            (append_history e (record {
              id = e.new_id;
              key = key;
              value = r.0;
              format = r.1;
              version = version;
              op = op;
              comment = c.comment;
              created_at = e.history_time;
              created_by = c.author;
            }))
            (λ _. reads (λ t. ok (record { revision = revision; version = version })))))))))

abbrev pub Outcome : Type 0
Outcome = Tables × Result StoreError WriteResult

-- `tx.Commit()` of what the transaction wrote.
unfoldable pub end_tx : CommitResult → Tables → Tables → WriteResult → Outcome
end_tx committed t t' r = (t', ok r)
end_tx commit_lost t t' r = (t, err (driver commit))
end_tx commit_unreported t t' r = (t', err (driver commit))

-- The end of a transaction on the tables `t`, whose view is `t'`: the deferred Rollback gives up the
-- view of one that returned an error.
unfoldable pub finish_tx : CommitResult → Tables → Outcome → Outcome
unfolding end_tx
finish_tx c t (t', err x) = (t, err x)
finish_tx c t (t', ok r) = end_tx c t t' r

-- `withTx`.
unfoldable pub with_tx : Env → Tx WriteResult → Tables → Outcome
unfolding finish_tx
with_tx e fn t = finish_tx e.commit_result t (bind (reads (λ u. run e begin)) (λ _. fn) t)

abbrev checked : Result StoreError (Unit {0}) → Tables → Outcome → Outcome
checked (err x) t o = (t, err x)
checked (ok _) t o = o

unfoldable pub write : Env → Parsers → Text → Op → Change → Resolver → Tables → Outcome
unfolding with_tx
write e p key op c resolve t =
    checked (validate_key key >>= λ _. validate_change c) t
      (with_tx e (write_tx e p key op c resolve) t)

unfoldable pub resolve_set : Text → Text → Resolver
resolve_set value format t cur = ok (value, format)

unfoldable pub resolve_delete : Resolver
resolve_delete t none = err not_found
resolve_delete t (some cur) = ok (cur.value, cur.format)

abbrev version_row : Option HistoryEntry → Result StoreError Resolved
version_row none = err not_found
version_row (some h) = ok (h.value, h.format)

-- A version that is not positive is in no row.
abbrev pub find_int_version : ℤ → List HistoryEntry → Option HistoryEntry
find_int_version (pos v) hs = find_version v hs
find_int_version (negsuc v) hs = none

unfoldable pub resolve_rollback : Env → Text → ℤ → Resolver
resolve_rollback e key to_version t cur = do
  run e select_version
  version_row (find_int_version to_version (of_key key t.history))

-- `Set`, `Delete` and `Rollback`.
unfoldable pub set_config : Env → Parsers → Text → Text → Text → Change → Tables → Outcome
unfolding write resolve_set
set_config e p key value format c t =
    write e p key set c (resolve_set value (if text_eq format [] then format_raw else format)) t

unfoldable pub remove_config : Env → Parsers → Text → Change → Tables → Outcome
unfolding write resolve_delete
remove_config e p key c t = write e p key delete c resolve_delete t

unfoldable pub rollback_config : Env → Parsers → Text → ℤ → Change → Tables → Outcome
unfolding write resolve_rollback
rollback_config e p key to_version c t =
    write e p key rollback c (resolve_rollback e key to_version) t
