-- ===== src/Store/Write/Effect.antt =====
-- A write that fails changes nothing; a write whose arguments are valid succeeds on a consistent
-- store whose engine refuses nothing.
use lite_settings.Base.{
  suc, ◌≡◌, ◌≢◌, refl, ap, false, [], ◌∷◌, some, arith, if◌then◌else◌, length, Result, ok, err,
  ◌>>=◌,
}
use lite_settings.Base.Text.{Text, text_eq}
use lite_settings.Store.Validate.{
  StoreError, driver, commit, Statement, begin, update_revision, select_revision, select_config,
  exec, max_version, insert_history, Change, Parsers, format_raw, validate_key, validate_change,
  validate_value,
}
use lite_settings.Store.Tables.{
  Op, set, Tables, Env, find_config, of_key, get_config, bump_revision, append_history,
  version_taken, CommitResult, committed, commit_lost, commit_unreported,
}
use lite_settings.Store.Tables.Rows.{max_version_of-Numbered, find_version_above}
use lite_settings.Store.Write.{
  Resolved, Resolver, Outcome, apply_config, write, write_tx, with_tx, finish_tx, checked,
  set_config, resolve_set,
}
use lite_settings.Store.Write.Wrote.{configs_after, history_row}
use lite_settings.Store.Write.Invariant.{IsConsistent}

finish_tx-err :
    (c : CommitResult) (t : Tables) (r : Outcome) {x : StoreError}
    → (finish_tx c t r).1 ≡ err x
    → x ≢ driver commit
    → (finish_tx c t r).0 ≡ t
unfolding finish_tx
finish_tx-err committed t (t', ok d) h n = cc
finish_tx-err commit_lost t (t', ok d) h n = refl
finish_tx-err commit_unreported t (t', ok d) h n = absurd (n cc)
finish_tx-err c t (t', err y) h n = refl

-- A Set, Delete or Rollback that reports an error, other than a failed commit, leaves every table
-- as it was.
pub write-err :
    (e : Env) (p : Parsers) (key : Text) (op : Op) (c : Change) (resolve : Resolver) (t : Tables)
    (x : StoreError)
    → (write e p key op c resolve t).1 ≡ err x
    → x ≢ driver commit
    → (write e p key op c resolve t).0 ≡ t
unfolding write with_tx
write-err e p key op c resolve t x h n = checked-err (validate_key key >>= λ _. validate_change c) h
  where
    checked-err :
        (r : Result StoreError (Unit {0}))
        → (checked r t (with_tx e (write_tx e p key op c resolve) t)).1 ≡ err x
        → (checked r t (with_tx e (write_tx e p key op c resolve) t)).0 ≡ t
    checked-err (err y) q = refl
    checked-err (ok _) q = finish_tx-err e.commit_result t _ q n

-- The engine refuses no statement and commits.
pub record IsWorking (e : Env) : Type 0 where
  pub accepts : (s : Statement) → e.refuses s ≡ false
  pub commits : e.commit_result ≡ committed

module _ (e : Env) (p : Parsers) (key : Text) (op : Op) (c : Change) (resolve : Resolver)
    (t : Tables) (r : Resolved) where
  unfoldable pub after : Tables
  after = record {
    configs = configs_after e key op c r t.configs;
    history = history_row e key op c r (suc (length (of_key key t.history))) ∷ t.history;
    meta = some (suc (length t.history));
  }

  bump-succeeds :
      IsWorking e
      → IsConsistent t
      → bump_revision e t
        ≡ (record t { meta = some (suc (length t.history)) }, ok (suc (length t.history)))
  unfolding bump_revision
  bump-succeeds h v =
      ground (arith, h.accepts update_revision, h.accepts select_revision, v.revision)

  apply-succeeds :
      IsWorking e
      → (u : Tables)
      → apply_config e key op c r u
        ≡ (record u { configs = configs_after e key op c r u.configs }, ok tt)
  unfolding apply_config
  apply-succeeds h u = ground (arith, h.accepts exec)

  not-taken :
      IsConsistent t → version_taken key (suc (length (of_key key t.history))) t.history ≡ false
  unfolding version_taken
  not-taken v = ground (
    arith,
    find_version_above (suc (length (of_key key t.history))) (of_key key t.history),
    max_version_of-Numbered (of_key key t.history) (v.numbered key),
  )

  write_tx-succeeds :
      IsWorking e
      → IsConsistent t
      → resolve (record t { meta = some (suc (length t.history)) }) (find_config key t.configs)
        ≡ ok r
      → validate_value p r.0 r.1 ≡ ok tt
      → write_tx e p key op c resolve t ≡ (
        after,
        ok (record {
          revision = suc (length t.history);
          version = suc (length (of_key key t.history));
        }),
      )
  unfolding write_tx after get_config append_history
  write_tx-succeeds h v hr hv = ground (
    arith,
    bump-succeeds h v,
    h.accepts select_config,
    h.accepts max_version,
    h.accepts insert_history,
    apply-succeeds h (record t { meta = some (suc (length t.history)) }),
    max_version_of-Numbered (of_key key t.history) (v.numbered key),
    not-taken v,
  )

  pub write-succeeds :
      IsWorking e
      → IsConsistent t
      → validate_key key ≡ ok tt
      → validate_change c ≡ ok tt
      → resolve (record t { meta = some (suc (length t.history)) }) (find_config key t.configs)
        ≡ ok r
      → validate_value p r.0 r.1 ≡ ok tt
      → write e p key op c resolve t ≡ (
        after,
        ok (record {
          revision = suc (length t.history);
          version = suc (length (of_key key t.history));
        }),
      )
  unfolding write
  write-succeeds h v hk hc hr hv =
      ground (arith, h.accepts begin, h.commits, write_tx-succeeds h v hr hv)

-- On a consistent store whose engine works, a Set of a valid key, value, format and change
-- succeeds, with the next revision and the key's next version.
pub set_config-succeeds :
    (e : Env) (p : Parsers) (key value format : Text) (c : Change) (t : Tables)
    → IsWorking e
    → IsConsistent t
    → validate_key key ≡ ok tt
    → validate_change c ≡ ok tt
    → validate_value p value (if text_eq format [] then format_raw else format) ≡ ok tt
    → (set_config e p key value format c t).1
      ≡ ok (record {
        revision = suc (length t.history);
        version = suc (length (of_key key t.history));
      })
unfolding set_config resolve_set
set_config-succeeds e p key value format c t h v hk hc hv =
    ap (λ (o : Outcome). o.1)
      (write-succeeds e p key set c _ t (value, if text_eq format [] then format_raw else format) h
        v hk hc refl hv)
