-- ===== src/Store/Write/Invariant.antt =====
-- The invariant of the tables, and that every operation keeps it whatever the engine does.
use lite_settings.Base.{
  ℕ, ◌≡◌, refl, true, false, List, [], ◌∷◌, Option, none, some, arith, if◌then◌else◌, length,
  Result, ok, err,
}
use lite_settings.Base.Int.{ℤ}
use lite_settings.Base.Dict.{contains, Distinct}
use lite_settings.Base.Text.{Text, text_eq, text_eq_iff}
use lite_settings.Store.Validate.{StoreError, Change, Parsers}
use lite_settings.Store.Tables.{
  Config, Op, set, delete, rollback, HistoryEntry, Tables, Env, find_config, upsert_config,
  delete_config, of_key, CommitResult, committed, commit_lost, commit_unreported,
}
use lite_settings.Store.Tables.Rows.{
  find_config-upsert_config, find_config-delete_config, Numbered, max_version_of-Numbered,
}
use lite_settings.Store.Write.{
  WriteResult, Resolved, Resolver, write, write_tx, set_config, remove_config, rollback_config,
  Outcome, end_tx, finish_tx, checked,
}
use lite_settings.Store.Write.Wrote.{
  begun_ok, Wrote, write_tx_ok, config_row, configs_after, history_row,
}

-- What both tables say of a value: value, format and author.
abbrev pub Written : Type 0
Written = Text × Text × Text

abbrev pub current_row : Option Config → Option Written
current_row none = none
current_row (some c) = some (c.value, c.format, c.updated_by)

abbrev pub by_op : HistoryEntry → Op → Option Written
by_op h delete = none
by_op h _ = some (h.value, h.format, h.created_by)

-- What the newest row of a key says of its current value.
abbrev pub latest : List HistoryEntry → Option Written
latest [] = none
latest (h ∷ hs) = by_op h h.op

abbrev pub config_keys : List Config → List Text
config_keys [] = []
config_keys (c ∷ cs) = c.key ∷ config_keys cs

pub record IsConsistent (t : Tables) : Type 0 where
  pub revision : t.meta ≡ some (length t.history)
  pub numbered : (k : Text) → Numbered (of_key k t.history)
  pub current : (k : Text) → current_row (find_config k t.configs) ≡ latest (of_key k t.history)
  pub distinct : Distinct (config_keys t.configs)

contains-upsert_config :
    (k : Text) (c : Config) (cs : List Config)
    → contains k (config_keys (upsert_config c cs))
      ≡ (if text_eq c.key k then true else contains k (config_keys cs))
unfolding contains upsert_config
contains-upsert_config k c [] = refl
contains-upsert_config k c (d ∷ ds) = ground (
  arith,
  contains-upsert_config k c ds,
  text_eq_iff d.key c.key,
  text_eq_iff d.key k,
  text_eq_iff c.key k,
)

upsert_config-Distinct :
    (c : Config) (cs : List Config)
    → Distinct (config_keys cs)
    → Distinct (config_keys (upsert_config c cs))
unfolding upsert_config contains
upsert_config-Distinct c [] h = (refl, tt)
upsert_config-Distinct c (d ∷ ds) h = ground (
  arith,
  upsert_config-Distinct c ds h.1,
  contains-upsert_config d.key c ds,
  text_eq_iff d.key c.key,
  text_eq_iff c.key d.key,
)

contains-delete_config :
    (k j : Text) (cs : List Config)
    → contains j (config_keys cs) ≡ false
    → contains j (config_keys (delete_config k cs)) ≡ false
unfolding contains delete_config
contains-delete_config k j [] h = refl
contains-delete_config k j (d ∷ ds) h = ground (arith, contains-delete_config k j ds)

delete_config-Distinct :
    (k : Text) (cs : List Config)
    → Distinct (config_keys cs)
    → Distinct (config_keys (delete_config k cs))
unfolding delete_config
delete_config-Distinct k [] h = tt
delete_config-Distinct k (d ∷ ds) h =
    ground (arith, delete_config-Distinct k ds h.1, contains-delete_config k d.key ds h.0)

configs_after-Distinct :
    (e : Env) (key : Text) (op : Op) (c : Change) (r : Resolved) (cs : List Config)
    → Distinct (config_keys cs)
    → Distinct (config_keys (configs_after e key op c r cs))
configs_after-Distinct e key set c r cs h = upsert_config-Distinct _ cs h
configs_after-Distinct e key delete c r cs h = delete_config-Distinct key cs h
configs_after-Distinct e key rollback c r cs h = upsert_config-Distinct _ cs h

-- The row of another key, and the row of the key that is written.
pub find_config-configs_after :
    (e : Env) (key : Text) (op : Op) (c : Change) (r : Resolved) (v : ℕ) (cs : List Config)
    (k : Text)
    → current_row (find_config k (configs_after e key op c r cs)) ≡ (
        if text_eq key k
        then by_op (history_row e key op c r v) op
        else current_row (find_config k cs))
find_config-configs_after e key set c r v cs k =
    ground (arith, find_config-upsert_config k (config_row e key c r) cs)
find_config-configs_after e key delete c r v cs k =
    ground (arith, find_config-delete_config key k cs)
find_config-configs_after e key rollback c r v cs k =
    ground (arith, find_config-upsert_config k (config_row e key c r) cs)

module _ {e : Env} {p : Parsers} {key : Text} {op : Op} {c : Change} {resolve : Resolver}
    {t t' : Tables} {w : WriteResult} where
  Wrote-Numbered :
      Wrote e p key op c resolve t t' w
      → IsConsistent t
      → (k : Text) → Numbered (of_key k t'.history)
  unfolding of_key
  Wrote-Numbered h v k = rw h.history (
      ground (
        arith,
        v.numbered k,
        text_eq_iff key k,
        h.version,
        max_version_of-Numbered (of_key k t.history),
      ))

  Wrote-current :
      Wrote e p key op c resolve t t' w
      → IsConsistent t
      → (k : Text) → current_row (find_config k t'.configs) ≡ latest (of_key k t'.history)
  unfolding of_key
  Wrote-current h v k =
      rw (h.history, h.configs)
        (ground (
          arith,
          v.current k,
          find_config-configs_after e key op c h.resolved w.version t.configs k,
        ))

  pub Wrote-IsConsistent : Wrote e p key op c resolve t t' w → IsConsistent t → IsConsistent t'
  Wrote-IsConsistent h v = record {
    revision = ground (arith, v.revision, h.migrated, h.meta, h.history);
    numbered = Wrote-Numbered h v;
    current = Wrote-current h v;
    distinct = rw h.configs (configs_after-Distinct e key op c h.resolved t.configs v.distinct);
  }

module _ (P : Tables → Type 0) (t : Tables) (same : P t) where
  end_tx-keeps : (c : CommitResult) (t' : Tables) (w : WriteResult) → P t' → P (end_tx c t t' w).0
  unfolding end_tx
  end_tx-keeps committed t' w h = h
  end_tx-keeps commit_lost t' w h = same
  end_tx-keeps commit_unreported t' w h = h

  pub finish_tx-keeps :
      (c : CommitResult) (r : Outcome)
      → ((t' : Tables) (w : WriteResult) → r ≡ (t', ok w) → P t')
      → P (finish_tx c t r).0
  unfolding finish_tx
  finish_tx-keeps c (t', err x) h = same
  finish_tx-keeps c (t', ok w) h = end_tx-keeps c t' w (h t' w refl)

  checked-keeps : (r : Result StoreError (Unit {0})) (o : Outcome) → P o.0 → P (checked r t o).0
  checked-keeps (err x) o h = same
  checked-keeps (ok _) o h = h

  -- A write leaves the tables alone, or has run its transaction to the end.
  pub write-keeps :
      (e : Env) (p : Parsers) (key : Text) (op : Op) (c : Change) (resolve : Resolver)
      → ((t' : Tables) (w : WriteResult) → write_tx e p key op c resolve t ≡ (t', ok w) → P t')
      → P (write e p key op c resolve t).0
  unfolding write
  write-keeps e p key op c resolve h = checked-keeps _ _ (
      finish_tx-keeps e.commit_result _
        (λ t' w q. h t' w (begun_ok e (write_tx e p key op c resolve) t t' w q)))

pub write-IsConsistent :
    (e : Env) (p : Parsers) (key : Text) (op : Op) (c : Change) (resolve : Resolver) (t : Tables)
    → IsConsistent t
    → IsConsistent (write e p key op c resolve t).0
write-IsConsistent e p key op c resolve t v =
    write-keeps IsConsistent t v e p key op c resolve
      (λ t' w h. Wrote-IsConsistent (write_tx_ok e p key op c resolve t t' w h) v)

-- Set, Delete and Rollback each keep the tables consistent with any arguments, whatever statement
-- the engine refuses and however the commit ends: the revision counts the history, versions are 1,
-- 2, … without a gap, each current row is what the newest row of its key says, and no key stands
-- twice.
pub operations-IsConsistent :
    (e : Env) (p : Parsers) (key value format : Text) (to_version : ℤ) (c : Change) (t : Tables)
    → IsConsistent t
    → IsConsistent (set_config e p key value format c t).0
      × IsConsistent (remove_config e p key c t).0
      × IsConsistent (rollback_config e p key to_version c t).0
unfolding set_config remove_config rollback_config
operations-IsConsistent e p key value format to_version c t v = (
  write-IsConsistent e p key set c _ t v,
  write-IsConsistent e p key delete c _ t v,
  write-IsConsistent e p key rollback c _ t v,
)
