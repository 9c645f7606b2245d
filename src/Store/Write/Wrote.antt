-- ===== src/Store/Write/Wrote.antt =====
-- What a write that reports success has done, and that any other leaves the tables as they were.
use lite_settings.Base.{
  inl, inr, Result-cases, refl, sym, subst, ap, err, Result, ℕ, ◌+◌, ◌≡◌, List, ◌∷◌, Option, some,
  arith, ok,
}
use lite_settings.Base.Text.{Text}
use lite_settings.Store.Validate.{
  begin, StoreError, Change, Parsers, validate_value, validate_key, validate_change,
}
use lite_settings.Store.Tables.{
  Tx, bind, reads, run, Config, Op, delete, HistoryEntry, Tables, Env, find_config, get_config,
  upsert_config, delete_config, of_key, max_version_of, bump_revision, append_history,
}
use lite_settings.Store.Tables.Rows.{bump_revision_ok}
use lite_settings.Store.Write.{
  WriteResult, Resolved, Resolver, apply_config, write_tx, write, next_version,
}

-- The row that a write puts into lite_config, and the one that it appends to the history.
abbrev pub config_row : Env → Text → Change → Resolved → Config
config_row e key c r = record {
  key = key;
  value = r.0;
  format = r.1;
  updated_at = e.config_time;
  updated_by = c.author;
}

abbrev pub configs_after : Env → Text → Op → Change → Resolved → List Config → List Config
configs_after e key delete c r cs = delete_config key cs
configs_after e key _ c r cs = upsert_config (config_row e key c r) cs

abbrev pub history_row : Env → Text → Op → Change → Resolved → ℕ → HistoryEntry
history_row e key op c r v = record {
  id = e.new_id;
  key = key;
  value = r.0;
  format = r.1;
  version = v;
  op = op;
  comment = c.comment;
  created_at = e.history_time;
  created_by = c.author;
}

pub record Wrote (e : Env) (p : Parsers) (key : Text) (op : Op) (c : Change) (resolve : Resolver)
    (t t' : Tables) (w : WriteResult) : Type 0 where
  pub resolved : Resolved
  pub old : ℕ
  pub migrated : t.meta ≡ some old
  pub resolves :
      resolve (record t { meta = some (old + 1) }) (find_config key t.configs) ≡ ok resolved
  pub valid : validate_value p resolved.0 resolved.1 ≡ ok tt
  pub revision : w.revision ≡ old + 1
  pub version : w.version ≡ max_version_of (of_key key t.history) + 1
  pub configs : t'.configs ≡ configs_after e key op c resolved t.configs
  pub history : t'.history ≡ history_row e key op c resolved w.version ∷ t.history
  pub meta : t'.meta ≡ some (old + 1)

get_config_ok :
    (e : Env) (k : Text) (t : Tables) (o : Option Config)
    → get_config e k t ≡ ok o
    → o ≡ find_config k t.configs
unfolding get_config
get_config_ok e k t o h = ground arith

apply_config_ok :
    (e : Env) (key : Text) (op : Op) (c : Change) (r : Resolved) (t t' : Tables)
    → apply_config e key op c r t ≡ (t', ok tt)
    → t' ≡ record t { configs = configs_after e key op c r t.configs }
unfolding apply_config
apply_config_ok e key op c r t t' h = ground arith

append_history_ok :
    (e : Env) (h : HistoryEntry) (t t' : Tables)
    → append_history e h t ≡ (t', ok tt)
    → t' ≡ record t { history = h ∷ t.history }
unfolding append_history
append_history_ok e h t t' q = ground arith

-- A step that is followed by others in a transaction that succeeds has succeeded.
bind_ok :
    {A B : Type 0} (step : Tx A) (go_on : A → Tx B) (t t' : Tables) (b : B)
    → bind step go_on t ≡ (t', ok b)
    → (u : Tables) × (a : A) × (step t ≡ (u, ok a)) × (go_on a u ≡ (t', ok b))
bind_ok {A = A} {B = B} step go_on t t' b h = go (step t) refl h
  where
    go :
        (o : Tables × Result StoreError A)
        → step t ≡ o
        → (elim o.1 [ ok a ↦ go_on a o.0 | err x ↦ (o.0, err x) ]) ≡ (t', ok b)
        → (u : Tables) × (a : A) × (step t ≡ (u, ok a)) × (go_on a u ≡ (t', ok b))
    go (u, ok a) e q = (u, a, e, q)
    go (u, err x) e q = cc

-- A transaction that has begun and succeeds is one of its function on the same tables.
pub begun_ok :
    (e : Env) (fn : Tx WriteResult) (t t' : Tables) (w : WriteResult)
    → bind (reads (λ u. run e begin)) (λ _. fn) t ≡ (t', ok w)
    → fn t ≡ (t', ok w)
begun_ok e fn t t' w h =
    let (u, a, began, rest) = bind_ok (reads (λ u. run e begin)) (λ _. fn) t t' w h in
    let same : t ≡ u = ap (λ o. o.0) began in subst (λ v. fn v ≡ (t', ok w)) (sym same) rest

write_tx_steps :
    (e : Env) (p : Parsers) (key : Text) (op : Op) (c : Change) (resolve : Resolver) (t t' : Tables)
    (w : WriteResult)
    → write_tx e p key op c resolve t ≡ (t', ok w)
    → (t₁ : Tables) × (n : ℕ) × (cur : Option Config) × (r : Resolved) × (t₂ : Tables)
      × (bump_revision e t ≡ (t₁, ok n))
      × (get_config e key t₁ ≡ ok cur)
      × (resolve t₁ cur ≡ ok r)
      × (validate_value p r.0 r.1 ≡ ok tt)
      × (apply_config e key op c r t₁ ≡ (t₂, ok tt))
      × (append_history e (history_row e key op c r w.version) t₂ ≡ (t', ok tt))
      × (w.version ≡ next_version key t₂)
      × (w.revision ≡ n)
unfolding write_tx
write_tx_steps e p key op c resolve t t' w h = elim (Result-cases (bump_revision e t).1) [
  | inl (x, q) ↦ absurd (ground (arith, q, h))
  | inr (n, q) ↦ elim (Result-cases (get_config e key (bump_revision e t).0)) [
    | inl (x, q₁) ↦ absurd (ground (arith, q, q₁, h))
    | inr (cur, q₁) ↦ elim (Result-cases (resolve (bump_revision e t).0 cur)) [
      | inl (x, q₂) ↦ absurd (ground (arith, q, q₁, q₂, h))
      | inr (r, q₂) ↦ (
        (bump_revision e t).0,
        n,
        cur,
        r,
        (apply_config e key op c r (bump_revision e t).0).0,
        ground arith,
        ground arith,
        ground arith,
        ground arith,
        ground arith,
        ground arith,
        ground arith,
        ground arith,
      )
    ]
  ]
]

pub write_tx_ok :
    (e : Env) (p : Parsers) (key : Text) (op : Op) (c : Change) (resolve : Resolver) (t t' : Tables)
    (w : WriteResult)
    → write_tx e p key op c resolve t ≡ (t', ok w)
    → Wrote e p key op c resolve t t' w
write_tx_ok e p key op c resolve t t' w h =
    let (t₁, n, cur, r, t₂, hb, hc, hr, hv, ha, hi, v, q) =
      write_tx_steps e p key op c resolve t t' w h in
    let (rev, migrated, eb, en) = bump_revision_ok e t t₁ n hb in
    let ec = get_config_ok e key t₁ cur hc in
    let e₂ = apply_config_ok e key op c r t₁ t₂ ha in
    let e₃ = append_history_ok e _ t₂ t' hi in
    record {
      resolved = r;
      old = rev;
      migrated = migrated;
      resolves = ground arith;
      valid = ground arith;
      revision = ground arith;
      version = ground arith;
      configs = ground arith;
      history = ground arith;
      meta = ground arith;
    }

pub write_ok :
    (e : Env) (p : Parsers) (key : Text) (op : Op) (c : Change) (resolve : Resolver) (t t' : Tables)
    (w : WriteResult)
    → write e p key op c resolve t ≡ (t', ok w)
    → (validate_key key ≡ ok tt)
      × (validate_change c ≡ ok tt)
      × (write_tx e p key op c resolve t ≡ (t', ok w))
unfolding write
write_ok e p key op c resolve t t' w h = ground arith
