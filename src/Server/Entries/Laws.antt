-- ===== src/Server/Entries/Laws.antt =====
-- What the status of an answer says of the tables.
use lite_settings.Base.{
  ◌∷◌, inl, inr, Bool-cases, zero, ◌^◌, ltb, if◌then◌else◌, ℕ, suc, ◌≡◌, ◌≢◌, refl, ◌⊎◌, inl, inr,
  Bool, true, false, [], Option, none, some, arith, length, Result, ok, err,
}
use lite_settings.Base.Int.{ℤ, pos, negsuc}
use lite_settings.Base.Text.{text, Text, text_eq, text_eq_iff}
use lite_settings.Store.Validate.{
  StoreError, not_found, not_migrated, invalid_key, invalid_value, invalid_change,
  unsupported_driver, driver, Change, Parsers, max_value_size, validate_key, select_config,
}
use lite_settings.Store.Tables.{
  Tables, Env, Op, set, delete, rollback, find_config, of_key, get_config, commit_unreported,
}
use lite_settings.Store.Tables.Rows.{max_version_of-Numbered, find_config-upsert_config}
use lite_settings.Store.Read.{get}
use lite_settings.Store.Write.{
  WriteResult, Outcome, Resolver, finish_tx, resolve_set, write, set_config, remove_config,
  rollback_config,
}
use lite_settings.Store.Write.Wrote.{config_row, write_ok, write_tx_ok}
use lite_settings.Store.Write.Invariant.{IsConsistent}
use lite_settings.Server.Handlers.{body, error_body, fail}
use lite_settings.Server.Entries.{
  ApiWriteResult, Answer, Asked, Incoming, change, parse_format, read_body, write_result, roll_back,
  handle_set, handle_delete, handle_rollback, complete, ConfigDetail, detail, handle_get,
}

-- The tables have one more row, of the key, and the result counts the rows.
pub record Grew (key : Text) (t t' : Tables) (rev ver : ℕ) : Type 0 where
  pub rows : length t'.history ≡ suc (length t.history)
  pub revision : rev ≡ length t'.history
  pub version : ver ≡ suc (length (of_key key t.history))

-- A 200 reports exactly one write, and another answer reports that the tables are as they were.
abbrev pub Reports : Text → Tables → Answer → Type 0
Reports key t a =
    ((r : ApiWriteResult) × (a.1 ≡ body 200 r)
      × (r.key ≡ key)
      × Grew key t a.0 r.revision r.version)
    ⊎ (((r : ApiWriteResult) → a.1 ≢ body 200 r) × (a.0 ≡ t))

not-fail : (cancelled : Bool) (e : StoreError) (r : ApiWriteResult) → fail cancelled e ≢ body 200 r
unfolding fail
not-fail cancelled not_found r h = cc
not-fail cancelled (invalid_key f) r h = cc
not-fail cancelled (invalid_value f) r h = cc
not-fail cancelled (invalid_change f) r h = cc
not-fail cancelled not_migrated r h = cc
not-fail cancelled (unsupported_driver d) r h = cc
not-fail true (driver m) r h = cc
not-fail false (driver m) r h = cc

write_same :
    (e : Env) (p : Parsers) (key : Text) (op : Op) (c : Change) (resolve : Resolver) (t t' : Tables)
    (x : StoreError)
    → e.commit_result ≢ commit_unreported
    → write e p key op c resolve t ≡ (t', err x)
    → t' ≡ t
unfolding write finish_tx
write_same e p key op c resolve t t' x n h = ground arith

module _ (e : Env) (p : Parsers) (key : Text) (op : Op) (c : Change) (resolve : Resolver)
    (t : Tables) (cancelled : Bool) where
  write-Reports :
      e.commit_result ≢ commit_unreported
      → IsConsistent t
      → Reports key t (write_result cancelled key (write e p key op c resolve t))
  unfolding write_result
  write-Reports n v = go (write e p key op c resolve t) refl
    where
      go :
          (o : Outcome)
          → write e p key op c resolve t ≡ o
          → Reports key t (write_result cancelled key o)
      go (t', err x) q = inr (not-fail cancelled x, write_same e p key op c resolve t t' x n q)
      go (t', ok w) q =
          let d =
            write_tx_ok e p key op c resolve t t' w (write_ok e p key op c resolve t t' w q).2 in
          inl (
            record { key = key; version = w.version; revision = w.revision },
            refl,
            refl,
            record {
              rows = ground (arith, d.history);
              revision = ground (arith, d.history, d.revision, d.migrated, v.revision);
              version = ground (
                arith,
                d.version,
                max_version_of-Numbered (of_key key t.history) (v.numbered key),
              );
            },
          )

roll_back-Reports :
    (cancelled : Bool) (e : Env) (p : Parsers) (key : Text) (o : Option ℤ) (q : Asked) (t : Tables)
    → e.commit_result ≢ commit_unreported
    → IsConsistent t
    → Reports key t (roll_back cancelled e p key o q t)
unfolding roll_back rollback_config
roll_back-Reports cancelled e p key none q t n v = inr (λ r h. cc, refl)
roll_back-Reports cancelled e p key (some (negsuc m)) q t n v = inr (λ r h. cc, refl)
roll_back-Reports cancelled e p key (some (pos zero)) q t n v = inr (λ r h. cc, refl)
roll_back-Reports cancelled e p key (some (pos (suc m))) q t n v =
    write-Reports e p key rollback (change q) _ t cancelled n v

-- Where the engine does not leave a commit's outcome unreported, each of the three handlers that
-- write answers with 200 exactly if it has appended one row to the history of a consistent store,
-- and then with the key, the new revision and the key's next version; under any other answer the
-- tables are as they were.
pub handlers-Reports :
    (cancelled : Bool) (e : Env) (p : Parsers) (version : Text → Option ℤ) (key format : Text)
    (incoming : Incoming) (q : Asked) (t : Tables)
    → e.commit_result ≢ commit_unreported
    → IsConsistent t
    → Reports key t (handle_set cancelled e p key format incoming q t)
      × Reports key t (handle_delete cancelled e p key q t)
      × Reports key t (handle_rollback cancelled e p version key incoming q t)
unfolding handle_set handle_delete handle_rollback set_config remove_config
handlers-Reports cancelled e p version key format incoming q t n v = (
  set_answer (parse_format format) (read_body max_value_size incoming),
  write-Reports e p key delete (change q) _ t cancelled n v,
  rollback_answer (read_body (2 ^ 12) incoming),
)
  where
    set_answer :
        (o : Option Text) (b : Result ℕ Text)
        → Reports key t (elim o [
          | none ↦ (t, error_body 400)
          | some f ↦ elim b [
            | err status ↦ (t, error_body status)
            | ok value ↦ write_result cancelled key (set_config e p key value f (change q) t)
          ]
        ])
    set_answer none b = inr (λ r h. cc, refl)
    set_answer (some f) (err status) = inr (λ r h. cc, refl)
    set_answer (some f) (ok value) = write-Reports e p key set (change q) _ t cancelled n v

    rollback_answer :
        (b : Result ℕ Text)
        → Reports key t (elim b [
          | err status ↦ (t, error_body status)
          | ok b ↦ roll_back cancelled e p key (version b) q t
        ])
    rollback_answer (err status) = inr (λ r h. cc, refl)
    rollback_answer (ok b) = roll_back-Reports cancelled e p key (version b) q t n v

pub parse_format-not_empty : (v f : Text) → parse_format v ≡ some f → text_eq f [] ≡ false
unfolding parse_format text_eq
parse_format-not_empty v f h = ground arith

pub set_config-row :
    (e : Env) (p : Parsers) (key value f : Text) (c : Change) (t t' : Tables) (w : WriteResult)
    → text_eq f [] ≡ false
    → set_config e p key value f c t ≡ (t', ok w)
    → (validate_key key ≡ ok tt)
      × (find_config key t'.configs ≡ some (config_row e key c (value, f)))
unfolding set_config resolve_set
set_config-row e p key value f c t t' w n h =
    let (k, _, q) = write_ok e p key set c _ t t' w h in
    let d = write_tx_ok e p key set c _ t t' w q in
    (
      k,
      ground (
        arith,
        d.configs,
        d.resolves,
        find_config-upsert_config key (config_row e key c (value, f)) t.configs,
        text_eq_iff key key,
      ),
    )

-- The Set that an answer with 200 reports.
abbrev Stored : Env → Parsers → Text → Text → Option Text → Asked → Tables → Tables → Type 0
Stored e p key value o q t t' =
    (f : Text) × (w : WriteResult) × (o ≡ some f)
    × (set_config e p key value f (change q) t ≡ (t', ok w))

handle_set-Stored :
    (cancelled : Bool) (e : Env) (p : Parsers) (key format value : Text) (q : Asked) (t : Tables)
    (r : ApiWriteResult)
    → (handle_set cancelled e p key format (complete value) q t).1 ≡ body 200 r
    → Stored e p key value
        (parse_format format)
        q
        t
        (handle_set cancelled e p key format (complete value) q t).0
unfolding handle_set read_body write_result
handle_set-Stored cancelled e p key format value q t r h =
    go (parse_format format) (ltb max_value_size (length value)) h
  where
    written :
        (f : Text) (o : Outcome)
        → set_config e p key value f (change q) t ≡ o
        → (write_result cancelled key o).1 ≡ body 200 r
        → Stored e p key value (some f) q t (write_result cancelled key o).0
    written f (t', ok w) s h = (f, w, refl, s)
    written f (t', err x) s h = absurd (not-fail cancelled x r h)

    answer : Option Text → Bool → Answer
    answer o b = elim o [
      | none ↦ (t, error_body 400)
      | some f ↦ elim (if b then err 413 else ok value) [
        | err status ↦ (t, error_body status)
        | ok v ↦ write_result cancelled key (set_config e p key v f (change q) t)
      ]
    ]

    go :
        (o : Option Text) (b : Bool)
        → (answer o b).1 ≡ body 200 r
        → Stored e p key value o q t (answer o b).0
    go none b h = cc
    go (some f) true h = cc
    go (some f) false h = written f (set_config e p key value f (change q) t) refl h

-- The text that was sent, or the default if it was empty.
abbrev pub OrDefault : Text → Text → Text → Type 0
OrDefault sent default stored = (sent ≡ [] → stored ≡ default) × (sent ≢ [] → stored ≡ sent)

parse_format-OrDefault :
    (format f : Text) → parse_format format ≡ some f → OrDefault format (text "raw") f
unfolding parse_format text_eq
parse_format-OrDefault [] f h = (λ e. ground arith, λ n. absurd (n refl))
parse_format-OrDefault (c ∷ format) f h = (λ e. cc, λ n. ground arith)

author-OrDefault : (q : Asked) → OrDefault q.author (text "anonymous") (change q).author
unfolding change
author-OrDefault q = (
  λ e. ground (arith, text_eq_iff q.author []),
  λ n. elim (Bool-cases (text_eq q.author [])) [
    | inl e ↦ absurd (n ((text_eq_iff q.author []).0 e))
    | inr e ↦ rw e refl
  ],
)

-- What a set that is answered with 200 has stored, a get answers, if the engine does not refuse its
-- query: the key, the value that was sent, the format that was sent or raw for an empty one, and the
-- author that was sent or anonymous for an empty one.
pub handle_get-handle_set :
    (cancelled again : Bool) (e reading : Env) (p : Parsers) (key format value : Text) (q : Asked)
    (t : Tables) (r : ApiWriteResult)
    → (handle_set cancelled e p key format (complete value) q t).1 ≡ body 200 r
    → reading.refuses select_config ≡ false
    → (d : ConfigDetail) × (handle_get again reading key
          (handle_set cancelled e p key format (complete value) q t).0
        ≡ body 200 d)
      × (d.key ≡ key)
      × (d.value ≡ value)
      × OrDefault format (text "raw") d.format
      × OrDefault q.author (text "anonymous") d.updated_by
unfolding handle_get get get_config
handle_get-handle_set cancelled again e reading p key format value q t r h accepts =
    let (f, w, o, s) = handle_set-Stored cancelled e p key format value q t r h in
    let (k, row) =
      set_config-row e p key value f (change q) t _ w (parse_format-not_empty format f o) s in
    (
      detail (config_row e key (change q) (value, f)),
      ground (arith, k, row),
      refl,
      refl,
      parse_format-OrDefault format f o,
      author-OrDefault q,
    )
