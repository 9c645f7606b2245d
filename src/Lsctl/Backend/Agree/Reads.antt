-- ===== src/Lsctl/Backend/Agree/Reads.antt =====
-- Reads: the same values, and the same exit code.
use mathlib.Core.Path.{fun_ext}
use lite_settings.Base.{
  true, zero, suc, ◌≡◌, ◌≢◌, refl, sym, ◌∙◌, subst, Bool, List, [], ◌∷◌, none, some, inl, inr,
  arith, map, Result, ok, err, Result-cases, >>=-eq-ok, Option-cases,
}
use lite_settings.Base.Int.{ℤ, pos, negsuc}
use lite_settings.Base.Text.{Text}
use lite_settings.Store.Validate.{StoreError, not_found}
use lite_settings.Store.Tables.{Config, HistoryEntry, Tables, Env}
use lite_settings.Store.Read
use lite_settings.Store.Read.{list_prefixes, selects}
use lite_settings.Store.Read.Laws.{selects-requested}
use lite_settings.Server.Handlers.{
  ApiConfig, ApiSnapshot, revision_at, Body, error_body, fail, prefixes, snapshot, handle_list,
  api_config, observed_revision, Query, reply,
}
use lite_settings.Server.Handlers.Laws.{prefixes-requested}
use lite_settings.Server.Entries
use lite_settings.Server.Entries.{
  ApiWriteResult, Asked, change, parse_format, read_body, complete, handle_get, handle_history,
  handle_set, handle_delete, handle_rollback, roll_back,
}
use lite_settings.Lsctl.Backend.Db
use lite_settings.Lsctl.Backend.Db.{map_err}
use lite_settings.Lsctl.Backend.Http
use lite_settings.Lsctl.Backend.Http.{
  configs_of, Wire, received, answered, add_change, history_limit,
}
use lite_settings.Lsctl.Backend.Agree.{IsSegment, Routes, Same, received-fail}

get-Same :
    (x : Wire) (e : Env) (key : Text) (t : Tables)
    → x.routed key ≡ true
    → Same (Http.get x e key t) (Db.get e key t)
unfolding Http.get Db.get handle_get received
get-Same x e key t routed = elim (Result-cases (Read.get e key t)) [
  | inl (y, q) ↦ rw (routed, q) (received-fail _ x.cancelled y)
  | inr (c, q) ↦ rw (routed, q) refl
]

versions-Same :
    (cancelled : Bool) (r : Result StoreError (List HistoryEntry))
    → Same (received (Entries.versions cancelled r)) (Db.some_versions r)
unfolding received map_err
versions-Same cancelled (err y) = received-fail _ cancelled y
versions-Same cancelled (ok []) = received-fail _ cancelled not_found
versions-Same cancelled (ok (h ∷ hs)) = refl

history-Same :
    (x : Wire) (e : Env) (key : Text) (limit : ℤ) (t : Tables)
    → x.routed key ≡ true
    → limit ≢ pos 0
    → Same (Http.history x e key limit t) (Db.history e key limit t)
unfolding Http.history Db.history handle_history history_limit Read.history
history-Same x e key (pos zero) t routed some_limit = absurd (some_limit refl)
history-Same x e key (pos (suc n)) t routed some_limit =
    rw routed (versions-Same x.cancelled (Read.history e key (pos (suc n)) t))
history-Same x e key (negsuc n) t routed some_limit =
    rw routed (versions-Same x.cancelled (Read.history e key (negsuc n) t))

-- Over the same tables and engine, Get, and History with a limit that is not 0, return through
-- the server what they return on the database, or an error on both sides that is ErrNotFound on
-- both or on neither. The key is not empty, nor a dot or two, and other keys are routed to their
-- handlers.
pub reads-Same :
    (x : Wire) (e : Env) (key : Text) (limit : ℤ) (t : Tables)
    → Routes x
    → IsSegment key
    → limit ≢ pos 0
    → Same (Http.get x e key t) (Db.get e key t)
      × Same (Http.history x e key limit t) (Db.history e key limit t)
reads-Same x e key limit t routes segment some_limit = (
  get-Same x e key t (routes key segment),
  history-Same x e key limit t (routes key segment) some_limit,
)

not-received-fail :
    (A : Type 0) (cancelled : Bool) (y : StoreError) (a : A) → received (fail cancelled y) ≢ ok a
not-received-fail A cancelled y a h =
    subst (λ r. Same r (err (map_err y))) h (received-fail A cancelled y)

no_configs :
    (cancelled : Bool) (y : StoreError) (cs : List ApiConfig)
    → configs_of (received (fail cancelled y)) ≢ ok cs
no_configs cancelled y cs h = elim (Result-cases (received {A = ApiSnapshot} (fail cancelled y))) [
  | inl (f, e) ↦ ground (arith, e, h)
  | inr (s, e) ↦ not-received-fail ApiSnapshot cancelled y s e
]

-- What a snapshot holds was read at once, after its watermark.
snapshot-rows :
    (q : Query) (rev : ℤ) (out : List Text) (s : ApiSnapshot)
    → snapshot q q rev out ≡ ok s
    → (rows : List Config) × (list_prefixes q.env out q.tables ≡ ok rows)
      × (s.configs ≡ map api_config rows)
unfolding snapshot
snapshot-rows q rev out s h =
    let (db, read, rest) = >>=-eq-ok (revision_at q) _ h in
    let (rows, listed, made) = >>=-eq-ok (list_prefixes q.env out q.tables) _ rest in
    (rows, listed, ground (arith, made))

refused : (cs : List ApiConfig) → configs_of (received (error_body 400)) ≢ ok cs
unfolding received
refused cs h = cc

module _ (x : Wire) (e : Env) (ps : List Text) (t : Tables) where
  abbrev asks : Query
  asks = record { env = e; tables = t }

  abbrev response : Body ApiSnapshot
  response = handle_list x.cancelled x.watcher asks asks asks ps

  list-fails :
      (y : StoreError) → observed_revision x.watcher asks ≡ err y → response ≡ fail x.cancelled y
  unfolding handle_list
  list-fails y o = rw (o, handle_list) refl

  list-refuses :
      (rev : ℤ)
      → observed_revision x.watcher asks ≡ ok rev
      → prefixes ps ≡ none
      → response ≡ error_body 400
  unfolding handle_list
  list-refuses rev o p = rw (o, p, handle_list) refl

  list-replies :
      (rev : ℤ) (out : List Text)
      → observed_revision x.watcher asks ≡ ok rev
      → prefixes ps ≡ some out
      → response ≡ reply x.cancelled (snapshot asks asks rev out)
  unfolding handle_list
  list-replies rev out o p = rw (o, p, handle_list) refl

  abbrev Listed : List ApiConfig → Type 0
  Listed cs =
      (out : List Text) × (rows : List Config) × (prefixes ps ≡ some out)
      × (list_prefixes e out t ≡ ok rows)
      × (cs ≡ map api_config rows)

  snapshot-Listed :
      (cs : List ApiConfig) (rev : ℤ) (out : List Text)
      → prefixes ps ≡ some out
      → configs_of (received (reply x.cancelled (snapshot asks asks rev out))) ≡ ok cs
      → Listed cs
  unfolding received
  snapshot-Listed cs rev out p h = elim (Result-cases (snapshot asks asks rev out)) [
    | inl (y, f) ↦ absurd (
        no_configs x.cancelled y cs
          (subst (λ r. configs_of (received (reply x.cancelled r)) ≡ ok cs) f h))
    | inr (s, f) ↦
        let (rows, listed, made) = snapshot-rows asks rev out s f in
        let same : ok s.configs ≡ ok cs =
          subst (λ r. configs_of (received (reply x.cancelled r)) ≡ ok cs) f h in
        (out, rows, p, listed, ground (arith, same, made))
  ]

  handle_list-Listed : (cs : List ApiConfig) → Http.list x e ps t ≡ ok cs → Listed cs
  unfolding Http.list
  handle_list-Listed cs h = elim (Result-cases (observed_revision x.watcher asks)) [
    | inl (y, o) ↦ absurd (
        no_configs x.cancelled y cs
          (subst (λ b. configs_of (received b) ≡ ok cs) (list-fails y o) h))
    | inr (rev, o) ↦ elim (Option-cases (prefixes ps)) [
      | inl p ↦
          absurd
            (refused cs (subst (λ b. configs_of (received b) ≡ ok cs) (list-refuses rev o p) h))
      | inr (out, p) ↦
          snapshot-Listed cs rev out p
            (subst (λ b. configs_of (received b) ≡ ok cs) (list-replies rev out o p) h)
    ]
  ]

-- A list that the server returns is the list that the database returns for the same prefixes,
-- over the same tables and engine.
pub list-agrees :
    (x : Wire) (e : Env) (ps : List Text) (t : Tables) (cs : List ApiConfig)
    → Http.list x e ps t ≡ ok cs
    → Db.list e ps t ≡ ok cs
unfolding Db.list list_prefixes
list-agrees x e ps t cs h =
    let (out, rows, p, l, same) = handle_list-Listed x e ps t cs h in
    let asked = ((prefixes-requested ps).1 out p).1 in
    let chosen : selects ps ≡ selects out = fun_ext (λ (c : Config).
      selects-requested ps c ∙ sym (asked c.key) ∙ sym (selects-requested out c)) in
    rw (chosen, l, same) refl
