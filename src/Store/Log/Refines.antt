-- ===== src/Store/Log/Refines.antt =====
-- The tables refine the log: each operation that reports success is the log's operation, and Get
-- reads what the log says.
use mathlib.Core.Option
use lite_settings.Base.{
  ℕ, suc, ◌≡◌, refl, sym, ◌∙◌, ap, false, List, [], ◌∷◌, Option, none, some, arith, if◌then◌else◌,
  length, map, Result, ok, err,
}
use lite_settings.Base.Int.{ℤ, pos, negsuc}
use lite_settings.Base.Text.{Text, text_eq}
use lite_settings.Store.Validate.{
  StoreError, Change, Parsers, format_raw, validate_key, not_found, select_config,
}
use lite_settings.Store.Tables.{
  Config, Op, set, delete, rollback, HistoryEntry, Tables, Env, find_config, of_key, find_version,
  get_config,
}
use lite_settings.Store.Tables.Rows.{Numbered, max_version_of-Numbered}
use lite_settings.Store.Read.{get, found}
use lite_settings.Store.Write.{
  WriteResult, Resolver, set_config, remove_config, rollback_config, resolve_set, resolve_delete,
  resolve_rollback,
}
use lite_settings.Store.Write.Wrote.{Wrote, write_tx_ok, write_ok}
use lite_settings.Store.Write.Invariant.{IsConsistent, current_row, latest}
use lite_settings.Store.Log.{
  events_of, current, nth_event, append, log_set, log_delete, log_rollback, event, log, newest,
}

events_of-map :
    (k : Text) (hs : List HistoryEntry) → events_of k (map event hs) ≡ map event (of_key k hs)
unfolding of_key
events_of-map k [] = refl
events_of-map k (h ∷ hs) = ground (arith, events_of-map k hs)

length-map-event : (hs : List HistoryEntry) → length (map event hs) ≡ length hs
length-map-event [] = refl
length-map-event (h ∷ hs) = ap suc (length-map-event hs)

newest-map : (hs : List HistoryEntry) → newest (map event hs) ≡ latest hs
newest-map [] = refl
newest-map (h ∷ hs) = ground arith

nth_event-map :
    (v : ℕ) (hs : List HistoryEntry)
    → Numbered hs
    → nth_event v (map event hs) ≡ Option.map event (find_version v hs)
unfolding nth_event find_version
nth_event-map v [] n = refl
nth_event-map v (h ∷ hs) n = ground (arith, nth_event-map v hs n.1, length-map-event hs, n.0)

pub current-log :
    (t : Tables)
    → IsConsistent t
    → (k : Text) → current k (log t) ≡ current_row (find_config k t.configs)
unfolding current
current-log t v k =
    ap newest (events_of-map k t.history) ∙ newest-map (of_key k t.history) ∙ sym (v.current k)

module _ {e : Env} {p : Parsers} {key : Text} {op : Op} {c : Change} {resolve : Resolver}
    {t t' : Tables} {w : WriteResult} where
  Wrote-append :
      (h : Wrote e p key op c resolve t t' w)
      → IsConsistent t
      → append key op c h.resolved.0 h.resolved.1 (log t) ≡ (log t', w)
  unfolding append
  Wrote-append h v = ground (
    arith,
    h.history,
    h.version,
    h.revision,
    h.migrated,
    v.revision,
    v.numbered key,
    max_version_of-Numbered (of_key key t.history),
    events_of-map key t.history,
    length-map-event t.history,
    length-map-event (of_key key t.history),
  )

-- A Set that reports success on consistent tables has appended one event to the log, with raw for
-- an empty format, and returns the log's new length and the number of the key's events.
pub set_config-log :
    (e : Env) (p : Parsers) (key value format : Text) (c : Change) (t t' : Tables) (w : WriteResult)
    → IsConsistent t
    → set_config e p key value format c t ≡ (t', ok w)
    → log_set key value (if text_eq format [] then format_raw else format) c (log t) ≡ (log t', w)
unfolding set_config log_set resolve_set
set_config-log e p key value format c t t' w v h =
    let (_, _, q) = write_ok e p key set c _ t t' w h in
    let d = write_tx_ok e p key set c _ t t' w q in ground (arith, Wrote-append d v, d.resolves)

-- A Delete that reports success on consistent tables has appended one event with the removed value;
-- the log's own Delete succeeds exactly so.
pub remove_config-log :
    (e : Env) (p : Parsers) (key : Text) (c : Change) (t t' : Tables) (w : WriteResult)
    → IsConsistent t
    → remove_config e p key c t ≡ (t', ok w)
    → log_delete key c (log t) ≡ some (log t', w)
unfolding remove_config log_delete resolve_delete
remove_config-log e p key c t t' w v h =
    let (_, _, q) = write_ok e p key delete c _ t t' w h in
    let d = write_tx_ok e p key delete c _ t t' w q in
    ground (arith, Wrote-append d v, d.resolves, current-log t v key)

-- A Rollback that reports success on consistent tables has appended one event with the value of the
-- version asked for; the log's own rollback succeeds with the same result.
pub rollback_config-log :
    (e : Env) (p : Parsers) (key : Text) (to_version : ℤ) (c : Change) (t t' : Tables)
    (w : WriteResult)
    → IsConsistent t
    → rollback_config e p key to_version c t ≡ (t', ok w)
    → log_rollback key to_version c (log t) ≡ some (log t', w)
unfolding rollback_config log_rollback resolve_rollback
rollback_config-log e p key (pos n) c t t' w v h =
    let (_, _, q) = write_ok e p key rollback c _ t t' w h in
    let d = write_tx_ok e p key rollback c _ t t' w q in
    ground (
      arith,
      Wrote-append d v,
      d.resolves,
      events_of-map key t.history,
      nth_event-map n (of_key key t.history) (v.numbered key),
    )
rollback_config-log e p key (negsuc n) c t t' w v h =
    let (_, _, q) = write_ok e p key rollback c _ t t' w h in
    let d = write_tx_ok e p key rollback c _ t t' w q in ground (arith, d.resolves)

-- What Get answers to the current value of the log.
abbrev pub Answers : Result StoreError Config → Option (Text × Text × Text) → Type 0
Answers r none = r ≡ err not_found
Answers r (some (value, format, author)) =
    (cfg : Config) × (r ≡ ok cfg)
    × (cfg.value ≡ value)
    × (cfg.format ≡ format)
    × (cfg.updated_by ≡ author)

Answers-row : (o : Option Config) → Answers (found o) (current_row o)
Answers-row none = refl
Answers-row (some cfg) = (cfg, refl, refl, refl, refl)

-- Get of a valid key on consistent tables, where the engine does not refuse the query, returns the
-- value, format and author that are current in the log, and "not found" exactly where the log has
-- none.
pub get-current :
    (e : Env) (key : Text) (t : Tables)
    → IsConsistent t
    → validate_key key ≡ ok tt
    → e.refuses select_config ≡ false
    → Answers (get e key t) (current key (log t))
unfolding get get_config
get-current e key t v hk h =
    rw (hk, h, current-log t v key) (Answers-row (find_config key t.configs))
