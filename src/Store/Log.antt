-- ===== src/Store/Log.antt =====
-- What package store promises: one append-only log of events. The current value of a key, its
-- versions and the revision are read off the log; Set, Delete and Rollback append one event or fail.
pub mod Refines
use lite_settings.Base.{
  ℕ, zero, suc, ◌+◌, Bool, true, false, List, [], ◌∷◌, Option, none, some, ◌==◌, if◌then◌else◌,
  keep_if, length, map,
}
use lite_settings.Base.Int.{ℤ, pos, negsuc}
use lite_settings.Base.Text.{Text, text_eq}
use lite_settings.Store.Validate.{Change}
use lite_settings.Store.Tables.{Op, set, delete, rollback, HistoryEntry, Tables}
use lite_settings.Store.Write.{WriteResult}

pub record Event : Type 0 where
  pub key : Text
  pub value : Text
  pub format : Text
  pub op : Op
  pub author : Text
  pub comment : Text

-- The newest event stands first.
abbrev pub Log : Type 0
Log = List Event

abbrev pub events_of : Text → Log → Log
events_of k = keep_if (λ x. text_eq x.key k)

abbrev pub live : Event → Op → Option (Text × Text × Text)
live x delete = none
live x _ = some (x.value, x.format, x.author)

abbrev pub newest : Log → Option (Text × Text × Text)
newest [] = none
newest (x ∷ xs) = live x x.op

-- The value, the format and the author of a key now.
unfoldable pub current : Text → Log → Option (Text × Text × Text)
current k l = newest (events_of k l)

-- The v-th event, counted from the oldest.
unfoldable pub nth_event : ℕ → Log → Option Event
nth_event v [] = none
nth_event v (x ∷ xs) = let rest = nth_event v xs in if suc (length xs) == v then some x else rest

unfoldable pub append : Text → Op → Change → Text → Text → Log → Log × WriteResult
append k op c value format l =
    let x : Event = record {
      key = k;
      value = value;
      format = format;
      op = op;
      author = c.author;
      comment = c.comment;
    } in
    (x ∷ l, record { revision = suc (length l); version = suc (length (events_of k l)) })

unfoldable pub log_set : Text → Text → Text → Change → Log → Log × WriteResult
unfolding append
log_set k value format c l = append k set c value format l

unfoldable pub log_delete : Text → Change → Log → Option (Log × WriteResult)
unfolding append current
log_delete k c l = elim (current k l) [
  | none ↦ none
  | some (value, format, _) ↦ some (append k delete c value format l)
]

abbrev int_event : ℤ → Log → Option Event
int_event (pos v) l = nth_event v l
int_event (negsuc v) l = none

unfoldable pub log_rollback : Text → ℤ → Change → Log → Option (Log × WriteResult)
unfolding append nth_event
log_rollback k v c l = elim (int_event v (events_of k l)) [
  | none ↦ none
  | some x ↦ some (append k rollback c x.value x.format l)
]

-- The log that the table lite_config_history holds.
abbrev pub event : HistoryEntry → Event
event h = record {
  key = h.key;
  value = h.value;
  format = h.format;
  op = h.op;
  author = h.created_by;
  comment = h.comment;
}

abbrev pub log : Tables → Log
log t = map event t.history
