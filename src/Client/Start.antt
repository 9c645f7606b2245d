-- ===== src/Client/Start.antt =====
-- The life of a client in client/client.go: `New` with its start-up fetch and fallback, `Watch`,
-- `Close` and `Stats`.
pub mod Laws
use lite_settings.Base.{
  ℕ, Bool, true, false, not, ◌&&◌, List, [], ◌∷◌, ◌++◌, Option, none, some, if◌then◌else◌, Result,
  ok, err,
}
use lite_settings.Base.Int.{ℤ}
use lite_settings.Base.Text.{Text}
use lite_settings.Client.View.{Snapshot, View, new_view, empty_view}
use lite_settings.Client.Prefixes.{normalize_prefixes}
use lite_settings.Client.Refresh.{
  Options, Watcher, FetchError, no_snapshot, Client, Event, watch_called, Polled, fetch_once,
  has_snapshot, mark_success,
}

-- A client before its first fetch. `file` is the fallback file, where one can be read.
unfoldable pub fresh : Options → Option Snapshot → Client
fresh o file = record {
  options = record o { prefixes = normalize_prefixes o.prefixes };
  snap = empty_view;
  seeded = false;
  file = file;
  last_success = none;
  consecutive_fail = 0;
  last_err = none;
  watchers = [];
  closed = false;
}

-- `loadFallback`: the view of the file, where the client has one.
abbrev fallback_view : Bool → Option Snapshot → Option View
fallback_view false file = none
fallback_view true none = none
fallback_view true (some s) = some (new_view s)

unfoldable pub load_fallback : Client → Option Client
load_fallback c = elim (fallback_view c.options.has_fallback c.file) [
  | none ↦ none
  | some v ↦ some (record c { snap = v })
]

-- `cmp.Or(err, ErrNoSnapshot)`.
abbrev pub cause : Option FetchError → FetchError
cause none = no_snapshot
cause (some e) = e

abbrev pub failed_fetch : Option FetchError → Bool
failed_fetch none = false
failed_fetch (some e) = true

-- The `switch` after a start-up fetch that brought no snapshot.
unfoldable pub recover : Client → Option FetchError → Result FetchError Client
unfolding load_fallback
recover c e = elim (load_fallback c) [
  | some c' ↦ ok c'
  | none ↦ if c.options.degrade_on_start then ok c else err (cause e)
]

abbrev pub settled : ℕ → Client → Option FetchError → Result FetchError Client
settled now c e =
    if not (failed_fetch e) && has_snapshot c then ok (mark_success now c) else recover c e

-- `New`, with what the source returns to the first poll, whether the fallback file can be written,
-- and the clock.
unfoldable pub new_client :
    Options → Option Snapshot → Polled → Bool → ℕ → Result FetchError Client × List Event
unfolding fresh recover
new_client o file polled writable now =
    let (c, events, e) = fetch_once writable polled false (fresh o file) in
    (settled now c e, events)

-- `Watch`: the callback is called at once.
unfoldable pub watch : Watcher → Client → Client × List Event
watch w c = (record c { watchers = c.watchers ++ (w ∷ []) }, watch_called w c.snap ∷ [])

-- `Close`; the Boolean says that the loop and the source are closed now.
unfoldable pub close : Client → Client × Bool
close c = if c.closed then (c, false) else (record c { closed = true }, true)

pub record Stats : Type 0 where
  pub revision : ℤ
  pub last_success : Option ℕ
  pub consecutive_fail : ℕ
  pub last_err : Option FetchError

unfoldable pub stats : Client → Stats
stats c = record {
  revision = c.snap.revision;
  last_success = c.last_success;
  consecutive_fail = c.consecutive_fail;
  last_err = c.last_err;
}
