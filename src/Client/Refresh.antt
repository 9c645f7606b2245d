-- ===== src/Client/Refresh.antt =====
-- The state of client/client.go's Client and what one fetch does to it: `apply`, `notify` and
-- `fetchOnce`. Callbacks are the events that a step returns, in order; a callback that panics is
-- contained by `safely` and changes nothing.
pub mod Laws
use lite_settings.Base.{
  ℕ, zero, suc, ◌+◌, Bool, true, false, not, ◌&&◌, ◌||◌, List, [], ◌∷◌, ◌++◌, Option, none, some,
  if◌then◌else◌,
}
use lite_settings.Base.Int.{ℤ, is_negative}
use lite_settings.Base.Text.{Text}
use lite_settings.Client.View.{Snapshot, View, new_view, empty_view, to_wire, diff}
use lite_settings.Client.Prefixes.{filter_prefix, notify_prefixes}

pub record Options : Type 0 where
  pub prefixes : List Text
  pub has_fallback : Bool
  pub strict : Bool
  pub degrade_on_start : Bool
  pub has_on_change : Bool
  pub has_on_error : Bool

-- `id` stands for the callback of a watcher.
pub record Watcher : Type 0 where
  pub prefix : Text
  pub id : ℕ

pub data FetchError : Type 0 where
  deadline_exceeded no_snapshot : FetchError
  source_failed : Text → FetchError

-- `file` is the fallback file, where one was written.
pub record Client : Type 0 where
  pub options : Options
  pub snap : View
  pub seeded : Bool
  pub file : Option Snapshot
  pub last_success : Option ℕ
  pub consecutive_fail : ℕ
  pub last_err : Option FetchError
  pub watchers : List Watcher
  pub closed : Bool

pub data Event : Type 0 where
  watch_called : Watcher → View → Event
  change_called : Text → List Text → Event
  error_called : FetchError → Event

abbrev pub is_nil : List Text → Bool
is_nil [] = true
is_nil (k ∷ ks) = false

-- The two loops of `notify`.
unfoldable pub notify_watchers : List Watcher → View → List Text → List Event
notify_watchers [] s changed = []
notify_watchers (w ∷ ws) s changed =
    let rest = notify_watchers ws s changed in
    if is_nil (filter_prefix changed w.prefix) then rest else watch_called w s ∷ rest

unfoldable pub notify_changes : List Text → List Text → List Event
notify_changes [] changed = []
notify_changes (p ∷ ps) changed =
    let rest = notify_changes ps changed in
    let sub = filter_prefix changed p in if is_nil sub then rest else change_called p sub ∷ rest

unfoldable pub notify : Client → View → List Text → List Event
unfolding notify_watchers notify_changes
notify c s changed =
    notify_watchers c.watchers s changed
    ++ (if c.options.has_on_change
        then notify_changes (notify_prefixes c.options.prefixes) changed
        else [])

-- `writeFallback`, which the file system may refuse.
unfoldable pub persist : Bool → View → Client → Client
persist true next c = record c { seeded = true; file = some (to_wire next) }
persist false next c = c

unfoldable pub apply : Bool → Snapshot → Bool → Client → Client × List Event
unfolding persist
apply writable s notifying c =
    let next = new_view s in
    let changed = diff c.snap next in
    let swapped = record c { snap = next } in
    let kept =
      if c.options.has_fallback && (not (is_nil changed) || not c.seeded)
      then persist writable next swapped
      else swapped in
    (kept, if is_nil changed then [] else if notifying then notify kept next changed else [])

-- What `Source.Poll` returns: (nil, nil) is `unchanged`.
pub data Polled : Type 0 where
  failed : FetchError → Polled
  unchanged : Polled
  updated : Snapshot → Polled

unfoldable pub fetch_once : Bool → Polled → Bool → Client → Client × List Event × Option FetchError
unfolding apply
fetch_once writable (failed e) notifying c = (c, [], some e)
fetch_once writable unchanged notifying c = (c, [], none)
fetch_once writable (updated s) notifying c =
    let (c', events) = apply writable s notifying c in (c', events, none)

unfoldable pub has_snapshot : Client → Bool
has_snapshot c = not (is_negative c.snap.revision)

unfoldable pub mark_success : ℕ → Client → Client
mark_success now c = record c { last_success = some now; consecutive_fail = 0; last_err = none }

unfoldable pub mark_failure : FetchError → Client → Client × List Event
mark_failure e c = (
  record c { consecutive_fail = c.consecutive_fail + 1; last_err = some e },
  if c.options.has_on_error then error_called e ∷ [] else [],
)
