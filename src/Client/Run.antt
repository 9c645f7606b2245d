-- ===== src/Client/Run.antt =====
-- The refresh loop of client/client.go: `run`, the back-off and its jitter.
pub mod Laws
use lite_settings.Base.{
  ℕ, zero, suc, ◌+◌, ◌-◌, ◌*◌, ◌/◌, min, Bool, true, false, not, ◌&&◌, List, [], ◌∷◌, ◌++◌, Option,
  none, some, ◌==◌, if◌then◌else◌,
}
use lite_settings.Client.Refresh.{
  Client, Event, FetchError, deadline_exceeded, Polled, fetch_once, mark_success, mark_failure,
}

-- Durations in nanoseconds.
abbrev pub min_backoff : ℕ
min_backoff = 200_000_000

abbrev pub max_backoff : ℕ
max_backoff = 30_000_000_000

-- `random` is `rand.N`.
unfoldable pub jitter : (ℕ → ℕ) → ℕ → ℕ
jitter random d = let spread = d / 2 in if spread == 0 then d else d - spread / 2 + random spread

-- What one round meets: what the source returns, whether the round's own deadline had passed, the
-- clock, the random number, whether the fallback file can be written, and where the client is
-- cancelled.
pub record Round : Type 0 where
  pub cancelled_before : Bool
  pub polled : Polled
  pub own_deadline : Bool
  pub cancelled_after : Bool
  pub now : ℕ
  pub random : ℕ → ℕ
  pub cancelled_waiting : Bool
  pub writable : Bool

pub record Loop : Type 0 where
  pub client : Client
  pub backoff : ℕ
  pub stopped : Bool
  pub waits : List ℕ
  pub events : List Event

-- `err == nil || (ownDeadline && errors.Is(err, context.DeadlineExceeded))`.
unfoldable pub is_fine : Bool → Option FetchError → Bool
is_fine own none = true
is_fine own (some deadline_exceeded) = own
is_fine own (some _) = false

-- The end of a round, after the second test of the context.
unfoldable pub settle : Round → Loop → Option FetchError → Loop
settle r l none = record l { client = mark_success r.now l.client; backoff = min_backoff }
settle r l (some e) =
    let (c, events) = mark_failure e l.client in
    let waiting = record l {
      client = c;
      waits = jitter r.random l.backoff ∷ l.waits;
      events = l.events ++ events;
    } in
    if is_fine r.own_deadline (some e)
    then record l { client = mark_success r.now l.client; backoff = min_backoff }
    else if r.cancelled_waiting
    then record waiting { stopped = true }
    else record waiting { backoff = min (l.backoff * 2) max_backoff }

unfoldable pub round : Loop → Round → Loop
unfolding settle is_fine
round l r =
    let (c, events, err) = fetch_once r.writable r.polled true l.client in
    let polled = record l { client = c; events = l.events ++ events } in
    if l.stopped
    then l
    else if r.cancelled_before
    then record l { stopped = true }
    else if r.cancelled_after
    then record polled { stopped = true }
    else settle r polled err

unfoldable pub run : Loop → List Round → Loop
unfolding round
run l [] = l
run l (r ∷ rs) = run (round l r) rs

unfoldable pub started : Client → Loop
started c = record { client = c; backoff = min_backoff; stopped = false; waits = []; events = [] }
