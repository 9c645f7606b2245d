-- ===== src/Client/Tests.antt =====
-- The client's operations at concrete inputs, and its theorems applied there.
use lite_settings.Base.{length, ◌+◌, ◌≡◌, ◌↔◌, refl, true, false, List, [], ◌∷◌, none, keep_if}
use lite_settings.Base.Int.{pos}
use lite_settings.Base.Dict.{lookup, put}
use lite_settings.Base.Sort.{sort, sort_by, insert_by}
use lite_settings.Base.Text.{Text, text, text_eq, text_lt, has_prefix, requested}
use lite_settings.Client.View.{
  Config, Snapshot, new_view, add_configs, diff_new, diff_old, prefix_range, slice, diff,
}
use lite_settings.Client.View.Range.{prefix_range-slice, new_view-Ascending}
use lite_settings.Base.{map, ◌++◌, some, ok}
use lite_settings.Client.Start.{fresh, recover, load_fallback, new_client}
use lite_settings.Client.Start.Laws.{Serves, new_client-Serves}
use lite_settings.Client.Decode.{Decoders, Cache, load, decode, cached_decode}
use lite_settings.Client.Decode.Cache.{IsFaithful, cached_decode-decode}
use lite_settings.Client.Group.{Group, group_keys}
use lite_settings.Client.Group.Laws.{group_keys-absolute}
use lite_settings.Client.Prefixes.{normalize_prefixes}
use lite_settings.Client.Prefixes.Laws.{normalize_prefixes-requested}
use lite_settings.Client.Refresh.{
  fetch_once, Watcher, source_failed, Client, watch_called, failed, apply,
}
use lite_settings.Client.Refresh.Laws.{Listed, ChangedUnder, apply-watch_called}
use lite_settings.Client.Run.{Round, is_fine, run, started}
use lite_settings.Client.Run.Laws.{Fails, Waited, nominal, run-failures}

abbrev config : Text → Text → Config
config k v = record { key = k; value = v; format = text "raw" }

abbrev first : Snapshot
first = record {
  revision = pos 1;
  configs = config (text "b:x") (text "1") ∷ config (text "a:x") (text "1") ∷ [];
}

abbrev second : Snapshot
second = record {
  revision = pos 3;
  configs =
      config (text "a:x") (text "1")
      ∷ config (text "b:x") (text "2")
      ∷ config (text "b:y") (text "3")
      ∷ [];
}

-- A view holds its keys in order.
new_view-keys : (new_view first).keys ≡ text "a:x" ∷ text "b:x" ∷ []
unfolding new_view sort sort_by insert_by text_lt
new_view-keys = refl

diff-second : diff (new_view first) (new_view second) ≡ text "b:x" ∷ text "b:y" ∷ []
unfolding diff new_view sort sort_by insert_by text_lt text_eq add_configs put lookup diff_new
    diff_old
diff-second = refl

abbrev on_b : Watcher
on_b = record { prefix = text "b:"; id = 0 }

abbrev running : Client
running = record {
  options = record {
    prefixes = [];
    has_fallback = true;
    strict = false;
    degrade_on_start = false;
    has_on_change = true;
    has_on_error = true;
  };
  snap = new_view first;
  seeded = false;
  file = none;
  last_success = none;
  consecutive_fail = 0;
  last_err = none;
  watchers = on_b ∷ [];
  closed = false;
}

apply-watch_called_example :
    ((apply true second true running).0.snap ≡ new_view second)
    × (Listed (watch_called on_b (new_view second)) (apply true second true running).1
        ↔ (Listed on_b (on_b ∷ []) × ChangedUnder (text "b:") (new_view first) (new_view second)))
apply-watch_called_example = apply-watch_called true second running on_b

prefix_range-slice_example :
    slice
      (new_view second).keys
      (prefix_range (new_view second) (text "b:")).0
      (prefix_range (new_view second) (text "b:")).1
    ≡ keep_if (λ k. has_prefix k (text "b:")) (new_view second).keys
prefix_range-slice_example =
    prefix_range-slice (new_view second) (text "b:") (new_view-Ascending second)

normalize_prefixes-requested_example :
    requested (normalize_prefixes (text "a" ∷ text "b" ∷ text "a" ∷ [])) (text "b:x")
    ≡ requested (text "a" ∷ text "b" ∷ text "a" ∷ []) (text "b:x")
normalize_prefixes-requested_example =
    normalize_prefixes-requested (text "a" ∷ text "b" ∷ text "a" ∷ []) (text "b:x")

-- A round whose source is down.
abbrev down : Round
down = record {
  cancelled_before = false;
  polled = failed (source_failed (text "down"));
  own_deadline = false;
  cancelled_after = false;
  now = 5;
  random = λ n. 0;
  cancelled_waiting = false;
  writable = true;
}

abbrev rounds : List Round
rounds = down ∷ down ∷ []

down-Fails : Fails down
unfolding is_fine
down-Fails = record {
  error = source_failed (text "down");
  polls = refl;
  fails = refl;
  goes_on = refl;
  own = refl;
  waits = refl;
  draws = λ n h. h;
}

run-failures_example :
    Waited (run (started running) rounds).waits
    × (length (run (started running) rounds).waits ≡ 2)
    × ((run (started running) rounds).backoff ≡ nominal 2)
    × ((run (started running) rounds).client.consecutive_fail ≡ 0 + 2)
    × ((run (started running) rounds).client.snap ≡ new_view first)
    × ((run (started running) rounds).stopped ≡ false)
run-failures_example = run-failures running rounds (down-Fails, (down-Fails, tt))

-- A group of the second view.
abbrev group_b : Group
group_b = record { prefix = text "b:"; snap = new_view second; strict = false }

group_keys-absolute_example :
    map (λ k. text "b:" ++ k) (group_keys group_b)
    ≡ keep_if (λ k. has_prefix k (text "b:")) (new_view second).keys
group_keys-absolute_example = group_keys-absolute group_b (new_view-Ascending second)

-- Decoders that keep the text.
abbrev as_text : Decoders Text
as_text = record {
  of_string = λ s. s;
  of_bytes = λ s. s;
  scalar = λ k s. some s;
  json = λ t strict s. some s;
  yaml = λ t strict s. none;
}

bound : lookup (text "b:x") (new_view second).by_key ≡ some (config (text "b:x") (text "2"))
unfolding new_view add_configs put lookup text_eq
bound = refl

abbrev no_results : Cache as_text
no_results = []

no_results-IsFaithful : IsFaithful as_text (new_view second) false no_results
unfolding load
no_results-IsFaithful key t c r b q = cc

cached_decode-decode_example :
    ((cached_decode as_text no_results no_results
        (text "b:x")
        (text "string")
        (config (text "b:x") (text "2"))
        false).1
      ≡ decode as_text (text "string") (text "2") (text "raw") false)
    × IsFaithful as_text
        (new_view second)
        false
        (cached_decode as_text no_results no_results
          (text "b:x")
          (text "string")
          (config (text "b:x") (text "2"))
          false).0
cached_decode-decode_example =
    cached_decode-decode as_text (new_view second) false no_results no_results (text "b:x")
      (text "string") (config (text "b:x") (text "2")) bound no_results-IsFaithful
      no_results-IsFaithful

-- A start while the source is down, from the fallback file.
abbrev from_file : Client
from_file = record (fresh running.options (some first)) { snap = new_view first }

new_client-Serves_example :
    ((new_client running.options (some first) (failed (source_failed (text "down"))) true 9).1 ≡ [])
    × ((new_client running.options (some first) (failed (source_failed (text "down"))) true 9).0
          ≡ ok from_file
        → Serves running.options (some first) (failed (source_failed (text "down"))) 9 from_file)
new_client-Serves_example =
    new_client-Serves running.options (some first) (failed (source_failed (text "down"))) true 9
      from_file

-- The start succeeds.
from_file-starts :
    (new_client running.options (some first) (failed (source_failed (text "down"))) true 9).0
    ≡ ok from_file
unfolding new_client fetch_once recover load_fallback fresh
from_file-starts = refl
