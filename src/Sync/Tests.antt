-- ===== src/Sync/Tests.antt =====
-- Readers beside writers at concrete inputs, and the theorems on them applied there.
use lite_settings.Base.{some}
use lite_settings.Server.Handlers.{body}
use lite_settings.Base.{◌≡◌, ◌≢◌, refl, true, false, List, [], ◌∷◌}
use lite_settings.Base.Int.{pos}
use lite_settings.Base.Dict.{contains, keys, lookup}
use lite_settings.Base.Text.{Text, text}
use lite_settings.Store.Tables.{Tables}
use lite_settings.Store.Read.{revision, list_prefixes}
use lite_settings.Store.Write.{remove_config}
use lite_settings.Store.Tests.{
  runs, working, any_value, ann, once, twice, twice-IsConsistent, once-IsConsistent,
}
use lite_settings.Client.View.{Snapshot}
use lite_settings.Source.Db.{Tick, poll, fetch}
use lite_settings.Server.Watcher.{Watcher, health}
use lite_settings.Server.Handlers.{
  after_wait, prefixes, distinct_prefixes, observed_revision, ApiSnapshot, Query, since, snapshot,
  handle_list, handle_watch,
}
use lite_settings.Server.Entries.{
  Asked, ApiWriteResult, ConfigDetail, complete, change, parse_format, read_body, write_result,
  handle_get, handle_set, handle_delete, handle_rollback,
}
use lite_settings.Server.Entries.Laws.{OrDefault, Reports, handlers-Reports, handle_get-handle_set}
use lite_settings.Sync.{Writes, done, removes, sets}
use lite_settings.Sync.Label.{Shows, decoded}
use lite_settings.Sync.Poll.{poll-no_skip}
use lite_settings.Sync.Handlers.{handle_list-no_skip, handle_watch-no_skip}

-- A removal of a key that breaks the rules, which changes nothing.
abbrev refused : Tables
refused = (remove_config working any_value (text "a/b") ann twice).0

abbrev at_twice : Query
at_twice = record { env = working; tables = twice }

abbrev at_once : Query
at_once = record { env = working; tables = once }

abbrev at_refused : Query
at_refused = record { env = working; tables = refused }

abbrev seen_by : Watcher
seen_by = record { rev = pos 9; generation = 1; ready = true; db_err = []; closed = false }

abbrev one_row : ApiSnapshot
one_row = record {
  revision = pos 2;
  configs = record { key = text "app:a"; value = text "2"; format = text "raw" } ∷ [];
}

abbrev app : List Text
app = text "app:" ∷ []

refused-Writes : Writes twice refused
refused-Writes = removes done working any_value (text "a/b") ann

unfoldable responses : Unit {0}
unfolding handle_set read_body write_result parse_format change runs revision list_prefixes snapshot
    poll fetch handle_list handle_watch after_wait prefixes distinct_prefixes observed_revision
    health contains keys lookup
responses = tt

handle_list-no_skip_example : Shows app (decoded one_row) refused
unfolding responses
handle_list-no_skip_example =
    handle_list-no_skip false seen_by at_once at_twice at_refused app one_row working refused 2
      twice-IsConsistent refused-Writes done refl refl refl

handle_watch-no_skip_example : Shows app (decoded one_row) refused
unfolding responses
handle_watch-no_skip_example =
    handle_watch-no_skip false seen_by at_once at_twice at_refused app (since (pos 1))
      (λ n. (pos 9, true)) one_row working refused 2 twice-IsConsistent refused-Writes done refl
      refl refl

-- A round that meets the baseline, and one after another write.
abbrev idle : Tick
idle = record { env = working; seen = once; env' = working; read = once; ended = false }

abbrev busy : Tick
busy = record { env = working; seen = twice; env' = working; read = refused; ended = false }

abbrev row_of_two : Snapshot
row_of_two = decoded one_row

second-Writes : Writes once twice
second-Writes = sets done working any_value (text "app:a") (text "2") [] ann

poll-no_skip_example :
    (row_of_two.revision ≢ pos 1) × (row_of_two.revision ≡ pos 2 → Shows app row_of_two refused)
unfolding responses
poll-no_skip_example =
    poll-no_skip (pos 1) app (idle ∷ busy ∷ []) row_of_two working refused 2
      ((
        once-IsConsistent,
        done,
        removes second-Writes working any_value (text "a/b") ann,
        (twice-IsConsistent, refused-Writes, done, tt),
      ))
      refl refl

-- A request to set the key once more, and one that repeats what is stored.
abbrev asked : Asked
asked = record { author = []; comment = text "again" }

abbrev stored : ApiWriteResult
stored = record { key = text "app:a"; version = 3; revision = 3 }

handle_set-stored :
    (handle_set false working any_value (text "app:a") [] (complete (text "3")) asked twice).1
    ≡ body 200 stored
unfolding responses
handle_set-stored = refl

handlers-Reports_example :
    Reports
      (text "app:a")
      twice
      (handle_set false working any_value (text "app:a") [] (complete (text "3")) asked twice)
    × Reports
        (text "app:a")
        twice
        (handle_delete false working any_value (text "app:a") asked twice)
    × Reports (text "app:a") twice (
        handle_rollback false working any_value
          (λ b. some (pos 1))
          (text "app:a")
          (complete (text "3"))
          asked
          twice)
handlers-Reports_example =
    handlers-Reports false working any_value (λ b. some (pos 1)) (text "app:a") []
      (complete (text "3")) asked twice (λ q. cc) twice-IsConsistent

handle_get-handle_set_example :
    (d : ConfigDetail) × (handle_get false working
        (text "app:a")
        (handle_set false working any_value (text "app:a") [] (complete (text "3")) asked twice).0
      ≡ body 200 d)
    × (d.key ≡ text "app:a")
    × (d.value ≡ text "3")
    × OrDefault [] (text "raw") d.format
    × OrDefault asked.author (text "anonymous") d.updated_by
handle_get-handle_set_example =
    handle_get-handle_set false false working working any_value (text "app:a") [] (text "3") asked
      twice stored handle_set-stored refl
