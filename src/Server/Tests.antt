-- ===== src/Server/Tests.antt =====
-- The server at concrete inputs, and its theorems applied there.
use lite_settings.Base.{◌≤◌, ◌<◌, ◌≡◌, ◌↔◌, true, List, [], ◌∷◌, none, some, length, arith}
use lite_settings.Base.Int.{pos}
use lite_settings.Base.Text.{Text, text, requested}
use lite_settings.Server.Watcher.{
  Watcher, new_watcher, set, wait, poll_ok, calling, blocked, returned, Step, polls, enters, Reach,
  starts, next,
}
use lite_settings.Server.Watcher.Laws.{Reach-wakes}
use lite_settings.Server.Handlers.{prefixes, max_prefixes}
use lite_settings.Server.Handlers.Laws.{prefixes-requested}

-- The watermark is 4, a waiter blocks on it, and the watermark moves to 6.
abbrev at_four : Watcher
at_four = poll_ok (pos 4) new_watcher

abbrev at_six : Watcher
at_six = poll_ok (pos 6) at_four

waits-Reach : Reach at_six (blocked (pos 4) 1)
unfolding wait poll_ok set new_watcher
waits-Reach =
    next {w = at_four} {a = blocked (pos 4) 1}
      (next {w = at_four} {a = calling (pos 4)}
        (next (starts (pos 4)) (polls new_watcher (calling (pos 4)) (pos 4)))
        (enters at_four (pos 4)))
      (polls at_four (blocked (pos 4) 1) (pos 6))

Reach-wakes_example : Step at_six (blocked (pos 4) 1) at_six (returned (pos 6) true)
unfolding wait poll_ok set new_watcher
Reach-wakes_example = Reach-wakes at_six (pos 4) 1 waits-Reach (λ q. ground arith)

prefixes-requested_example :
    ((prefixes (text "a" ∷ text "a" ∷ []) ≡ none) ↔ (max_prefixes < 2))
    × ((out : List Text)
        → prefixes (text "a" ∷ text "a" ∷ []) ≡ some out
        → (length out ≤ max_prefixes)
          × ((k : Text) → requested out k ≡ requested (text "a" ∷ text "a" ∷ []) k))
prefixes-requested_example = prefixes-requested (text "a" ∷ text "a" ∷ [])
