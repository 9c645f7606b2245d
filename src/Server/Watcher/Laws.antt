-- ===== src/Server/Watcher/Laws.antt =====
-- No change is missed: a blocked waiter whose baseline the watermark has left can wake.
use lite_settings.Base.{ℕ, ◌≤◌, ◌≡◌, ◌≢◌, Bool, true, false, arith, Bool-cases, inl, inr}
use lite_settings.Base.Int.{ℤ, is_negative, int_eq, int_eq_iff}
use lite_settings.Base.Text.{Text}
use lite_settings.Server.Watcher.{
  Watcher, Waiter, calling, blocked, returned, Step, polls, fails, closes, enters, wakes, stops,
  expires, Reach, starts, next, close, wait, poll_ok, poll_failed, entered,
}

-- A waiter waits for the current channel only while the watermark is its baseline.
pub record IsTracked (w : Watcher) (since : ℤ) (ch : ℕ) : Type 0 where
  pub known : ch ≤ w.generation
  pub current : ch ≡ w.generation → w.rev ≡ since
  pub baseline : is_negative since ≡ false

abbrev pub Tracked : Watcher → Waiter → Type 0
Tracked w (calling since) = Unit
Tracked w (blocked since ch) = IsTracked w since ch
Tracked w (returned r changed) = Unit

poll_ok-IsTracked :
    (r : ℤ) (w : Watcher) (since : ℤ) (ch : ℕ)
    → IsTracked w since ch
    → IsTracked (poll_ok r w) since ch
unfolding poll_ok
poll_ok-IsTracked r w since ch h = ground (arith, int_eq_iff w.rev r)

poll_failed-IsTracked :
    (ended : Bool) (e : Text) (w : Watcher) (since : ℤ) (ch : ℕ)
    → IsTracked w since ch
    → IsTracked (poll_failed ended e w) since ch
unfolding poll_failed
poll_failed-IsTracked ended e w since ch h = ground arith

close-IsTracked :
    (w : Watcher) (since : ℤ) (ch : ℕ) → IsTracked w since ch → IsTracked (close w) since ch
unfolding close
close-IsTracked w since ch h = ground arith

wait-Tracked : (since : ℤ) (w : Watcher) → Tracked w (entered since (wait since w))
unfolding wait
wait-Tracked since w = elim (Bool-cases (is_negative since)) [
  | inl e ↦ rw e tt
  | inr e ↦ elim (Bool-cases (int_eq w.rev since)) [
    | inl q ↦
        rw (e, q)
          (record {
            known = omega arith;
            current = λ _. (int_eq_iff w.rev since).0 q;
            baseline = e;
          })
    | inr q ↦ rw (e, q) tt
  ]
]

Step-Tracked : {w w' : Watcher} {a a' : Waiter} → Step w a w' a' → Tracked w a → Tracked w' a'
Step-Tracked (polls w (calling s) r) h = tt
Step-Tracked (polls w (blocked s ch) r) h = poll_ok-IsTracked r w s ch h
Step-Tracked (polls w (returned s c) r) h = tt
Step-Tracked (fails w (calling s) ended e) h = tt
Step-Tracked (fails w (blocked s ch) ended e) h = poll_failed-IsTracked ended e w s ch h
Step-Tracked (fails w (returned s c) ended e) h = tt
Step-Tracked (closes w (calling s)) h = tt
Step-Tracked (closes w (blocked s ch)) h = close-IsTracked w s ch h
Step-Tracked (closes w (returned s c)) h = tt
Step-Tracked (enters w since) h = wait-Tracked since w
Step-Tracked (wakes w since ch c) h = tt
Step-Tracked (stops w since ch c) h = tt
Step-Tracked (expires w since ch) h = tt

Reach-Tracked : {w : Watcher} {a : Waiter} → Reach w a → Tracked w a
Reach-Tracked (starts since) = tt
Reach-Tracked (next r s) = Step-Tracked s (Reach-Tracked r)

-- In every interleaving of the poller and a waiter, a waiter that is still blocked while the
-- watermark differs from its baseline finds its channel closed, and can return the watermark as
-- changed.
pub Reach-wakes :
    (w : Watcher) (since : ℤ) (ch : ℕ)
    → Reach w (blocked since ch)
    → w.rev ≢ since
    → Step w (blocked since ch) w (returned w.rev true)
Reach-wakes w since ch r n = wakes w since ch (ground (arith, Reach-Tracked r))
