-- ===== src/Server/Watcher.antt =====
-- server/revision_watcher.go. The channel `changed` is closed and replaced when the watermark moves:
-- channels are numbered, `generation` is the current one, and all below it are closed.
pub mod Laws
use lite_settings.Base.{
  [], ℕ, suc, Bool, true, false, ◌||◌, not, Option, none, some, ltb, ◌==◌, if◌then◌else◌, ◌≡◌,
}
use lite_settings.Base.Int.{ℤ, minus_one, is_negative, int_eq}
use lite_settings.Base.Text.{Text}

pub record Watcher : Type 0 where
  pub rev : ℤ
  pub generation : ℕ
  pub ready : Bool
  pub db_err : Text
  pub closed : Bool

unfoldable pub new_watcher : Watcher
new_watcher = record { rev = minus_one; generation = 0; ready = false; db_err = []; closed = false }

unfoldable pub set : ℤ → Watcher → Watcher
set r w =
    let healthy = record w { ready = true; db_err = [] } in
    if int_eq w.rev r then healthy else record healthy { rev = r; generation = suc w.generation }

unfoldable pub set_err : Text → Watcher → Watcher
set_err e w = record w { db_err = e }

unfoldable pub health : Watcher → Bool × ℤ × Text
health w = (w.ready, w.rev, w.db_err)

-- `Close` closes the channel `stop` once.
unfoldable pub close : Watcher → Watcher
close w = if w.closed then w else record w { closed = true }

-- The part of `Wait` under the lock: it returns, or goes on to wait for a channel.
pub data Entry : Type 0 where
  returns : ℤ → Bool → Entry
  blocks : ℕ → Entry

unfoldable pub wait : ℤ → Watcher → Entry
wait since w =
    if is_negative since
    then returns w.rev true
    else if not (int_eq w.rev since)
    then returns w.rev true
    else blocks w.generation

-- A channel is closed.
abbrev pub is_closed : ℕ → Watcher → Bool
is_closed ch w = ltb ch w.generation

-- One caller of `Wait`, from its call to its return.
pub data Waiter : Type 0 where
  calling : ℤ → Waiter
  blocked : ℤ → ℕ → Waiter
  returned : ℤ → Bool → Waiter

abbrev pub entered : ℤ → Entry → Waiter
entered since (returns r changed) = returned r changed
entered since (blocks ch) = blocked since ch

-- One poll of `run`: the revision that the query returns or its error, which is dropped once the
-- context has ended.
unfoldable pub poll_ok : ℤ → Watcher → Watcher
unfolding set
poll_ok r w = set r w

unfoldable pub poll_failed : Bool → Text → Watcher → Watcher
unfolding set_err
poll_failed ended e w = if ended then w else set_err e w

-- The steps of the poller and of one waiter, in any interleaving. The three cases of the `select`
-- each read the watermark as it is then.
pub data Step : Watcher → Waiter → Watcher → Waiter → Type 0 where
  polls : (w : Watcher) (a : Waiter) (r : ℤ) → Step w a (poll_ok r w) a
  fails : (w : Watcher) (a : Waiter) (ended : Bool) (e : Text) → Step w a (poll_failed ended e w) a
  closes : (w : Watcher) (a : Waiter) → Step w a (close w) a
  enters : (w : Watcher) (since : ℤ) → Step w (calling since) w (entered since (wait since w))
  wakes :
      (w : Watcher) (since : ℤ) (ch : ℕ)
      → is_closed ch w ≡ true
      → Step w (blocked since ch) w (returned w.rev true)
  stops :
      (w : Watcher) (since : ℤ) (ch : ℕ)
      → w.closed ≡ true
      → Step w (blocked since ch) w (returned w.rev false)
  expires : (w : Watcher) (since : ℤ) (ch : ℕ) → Step w (blocked since ch) w (returned w.rev false)

-- What is reached from a new watcher and a caller.
pub data Reach : Watcher → Waiter → Type 0 where
  starts : (since : ℤ) → Reach new_watcher (calling since)
  next : {w w' : Watcher} {a a' : Waiter} → Reach w a → Step w a w' a' → Reach w' a'
