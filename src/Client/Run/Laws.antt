-- ===== src/Client/Run/Laws.antt =====
-- The back-off stays in its bounds and doubles with each failure in a row, which the client counts.
use lite_settings.Base.{
  ℕ, zero, suc, ◌+◌, ◌-◌, ◌*◌, ◌/◌, ◌≤◌, ◌<◌, min, ◌≡◌, refl, ◌∙◌, ap, sym, subst, false, List, [],
  ◌∷◌, some, arith, length, All,
}
use lite_settings.Client.Refresh.{Client, FetchError, failed, fetch_once, mark_failure}
use lite_settings.Client.Run.{
  min_backoff, max_backoff, jitter, Round, Loop, is_fine, settle, round, run, started,
}

-- `rand.N(n)` is below `n`.
abbrev pub Draws : (ℕ → ℕ) → Type 0
Draws random = (n : ℕ) → 0 < n → random n < n

-- A wait differs from the back-off by at most a quarter of it.
abbrev pub Near : ℕ → ℕ → Type 0
Near d wait = (d - d / 4 ≤ wait) × (wait ≤ d + d / 4)

jitter_bounds : (random : ℕ → ℕ) (d : ℕ) → Draws random → Near d (jitter random d)
unfolding jitter
jitter_bounds random d h = ground (arith, h (d / 2))

pub record InBounds (l : Loop) : Type 0 where
  pub low : min_backoff ≤ l.backoff
  pub high : l.backoff ≤ max_backoff

round-InBounds : (l : Loop) (r : Round) → InBounds l → InBounds (round l r)
unfolding round
round-InBounds l r h = ground arith

-- From any loop whose back-off lies between 200 ms and 30 s, every round leaves it there.
pub run-InBounds : (l : Loop) (rs : List Round) → InBounds l → InBounds (run l rs)
unfolding run
run-InBounds l [] h = h
run-InBounds l (r ∷ rs) h = run-InBounds (round l r) rs (round-InBounds l r h)

-- A round that polls, fails for another reason than its own deadline, and waits.
pub record Fails (r : Round) : Type 0 where
  pub error : FetchError
  pub polls : r.cancelled_before ≡ false
  pub fails : r.polled ≡ failed error
  pub goes_on : r.cancelled_after ≡ false
  pub own : is_fine r.own_deadline (some error) ≡ false
  pub waits : r.cancelled_waiting ≡ false
  pub draws : Draws r.random

-- `b` doubled `n` times.
abbrev pub doubled : ℕ → ℕ → ℕ
doubled zero b = b
doubled (suc n) b = doubled n (b * 2)

le-doubled : (n b : ℕ) → b ≤ doubled n b
le-doubled zero b = omega arith
le-doubled (suc n) b = omega (arith, le-doubled n (b * 2))

doubled_mono : (n a b : ℕ) → a ≤ b → doubled n a ≤ doubled n b
doubled_mono zero a b h = h
doubled_mono (suc n) a b h = doubled_mono n (a * 2) (b * 2) (omega arith)

min-doubled :
    (n b : ℕ)
    → min (doubled n (min (b * 2) max_backoff)) max_backoff ≡ min (doubled n (b * 2)) max_backoff
min-doubled n b = ground (arith, le-doubled n max_backoff, doubled_mono n max_backoff (b * 2))

round-Fails :
    (l : Loop) (r : Round)
    → l.stopped ≡ false
    → Fails r
    → ((round l r).stopped ≡ false)
      × ((round l r).backoff ≡ min (l.backoff * 2) max_backoff)
      × ((round l r).client.consecutive_fail ≡ l.client.consecutive_fail + 1)
      × ((round l r).client.snap ≡ l.client.snap)
unfolding round settle fetch_once mark_failure
round-Fails l r h f = ground (arith, f.polls, f.fails, f.goes_on, f.own, f.waits)

run-failures-from :
    (l : Loop) (rs : List Round)
    → l.stopped ≡ false
    → l.backoff ≤ max_backoff
    → All Fails rs
    → ((run l rs).backoff ≡ min (doubled (length rs) l.backoff) max_backoff)
      × ((run l rs).client.consecutive_fail ≡ l.client.consecutive_fail + length rs)
      × ((run l rs).client.snap ≡ l.client.snap)
      × ((run l rs).stopped ≡ false)
unfolding run
run-failures-from l [] h b f = (omega arith, omega arith, refl, h)
run-failures-from l (r ∷ rs) h b f =
    let (s, g, n, v) = round-Fails l r h f.0 in
    let (g', n', v', s') = run-failures-from (round l r) rs s (omega (arith, g)) f.1 in
    (
      g' ∙ ap (λ x. min (doubled (length rs) x) max_backoff) g ∙ min-doubled (length rs) l.backoff,
      omega (arith, n, n'),
      v' ∙ v,
      s',
    )

-- The nominal wait after `n` failures: 200 ms doubled `n` times, at most 30 s.
abbrev pub nominal : ℕ → ℕ
nominal n = min (doubled n 200_000_000) 30_000_000_000

-- Each wait of the list, the last first, is within a quarter of its nominal one.
abbrev pub Waited : List ℕ → Type 0
Waited [] = Unit
Waited (w ∷ ws) = Near (nominal (length ws)) w × Waited ws

doubled-twice : (n b : ℕ) → doubled n (b * 2) ≡ doubled n b * 2
doubled-twice zero b = refl
doubled-twice (suc n) b = doubled-twice n (b * 2)

nominal-suc : (n : ℕ) → min (nominal n * 2) max_backoff ≡ nominal (suc n)
nominal-suc n = ground (arith, doubled-twice n 200_000_000)

-- A loop in which each failure has been waited for.
record Waiting (l : Loop) : Type 0 where
  runs : l.stopped ≡ false
  next : l.backoff ≡ nominal (length l.waits)
  waited : Waited l.waits

round-waits :
    (l : Loop) (r : Round)
    → l.stopped ≡ false
    → Fails r
    → (round l r).waits ≡ jitter r.random l.backoff ∷ l.waits
unfolding round settle fetch_once mark_failure
round-waits l r h f = ground (arith, f.polls, f.fails, f.goes_on, f.own, f.waits)

round-Waiting : (l : Loop) (r : Round) → Waiting l → Fails r → Waiting (round l r)
round-Waiting l r h f =
    let (goes_on, b, n, v) = round-Fails l r h.runs f in
    let one_more = round-waits l r h.runs f in
    let near : Near (nominal (length l.waits)) (jitter r.random l.backoff) =
      subst (λ d. Near d (jitter r.random l.backoff)) h.next
        (jitter_bounds r.random l.backoff f.draws) in
    record {
      runs = goes_on;
      next =
          b
          ∙ ap (λ d. min (d * 2) max_backoff) h.next
          ∙ nominal-suc (length l.waits)
          ∙ ap (λ ws. nominal (length ws)) (sym one_more);
      waited = subst Waited (sym one_more) (near, h.waited);
    }

run-Waiting :
    (l : Loop) (rs : List Round)
    → Waiting l
    → All Fails rs
    → Waited (run l rs).waits × (length (run l rs).waits ≡ length l.waits + length rs)
unfolding run
run-Waiting l [] h f = (h.waited, omega arith)
run-Waiting l (r ∷ rs) h f =
    let (w, n) = run-Waiting (round l r) rs (round-Waiting l r h f.0) f.1 in
    (w, omega (arith, n, ap length (round-waits l r h.runs f.0)))

-- In n failed rounds in a row the client waits n times: the first wait is within a quarter of 200
-- ms, and each further one within a quarter of twice the one before without its jitter, which is
-- capped at 30 s. It has counted n failures more, still serves the snapshot that it had, and runs.
pub run-failures :
    (c : Client) (rs : List Round)
    → All Fails rs
    → Waited (run (started c) rs).waits
      × (length (run (started c) rs).waits ≡ length rs)
      × ((run (started c) rs).backoff ≡ nominal (length rs))
      × ((run (started c) rs).client.consecutive_fail ≡ c.consecutive_fail + length rs)
      × ((run (started c) rs).client.snap ≡ c.snap)
      × ((run (started c) rs).stopped ≡ false)
unfolding started
run-failures c rs f =
    let (w, n) = run-Waiting (started c) rs (record { runs = refl; next = refl; waited = tt }) f in
    let (b, fails, snap, runs) = run-failures-from (started c) rs refl (omega arith) f in
    (w, omega (arith, n), b, fails, snap, runs)
