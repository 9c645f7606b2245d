-- ===== src/Sync.antt =====
-- The writers and the readers together: the tables change by writes while a reader sends its
-- queries, and the revision tells how far they have come.
pub mod Fetch
pub mod Label
pub mod Poll
pub mod Handlers
mod Tests
use lite_settings.Base.{
  ℕ, zero, suc, ◌+◌, ◌≤◌, ◌≡◌, refl, sym, ◌∙◌, ap, subst, List, [], ◌∷◌, ◌++◌, Option, none, some,
  arith, length, length-append, Result, ok, err,
}
use lite_settings.Base.Int.{ℤ}
use lite_settings.Base.Text.{Text}
use lite_settings.Store.Validate.{Change, Parsers}
use lite_settings.Store.Tables.{HistoryEntry, Tables, Env, Op, find_config}
use lite_settings.Store.Write.{
  Resolver, WriteResult, write, write_tx, set_config, remove_config, rollback_config,
}
use lite_settings.Store.Write.Wrote.{write_tx_ok, history_row}
use lite_settings.Store.Write.Invariant.{
  IsConsistent, operations-IsConsistent, current_row, write-keeps,
}

-- The tables that a series of writes leads to; a write may fail or lose its commit.
pub data Writes (t : Tables) : Tables → Type 0 where
  done : Writes t t
  sets :
      {u : Tables}
      → Writes t u
      → (e : Env) (p : Parsers) (key value format : Text) (c : Change)
      → Writes t (set_config e p key value format c u).0
  removes :
      {u : Tables}
      → Writes t u
      → (e : Env) (p : Parsers) (key : Text) (c : Change) → Writes t (remove_config e p key c u).0
  rolls_back :
      {u : Tables}
      → Writes t u
      → (e : Env) (p : Parsers) (key : Text) (v : ℤ) (c : Change)
      → Writes t (rollback_config e p key v c u).0

pub Writes-IsConsistent : {t u : Tables} → Writes t u → IsConsistent t → IsConsistent u
Writes-IsConsistent done h = h
Writes-IsConsistent (sets {u = u} w e p key value format c) h =
    (operations-IsConsistent e p key value format (ℤ.pos 0) c u (Writes-IsConsistent w h)).0
Writes-IsConsistent (removes {u = u} w e p key c) h =
    (operations-IsConsistent e p key [] [] (ℤ.pos 0) c u (Writes-IsConsistent w h)).1
Writes-IsConsistent (rolls_back {u = u} w e p key v c) h =
    (operations-IsConsistent e p key [] [] v c u (Writes-IsConsistent w h)).2

-- The history only grows.
pub Grows : Tables → Tables → Type 0
Grows t u = (new : List HistoryEntry) × (u.history ≡ new ++ t.history)

write-Grows :
    (e : Env) (p : Parsers) (key : Text) (op : Op) (c : Change) (resolve : Resolver) (t u : Tables)
    → Grows t u
    → Grows t (write e p key op c resolve u).0
unfolding Grows
write-Grows e p key op c resolve t u (new, q) =
    write-keeps (Grows t) u (new, q) e p key op c resolve
      (λ u' w h.
        let d = write_tx_ok e p key op c resolve u u' w h in
        (
          history_row e key op c d.resolved w.version ∷ new,
          d.history ∙ ap (λ l. history_row e key op c d.resolved w.version ∷ l) q,
        ))

pub Writes-Grows : {t u : Tables} → Writes t u → Grows t u
unfolding Grows set_config remove_config rollback_config
Writes-Grows done = ([], refl)
Writes-Grows {t} (sets {u = u} w e p key value format c) =
    write-Grows e p key _ c _ t u (Writes-Grows w)
Writes-Grows {t} (removes {u = u} w e p key c) = write-Grows e p key _ c _ t u (Writes-Grows w)
Writes-Grows {t} (rolls_back {u = u} w e p key v c) = write-Grows e p key _ c _ t u (Writes-Grows w)

pub Writes-length : {t u : Tables} → Writes t u → length t.history ≤ length u.history
unfolding Grows
Writes-length {t} {u} w =
    let (new, q) = Writes-Grows w in omega (arith, ap length q, length-append {0} new t.history)

-- As many rows are the same rows.
pub Writes-same :
    {t u : Tables} → Writes t u → length t.history ≡ length u.history → u.history ≡ t.history
unfolding Grows
Writes-same {t} {u} w h = go (Writes-Grows w).0 (Writes-Grows w).1
  where
    go : (new : List HistoryEntry) → u.history ≡ new ++ t.history → u.history ≡ t.history
    go [] q = q
    go (x ∷ new) q = absurd (omega (arith, h, ap length q, length-append {0} new t.history))
