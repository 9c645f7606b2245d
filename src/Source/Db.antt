-- ===== src/Source/Db.antt =====
-- client/dbsource/dbsource.go: `Poll` and `fetch`.
use lite_settings.Base.{Bool, not, List, [], ◌∷◌, if◌then◌else◌, map, Result, ok, err, ◌>>=◌}
use lite_settings.Base.Int.{ℤ, pos, int_eq}
use lite_settings.Base.Text.{Text}
use lite_settings.Store.Validate.{StoreError}
use lite_settings.Store.Tables
use lite_settings.Store.Tables.{Tables, Env}
use lite_settings.Store.Read.{revision, list_prefixes}
use lite_settings.Client.View.{Config, Snapshot}

abbrev pub wire : Tables.Config → Config
wire c = record { key = c.key; value = c.value; format = c.format }

unfoldable pub fetch : Env → Tables → ℤ → List Text → Result StoreError Snapshot
fetch e t rev prefixes = do
  cs ← list_prefixes e prefixes t
  ok (record { revision = rev; configs = map wire cs })

-- What one round of the loop meets: the tables at the revision query and at the data query, and
-- whether the context ends before the next round.
pub record Tick : Type 0 where
  pub env : Env
  pub seen : Tables
  pub env' : Env
  pub read : Tables
  pub ended : Bool

-- `waiting` says that the rounds given are used up; (nil, nil) is `unchanged`.
pub data Polled : Type 0 where
  waiting unchanged : Polled
  failed : StoreError → Polled
  updated : Snapshot → Polled

abbrev fetched : Result StoreError Snapshot → Polled
fetched (ok s) = updated s
fetched (err e) = failed e

unfoldable pub poll : ℤ → List Text → List Tick → Polled
poll since prefixes [] = waiting
poll since prefixes (k ∷ ks) =
    let again = poll since prefixes ks in
    elim (revision k.env k.seen) [
      | err e ↦ failed e
      | ok rev ↦
          if not (int_eq (pos rev) since)
          then fetched (fetch k.env' k.read (pos rev) prefixes)
          else if k.ended
          then unchanged
          else again
    ]
