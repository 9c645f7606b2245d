-- ===== src/Sync/Poll.antt =====
-- The source that reads the database itself: what its poll returns, and that it skips no change.
use lite_settings.Base.{ℕ, ◌≡◌, ◌≢◌, ap, ◌⊎◌, inl, inr, false, List, [], ◌∷◌, arith, map, ok}
use lite_settings.Base.Int.{ℤ, pos, int_eq, int_eq_iff}
use lite_settings.Base.Text.{Text}
use lite_settings.Store.Tables.{Tables, Env}
use lite_settings.Store.Read.{revision, list_prefixes}
use lite_settings.Store.Write.Invariant.{IsConsistent}
use lite_settings.Client.View.{Snapshot}
use lite_settings.Source.Db.{wire, fetch, Tick, poll, updated}
use lite_settings.Sync.{Writes, Writes-IsConsistent}
use lite_settings.Sync.Fetch.{Row}
use lite_settings.Sync.Label.{Shows, label-current, revision_ok}

fetch-parts :
    (e : Env) (t : Tables) (rev : ℤ) (ps : List Text) (s : Snapshot)
    → fetch e t rev ps ≡ ok s
    → (cs : List Row) × (list_prefixes e ps t ≡ ok cs)
      × (s ≡ record { revision = rev; configs = map wire cs })
unfolding fetch
fetch-parts e t rev ps s h = ground arith

-- The rounds of a poll see the tables in the order of the writes, up to `t`.
abbrev pub Seen : Tables → List Tick → Type 0
Seen t [] = Unit
Seen t (k ∷ ks) = IsConsistent k.seen × Writes k.seen k.read × Writes k.read t × Seen t ks

poll-step :
    (since : ℤ) (ps : List Text) (k : Tick) (ks : List Tick) (s : Snapshot)
    → poll since ps (k ∷ ks) ≡ updated s
    → (poll since ps ks ≡ updated s)
      ⊎ ((r : ℕ) × (revision k.env k.seen ≡ ok r)
          × (int_eq (pos r) since ≡ false)
          × (fetch k.env' k.read (pos r) ps ≡ ok s))
unfolding poll
poll-step since ps k ks s h = ground arith

-- No change is skipped in direct-database mode. If the poll returns a snapshot, its label differs
-- from the baseline; and if the database's revision later is the label, the view of the snapshot
-- shows every requested key as it then is, and no other key.
pub poll-no_skip :
    (since : ℤ) (ps : List Text) (ks : List Tick) (s : Snapshot) (e : Env) (t : Tables) (r : ℕ)
    → Seen t ks
    → poll since ps ks ≡ updated s
    → revision e t ≡ ok r
    → (s.revision ≢ since) × (s.revision ≡ pos r → Shows ps s t)
poll-no_skip since ps [] s e t r w h hr = absurd (unfold poll in cc)
poll-no_skip since ps (k ∷ ks) s e t r (v, w₁, w₂, rest) h hr = elim (poll-step since ps k ks s h) [
  | inl q ↦ poll-no_skip since ps ks s e t r rest q hr
  | inr (r₁, h₁, differs, hf) ↦
      let (cs, hc, q) = fetch-parts k.env' k.read (pos r₁) ps s hf in
      let n = revision_ok k.env k.seen r₁ h₁ v in
      let n₃ = revision_ok e t r hr (Writes-IsConsistent w₂ (Writes-IsConsistent w₁ v)) in
      (
        ground (arith, int_eq_iff (pos r₁) since),
        λ l.
            label-current k.seen k.read t k.env' ps cs s r v w₁ w₂ hc
              (ap (λ (u : Snapshot). u.configs) q) (ground arith) n₃,
      )
]
