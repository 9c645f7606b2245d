-- ===== src/Client/Start/Laws.antt =====
-- What a client that has started serves.
use lite_settings.Base.{
  ℕ, ◌≡◌, ◌⊎◌, refl, sym, subst, ◌∙◌, inl, inr, Bool-cases, Bool, true, false, [], Option, none,
  some, arith, if◌then◌else◌, Result, ok, err,
}
use lite_settings.Base.Int.{is_negative}
use lite_settings.Client.View.{Snapshot, View, new_view, empty_view, to_wire}
use lite_settings.Client.Refresh.{
  Options, FetchError, Client, Polled, failed, unchanged, updated, fetch_once, has_snapshot,
  mark_success, apply, persist,
}
use lite_settings.Client.Start.{fresh, fallback_view, cause, recover, load_fallback, new_client}

-- The first fetch brought no snapshot that has a revision, and left the view: an empty one, or that
-- of the snapshot without a revision, which it may also have written to the fallback file.
abbrev pub Fruitless : Option Snapshot → Polled → View → Option Snapshot → Type 0
Fruitless file (failed x) v held = (v ≡ empty_view) × (held ≡ file)
Fruitless file unchanged v held = (v ≡ empty_view) × (held ≡ file)
Fruitless file (updated s) v held =
    (is_negative s.revision ≡ true)
    × (v ≡ new_view s)
    × ((held ≡ file) ⊎ (held ≡ some (to_wire (new_view s))))

-- What a started client serves: a snapshot that the source sent, which has a revision and which it
-- has noted as a success; or, where the first fetch brought none, the fallback file; or what that
-- fetch left, where there is no such file and the client may start so.
pub data Serves (o : Options) (file : Option Snapshot) (polled : Polled) (now : ℕ) (c : Client)
    : Type 0 where
  fetched :
      (s : Snapshot)
      → polled ≡ updated s
      → c.snap ≡ new_view s
      → is_negative s.revision ≡ false
      → c.last_success ≡ some now
      → Serves o file polled now c
  fell_back :
      (left : View) (s : Snapshot)
      → Fruitless file polled left c.file
      → o.has_fallback ≡ true
      → c.file ≡ some s
      → c.snap ≡ new_view s
      → c.last_success ≡ none
      → Serves o file polled now c
  degraded :
      Fruitless file polled c.snap c.file
      → (o.has_fallback ≡ true → c.file ≡ none)
      → o.degrade_on_start ≡ true
      → c.last_success ≡ none
      → Serves o file polled now c

-- What the first fetch keeps of a client.
record Started (o : Options) (c : Client) : Type 0 where
  fallback : c.options.has_fallback ≡ o.has_fallback
  degrade : c.options.degrade_on_start ≡ o.degrade_on_start
  no_success : c.last_success ≡ none

recover-Serves :
    (o : Options) (file : Option Snapshot) (polled : Polled) (now : ℕ) (c c' : Client)
    (e : Option FetchError)
    → Started o c
    → Fruitless file polled c.snap c.file
    → recover c e ≡ ok c'
    → Serves o file polled now c'
unfolding recover load_fallback
recover-Serves o file polled now c c' e d left h = go c.options.has_fallback c.file refl refl h
  where
    rest : Option View → Result FetchError Client
    rest v =
        elim (elim v as (λ _. Option Client) [
          | none ↦ none
          | some v ↦ some (record c { snap = v })
        ]) [ some c' ↦ ok c' | none ↦ if c.options.degrade_on_start then ok c else err (cause e) ]

    without :
        (c.options.has_fallback ≡ true → c.file ≡ none)
        → (if c.options.degrade_on_start then ok c else err (cause e)) ≡ ok c'
        → Serves o file polled now c'
    without no_file q = elim (Bool-cases c.options.degrade_on_start) [
      | inl may ↦
          let same : c ≡ c' = ground (arith, q) in
          subst (Serves o file polled now) same
            (degraded left (λ h. no_file (d.fallback ∙ h)) (sym d.degrade ∙ may) d.no_success)
      | inr may ↦ cc
    ]

    go :
        (b : Bool) (held : Option Snapshot)
        → c.options.has_fallback ≡ b
        → c.file ≡ held
        → rest (fallback_view b held) ≡ ok c'
        → Serves o file polled now c'
    go false held eb ef q = without (λ h. cc) q
    go true none eb ef q = without (λ h. ef) q
    go true (some s) eb ef q =
        let kept : c.file ≡ c'.file = ground arith in
        fell_back c.snap s (subst (Fruitless file polled c.snap) kept left)
          (ground (arith, d.fallback)) (ground arith) (ground arith) (ground (arith, d.no_success))

apply-Started :
    (o : Options) (writable : Bool) (s : Snapshot) (c : Client)
    → Started o c
    → Started o (apply writable s false c).0
      × ((apply writable s false c).0.snap ≡ new_view s)
      × ((apply writable s false c).1 ≡ [])
unfolding apply persist
apply-Started o writable s c d = (
  record {
    fallback = ground (arith, d.fallback);
    degrade = ground (arith, d.degrade);
    no_success = ground (arith, d.no_success);
  },
  ground arith,
  ground arith,
)

fresh-Started : (o : Options) (file : Option Snapshot) → Started o (fresh o file)
unfolding fresh
fresh-Started o file = record { fallback = refl; degrade = refl; no_success = refl }

fresh-empty :
    (o : Options) (file : Option Snapshot)
    → ((fresh o file).snap ≡ empty_view) × ((fresh o file).file ≡ file)
unfolding fresh
fresh-empty o file = (refl, refl)

persist-file :
    (b writable : Bool) (v : View) (c : Client)
    → ((if b then persist writable v c else c).file ≡ c.file)
      ⊎ ((if b then persist writable v c else c).file ≡ some (to_wire v))
unfolding persist
persist-file false writable v c = inl refl
persist-file true false v c = inl refl
persist-file true true v c = inr refl

apply-file :
    (o : Options) (file : Option Snapshot) (writable : Bool) (s : Snapshot)
    → ((apply writable s false (fresh o file)).0.file ≡ file)
      ⊎ ((apply writable s false (fresh o file)).0.file ≡ some (to_wire (new_view s)))
unfolding apply fresh
apply-file o file writable s =
    persist-file _ writable (new_view s) (record (fresh o file) { snap = new_view s })

-- No callback is called while a client starts. A started client serves the snapshot that the source
-- sent, which has a revision; or, where the source sent none, the fallback file, as that fetch left
-- it, of a client that has one; or, where it has none and may start without a snapshot, what the first
-- fetch left: the empty view, or that of a snapshot without a revision. Only the first counts as a
-- success.
pub new_client-Serves :
    (o : Options) (file : Option Snapshot) (polled : Polled) (writable : Bool) (now : ℕ)
    (c : Client)
    → ((new_client o file polled writable now).1 ≡ [])
      × ((new_client o file polled writable now).0 ≡ ok c → Serves o file polled now c)
unfolding new_client fetch_once
new_client-Serves o file (failed x) writable now c = (
  refl,
  λ h.
      recover-Serves o file _ now (fresh o file) c (some x) (fresh-Started o file)
        (fresh-empty o file) h,
)
new_client-Serves o file unchanged writable now c = (
  refl,
  λ h.
      recover-Serves o file _ now (fresh o file) c none (fresh-Started o file) (fresh-empty o file)
        (unfold has_snapshot fresh in h),
)
new_client-Serves o file (updated s) writable now c =
    let (d, v, events) = apply-Started o writable s (fresh o file) (fresh-Started o file) in
    (events, λ h. go (has_snapshot (apply writable s false (fresh o file)).0) refl h)
  where
    go :
        (b : Bool)
        → has_snapshot (apply writable s false (fresh o file)).0 ≡ b
        → (if b
            then ok (mark_success now (apply writable s false (fresh o file)).0)
            else recover (apply writable s false (fresh o file)).0 none)
          ≡ ok c
        → Serves o file (updated s) now c
    go true e h =
        let (d, v, events) = apply-Started o writable s (fresh o file) (fresh-Started o file) in
        fetched s refl (unfold mark_success in ground (arith, v))
          (unfold has_snapshot new_view in ground (arith, v)) (unfold mark_success in ground arith)
    go false e h =
        let (d, v, events) = apply-Started o writable s (fresh o file) (fresh-Started o file) in
        recover-Serves o file (updated s) now _ c none d
          (unfold has_snapshot new_view in ground (arith, v), v, apply-file o file writable s) h
