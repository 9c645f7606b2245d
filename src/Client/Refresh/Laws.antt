-- ===== src/Client/Refresh/Laws.antt =====
-- Which callbacks an applied snapshot makes, and what the fallback file holds.
use lite_settings.Base.{
  ◌≡◌, ◌≢◌, Option, none, some, refl, ◌∙◌, ap, ◌↔◌, ◌⊎◌, inl, inr, Bool, true, false, List, [], ◌∷◌,
  ◌++◌, arith, if◌then◌else◌, Bool-cases,
}
use lite_settings.Base.Dict.{contains, Distinct, lookup, keys}
use lite_settings.Base.Text.{Text, text_eq_iff, has_prefix}
use lite_settings.Client.View.{Config, Snapshot, View, new_view, diff}
use lite_settings.Client.View.Diff.{changed, contains-diff, new_view-Distinct}
use lite_settings.Client.Prefixes.{filter_prefix, notify_prefixes}
use lite_settings.Client.Prefixes.Laws.{contains-filter_prefix}
use lite_settings.Client.Refresh.{
  Watcher, Client, Event, watch_called, change_called, is_nil, notify_watchers, notify_changes,
  notify, persist, apply,
}

-- An item stands in a list.
abbrev pub Listed : {A : Type 0} → A → List A → Type 0
Listed x [] = ⊥
Listed x (y ∷ ys) = (y ≡ x) ⊎ Listed x ys

-- What a key's entry holds: its value and its format; none without an entry.
abbrev pub held : Option Config → Option (Text × Text)
held none = none
held (some c) = some (c.value, c.format)

-- Some key under the prefix was added, removed, or has another value or format.
abbrev pub ChangedUnder : Text → View → View → Type 0
ChangedUnder p old new =
    (k : Text) × (has_prefix k p ≡ true) × (held (lookup k old.by_key) ≢ held (lookup k new.by_key))

changed-held : (o n : Option Config) → changed o n ≡ true → held o ≢ held n
changed-held none none h = cc
changed-held none (some n) h = λ e. cc
changed-held (some o) none h = λ e. cc
changed-held (some o) (some n) h =
    λ e. ground (arith, text_eq_iff o.value n.value, text_eq_iff o.format n.format)

held-changed : (o n : Option Config) → held o ≢ held n → changed o n ≡ true
held-changed none none h = absurd (h refl)
held-changed none (some n) h = refl
held-changed (some o) none h = refl
held-changed (some o) (some n) h = elim (Bool-cases (changed (some o) (some n))) [
  | inl e ↦ e
  | inr e ↦
      absurd (h (ground (arith, e, text_eq_iff o.value n.value, text_eq_iff o.format n.format)))
]

Listed-append :
    {A : Type 0} (x : A) (xs ys : List A) → Listed x (xs ++ ys) → Listed x xs ⊎ Listed x ys
Listed-append x [] ys h = inr h
Listed-append x (y ∷ xs) ys (inl e) = inl (inl e)
Listed-append x (y ∷ xs) ys (inr h) = elim (Listed-append x xs ys h) [
  | inl a ↦ inl (inr a)
  | inr b ↦ inr b
]

Listed-append_left : {A : Type 0} (x : A) (xs ys : List A) → Listed x xs → Listed x (xs ++ ys)
Listed-append_left x [] ys h = absurd h
Listed-append_left x (y ∷ xs) ys (inl e) = inl e
Listed-append_left x (y ∷ xs) ys (inr h) = inr (Listed-append_left x xs ys h)

contains-head : (ks : List Text) → is_nil ks ≡ false → (k : Text) × (contains k ks ≡ true)
unfolding contains
contains-head [] h = cc
contains-head (k ∷ ks) h = (k, ground (arith, text_eq_iff k k))

not_nil-contains : (k : Text) (ks : List Text) → contains k ks ≡ true → is_nil ks ≡ false
unfolding contains
not_nil-contains k [] h = cc
not_nil-contains k (j ∷ ks) h = refl

-- The changed keys under a prefix are not empty exactly when some key under it changed.
pub touched_iff :
    (p : Text) (old new : View)
    → Distinct (keys new.by_key)
    → (is_nil (filter_prefix (diff old new) p) ≡ false) ↔ ChangedUnder p old new
touched_iff p old new d = (to, from)
  where
    to : is_nil (filter_prefix (diff old new) p) ≡ false → ChangedUnder p old new
    to h =
        let (k, m) = contains-head (filter_prefix (diff old new) p) h in
        (
          k,
          ground (arith, contains-filter_prefix (diff old new) p k),
          changed-held _ _ (
              ground (arith, contains-filter_prefix (diff old new) p k, contains-diff k old new d)),
        )

    from : ChangedUnder p old new → is_nil (filter_prefix (diff old new) p) ≡ false
    from (k, a, b) = not_nil-contains k _ (
        ground (
          arith,
          contains-filter_prefix (diff old new) p k,
          contains-diff k old new d,
          held-changed (lookup k old.by_key) (lookup k new.by_key) b,
        ))

Listed-notify_watchers :
    (w : Watcher) (ws : List Watcher) (s v : View) (ch : List Text)
    → Listed (watch_called w v) (notify_watchers ws s ch)
    → Listed w ws × (v ≡ s) × (is_nil (filter_prefix ch w.prefix) ≡ false)
unfolding notify_watchers
Listed-notify_watchers w [] s v ch h = absurd h
Listed-notify_watchers w (x ∷ ws) s v ch h =
    elim (Bool-cases (is_nil (filter_prefix ch x.prefix))) [
      | inl e ↦ let (a, b, c) = Listed-notify_watchers w ws s v ch (rw e at h) in (inr a, b, c)
      | inr e ↦ split (rw e at h) e (Listed-notify_watchers w ws s v ch)
    ]
  where
    split :
        Listed (watch_called w v) (watch_called x s ∷ notify_watchers ws s ch)
        → is_nil (filter_prefix ch x.prefix) ≡ false
        → (Listed (watch_called w v) (notify_watchers ws s ch)
            → Listed w ws × (v ≡ s) × (is_nil (filter_prefix ch w.prefix) ≡ false))
        → Listed w (x ∷ ws) × (v ≡ s) × (is_nil (filter_prefix ch w.prefix) ≡ false)
    split (inl q) e ih = (inl (ground arith), ground arith, ground arith)
    split (inr q) e ih = let (a, b, c) = ih q in (inr a, b, c)

notify_watchers-Listed :
    (w : Watcher) (ws : List Watcher) (s : View) (ch : List Text)
    → Listed w ws
    → is_nil (filter_prefix ch w.prefix) ≡ false
    → Listed (watch_called w s) (notify_watchers ws s ch)
unfolding notify_watchers
notify_watchers-Listed w [] s ch h n = absurd h
notify_watchers-Listed w (x ∷ ws) s ch (inl e) n =
    let first : is_nil (filter_prefix ch x.prefix) ≡ false = ground arith in
    rw first (inl (ap (λ y. watch_called y s) e))
notify_watchers-Listed w (x ∷ ws) s ch (inr h) n =
    elim (Bool-cases (is_nil (filter_prefix ch x.prefix))) [
      | inl e ↦ rw e (notify_watchers-Listed w ws s ch h n)
      | inr e ↦ rw e (inr (notify_watchers-Listed w ws s ch h n))
    ]

not-Listed-notify_changes :
    (w : Watcher) (v : View) (ps ch : List Text)
    → Listed (watch_called w v) (notify_changes ps ch)
    → ⊥
unfolding notify_changes
not-Listed-notify_changes w v [] ch h = h
not-Listed-notify_changes w v (p ∷ ps) ch h = elim (Bool-cases (is_nil (filter_prefix ch p))) [
  | inl e ↦ not-Listed-notify_changes w v ps ch (rw e at h)
  | inr e ↦ split (rw e at h) (not-Listed-notify_changes w v ps ch)
]
  where
    split :
        Listed (watch_called w v) (change_called p (filter_prefix ch p) ∷ notify_changes ps ch)
        → (Listed (watch_called w v) (notify_changes ps ch) → ⊥)
        → ⊥
    split (inl q) ih = cc
    split (inr q) ih = ih q

change_events : Bool → List Text → List Text → List Event
change_events true ps ch = notify_changes ps ch
change_events false ps ch = []

not-Listed-change_events :
    (b : Bool) (w : Watcher) (v : View) (ps ch : List Text)
    → Listed (watch_called w v) (change_events b ps ch)
    → ⊥
unfolding change_events
not-Listed-change_events true w v ps ch h = not-Listed-notify_changes w v ps ch h
not-Listed-change_events false w v ps ch h = h

notify-split :
    (c : Client) (s : View) (ch : List Text)
    → notify c s ch
      ≡ notify_watchers c.watchers s ch
        ++ change_events c.options.has_on_change (notify_prefixes c.options.prefixes) ch
unfolding notify change_events
notify-split c s ch = ground arith

-- Writing the fallback file changes neither the watchers nor the options.
notify-persist :
    (b writable : Bool) (next s : View) (c : Client) (ch : List Text)
    → notify (if b then persist writable next c else c) s ch ≡ notify c s ch
unfolding persist notify
notify-persist false writable next s c ch = refl
notify-persist true false next s c ch = refl
notify-persist true true next s c ch = refl

-- What `apply` reports while the client runs: nothing if no entry changed.
apply-events :
    (writable : Bool) (s : Snapshot) (c : Client)
    → (apply writable s true c).1 ≡ (
        if is_nil (diff c.snap (new_view s))
        then []
        else notify_watchers c.watchers (new_view s) (diff c.snap (new_view s))
          ++ change_events c.options.has_on_change
              (notify_prefixes c.options.prefixes)
              (diff c.snap (new_view s)))
unfolding apply
apply-events writable s c =
    ap (λ e. if is_nil (diff c.snap (new_view s)) then [] else e)
      (notify-persist _ writable (new_view s) (new_view s) (record c { snap = new_view s })
          (diff c.snap (new_view s))
        ∙ notify-split (record c { snap = new_view s }) (new_view s) (diff c.snap (new_view s)))

filter_prefix-nil :
    (ks : List Text) (p : Text) → is_nil ks ≡ true → is_nil (filter_prefix ks p) ≡ true
unfolding filter_prefix
filter_prefix-nil [] [] h = refl
filter_prefix-nil [] (c ∷ p) h = refl
filter_prefix-nil (k ∷ ks) p h = cc

-- While the client runs, an applied snapshot becomes the client's view, and a watcher's callback is
-- called with that view exactly if the watcher is registered and some key under its prefix was
-- added, removed, or has another value or format.
pub apply-watch_called :
    (writable : Bool) (s : Snapshot) (c : Client) (w : Watcher)
    → ((apply writable s true c).0.snap ≡ new_view s)
      × (Listed (watch_called w (new_view s)) (apply writable s true c).1
          ↔ (Listed w c.watchers × ChangedUnder w.prefix c.snap (new_view s)))
apply-watch_called writable s c w = (installed, (to, from))
  where
    installed : (apply writable s true c).0.snap ≡ new_view s
    installed = unfold apply persist in ground arith

    to :
        Listed (watch_called w (new_view s)) (apply writable s true c).1
        → Listed w c.watchers × ChangedUnder w.prefix c.snap (new_view s)
    to h = elim (Bool-cases (is_nil (diff c.snap (new_view s)))) [
      | inl e ↦ absurd (rw (apply-events writable s c, e) at h)
      | inr e ↦
          let listed : Listed (watch_called w (new_view s)) (
              notify_watchers c.watchers (new_view s) (diff c.snap (new_view s))
              ++ change_events c.options.has_on_change (notify_prefixes c.options.prefixes)
                  (diff c.snap (new_view s))) =
            rw (apply-events writable s c, e) at h in
          elim (Listed-append _ _ _ listed) [
            | inl q ↦
                let (a, b, n) =
                  Listed-notify_watchers w c.watchers (new_view s) (new_view s)
                    (diff c.snap (new_view s)) q in
                (a, (touched_iff w.prefix c.snap (new_view s) (new_view-Distinct s)).0 n)
            | inr q ↦ absurd (not-Listed-change_events c.options.has_on_change w (new_view s) _ _ q)
          ]
    ]

    from :
        (Listed w c.watchers × ChangedUnder w.prefix c.snap (new_view s))
        → Listed (watch_called w (new_view s)) (apply writable s true c).1
    from (l, u) =
        let touched = (touched_iff w.prefix c.snap (new_view s) (new_view-Distinct s)).1 u in
        let full : is_nil (diff c.snap (new_view s)) ≡ false =
          ground (arith, filter_prefix-nil (diff c.snap (new_view s)) w.prefix) in
        rw (apply-events writable s c, full)
          (Listed-append_left _ _ _
            (notify_watchers-Listed w c.watchers (new_view s) (diff c.snap (new_view s)) l touched))
