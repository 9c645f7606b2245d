-- ===== src/Sync/Handlers.antt =====
-- The handlers of the server and the writers together: what a client sees of a response.
use lite_settings.Base.{
  ℕ, ◌≡◌, ◌≢◌, refl, ◌∙◌, ap, Bool, true, false, List, Option, none, some, arith, if◌then◌else◌,
  Result, ok, err, ◌>>=◌,
}
use lite_settings.Base.Int.{ℤ, pos, is_negative}
use lite_settings.Base.Text.{Text}
use lite_settings.Store.Validate.{
  StoreError, not_found, not_migrated, invalid_key, invalid_value, invalid_change,
  unsupported_driver, driver,
}
use lite_settings.Store.Tables.{Tables, Env, find_config}
use lite_settings.Store.Read.{revision}
use lite_settings.Store.Write.Invariant.{IsConsistent}
use lite_settings.Server.Watcher.{Watcher}
use lite_settings.Server.Handlers.{
  ApiSnapshot, Query, body, error_body, fail, reply, Since, baseline, snapshot, observed_revision,
  prefixes, handle_list, handle_watch, after_wait,
}
use lite_settings.Server.Handlers.Laws.{prefixes-requested}
use lite_settings.Sync.{Writes}
use lite_settings.Sync.Label.{Shows, read_row, decoded, snapshot-no_skip}

not-fail : (cancelled : Bool) (e : StoreError) (s : ApiSnapshot) → fail cancelled e ≢ body 200 s
unfolding fail
not-fail cancelled not_found s h = cc
not-fail cancelled (invalid_key f) s h = cc
not-fail cancelled (invalid_value f) s h = cc
not-fail cancelled (invalid_change f) s h = cc
not-fail cancelled not_migrated s h = cc
not-fail cancelled (unsupported_driver d) s h = cc
not-fail true (driver m) s h = cc
not-fail false (driver m) s h = cc

reply-ok :
    (cancelled : Bool) (o : Result StoreError ApiSnapshot) (s : ApiSnapshot)
    → reply cancelled o ≡ body 200 s
    → o ≡ ok s
reply-ok cancelled (ok a) s h = ground arith
reply-ok cancelled (err e) s h = absurd (not-fail cancelled e s h)

-- What a snapshot in the answer comes from.
abbrev Made : Query → Query → Option (List Text) → ApiSnapshot → Type 0
Made q₁ q₂ m s = (rev : ℤ) × (out : List Text) × (m ≡ some out) × (snapshot q₁ q₂ rev out ≡ ok s)

handle_list-Made :
    (cancelled : Bool) (w : Watcher) (q₀ q₁ q₂ : Query) (ps : List Text) (s : ApiSnapshot)
    → handle_list cancelled w q₀ q₁ q₂ ps ≡ body 200 s
    → Made q₁ q₂ (prefixes ps) s
unfolding handle_list
handle_list-Made cancelled w q₀ q₁ q₂ ps s h = go (observed_revision w q₀) (prefixes ps) h
  where
    go :
        (o : Result StoreError ℤ) (m : Option (List Text))
        → elim o [
          | err e ↦ fail cancelled e
          | ok rev ↦ elim m [
            | none ↦ error_body 400
            | some out ↦ reply cancelled (snapshot q₁ q₂ rev out)
          ]
        ]
          ≡ body 200 s
        → Made q₁ q₂ m s
    go (err e) m q = absurd (not-fail cancelled e s q)
    go (ok rev) none q = cc
    go (ok rev) (some out) q = (rev, out, refl, reply-ok cancelled (snapshot q₁ q₂ rev out) s q)

after_wait-Made :
    (cancelled : Bool) (w : Watcher) (q₀ q₁ q₂ : Query) (out : List Text) (s : ApiSnapshot)
    (rev : ℤ) (changed : Bool)
    → after_wait cancelled w q₀ q₁ q₂ out rev changed ≡ body 200 s
    → Made q₁ q₂ (some out) s
unfolding after_wait
after_wait-Made cancelled w q₀ q₁ q₂ out s rev false h = cc
after_wait-Made cancelled w q₀ q₁ q₂ out s rev true h =
    go (if is_negative rev then observed_revision w q₀ else ok rev) (reply-ok cancelled _ s h)
  where
    go :
        (o : Result StoreError ℤ)
        → (o >>= λ r. snapshot q₁ q₂ r out) ≡ ok s
        → Made q₁ q₂ (some out) s
    go (err e) q = cc
    go (ok r) q = (r, out, refl, q)

handle_watch-Made :
    (cancelled : Bool) (w : Watcher) (q₀ q₁ q₂ : Query) (ps : List Text) (n : Since)
    (waited : ℤ → ℤ × Bool) (s : ApiSnapshot)
    → handle_watch cancelled w q₀ q₁ q₂ ps n waited ≡ body 200 s
    → Made q₁ q₂ (prefixes ps) s
unfolding handle_watch
handle_watch-Made cancelled w q₀ q₁ q₂ ps n waited s h = go (baseline n) (prefixes ps) h
  where
    go :
        (b : Option ℤ) (m : Option (List Text))
        → elim b [
          | none ↦ error_body 400
          | some n ↦ elim m [
            | none ↦ error_body 400
            | some out ↦ after_wait cancelled w q₀ q₁ q₂ out (waited n).0 (waited n).1
          ]
        ]
          ≡ body 200 s
        → Made q₁ q₂ m s
    go none m q = cc
    go (some n) none q = cc
    go (some n) (some out) q = after_wait-Made cancelled w q₀ q₁ q₂ out s _ _ q

-- No change is skipped over the list handler. It may read the database's revision, then its
-- revision and its data, while writes go on. If it answers with a snapshot, and the database's
-- revision is later the label, the client's view shows every key of the request as it then is, and
-- no other key.
pub handle_list-no_skip :
    (cancelled : Bool) (w : Watcher) (q₀ q₁ q₂ : Query) (ps : List Text) (s : ApiSnapshot) (e : Env)
    (t : Tables) (r : ℕ)
    → IsConsistent q₁.tables
    → Writes q₁.tables q₂.tables
    → Writes q₂.tables t
    → handle_list cancelled w q₀ q₁ q₂ ps ≡ body 200 s
    → revision e t ≡ ok r
    → s.revision ≡ pos r
    → Shows ps (decoded s) t
handle_list-no_skip cancelled w q₀ q₁ q₂ ps s e t r v w₁ w₂ h hr l k =
    let (rev, out, p, q) = handle_list-Made cancelled w q₀ q₁ q₂ ps s h in
    snapshot-no_skip q₁ q₂ rev out s e t r v w₁ w₂ q hr l k
    ∙ ap (λ b. if b then read_row (find_config k t.configs) else none)
        (((prefixes-requested ps).1 out p).1 k)

-- No change is skipped over the watch handler, whatever Wait returned to it: if the database's
-- revision is later the label of the snapshot that it answers with, the client's view shows every
-- key of the request as it then is, and no other key.
pub handle_watch-no_skip :
    (cancelled : Bool) (w : Watcher) (q₀ q₁ q₂ : Query) (ps : List Text) (n : Since)
    (waited : ℤ → ℤ × Bool) (s : ApiSnapshot) (e : Env) (t : Tables) (r : ℕ)
    → IsConsistent q₁.tables
    → Writes q₁.tables q₂.tables
    → Writes q₂.tables t
    → handle_watch cancelled w q₀ q₁ q₂ ps n waited ≡ body 200 s
    → revision e t ≡ ok r
    → s.revision ≡ pos r
    → Shows ps (decoded s) t
handle_watch-no_skip cancelled w q₀ q₁ q₂ ps n waited s e t r v w₁ w₂ h hr l k =
    let (rev, out, p, q) = handle_watch-Made cancelled w q₀ q₁ q₂ ps n waited s h in
    snapshot-no_skip q₁ q₂ rev out s e t r v w₁ w₂ q hr l k
    ∙ ap (λ b. if b then read_row (find_config k t.configs) else none)
        (((prefixes-requested ps).1 out p).1 k)
