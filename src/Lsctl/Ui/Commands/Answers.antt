-- ===== src/Lsctl/Ui/Commands/Answers.antt =====
-- The answers that the commands bring are genuine.
use lite_settings.Base.{ℕ, ◌≡◌, List, inl, inr, arith, Result, ok, err, Result-cases}
use lite_settings.Base.Int.{pos}
use lite_settings.Base.Text.{Text}
use lite_settings.Store.Validate.{Parsers, validate_key, select_config}
use lite_settings.Store.Tables.{Config, Tables, Env, run, get_config}
use lite_settings.Store.Read
use lite_settings.Server.Entries.{ConfigDetail, Version}
use lite_settings.Lsctl.Backend.{BackendError}
use lite_settings.Lsctl.Backend.Db
use lite_settings.Lsctl.Backend.Db.{db_backend}
use lite_settings.Lsctl.Backend.Http.{Wire, http_backend}
use lite_settings.Lsctl.Backend.Agree.{IsSegment, Routes, Same}
use lite_settings.Lsctl.Backend.Agree.Reads.{reads-Same}
use lite_settings.Lsctl.Ui.{detail_msg}
use lite_settings.Lsctl.Ui.Safety.{Genuine}
use lite_settings.Base.{>>=-eq-ok, ◌∙◌, ap}
use lite_settings.Store.Tables.Rows.{find_config-key}
use lite_settings.Lsctl.Ui.Commands.{detail_of, fetch_detail}

-- A detail that is read is that of the key.
abbrev KeyOf : Text → Result BackendError ConfigDetail → Type 0
KeyOf key (ok d) = d.key ≡ key
KeyOf key (err e) = Unit

fetched-Genuine :
    (show : BackendError → Text) (seq : ℕ) (key : Text) (r : Result BackendError ConfigDetail)
    (h : Result BackendError (List Version))
    → KeyOf key r
    → Genuine (detail_msg seq key (detail_of show r h))
fetched-Genuine show seq key (ok d) h same = same
fetched-Genuine show seq key (err e) h same = tt

get-key : (e : Env) (key : Text) (t : Tables) (c : Config) → Read.get e key t ≡ ok c → c.key ≡ key
unfolding Read.get get_config
get-key e key t c h =
    let (valid, checked, rest) = >>=-eq-ok (validate_key key) _ h in
    let (o, read, last) = >>=-eq-ok (get_config e key t) _ rest in
    let (ran, accepted, same) = >>=-eq-ok (run e select_config) _ read in
    ground (arith, last, same, find_config-key key t.configs c)

get-KeyOf : (e : Env) (key : Text) (t : Tables) → KeyOf key (Db.get e key t)
unfolding Db.get
get-KeyOf e key t = elim (Result-cases (Read.get e key t)) [
  | inl (y, q) ↦ rw q tt
  | inr (c, q) ↦ rw q (get-key e key t c q)
]

KeyOf-Same :
    (key : Text) (a b : Result BackendError ConfigDetail) → Same a b → KeyOf key b → KeyOf key a
KeyOf-Same key (ok d) (ok f) same k = ap (λ (c : ConfigDetail). c.key) same ∙ k
KeyOf-Same key (ok d) (err f) same k = absurd same
KeyOf-Same key (err e) b same k = tt

-- The answer to a request for a key's detail is genuine, in direct-database mode and over HTTP,
-- whatever the tables hold when the two queries run. The key is not empty, nor a dot or two, and
-- other keys are routed to their handlers.
pub fetch_detail-Genuine :
    (show : BackendError → Text) (x : Wire) (e : Env) (p : Parsers) (seq : ℕ) (key : Text)
    (t₁ t₂ : Tables)
    → Routes x
    → IsSegment key
    → Genuine (fetch_detail show (db_backend e p) seq key t₁ t₂)
      × Genuine (fetch_detail show (http_backend x e p) seq key t₁ t₂)
unfolding fetch_detail
fetch_detail-Genuine show x e p seq key t₁ t₂ routes segment =
    let here = get-KeyOf e key t₁ in
    let same = (reads-Same x e key (pos 1) t₁ routes segment (λ h. cc)).0 in
    (
      fetched-Genuine show seq key _ _ here,
      fetched-Genuine show seq key _ _ (KeyOf-Same key _ _ same here),
    )
