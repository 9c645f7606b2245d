-- ===== src/Lsctl/Command/Absence.antt =====
-- Which commands exit with the code of an absence, and what `lsctl get --version` shows.
use lite_settings.Base.{
  ℕ, suc, ◌≡◌, refl, sym, ◌↔◌, ◌⊎◌, subst, true, false, List, [], ◌∷◌, Option, none, some, inl, inr,
  arith, map, Result, ok, err, Option-cases, Bool-cases,
}
use lite_settings.Base.Int.{ℤ, pos, minus_one}
use lite_settings.Base.Text.{Text}
use lite_settings.Store.Validate.{
  StoreError, not_found, Parsers, select_config, select_history, validate_key,
}
use lite_settings.Store.Tables
use lite_settings.Store.Tables.{Config, HistoryEntry, Tables, Env, of_key, find_config, get_config}
use lite_settings.Store.Tables.Rows.{Numbered}
use lite_settings.Store.Read
use lite_settings.Store.Read.Laws.{history-newest}
use lite_settings.Server.Entries.{ConfigDetail, detail, Version, version_of}
use lite_settings.Lsctl.Backend.{
  BackendError, err_not_found, err_not_supported, store_error, no_response, bad_status,
}
use lite_settings.Lsctl.Backend.Db
use lite_settings.Lsctl.Backend.Db.{db_backend, some_versions, map_err, mapped}
use lite_settings.Lsctl.Backend.Http.{Wire, http_backend}
use lite_settings.Lsctl.Backend.Agree.{IsSegment, Routes, is_not_found, Same}
use lite_settings.Lsctl.Backend.Agree.Reads.{reads-Same}
use lite_settings.Lsctl.Command.{
  Root, CommandError, failed, is_absence, exit_code, exit_not_found, fails, Print,
}
use lite_settings.Lsctl.Command.Read.{
  pick_version, found_version, searched, find_version, of_backend, shown, is_positive, get_run,
  show_detail, show_version,
}

-- The search over the versions that the API shows finds the row of the table.
pick_version-rows :
    (n : ℕ) (hs : List HistoryEntry) (h : HistoryEntry)
    → Tables.find_version n hs ≡ some h
    → pick_version (pos n) (map version_of hs) ≡ some (version_of h)
unfolding Tables.find_version pick_version
pick_version-rows n [] h e = cc
pick_version-rows n (g ∷ hs) h e = ground (arith, pick_version-rows n hs h)

pick_version-none :
    (n : ℕ) (hs : List HistoryEntry)
    → Tables.find_version n hs ≡ none
    → pick_version (pos n) (map version_of hs) ≡ none
unfolding Tables.find_version pick_version
pick_version-none n [] e = refl
pick_version-none n (g ∷ hs) e = ground (arith, pick_version-none n hs)

-- A result with an absence, or with the value.
abbrev pub Finds : {A : Type 0} → Option A → Result CommandError A → Type 0
Finds none (ok a) = ⊥
Finds none (err x) = is_absence x ≡ true
Finds (some b) (ok a) = a ≡ b
Finds (some b) (err x) = ⊥

abbrev as_version : Option HistoryEntry → Option Version
as_version none = none
as_version (some h) = some (version_of h)

-- The version of the key's rows with a number.
abbrev pub version_row : ℕ → List HistoryEntry → Option Version
version_row n hs = as_version (Tables.find_version n hs)

searched-Finds :
    (key : Text) (n : ℕ) (hs : List HistoryEntry)
    → Finds (version_row n hs) (searched key (pos n) (some_versions (ok hs)))
unfolding map_err Tables.find_version
searched-Finds key n [] = refl
searched-Finds key n (g ∷ hs) = by_row (Option-cases (Tables.find_version n (g ∷ hs)))
  where
    by_row :
        (Tables.find_version n (g ∷ hs) ≡ none)
          ⊎ ((h : HistoryEntry) × (Tables.find_version n (g ∷ hs) ≡ some h))
        → Finds (version_row n (g ∷ hs)) (searched key (pos n) (some_versions (ok (g ∷ hs))))
    by_row (inl e) =
        subst (λ o. Finds (as_version o) (searched key (pos n) (some_versions (ok (g ∷ hs)))))
          (sym e)
          (subst (λ o. Finds none (found_version key (pos n) (map version_of (g ∷ hs)) o))
            (sym (pick_version-none n (g ∷ hs) e)) refl)
    by_row (inr (h, e)) =
        subst (λ o. Finds (as_version o) (searched key (pos n) (some_versions (ok (g ∷ hs)))))
          (sym e)
          (subst
            (λ o.
              Finds (some (version_of h)) (found_version key (pos n) (map version_of (g ∷ hs)) o))
            (sym (pick_version-rows n (g ∷ hs) h e)) refl)

-- The search of `lsctl get --version` over the back end of the database finds the row with that version,
-- the one that a rollback restores, and else reports an absence.
pub find_version-row :
    (e : Env) (p : Parsers) (key : Text) (n : ℕ) (t : Tables)
    → validate_key key ≡ ok tt
    → e.refuses select_history ≡ false
    → Numbered (of_key key t.history)
    → Finds (version_row n (of_key key t.history)) (find_version (db_backend e p) key (pos n) t)
unfolding find_version Db.history
find_version-row e p key n t valid accepts numbered =
    rw (history-newest e key minus_one t valid accepts numbered)
      (searched-Finds key n (of_key key t.history))

abbrev config_detail : Option Config → Option ConfigDetail
config_detail none = none
config_detail (some c) = some (detail c)

abbrev found : Option Config → Result StoreError Config
found none = err not_found
found (some c) = ok c

get-Finds :
    (e : Env) (p : Parsers) (key : Text) (t : Tables)
    → validate_key key ≡ ok tt
    → e.refuses select_config ≡ false
    → Finds (config_detail (find_config key t.configs)) (of_backend (Db.get e key t))
unfolding Db.get Read.get get_config map_err
get-Finds e p key t valid accepts = rw (valid, accepts) (by_config (find_config key t.configs))
  where
    by_config :
        (o : Option Config) → Finds (config_detail o) (of_backend (mapped detail (Read.found o)))
    by_config none = refl
    by_config (some c) = refl

exit_code-Finds :
    {A : Type 0} (o : Option A) (r : Result CommandError A) (t : Tables) (print : A → List Print)
    → Finds o r
    → (exit_code (shown t r print) ≡ exit_not_found) ↔ (o ≡ none)
unfolding exit_code
exit_code-Finds none (err x) t print f = (λ h. refl, λ h. rw f refl)
exit_code-Finds none (ok a) t print f = absurd f
exit_code-Finds (some b) (ok a) t print f = (λ h. ground arith, λ h. cc)
exit_code-Finds (some b) (err x) t print f = absurd f

config_detail-none : (o : Option Config) → (config_detail o ≡ none) ↔ (o ≡ none)
config_detail-none none = (λ h. refl, λ h. refl)
config_detail-none (some c) = (λ h. cc, λ h. cc)

as_version-none : (o : Option HistoryEntry) → (as_version o ≡ none) ↔ (o ≡ none)
as_version-none none = (λ h. refl, λ h. refl)
as_version-none (some c) = (λ h. cc, λ h. cc)

-- On a database that answers, with a valid key whose versions are numbered, lsctl get exits with
-- code 4 exactly if the key has no config, and lsctl get --version n, n positive, exactly if no
-- row of the key's history has that version.
pub get_run-absence :
    (e : Env) (p : Parsers) (r : Root) (key : Text) (n : ℕ) (t : Tables)
    → validate_key key ≡ ok tt
    → e.refuses select_history ≡ false
    → e.refuses select_config ≡ false
    → Numbered (of_key key t.history)
    → ((exit_code (get_run r (pos 0) key (db_backend e p) t) ≡ exit_not_found)
        ↔ (find_config key t.configs ≡ none))
      × ((exit_code (get_run r (pos (suc n)) key (db_backend e p) t) ≡ exit_not_found)
          ↔ (Tables.find_version (suc n) (of_key key t.history) ≡ none))
unfolding get_run
get_run-absence e p r key n t valid accepts reads numbered =
    let now =
      exit_code-Finds (config_detail (find_config key t.configs)) (of_backend (Db.get e key t)) t
        (show_detail r) (get-Finds e p key t valid reads) in
    let past =
      exit_code-Finds (version_row (suc n) (of_key key t.history))
        (find_version (db_backend e p) key (pos (suc n)) t) t (show_version r)
        (find_version-row e p key (suc n) t valid accepts numbered) in
    (
      (λ h. (config_detail-none _).0 (now.0 h), λ h. now.1 ((config_detail-none _).1 h)),
      (λ h. (as_version-none _).0 (past.0 h), λ h. past.1 ((as_version-none _).1 h)),
    )

is_absence-failed : (e : BackendError) → is_absence (failed e) ≡ is_not_found e
is_absence-failed err_not_found = refl
is_absence-failed err_not_supported = refl
is_absence-failed (store_error y) = refl
is_absence-failed no_response = refl
is_absence-failed (bad_status n) = refl

exit_code-failed :
    (e f : BackendError) (t : Tables)
    → is_not_found e ≡ is_not_found f
    → exit_code (fails t (failed e)) ≡ exit_code (fails t (failed f))
unfolding exit_code
exit_code-failed e f t same = ground (arith, is_absence-failed e, is_absence-failed f, same)

exit_code-of_backend :
    {A : Type 0} (a b : Result BackendError A) (t : Tables) (print : A → List Print)
    → Same a b
    → exit_code (shown t (of_backend a) print) ≡ exit_code (shown t (of_backend b) print)
exit_code-of_backend (ok a) (ok b) t print same = rw same refl
exit_code-of_backend (ok a) (err f) t print same = absurd same
exit_code-of_backend (err e) (ok b) t print same = absurd same
exit_code-of_backend (err e) (err f) t print same = exit_code-failed e f t same

exit_code-searched :
    (key : Text) (v : ℤ) (a b : Result BackendError (List Version)) (t : Tables)
    (print : Version → List Print)
    → Same a b
    → exit_code (shown t (searched key v a) print) ≡ exit_code (shown t (searched key v b) print)
exit_code-searched key v (ok a) (ok b) t print same = rw same refl
exit_code-searched key v (ok a) (err f) t print same = absurd same
exit_code-searched key v (err e) (ok b) t print same = absurd same
exit_code-searched key v (err e) (err f) t print same = exit_code-failed e f t same

-- lsctl get, with a version or without one, exits with the same code over HTTP as on the
-- database, over the same tables and engine, for a key that is not empty, nor a dot or two.
pub get_run-agrees :
    (x : Wire) (e : Env) (p : Parsers) (r : Root) (version : ℤ) (key : Text) (t : Tables)
    → Routes x
    → IsSegment key
    → exit_code (get_run r version key (http_backend x e p) t)
      ≡ exit_code (get_run r version key (db_backend e p) t)
unfolding get_run find_version
get_run-agrees x e p r version key t routes segment =
    let (get, history) = reads-Same x e key minus_one t routes segment (λ h. cc) in
    elim (Bool-cases (is_positive version)) [
      | inl h ↦ rw h (exit_code-searched key version _ _ t (show_version r) history)
      | inr h ↦ rw h (exit_code-of_backend _ _ t (show_detail r) get)
    ]
