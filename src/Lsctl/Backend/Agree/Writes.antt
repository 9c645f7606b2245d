-- ===== src/Lsctl/Backend/Agree/Writes.antt =====
-- Writes: the same tables after them, and the same answer.
use lite_settings.Base.{
  true, ℕ, suc, ◌≤◌, ◌^◌, ◌≡◌, ◌≢◌, refl, ap, Bool, false, [], ◌∷◌, some, inl, inr, arith, ltb,
  length, if◌then◌else◌, Option-cases, Bool-cases,
}
use lite_settings.Base.Int.{ℤ, pos}
use lite_settings.Base.Text.{Text, text_eq, text_eq_iff}
use lite_settings.Store.Validate.{Change, Parsers, max_value_size, format_raw}
use lite_settings.Store.Tables.{Tables, Env, set}
use lite_settings.Store.Write.{write, resolve_set, set_config, rollback_config}
use lite_settings.Server.Entries
use lite_settings.Server.Entries.{
  ApiWriteResult, Asked, change, parse_format, read_body, complete, handle_get, handle_history,
  handle_set, handle_delete, handle_rollback, roll_back,
}
use lite_settings.Lsctl.Backend.Db
use lite_settings.Lsctl.Backend.Db.{map_err}
use lite_settings.Lsctl.Backend.Http
use lite_settings.Lsctl.Backend.Http.{
  configs_of, Wire, received, answered, add_change, history_limit,
}
use lite_settings.Lsctl.Backend.Agree.{IsSegment, Routes, SameWrite, written-SameWrite}

change-add_change : (c : Change) → c.author ≢ [] → change (add_change c) ≡ c
unfolding change add_change
change-add_change c named = elim (Bool-cases (text_eq c.author [])) [
  | inl e ↦ absurd (named ((text_eq_iff c.author []).0 e))
  | inr e ↦ simp e refl
]

-- A format that the server accepts is stored alike, the empty one as raw.
abbrev stored_format : Text → Text
stored_format f = if text_eq f [] then format_raw else f

parse_format-stored :
    (format f : Text) → parse_format format ≡ some f → stored_format f ≡ stored_format format
unfolding parse_format text_eq
parse_format-stored [] f h = ground arith
parse_format-stored (c ∷ format) f h = elim (Option-cases (parse_format (c ∷ format))) [
  | inl e ↦ cc
  | inr (g, e) ↦ ground arith
]

set_config-stored :
    (e : Env) (p : Parsers) (key value f g : Text) (c : Change) (t : Tables)
    → stored_format f ≡ stored_format g
    → set_config e p key value f c t ≡ set_config e p key value g c t
unfolding set_config
set_config-stored e p key value f g c t same =
    ap (λ h. write e p key set c (resolve_set value h) t) same

handle_set-known :
    (cancelled : Bool) (e : Env) (p : Parsers) (key value format f : Text) (q : Asked) (t : Tables)
    → parse_format format ≡ some f
    → length value ≤ max_value_size
    → handle_set cancelled e p key format (complete value) q t
      ≡ Entries.write_result cancelled key (set_config e p key value f (change q) t)
unfolding handle_set read_body
handle_set-known cancelled e p key value format f q t known fits =
    let fine : ltb max_value_size (length value) ≡ false = ground arith in
    rw (known, fine, handle_set, read_body) refl

-- Same as `Set` of the same value and change, by an author that is named, in a format that the server
-- knows and within its size.
set-SameWrite :
    (x : Wire) (e : Env) (p : Parsers) (key value format f : Text) (c : Change) (t : Tables)
    → x.routed key ≡ true
    → c.author ≢ []
    → parse_format format ≡ some f
    → length value ≤ max_value_size
    → SameWrite (Http.set x e p key value format c t) (Db.set e p key value format c t)
unfolding Http.set Db.set
set-SameWrite x e p key value format f c t routed named known fits =
    let stored = parse_format-stored format f known in
    rw
      (
        routed,
        handle_set-known x.cancelled e p key value format f (add_change c) t known fits,
        change-add_change c named,
        set_config-stored e p key value f format c t stored,
      )
      (written-SameWrite x.cancelled key (set_config e p key value format c t))

delete-SameWrite :
    (x : Wire) (e : Env) (p : Parsers) (key : Text) (c : Change) (t : Tables)
    → x.routed key ≡ true
    → c.author ≢ []
    → SameWrite (Http.delete x e p key c t) (Db.delete e p key c t)
unfolding Http.delete Db.delete handle_delete
delete-SameWrite x e p key c t routed named =
    rw (routed, change-add_change c named) (written-SameWrite x.cancelled key _)

-- The JSON of a version comes back, and fits the server's limit for such a body.
pub record Carries (x : Wire) (v : ℤ) : Type 0 where
  pub round_trip : x.decode_version (x.encode_version v) ≡ some v
  pub fits : length (x.encode_version v) ≤ 2 ^ 12

handle_rollback-known :
    (x : Wire) (e : Env) (p : Parsers) (key : Text) (n : ℕ) (q : Asked) (t : Tables)
    → Carries x (pos (suc n))
    → handle_rollback x.cancelled e p x.decode_version key
        (complete (x.encode_version (pos (suc n))))
        q
        t
      ≡ Entries.write_result x.cancelled key (rollback_config e p key (pos (suc n)) (change q) t)
unfolding handle_rollback roll_back read_body
handle_rollback-known x e p key n q t carries =
    let small = carries.fits in
    let fine : ltb (2 ^ 12) (length (x.encode_version (pos (suc n)))) ≡ false = ground arith in
    rw (fine, carries.round_trip, handle_rollback, read_body) refl

rollback-SameWrite :
    (x : Wire) (e : Env) (p : Parsers) (key : Text) (n : ℕ) (c : Change) (t : Tables)
    → x.routed key ≡ true
    → Carries x (pos (suc n))
    → c.author ≢ []
    → SameWrite (Http.rollback x e p key (pos (suc n)) c t) (Db.rollback e p key (pos (suc n)) c t)
unfolding Http.rollback Db.rollback
rollback-SameWrite x e p key n c t routed carries named =
    rw
      (
        routed,
        handle_rollback-known x e p key n (add_change c) t carries,
        change-add_change c named,
      )
      (written-SameWrite x.cancelled key (rollback_config e p key (pos (suc n)) c t))

-- Over the same tables and engine, Set, Delete and Rollback through the server leave the same
-- tables as on the database, and answer alike: the same key, version and revision, or an error
-- on both sides that is ErrNotFound on both or on neither. The key is not empty, nor a dot or two,
-- and other keys are routed to their handlers; the author is not empty, the format is one that the
-- server knows, the value is within its size, the version of the rollback is positive, and the JSON
-- of the rollback comes back and fits its limit.
pub writes-SameWrite :
    (x : Wire) (e : Env) (p : Parsers) (key value format f : Text) (n : ℕ) (c : Change) (t : Tables)
    → Routes x
    → IsSegment key
    → Carries x (pos (suc n))
    → c.author ≢ []
    → parse_format format ≡ some f
    → length value ≤ max_value_size
    → SameWrite (Http.set x e p key value format c t) (Db.set e p key value format c t)
      × SameWrite (Http.delete x e p key c t) (Db.delete e p key c t)
      × SameWrite
          (Http.rollback x e p key (pos (suc n)) c t)
          (Db.rollback e p key (pos (suc n)) c t)
writes-SameWrite x e p key value format f n c t routes segment carries named known fits = (
  set-SameWrite x e p key value format f c t (routes key segment) named known fits,
  delete-SameWrite x e p key c t (routes key segment) named,
  rollback-SameWrite x e p key n c t (routes key segment) carries named,
)
