-- ===== src/Lsctl/Ui/Commands.antt =====
-- What the commands of the interface do when they run, outside `Update`: the functions that
-- `loadKeys`, `loadDetail` and `doWrite` of cmd/lsctl/internal/ui/model.go return. An error of the back
-- end is shown as a text.
pub mod Answers
use lite_settings.Base.{
  ℕ, ◌≡◌, refl, Bool, true, false, List, [], ◌∷◌, Option, none, some, inl, inr, arith, Result, ok,
  err, Option-cases, Result-cases,
}
use lite_settings.Base.Int.{ℤ, pos}
use lite_settings.Base.Text.{Text, text_eq, text_eq_iff}
use lite_settings.Store.Validate.{StoreError, Change, Parsers, validate_key}
use lite_settings.Store.Tables.{Config, Tables, Env, find_config, get_config}
use lite_settings.Store.Read
use lite_settings.Server.Entries.{ConfigDetail, detail, Version, ApiWriteResult}
use lite_settings.Lsctl.Backend.{BackendError, err_not_found, Written, Backend}
use lite_settings.Lsctl.Backend.Db
use lite_settings.Lsctl.Backend.Db.{db_backend}
use lite_settings.Lsctl.Backend.Http.{Wire, http_backend}
use lite_settings.Lsctl.Backend.Agree.{Same}
use lite_settings.Lsctl.Backend.Agree.Reads.{reads-Same}
use lite_settings.Lsctl.Ui.{
  Pending, PendKind, pend_set, pend_rollback, Loaded, Msg, keys_msg, detail_msg, write_msg,
}
use lite_settings.Lsctl.Ui.Safety.{Genuine}

abbrev pub ui_history_limit : ℤ
ui_history_limit = pos 50

abbrev explained : {A : Type 0} → (BackendError → Text) → Result BackendError A → Result Text A
explained show (ok a) = ok a
explained show (err e) = err (show e)

unfoldable pub fetch_keys : (BackendError → Text) → Backend → List Text → ℕ → Tables → Msg
fetch_keys show be prefixes seq t = keys_msg seq (explained show (be.list prefixes t))

-- A history that is missing is empty, and no error.
abbrev history_of :
    (BackendError → Text) → Result BackendError (List Version) → List Version × Option Text
history_of show (ok h) = (h, none)
history_of show (err err_not_found) = ([], none)
history_of show (err e) = ([], some (show e))

abbrev pub detail_of :
    (BackendError → Text)
    → Result BackendError ConfigDetail
    → Result BackendError (List Version)
    → Result Text Loaded
detail_of show (err e) r = err (show e)
detail_of show (ok d) r = ok (d, (history_of show r).0, (history_of show r).1)

-- The tables may have changed between the two queries.
unfoldable pub fetch_detail : (BackendError → Text) → Backend → ℕ → Text → Tables → Tables → Msg
fetch_detail show be seq key t₁ t₂ =
    detail_msg seq key (detail_of show (be.get key t₁) (be.history key ui_history_limit t₂))

unfoldable pub write_pending : Backend → Text → Pending → Tables → Written
write_pending be author p t = elim p.kind [
  | pend_set value format ↦
      be.set p.key value format (record { author = author; comment = p.comment }) t
  | pend_rollback v ↦ be.rollback p.key (pos v) (record { author = author; comment = p.comment }) t
]

abbrev reported : (BackendError → Text) → Pending → Written → Tables × Msg
reported show p (t, r) = (t, write_msg p.action p.key (explained show r))

unfoldable pub do_write : (BackendError → Text) → Backend → Text → Pending → Tables → Tables × Msg
unfolding write_pending
do_write show be author p t = reported show p (write_pending be author p t)
