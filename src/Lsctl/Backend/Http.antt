-- ===== src/Lsctl/Backend/Http.antt =====
-- cmd/lsctl/internal/backend/http.go: the back end that sends each operation to the server, and the
-- handler that serves it. net/http and the JSON codec carry the request and the response between.
use lite_settings.Base.{
  zero, suc, Bool, ◌&&◌, List, Option, leb, ◌==◌, if◌then◌else◌, Result, ok, err,
}
use lite_settings.Base.Int.{ℤ, pos, negsuc}
use lite_settings.Base.Text.{Text}
use lite_settings.Store.Validate.{Change, Parsers}
use lite_settings.Store.Tables.{Tables, Env}
use lite_settings.Server.Watcher.{Watcher}
use lite_settings.Server.Handlers.{
  ApiConfig, ApiSnapshot, Body, body, error_body, no_body, no_reply, Query, handle_list,
}
use lite_settings.Server.Entries.{
  ApiWriteResult, ConfigDetail, Version, Limit, no_limit, limit_of, complete, Asked, Answer,
  handle_get, handle_history, handle_set, handle_delete, handle_rollback,
}
use lite_settings.Lsctl.Backend.{
  BackendError, err_not_found, no_response, bad_status, Written, Backend,
}

-- What is not the program's: whether a response of the server is lost, the server's watcher, the
-- JSON of a rollback request, and the routing of net/http. `cancelled` is that the server sees its
-- client gone. `routed` says that the path of a key, built by url.PathEscape, leads to the handlers
-- of that key. Any other path is cleaned and redirected; the stray fields are what the back end then
-- makes of the response, and no handler that writes is reached.
pub record Wire : Type 0 where
  pub cancelled : Bool
  pub watcher : Watcher
  pub encode_version : ℤ → Text
  pub decode_version : Text → Option ℤ
  pub routed : Text → Bool
  pub stray_detail : Text → Result BackendError ConfigDetail
  pub stray_versions : Text → Result BackendError (List Version)
  pub stray_result : Text → Result BackendError ApiWriteResult

-- `do`: a body of a status that is 2xx decodes; a response that a proxy sends instead is not modelled.
unfoldable pub received : {A : Type 0} → Body A → Result BackendError A
received (body code a) =
    if code == 404
    then err err_not_found
    else if leb 200 code && leb code 299
    then ok a
    else err (bad_status code)
received (error_body code) = if code == 404 then err err_not_found else err (bad_status code)
received (no_body code) = err (bad_status code)
received no_reply = err no_response

unfoldable pub answered : Answer → Written
unfolding received
answered (t, b) = (t, received b)

-- An author or a comment that is empty is not sent, which the handler reads as empty.
unfoldable pub add_change : Change → Asked
add_change c = record { author = c.author; comment = c.comment }

-- The limit of the query string: a negative limit asks for all, and 0 for the server's default.
unfoldable pub history_limit : ℤ → Limit
history_limit (pos zero) = no_limit
history_limit (pos (suc n)) = limit_of (pos (suc n))
history_limit (negsuc n) = limit_of (pos 0)

abbrev pub configs_of : Result BackendError ApiSnapshot → Result BackendError (List ApiConfig)
configs_of (ok s) = ok s.configs
configs_of (err e) = err e

unfoldable pub get : Wire → Env → Text → Tables → Result BackendError ConfigDetail
unfolding received
get x e key t =
    if x.routed key then received (handle_get x.cancelled e key t) else x.stray_detail key

unfoldable pub list : Wire → Env → List Text → Tables → Result BackendError (List ApiConfig)
unfolding received
list x e ps t =
    let q : Query = record { env = e; tables = t } in
    configs_of (received (handle_list x.cancelled x.watcher q q q ps))

unfoldable pub history : Wire → Env → Text → ℤ → Tables → Result BackendError (List Version)
unfolding received history_limit
history x e key limit t =
    if x.routed key
    then received (handle_history x.cancelled e key (history_limit limit) t)
    else x.stray_versions key

unfoldable pub set : Wire → Env → Parsers → Text → Text → Text → Change → Tables → Written
unfolding answered add_change
set x e p key value format c t =
    if x.routed key
    then answered (handle_set x.cancelled e p key format (complete value) (add_change c) t)
    else (t, x.stray_result key)

unfoldable pub delete : Wire → Env → Parsers → Text → Change → Tables → Written
unfolding answered add_change
delete x e p key c t =
    if x.routed key
    then answered (handle_delete x.cancelled e p key (add_change c) t)
    else (t, x.stray_result key)

unfoldable pub rollback : Wire → Env → Parsers → Text → ℤ → Change → Tables → Written
unfolding answered add_change
rollback x e p key version c t =
    if x.routed key
    then answered (
        handle_rollback x.cancelled e p x.decode_version key (complete (x.encode_version version))
          (add_change c) t)
    else (t, x.stray_result key)

-- `httpBackend`.
abbrev pub http_backend : Wire → Env → Parsers → Backend
http_backend x e p = record {
  get = get x e;
  list = list x e;
  set = set x e p;
  delete = delete x e p;
  history = history x e;
  rollback = rollback x e p;
}
